-- ===== src/Tests/Status.antt =====
-- A request for a Core's key at a concrete input: the Core is down twice, and then answers.
use chainpoint_core_erc.Prelude.{
  ℕ, zero, suc, ◌<◌, ◌≤◌, ◌≡◌, refl, true, Option, none, some, arith, ◌==◌, if◌then◌else◌,
}
use chainpoint_core_erc.Exec.{ok}
use chainpoint_core_erc.Endpoints.{failed}
use chainpoint_core_erc.UsageToken.State.{Jwk, CoreStatus}
use chainpoint_core_erc.UsageToken.TokenUtils.{request_jwk}
use chainpoint_core_erc.UsageToken.StatusRequest.{
  HttpAnswer, answered, refused, Attempt, returned, thrown, bailed, Retry, RetryLaws, StatusSource,
  with_status_request,
}
use chainpoint_core_erc.UsageToken.Recovered.{request_jwk_decided}
use chainpoint_core_erc.Tests.Token.{token_env, api_world}

-- `later` is what follows a throw.
abbrev after_run : Attempt → Option (Option CoreStatus) → Option (Option CoreStatus)
after_run (returned body) later = some body
after_run thrown later = later
after_run bailed later = none

abbrev run_again : Retry
run_again zero f = after_run (f 0) none
run_again (suc retries) f = after_run (f 0) (run_again retries (λ j. f (suc j)))

run_again-resolves :
    (retries : ℕ) (f : ℕ → Attempt) (k : ℕ) (body : Option CoreStatus)
    → k ≤ retries
    → ((j : ℕ) → j < k → f j ≡ thrown)
    → f k ≡ returned body
    → run_again retries f ≡ some body
run_again-resolves zero f zero body within before here = rw here refl
run_again-resolves zero f (suc k) body within before here = absurd (omega (arith, within))
run_again-resolves (suc r) f zero body within before here = rw here refl
run_again-resolves (suc r) f (suc k) body within before here = rw (before 0 (omega arith)) (
    run_again-resolves r (λ j. f (suc j)) k body (omega (arith, within))
      (λ j below. before (suc j) (omega (arith, below))) here)

run_again-bails :
    (retries : ℕ) (f : ℕ → Attempt) (k : ℕ)
    → k ≤ retries
    → ((j : ℕ) → j < k → f j ≡ thrown)
    → f k ≡ bailed
    → run_again retries f ≡ none
run_again-bails zero f zero within before here = rw here refl
run_again-bails zero f (suc k) within before here = absurd (omega (arith, within))
run_again-bails (suc r) f zero within before here = rw here refl
run_again-bails (suc r) f (suc k) within before here = rw (before 0 (omega arith)) (
    run_again-bails r (λ j. f (suc j)) k (omega (arith, within))
      (λ j below. before (suc j) (omega (arith, below))) here)

run_again-gives_up :
    (retries : ℕ) (f : ℕ → Attempt)
    → ((j : ℕ) → j ≤ retries → f j ≡ thrown)
    → run_again retries f ≡ none
run_again-gives_up zero f all = rw (all 0 (omega arith)) refl
run_again-gives_up (suc r) f all =
    rw (all 0 (omega arith))
      (run_again-gives_up r (λ j. f (suc j)) (λ j below. all (suc j) (omega (arith, below))))

run_again-RetryLaws : RetryLaws run_again
run_again-RetryLaws = record {
  resolves = run_again-resolves;
  bails = run_again-bails;
  gives_up = run_again-gives_up;
}

abbrev key_k1 : Jwk
key_k1 = record { kid = "k1"; key = "pem" }

-- no response, then a server error
abbrev down_twice : ℕ → HttpAnswer
down_twice zero = refused none
down_twice (suc zero) = refused (some 503)
down_twice (suc (suc n)) = answered (some (record { jwk = some key_k1; node_id = some "core2" }))

abbrev recovering : StatusSource
recovering = record {
  retry = run_again;
  own_status = failed 500 none;
  read_status = λ info node_status. record { jwk = none; node_id = none };
  http_get = λ uri n. if uri == "http://10.0.0.2/status" then down_twice n else refused (some 404);
}

request_jwk_decided_example :
    (request_jwk (with_status_request recovering token_env) true "k1" "http://10.0.0.2" api_world).0
    ≡ ok (some key_k1)
request_jwk_decided_example =
    request_jwk_decided recovering token_env true "k1" "http://10.0.0.2" api_world
      run_again-RetryLaws refl
