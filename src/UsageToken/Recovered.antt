-- ===== src/UsageToken/Recovered.antt =====
-- token-utils.js: which answer of a Core decides what its key is taken to be.
use Prim.Native.String
use chainpoint_core_erc.Prelude.{
  ℕ, zero, suc, ◌<◌, ◌≤◌, ◌≡◌, refl, sym, ap, ◌∙◌, Bool, true, false, not, Option, none, some,
  String, ◌==◌, if◌then◌else◌, ◌⊎◌, inl, inr, arith, ltb, ◌&&◌, Bool-cases,
}
use chainpoint_core_erc.Exec.{Result, ok, err, pure, try_catch, handle, ◌>>=◌, ◌>>◌}
use chainpoint_core_erc.UsageToken.State.{Jwk, CoreStatus, ApiWorld}
use chainpoint_core_erc.UsageToken.Calls.{execute}
use chainpoint_core_erc.UsageToken.TokenUtils.{
  TokenEnv, on_option, jwk_of_status, cache_jwk, request_jwk,
}
use chainpoint_core_erc.UsageToken.StatusRequest.{
  HttpAnswer, answered, refused, thrown, is_retried, attempt_of, RetryLaws, StatusSource,
  core_status_request_with, core_status_request, with_status_request,
}

-- Neither a failure without a response nor one of the server.
abbrev pub is_final : HttpAnswer → Bool
is_final (answered body) = true
is_final (refused none) = false
is_final (refused (some status_code)) = ltb 0 status_code && ltb status_code 500

is_final-refused : (c : Option ℕ) → is_final (refused c) ≡ not (is_retried c)
is_final-refused none = refl
is_final-refused (some c) = ground arith

-- The first of `n` answers that is not a failure to try again after.
abbrev pub first_final : ℕ → (ℕ → HttpAnswer) → Option HttpAnswer
first_final zero f = none
first_final (suc n) f = if is_final (f 0) then some (f 0) else first_final n (λ j. f (suc j))

abbrev pub body_of : Option HttpAnswer → Option (Option CoreStatus)
body_of none = none
body_of (some (answered body)) = some body
body_of (some (refused status_code)) = none

-- Where the first final answer is.
record FoundAt (n : ℕ) (f : ℕ → HttpAnswer) : Type 0 where
  pub at : ℕ
  pub within : at < n
  pub before : (j : ℕ) → j < at → is_final (f j) ≡ false
  pub final : is_final (f at) ≡ true
  pub first : first_final n f ≡ some (f at)

record NoneOf (n : ℕ) (f : ℕ → HttpAnswer) : Type 0 where
  pub all : (j : ℕ) → j < n → is_final (f j) ≡ false
  pub first : first_final n f ≡ none

shifted :
    (m : ℕ) (f : ℕ → HttpAnswer)
    → is_final (f 0) ≡ false
    → ((j : ℕ) → j < m → is_final (f (suc j)) ≡ false)
    → (j : ℕ) → j < suc m
    → is_final (f j) ≡ false
shifted m f here later zero below = here
shifted m f here later (suc j) below = later j (omega arith)

first_final_found : (n : ℕ) (f : ℕ → HttpAnswer) → FoundAt n f ⊎ NoneOf n f
first_final_found zero f = inr (record { all = λ j below. ground arith; first = refl })
first_final_found (suc n) f =
    let rest = first_final_found n (λ j. f (suc j)) in
    elim (Bool-cases (is_final (f 0))) [
      | inl eq ↦ inl (record {
        at = 0;
        within = omega arith;
        before = λ j below. ground arith;
        final = eq;
        first = rw eq refl;
      })
      | inr eq ↦ elim rest [
        | inl found ↦ inl (record {
          at = suc found.at;
          within = omega (arith, found.within);
          before = shifted found.at f eq found.before;
          final = found.final;
          first = rw eq found.first;
        })
        | inr nowhere ↦
            inr (record { all = shifted n f eq nowhere.all; first = rw eq nowhere.first })
      ]
    ]

attempt_of-thrown : (a : HttpAnswer) → is_final a ≡ false → attempt_of a ≡ thrown
unfolding attempt_of
attempt_of-thrown (answered body) never = absurd (cc never)
attempt_of-thrown (refused c) retried = elim (Bool-cases (is_retried c)) [
  | inl e ↦ rw e refl
  | inr e ↦ absurd (cc (retried, is_final-refused c, e))
]

-- How `retry` ends where the k-th run meets a final answer.
retry_at :
    (source : StatusSource) (n : ℕ) (f : ℕ → HttpAnswer) (k : ℕ) (a : HttpAnswer)
    → RetryLaws source.retry
    → k ≤ n
    → ((j : ℕ) → j < k → attempt_of (f j) ≡ thrown)
    → f k ≡ a
    → is_final a ≡ true
    → source.retry n (λ j. attempt_of (f j)) ≡ body_of (some a)
unfolding attempt_of
retry_at source n f k (answered body) laws within before here final =
    laws.resolves n _ k body within before (ap attempt_of here)
retry_at source n f k (refused c) laws within before here final = elim (Bool-cases (is_retried c)) [
  | inl e ↦ absurd (cc (final, is_final-refused c, e))
  | inr e ↦ laws.bails n _ k within before (ap attempt_of here ∙ rw e refl)
]

retry_lem :
    (source : StatusSource) (n : ℕ) (f : ℕ → HttpAnswer)
    → RetryLaws source.retry
    → source.retry n (λ j. attempt_of (f j)) ≡ body_of (first_final (suc n) f)
retry_lem source n f laws = elim (first_final_found (suc n) f) [
  | inl found ↦
      retry_at source n f found.at (f found.at) laws (omega (arith, found.within))
        (λ j below. attempt_of-thrown (f j) (found.before j below)) refl found.final
      ∙ ap body_of (sym found.first)
  | inr nowhere ↦
      laws.gives_up n _ (λ j below. attempt_of-thrown (f j) (nowhere.all j (omega (arith, below))))
      ∙ ap body_of (sym nowhere.first)
]

handle-ok : (r : Result (Unit {0})) (w : ApiWorld) → (handle r (λ _. pure tt) w).0 ≡ ok tt
unfolding pure
handle-ok (ok u) w = refl
handle-ok (err e) w = refl

cache_jwk-ok : (redis : Bool) (k : Jwk) (w : ApiWorld) → (cache_jwk redis k w).0 ≡ ok tt
unfolding cache_jwk try_catch execute pure
cache_jwk-ok false k w = refl
cache_jwk-ok true k w = handle-ok _ _

requested-ok :
    (redis : Bool) (found : Option Jwk) (w : ApiWorld)
    → (on_option found (pure none) (λ k. do cache_jwk redis k; pure (some k)) w).0 ≡ ok found
unfolding on_option pure ◌>>=◌
requested-ok redis none w = refl
requested-ok redis (some k) w = rw (cache_jwk-ok redis k w) refl

-- Where package async-retry does as documented, and another Core is asked for a key: the key taken is
-- that of the status in the first of four answers that is not a failure without a response, of the
-- status code 0, or with one from 500 on, if that answer is a status with a key of that identity; in
-- every other case no key is taken. This holds whatever the outcomes of the other calls.
pub request_jwk_decided :
    (source : StatusSource) (env : TokenEnv) (redis : Bool) (kid iss : String) (w : ApiWorld)
    → RetryLaws source.retry
    → (iss == env.base_uri) ≡ false
    → (request_jwk (with_status_request source env) redis kid iss w).0
      ≡ ok (
          jwk_of_status kid (body_of (first_final 4 (source.http_get (String.◌++◌ iss "/status")))))
unfolding request_jwk core_status_request core_status_request_with
request_jwk_decided source env redis kid iss w laws other =
    requested-ok redis _ w
    ∙ rw other (ap (λ a. ok (jwk_of_status kid a)) (retry_lem source 3 _ laws))
