-- ===== src/UsageToken/StatusRequest.antt =====
-- node-api-service/lib/token-utils.js: coreStatusRequestAsync, which asks a Core for its status with
-- package async-retry, and what the request for a Core's key makes of it.
use Prim.Native.String
use chainpoint_core_erc.Prelude.{
  ℕ, ◌<◌, ◌≤◌, ◌≡◌, Bool, true, Option, none, some, String, ◌==◌, eqb, leb, ◌||◌, if◌then◌else◌,
}
use chainpoint_core_erc.Endpoints.{CoreInfo, BuiltStatus, built, failed}
use chainpoint_core_erc.UsageToken.State.{CoreStatus}
use chainpoint_core_erc.UsageToken.TokenUtils.{TokenEnv}

-- How one HTTP request ends: with a body, `none` if it is empty, or with an error, which has a status
-- code if a response came.
pub data HttpAnswer : Type 0 where
  answered : Option CoreStatus → HttpAnswer
  refused : Option ℕ → HttpAnswer

-- How one run of the function given to `retry` ends.
pub data Attempt : Type 0 where
  returned : Option CoreStatus → Attempt
  thrown bailed : Attempt

-- Whether an error is thrown, and not handed to `bail`; no status code is as the code 0.
abbrev pub is_retried : Option ℕ → Bool
is_retried none = true
is_retried (some status_code) = eqb status_code 0 || leb 500 status_code

unfoldable pub attempt_of : HttpAnswer → Attempt
attempt_of (answered body) = returned body
attempt_of (refused status_code) = if is_retried status_code then thrown else bailed

-- `retry(f, { retries })`: `f` gives how a run ends by the number of runs before it; the result is none
-- if `retry` rejects.
abbrev pub Retry : Type 0
Retry = ℕ → (ℕ → Attempt) → Option (Option CoreStatus)

-- What the package documents: a run that throws is followed by another until there were as many
-- again as `retries`; a run that returns ends it, and so does `bail`.
pub record RetryLaws (retry : Retry) : Type 0 where
  pub resolves :
      (retries : ℕ) (f : ℕ → Attempt) (k : ℕ) (body : Option CoreStatus)
      → k ≤ retries
      → ((j : ℕ) → j < k → f j ≡ thrown)
      → f k ≡ returned body
      → retry retries f ≡ some body
  pub bails :
      (retries : ℕ) (f : ℕ → Attempt) (k : ℕ)
      → k ≤ retries
      → ((j : ℕ) → j < k → f j ≡ thrown)
      → f k ≡ bailed
      → retry retries f ≡ none
  pub gives_up :
      (retries : ℕ) (f : ℕ → Attempt)
      → ((j : ℕ) → j ≤ retries → f j ≡ thrown)
      → retry retries f ≡ none

-- What a request meets: the package, this Core's own status, whether a field of it is the key and the
-- identity, and how the n-th request of a URI ends.
pub record StatusSource : Type 0 where
  pub retry : Retry
  pub own_status : BuiltStatus
  pub read_status : CoreInfo → String → CoreStatus
  pub http_get : String → ℕ → HttpAnswer

-- `result.status`, which is null after an error
abbrev pub status_of : (CoreInfo → String → CoreStatus) → BuiltStatus → Option CoreStatus
status_of read (built info node_status) = some (read info node_status)
status_of read (failed error_code message) = none

-- none if it throws
unfoldable pub core_status_request_with :
    StatusSource → String → String → ℕ → Option (Option CoreStatus)
core_status_request_with source base_uri core_uri retry_count =
    if core_uri == base_uri
    then some (status_of source.read_status source.own_status)
    else source.retry retry_count
        (λ n. attempt_of (source.http_get (String.◌++◌ core_uri "/status") n))

-- `retryCount = 3`
unfoldable pub core_status_request : StatusSource → String → String → Option (Option CoreStatus)
core_status_request source base_uri core_uri = core_status_request_with source base_uri core_uri 3

-- The endpoints' environment with the status of a Core by that request.
abbrev pub with_status_request : StatusSource → TokenEnv → TokenEnv
with_status_request source env = record env {
  core_status = core_status_request source env.base_uri;
}
