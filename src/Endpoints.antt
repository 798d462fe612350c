-- ===== src/Endpoints.antt =====
-- node-api-service/lib/endpoints/{calendar,status,root}.js: the endpoints that pass on what Tendermint
-- answers.
pub mod Rpc
pub mod Peers
pub mod Nodes
pub mod Proofs
pub mod Answers
pub mod Candidates
pub mod Listed
pub mod Upserted
pub mod ReadBack
use Prim.Native.String
use Rpc.{
  Answer, answered, not_found_error, invalid_argument_error, internal_server_error, Response,
  result, error, CalTx, RpcClient, get_transaction, get_status,
}
use chainpoint_core_erc.Prelude.{ℕ, Bool, Option, none, some, String, eqb, if◌then◌else◌}

-- calendar.js

-- The error of a failed call, by its response code; each handler has this `switch`, with its own texts
-- for the first case and for the last.
unfoldable pub error_of : {A : Type 0} → String → String → ℕ → Option String → Answer A
error_of missing_text server_text response_code message =
    if eqb response_code 404
    then not_found_error (some missing_text)
    else if eqb response_code 409
    then invalid_argument_error message
    else internal_server_error (some server_text)

-- An error by that `switch`, and a result after `f`.
unfoldable pub reply_of : {A B : Type 0} → String → String → (A → B) → Response A → Answer B
reply_of missing_text server_text f (result a) = answered (f a)
reply_of missing_text server_text f (error response_code message) =
    error_of missing_text server_text response_code message

abbrev pub no_such_transaction : String → String
no_such_transaction txid =
    String.◌++◌ "Could not find transaction with id = '" (String.◌++◌ txid "'")

unfoldable pub get_cal_tx : RpcClient → String → Answer CalTx
get_cal_tx client txid =
    reply_of (no_such_transaction txid) "Could not query for tx by hash" (λ tx. tx)
      (get_transaction client txid)

-- `lower_text` is `toLowerCase`
unfoldable pub get_cal_tx_data : (String → String) → RpcClient → String → Answer String
get_cal_tx_data lower_text client txid =
    reply_of (no_such_transaction txid) "Could not query for tx by hash"
      (λ tx. lower_text tx.data_text) (get_transaction client txid)

-- status.js

-- What a Core says of itself; `jwk` is none where the key cannot be converted.
pub record CoreInfo : Type 0 where
  pub version : String
  pub time : ℕ
  pub base_uri : String
  pub network : String
  pub mode : String
  pub jwk : Option String

pub record StatusEnv : Type 0 where
  pub version : String
  pub base_uri : String
  pub network : String
  pub private_network : Bool
  pub jwk : Option String

-- `{ status, errorCode, errorMessage }`
pub data BuiltStatus : Type 0 where
  built : CoreInfo → String → BuiltStatus
  failed : ℕ → Option String → BuiltStatus

unfoldable pub built_of : StatusEnv → ℕ → Response String → BuiltStatus
built_of env now (result status) =
    built
      (record {
        version = env.version;
        time = now;
        base_uri = env.base_uri;
        network = env.network;
        mode = if env.private_network then "private" else "public";
        jwk = env.jwk;
      })
      status
built_of env now (error response_code message) =
    if eqb response_code 404
    then failed 404 (some "Resource not found")
    else if eqb response_code 409
    then failed 409 message
    else failed 500 (some "Could not query for status")

unfoldable pub build_status_object : StatusEnv → RpcClient → ℕ → BuiltStatus
build_status_object env client now = built_of env now (get_status client)

unfoldable pub status_reply : BuiltStatus → Answer (CoreInfo × String)
status_reply (built info status) = answered (info, status)
status_reply (failed error_code message) =
    if eqb error_code 404
    then not_found_error message
    else if eqb error_code 409
    then invalid_argument_error message
    else internal_server_error message

unfoldable pub get_core_status : StatusEnv → RpcClient → ℕ → Answer (CoreInfo × String)
get_core_status env client now = status_reply (build_status_object env client now)
