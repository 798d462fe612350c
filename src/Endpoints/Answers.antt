-- ===== src/Endpoints/Answers.antt =====
-- node-api-service/lib/endpoints: what the reading endpoints answer when a call fails, and when it does
-- not.
use Prim.Native.String
use chainpoint_core_erc.Prelude.{
  ◌≡◌, refl, ap, ◌∙◌, ℕ, Option, none, some, String, inl, inr, eqb, if◌then◌else◌, Bool-cases,
}
use chainpoint_core_erc.Endpoints.Rpc.{
  Answer, not_found_error, invalid_argument_error, internal_server_error, Code, minus, plus,
  RpcError, thrown, RpcClient, tx_hash, decode_returned, parse_rpc_error, respond_rpc,
  get_transaction, get_status, get_net_info,
}
use chainpoint_core_erc.Endpoints.{
  no_such_transaction, error_of, reply_of, get_cal_tx, get_cal_tx_data, StatusEnv, built_of,
  status_reply, build_status_object, get_core_status,
}
use chainpoint_core_erc.Endpoints.Peers.{decoded_peers, get_peers}

-- What a client of the API is told of an error of Tendermint: -32603 is not found and -32602 a bad
-- argument, which is said with the data of the error; everything else is the server's fault. The
-- texts for the first and the last are given.
abbrev answer_by : {A : Type 0} → String → String → Option Code → Option String → Answer A
answer_by missing_text server_text none t = internal_server_error (some server_text)
answer_by missing_text server_text (some (plus n)) t = internal_server_error (some server_text)
answer_by missing_text server_text (some (minus n)) t =
    if eqb n 32603
    then not_found_error (some missing_text)
    else if eqb n 32602
    then invalid_argument_error t
    else internal_server_error (some server_text)

abbrev pub rpc_answer : {A : Type 0} → String → String → RpcError → Answer A
rpc_answer missing_text server_text e = answer_by missing_text server_text e.code e.data_text

-- The calls that the endpoints make fail with the error.
pub record IsFailing (client : RpcClient) (e : RpcError) : Type 0 where
  pub tx : (id : String) → client.tx id ≡ thrown e
  pub status : client.status ≡ thrown e
  pub net_info : client.net_info ≡ thrown e

parse_rpc_error-reply_of :
    {A B : Type 0} (missing_text server_text : String) (f : A → B) (code : Option Code)
    (t : Option String)
    → reply_of missing_text server_text f (parse_rpc_error (record { code = code; data_text = t }))
      ≡ answer_by missing_text server_text code t
unfolding reply_of parse_rpc_error error_of
parse_rpc_error-reply_of m s f none t = refl
parse_rpc_error-reply_of m s f (some (plus n)) t = refl
parse_rpc_error-reply_of m s f (some (minus n)) t = elim (Bool-cases (eqb n 32603)) [
  | inl e ↦ rw e refl
  | inr e ↦ elim (Bool-cases (eqb n 32602)) [ inl e' ↦ rw (e, e') refl | inr e' ↦ rw (e, e') refl ]
]

parse_rpc_error-status :
    (env : StatusEnv) (now : ℕ) (code : Option Code) (t : Option String)
    → status_reply (built_of env now (parse_rpc_error (record { code = code; data_text = t })))
      ≡ answer_by "Resource not found" "Could not query for status" code t
unfolding status_reply built_of parse_rpc_error
parse_rpc_error-status env now none t = refl
parse_rpc_error-status env now (some (plus n)) t = refl
parse_rpc_error-status env now (some (minus n)) t = elim (Bool-cases (eqb n 32603)) [
  | inl e ↦ rw e refl
  | inr e ↦ elim (Bool-cases (eqb n 32602)) [ inl e' ↦ rw (e, e') refl | inr e' ↦ rw (e, e') refl ]
]

-- Where the calls of Tendermint fail with an error, the endpoints for a calendar transaction, for its
-- data, for the status and for the peers give the same kind of answer, which the code of the error
-- determines: for -32603 not found, with the endpoint's own text, which names the transaction that
-- was asked for in the first two; for -32602 an invalid argument, with the data of the error; and
-- for every other or no code a server error, with the endpoint's own text.
pub endpoints_answer_by_code :
    (client : RpcClient) (e : RpcError) (lower_text : String → String) (env : StatusEnv) (now : ℕ)
    (txid : String)
    → IsFailing client e
    → let missing_tx =
        String.◌++◌ "Could not find transaction with id = '" (String.◌++◌ txid "'") in
      (get_cal_tx client txid ≡ rpc_answer missing_tx "Could not query for tx by hash" e)
      × (get_cal_tx_data lower_text client txid
          ≡ rpc_answer missing_tx "Could not query for tx by hash" e)
      × (get_core_status env client now
          ≡ rpc_answer "Resource not found" "Could not query for status" e)
      × (get_peers client ≡ rpc_answer "Resource not found" "Could not query for net info" e)
unfolding get_cal_tx get_cal_tx_data get_core_status build_status_object get_peers get_transaction
    decode_returned get_status get_net_info respond_rpc
endpoints_answer_by_code client e lower_text env now txid h = (
  ap
        (λ r.
          reply_of (no_such_transaction txid) "Could not query for tx by hash" (λ tx. tx)
            (decode_returned client r))
        (h.tx (tx_hash txid))
      ∙ parse_rpc_error-reply_of _ _ _ e.code e.data_text,
  ap
        (λ r.
          reply_of (no_such_transaction txid) "Could not query for tx by hash"
            (λ tx. lower_text tx.data_text) (decode_returned client r))
        (h.tx (tx_hash txid))
      ∙ parse_rpc_error-reply_of _ _ _ e.code e.data_text,
  ap (λ r. status_reply (built_of env now (respond_rpc r))) h.status
      ∙ parse_rpc_error-status env now e.code e.data_text,
  ap
        (λ r.
          reply_of "Resource not found" "Could not query for net info" decoded_peers
            (respond_rpc r))
        h.net_info
      ∙ parse_rpc_error-reply_of _ _ _ e.code e.data_text,
)
