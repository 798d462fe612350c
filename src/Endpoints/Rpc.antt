-- ===== src/Endpoints/Rpc.antt =====
-- node-api-service/lib/tendermint-rpc.js: calls of the Tendermint client, with their errors as values.
use chainpoint_core_erc.Prelude.{
  ℕ, Option, none, some, String, List, eqb, starts_with, if◌then◌else◌,
}
use Prim.Native.String

-- The number of an error's `code`; a minus sign is kept apart.
pub data Code : Type 0 where
  minus plus : ℕ → Code

-- What the client throws; a field may be missing.
pub record RpcError : Type 0 where
  pub code : Option Code
  pub data_text : Option String

pub data Returned (A : Type 0) : Type 0 where
  returned : A → Returned A
  thrown : RpcError → Returned A

-- `{ result, error }`, of which one is null; `error` has a `responseCode` and a message.
pub data Response (A : Type 0) : Type 0 where
  result : A → Response A
  error : ℕ → Option String → Response A

-- What an endpoint answers: what is sent, or an error of restify with its message, which may be
-- undefined.
pub data Answer (A : Type 0) : Type 0 where
  answered : A → Answer A
  not_found_error invalid_argument_error internal_server_error : Option String → Answer A

module _ {A : Type 0} where
  unfoldable pub parse_rpc_error : RpcError → Response A
  parse_rpc_error e = elim e.code [
    | some (minus n) ↦
        if eqb n 32603
        then error 404 (some "Not Found")
        else if eqb n 32602
        then error 409 e.data_text
        else error 500 e.data_text
    | some (plus n) ↦ error 500 e.data_text
    | none ↦ error 500 e.data_text
  ]

  -- `try { await call } catch (error) { return parseRpcError(error) }`
  unfoldable pub respond_rpc : Returned A → Response A
  respond_rpc (returned a) = result a
  respond_rpc (thrown e) = parse_rpc_error e

-- A transaction of the calendar as it comes back, encoded, and decoded.
pub record RawTx : Type 0 where
  pub tx : String
  pub rest : String

pub record CalTx : Type 0 where
  pub data_text : String
  pub tx_rest : String
  pub rest : String

-- The parts of `tx` and of the whole that the API reads: the data of the calendar, and the rest.
pub record DecodedTx : Type 0 where
  pub data_text : String
  pub tx_rest : String

pub record Peer : Type 0 where
  pub remote_ip : List ℕ
  pub listen_addr : List ℕ

-- The client: what it returns or throws, call by call; and the decoding of a transaction's text, `none`
-- where it throws.
pub record RpcClient : Type 0 where
  pub tx : String → Returned RawTx
  pub status : Returned String
  pub net_info : Returned (List Peer)
  pub abci_info : Returned String
  pub tx_search : String → ℕ → ℕ → Returned (List String)
  pub broadcast_tx : String → Returned (Unit {0})
  pub decode_tx : String → Option DecodedTx

-- the id, with its prefix
unfoldable pub tx_hash : String → String
tx_hash tx_id = if starts_with tx_id "0x" then tx_id else String.◌++◌ "0x" tx_id

module _ (client : RpcClient) where
  -- `JSON.parse` throws an error with neither a code nor data.
  unfoldable pub decode_raw : RawTx → Response CalTx
  decode_raw raw = elim (client.decode_tx raw.tx) [
    | none ↦ parse_rpc_error (record { code = none; data_text = none })
    | some d ↦ result (record { data_text = d.data_text; tx_rest = d.tx_rest; rest = raw.rest })
  ]

  unfoldable pub decode_returned : Returned RawTx → Response CalTx
  decode_returned (returned raw) = decode_raw raw
  decode_returned (thrown e) = parse_rpc_error e

  unfoldable pub get_transaction : String → Response CalTx
  get_transaction tx_id = decode_returned (client.tx (tx_hash tx_id))

  unfoldable pub get_tx_search : String → ℕ → ℕ → Response (List String)
  get_tx_search tag page per_page = respond_rpc (client.tx_search tag page per_page)

  unfoldable pub get_status : Response String
  get_status = respond_rpc client.status

  unfoldable pub get_net_info : Response (List Peer)
  get_net_info = respond_rpc client.net_info

  unfoldable pub get_abci_info : Response String
  get_abci_info = respond_rpc client.abci_info

  unfoldable pub broadcast_tx : String → Response (Unit {0})
  broadcast_tx tx = respond_rpc (client.broadcast_tx (String.◌++◌ "\"" (String.◌++◌ tx "\"")))
