-- ===== src/UsageToken/State.antt =====
-- What the usage token endpoints of node-api-service read and write: the active token table
-- (node-lib/lib/models/ActiveToken.js), the addresses of staked Cores (StakedCore.js), the Redis keys of
-- lib/token-utils.js, the transactions handed to Tendermint, and the hashes handed to the aggregator.
use chainpoint_core_erc.Prelude.{ℕ, Bool, Option, String, List}
use chainpoint_core_erc.World.{Entry, Outcome}

-- A numeric claim of a token as JSON gives it: no such field, `null`, a text that is no number and
-- not empty, or an integer; `negative n` is -(n + 1). NaN is written as `null`.
pub data Claim : Type 0 where
  missing null text : Claim
  number negative : ℕ → Claim

-- The claims of a decoded token that the endpoints read; `none` is a missing or empty text.
pub record Claims : Type 0 where
  pub iss : Option String
  pub sub : Option String
  pub exp : Claim
  pub bal : Claim
  pub aud : Option (List String)
  pub aulr : Claim

-- `jwt.decode(token, { complete: true })`
pub record Decoded : Type 0 where
  pub kid : Option String
  pub claims : Claims

-- `constructTokenPayload`; an audience is kept by its parts between the commas.
pub record Payload : Type 0 where
  pub jti : String
  pub iss : String
  pub sub : String
  pub exp : Claim
  pub bal : Claim
  pub aud : List String
  pub aulr : Claim

pub record Jwk : Type 0 where
  pub kid : String
  pub key : String

-- The fields of a Core's status that are read.
pub record CoreStatus : Type 0 where
  pub jwk : Option Jwk
  pub node_id : Option String

-- `tokenTx`, without its constant fields.
pub record TokenTx : Type 0 where
  pub node_ip : String
  pub token_hash : String
  pub core_id : Option String
  pub time : ℕ

pub record ActiveToken : Type 0 where
  pub node_ip : String
  pub token_hash : String

-- `hashObj` of endpoints/hashes.js, as it is published; a hash is the text by its code units.
pub record HashObj : Type 0 where
  pub hash_id : String
  pub hash : List ℕ

pub record ApiWorld : Type 0 where
  pub clock : ℕ
  pub outcomes : List Outcome
  pub redis : Bool
  pub uuids : ℕ
  pub token_hashes : List (Entry String)
  pub known_iss : List (Entry Bool)
  pub jwks : List Jwk
  pub core_id : Option String
  pub staked_cores : List String
  pub active_tokens : List ActiveToken
  pub broadcasts : List TokenTx
  pub eth_txs : List String
  pub channel : Bool
  pub published : List HashObj
