-- ===== src/World.antt =====
-- What the handlers of the services read and write: the tables of the proof state database (node-lib/lib/models),
-- the Redis cache in front of them, the RabbitMQ channel, and how each external call will end.
pub mod Ops
pub mod Calls
use Ops.{Op, StateAnchor, Proof}
use chainpoint_core_erc.Prelude.{ℕ, Bool, Option, String, List}

-- The JSON texts kept in the state columns, by the value that they stand for.
pub record OpsState : Type 0 where
  pub ops : List Op

pub record AnchorState : Type 0 where
  pub ops : List Op
  pub anchor : StateAnchor

-- `agg_states` (AggState.js)
pub record AggRow : Type 0 where
  pub hash_id : String
  pub hash : String
  pub agg_id : String
  pub agg_state : OpsState
  pub agg_root : String

-- `cal_states` (CalState.js)
pub record CalRow : Type 0 where
  pub agg_id : String
  pub cal_id : String
  pub cal_state : AnchorState

-- `anchor_btc_agg_states` (AnchorBtcAggState.js)
pub record AnchorBtcAggRow : Type 0 where
  pub cal_id : String
  pub anchor_btc_agg_id : String
  pub anchor_btc_agg_state : OpsState

-- `btctx_states` (BtcTxState.js)
pub record BtcTxRow : Type 0 where
  pub anchor_btc_agg_id : String
  pub btctx_id : String
  pub btctx_state : OpsState

-- `btchead_states` (BtcHeadState.js)
pub record BtcHeadRow : Type 0 where
  pub btctx_id : String
  pub btchead_height : ℕ
  pub btchead_state : AnchorState

-- `proofs` (Proof.js)
pub record ProofRow : Type 0 where
  pub hash_id : String
  pub proof : Proof

-- A row of a table with its `created_at`, in milliseconds.
pub record Stamped (A : Type 0) : Type 0 where
  pub row : A
  pub created_at : ℕ

-- A Redis key of one prefix: the id behind the prefix, the value, and when it expires.
pub record Entry (A : Type 0) : Type 0 where
  pub key : String
  pub value : A
  pub expires_at : ℕ

-- What a service publishes; the constructor stands for the queue and the `type` property too.
pub data Message : Type 0 where
  cal_batch btc_batch : List String → Message

-- A message of the incoming queue, by its delivery tag, is acked or nacked.
pub data Settlement : Type 0 where
  ack nack : ℕ → Settlement

-- How an external call ends: it takes effect, it has no effect and fails, or it takes effect and
-- the caller still sees an error (a lost reply).
pub data Outcome : Type 0 where
  done refused lost : Outcome

-- `outcomes` are those of the external calls to come; after the last of them every call is done.
pub record World : Type 0 where
  pub clock : ℕ
  pub outcomes : List Outcome
  pub redis : Bool
  pub channel : Bool
  pub agg_states : List (Stamped AggRow)
  pub cal_states : List (Stamped CalRow)
  pub cal_cache : List (Entry CalRow)
  pub anchor_btc_agg_states : List (Stamped AnchorBtcAggRow)
  pub anchor_btc_agg_cache : List (Entry AnchorBtcAggRow)
  pub btctx_states : List (Stamped BtcTxRow)
  pub btctx_cache : List (Entry (Option BtcTxRow))
  pub btchead_states : List (Stamped BtcHeadRow)
  pub btchead_cache : List (Entry (Option BtcHeadRow))
  pub proofs : List (Stamped ProofRow)
  pub sent : List Message
  pub settled : List Settlement
