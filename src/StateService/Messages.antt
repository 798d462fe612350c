-- ===== src/StateService/Messages.antt =====
-- The messages that node-proof-state-service/server.js consumes.
use chainpoint_core_erc.Prelude.{ℕ, Option, String, List}
use chainpoint_core_erc.World.{OpsState, AnchorState}
use chainpoint_core_erc.World.Ops.{Op, StateAnchor}

-- From the aggregator: the path of each hash to the aggregation root.
pub record AggItem : Type 0 where
  pub hash_id : String
  pub hash : String
  pub proof : List Op

pub record AggMessage : Type 0 where
  pub agg_id : String
  pub agg_root : String
  pub proof_data : List AggItem

-- From the calendar: the path of each aggregation root to the calendar entry.
pub record CalItem : Type 0 where
  pub agg_id : String
  pub proof : List Op

pub record CalMessage : Type 0 where
  pub cal_id : String
  pub anchor : StateAnchor
  pub proof_data : List CalItem

pub record AnchorItem : Type 0 where
  pub cal_id : String
  pub proof : List Op

pub record AnchorMessage : Type 0 where
  pub anchor_btc_agg_id : String
  pub proof_data : List AnchorItem

pub record BtcTxMessage : Type 0 where
  pub anchor_btc_agg_id : String
  pub btctx_id : String
  pub btctx_state : OpsState

-- The height as `parseInt` reads it; `none` is NaN.
pub record BtcMonMessage : Type 0 where
  pub btctx_id : String
  pub btchead_height : Option ℕ
  pub btchead_state : AnchorState

-- What a handler makes of a content before its `try`: `JSON.parse` throws, the object that it gives
-- has no `proofData` to map over, or there is a message. A content that is JSON is that of an object.
pub data Parsed (A : Type 0) : Type 0 where
  not_json without_proof_data : Parsed A
  parsed : A → Parsed A

-- The content of a message, by its `type` property. The last two handlers read no `proofData`: for
-- them none is a content that is not JSON.
pub data Content : Type 0 where
  aggregator : Parsed AggMessage → Content
  cal_batch : Parsed CalMessage → Content
  anchor_btc_agg_batch : Parsed AnchorMessage → Content
  btctx : Option BtcTxMessage → Content
  btcmon : Option BtcMonMessage → Content
  unknown : Content

pub record Delivery : Type 0 where
  pub tag : ℕ
  pub content : Content
