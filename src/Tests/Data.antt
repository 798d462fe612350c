-- ===== src/Tests/Data.antt =====
-- A small world: one aggregation of two hashes, its calendar entry and its anchor.
use chainpoint_core_erc.Prelude.{true, String, [], ◌∷◌}
use chainpoint_core_erc.World.{World, AggRow, CalRow, AnchorBtcAggRow, BtcTxRow, BtcHeadRow}
use chainpoint_core_erc.World.Ops.{left, right, op}
use chainpoint_core_erc.StateService.Messages.{AggMessage, CalMessage}

abbrev pub empty_world : World
empty_world = record {
  clock = 1000000;
  outcomes = [];
  redis = true;
  channel = true;
  agg_states = [];
  cal_states = [];
  cal_cache = [];
  anchor_btc_agg_states = [];
  anchor_btc_agg_cache = [];
  btctx_states = [];
  btctx_cache = [];
  btchead_states = [];
  btchead_cache = [];
  proofs = [];
  sent = [];
  settled = [];
}

abbrev pub agg_row : AggRow
agg_row = record {
  hash_id = "h1";
  hash = "aa";
  agg_id = "g1";
  agg_state = record { ops = right "bb" ∷ op "sha-256" ∷ [] };
  agg_root = "rr";
}

abbrev pub cal_row : CalRow
cal_row = record {
  agg_id = "g1";
  cal_id = "c1";
  cal_state = record {
    ops = left "cc" ∷ op "sha-256" ∷ [];
    anchor = record { anchor_id = "7"; uris = "http://core/calendar/7" ∷ [] };
  };
}

abbrev pub anchor_row : AnchorBtcAggRow
anchor_row = record {
  cal_id = "c1";
  anchor_btc_agg_id = "b1";
  anchor_btc_agg_state = record { ops = [] };
}

abbrev pub btctx_row : BtcTxRow
btctx_row = record {
  anchor_btc_agg_id = "b1";
  btctx_id = "t1";
  btctx_state = record { ops = left "01" ∷ right "00" ∷ op "sha-256-x2" ∷ [] };
}

abbrev pub btchead_row : BtcHeadRow
btchead_row = record {
  btctx_id = "t1";
  btchead_height = 500000;
  btchead_state = record { ops = []; anchor = record { anchor_id = "500000"; uris = [] } };
}

abbrev pub agg_message : AggMessage
agg_message = record {
  agg_id = "g1";
  agg_root = "rr";
  proof_data = record { hash_id = "h1"; hash = "aa"; proof = right "bb" ∷ op "sha-256" ∷ [] } ∷ [];
}

abbrev pub cal_message : CalMessage
cal_message = record {
  cal_id = "c1";
  anchor = record { anchor_id = "7"; uris = "http://core/calendar/7" ∷ [] };
  proof_data = record { agg_id = "g1"; proof = left "cc" ∷ op "sha-256" ∷ [] } ∷ [];
}

-- The world after the aggregation has been stored.
abbrev pub agg_world : World
agg_world = record empty_world { agg_states = record { row = agg_row; created_at = 999 } ∷ [] }

-- And after the calendar entry has been stored.
abbrev pub cal_world : World
cal_world = record agg_world { cal_states = record { row = cal_row; created_at = 999 } ∷ [] }

-- The content of every calendar row: that of `g1`, and the same under any other key.
abbrev pub cal_content : String → CalRow
cal_content id = record cal_row { agg_id = id }
