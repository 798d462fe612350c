-- ===== src/CachedState/Cached.antt =====
-- node-lib/lib/models/cachedProofState.js: which table and which Redis prefix belong together, and how long rows and cache
-- entries last.
use chainpoint_core_erc.Prelude.{ℕ, ◌*◌, Option, String, List}
use chainpoint_core_erc.Exec.{Error, Exec, pure}
use chainpoint_core_erc.World.{World, Stamped, Entry, CalRow, AnchorBtcAggRow, BtcTxRow, BtcHeadRow}

abbrev pub proof_state_expire_hours : ℕ
proof_state_expire_hours = 6

abbrev pub proof_state_cache_expire_minutes : ℕ
proof_state_cache_expire_minutes = proof_state_expire_hours * 60

-- A table with rows `A`, its key, and the cached values `V` under the table's Redis prefix.
pub record CachedTable (A V : Type 0) : Type 0 where
  pub key : A → String
  pub rows : World → List (Stamped A)
  pub set_rows : List (Stamped A) → World → World
  pub cache : World → List (Entry V)
  pub set_cache : List (Entry V) → World → World

abbrev pub cal_table : CachedTable CalRow CalRow
cal_table = record {
  key = λ r. r.agg_id;
  rows = λ w. w.cal_states;
  set_rows = λ rs w. record w { cal_states = rs };
  cache = λ w. w.cal_cache;
  set_cache = λ es w. record w { cal_cache = es };
}

abbrev pub anchor_btc_agg_table : CachedTable AnchorBtcAggRow AnchorBtcAggRow
anchor_btc_agg_table = record {
  key = λ r. r.cal_id;
  rows = λ w. w.anchor_btc_agg_states;
  set_rows = λ rs w. record w { anchor_btc_agg_states = rs };
  cache = λ w. w.anchor_btc_agg_cache;
  set_cache = λ es w. record w { anchor_btc_agg_cache = es };
}

abbrev pub btctx_table : CachedTable BtcTxRow (Option BtcTxRow)
btctx_table = record {
  key = λ r. r.anchor_btc_agg_id;
  rows = λ w. w.btctx_states;
  set_rows = λ rs w. record w { btctx_states = rs };
  cache = λ w. w.btctx_cache;
  set_cache = λ es w. record w { btctx_cache = es };
}

abbrev pub btchead_table : CachedTable BtcHeadRow (Option BtcHeadRow)
btchead_table = record {
  key = λ r. r.btctx_id;
  rows = λ w. w.btchead_states;
  set_rows = λ rs w. record w { btchead_states = rs };
  cache = λ w. w.btchead_cache;
  set_cache = λ es w. record w { btchead_cache = es };
}

-- What follows a failed cache access: a warning in the log, and nothing else.
abbrev pub warned : Error → Exec World (Unit {0})
warned e = pure tt
