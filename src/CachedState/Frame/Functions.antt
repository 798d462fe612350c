-- ===== src/CachedState/Frame/Functions.antt =====
-- Each proof state function of cachedProofState.js touches neither the clock, nor the connections, nor
-- what was published, settled or generated.
use chainpoint_core_erc.CachedState.Frame.{SameOutside, outside, outside-IsFree}
use chainpoint_core_erc.CachedState.Frame.Generic.{
  frame_rules, get_objects_by_ids-Keeps, write_objects-Keeps, get_object_by_id-Keeps,
  write_object-Keeps,
}
use chainpoint_core_erc.CachedState.Frame.Tables.{
  cal_table-IsInside, anchor_btc_agg_table-IsInside, btctx_table-IsInside, btchead_table-IsInside,
}
use chainpoint_core_erc.Prelude.{refl, none, some, String, List, [], ◌∷◌}
use chainpoint_core_erc.Exec.Keeps.{Keeps, keeps_rules}
use chainpoint_core_erc.World.{World, Stamped, AggRow, CalRow, AnchorBtcAggRow, BtcTxRow}
use chainpoint_core_erc.CachedState.Cached.{
  cal_table, anchor_btc_agg_table, btctx_table, btchead_table,
}
use chainpoint_core_erc.CachedState.{
  get_hash_ids_by_agg_ids, get_agg_state_objects_by_hash_ids, get_cal_state_objects_by_agg_ids,
  get_anchor_btc_agg_state_objects_by_cal_ids, get_btctx_state_object_by_anchor_btc_agg_id,
  get_btchead_state_object_by_btctx_id, insert_agg_states, write_agg_state_objects_bulk,
  write_cal_state_objects_bulk, write_anchor_btc_agg_state_objects, write_btctx_state_object,
  BtcHeadInput, write_btchead_state_object, get_hash_ids_by_btctx_id,
}

pub get_hash_ids_by_agg_ids-Keeps :
    (ids : List String) → Keeps outside (get_hash_ids_by_agg_ids ids)
unfolding get_hash_ids_by_agg_ids
get_hash_ids_by_agg_ids-Keeps ids = search (frame_rules, outside-IsFree)

pub get_hash_ids_by_btctx_id-Keeps : (id : String) → Keeps outside (get_hash_ids_by_btctx_id id)
unfolding get_hash_ids_by_btctx_id
get_hash_ids_by_btctx_id-Keeps id = search (frame_rules, outside-IsFree)

pub get_agg_state_objects_by_hash_ids-Keeps :
    (ids : List String) → Keeps outside (get_agg_state_objects_by_hash_ids ids)
unfolding get_agg_state_objects_by_hash_ids
get_agg_state_objects_by_hash_ids-Keeps ids = search (frame_rules, outside-IsFree)

pub get_cal_state_objects_by_agg_ids-Keeps :
    (ids : List String) → Keeps outside (get_cal_state_objects_by_agg_ids ids)
unfolding get_cal_state_objects_by_agg_ids
get_cal_state_objects_by_agg_ids-Keeps =
    get_objects_by_ids-Keeps cal_table outside-IsFree cal_table-IsInside

pub get_anchor_btc_agg_state_objects_by_cal_ids-Keeps :
    (ids : List String) → Keeps outside (get_anchor_btc_agg_state_objects_by_cal_ids ids)
unfolding get_anchor_btc_agg_state_objects_by_cal_ids
get_anchor_btc_agg_state_objects_by_cal_ids-Keeps =
    get_objects_by_ids-Keeps anchor_btc_agg_table outside-IsFree anchor_btc_agg_table-IsInside

pub get_btctx_state_object_by_anchor_btc_agg_id-Keeps :
    (id : String) → Keeps outside (get_btctx_state_object_by_anchor_btc_agg_id id)
unfolding get_btctx_state_object_by_anchor_btc_agg_id
get_btctx_state_object_by_anchor_btc_agg_id-Keeps =
    get_object_by_id-Keeps btctx_table outside-IsFree btctx_table-IsInside

pub get_btchead_state_object_by_btctx_id-Keeps :
    (id : String) → Keeps outside (get_btchead_state_object_by_btctx_id id)
unfolding get_btchead_state_object_by_btctx_id
get_btchead_state_object_by_btctx_id-Keeps =
    get_object_by_id-Keeps btchead_table outside-IsFree btchead_table-IsInside

agg_states-SameOutside :
    (rs : List (Stamped AggRow)) (w : World) → SameOutside w (record w { agg_states = rs })
agg_states-SameOutside rs w = record {
  clock = refl;
  redis = refl;
  channel = refl;
  sent = refl;
  settled = refl;
  proofs = refl;
}

insert_agg_states-Keeps : (objs : List AggRow) → Keeps outside (insert_agg_states objs)
insert_agg_states-Keeps [] = search keeps_rules
insert_agg_states-Keeps (a ∷ as_) = search (frame_rules, outside-IsFree, agg_states-SameOutside)

pub write_agg_state_objects_bulk-Keeps :
    (objs : List AggRow) → Keeps outside (write_agg_state_objects_bulk objs)
unfolding write_agg_state_objects_bulk
write_agg_state_objects_bulk-Keeps objs = search (frame_rules, insert_agg_states-Keeps)

pub write_cal_state_objects_bulk-Keeps :
    (objs : List CalRow) → Keeps outside (write_cal_state_objects_bulk objs)
unfolding write_cal_state_objects_bulk
write_cal_state_objects_bulk-Keeps = write_objects-Keeps cal_table outside-IsFree cal_table-IsInside

pub write_anchor_btc_agg_state_objects-Keeps :
    (objs : List AnchorBtcAggRow) → Keeps outside (write_anchor_btc_agg_state_objects objs)
unfolding write_anchor_btc_agg_state_objects
write_anchor_btc_agg_state_objects-Keeps =
    write_objects-Keeps anchor_btc_agg_table outside-IsFree anchor_btc_agg_table-IsInside

pub write_btctx_state_object-Keeps : (obj : BtcTxRow) → Keeps outside (write_btctx_state_object obj)
unfolding write_btctx_state_object
write_btctx_state_object-Keeps = write_object-Keeps btctx_table outside-IsFree btctx_table-IsInside

pub write_btchead_state_object-Keeps :
    (obj : BtcHeadInput) → Keeps outside (write_btchead_state_object obj)
unfolding write_btchead_state_object
write_btchead_state_object-Keeps (id, none, state) = search keeps_rules
write_btchead_state_object-Keeps (id, some height, state) =
    write_object-Keeps btchead_table outside-IsFree btchead_table-IsInside
      (record { btctx_id = id; btchead_height = height; btchead_state = state })
