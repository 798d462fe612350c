-- ===== src/CachedState.antt =====
-- node-lib/lib/models/cachedProofState.js: the proof state tables, and the Redis cache in front of them. The functions
-- that the source writes once for each table stand in Bulk and Single; here they have their names.
pub mod Tables
pub mod Cache
pub mod Cached
pub mod Bulk
pub mod Single
pub mod Frame
pub mod Insert
pub mod Contents
pub mod Laws
pub mod Write
pub mod Healthy
pub mod Lookup
pub mod Read
pub mod Coherence
pub mod Failures
use Tables.{insert_all, find_in, destroy_until}
use Cached.{cal_table, anchor_btc_agg_table, btctx_table, btchead_table, proof_state_expire_hours}
use Bulk.{get_objects_by_ids, write_objects}
use Single.{get_object_by_id, write_object}
use chainpoint_core_erc.Prelude.{
  ℕ, ◌*◌, Bool, true, false, Option, none, some, String, List, [], ◌∷◌, ◌++◌, map, ◌==◌, ◌&&◌,
  if◌then◌else◌,
}
use chainpoint_core_erc.Prelude.Lists.{filter_by, flat_map}
use chainpoint_core_erc.Exec.{
  Error, db_error, redis_error, type_error, not_an_integer, Exec, pure, throw, gets, try_catch,
  ◌>>=◌, ◌>>◌,
}
use chainpoint_core_erc.World.{
  World, Stamped, Entry, AggRow, CalRow, AnchorBtcAggRow, BtcTxRow, BtcHeadRow, AnchorState,
}
use chainpoint_core_erc.World.Calls.{call, query, execute}

-- The functions of the source, table by table.

unfoldable pub get_hash_ids_by_agg_ids : List String → Exec World (List String)
get_hash_ids_by_agg_ids agg_ids =
    query db_error (λ w. map (λ r. r.hash_id) (find_in (λ r. r.agg_id) agg_ids w.agg_states))

unfoldable pub get_agg_state_objects_by_hash_ids : List String → Exec World (List AggRow)
get_agg_state_objects_by_hash_ids hash_ids =
    query db_error (λ w. find_in (λ r. r.hash_id) hash_ids w.agg_states)

unfoldable pub get_cal_state_objects_by_agg_ids : List String → Exec World (List CalRow)
get_cal_state_objects_by_agg_ids = get_objects_by_ids cal_table

unfoldable pub get_anchor_btc_agg_state_objects_by_cal_ids :
    List String → Exec World (List AnchorBtcAggRow)
get_anchor_btc_agg_state_objects_by_cal_ids = get_objects_by_ids anchor_btc_agg_table

unfoldable pub get_btctx_state_object_by_anchor_btc_agg_id : String → Exec World (Option BtcTxRow)
get_btctx_state_object_by_anchor_btc_agg_id = get_object_by_id btctx_table

unfoldable pub get_btchead_state_object_by_btctx_id : String → Exec World (Option BtcHeadRow)
get_btchead_state_object_by_btctx_id = get_object_by_id btchead_table

-- with no row the statement has no VALUES, and the database refuses it
abbrev pub insert_agg_states : List AggRow → Exec World (Unit {0})
insert_agg_states [] = throw db_error
insert_agg_states (a ∷ as_) =
    execute db_error
      (λ w. record w { agg_states = insert_all (λ r. r.hash_id) w.clock (a ∷ as_) w.agg_states })

unfoldable pub write_agg_state_objects_bulk : List AggRow → Exec World Bool
write_agg_state_objects_bulk objs = do insert_agg_states objs; pure true

unfoldable pub write_cal_state_objects_bulk : List CalRow → Exec World Bool
write_cal_state_objects_bulk = write_objects cal_table

unfoldable pub write_anchor_btc_agg_state_objects : List AnchorBtcAggRow → Exec World Bool
write_anchor_btc_agg_state_objects = write_objects anchor_btc_agg_table

unfoldable pub write_btctx_state_object : BtcTxRow → Exec World Bool
write_btctx_state_object = write_object btctx_table

-- The height as `parseInt` reads it; `none` is NaN.
abbrev pub BtcHeadInput : Type 0
BtcHeadInput = String × Option ℕ × AnchorState

unfoldable pub write_btchead_state_object : BtcHeadInput → Exec World Bool
write_btchead_state_object (btctx_id, none, state) = throw not_an_integer
write_btchead_state_object (btctx_id, some height, state) =
    write_object btchead_table
      (record { btctx_id = btctx_id; btchead_height = height; btchead_state = state })

abbrev pub expire_ms : ℕ
expire_ms = proof_state_expire_hours * 60 * 60 * 1000

-- `pruneProofStateTableAsync`, on the rows that `get` and `set` reach
unfoldable pub prune_proof_state_table :
    {A : Type 0} → (World → List (Stamped A)) → (List (Stamped A) → World → World) → Exec World ℕ
prune_proof_state_table get set =
    call db_error (λ w. let (n, rest) = destroy_until w.clock expire_ms (get w) in (n, set rest w))

unfoldable pub prune_agg_states : Exec World ℕ
prune_agg_states =
    prune_proof_state_table (λ w. w.agg_states) (λ rs w. record w { agg_states = rs })

unfoldable pub prune_cal_states : Exec World ℕ
prune_cal_states = prune_proof_state_table cal_table.rows cal_table.set_rows

unfoldable pub prune_anchor_btc_agg_states : Exec World ℕ
prune_anchor_btc_agg_states =
    prune_proof_state_table anchor_btc_agg_table.rows anchor_btc_agg_table.set_rows

unfoldable pub prune_btctx_states : Exec World ℕ
prune_btctx_states = prune_proof_state_table btctx_table.rows btctx_table.set_rows

unfoldable pub prune_btchead_states : Exec World ℕ
prune_btchead_states = prune_proof_state_table btchead_table.rows btchead_table.set_rows

-- The join of `getHashIdsByBtcTxIdAsync`, from the last table to the first.
unfoldable pub join_hash_ids : String → World → List String
join_hash_ids btctx_id w =
    flat_map
      (λ a.
        flat_map
          (λ c.
            flat_map
              (λ aa.
                flat_map
                  (λ tx.
                    if tx.row.anchor_btc_agg_id == aa.row.anchor_btc_agg_id
                      && tx.row.btctx_id == btctx_id
                    then a.row.hash_id ∷ []
                    else [])
                  w.btctx_states)
              (filter_by (λ aa. aa.row.cal_id == c.row.cal_id) w.anchor_btc_agg_states))
          (filter_by (λ c. c.row.agg_id == a.row.agg_id) w.cal_states))
      w.agg_states

unfoldable pub get_hash_ids_by_btctx_id : String → Exec World (List String)
get_hash_ids_by_btctx_id btctx_id = query db_error (join_hash_ids btctx_id)
