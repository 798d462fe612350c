-- ===== src/Pipeline/Reads.antt =====
-- node-lib/lib/models/cachedProofState.js: reads where no external call fails return, and touch only the cache.
use chainpoint_core_erc.Prelude.{
  ◌≡◌, refl, inl, inr, ap, Bool, true, false, String, List, [], ◌∷◌, map, ◌&&◌, ◌∙◌, if◌then◌else◌,
  Bool-cases,
}
use chainpoint_core_erc.Exec.{ok, pure, gets, try_catch, ◌>>=◌}
use chainpoint_core_erc.Exec.Steps.{>>=-ok}
use chainpoint_core_erc.World.{World, Entry, CalRow}
use chainpoint_core_erc.World.Calls.{call, query, execute}
use chainpoint_core_erc.CachedState.Cached.{cal_table}
use chainpoint_core_erc.CachedState.{
  get_agg_state_objects_by_hash_ids, get_cal_state_objects_by_agg_ids,
}
use chainpoint_core_erc.CachedState.Bulk.{
  Items, with_data, no_data, read_cache, all_cached, cached_data, cache_rows, fetch_missing,
  get_objects_by_ids,
}
use chainpoint_core_erc.CachedState.Cache.{cache_get}
use chainpoint_core_erc.CachedState.Tables.{find_in}

pub get_agg_healthy :
    (ids : List String) (w : World)
    → w.outcomes ≡ []
    → get_agg_state_objects_by_hash_ids ids w
      ≡ (ok (find_in (λ r. r.hash_id) ids w.agg_states), record w { outcomes = [] })
unfolding get_agg_state_objects_by_hash_ids query call
get_agg_healthy ids w h = rw h refl

-- The world after a read: the calls have used up no outcome, and the cache may hold more.
abbrev pub reread : World → List (Entry CalRow) → World
reread w es = record w { outcomes = []; cal_cache = es }

-- A read that has returned rows, and where it leaves the world.
pub record CalRead (ids : List String) (w : World) : Type 0 where
  pub rows : List CalRow
  pub cache : List (Entry CalRow)
  pub same : get_cal_state_objects_by_agg_ids ids w ≡ (ok rows, reread w cache)

fetch_missing_healthy :
    (redis : Bool) (items : Items cal_table) (w : World)
    → (rows : List CalRow) × (es : List (Entry CalRow)) × (fetch_missing cal_table redis items
          (record w { outcomes = [] })
        ≡ (ok rows, reread w es))
unfolding fetch_missing cache_rows query execute call pure try_catch ◌>>=◌
fetch_missing_healthy true items w = (_, _, refl)
fetch_missing_healthy false items w = (_, _, refl)

read_cache_healthy :
    (ids : List String) (w : World)
    → read_cache cal_table ids (record w { outcomes = [] }) ≡ (
      ok (with_data cal_table ids (map (λ id. cache_get w.clock id w.cal_cache) ids)),
      record w { outcomes = [] },
    )
unfolding read_cache query call pure try_catch ◌>>=◌
read_cache_healthy [] w = refl
read_cache_healthy (id ∷ ids) w = refl

abbrev pub calm : World → World
calm w = record w { outcomes = [] }

asked : (w : World) → gets (λ v. v.redis) (calm w) ≡ (ok w.redis, calm w)
unfolding gets
asked w = refl

finish_healthy :
    (redis : Bool) (items : Items cal_table) (w : World)
    → (rows : List CalRow) × (es : List (Entry CalRow)) × ((if redis && all_cached cal_table items
            then pure (cached_data cal_table items)
            else fetch_missing cal_table redis items)
          (calm w)
        ≡ (ok rows, reread w es))
unfolding pure
finish_healthy redis items w = elim (Bool-cases (redis && all_cached cal_table items)) [
  | inl e ↦ (cached_data cal_table items, w.cal_cache, rw e refl)
  | inr e ↦ let (rows, es, same) = fetch_missing_healthy redis items w in (rows, es, rw e same)
]

items_healthy :
    (redis : Bool) (ids : List String) (w : World)
    → (items : Items cal_table) × ((if redis
            then read_cache cal_table ids
            else pure (no_data cal_table ids))
          (calm w)
        ≡ (ok items, calm w))
unfolding pure
items_healthy true ids w = (_, read_cache_healthy ids w)
items_healthy false ids w = (_, refl)

calm_read : (ids : List String) (w : World) → CalRead ids (calm w)
unfolding get_cal_state_objects_by_agg_ids get_objects_by_ids
calm_read ids w =
    let (items, read) = items_healthy w.redis ids w in
    let (rows, es, same) = finish_healthy w.redis items w in
    record { rows = rows; cache = es; same = >>=-ok (gets _) _ (asked w) ∙ >>=-ok _ _ read ∙ same }

pub get_cal_healthy : (ids : List String) (w : World) → w.outcomes ≡ [] → CalRead ids w
get_cal_healthy ids w h =
    let read = calm_read ids w in
    let start : w ≡ calm w = ap (λ os. record w { outcomes = os }) h in
    record {
      rows = read.rows;
      cache = read.cache;
      same = ap (get_cal_state_objects_by_agg_ids ids) start ∙ read.same;
    }
