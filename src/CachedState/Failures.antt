-- ===== src/CachedState/Failures.antt =====
-- cachedProofState.js: what a failed cache read does, and a write whose key is taken.
use chainpoint_core_erc.Prelude.{
  ℕ, ◌*◌, ◌<◌, ◌≡◌, ◌≢◌, refl, true, none, some, String, List, [], ◌∷◌, arith, eq_refl,
}
use chainpoint_core_erc.Exec.{ok, err, type_error, pure, throw, gets, try_catch, ◌>>=◌}
use chainpoint_core_erc.World.{World, Outcome, done, refused, lost, Entry, CalRow}
use chainpoint_core_erc.World.Calls.{call, query, execute}
use chainpoint_core_erc.CachedState.Cached.{proof_state_cache_expire_minutes}
use chainpoint_core_erc.CachedState.Bulk.{
  cache_new_rows, write_objects, read_cache, get_objects_by_ids,
}
use chainpoint_core_erc.CachedState.{get_cal_state_objects_by_agg_ids, write_cal_state_objects_bulk}
use chainpoint_core_erc.CachedState.Tables.{find_one}
use chainpoint_core_erc.CachedState.Cache.{cache_get, cache_set, cache_set_nx}
use chainpoint_core_erc.CachedState.Insert.{find_one-insert_all}

cache_get-cache_set_self :
    {A : Type 0} (now seconds : ℕ) (k : String) (a : A) (es : List (Entry A))
    → 0 < seconds
    → cache_get now k (cache_set now seconds k a es) ≡ some a
unfolding cache_get cache_set
cache_get-cache_set_self now seconds k a es h = rw (eq_refl k) (ground arith)

-- With a Redis connection, a failed cache read of at least one id makes the whole call throw a type
-- error: the table is never asked, though the database may be up.
pub get_cal_state_objects_by_agg_ids_redis_failure :
    (id : String) (ids : List String) (o : Outcome) (later : List Outcome) (w : World)
    → w.redis ≡ true
    → w.outcomes ≡ o ∷ later
    → o ≢ done
    → get_cal_state_objects_by_agg_ids (id ∷ ids) w
      ≡ (err type_error, record w { outcomes = later })
unfolding get_cal_state_objects_by_agg_ids get_objects_by_ids read_cache query call try_catch throw
    gets pure ◌>>=◌
get_cal_state_objects_by_agg_ids_redis_failure id ids done later w r e h = absurd (h refl)
get_cal_state_objects_by_agg_ids_redis_failure id ids refused later w r e h = simp (r, e)
get_cal_state_objects_by_agg_ids_redis_failure id ids lost later w r e h = simp (r, e)

cached_read :
    (row : CalRow) (id : String) (w : World)
    → w.redis ≡ true
    → w.outcomes ≡ []
    → cache_get w.clock id w.cal_cache ≡ some row
    → (get_cal_state_objects_by_agg_ids (id ∷ []) w).0 ≡ ok (row ∷ [])
unfolding get_cal_state_objects_by_agg_ids get_objects_by_ids read_cache query call try_catch throw
    gets pure ◌>>=◌
cached_read row id w r e c = simp (r, e, c)

-- Where the table has a row for the key, the cache has none, Redis is connected and no call fails, the
-- write leaves that row in the table, whatever the new object is, and caches the new object, which a
-- read of the key then answers in place of the row.
pub write_cal_state_objects_bulk_conflict :
    (new : CalRow) (old : CalRow) (w : World)
    → w.redis ≡ true
    → w.outcomes ≡ []
    → find_one (λ r. r.agg_id) new.agg_id w.cal_states ≡ some old
    → cache_get w.clock new.agg_id w.cal_cache ≡ none
    → let w' = (write_cal_state_objects_bulk (new ∷ []) w).1 in
      (find_one (λ r. r.agg_id) new.agg_id w'.cal_states ≡ some old)
      × (cache_get w.clock new.agg_id w'.cal_cache ≡ some new)
      × ((get_cal_state_objects_by_agg_ids (new.agg_id ∷ []) w').0 ≡ ok (new ∷ []))
unfolding write_cal_state_objects_bulk write_objects cache_new_rows execute call try_catch gets pure
    ◌>>=◌ cache_set_nx
write_cal_state_objects_bulk_conflict new old w r e f c =
    let cached =
      cache_get-cache_set_self w.clock (proof_state_cache_expire_minutes * 60) new.agg_id new
        w.cal_cache (omega arith) in
    simp (r, e, c)
      (
        find_one-insert_all (λ r. r.agg_id) w.clock (new ∷ []) new.agg_id w.cal_states old f,
        cached,
        cached_read new new.agg_id _ refl refl cached,
      )
