-- ===== src/CachedState/Single.antt =====
-- node-lib/lib/models/cachedProofState.js: the functions that read and write one object of a table, written
-- once over `CachedTable`.
use chainpoint_core_erc.CachedState.Tables.{upsert, find_one}
use chainpoint_core_erc.CachedState.Cache.{cache_get, cache_set}
use chainpoint_core_erc.CachedState.Cached.{CachedTable, proof_state_cache_expire_minutes, warned}
use chainpoint_core_erc.Prelude.{ℕ, ◌*◌, Bool, true, Option, none, some, String, if◌then◌else◌}
use chainpoint_core_erc.Exec.{db_error, redis_error, Exec, pure, gets, try_catch, ◌>>=◌, ◌>>◌}
use chainpoint_core_erc.World.{World}
use chainpoint_core_erc.World.Calls.{query, execute}

module _ {A : Type 0} (t : CachedTable A (Option A)) where
  abbrev pub expire_seconds : ℕ
  expire_seconds = proof_state_cache_expire_minutes * 60

  -- a cached text is never empty, so it counts as a hit, the text `null` too
  unfoldable pub read_cached_object : String → Exec World (Option (Option A))
  read_cached_object id =
      try_catch (query redis_error (λ w. cache_get w.clock id (t.cache w))) (λ _. pure none)

  unfoldable pub cache_object : String → Option A → Exec World (Unit {0})
  cache_object id result =
      try_catch
        (execute redis_error
          (λ w. t.set_cache (cache_set w.clock expire_seconds id result (t.cache w)) w))
        warned

  unfoldable pub find_object : Bool → String → Exec World (Option A)
  find_object redis id = do
    result ← query db_error (λ w. find_one t.key id (t.rows w))
    if redis then cache_object id result else pure tt
    pure result

  abbrev pub hit_or_find : Bool → String → Option (Option A) → Exec World (Option A)
  hit_or_find redis id (some value) = pure value
  hit_or_find redis id none = find_object redis id

  unfoldable pub get_object_by_id : String → Exec World (Option A)
  get_object_by_id id = do
    redis ← gets (λ w. w.redis)
    cached ← if redis then read_cached_object id else pure none
    hit_or_find redis id cached

  unfoldable pub write_object : A → Exec World Bool
  write_object obj = do
    execute db_error (λ w. t.set_rows (upsert t.key w.clock obj (t.rows w)) w)
    redis ← gets (λ w. w.redis)
    if redis then cache_object (t.key obj) (some obj) else pure tt
    pure true
