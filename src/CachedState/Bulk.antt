-- ===== src/CachedState/Bulk.antt =====
-- node-lib/lib/models/cachedProofState.js: the functions that read and write many objects of a table, written
-- once over `CachedTable`.
use chainpoint_core_erc.CachedState.Tables.{insert_all, find_in}
use chainpoint_core_erc.CachedState.Cache.{cache_get, cache_set, cache_set_nx}
use chainpoint_core_erc.CachedState.Cached.{CachedTable, proof_state_cache_expire_minutes, warned}
use chainpoint_core_erc.Prelude.{
  ℕ, ◌*◌, Bool, true, false, Option, none, some, String, List, [], ◌∷◌, ◌++◌, map, ◌&&◌,
  if◌then◌else◌,
}
use chainpoint_core_erc.Exec.{
  db_error, redis_error, type_error, Exec, pure, throw, gets, try_catch, ◌>>=◌, ◌>>◌,
}
use chainpoint_core_erc.World.{World, Entry}
use chainpoint_core_erc.World.Calls.{query, execute}

module _ {A : Type 0} (t : CachedTable A A) where
  -- One `{ aggId, data }` for each id.
  abbrev pub Items : Type 0
  Items = List (String × Option A)

  abbrev pub no_data : List String → Items
  no_data = map (λ id. (id, none))

  abbrev pub with_data : List String → List (Option A) → Items
  with_data [] results = []
  with_data (id ∷ ids) [] = []
  with_data (id ∷ ids) (r ∷ results) = (id, r) ∷ with_data ids results

  -- `item.data = redisResults[index]`; after a failed read `redisResults` is undefined
  abbrev pub assign_results : List String → Option (List (Option A)) → Exec World Items
  assign_results [] results = pure []
  assign_results (id ∷ ids) none = throw type_error
  assign_results (id ∷ ids) (some results) = pure (with_data (id ∷ ids) results)

  unfoldable pub read_cache : List String → Exec World Items
  read_cache ids = do
    results ←
        try_catch
          (do
            found ← query redis_error (λ w. map (λ id. cache_get w.clock id (t.cache w)) ids)
            pure (some found))
          (λ _. pure none)
    assign_results ids results

  abbrev pub all_cached : Items → Bool
  all_cached [] = true
  all_cached ((id, none) ∷ items) = false
  all_cached ((id, some a) ∷ items) = all_cached items

  abbrev pub cached_data : Items → List A
  cached_data [] = []
  cached_data ((id, none) ∷ items) = cached_data items
  cached_data ((id, some a) ∷ items) = a ∷ cached_data items

  abbrev pub ids_null_data : Items → List String
  ids_null_data [] = []
  ids_null_data ((id, none) ∷ items) = id ∷ ids_null_data items
  ids_null_data ((id, some a) ∷ items) = ids_null_data items

  abbrev pub set_each : ℕ → List A → List (Entry A) → List (Entry A)
  set_each now [] es = es
  set_each now (a ∷ as_) es =
      set_each now as_ (cache_set now (proof_state_cache_expire_minutes * 60) (t.key a) a es)

  abbrev pub set_each_nx : ℕ → List A → List (Entry A) → List (Entry A)
  set_each_nx now [] es = es
  set_each_nx now (a ∷ as_) es =
      set_each_nx now as_ (cache_set_nx now (proof_state_cache_expire_minutes * 60) (t.key a) a es)

  -- store the rows that came from the database, and go on if that fails
  unfoldable pub cache_rows : List A → Exec World (Unit {0})
  cache_rows db_result =
      try_catch (execute redis_error (λ w. t.set_cache (set_each w.clock db_result (t.cache w)) w))
        warned

  unfoldable pub fetch_missing : Bool → Items → Exec World (List A)
  fetch_missing redis items = do
    db_result ← query db_error (λ w. find_in t.key (ids_null_data items) (t.rows w))
    if redis then cache_rows db_result else pure tt
    pure (db_result ++ cached_data items)

  unfoldable pub get_objects_by_ids : List String → Exec World (List A)
  get_objects_by_ids ids = do
    redis ← gets (λ w. w.redis)
    items ← if redis then read_cache ids else pure (no_data ids)
    if redis && all_cached items then pure (cached_data items) else fetch_missing redis items

  -- with no row the statement has no VALUES, and the database refuses it
  abbrev pub insert_statement : List A → Exec World (Unit {0})
  insert_statement [] = throw db_error
  insert_statement (a ∷ as_) =
      execute db_error (λ w. t.set_rows (insert_all t.key w.clock (a ∷ as_) (t.rows w)) w)

  -- `SET … NX` for each object, and go on if that fails
  unfoldable pub cache_new_rows : List A → Exec World (Unit {0})
  cache_new_rows objs =
      try_catch (execute redis_error (λ w. t.set_cache (set_each_nx w.clock objs (t.cache w)) w))
        warned

  unfoldable pub write_objects : List A → Exec World Bool
  write_objects objs = do
    insert_statement objs
    redis ← gets (λ w. w.redis)
    if redis then cache_new_rows objs else pure tt
    pure true
