-- ===== src/CachedState/Frame/Generic.antt =====
-- What the proof state functions move along, for any relation that the calls and the setters of a
-- table respect.
use chainpoint_core_erc.Prelude.{Bool, Option, none, some, String, List, [], ◌∷◌}
use chainpoint_core_erc.Exec.{Error}
use chainpoint_core_erc.Exec.Keeps.{Preorder, Keeps, keeps_rules}
use chainpoint_core_erc.World.{World, Outcome, done, refused, lost, Stamped, Entry}
use chainpoint_core_erc.World.Calls.{call, query, execute, next_outcome, called, respond}
use chainpoint_core_erc.CachedState.Cached.{CachedTable}
use chainpoint_core_erc.CachedState.Bulk.{
  Items, assign_results, read_cache, cache_rows, fetch_missing, get_objects_by_ids,
  insert_statement, cache_new_rows, write_objects,
}
use chainpoint_core_erc.CachedState.Single.{
  read_cached_object, cache_object, find_object, hit_or_find, get_object_by_id, write_object,
}

-- Using up an outcome moves along the relation.
pub record IsFree (r : Preorder World) : Type 0 where
  pub on_call : (w : World) → r.rel w (called w)

module _ {r : Preorder World} (free : IsFree r) {A : Type 0} where
  respond-rel :
      (o : Outcome) (e : Error) (f : World → A × World) (w v : World)
      → r.rel w v
      → r.rel v (f v).1
      → r.rel w (respond o e f v).1
  respond-rel done e f w v p h = r.rel_trans w v (f v).1 p h
  respond-rel refused e f w v p h = p
  respond-rel lost e f w v p h = r.rel_trans w v (f v).1 p h

  pub Keeps-call :
      (e : Error) (f : World → A × World) → ((w : World) → r.rel w (f w).1) → Keeps r (call e f)
  unfolding call
  Keeps-call e f h = record {
    at =
        λ w. respond-rel (next_outcome w.outcomes) e f w (called w) (free.on_call w) (h (called w));
  }

  pub Keeps-query : (e : Error) (f : World → A) → Keeps r (query e f)
  unfolding query
  Keeps-query e f = Keeps-call e (λ w. (f w, w)) (λ w. r.rel_refl w)

pub Keeps-execute :
    {r : Preorder World} (free : IsFree r) (e : Error) (f : World → World)
    → ((w : World) → r.rel w (f w))
    → Keeps r (execute e f)
unfolding execute
Keeps-execute free e f h = Keeps-call free e (λ w. (tt, f w)) h

-- A table whose setters move along the relation.
pub record IsInside (r : Preorder World) {A V : Type 0} (t : CachedTable A V) : Type 0 where
  pub set_rows : (rs : List (Stamped A)) (w : World) → r.rel w (t.set_rows rs w)
  pub set_cache : (es : List (Entry V)) (w : World) → r.rel w (t.set_cache es w)

pub ruleset frame_rules = (keeps_rules, Keeps-query, Keeps-execute)

module _ {A : Type 0} (t : CachedTable A A) {r : Preorder World} (free : IsFree r)
    (inside : IsInside r t) where
  assign_results-Keeps :
      (ids : List String) (o : Option (List (Option A))) → Keeps r (assign_results t ids o)
  assign_results-Keeps [] o = search keeps_rules
  assign_results-Keeps (id ∷ ids) none = search keeps_rules
  assign_results-Keeps (id ∷ ids) (some results) = search keeps_rules

  read_cache-Keeps : (ids : List String) → Keeps r (read_cache t ids)
  unfolding read_cache
  read_cache-Keeps ids = search (frame_rules, assign_results-Keeps)

  cache_rows-Keeps : (rows : List A) → Keeps r (cache_rows t rows)
  unfolding cache_rows
  cache_rows-Keeps rows = search (frame_rules, inside.set_cache)

  fetch_missing-Keeps : (redis : Bool) (items : Items t) → Keeps r (fetch_missing t redis items)
  unfolding fetch_missing
  fetch_missing-Keeps redis items = search (frame_rules, cache_rows-Keeps)

  pub get_objects_by_ids-Keeps : (ids : List String) → Keeps r (get_objects_by_ids t ids)
  unfolding get_objects_by_ids
  get_objects_by_ids-Keeps ids = search (frame_rules, read_cache-Keeps, fetch_missing-Keeps) depth 7

  insert_statement-Keeps : (objs : List A) → Keeps r (insert_statement t objs)
  insert_statement-Keeps [] = search keeps_rules
  insert_statement-Keeps (a ∷ as_) = search (frame_rules, inside.set_rows)

  cache_new_rows-Keeps : (objs : List A) → Keeps r (cache_new_rows t objs)
  unfolding cache_new_rows
  cache_new_rows-Keeps objs = search (frame_rules, inside.set_cache)

  pub write_objects-Keeps : (objs : List A) → Keeps r (write_objects t objs)
  unfolding write_objects
  write_objects-Keeps objs =
      search (frame_rules, insert_statement-Keeps, cache_new_rows-Keeps) depth 7

module _ {A : Type 0} (t : CachedTable A (Option A)) {r : Preorder World} (free : IsFree r)
    (inside : IsInside r t) where
  cache_object-Keeps : (id : String) (o : Option A) → Keeps r (cache_object t id o)
  unfolding cache_object
  cache_object-Keeps id o = search (frame_rules, inside.set_cache)

  find_object-Keeps : (redis : Bool) (id : String) → Keeps r (find_object t redis id)
  unfolding find_object
  find_object-Keeps redis id = search (frame_rules, cache_object-Keeps)

  read_cached_object-Keeps : (id : String) → Keeps r (read_cached_object t id)
  unfolding read_cached_object
  read_cached_object-Keeps id = search frame_rules

  hit_or_find-Keeps :
      (redis : Bool) (id : String) (o : Option (Option A)) → Keeps r (hit_or_find t redis id o)
  hit_or_find-Keeps redis id (some v) = search keeps_rules
  hit_or_find-Keeps redis id none = find_object-Keeps redis id

  pub get_object_by_id-Keeps : (id : String) → Keeps r (get_object_by_id t id)
  unfolding get_object_by_id
  get_object_by_id-Keeps id =
      search (frame_rules, read_cached_object-Keeps, hit_or_find-Keeps) depth 7

  pub write_object-Keeps : (obj : A) → Keeps r (write_object t obj)
  unfolding write_object
  write_object-Keeps obj = search (frame_rules, cache_object-Keeps, inside.set_rows) depth 7
