-- ===== src/CachedState/Read.antt =====
-- Reading rows through the cache: the answer is what the table holds, and the cache stays true.
use chainpoint_core_erc.Prelude.{
  ℕ, ◌≡◌, refl, ap, ◌∙◌, inl, inr, Bool, true, ◌&&◌, Option, none, some, String, List, [], ◌∷◌,
  ◌++◌, map, arith,
}
use chainpoint_core_erc.Prelude.Lists.{All, All-append, All-map, All-filter_by, includes}
use chainpoint_core_erc.Exec.{Error, redis_error, db_error, type_error}
use chainpoint_core_erc.Exec.Ensures.{
  OnOk, Ensures, Ensures-pure, Ensures-throw, Ensures-gets, Ensures-if, Ensures-try_catch,
  Ensures-bind,
}
use chainpoint_core_erc.World.{World, Outcome, done, refused, lost, Stamped, Entry}
use chainpoint_core_erc.World.Calls.{call, query, execute, next_outcome, called, respond}
use chainpoint_core_erc.CachedState.Cached.{CachedTable}
use chainpoint_core_erc.CachedState.Bulk.{
  Items, with_data, assign_results, read_cache, all_cached, cached_data, ids_null_data, set_each,
  cache_rows, fetch_missing, get_objects_by_ids,
}
use chainpoint_core_erc.CachedState.Tables.{has_key, find_in}
use chainpoint_core_erc.CachedState.Cache.{cache_set}
use chainpoint_core_erc.CachedState.Laws.{IsLawful}
use chainpoint_core_erc.CachedState.Lookup.{
  lookup_by, holds-append_left, holds-append_right, holds-find_in, lookup_by-content, IsTrueItem,
  IsTrueEntry, with_data-true, ids-with_data, no_data-true, ids-no_data, cached_data-true,
  items-split, all_cached-null,
}

-- Each id has one content, whatever the message or the service that stores it.
pub record IsContent {A : Type 0} (t : CachedTable A A) (content : String → A)
    (rs : List (Stamped A)) : Type 0 where
  pub keyed : (id : String) → t.key (content id) ≡ id
  pub rows : All (λ r. r.row ≡ content (t.key r.row)) rs

-- The table holds `rs`, and the cache holds contents only.
pub record IsTrue {A : Type 0} (t : CachedTable A A) (content : String → A) (rs : List (Stamped A))
    (w : World) : Type 0 where
  pub rows : t.rows w ≡ rs
  pub cache : All (IsTrueEntry t content) (t.cache w)

-- An answer for `ids`: every row is a true content, and every id with a row in the table is looked
-- up to its content.
pub record Answers {A : Type 0} (t : CachedTable A A) (content : String → A) (rs : List (Stamped A))
    (ids : List String) (as_ : List A) : Type 0 where
  pub contents : All (λ a. a ≡ content (t.key a)) as_
  pub found :
      (id : String)
      → includes id ids ≡ true
      → has_key t.key id rs ≡ true
      → lookup_by t.key id as_ ≡ some (content id)

module _ {A : Type 0} (t : CachedTable A A) (laws : IsLawful t) (content : String → A)
    (rs : List (Stamped A)) (true_rows : IsContent t content rs) where
  abbrev P : World → Type 0
  P = IsTrue t content rs

  set_each-true :
      (now : ℕ) (as_ : List A) (es : List (Entry A))
      → All (λ a. a ≡ content (t.key a)) as_
      → All (IsTrueEntry t content) es
      → All (IsTrueEntry t content) (set_each t now as_ es)
  unfolding cache_set
  set_each-true now [] es ha he = he
  set_each-true now (a ∷ as_) es ha he =
      set_each-true now as_ _ ha.1 (ha.0, All-filter_by (IsTrueEntry t content) _ es he)

  called-true : (w : World) → P w → P (called w)
  called-true w p = record {
    rows = laws.rows-called w ∙ p.rows;
    cache = rw laws.cache-called p.cache;
  }

  set_cache-true :
      (es : List (Entry A)) (w : World)
      → P w
      → All (IsTrueEntry t content) es
      → P (t.set_cache es w)
  set_cache-true es w p h = record {
    rows = laws.rows-set_cache es w ∙ p.rows;
    cache = rw laws.cache-set_cache h;
  }

  pub respond-true :
      {B : Type 0} (Q : B → Type 0) (o : Outcome) (e : Error) (f : World → B × World) (w : World)
      → P w
      → P (f w).1
      → Q (f w).0
      → P (respond o e f w).1 × OnOk Q (respond o e f w).0
  respond-true Q done e f w p pf q = (pf, q)
  respond-true Q refused e f w p pf q = (p, tt)
  respond-true Q lost e f w p pf q = (pf, tt)

  pub Ensures-call :
      {B : Type 0} (Q : B → Type 0) (e : Error) (f : World → B × World)
      → ((w : World) → P w → P (f w).1)
      → ((w : World) → P w → Q (f w).0)
      → Ensures P Q (call e f)
  unfolding call
  Ensures-call Q e f hp hq = record {
    keeps = λ w p.
        let c = called-true w p in
        (respond-true Q (next_outcome w.outcomes) e f (called w) c (hp _ c) (hq _ c)).0;
    result = λ w p.
        let c = called-true w p in
        (respond-true Q (next_outcome w.outcomes) e f (called w) c (hp _ c) (hq _ c)).1;
  }

  cache_rows-Ensures :
      (as_ : List A)
      → All (λ a. a ≡ content (t.key a)) as_
      → Ensures P (λ _. Unit) (cache_rows t as_)
  unfolding cache_rows execute
  cache_rows-Ensures as_ h =
      Ensures-try_catch P (λ _. Unit) _ _
        (Ensures-call (λ _. Unit) redis_error _
          (λ w p. set_cache-true _ w p (set_each-true w.clock as_ (t.cache w) h p.cache))
          (λ w p. tt))
        (λ e. Ensures-pure tt tt)

  -- The items of `ids`, some with their contents.
  abbrev IsReadOf : List String → Items t → Type 0
  IsReadOf ids items = All (IsTrueItem t content) items × (map (λ i. i.0) items ≡ ids)

  abbrev IsFound : List String → Option (List (Option A)) → Type 0
  IsFound ids none = Unit
  IsFound ids (some found) = IsReadOf ids (with_data t ids found)

  assign-Ensures :
      (ids : List String) (o : Option (List (Option A)))
      → IsFound ids o
      → Ensures P (IsReadOf ids) (assign_results t ids o)
  assign-Ensures [] o h = Ensures-pure [] (tt, refl)
  assign-Ensures (id ∷ ids) none h = Ensures-throw type_error
  assign-Ensures (id ∷ ids) (some found) h = Ensures-pure _ h

  read_cache-Ensures : (ids : List String) → Ensures P (IsReadOf ids) (read_cache t ids)
  unfolding read_cache query
  read_cache-Ensures ids =
      Ensures-bind P (IsFound ids) (IsReadOf ids) _ _
        (Ensures-try_catch P (IsFound ids) _ _
          (Ensures-bind P (λ found. IsFound ids (some found)) (IsFound ids) _ _
            (Ensures-call (λ found. IsFound ids (some found)) redis_error _ (λ w p. p)
              (λ w p. (
                with_data-true t content w.clock ids (t.cache w) p.cache,
                ids-with_data t content ids _,
              )))
            (λ found h. Ensures-pure (some found) h))
          (λ e. Ensures-pure none tt))
        (assign-Ensures ids)

  find_in-true : (keys : List String) → All (λ a. a ≡ content (t.key a)) (find_in t.key keys rs)
  unfolding find_in
  find_in-true keys = All-map _ _ _ (All-filter_by _ _ rs true_rows.rows)

  -- Everything came from the cache.
  cached-Answers :
      (ids : List String) (items : Items t)
      → IsReadOf ids items
      → all_cached t items ≡ true
      → Answers t content rs ids (cached_data t items)
  cached-Answers ids items (true_items, same) all = record {
    contents = cached_data-true t content true_rows.keyed items true_items;
    found = λ id asked there.
        lookup_by-content t.key content id _
          (cached_data-true t content true_rows.keyed items true_items)
          (elim (items-split t content true_rows.keyed items id true_items (rw same asked)) [
            | inl p ↦ absurd (cc (p, all_cached-null t content true_rows.keyed items all))
            | inr p ↦ p
          ]);
  }

  -- What was not cached came from the table.
  fetched-Answers :
      (ids : List String) (items : Items t)
      → IsReadOf ids items
      → Answers t content rs ids (find_in t.key (ids_null_data t items) rs ++ cached_data t items)
  fetched-Answers ids items (true_items, same) =
      let contents =
        All-append (λ (a : A). a ≡ content (t.key a)) (find_in t.key (ids_null_data t items) rs)
          (cached_data t items) (find_in-true (ids_null_data t items))
          (cached_data-true t content true_rows.keyed items true_items) in
      record {
        contents = contents;
        found = λ id asked there.
            lookup_by-content t.key content id _ contents
              (elim (items-split t content true_rows.keyed items id true_items (rw same asked)) [
                | inl p ↦ holds-append_left t.key id _ _ (holds-find_in t.key id _ rs p there)
                | inr p ↦ holds-append_right t.key id (find_in t.key (ids_null_data t items) rs) _ p
              ]);
      }

  fetch_missing-Ensures :
      (redis : Bool) (ids : List String) (items : Items t)
      → IsReadOf ids items
      → Ensures P (Answers t content rs ids) (fetch_missing t redis items)
  unfolding fetch_missing query
  fetch_missing-Ensures redis ids items h =
      Ensures-bind P (λ db. db ≡ find_in t.key (ids_null_data t items) rs)
        (Answers t content rs ids) _ _
        (Ensures-call _ db_error _ (λ w p. p)
          (λ w p. ap (find_in t.key (ids_null_data t items)) p.rows))
        (λ db e.
          Ensures-bind P (λ _. Unit) (Answers t content rs ids) _ _
            (Ensures-if redis _ _
              (λ _. cache_rows-Ensures db (rw e (find_in-true (ids_null_data t items))))
              (λ _. Ensures-pure tt tt))
            (λ _ _. Ensures-pure _ (rw e (fetched-Answers ids items h))))

  pub get_objects_by_ids-Ensures :
      (ids : List String) → Ensures P (Answers t content rs ids) (get_objects_by_ids t ids)
  unfolding get_objects_by_ids
  get_objects_by_ids-Ensures ids =
      Ensures-bind P (λ _. Unit) (Answers t content rs ids) _ _ (Ensures-gets _ (λ w p. tt))
        (λ redis _.
          Ensures-bind P (IsReadOf ids) (Answers t content rs ids) _ _
            (Ensures-if redis _ _ (λ _. read_cache-Ensures ids)
              (λ _. Ensures-pure _ (no_data-true t content ids, ids-no_data t content ids)))
            (λ items h.
              Ensures-if (redis && all_cached t items) _ _
                (λ e. Ensures-pure _ (cached-Answers ids items h (ground arith)))
                (λ _. fetch_missing-Ensures redis ids items h)))
