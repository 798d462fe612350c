-- ===== src/CachedState/Lookup.antt =====
-- Looking rows up by key: in the table, in the cache, and in the result of a read.
use chainpoint_core_erc.Prelude.{
  ℕ, ◌≡◌, refl, sym, ap, ◌∙◌, ◌⊎◌, inl, inr, Bool, true, false, ◌||◌, Option, none, some, String,
  List, [], ◌∷◌, ◌++◌, map, arith, ◌==◌, eq_iff, eq_refl, if◌then◌else◌, Bool-cases,
}
use chainpoint_core_erc.Prelude.Lists.{All, includes}
use chainpoint_core_erc.World.{Stamped, Entry}
use chainpoint_core_erc.CachedState.Cached.{CachedTable}
use chainpoint_core_erc.CachedState.Bulk.{
  Items, with_data, no_data, all_cached, cached_data, ids_null_data,
}
use chainpoint_core_erc.CachedState.Tables.{has_key, find_in}
use chainpoint_core_erc.CachedState.Cache.{cache_get}

module _ {A : Type 0} (key : A → String) where
  -- `rows.reduce((result, row) => { result[row.key] = row … }, {})[id]`: the last row of a key wins
  abbrev pub lookup_by : String → List A → Option A
  lookup_by id [] = none
  lookup_by id (a ∷ as_) = elim (lookup_by id as_) [
    | some b ↦ some b
    | none ↦ if key a == id then some a else none
  ]

  abbrev pub holds : String → List A → Bool
  holds id [] = false
  holds id (a ∷ as_) = key a == id || holds id as_

  pub holds-append_left :
      (id : String) (xs ys : List A) → holds id xs ≡ true → holds id (xs ++ ys) ≡ true
  holds-append_left id [] ys h = absurd (cc h)
  holds-append_left id (x ∷ xs) ys h = ground (arith, holds-append_left id xs ys)

  pub holds-append_right :
      (id : String) (xs ys : List A) → holds id ys ≡ true → holds id (xs ++ ys) ≡ true
  holds-append_right id [] ys h = h
  holds-append_right id (x ∷ xs) ys h = ground (arith, holds-append_right id xs ys)

  -- The rows that `IN` finds have every key that is asked for and there.
  pub holds-find_in :
      (id : String) (keys : List String) (rs : List (Stamped A))
      → includes id keys ≡ true
      → has_key key id rs ≡ true
      → holds id (find_in key keys rs) ≡ true
  unfolding find_in
  holds-find_in id keys [] i h = absurd (cc h)
  holds-find_in id keys (r ∷ rs) i h = elim (Bool-cases (key r.row == id)) [
    | inl e ↦ let same = (eq_iff (key r.row) id).0 e in rw (same, i) (rw (same, eq_refl id) refl)
    | inr e ↦ ground (arith, holds-find_in id keys rs i)
  ]

  lookup_by-absent : (id : String) (as_ : List A) → holds id as_ ≡ false → lookup_by id as_ ≡ none
  lookup_by-absent id [] h = refl
  lookup_by-absent id (a ∷ as_) h = ground (arith, lookup_by-absent id as_)

  -- If every row is the content of its key, a key that is held is looked up to its content.
  pub lookup_by-content :
      (content : String → A) (id : String) (as_ : List A)
      → All (λ a. a ≡ content (key a)) as_
      → holds id as_ ≡ true
      → lookup_by id as_ ≡ some (content id)
  lookup_by-content content id [] all h = absurd (cc h)
  lookup_by-content content id (a ∷ as_) all h = elim (Bool-cases (holds id as_)) [
    | inl e ↦ rw (lookup_by-content content id as_ all.1 e) refl
    | inr e ↦
        let found : (key a == id) ≡ true = ground arith in
        let same = (eq_iff (key a) id).0 found in
        rw (lookup_by-absent id as_ e, found) (ap some (all.0 ∙ ap content same))
  ]

module _ {A : Type 0} (t : CachedTable A A) (content : String → A) where
  -- What is known of an item that has been read from the cache.
  abbrev pub IsTrueItem : String × Option A → Type 0
  IsTrueItem (id, none) = Unit
  IsTrueItem (id, some a) = a ≡ content id

  abbrev pub IsTrueEntry : Entry A → Type 0
  IsTrueEntry e = e.value ≡ content e.key

  cache_get-true :
      (now : ℕ) (id : String) (es : List (Entry A)) (a : A)
      → All IsTrueEntry es
      → cache_get now id es ≡ some a
      → a ≡ content id
  unfolding cache_get
  cache_get-true now id [] a all h = absurd (cc h)
  cache_get-true now id (e ∷ es) a all h =
      ground (arith, eq_iff e.key id, all.0, cache_get-true now id es a all.1)

  item-true :
      (now : ℕ) (id : String) (es : List (Entry A)) (o : Option A)
      → All IsTrueEntry es
      → cache_get now id es ≡ o
      → IsTrueItem (id, o)
  item-true now id es none all h = tt
  item-true now id es (some a) all h = cache_get-true now id es a all h

  pub with_data-true :
      (now : ℕ) (ids : List String) (es : List (Entry A))
      → All IsTrueEntry es
      → All IsTrueItem (with_data t ids (map (λ id. cache_get now id es) ids))
  with_data-true now [] es all = tt
  with_data-true now (id ∷ ids) es all =
      (item-true now id es (cache_get now id es) all refl, with_data-true now ids es all)

  pub ids-with_data :
      (ids : List String) (f : String → Option A)
      → map (λ i. i.0) (with_data t ids (map f ids)) ≡ ids
  ids-with_data [] f = refl
  ids-with_data (id ∷ ids) f = ap (λ xs. id ∷ xs) (ids-with_data ids f)

  pub no_data-true : (ids : List String) → All IsTrueItem (no_data t ids)
  no_data-true [] = tt
  no_data-true (id ∷ ids) = (tt, no_data-true ids)

  pub ids-no_data : (ids : List String) → map (λ i. i.0) (no_data t ids) ≡ ids
  ids-no_data [] = refl
  ids-no_data (id ∷ ids) = ap (λ xs. id ∷ xs) (ids-no_data ids)

  module _ (keyed : (id : String) → t.key (content id) ≡ id) where
    pub cached_data-true :
        (items : Items t)
        → All IsTrueItem items
        → All (λ a. a ≡ content (t.key a)) (cached_data t items)
    cached_data-true [] all = tt
    cached_data-true ((id, none) ∷ items) all = cached_data-true items all.1
    cached_data-true ((id, some a) ∷ items) all =
        (rw (all.0) (ap content (sym (keyed id))), cached_data-true items all.1)

    -- An id that is asked for is still to be fetched, or its row came from the cache.
    pub items-split :
        (items : Items t) (id : String)
        → All IsTrueItem items
        → includes id (map (λ i. i.0) items) ≡ true
        → (includes id (ids_null_data t items) ≡ true)
          ⊎ (holds t.key id (cached_data t items) ≡ true)
    items-split [] id all h = absurd (cc h)
    items-split ((i, none) ∷ items) id all h = elim (Bool-cases (id == i)) [
      | inl e ↦ inl (rw e refl)
      | inr e ↦ elim (items-split items id all.1 (ground arith)) [
        | inl p ↦ inl (rw (e, p) refl)
        | inr p ↦ inr p
      ]
    ]
    items-split ((i, some a) ∷ items) id all h = elim (Bool-cases (id == i)) [
      | inl e ↦ inr (rw (all.0, keyed i, ← (eq_iff id i).0 e, eq_refl id) refl)
      | inr e ↦ elim (items-split items id all.1 (ground arith)) [
        | inl p ↦ inl p
        | inr p ↦ inr (ground arith)
      ]
    ]

    pub all_cached-null : (items : Items t) → all_cached t items ≡ true → ids_null_data t items ≡ []
    all_cached-null [] h = refl
    all_cached-null ((id, none) ∷ items) h = absurd (cc h)
    all_cached-null ((id, some a) ∷ items) h = all_cached-null items h
