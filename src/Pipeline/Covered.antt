-- ===== src/Pipeline/Covered.antt =====
-- node-proof-state-service/server.js: the hashes that a calendar message announces are those of its rows.
use chainpoint_core_erc.Prelude.{
  ◌≡◌, refl, sym, ap, subst, ◌∙◌, ◌⊎◌, inl, inr, Bool, true, false, ◌||◌, ◌==◌, some, String, List,
  [], ◌∷◌, map, Bool-cases, eq_iff, eq_refl, arith,
}
use chainpoint_core_erc.Prelude.Lists.{All, All-map, filter_by, includes}
use chainpoint_core_erc.World.{Stamped, AggRow, CalRow}
use chainpoint_core_erc.CachedState.Tables.{has_key, find_in, find_one}
use chainpoint_core_erc.GenService.{has_repeat}
use chainpoint_core_erc.StateService.Batches.{flatten}
use chainpoint_core_erc.Endpoints.Upserted.{differ-sym}
use chainpoint_core_erc.Pipeline.Batch.{batch_rows, IsCovered}
use chainpoint_core_erc.Pipeline.Row.{agg_key}
use chainpoint_core_erc.Pipeline.Sequence.{includes-append}

-- The hash ids of the rows of some aggregations.
abbrev pub ids_of : List String → List (Stamped AggRow) → List String
ids_of keys aggs = map (λ r. r.hash_id) (find_in (λ r. r.agg_id) keys aggs)

abbrev stamped_key : Stamped AggRow → String
stamped_key s = s.row.hash_id

All-filter_by_test :
    {A : Type 0} (P : A → Type 0) (p : A → Bool) (xs : List A)
    → All (λ x. (p x ≡ false) ⊎ P x) xs
    → All P (filter_by p xs)
All-filter_by_test P p [] h = tt
All-filter_by_test P p (x ∷ xs) (inl e, h) = rw e (All-filter_by_test P p xs h)
All-filter_by_test P p (x ∷ xs) (inr q, h) = elim (Bool-cases (p x)) [
  | inl e ↦ rw e (q, All-filter_by_test P p xs h)
  | inr e ↦ rw e (All-filter_by_test P p xs h)
]

module _ (keys : List String) where
  -- A row whose hash id is announced is of one of the aggregations.
  abbrev IsFrom : List String → List (Stamped AggRow) → Type 0
  IsFrom announced rs =
      All (λ s. (includes (stamped_key s) announced ≡ false) ⊎ (includes s.row.agg_id keys ≡ true))
        rs

  IsFrom-cons :
      (k : String) (announced : List String) (rs : List (Stamped AggRow))
      → includes k (map stamped_key rs) ≡ false
      → IsFrom announced rs
      → IsFrom (k ∷ announced) rs
  IsFrom-cons k announced [] h f = tt
  IsFrom-cons k announced (s ∷ rs) h (inl e, f) = (
    inl (rw (differ-sym k (stamped_key s) (ground arith), e) refl),
    IsFrom-cons k announced rs (ground arith) f,
  )
  IsFrom-cons k announced (s ∷ rs) h (inr i, f) =
      (inr i, IsFrom-cons k announced rs (ground arith) f)

  ids_of-here :
      (s : Stamped AggRow) (rs : List (Stamped AggRow))
      → includes s.row.agg_id keys ≡ true
      → ids_of keys (s ∷ rs) ≡ stamped_key s ∷ ids_of keys rs
  unfolding find_in
  ids_of-here s rs e = rw e refl

  ids_of-skip :
      (s : Stamped AggRow) (rs : List (Stamped AggRow))
      → includes s.row.agg_id keys ≡ false
      → ids_of keys (s ∷ rs) ≡ ids_of keys rs
  unfolding find_in
  ids_of-skip s rs e = rw e refl

  not_includes-ids_of :
      (k : String) (rs : List (Stamped AggRow))
      → includes k (map stamped_key rs) ≡ false
      → includes k (ids_of keys rs) ≡ false
  unfolding find_in
  not_includes-ids_of k [] h = refl
  not_includes-ids_of k (s ∷ rs) h = ground (arith, not_includes-ids_of k rs)

  announced-IsFrom :
      (rs : List (Stamped AggRow))
      → has_repeat (map stamped_key rs) ≡ false
      → IsFrom (ids_of keys rs) rs
  unfolding find_in
  announced-IsFrom [] d = tt
  announced-IsFrom (s ∷ rs) d = elim (Bool-cases (includes s.row.agg_id keys)) [
    | inl e ↦
        subst (λ a. IsFrom a (s ∷ rs)) (sym (ids_of-here s rs e))
          (
            inr e,
            IsFrom-cons (stamped_key s) (ids_of keys rs) rs (ground arith)
                (announced-IsFrom rs (ground arith)),
          )
    | inr e ↦
        subst (λ a. IsFrom a (s ∷ rs)) (sym (ids_of-skip s rs e))
          (
            inl (not_includes-ids_of (stamped_key s) rs (ground arith)),
            announced-IsFrom rs (ground arith),
          )
  ]

  -- A row of one of the aggregations is announced.
  pub row_announced :
      (row : AggRow) (rs : List (Stamped AggRow))
      → find_one agg_key row.hash_id rs ≡ some row
      → includes row.agg_id keys ≡ true
      → includes row.hash_id (ids_of keys rs) ≡ true
  unfolding find_in find_one
  row_announced row [] h i = absurd (cc h)
  row_announced row (s ∷ rs) h i = elim (Bool-cases (s.row.hash_id == row.hash_id)) [
    | inl e ↦
        let same : s.row ≡ row = cc (h, e) in
        ap (includes row.hash_id)
          (ids_of-here s rs (ap (λ (r : AggRow). includes r.agg_id keys) same ∙ i))
        ∙ ap (λ (r : AggRow). row.hash_id == r.hash_id || includes row.hash_id (ids_of keys rs))
            same
        ∙ rw (eq_refl row.hash_id) refl
    | inr e ↦ ground (arith, row_announced row rs)
  ]

module _ (keys : List String) (aggs : List (Stamped AggRow)) (cals : List (Stamped CalRow))
    (there : All (λ k. has_key (λ (c : CalRow). c.agg_id) k cals ≡ true) keys) where
  key_there :
      (k : String) (ks : List String)
      → All (λ x. has_key (λ (c : CalRow). c.agg_id) x cals ≡ true) ks
      → includes k ks ≡ true
      → has_key (λ (c : CalRow). c.agg_id) k cals ≡ true
  key_there k [] h i = absurd (cc i)
  key_there k (x ∷ ks) h i = elim (Bool-cases (k == x)) [
    | inl e ↦ ap (λ y. has_key (λ (c : CalRow). c.agg_id) y cals) ((eq_iff k x).0 e) ∙ h.0
    | inr e ↦ key_there k ks h.1 (ground arith)
  ]

  from-covered :
      (ids announced : List String) (rs : List (Stamped AggRow))
      → ((k : String) → includes k ids ≡ true → includes k announced ≡ true)
      → IsFrom keys announced rs
      → All
          (λ s.
            (includes (stamped_key s) ids ≡ false)
            ⊎ (has_key (λ (c : CalRow). c.agg_id) s.row.agg_id cals ≡ true))
          rs
  from-covered ids announced [] part f = tt
  from-covered ids announced (s ∷ rs) part (inl e, f) = (
    inl (elim (Bool-cases (includes (stamped_key s) ids)) [
      | inl i ↦ absurd (cc (part (stamped_key s) i, e))
      | inr i ↦ i
    ]),
    from-covered ids announced rs part f,
  )
  from-covered ids announced (s ∷ rs) part (inr i, f) =
      (inr (key_there s.row.agg_id keys there i), from-covered ids announced rs part f)

  -- Where the batches announce the hashes of some aggregations, all of which have their calendar rows,
  -- every row of every batch is covered.
  batches-IsCovered :
      (bs : List (List String)) (announced : List String)
      → ((k : String) → includes k (flatten bs) ≡ true → includes k announced ≡ true)
      → IsFrom keys announced aggs
      → All (λ b. IsCovered cals (batch_rows b aggs)) bs
  unfolding find_in
  batches-IsCovered [] announced part f = tt
  batches-IsCovered (b ∷ bs) announced part f = (
    All-map (λ (r : AggRow). has_key (λ (c : CalRow). c.agg_id) r.agg_id cals ≡ true) _ _
        (All-filter_by_test _ _ aggs (
          from-covered b announced aggs
            (λ k i. part k (includes-append k b (flatten bs) ∙ rw i refl)) f)),
    batches-IsCovered bs announced (λ k i. part k (includes-append k b (flatten bs) ∙ ground arith))
        f,
  )

  pub announced-IsCovered :
      (bs : List (List String))
      → has_repeat (map (λ r. r.row.hash_id) aggs) ≡ false
      → flatten bs ≡ ids_of keys aggs
      → All (λ b. IsCovered cals (batch_rows b aggs)) bs
  announced-IsCovered bs d e =
      batches-IsCovered bs (ids_of keys aggs) (λ k i. sym (ap (includes k) e) ∙ i)
        (announced-IsFrom keys aggs d)
