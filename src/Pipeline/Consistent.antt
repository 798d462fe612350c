-- ===== src/Pipeline/Consistent.antt =====
-- What holds of the database and the cache at all times: the keys of the tables are distinct, and the
-- calendar states in the cache are those of the table.
use chainpoint_core_erc.Prelude.{
  ℕ, ◌≡◌, refl, ap, ◌∙◌, inl, inr, Bool, false, ◌==◌, String, List, [], ◌∷◌, ◌++◌, map, Bool-cases,
  arith,
}
use chainpoint_core_erc.Prelude.Lists.{filter_by, includes}
use chainpoint_core_erc.World.{World, Stamped, AggRow, CalRow, ProofRow}
use chainpoint_core_erc.CachedState.Cached.{cal_table}
use chainpoint_core_erc.CachedState.Tables.{has_key, insert_new, insert_all}
use chainpoint_core_erc.CachedState.Coherence.{IsCoherent}
use chainpoint_core_erc.GenService.{has_repeat}
use chainpoint_core_erc.Endpoints.Upserted.{IsKeyed, row_key, differ-sym}

abbrev pub stamped_id : Stamped AggRow → String
stamped_id s = s.row.hash_id

-- `hash_id` is the primary key of `agg_states` and of `proofs`, and the cache of calendar states and
-- their table agree.
pub record IsConsistent (content : String → CalRow) (w : World) : Type 0 where
  pub distinct : has_repeat (map stamped_id w.agg_states) ≡ false
  pub keyed : IsKeyed w.proofs
  pub coherent : IsCoherent cal_table content w

includes-snoc :
    (x k : String) (xs : List String)
    → includes x xs ≡ false
    → x == k ≡ false
    → includes x (xs ++ k ∷ []) ≡ false
includes-snoc x k [] h e = rw e refl
includes-snoc x k (y ∷ xs) h e = ground (arith, includes-snoc x k xs)

has_repeat-snoc :
    (k : String) (xs : List String)
    → has_repeat xs ≡ false
    → includes k xs ≡ false
    → has_repeat (xs ++ k ∷ []) ≡ false
has_repeat-snoc k [] d h = refl
has_repeat-snoc k (x ∷ xs) d h =
    let fresh : includes x xs ≡ false = ground arith in
    let other : k == x ≡ false = ground arith in
    let front = includes-snoc x k xs fresh (differ-sym k x other) in
    rw front (has_repeat-snoc k xs (ground arith) (ground arith))

map-snoc :
    (rs : List (Stamped AggRow)) (s : Stamped AggRow)
    → map stamped_id (rs ++ s ∷ []) ≡ map stamped_id rs ++ stamped_id s ∷ []
map-snoc [] s = refl
map-snoc (r ∷ rs) s = ap (λ xs. stamped_id r ∷ xs) (map-snoc rs s)

includes_of_has_key :
    (k : String) (rs : List (Stamped AggRow))
    → has_key (λ r. r.hash_id) k rs ≡ false
    → includes k (map stamped_id rs) ≡ false
includes_of_has_key k [] h = refl
includes_of_has_key k (r ∷ rs) h =
    let other : r.row.hash_id == k ≡ false = ground arith in
    rw (differ-sym r.row.hash_id k other) (includes_of_has_key k rs (ground arith))

insert_new-distinct :
    (now : ℕ) (a : AggRow) (rs : List (Stamped AggRow))
    → has_repeat (map stamped_id rs) ≡ false
    → has_repeat (map stamped_id (insert_new (λ r. r.hash_id) now a rs)) ≡ false
unfolding insert_new
insert_new-distinct now a rs d = elim (Bool-cases (has_key (λ r. r.hash_id) a.hash_id rs)) [
  | inl e ↦ rw e d
  | inr e ↦ rw e (
      ap has_repeat (map-snoc rs _)
      ∙ has_repeat-snoc a.hash_id (map stamped_id rs) d (includes_of_has_key a.hash_id rs e))
]

pub insert_all-distinct :
    (now : ℕ) (objs : List AggRow) (rs : List (Stamped AggRow))
    → has_repeat (map stamped_id rs) ≡ false
    → has_repeat (map stamped_id (insert_all (λ r. r.hash_id) now objs rs)) ≡ false
unfolding insert_all
insert_all-distinct now [] rs d = d
insert_all-distinct now (a ∷ objs) rs d =
    insert_all-distinct now objs _ (insert_new-distinct now a rs d)

module _ (p : Stamped ProofRow → Bool) where
  has_key-filter_by :
      (k : String) (rs : List (Stamped ProofRow))
      → has_key row_key k rs ≡ false
      → has_key row_key k (filter_by p rs) ≡ false
  has_key-filter_by k [] h = h
  has_key-filter_by k (r ∷ rs) h = ground (arith, has_key-filter_by k rs)

  pub IsKeyed-filter_by : (rs : List (Stamped ProofRow)) → IsKeyed rs → IsKeyed (filter_by p rs)
  IsKeyed-filter_by [] k = k
  IsKeyed-filter_by (r ∷ rs) k = elim (Bool-cases (p r)) [
    | inl e ↦ rw e (has_key-filter_by r.row.hash_id rs k.0, IsKeyed-filter_by rs k.1)
    | inr e ↦ rw e (IsKeyed-filter_by rs k.1)
  ]
