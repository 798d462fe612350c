-- ===== src/Endpoints/Upserted.antt =====
-- node-lib/lib/models/Proof.js: which proof a table gives for an id, once rows were written.
use chainpoint_core_erc.Prelude.{
  ◌≡◌, refl, sym, ap, subst, ◌∙◌, ℕ, Bool, true, false, Option, none, some, String, List, [], ◌∷◌,
  map, ◌==◌, ◌||◌, inl, inr, Bool-cases, eq_iff, eq_refl,
}
use chainpoint_core_erc.Prelude.Lists.{includes}
use chainpoint_core_erc.World.{Stamped, ProofRow}
use chainpoint_core_erc.World.Ops.{Proof}
use chainpoint_core_erc.CachedState.Tables.{has_key, upsert, find_in}
use chainpoint_core_erc.GenService.{proof_row, upsert_all}
use chainpoint_core_erc.Endpoints.Proofs.{or_else, own_proof, returned_proof}

abbrev pub row_key : ProofRow → String
row_key r = r.hash_id

abbrev pub rows : List (Stamped ProofRow) → List ProofRow
rows rs = map (λ r. r.row) rs

-- No two rows have the same key: `hash_id` is the table's primary key.
abbrev pub IsKeyed : List (Stamped ProofRow) → Type 0
IsKeyed [] = Unit
IsKeyed (r ∷ rs) = (has_key row_key r.row.hash_id rs ≡ false) × IsKeyed rs

or-false : (a b : Bool) → a || b ≡ false → (a ≡ false) × (b ≡ false)
or-false true b h = absurd (cc h)
or-false false b h = (refl, h)

pub or_else-none : (o : Option Proof) → or_else o none ≡ o
or_else-none none = refl
or_else-none (some p) = refl

or_else_assoc : (a b c : Option Proof) → or_else (or_else a b) c ≡ or_else a (or_else b c)
or_else_assoc none b c = refl
or_else_assoc (some p) b c = refl

module _ (id : String) where
  returned_proof-none :
      (rs : List (Stamped ProofRow))
      → has_key row_key id rs ≡ false
      → returned_proof id (rows rs) ≡ none
  returned_proof-none [] h = refl
  returned_proof-none (r ∷ rs) h =
      let (e, e') = or-false (r.row.hash_id == id) (has_key row_key id rs) h in
      rw (returned_proof-none rs e', e) refl

  pub find_in-returned :
      (ids : List String) (rs : List (Stamped ProofRow))
      → includes id ids ≡ true
      → returned_proof id (find_in row_key ids rs) ≡ returned_proof id (rows rs)
  unfolding find_in
  find_in-returned ids [] h = refl
  find_in-returned ids (r ∷ rs) h = elim (Bool-cases (includes r.row.hash_id ids)) [
    | inl g ↦ rw g (ap (λ o. or_else o (own_proof id r.row)) (find_in-returned ids rs h))
    | inr g ↦ elim (Bool-cases (r.row.hash_id == id)) [
      | inl e ↦
          let same = (eq_iff r.row.hash_id id).0 e in
          absurd (cc (g, h, ap (λ x. includes x ids) same))
      | inr e ↦ rw (g, e) (find_in-returned ids rs h ∙ sym (or_else-none _))
    ]
  ]

  overwritten :
      (now : ℕ) (a : ProofRow) (r : Stamped ProofRow) (rs : List (Stamped ProofRow))
      → IsKeyed (r ∷ rs)
      → r.row.hash_id ≡ a.hash_id
      → or_else (returned_proof id (rows rs)) (own_proof id a)
        ≡ or_else (own_proof id a) (or_else (returned_proof id (rows rs)) (own_proof id r.row))
  overwritten now a r rs k same = elim (Bool-cases (a.hash_id == id)) [
    | inl g ↦
        let gone =
          returned_proof-none rs
            (subst (λ x. has_key row_key x rs ≡ false) (same ∙ (eq_iff a.hash_id id).0 g) k.0) in
        rw (g, gone) refl
    | inr g ↦ rw (g, ap (λ x. x == id) same ∙ g) refl
  ]

  -- A row that is written is read, in place of the one with its key.
  upsert-returned :
      (now : ℕ) (a : ProofRow) (rs : List (Stamped ProofRow))
      → IsKeyed rs
      → returned_proof id (rows (upsert row_key now a rs))
        ≡ or_else (own_proof id a) (returned_proof id (rows rs))
  unfolding upsert
  upsert-returned now a [] k = sym (or_else-none _)
  upsert-returned now a (r ∷ rs) k = elim (Bool-cases (r.row.hash_id == a.hash_id)) [
    | inl e ↦ rw e (overwritten now a r rs k ((eq_iff r.row.hash_id a.hash_id).0 e))
    | inr e ↦ rw e (
        ap (λ o. or_else o (own_proof id r.row)) (upsert-returned now a rs k.1)
        ∙ or_else_assoc (own_proof id a) (returned_proof id (rows rs)) (own_proof id r.row))
  ]

upsert-has_key :
    (k : String) (now : ℕ) (a : ProofRow) (rs : List (Stamped ProofRow))
    → has_key row_key k rs ≡ false
    → a.hash_id == k ≡ false
    → has_key row_key k (upsert row_key now a rs) ≡ false
unfolding upsert
upsert-has_key k now a [] h g = rw g refl
upsert-has_key k now a (r ∷ rs) h g =
    let (h1, h2) = or-false (r.row.hash_id == k) (has_key row_key k rs) h in
    elim (Bool-cases (r.row.hash_id == a.hash_id)) [
      | inl e ↦ rw (e, g) h2
      | inr e ↦ rw (e, h1) (upsert-has_key k now a rs h2 g)
    ]

pub differ-sym : (s t : String) → s == t ≡ false → t == s ≡ false
differ-sym s t h = elim (Bool-cases (t == s)) [
  | inl e ↦ absurd (cc (h, ap (λ x. s == x) ((eq_iff t s).0 e), eq_refl s))
  | inr e ↦ e
]

upsert-IsKeyed :
    (now : ℕ) (a : ProofRow) (rs : List (Stamped ProofRow))
    → IsKeyed rs
    → IsKeyed (upsert row_key now a rs)
unfolding upsert
upsert-IsKeyed now a [] k = (refl, tt)
upsert-IsKeyed now a (r ∷ rs) k = elim (Bool-cases (r.row.hash_id == a.hash_id)) [
  | inl e ↦
      rw e
        (subst (λ x. has_key row_key x rs ≡ false) ((eq_iff r.row.hash_id a.hash_id).0 e) k.0, k.1)
  | inr e ↦ rw e (
    upsert-has_key r.row.hash_id now a rs k.0 (differ-sym r.row.hash_id a.hash_id e),
    upsert-IsKeyed now a rs k.1,
  )
]

pub upsert_all-returned :
    (id : String) (now : ℕ) (ps : List Proof) (rs : List (Stamped ProofRow))
    → IsKeyed rs
    → returned_proof id (rows (upsert_all now ps rs))
      ≡ or_else (returned_proof id (map proof_row ps)) (returned_proof id (rows rs))
unfolding upsert_all
upsert_all-returned id now [] rs k = refl
upsert_all-returned id now (p ∷ ps) rs k =
    upsert_all-returned id now ps (upsert row_key now (proof_row p) rs)
      (upsert-IsKeyed now (proof_row p) rs k)
    ∙ ap (or_else (returned_proof id (map proof_row ps)))
        (upsert-returned id now (proof_row p) rs k)
    ∙ sym (
        or_else_assoc (returned_proof id (map proof_row ps)) (own_proof id (proof_row p))
          (returned_proof id (rows rs)))

pub upsert_all-IsKeyed :
    (now : ℕ) (ps : List Proof) (rs : List (Stamped ProofRow))
    → IsKeyed rs
    → IsKeyed (upsert_all now ps rs)
unfolding upsert_all
upsert_all-IsKeyed now [] rs k = k
upsert_all-IsKeyed now (p ∷ ps) rs k =
    upsert_all-IsKeyed now ps _ (upsert-IsKeyed now (proof_row p) rs k)
