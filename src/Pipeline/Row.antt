-- ===== src/Pipeline/Row.antt =====
-- node-proof-gen-service/server.js: the proof of one row among those of a batch.
use chainpoint_core_erc.Prelude.{
  ◌≡◌, refl, ap, subst, ◌∙◌, ◌⊎◌, inl, inr, true, false, ◌==◌, Option, none, some, String, List, [],
  ◌∷◌, map, Bool-cases, eq_iff, eq_refl, arith,
}
use chainpoint_core_erc.Prelude.Lists.{All, All-map, All-filter_by, includes}
use chainpoint_core_erc.World.{Stamped, AggRow, CalRow}
use chainpoint_core_erc.World.Ops.{Proof}
use chainpoint_core_erc.CachedState.Tables.{has_key, find_in, find_one}
use chainpoint_core_erc.CachedState.Lookup.{holds, holds-find_in}
use chainpoint_core_erc.GenService.Build.{GenEnv, add_chainpoint_header, add_calendar_branch}
use chainpoint_core_erc.GenService.{proof_row, has_repeat}
use chainpoint_core_erc.Endpoints.Proofs.{or_else, returned_proof}
use chainpoint_core_erc.Endpoints.Upserted.{differ-sym, or_else-none}
use chainpoint_core_erc.Pipeline.Batch.{batch_rows, proof_of, valid_proofs}

abbrev pub agg_key : AggRow → String
agg_key r = r.hash_id

-- No other row of the list has the row's hash id.
abbrev pub IsOnly : AggRow → List AggRow → Type 0
IsOnly row rows = All (λ r. (r.hash_id == row.hash_id ≡ false) ⊎ (r ≡ row)) rows

module _ (row : AggRow) where
  others_differ :
      (rs : List (Stamped AggRow))
      → includes row.hash_id (map (λ r. r.row.hash_id) rs) ≡ false
      → All (λ r. (r.row.hash_id == row.hash_id ≡ false) ⊎ (r.row ≡ row)) rs
  others_differ [] h = tt
  others_differ (r ∷ rs) h =
      (inl (differ-sym row.hash_id r.row.hash_id (ground arith)), others_differ rs (ground arith))

  only_in_table :
      (rs : List (Stamped AggRow))
      → has_repeat (map (λ r. r.row.hash_id) rs) ≡ false
      → find_one agg_key row.hash_id rs ≡ some row
      → All (λ r. (r.row.hash_id == row.hash_id ≡ false) ⊎ (r.row ≡ row)) rs
  unfolding find_one
  only_in_table [] d h = tt
  only_in_table (r ∷ rs) d h = elim (Bool-cases (r.row.hash_id == row.hash_id)) [
    | inl e ↦
        let same = (eq_iff r.row.hash_id row.hash_id).0 e in
        let fresh : includes r.row.hash_id (map (λ s. s.row.hash_id) rs) ≡ false = ground arith in
        (
          inr (cc (h, e)),
          others_differ rs (
              subst (λ k. includes k (map (λ (s : Stamped AggRow). s.row.hash_id) rs) ≡ false) same
                fresh),
        )
    | inr e ↦ (inl e, only_in_table rs (ground arith) (ground arith))
  ]

  has_key-find_one :
      (rs : List (Stamped AggRow))
      → find_one agg_key row.hash_id rs ≡ some row
      → has_key agg_key row.hash_id rs ≡ true
  unfolding find_one
  has_key-find_one [] h = absurd (cc h)
  has_key-find_one (r ∷ rs) h = ground (arith, has_key-find_one rs)

  pub batch_rows-IsOnly :
      (ids : List String) (rs : List (Stamped AggRow))
      → has_repeat (map (λ r. r.row.hash_id) rs) ≡ false
      → find_one agg_key row.hash_id rs ≡ some row
      → IsOnly row (batch_rows ids rs)
  unfolding find_in
  batch_rows-IsOnly ids rs d h =
      All-map (λ (r : AggRow). (r.hash_id == row.hash_id ≡ false) ⊎ (r ≡ row)) _ _
        (All-filter_by _ _ rs (only_in_table rs d h))

  pub batch_rows-holds :
      (ids : List String) (rs : List (Stamped AggRow))
      → includes row.hash_id ids ≡ true
      → find_one agg_key row.hash_id rs ≡ some row
      → holds agg_key row.hash_id (batch_rows ids rs) ≡ true
  batch_rows-holds ids rs i h = holds-find_in agg_key row.hash_id ids rs i (has_key-find_one rs h)

module _ (env : GenEnv) (content : String → CalRow) (row : AggRow) where
  -- What a list of proofs gives for the row's hash id.
  abbrev pub given : List AggRow → Option Proof
  given rows = returned_proof row.hash_id (map proof_row (valid_proofs env content rows))

  given-differ :
      (r : AggRow) (rows : List AggRow)
      → r.hash_id == row.hash_id ≡ false
      → given (r ∷ rows) ≡ given rows
  unfolding add_calendar_branch add_chainpoint_header
  given-differ r rows e = elim (Bool-cases (env.is_valid_schema (proof_of env content r))) [
    | inl v ↦ rw (v, e) (or_else-none (given rows))
    | inr v ↦ rw v refl
  ]

  given-invalid :
      (r : AggRow) (rows : List AggRow)
      → env.is_valid_schema (proof_of env content r) ≡ false
      → given (r ∷ rows) ≡ given rows
  given-invalid r rows v = rw v refl

  given-own :
      (r : AggRow) (rows : List AggRow)
      → r ≡ row
      → env.is_valid_schema (proof_of env content row) ≡ true
      → given (r ∷ rows) ≡ or_else (given rows) (some (proof_of env content row))
  unfolding add_calendar_branch add_chainpoint_header
  given-own r rows e v = rw (e, v, eq_refl row.hash_id) refl

  -- A list of rows gives the row's own proof or none.
  pub given-cases :
      (rows : List AggRow)
      → IsOnly row rows
      → (given rows ≡ none) ⊎ (given rows ≡ some (proof_of env content row))
  given-cases [] o = inl refl
  given-cases (r ∷ rows) (inl e, o) = rw (given-differ r rows e) (given-cases rows o)
  given-cases (r ∷ rows) (inr e, o) =
      elim (Bool-cases (env.is_valid_schema (proof_of env content row))) [
        | inl v ↦ inr (
            given-own r rows e v
            ∙ elim (given-cases rows o) [ inl g ↦ rw g refl | inr g ↦ rw g refl ])
        | inr v ↦
            rw (given-invalid r rows (ap (λ x. env.is_valid_schema (proof_of env content x)) e ∙ v))
              (given-cases rows o)
      ]

  pub given-there :
      (rows : List AggRow)
      → IsOnly row rows
      → holds agg_key row.hash_id rows ≡ true
      → env.is_valid_schema (proof_of env content row) ≡ true
      → given rows ≡ some (proof_of env content row)
  given-there [] o h v = absurd (cc h)
  given-there (r ∷ rows) (inl e, o) h v =
      given-differ r rows e ∙ given-there rows o (ground arith) v
  given-there (r ∷ rows) (inr e, o) h v =
      given-own r rows e v ∙ elim (given-cases rows o) [ inl g ↦ rw g refl | inr g ↦ rw g refl ]
