-- ===== src/CachedState/Tables.antt =====
-- The SQL statements of node-lib/lib/models/cachedProofState.js, over tables as lists of rows with a key.
use chainpoint_core_erc.Prelude.{
  ℕ, ◌+◌, ◌-◌, Bool, false, not, ◌||◌, Option, none, some, String, List, [], ◌∷◌, ◌++◌, map, ◌==◌,
  if◌then◌else◌, leb,
}
use chainpoint_core_erc.Prelude.Lists.{filter_by, includes, length}
use chainpoint_core_erc.World.{Stamped}

module _ {A : Type 0} (key : A → String) where
  abbrev pub has_key : String → List (Stamped A) → Bool
  has_key k [] = false
  has_key k (r ∷ rs) = key r.row == k || has_key k rs

  -- `INSERT … ON CONFLICT (key) DO NOTHING`, one row
  unfoldable pub insert_new : ℕ → A → List (Stamped A) → List (Stamped A)
  insert_new now a rs =
      if has_key (key a) rs then rs else rs ++ record { row = a; created_at = now } ∷ []

  -- `INSERT … ON CONFLICT (key) DO NOTHING`, all rows of the statement in turn
  unfoldable pub insert_all : ℕ → List A → List (Stamped A) → List (Stamped A)
  insert_all now [] rs = rs
  insert_all now (a ∷ as_) rs = insert_all now as_ (insert_new now a rs)

  -- `upsert`: the row with the key is overwritten and keeps its `created_at`
  unfoldable pub upsert : ℕ → A → List (Stamped A) → List (Stamped A)
  upsert now a [] = record { row = a; created_at = now } ∷ []
  upsert now a (r ∷ rs) =
      if key r.row == key a then record r { row = a } ∷ rs else r ∷ upsert now a rs

  -- `findAll({ where: { key: { [Op.in]: keys } }, raw: true })`
  unfoldable pub find_in : List String → List (Stamped A) → List A
  find_in keys rs = map (λ r. r.row) (filter_by (λ r. includes (key r.row) keys) rs)

  -- `findOne({ where: { key: k }, raw: true })`
  unfoldable pub find_one : String → List (Stamped A) → Option A
  find_one k [] = none
  find_one k (r ∷ rs) = if key r.row == k then some r.row else find_one k rs

module _ {A : Type 0} where
  -- `destroy({ where: { created_at: { [Op.lte]: now - age } } })`: the number of rows deleted, and
  -- the rest; `created_at ≤ now - age` is written with no subtraction
  unfoldable pub destroy_until : ℕ → ℕ → List (Stamped A) → ℕ × List (Stamped A)
  destroy_until now age rs =
      let rest = filter_by (λ r. not (leb (r.created_at + age) now)) rs in
      (length rs - length rest, rest)
