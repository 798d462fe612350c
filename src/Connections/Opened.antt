-- ===== src/Connections/Opened.antt =====
-- node-lib/lib/connections.js: what a loop gives once an attempt has succeeded.
use chainpoint_core_erc.Prelude.{
  ◌≡◌, refl, ap, ◌∙◌, ℕ, zero, suc, Bool, true, false, some, List, [], ◌∷◌, ◌++◌, append_assoc,
  append-nil, sym,
}
use chainpoint_core_erc.Prelude.Lists.{length, take}
use chainpoint_core_erc.Connections.{open_postgres_from, open_postgres_connection}

-- `n` attempts that fail, and one that succeeds.
abbrev pub fails_then_connects : ℕ → List Bool
fails_then_connects zero = true ∷ []
fails_then_connects (suc n) = false ∷ fails_then_connects n

module _ {M : Type 0} where
  -- `n` copies of the list.
  abbrev pub repeated : ℕ → List M → List M
  repeated zero xs = []
  repeated (suc n) xs = xs ++ repeated n xs

  open_postgres_from-eq :
      (n : ℕ) (models synched : List M)
      → open_postgres_from models synched (fails_then_connects n)
        ≡ some (synched ++ (models ++ repeated n models))
  unfolding open_postgres_from
  open_postgres_from-eq zero models synched =
      ap (λ l. some (synched ++ l)) (sym (append-nil models))
  open_postgres_from-eq (suc n) models synched =
      open_postgres_from-eq n models (synched ++ models)
      ∙ ap some (append_assoc synched models (models ++ repeated n models))

  take-append : (xs ys : List M) → take (length xs) (xs ++ ys) ≡ xs
  take-append [] ys = refl
  take-append (x ∷ xs) ys = ap (λ l. x ∷ l) (take-append xs ys)

-- When attempts to connect to the database fail, however many, and the next one succeeds, the loop ends; it
-- gives the models once for each attempt, and those at the first positions, which the services read,
-- are the models in their order.
open_postgres_connection_opens :
    {M : Type 0} (n : ℕ) (models : List M)
    → (open_postgres_connection models (fails_then_connects n) ≡ some (repeated (suc n) models))
      × (take (length models) (repeated (suc n) models) ≡ models)
unfolding open_postgres_connection
open_postgres_connection_opens n models =
    (open_postgres_from-eq n models [], take-append models (repeated n models))
