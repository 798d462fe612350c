-- ===== src/StateService/Batches.antt =====
-- `while (list.length > 0) { f(list.splice(0, n)) }`: the batches that the loop hands on.
use chainpoint_core_erc.Prelude.{ℕ, zero, suc, ◌≤◌, ◌<◌, ◌≡◌, refl, ◌≢◌, List, [], ◌∷◌, ◌++◌, arith}
use chainpoint_core_erc.Prelude.Lists.{
  length, take, drop, All, take-append-drop, length-take-le, length-drop,
}

module _ {ℓ} {A : Type ℓ} where
  -- The fuel bounds the rounds; `batches` gives one for each item, which is enough.
  batches_from : ℕ → ℕ → List A → List (List A)
  batches_from zero n xs = []
  batches_from (suc fuel) n [] = []
  batches_from (suc fuel) n (x ∷ xs) = take n (x ∷ xs) ∷ batches_from fuel n (drop n (x ∷ xs))

  unfoldable pub batches : ℕ → List A → List (List A)
  unfolding batches_from
  batches n xs = batches_from (length xs) n xs

  abbrev pub flatten : List (List A) → List A
  flatten [] = []
  flatten (b ∷ bs) = b ++ flatten bs

  -- A batch has at least one item and at most `n`.
  abbrev pub IsBatch : ℕ → List A → Type ℓ
  IsBatch n b = (b ≢ []) × (length b ≤ n)

  flatten-batches_from :
      (fuel n : ℕ) (xs : List A) → 0 < n → length xs ≤ fuel → flatten (batches_from fuel n xs) ≡ xs
  unfolding batches_from
  flatten-batches_from zero n [] p h = refl
  flatten-batches_from zero n (x ∷ xs) p h = absurd (omega arith)
  flatten-batches_from (suc fuel) n [] p h = refl
  flatten-batches_from (suc fuel) n (x ∷ xs) p h =
      rw (flatten-batches_from fuel n (drop n (x ∷ xs)) p (omega (arith, length-drop n (x ∷ xs))))
        (take-append-drop n (x ∷ xs))

  take-ne-nil : (n : ℕ) (x : A) (xs : List A) → 0 < n → take n (x ∷ xs) ≢ []
  take-ne-nil zero x xs p = elim p [ ]
  take-ne-nil (suc n) x xs p = λ e. cc

  batches_from-IsBatch :
      (fuel n : ℕ) (xs : List A) → 0 < n → All (IsBatch n) (batches_from fuel n xs)
  unfolding batches_from
  batches_from-IsBatch zero n xs p = tt
  batches_from-IsBatch (suc fuel) n [] p = tt
  batches_from-IsBatch (suc fuel) n (x ∷ xs) p = (
    (take-ne-nil n x xs p, length-take-le n (x ∷ xs)),
    batches_from-IsBatch fuel n (drop n (x ∷ xs)) p,
  )

  -- The batches hold every item once, in order, and none is empty or longer than `n`.
  pub batches_lem :
      (n : ℕ) (xs : List A) → 0 < n → (flatten (batches n xs) ≡ xs) × All (IsBatch n) (batches n xs)
  unfolding batches
  batches_lem n xs p = (
    flatten-batches_from (length xs) n xs p (omega arith),
    batches_from-IsBatch (length xs) n xs p,
  )
