-- ===== src/CachedState/Contents.antt =====
-- `INSERT … ON CONFLICT DO NOTHING`: the row that each key has after a bulk write.
use chainpoint_core_erc.Prelude.{
  ℕ, ◌≡◌, refl, sym, ap, subst, ◌∙◌, inl, inr, true, Option, none, some, String, List, [], ◌∷◌,
  ◌++◌, arith, ◌==◌, eq_iff, if◌then◌else◌, Bool-cases,
}
use chainpoint_core_erc.World.{Stamped}
use chainpoint_core_erc.CachedState.Tables.{has_key, insert_new, insert_all, find_one}

module _ {A : Type 0} where
  abbrev pub or_else : Option A → Option A → Option A
  or_else (some a) o = some a
  or_else none o = o

  or_else-none : (o : Option A) → or_else o none ≡ o
  or_else-none none = refl
  or_else-none (some a) = refl

  or_else_assoc : (o p q : Option A) → or_else (or_else o p) q ≡ or_else o (or_else p q)
  or_else_assoc none p q = refl
  or_else_assoc (some a) p q = refl

module _ {A : Type 0} (key : A → String) where
  -- The first of the objects that has the key.
  abbrev pub first_of : String → List A → Option A
  first_of k [] = none
  first_of k (a ∷ as_) = if key a == k then some a else first_of k as_

  find_one-append_or :
      (k : String) (rs ss : List (Stamped A))
      → find_one key k (rs ++ ss) ≡ or_else (find_one key k rs) (find_one key k ss)
  unfolding find_one
  find_one-append_or k [] ss = refl
  find_one-append_or k (r ∷ rs) ss = elim (Bool-cases (key r.row == k)) [
    | inl e ↦ rw e refl
    | inr e ↦ rw e (find_one-append_or k rs ss)
  ]

  -- A key that is there stays with its row, whatever else is offered.
  find_one-present :
      (k : String) (rs : List (Stamped A)) (o : Option A)
      → has_key key k rs ≡ true
      → or_else (find_one key k rs) o ≡ find_one key k rs
  unfolding find_one
  find_one-present k [] o h = absurd (cc h)
  find_one-present k (r ∷ rs) o h = elim (Bool-cases (key r.row == k)) [
    | inl e ↦ rw e refl
    | inr e ↦ rw e (find_one-present k rs o (ground (arith, h, e)))
  ]

  find_one-offered_again :
      (a : A) (k : String) (rs : List (Stamped A))
      → has_key key (key a) rs ≡ true
      → or_else (find_one key k rs) (if key a == k then some a else none) ≡ find_one key k rs
  find_one-offered_again a k rs h = elim (Bool-cases (key a == k)) [
    | inl e ↦
        find_one-present k rs _ (subst (λ x. has_key key x rs ≡ true) ((eq_iff (key a) k).0 e) h)
    | inr e ↦ rw e (or_else-none (find_one key k rs))
  ]

  find_one-insert_new_or :
      (now : ℕ) (a : A) (k : String) (rs : List (Stamped A))
      → find_one key k (insert_new key now a rs)
        ≡ or_else (find_one key k rs) (if key a == k then some a else none)
  unfolding insert_new find_one
  find_one-insert_new_or now a k rs = elim (Bool-cases (has_key key (key a) rs)) [
    | inl e ↦ rw e (sym (find_one-offered_again a k rs e))
    | inr e ↦ rw e (find_one-append_or k rs (record { row = a; created_at = now } ∷ []))
  ]

  first_of-cons :
      (a : A) (k : String) (objs : List A)
      → or_else (if key a == k then some a else none) (first_of k objs) ≡ first_of k (a ∷ objs)
  first_of-cons a k objs = elim (Bool-cases (key a == k)) [ inl e ↦ rw e refl | inr e ↦ rw e refl ]

  -- The row that was there first stays; else it is the first object offered for the key.
  pub find_one-insert_all_or :
      (now : ℕ) (objs : List A) (k : String) (rs : List (Stamped A))
      → find_one key k (insert_all key now objs rs) ≡ or_else (find_one key k rs) (first_of k objs)
  unfolding insert_all
  find_one-insert_all_or now [] k rs = sym (or_else-none _)
  find_one-insert_all_or now (a ∷ objs) k rs =
      find_one-insert_all_or now objs k (insert_new key now a rs)
      ∙ ap (λ o. or_else o (first_of k objs)) (find_one-insert_new_or now a k rs)
      ∙ or_else_assoc (find_one key k rs) _ (first_of k objs)
      ∙ ap (or_else (find_one key k rs)) (first_of-cons a k objs)
