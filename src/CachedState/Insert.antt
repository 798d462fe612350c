-- ===== src/CachedState/Insert.antt =====
-- `INSERT … ON CONFLICT DO NOTHING`: what a bulk write adds, and that a second one adds nothing.
use chainpoint_core_erc.Prelude.{
  ℕ, ◌≡◌, refl, inl, inr, true, ◌||◌, some, String, List, [], ◌∷◌, ◌++◌, arith, eq_refl, Bool-cases,
}
use chainpoint_core_erc.Prelude.Lists.{All}
use chainpoint_core_erc.World.{Stamped}
use chainpoint_core_erc.CachedState.Tables.{has_key, insert_new, insert_all, find_one}

module _ {A : Type 0} (key : A → String) where
  has_key-append :
      (k : String) (rs ss : List (Stamped A))
      → has_key key k (rs ++ ss) ≡ (has_key key k rs || has_key key k ss)
  has_key-append k [] ss = refl
  has_key-append k (r ∷ rs) ss = ground (arith, has_key-append k rs ss)

  has_key-insert_new_self :
      (now : ℕ) (a : A) (rs : List (Stamped A))
      → has_key key (key a) (insert_new key now a rs) ≡ true
  unfolding insert_new
  has_key-insert_new_self now a rs = elim (Bool-cases (has_key key (key a) rs)) [
    | inl e ↦ rw e e
    | inr e ↦ rw (e, has_key-append (key a) rs, e, eq_refl (key a))
  ]

  has_key-insert_new :
      (now : ℕ) (a : A) (k : String) (rs : List (Stamped A))
      → has_key key k rs ≡ true
      → has_key key k (insert_new key now a rs) ≡ true
  unfolding insert_new
  has_key-insert_new now a k rs h = elim (Bool-cases (has_key key (key a) rs)) [
    | inl e ↦ rw e h
    | inr e ↦ rw (e, has_key-append k rs, h)
  ]

  pub has_key-insert_all :
      (now : ℕ) (objs : List A) (k : String) (rs : List (Stamped A))
      → has_key key k rs ≡ true
      → has_key key k (insert_all key now objs rs) ≡ true
  unfolding insert_all
  has_key-insert_all now [] k rs h = h
  has_key-insert_all now (a ∷ objs) k rs h =
      has_key-insert_all now objs k (insert_new key now a rs) (has_key-insert_new now a k rs h)

  -- Every object of the statement has a row afterwards, its own or an older one.
  pub insert_all_present :
      (now : ℕ) (objs : List A) (rs : List (Stamped A))
      → All (λ a. has_key key (key a) (insert_all key now objs rs) ≡ true) objs
  unfolding insert_all
  insert_all_present now [] rs = tt
  insert_all_present now (a ∷ objs) rs = (
    has_key-insert_all now objs (key a) (insert_new key now a rs)
        (has_key-insert_new_self now a rs),
    insert_all_present now objs (insert_new key now a rs),
  )

  insert_all-of_present :
      (now : ℕ) (objs : List A) (rs : List (Stamped A))
      → All (λ a. has_key key (key a) rs ≡ true) objs
      → insert_all key now objs rs ≡ rs
  unfolding insert_all insert_new
  insert_all-of_present now [] rs h = refl
  insert_all-of_present now (a ∷ objs) rs h = rw h.0 (insert_all-of_present now objs rs h.1)

  -- A redelivered statement, at any later time, changes no row.
  insert_all_idem :
      (now later : ℕ) (objs : List A) (rs : List (Stamped A))
      → insert_all key later objs (insert_all key now objs rs) ≡ insert_all key now objs rs
  insert_all_idem now later objs rs =
      insert_all-of_present later objs (insert_all key now objs rs) (insert_all_present now objs rs)

  pub insert_all-append :
      (now : ℕ) (xs ys : List A) (rs : List (Stamped A))
      → insert_all key now (xs ++ ys) rs ≡ insert_all key now ys (insert_all key now xs rs)
  unfolding insert_all
  insert_all-append now [] ys rs = refl
  insert_all-append now (x ∷ xs) ys rs = insert_all-append now xs ys (insert_new key now x rs)

  find_one-append :
      (k : String) (rs ss : List (Stamped A)) (a : A)
      → find_one key k rs ≡ some a
      → find_one key k (rs ++ ss) ≡ some a
  unfolding find_one
  find_one-append k [] ss a h = absurd (cc h)
  find_one-append k (r ∷ rs) ss a h = ground (arith, find_one-append k rs ss a)

  find_one-insert_new :
      (now : ℕ) (b : A) (k : String) (rs : List (Stamped A)) (a : A)
      → find_one key k rs ≡ some a
      → find_one key k (insert_new key now b rs) ≡ some a
  unfolding insert_new
  find_one-insert_new now b k rs a h = elim (Bool-cases (has_key key (key b) rs)) [
    | inl e ↦ rw e h
    | inr e ↦ rw e (find_one-append k rs _ a h)
  ]

  -- A row that is there is never overwritten.
  pub find_one-insert_all :
      (now : ℕ) (objs : List A) (k : String) (rs : List (Stamped A)) (a : A)
      → find_one key k rs ≡ some a
      → find_one key k (insert_all key now objs rs) ≡ some a
  unfolding insert_all
  find_one-insert_all now [] k rs a h = h
  find_one-insert_all now (b ∷ objs) k rs a h =
      find_one-insert_all now objs k (insert_new key now b rs) a
        (find_one-insert_new now b k rs a h)
