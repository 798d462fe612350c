-- ===== src/Exec/Keeps.antt =====
-- How an action may move the state: a relation between the state before and after, with one rule
-- for each way to build an action, and inversion of an action that has returned.
use chainpoint_core_erc.Prelude.{◌≡◌, refl, Bool, true, false, if◌then◌else◌}
use chainpoint_core_erc.Exec.{
  Error, Result, ok, err, Exec, pure, throw, gets, lift, handle, try_catch, continue, ◌>>=◌,
}

pub record Preorder {ℓ} (S : Type ℓ) : Type (ℓ + 1) where
  pub rel : S → S → Type ℓ
  pub rel_refl : (s : S) → rel s s
  pub rel_trans : (s t u : S) → rel s t → rel t u → rel s u

-- `m` moves the state along `r`, whether it returns or throws.
pub record Keeps {ℓ} {S A : Type ℓ} (r : Preorder S) (m : Exec S A) : Type ℓ where
  pub at : (s : S) → r.rel s (m s).1

module _ {ℓ} {S A : Type ℓ} {r : Preorder S} where
  pub Keeps-pure : (a : A) → Keeps r (pure a)
  unfolding pure
  Keeps-pure a = record { at = λ s. r.rel_refl s }

  pub Keeps-throw : (e : Error) → Keeps r (throw {A = A} e)
  unfolding throw
  Keeps-throw e = record { at = λ s. r.rel_refl s }

  pub Keeps-gets : (f : S → A) → Keeps r (gets f)
  unfolding gets
  Keeps-gets f = record { at = λ s. r.rel_refl s }

  pub Keeps-lift : (x : Result A) → Keeps r (lift x)
  unfolding lift
  Keeps-lift x = record { at = λ s. r.rel_refl s }

  pub Keeps-if : (b : Bool) (m n : Exec S A) → Keeps r m → Keeps r n → Keeps r (if b then m else n)
  Keeps-if true m n km kn = km
  Keeps-if false m n km kn = kn

  handle-rel :
      (s s' : S) (x : Result A) (h : Error → Exec S A)
      → r.rel s s'
      → ((e : Error) → Keeps r (h e))
      → r.rel s (handle x h s').1
  handle-rel s s' (ok a) h p k = p
  handle-rel s s' (err e) h p k = r.rel_trans s s' (h e s').1 p ((k e).at s')

  pub Keeps-try_catch :
      (m : Exec S A) (h : Error → Exec S A)
      → Keeps r m
      → ((e : Error) → Keeps r (h e))
      → Keeps r (try_catch m h)
  unfolding try_catch
  Keeps-try_catch m h km kh = record { at = λ s. handle-rel s (m s).1 (m s).0 h (km.at s) kh }

module _ {ℓ} {S A B : Type ℓ} {r : Preorder S} where
  continue-rel :
      (s s' : S) (x : Result A) (f : A → Exec S B)
      → r.rel s s'
      → ((a : A) → Keeps r (f a))
      → r.rel s (continue x f s').1
  continue-rel s s' (ok a) f p k = r.rel_trans s s' (f a s').1 p ((k a).at s')
  continue-rel s s' (err e) f p k = p

  pub Keeps-bind :
      (m : Exec S A) (f : A → Exec S B) → Keeps r m → ((a : A) → Keeps r (f a)) → Keeps r (m >>= f)
  unfolding ◌>>=◌
  Keeps-bind m f km kf = record { at = λ s. continue-rel s (m s).1 (m s).0 f (km.at s) kf }

module _ {ℓ} {S A : Type ℓ} {r : Preorder S} (test : S → Bool) (m n : Exec S A) where
  -- An action that looks at the state to choose how it goes on.
  pub Keeps-switch : Keeps r m → Keeps r n → Keeps r (λ s. if test s then m s else n s)
  Keeps-switch km kn = record { at = λ s. chosen s (test s) }
    where
      chosen : (s : S) (b : Bool) → r.rel s (if◌then◌else◌ {A = Result A × S} b (m s) (n s)).1
      chosen s true = km.at s
      chosen s false = kn.at s

pub ruleset keeps_rules =
    (Keeps-pure, Keeps-throw, Keeps-gets, Keeps-lift, Keeps-if, Keeps-try_catch, Keeps-bind)

module _ {ℓ} {S A B : Type ℓ} where
  continue-eq-ok :
      (x : Result A) (f : A → Exec S B) (s : S) {b : B}
      → (continue x f s).0 ≡ ok b
      → (a : A) × (x ≡ ok a) × (continue x f s ≡ f a s) × ((f a s).0 ≡ ok b)
  continue-eq-ok (ok a) f s h = (a, refl, refl, h)
  continue-eq-ok (err e) f s h = absurd (cc h)

  -- A chain that has returned: its first part returned, and the rest went on from there.
  pub >>=-eq-ok :
      (m : Exec S A) (f : A → Exec S B) (s : S) {b : B}
      → ((m >>= f) s).0 ≡ ok b
      → (a : A) × ((m s).0 ≡ ok a) × ((m >>= f) s ≡ f a (m s).1) × ((f a (m s).1).0 ≡ ok b)
  unfolding ◌>>=◌
  >>=-eq-ok m f s h = continue-eq-ok (m s).0 f (m s).1 h
