-- ===== src/Exec/Succeeds.antt =====
-- Total correctness: from a state with `P` the action returns, and leaves a state with `P`.
use chainpoint_core_erc.Prelude.{Bool, true, false, if◌then◌else◌}
use chainpoint_core_erc.Exec.{
  Error, Result, ok, err, Exec, pure, gets, handle, try_catch, continue, ◌>>=◌,
}

abbrev pub IsOk {ℓ} : {A : Type ℓ} → Result A → Type 0
IsOk (ok a) = Unit
IsOk (err e) = ⊥

pub record Succeeds {ℓ} {S A : Type ℓ} (P : S → Type ℓ) (m : Exec S A) : Type ℓ where
  pub returns : (s : S) → P s → IsOk (m s).0
  pub keeps : (s : S) → P s → P (m s).1

module _ {ℓ} {S A : Type ℓ} (P : S → Type ℓ) where
  handle-IsOk :
      (x : Result A) (h : Error → Exec S A) (s : S)
      → IsOk x
      → P s
      → IsOk (handle x h s).0 × P (handle x h s).1
  handle-IsOk (ok a) h s o p = (tt, p)
  handle-IsOk (err e) h s o p = elim o [ ]

module _ {ℓ} {S A : Type ℓ} {P : S → Type ℓ} where
  pub Succeeds-pure : (a : A) → Succeeds P (pure a)
  unfolding pure
  Succeeds-pure a = record { returns = λ s p. tt; keeps = λ s p. p }

  pub Succeeds-gets : (f : S → A) → Succeeds P (gets f)
  unfolding gets
  Succeeds-gets f = record { returns = λ s p. tt; keeps = λ s p. p }

  pub Succeeds-if :
      (b : Bool) (m n : Exec S A) → Succeeds P m → Succeeds P n → Succeeds P (if b then m else n)
  Succeeds-if true m n km kn = km
  Succeeds-if false m n km kn = kn

  -- The handler is not reached.
  pub Succeeds-try_catch :
      (m : Exec S A) (h : Error → Exec S A) → Succeeds P m → Succeeds P (try_catch m h)
  unfolding try_catch
  Succeeds-try_catch m h k = record {
    returns = λ s p. (handle-IsOk P (m s).0 h (m s).1 (k.returns s p) (k.keeps s p)).0;
    keeps = λ s p. (handle-IsOk P (m s).0 h (m s).1 (k.returns s p) (k.keeps s p)).1;
  }

module _ {ℓ} {S A B : Type ℓ} {P : S → Type ℓ} where
  continue-IsOk :
      (x : Result A) (f : A → Exec S B) (s : S)
      → IsOk x
      → P s
      → ((a : A) → Succeeds P (f a))
      → IsOk (continue x f s).0 × P (continue x f s).1
  continue-IsOk (ok a) f s o p k = ((k a).returns s p, (k a).keeps s p)
  continue-IsOk (err e) f s o p k = elim o [ ]

  pub Succeeds-bind :
      (m : Exec S A) (f : A → Exec S B)
      → Succeeds P m
      → ((a : A) → Succeeds P (f a))
      → Succeeds P (m >>= f)
  unfolding ◌>>=◌
  Succeeds-bind m f km kf = record {
    returns = λ s p. (continue-IsOk (m s).0 f (m s).1 (km.returns s p) (km.keeps s p) kf).0;
    keeps = λ s p. (continue-IsOk (m s).0 f (m s).1 (km.returns s p) (km.keeps s p) kf).1;
  }

pub ruleset succeeds_rules =
    (Succeeds-pure, Succeeds-gets, Succeeds-if, Succeeds-try_catch, Succeeds-bind)
