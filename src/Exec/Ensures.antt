-- ===== src/Exec/Ensures.antt =====
-- Partial correctness with a value: from a state with `P` the action leaves a state with `P`, and
-- what it returns has `Q`.
use chainpoint_core_erc.Prelude.{◌≡◌, refl, Bool, true, false, if◌then◌else◌}
use chainpoint_core_erc.Exec.{
  Error, Result, ok, err, Exec, pure, throw, gets, handle, try_catch, continue, ◌>>=◌,
}

abbrev pub OnOk {ℓ} : {A : Type ℓ} → (A → Type ℓ) → Result A → Type ℓ
OnOk Q (ok a) = Q a
OnOk Q (err e) = Unit

pub record Ensures {ℓ} {S A : Type ℓ} (P : S → Type ℓ) (Q : A → Type ℓ) (m : Exec S A)
    : Type ℓ where
  pub keeps : (s : S) → P s → P (m s).1
  pub result : (s : S) → P s → OnOk Q (m s).0

module _ {ℓ} {S A : Type ℓ} {P : S → Type ℓ} {Q : A → Type ℓ} where
  pub Ensures-pure : (a : A) → Q a → Ensures P Q (pure a)
  unfolding pure
  Ensures-pure a q = record { keeps = λ s p. p; result = λ s p. q }

  pub Ensures-throw : (e : Error) → Ensures P Q (throw e)
  unfolding throw
  Ensures-throw e = record { keeps = λ s p. p; result = λ s p. tt }

  pub Ensures-gets : (f : S → A) → ((s : S) → P s → Q (f s)) → Ensures P Q (gets f)
  unfolding gets
  Ensures-gets f h = record { keeps = λ s p. p; result = h }

  pub Ensures-if :
      (b : Bool) (m n : Exec S A)
      → (b ≡ true → Ensures P Q m)
      → (b ≡ false → Ensures P Q n)
      → Ensures P Q (if b then m else n)
  Ensures-if true m n km kn = km refl
  Ensures-if false m n km kn = kn refl

module _ {ℓ} {S A : Type ℓ} (P : S → Type ℓ) (Q : A → Type ℓ) where
  handle-Ensures :
      (x : Result A) (h : Error → Exec S A) (s : S)
      → P s
      → OnOk Q x
      → ((e : Error) → Ensures P Q (h e))
      → P (handle x h s).1 × OnOk Q (handle x h s).0
  handle-Ensures (ok a) h s p q k = (p, q)
  handle-Ensures (err e) h s p q k = ((k e).keeps s p, (k e).result s p)

  pub Ensures-try_catch :
      (m : Exec S A) (h : Error → Exec S A)
      → Ensures P Q m
      → ((e : Error) → Ensures P Q (h e))
      → Ensures P Q (try_catch m h)
  unfolding try_catch
  Ensures-try_catch m h km kh = record {
    keeps = λ s p. (handle-Ensures (m s).0 h (m s).1 (km.keeps s p) (km.result s p) kh).0;
    result = λ s p. (handle-Ensures (m s).0 h (m s).1 (km.keeps s p) (km.result s p) kh).1;
  }

module _ {ℓ} {S A B : Type ℓ} (P : S → Type ℓ) (R : A → Type ℓ) (Q : B → Type ℓ) where
  continue-Ensures :
      (x : Result A) (f : A → Exec S B) (s : S)
      → P s
      → OnOk R x
      → ((a : A) → R a → Ensures P Q (f a))
      → P (continue x f s).1 × OnOk Q (continue x f s).0
  continue-Ensures (ok a) f s p r k = ((k a r).keeps s p, (k a r).result s p)
  continue-Ensures (err e) f s p r k = (p, tt)

  -- `R` is what the first part hands to the rest.
  pub Ensures-bind :
      (m : Exec S A) (f : A → Exec S B)
      → Ensures P R m
      → ((a : A) → R a → Ensures P Q (f a))
      → Ensures P Q (m >>= f)
  unfolding ◌>>=◌
  Ensures-bind m f km kf = record {
    keeps = λ s p. (continue-Ensures (m s).0 f (m s).1 (km.keeps s p) (km.result s p) kf).0;
    result = λ s p. (continue-Ensures (m s).0 f (m s).1 (km.keeps s p) (km.result s p) kf).1;
  }
