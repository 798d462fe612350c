-- ===== src/Exec/Steps.antt =====
-- How a chain and a `try` go on, once it is known how their first part has ended.
use chainpoint_core_erc.Prelude.{◌≡◌, ap}
use chainpoint_core_erc.Exec.{Error, ok, err, Exec, handle, try_catch, continue, ◌>>=◌}

module _ {ℓ} {S A B : Type ℓ} (m : Exec S A) (f : A → Exec S B) {s s' : S} where
  pub >>=-ok : {a : A} → m s ≡ (ok a, s') → (m >>= f) s ≡ f a s'
  unfolding ◌>>=◌
  >>=-ok e = ap (λ x. continue x.0 f x.1) e

  pub >>=-err : {x : Error} → m s ≡ (err x, s') → (m >>= f) s ≡ (err x, s')
  unfolding ◌>>=◌
  >>=-err e = ap (λ x. continue x.0 f x.1) e

module _ {ℓ} {S A : Type ℓ} (m : Exec S A) (h : Error → Exec S A) {s s' : S} where
  pub try_catch-ok : {a : A} → m s ≡ (ok a, s') → try_catch m h s ≡ (ok a, s')
  unfolding try_catch
  try_catch-ok e = ap (λ x. handle x.0 h x.1) e

  pub try_catch-err : {x : Error} → m s ≡ (err x, s') → try_catch m h s ≡ h x s'
  unfolding try_catch
  try_catch-err e = ap (λ x. handle x.0 h x.1) e

module _ {ℓ} {S A B : Type ℓ} (m : Exec S A) (f : A → Exec S B) (h : Error → Exec S B)
    {s s' : S} where
  pub try_catch->>= : {a : A} → m s ≡ (ok a, s') → try_catch (m >>= f) h s ≡ try_catch (f a) h s'
  unfolding try_catch ◌>>=◌
  try_catch->>= e = ap (λ x. let y = continue x.0 f x.1 in handle y.0 h y.1) e
