-- ===== src/Exec.antt =====
-- JavaScript functions that await calls and may throw. What was written before a throw stays
-- written, so the state comes back beside the error too.
pub mod Keeps
pub mod Succeeds
pub mod Ensures
pub mod Steps
use chainpoint_core_erc.Prelude.{◌≡◌, refl}

-- What a handler can throw: an error of an external call, or one of the language.
pub data Error : Type 0 where
  db_error redis_error rpc_error publish_error type_error syntax_error not_an_integer : Error

pub data Result {ℓ} (A : Type ℓ) : Type ℓ where
  ok : A → Result A
  err : Error → Result A

abbrev pub Exec {ℓ} : Type ℓ → Type ℓ → Type ℓ
Exec S A = S → Result A × S

module _ {ℓ} {S A : Type ℓ} where
  unfoldable pub pure : A → Exec S A
  pure a s = (ok a, s)

  unfoldable pub throw : Error → Exec S A
  throw e s = (err e, s)

  unfoldable pub gets : (S → A) → Exec S A
  gets f s = (ok (f s), s)

  unfoldable pub lift : Result A → Exec S A
  lift r s = (r, s)

  abbrev pub handle : Result A → (Error → Exec S A) → Exec S A
  handle (ok a) h s = (ok a, s)
  handle (err e) h s = h e s

  -- `try { m } catch (error) { h }`
  unfoldable pub try_catch : Exec S A → (Error → Exec S A) → Exec S A
  try_catch m h s = let (r, s') = m s in handle r h s'

module _ {ℓ} {S A B : Type ℓ} where
  abbrev pub continue : Result A → (A → Exec S B) → Exec S B
  continue (ok a) f s = f a s
  continue (err e) f s = (err e, s)

  infixl 10 ◌>>=◌ ◌>>◌
  unfoldable pub ◌>>=◌ : Exec S A → (A → Exec S B) → Exec S B
  unfolding pure throw gets lift try_catch
  ◌>>=◌ m f s = let (r, s') = m s in continue r f s'

  abbrev pub ◌>>◌ : Exec S A → Exec S B → Exec S B
  m >> n = m >>= λ _. n
