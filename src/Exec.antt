-- ===== src/Exec.antt =====
-- Actions that change the state of the world and may fail. What was changed before a failure
-- stays changed, so the state comes back beside the error too; `do` is Rust's `?`.
pub mod Ends
pub mod Yields
use imi.Common.{Result, ok, err, Bool, true, false, if◌then◌else◌}
use imi.Error.{Error, Detail, IoKind, context, context_io}

abbrev pub Exec {ℓ κ} : Type ℓ → Type κ → Type (ℓ ⊔ κ)
Exec S A = S → Result Error A × S

module _ {ℓ κ} {S : Type ℓ} {A : Type κ} where
  abbrev pub pure : A → Exec S A
  pure a s = (ok a, s)

  abbrev pub raise : Error → Exec S A
  raise e s = (err e, s)

  abbrev pub lift : Result Error A → Exec S A
  lift r s = (r, s)

  -- a call whose failure is an operating system error, with `.context(...)`
  abbrev pub call : Detail → (S → Result IoKind A × S) → Exec S A
  call d m s = let (r, s') = m s in (context_io d r, s')

  -- `.context(...)` on a call of this crate
  abbrev pub within : Detail → Exec S A → Exec S A
  within d m s = let (r, s') = m s in (context d r, s')

module _ {ℓ κ ι} {S : Type ℓ} {A : Type κ} {B : Type ι} where
  abbrev pub continue : (A → Exec S B) → Result Error A → Exec S B
  continue f (ok a) s = f a s
  continue f (err e) s = (err e, s)

  infixl 5 ◌>>=◌ ◌>>◌
  abbrev pub ◌>>=◌ : Exec S A → (A → Exec S B) → Exec S B
  ◌>>=◌ m f s = let (r, s') = m s in continue f r s'

  abbrev pub ◌>>◌ : Exec S A → Exec S B → Exec S B
  m >> n = m >>= λ _. n

-- a call that cannot fail and returns a value
abbrev pub get {ℓ κ} : {S : Type ℓ} {A : Type κ} → (S → A × S) → Exec S A
get m s = let (a, s') = m s in (ok a, s')

-- a call that cannot fail and returns nothing
abbrev pub act {ℓ} : {S : Type ℓ} → (S → S) → Exec S (Unit {0})
act f s = (ok tt, f s)
