-- ===== src/Exec/Yields.antt =====
-- Actions of which only what they return matters.
use imi.Common.{◌≡◌, refl, ap, Result, ok, err}
use imi.Error.{Error, Detail, IoKind, context_io}
use imi.Exec.{Exec, continue, call, within, lift}
use imi.Exec.Ends.{Ends, Ends-state, Ends-any, Ends-mono, Ends-continue, done, stop}

module _ {S : Type 0} where
  abbrev pub Any : Error → S → Type 0
  Any e s = Unit

  pub call_yields :
      {A : Type 0} (t : Detail) (m : S → Result IoKind A × S) (s : S)
      → Ends (λ a _. (m s).0 ≡ ok a) Any (call t m s)
  unfolding context_io
  call_yields {A} t m s = go (m s).0 refl
    where
      go :
          (r : Result IoKind A)
          → (m s).0 ≡ r
          → Ends (λ a _. (m s).0 ≡ ok a) Any (context_io t r, (m s).1)
      go (ok a) e = done e
      go (err k) e = stop tt

  pub lift_yields :
      {A : Type 0} (r : Result Error A) (s : S) → Ends (λ a _. r ≡ ok a) Any (lift r s)
  lift_yields (ok a) s = done refl
  lift_yields (err e) s = stop tt

  pub within-Any :
      {A : Type 0} (t : Detail) (m : Exec S A) (s : S) → Ends (λ _ _. Unit {0}) Any (within t m s)
  within-Any t m s = Ends-state (within t m s) tt (λ _ _ x. x) (λ _ _ x. x)

  pub act_yields : {A : Type 0} (m : Exec S A) (s : S) → Ends (λ a _. (m s).0 ≡ ok a) Any (m s)
  act_yields m s = Ends-mono (Ends-any (m s)) (λ a s' e. ap (λ x. x.0) e) (λ e s' x. tt)

  pub act-Any : {A : Type 0} (m : Exec S A) (s : S) → Ends (λ _ _. Unit {0}) Any (m s)
  act-Any m s = Ends-state (m s) tt (λ _ _ x. x) (λ _ _ x. x)

module _ {S A B : Type 0} {Q : A → S → Type 0} {Q' : B → S → Type 0} where
  pub Ends-next :
      {r : Result Error A × S} (f : A → Exec S B)
      → Ends Q Any r
      → ((a : A) (s : S) → Q a s → Ends Q' Any (f a s))
      → Ends Q' Any (continue f r.0 r.1)
  Ends-next f h next = Ends-continue f h next (λ e s' x. tt)
