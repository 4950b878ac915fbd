-- ===== src/Exec/Ends.antt =====
-- How an action ends: `Q` of the value and the state after success, `R` of the error and the state
-- after failure. The rules follow the ways to build an action.
use imi.Common.{Result, ok, err, Bool, true, false, ◌≡◌, refl, if◌then◌else◌}
use imi.Error.{Error, Detail, IoKind, layer, inner, foreign, io, context, context_io}
use imi.Exec.{Exec, call, within, continue}

pub data Ends {E S A : Type 0} (Q : A → S → Type 0) (R : E → S → Type 0)
    : Result E A × S → Type 0 where
  done : {a : A} {s : S} → Q a s → Ends Q R (ok a, s)
  stop : {e : E} {s : S} → R e s → Ends Q R (err e, s)

module _ {E S A : Type 0} {Q Q' : A → S → Type 0} {R R' : E → S → Type 0} where
  pub Ends-mono :
      {r : Result E A × S}
      → Ends Q R r
      → ((a : A) (s : S) → Q a s → Q' a s)
      → ((e : E) (s : S) → R e s → R' e s)
      → Ends Q' R' r
  Ends-mono (done {a} {s} q) f g = done (f a s q)
  Ends-mono (stop {e} {s} x) f g = stop (g e s x)

module _ {S A B : Type 0} {Q : A → S → Type 0} {R R' : Error → S → Type 0}
    {Q' : B → S → Type 0} where
  pub Ends-continue :
      {r : Result Error A × S} (f : A → Exec S B)
      → Ends Q R r
      → ((a : A) (s : S) → Q a s → Ends Q' R' (f a s))
      → ((e : Error) (s : S) → R e s → R' e s)
      → Ends Q' R' (continue f r.0 r.1)
  Ends-continue f (done {a} {s} q) next g = next a s q
  Ends-continue f (stop {e} {s} x) next g = stop (g e s x)

module _ {S A : Type 0} {Q : A → S → Type 0} {R' : Error → S → Type 0} where
  pub Ends-call :
      {R : IoKind → S → Type 0} (d : Detail) (m : S → Result IoKind A × S) (s : S)
      → Ends Q R (m s)
      → ((k : IoKind) (s' : S) → R k s' → R' (layer d (foreign (io k))) s')
      → Ends Q R' (call d m s)
  Ends-call {R} d m s h g = go h
    where
      go : {r : Result IoKind A × S} → Ends Q R r → Ends Q R' (context_io d r.0, r.1)
      go (done q) = unfold context_io in done q
      go (stop {e} {s = s'} x) = unfold context_io in stop (g e s' x)

  pub Ends-within :
      {R : Error → S → Type 0} (d : Detail) (m : Exec S A) (s : S)
      → Ends Q R (m s)
      → ((e : Error) (s' : S) → R e s' → R' (layer d (inner e)) s')
      → Ends Q R' (within d m s)
  Ends-within {R} d m s h g = go h
    where
      go : {r : Result Error A × S} → Ends Q R r → Ends Q R' (context d r.0, r.1)
      go (done q) = unfold context in done q
      go (stop {e} {s = s'} x) = unfold context in stop (g e s' x)

pub Ends_ok :
    {E S A : Type 0} {Q : A → S → Type 0} {R : E → S → Type 0} {a : A} {s : S}
    → Ends Q R (ok a, s)
    → Q a s
Ends_ok (done q) = q

pub Ends_err :
    {E S A : Type 0} {Q : A → S → Type 0} {R : E → S → Type 0} {e : E} {s : S}
    → Ends Q R (err e, s)
    → R e s
Ends_err (stop x) = x

-- The branch that is not taken may be assumed away.
pub Ends-if :
    {E S A : Type 0} {Q : A → S → Type 0} {R : E → S → Type 0} (b : Bool) (m n : S → Result E A × S)
    (s : S)
    → (b ≡ true → Ends Q R (m s))
    → (b ≡ false → Ends Q R (n s))
    → Ends Q R ((if b then m else n) s)
Ends-if true m n s f g = f refl
Ends-if false m n s f g = g refl

-- What holds of the state alone, however the action ends.
pub Ends-state :
    {E S A : Type 0} {P : S → Type 0} {Q : A → S → Type 0} {R : E → S → Type 0} (r : Result E A × S)
    → P r.1
    → ((a : A) (s : S) → P s → Q a s)
    → ((e : E) (s : S) → P s → R e s)
    → Ends Q R r
Ends-state {E} {A = A} {Q = Q} {R = R} r p f g = go r.0
  where
    go : (x : Result E A) → Ends Q R (x, r.1)
    go (ok a) = done (f a r.1 p)
    go (err e) = stop (g e r.1 p)

-- What an action yields is what it yields.
pub Ends-any :
    {E S A : Type 0} (r : Result E A × S)
    → Ends (λ a s'. r ≡ (ok a, s')) (λ e s'. r ≡ (err e, s')) r
Ends-any (ok a, s) = done refl
Ends-any (err e, s) = stop refl
