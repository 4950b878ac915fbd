-- ===== src/Wipe/Run.antt =====
-- `wipe` and `run` of crates/imi-core/src/phases/phase_3.rs, and what the reported device state says.
use imi.Common.{
  ℕ, ◌≡◌, ◌∙◌, ◌⊎◌, inl, inr, arith, refl, map_err, Bool, true, false, Result, ok, err,
  if◌then◌else◌, none,
}
use imi.Error.{
  Error, cancelled_during, DeviceState, untouched, indeterminate, text, at, context, from_source,
  layer, kind_of,
}
use imi.Events.{Phase, PhaseOutcome, wipe, phase_started, phase_finished, completed, failed}
use imi.Exec.{Exec, pure, raise, within, act, ◌>>◌}
use imi.Exec.Ends.{Ends, Ends-continue, Ends-within, done, stop}
use imi.Host.{Host}
use imi.Host.Disk.{Disk}
use imi.Host.Keep.{Holds}
use imi.Guard.{ArmedPhase}
use imi.Session.{Session, ArmedSession, arm, at_state, reporting, outcome_of}
use imi.Wipe.{wipe_preflight, wipe_ends}
use imi.Wipe.Ends.{Wiped, Spared, Between, wipe_ends_lem}

module _ (h : Host) (region : ℕ) where
  open h use {World, emit}

  -- `wipe`
  unfoldable pub wipe_armed : Session → Exec World ArmedSession
  unfolding context wipe_ends arm
  wipe_armed session =
      let armed = arm session ArmedPhase.wiping_signatures in
      do
        act (emit (phase_started wipe))
        within (text "Phase 3: wiping device signatures")
            (wipe_ends h region session.target.dev_size)
        pure armed

  abbrev pub on_preflight : Session → Result Error (Unit {0}) → Exec World ArmedSession
  on_preflight session (err e) s = (err (at untouched e), s)
  on_preflight session (ok u) s = at_state indeterminate (wipe_armed session) s

  abbrev pub after_preflight : Session → Exec World ArmedSession
  after_preflight session s = let (r, s') = wipe_preflight h s in on_preflight session r s'

  -- `run`
  unfoldable pub wipe_run : Session → Exec World ArmedSession
  unfolding wipe_preflight wipe_armed at
  wipe_run session = reporting h wipe (after_preflight session)

pub at-device : (d : DeviceState) (e : Error) → (at d e).device ≡ d
unfolding at
at-device d e = ground arith

Ends-at_state :
    {S A : Type 0} (Q : A → S → Type 0) (R R' : Error → S → Type 0) (d : DeviceState) (m : Exec S A)
    (s : S)
    → Ends Q R (m s)
    → ((e : Error) (s' : S) → R e s' → R' (at d e) s')
    → Ends Q R' (at_state d m s)
Ends-at_state {S} {A} Q R R' d m s x f = go (m s) x
  where
    go : (r : Result Error A × S) → Ends Q R r → Ends Q R' (map_err (at d) r.0, r.1)
    go (ok a, s') (done q) = done q
    go (err e, s') (stop x) = stop (f e s' x)

Ends-reporting :
    (h : Host) {A : Type 0} (Q : A → h.World → Type 0) (R : Error → h.World → Type 0) (p : Phase)
    (m : Exec h.World A) (s : h.World)
    → ((a : A) (o : PhaseOutcome) (s' : h.World) → Q a s' → Q a (h.emit (phase_finished p o) s'))
    → ((e : Error) (o : PhaseOutcome) (s' : h.World)
        → R e s'
        → R e (h.emit (phase_finished p o) s'))
    → Ends Q R (m s)
    → Ends Q R (reporting h p m s)
Ends-reporting h {A} Q R p m s f g x = go (m s) x
  where
    go :
        (r : Result Error A × h.World)
        → Ends Q R r
        → Ends Q R (r.0, h.emit (phase_finished p (outcome_of r.0)) r.1)
    go (ok a, s') (done q) = done (f a completed s' q)
    go (err e, s') (stop y) = stop (g e failed s' y)

module _ (h : Host) (d : Disk h) (region : ℕ) (f : ℕ → ℕ) (session : Session) where
  open h use {World, emit, load_cancel}

  -- the session is armed, and the device is wiped
  abbrev pub Armed : ArmedSession → World → Type 0
  Armed armed s' =
      (armed ≡ arm session ArmedPhase.wiping_signatures)
      × Wiped h d region session.target.dev_size f tt s'

  -- the state that is reported tells whether a byte was changed
  abbrev pub Told : Error → World → Type 0
  Told e s' =
      ((e.device ≡ untouched) × Holds h d f s')
      ⊎ ((e.device ≡ indeterminate)
          × ((i : ℕ) → Between region session.target.dev_size i → d.byte s' i ≡ f i))

  Armed-Ends :
      (s : World)
      → Holds h d f s
      → Ends Armed (Spared h d region session.target.dev_size f) (wipe_armed h region session s)
  unfolding wipe_armed layer kind_of
  Armed-Ends s p =
      let s₁ = emit (phase_started wipe) s in
      Ends-continue _
        (Ends-within {R = Spared h d region session.target.dev_size f} _
          (wipe_ends h region session.target.dev_size) s₁
          (wipe_ends_lem h d region session.target.dev_size f s₁ (λ i. d.emit_keeps _ s i ∙ p i))
          (λ e s' x. (((λ y. cc), x.0.1), x.1, x.2)))
        (λ _ s' q. done (refl, q)) (λ e s' x. x)

  after-Ends : (s : World) → Holds h d f s → Ends Armed Told (after_preflight h region session s)
  unfolding wipe_preflight
  after-Ends s p = go (load_cancel s).0 (load_cancel s).1 (λ i. d.load_keeps s i ∙ p i)
    where
      go :
          (b : Bool) (s' : World)
          → Holds h d f s'
          → let (r, s'') =
              (if b then raise (from_source (cancelled_during none)) else pure tt) s' in
            Ends Armed Told (on_preflight h region session r s'')
      go true s' q = stop (inl (at-device untouched _, q))
      go false s' q =
          Ends-at_state Armed (Spared h d region session.target.dev_size f) Told indeterminate
            (wipe_armed h region session) s' (Armed-Ends s' q)
            (λ e s'' x. inr (at-device indeterminate e, x.2))

  -- From a device that holds `f`: a run of Phase 3 that succeeds returns the same session, armed for
  -- the wipe, and has set both ends of the device to zero and nothing else. A run that fails says
  -- that the device is untouched, and then no byte was changed, or that it is in doubt, and then no
  -- byte outside the two ends was changed.
  pub wipe_run_lem : (s : World) → Holds h d f s → Ends Armed Told (wipe_run h region session s)
  unfolding wipe_run
  wipe_run_lem s p =
      Ends-reporting h Armed Told wipe (after_preflight h region session) s
        (λ a o s' q. (
          q.0,
          (q.1.0, (λ i c. d.emit_keeps _ s' i ∙ q.1.1 i c), λ i c. d.emit_keeps _ s' i ∙ q.1.2 i c),
        ))
        emitted (after-Ends s p)
    where
      emitted :
          (e : Error) (o : PhaseOutcome) (s' : World)
          → Told e s'
          → Told e (emit (phase_finished wipe o) s')
      emitted e o s' (inl (x, q)) = inl (x, λ i. d.emit_keeps _ s' i ∙ q i)
      emitted e o s' (inr (x, q)) = inr (x, λ i c. d.emit_keeps _ s' i ∙ q i c)
