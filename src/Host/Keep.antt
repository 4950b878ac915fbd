-- ===== src/Host/Keep.antt =====
-- Laws of the calls that write nothing to the device.
use imi.Common.{Result, ℕ, ◌∙◌, ◌≢◌, Option, none, some, Bool, leb, ◌-◌, ◌==◌}
use imi.Error.{foreign, io, Error, Detail, out_of_fuel, IoKind, layer, verification_failed, kind_of}
use imi.Exec.{Exec, within, call}
use imi.Exec.Ends.{
  Ends, Ends-state, Ends-continue, Ends-call, Ends-within, Ends-if, Ends-mono, done,
}
use imi.Host.{Host}
use imi.Host.Disk.{Disk, Same}
use imi.Cancel.{cancellable_sleep}
use imi.Cancel.Wait.{Clock, Undisturbed, cancellable_sleep_ends}
use imi.Config.{u64_or_max}
use imi.DirectIo.{wanted, set_direct}
use imi.Pace.{start_clock, pace}

-- The error is one of the source's own and no verification mismatch.
abbrev pub Sourced : Error → Type 0
Sourced e = (e.detail ≢ out_of_fuel) × (e.kind ≢ verification_failed)

pub io-Sourced : (t : Detail) (k : IoKind) → t ≢ out_of_fuel → Sourced (layer t (foreign (io k)))
unfolding layer kind_of
io-Sourced t k ne = (ne, λ x. cc)

module _ (h : Host) (d : Disk h) where
  open h use {World, get_flags, set_flags, load_cancel, now, sleep, deadline}

  -- the bytes are those of `f`
  abbrev pub Holds : (ℕ → ℕ) → World → Type 0
  Holds f s = Same (d.byte s) f

  -- the bytes stay those of `f`, however the action ends
  abbrev pub Kept : {A : Type 0} → (ℕ → ℕ) → Exec World A → World → Type 0
  Kept f m s = Ends (λ _ s'. Holds f s') (λ e s'. Sourced e × Holds f s') (m s)

  pub call-Kept :
      {A : Type 0} {f : ℕ → ℕ} (t : Detail) (m : World → Result IoKind A × World) (s : World)
      → t ≢ out_of_fuel
      → Same (d.byte (m s).1) (d.byte s)
      → Holds f s
      → Kept f (call t m) s
  unfolding layer kind_of
  call-Kept {f} t m s ne same p =
      Ends-call t m s (Ends-state {P = Holds f} (m s) (λ i. same i ∙ p i) (λ _ _ q. q) (λ _ _ q. q))
        (λ k s' q. ((ne, λ x. cc), q))

  pub within-Kept :
      {A : Type 0} {f : ℕ → ℕ} (t : Detail) (m : Exec World A) (s : World)
      → t ≢ out_of_fuel
      → Kept f m s
      → Kept f (within t m) s
  unfolding layer kind_of
  within-Kept t m s ne k = Ends-within t m s k (λ e s' q. ((ne, q.0.1), q.1))

  pub set_direct-Kept :
      {f : ℕ → ℕ} (enable : Bool) (s : World) → Holds f s → Kept f (set_direct h enable) s
  unfolding set_direct
  set_direct-Kept enable s p =
      Ends-continue _ (call-Kept _ get_flags s (λ e. cc) (d.get_flags_keeps s) p)
        (λ flags s' q.
          Ends-if (wanted enable flags == flags) _ _ s' (λ _. done q)
            (λ _.
              call-Kept _ (set_flags (wanted enable flags)) s' (λ e. cc) (d.set_flags_keeps _ s')
                q))
        (λ e s' q. q)

  undisturbed : (f : ℕ → ℕ) → Undisturbed h (Holds f)
  undisturbed f = record {
    load_P = λ s p i. d.load_keeps s i ∙ p i;
    now_P = λ s p i. d.now_keeps s i ∙ p i;
    sleep_P = λ n s p i. d.sleep_keeps n s i ∙ p i;
    deadline_P = λ n s p i. d.deadline_keeps n s i ∙ p i;
  }

module _ (h : Host) (d : Disk h) (c : Clock h) where
  open h use {World, now}

  pub start_clock-Kept :
      {f : ℕ → ℕ} (target : Option ℕ) (s : World)
      → Holds h d f s
      → Kept h d f (start_clock h target) s
  unfolding start_clock
  start_clock-Kept none s p = done p
  start_clock-Kept (some ns) s p = done (λ i. d.now_keeps s i ∙ p i)

  pub sleep-Kept :
      {f : ℕ → ℕ} (n : ℕ) (s : World) → Holds h d f s → Kept h d f (cancellable_sleep h n) s
  sleep-Kept {f} n s p =
      Ends-mono (cancellable_sleep_ends h c (undisturbed h d f) n s p) (λ _ _ q. q)
        (λ _ _ e. absurd e)

  pub pace-Kept :
      {f : ℕ → ℕ} (target start : Option ℕ) (s : World)
      → Holds h d f s
      → Kept h d f (pace h target start) s
  unfolding pace
  pace-Kept none start s p = done p
  pace-Kept (some ns) none s p = done p
  pace-Kept (some ns) (some t0) s p =
      let q = λ (i : ℕ). d.now_keeps s i ∙ p i in
      let e = u64_or_max ((now s).0 - t0) in
      Ends-if (leb e ns) _ _ (now s).1 (λ _. sleep-Kept (ns - e) (now s).1 q) (λ _. done q)
