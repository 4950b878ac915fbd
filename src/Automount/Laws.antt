-- ===== src/Automount/Laws.antt =====
-- Laws of phase 7: crates/imi-core/src/phases/phase_7.rs.
use imi.Common.{ℕ, zero, suc, Bytes, List, [], ◌∷◌, ◌≡◌, refl, Result, ok, map_err}
use imi.Error.{Error, Detail, written, at}
use imi.Events.{automount, completed, phase_finished, phase_started}
use imi.Exec.{within}
use imi.Exec.Yields.{Ends-next, act_yields}
use imi.Exec.Ends.{Ends, Ends-continue, Ends-if, Ends-mono, Ends-any, Ends-within, done, stop}
use imi.Cancel.{cancellable_sleep}
use imi.Cancel.Wait.{Clock, Undisturbed, cancellable_sleep_ends}
use imi.Host.{Host}
use imi.Mount.{MountInfo, TargetDevts, final_verdict}
use imi.Mount.Numbers.{Covers, from_disk-Covers}
use imi.Mount.Scan.{from_disk, mounts_on_target}
use imi.Session.{Target, outcome_of}
use imi.Wipe.Run.{at-device}
use imi.Automount.{settle_ns, on_mounts, passes, defend, automount_run}

module _ (h : Host) (c : Clock h) where
  open h use {World, emit, load_cancel}

  -- the last that was done is a scan that found no mount of these device numbers
  abbrev pub Vacant : TargetDevts → World → Type 0
  Vacant devts s' = (s₀ : World) × (mounts_on_target h devts s₀ ≡ (ok [], s'))

  -- these are the disk's device numbers, read when the pause after the phase's start was over
  abbrev pub Rebuilt : Bytes → World → TargetDevts → Type 0
  Rebuilt kname s devts =
      (s₁ : World) × (cancellable_sleep h settle_ns (emit (phase_started automount) s)
        ≡ (ok tt, s₁))
      × ((from_disk h kname (load_cancel s₁).1).0 ≡ ok devts)

  -- nothing is mounted from the disk
  abbrev pub Unmounted : Bytes → World → World → Type 0
  Unmounted kname s s' =
      (devts : TargetDevts) × Rebuilt kname s devts × Covers h kname devts × Vacant devts s'

  undisturbed : Undisturbed h (λ s. Unit {0})
  undisturbed = record {
    load_P = λ s p. tt;
    now_P = λ s p. tt;
    sleep_P = λ n s p. tt;
    deadline_P = λ n s p. tt;
  }

  sleep-Ends :
      (n : ℕ) (s : World) → Ends (λ _ _. Unit {0}) (λ _ _. Unit {0}) (cancellable_sleep h n s)
  sleep-Ends n s =
      Ends-mono (cancellable_sleep_ends h c undisturbed n s tt) (λ _ _ q. tt) (λ _ _ x. tt)

  abbrev Any : Error → World → Type 0
  Any e s = Unit

  -- a scan, with whichever context
  scan-Ends :
      (t : Detail) (devts : TargetDevts) (s : World)
      → Ends
          (λ mounts s'. mounts_on_target h devts s ≡ (ok mounts, s'))
          Any
          (within t (mounts_on_target h devts) s)
  scan-Ends t devts s =
      Ends-within t (mounts_on_target h devts) s (Ends-any (mounts_on_target h devts s))
        (λ e s' x. tt)

  passes_end :
      (left : ℕ) (devts : TargetDevts) (s : World)
      → Ends (λ _ s'. Vacant devts s') Any (passes h left devts s)
  unfolding passes final_verdict
  passes_end zero devts s =
      Ends-continue _ (scan-Ends _ devts s) (λ mounts s' e. verdict mounts s' e) (λ e s' x. tt)
    where
      verdict :
          (still : List MountInfo) (s' : World)
          → mounts_on_target h devts s ≡ (ok still, s')
          → Ends (λ _ s'. Vacant devts s') Any (final_verdict still, s')
      verdict [] s' e = done (s, e)
      verdict (m ∷ ms) s' e = stop tt
  passes_end (suc left) devts s =
      Ends-if (load_cancel s).0 _ _ (load_cancel s).1 (λ _. stop tt)
        (λ _.
          Ends-continue _ (scan-Ends _ devts (load_cancel s).1) (pass (passes_end left devts))
            (λ e s' x. tt))
    where
      pass :
          ((s : World) → Ends (λ _ s'. Vacant devts s') Any (passes h left devts s))
          → (mounts : List MountInfo) (s' : World)
          → mounts_on_target h devts (load_cancel s).1 ≡ (ok mounts, s')
          → Ends (λ _ s'. Vacant devts s') Any (on_mounts h left (passes h left devts) mounts s')
      pass next [] s' e = done ((load_cancel s).1, e)
      pass next (m ∷ ms) s' e =
          Ends-continue _ (sleep-Ends settle_ns _) (λ _ s'' x. next s'') (λ e s'' x. tt)

  defend-Ends :
      (kname : Bytes) (s : World) → Ends (λ _ s'. Unmounted kname s s') Any (defend h kname s)
  unfolding defend
  defend-Ends kname s =
      Ends-next _
        (Ends-mono (Ends-any (cancellable_sleep h settle_ns (emit (phase_started automount) s)))
          (λ _ s₁ e. e) (λ e s₁ x. tt))
        (λ _ s₁ slept.
          Ends-if (load_cancel s₁).0 _ _ (load_cancel s₁).1 (λ _. stop tt)
            (λ _.
              Ends-next _
                (Ends-within _ (from_disk h kname) (load_cancel s₁).1
                  (act_yields (from_disk h kname) (load_cancel s₁).1) (λ e s' x. tt))
                (λ devts s₂ read.
                  Ends-mono (passes_end 3 devts s₂)
                    (λ _ s' vacant. (
                      devts,
                      (s₁, slept, read),
                      from_disk-Covers h kname (load_cancel s₁).1 devts read,
                      vacant,
                    ))
                    (λ e s' x. tt))))

-- If phase 7 succeeds, then it built a set of device numbers when the pause after its start was over,
-- which has the number of the target's disk and that of each partition that the disk was found to
-- have, and the last that it did before it reported was a scan of the mount table that found no
-- mount of any number of this set. If it fails, the error says that the image
-- was written.
pub automount_run-Unmounted :
    (h : Host) (c : Clock h) (target : Target) (s : h.World)
    → Ends
        (λ _ s'.
          (s₁ : h.World) × Unmounted h c target.dev_kname s s₁
          × (s' ≡ h.emit (phase_finished automount completed) s₁))
        (λ e _. e.device ≡ written)
        (automount_run h target s)
unfolding automount_run
automount_run-Unmounted h c target s = go (defend-Ends h c target.dev_kname s)
  where
    go :
        {r : Result Error (Unit {0}) × h.World}
        → Ends (λ _ s'. Unmounted h c target.dev_kname s s') (λ _ _. Unit {0}) r
        → Ends
            (λ _ s'.
              (s₁ : h.World) × Unmounted h c target.dev_kname s s₁
              × (s' ≡ h.emit (phase_finished automount completed) s₁))
            (λ e _. e.device ≡ written)
            (
              map_err (at written) r.0,
              h.emit (phase_finished automount (outcome_of (map_err (at written) r.0))) r.1,
            )
    go (done {s = s₁} q) = done (s₁, q, refl)
    go (stop {e} x) = stop (at-device written e)
