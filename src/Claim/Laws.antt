-- ===== src/Claim/Laws.antt =====
-- Laws of phase 2: crates/imi-core/src/phases/phase_2.rs.
use imi.Common.{ℕ, Bytes, ◌≡◌, ◌∙◌, ap, ◌⊎◌, inl, inr, refl, codes, Result, ok, err, map_err}
use imi.Error.{Error, IoKind, untouched, at, text}
use imi.Events.{claim, phase_started, phase_finished, failed}
use imi.Exec.{within, lift}
use imi.Exec.Ends.{Ends, Ends-continue, Ends-mono, Ends-within, Ends-any, Ends-call, done, stop}
use imi.Exec.Yields.{Any, call_yields, lift_yields, within-Any}
use imi.Guard.{new}
use imi.Host.{Host, Devt}
use imi.Identity.{DeviceIdentity, check_rdev, check_model, check_serial, check_wwid, check_size}
use imi.Identity.Laws.{Passes, Passes-iff}
use imi.Identity.Capture.{verify_claimed}
use imi.Mount.{TargetDevts, ensure_unmounted}
use imi.Mount.Scan.{mounts_on_target, reject_active_stacked_volumes}
use imi.Session.{Target, Session, pair, outcome_of}
use imi.Sysfs.{device_model, device_serial, device_wwid}
use imi.Wipe.Run.{at-device}
use imi.Claim.{closed_on, recheck, claim_device, claim_target, claim_run}

module _ (h : Host) where
  open h use {World, claimed_rdev, claimed_size, release, open_exclusive}

  -- every part of the identity was read of the claimed device
  pub record Confirmed (i : DeviceIdentity) (kname : Bytes) : Type 0 where
    pub rdev_seen : (s : World) × ((claimed_rdev s).0 ≡ ok i.rdev)
    pub model_seen : (s : World) × ((device_model h kname s).0 ≡ i.model)
    pub serial_seen : (s : World) × ((device_serial h kname s).0 ≡ i.serial)
    pub wwid_seen : (s : World) × ((device_wwid h kname s).0 ≡ i.wwid)
    pub size_seen : (s : World) × ((claimed_size s).0 ≡ ok i.size)

  confirmed :
      (i : DeviceIdentity) (kname : Bytes) (s s₂ s₃ s₄ s₅ : World) (rdev : Devt) (size : ℕ)
      → (claimed_rdev s).0 ≡ ok rdev
      → (claimed_size s₅).0 ≡ ok size
      → Passes i (record {
        rdev = rdev;
        model = (device_model h kname s₂).0;
        size = size;
        wwid = (device_wwid h kname s₄).0;
        serial = (device_serial h kname s₃).0;
      })
      → Confirmed i kname
  confirmed i kname s s₂ s₃ s₄ s₅ rdev size e₁ e₅ p =
      let same =
        (Passes-iff i (record {
          rdev = rdev;
          model = (device_model h kname s₂).0;
          size = size;
          wwid = (device_wwid h kname s₄).0;
          serial = (device_serial h kname s₃).0;
        })).0
          p in
      record {
        rdev_seen = (s, e₁ ∙ ap (λ x. ok x.rdev) same);
        model_seen = (s₂, ap (λ x. x.model) same);
        serial_seen = (s₃, ap (λ x. x.serial) same);
        wwid_seen = (s₄, ap (λ x. x.wwid) same);
        size_seen = (s₅, e₅ ∙ ap (λ x. ok x.size) same);
      }

  verify_claimed-Confirmed :
      (i : DeviceIdentity) (kname : Bytes) (s : World)
      → Ends (λ _ _. Confirmed i kname) Any (verify_claimed h i kname s)
  unfolding verify_claimed
  verify_claimed-Confirmed i kname s =
      Ends-continue _ (call_yields _ claimed_rdev s)
        (λ rdev s₁ e₁.
          Ends-continue _ (lift_yields (check_rdev i rdev) s₁)
            (λ _ s₂ c₁.
              Ends-continue _
                (lift_yields (check_model i (device_model h kname s₂).0)
                  (device_model h kname s₂).1)
                (λ _ s₃ c₂.
                  Ends-continue _
                    (lift_yields (check_serial i (device_serial h kname s₃).0)
                      (device_serial h kname s₃).1)
                    (λ _ s₄ c₃.
                      Ends-continue _
                        (lift_yields (check_wwid i (device_wwid h kname s₄).0)
                          (device_wwid h kname s₄).1)
                        (λ _ s₅ c₄.
                          Ends-continue _ (call_yields _ claimed_size s₅)
                            (λ size s₆ e₅.
                              Ends-mono (lift_yields (check_size i size) s₆)
                                (λ _ s₇ c₅.
                                  confirmed i kname s s₂ s₃ s₄ s₅ rdev size e₁ e₅
                                    (c₁, c₂, c₃, c₄, c₅))
                                (λ e s' x. tt))
                            (λ e s' x. tt))
                        (λ e s' x. tt))
                    (λ e s' x. tt))
                (λ e s' x. tt))
            (λ e s' x. tt))
        (λ e s' x. tt)

  module _ (fuel : ℕ) (target : Target) where
    -- the device is the one that was confirmed
    abbrev pub Claimed : Session → Type 0
    Claimed session =
        (session ≡ pair (new target.dev_canon) target) × Confirmed target.identity target.dev_kname

    -- the device was not opened, or it was closed again
    abbrev pub LetGo : World → Type 0
    LetGo s' =
        ((s₀ : World) × (k : IoKind) × (open_exclusive target.dev_canon s₀ ≡ (err k, s')))
        ⊎ ((s₀ : World) × (s' ≡ release s₀))

    recheck-Claimed :
        (devts : TargetDevts) (s : World)
        → Ends (λ session _. Claimed session) Any (recheck h fuel target devts s)
    unfolding recheck
    recheck-Claimed devts s =
        Ends-continue _ (within-Any _ (reject_active_stacked_volumes h fuel target.dev_kname) s)
          (λ _ s₁ _.
            Ends-continue _ (within-Any _ (mounts_on_target h devts) s₁)
              (λ mounts s₂ _.
                Ends-continue _
                  (within-Any _
                    (lift (
                      ensure_unmounted mounts
                        (codes "target acquired a new mount after O_EXCL claim (racing udisks2?)")))
                    s₂)
                  (λ _ s₃ _.
                    Ends-continue {R = Any} _
                      (Ends-within {R = Any} _ (verify_claimed h target.identity target.dev_kname)
                        s₃ (verify_claimed-Confirmed target.identity target.dev_kname s₃)
                        (λ e s' x. tt))
                      (λ _ s₄ c. done (refl, c)) (λ e s' x. tt))
                  (λ e s' x. tt))
              (λ e s' x. tt))
          (λ e s' x. tt)

    opened :
        (s : World)
        → Ends
            (λ _ _. Unit {0})
            (λ _ s'. LetGo s')
            (within
              (text "Phase 2: opening target device with O_EXCL")
              (claim_device h fuel target.dev_canon)
              s)
    unfolding claim_device
    opened s =
        Ends-within _ (claim_device h fuel target.dev_canon) s
          (Ends-call {R = λ k s'. open_exclusive target.dev_canon s ≡ (err k, s')} _
            (open_exclusive target.dev_canon) s
            (Ends-mono (Ends-any (open_exclusive target.dev_canon s)) (λ _ s' _. tt) (λ k s' e. e))
            (λ k s' e. inl (s, k, e)))
          (λ e s' x. x)

    claim_target-Claimed :
        (devts : TargetDevts) (s : World)
        → Ends
            (λ session _. Claimed session)
            (λ _ s'. LetGo s')
            (claim_target h fuel target devts s)
    unfolding claim_target
    claim_target-Claimed devts s =
        Ends-continue _ (opened (h.emit (phase_started claim) s))
          (λ _ s₁ _. closed (recheck-Claimed devts s₁)) (λ e s' x. x)
      where
        closed :
            {r : Result Error Session × World}
            → Ends (λ session _. Claimed session) Any r
            → Ends (λ session _. Claimed session) (λ _ s'. LetGo s') (r.0, closed_on h fuel r.0 r.1)
        closed (done q) = done q
        closed (stop {s = s'} x) = stop (inr (s', refl))

-- If phase 2 succeeds, it returns a disarmed guard of the target's device with the target, and the
-- number, the size, the model, the serial and the WWID that it read of the claimed device are those
-- of the identity that was confirmed. If it fails, the device was not opened or was closed again
-- before the report, and the error says that the device is untouched.
pub claim_run-Claimed :
    (h : Host) (fuel : ℕ) (target : Target) (devts : TargetDevts) (s : h.World)
    → Ends
        (λ session _. Claimed h fuel target session)
        (λ e s'.
          (e.device ≡ untouched)
          × (s₁ : h.World) × LetGo h fuel target s₁
          × (s' ≡ h.emit (phase_finished claim failed) s₁))
        (claim_run h fuel target devts s)
unfolding claim_run
claim_run-Claimed h fuel target devts s = go (claim_target-Claimed h fuel target devts s)
  where
    go :
        {r : Result Error Session × h.World}
        → Ends (λ session _. Claimed h fuel target session) (λ _ s'. LetGo h fuel target s') r
        → Ends
            (λ session _. Claimed h fuel target session)
            (λ e s'.
              (e.device ≡ untouched)
              × (s₁ : h.World) × LetGo h fuel target s₁
              × (s' ≡ h.emit (phase_finished claim failed) s₁))
            (
              map_err (at untouched) r.0,
              h.emit (phase_finished claim (outcome_of (map_err (at untouched) r.0))) r.1,
            )
    go (done q) = done q
    go (stop {e} {s = s₁} x) = stop (at-device untouched e, s₁, x, refl)
