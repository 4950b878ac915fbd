-- ===== src/Claim.antt =====
-- Phase 2, which claims the target: crates/imi-core/src/phases/phase_2.rs.
pub mod Laws
use imi.Common.{ℕ, Bytes, List, [], ◌∷◌, codes, Result, ok, err}
use imi.Error.{Error, text, say, untouched}
use imi.Events.{claim, phase_started}
use imi.Exec.{Exec, pure, lift, call, within, act, ◌>>=◌, ◌>>◌}
use imi.Guard.{FlashGuard, new}
use imi.Host.{Host}
use imi.Identity.Capture.{verify_claimed}
use imi.Mount.{TargetDevts, ensure_unmounted}
use imi.Mount.Scan.{mounts_on_target, reject_active_stacked_volumes}
use imi.Session.{Target, Session, pair, at_state, reporting}

module _ (h : Host) (fuel : ℕ) where
  open h use {World, emit, release, open_exclusive}

  -- a guard that is dropped on the way out closes the device
  abbrev pub closed_on : {A : Type 0} → Result Error A → World → World
  closed_on (ok a) s = s
  closed_on (err e) s = release s

  abbrev pub guarded : {A : Type 0} → Exec World A → Exec World A
  guarded m s = let (r, s') = m s in (r, closed_on r s')

  -- behind the claim
  unfoldable pub recheck : Target → TargetDevts → Exec World Session
  unfolding reject_active_stacked_volumes mounts_on_target ensure_unmounted verify_claimed new pair
  recheck target devts = do
    within (text "Phase 2: re-checking stacked volumes under lock")
        (reject_active_stacked_volumes h fuel target.dev_kname)
    mounts ← within (text "Phase 2: re-enumerating mounts under lock") (mounts_on_target h devts)
    within (text "Phase 2") (
        lift (
          ensure_unmounted mounts
            (codes "target acquired a new mount after O_EXCL claim (racing udisks2?)")))
    within (text "Phase 2: re-verifying device identity under lock")
        (verify_claimed h target.identity target.dev_kname)
    pure (pair (new target.dev_canon) target)

  -- `open_exclusive`
  unfoldable pub claim_device : Bytes → Exec World (Unit {0})
  claim_device path =
      call
        (say "opening with O_RDWR|O_EXCL|O_CLOEXEC (EBUSY => someone else holds the device)" []
          (path ∷ []))
        (open_exclusive path)

  -- `run_inner`
  unfoldable pub claim_target : Target → TargetDevts → Exec World Session
  unfolding claim_device recheck
  claim_target target devts = do
    act (emit (phase_started claim))
    within (text "Phase 2: opening target device with O_EXCL") (claim_device target.dev_canon)
    guarded (recheck target devts)

  -- `run`
  unfoldable pub claim_run : Target → TargetDevts → Exec World Session
  unfolding claim_target
  claim_run target devts = reporting h claim (at_state untouched (claim_target target devts))
