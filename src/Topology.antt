-- ===== src/Topology.antt =====
-- Phase 1, which takes the target's swaps and mounts away: crates/imi-core/src/phases/phase_1.rs.
pub mod Detached
pub mod Laws
use imi.Common.{ℕ, Bytes, List, codes, Result}
use imi.Error.{text, untouched}
use imi.Events.{topology, phase_started}
use imi.Exec.{Exec, pure, lift, within, act, ◌>>=◌, ◌>>◌}
use imi.Host.{Host}
use imi.Mount.{TargetDevts, enforce_whitelist, ensure_unmounted}
use imi.Mount.Scan.{from_disk, mounts_on_target, reject_active_stacked_volumes}
use imi.Mount.Detach.{disable_swaps_on_target, unmount_all}
use imi.Session.{Target, at_state, reporting}

-- `fuel` bounds the walk over a device's holders
module _ (h : Host) (fuel : ℕ) where
  open h use {World, emit}

  -- `run_inner`
  unfoldable pub clear_target : Target → Exec World TargetDevts
  unfolding reject_active_stacked_volumes from_disk mounts_on_target enforce_whitelist
      disable_swaps_on_target unmount_all ensure_unmounted
  clear_target target = do
    act (emit (phase_started topology))
    within (text "Phase 1: rejecting active stacked volumes")
        (reject_active_stacked_volumes h fuel target.dev_kname)
    devts ← within (text "Phase 1: building target devt set") (from_disk h target.dev_kname)
    mounts ← within (text "Phase 1: enumerating mounts on target") (mounts_on_target h devts)
    within (text "Phase 1: whitelist check") (lift (enforce_whitelist mounts target.dev_canon))
    within (text "Phase 1: disabling swaps on target") (disable_swaps_on_target h devts)
    within (text "Phase 1: unmounting partitions of target") (unmount_all h mounts)
    residual ← within (text "Phase 1: re-scanning mounts after unmount") (mounts_on_target h devts)
    within (text "Phase 1")
        (lift (ensure_unmounted residual (codes "target still mounted after unmount attempts")))
    pure devts

  -- `run`
  unfoldable pub topology_run : Target → Exec World TargetDevts
  unfolding clear_target
  topology_run target = reporting h topology (at_state untouched (clear_target target))
