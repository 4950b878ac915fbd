-- ===== src/KernelSync.antt =====
-- Phase 6, in which the kernel reads the new partition table:
-- crates/imi-core/src/phases/phase_6.rs.
use imi.Common.{Result, ok, err}
use imi.Error.{IoKind, text}
use imi.Events.{kernel_sync, completed, phase_started, phase_finished, warning}
use imi.Host.{Host}
use imi.Session.{Target, ArmedSession, disarm}

module _ (h : Host) where
  open h use {World, emit, reread_table, release}

  -- a failure of BLKRRPART is a warning
  abbrev pub warned : Result IoKind (Unit {0}) → World → World
  warned (ok u) s = s
  warned (err k) s = emit (warning (text "BLKRRPART failed; proceeding anyway")) s

  abbrev pub reread : World → World
  reread s = let (r, s') = reread_table s in warned r s'

  -- `run`, which cannot fail; the device is closed before the phase is reported
  unfoldable pub kernel_sync_run : ArmedSession → World → Target × World
  unfolding disarm
  kernel_sync_run session s =
      let (guard, target) = disarm session in
      let s₁ = reread (emit (phase_started kernel_sync) s) in
      (target, emit (phase_finished kernel_sync completed) (release s₁))
