-- ===== src/Automount.antt =====
-- Phase 7, which keeps auto-mounters off the new file systems: crates/imi-core/src/phases/phase_7.rs.
pub mod Laws
use imi.Common.{
  ℕ, zero, suc, ◌+◌, ◌*◌, ◌-◌, Bytes, List, [], ◌∷◌, Option, none, some, Bool, true, false,
  if◌then◌else◌, length, Result, ok, err,
}
use imi.Error.{Error, IoKind, DeviceState, written, text, say, from_source, cancelled_during}
use imi.Events.{automount, phase_started, action, warning}
use imi.Exec.{Exec, pure, raise, lift, within, get, act, ◌>>=◌, ◌>>◌}
use imi.Cancel.{cancellable_sleep}
use imi.Host.{Host}
use imi.Mount.{MountInfo, TargetDevts, final_verdict}
use imi.Mount.Scan.{from_disk, mounts_on_target}
use imi.Session.{Target, at_state, reporting}

abbrev pub settle_ns : ℕ
settle_ns = 2_000_000_000

module _ (h : Host) where
  open h use {World, emit, load_cancel, umount}

  -- a failed unmount is a warning
  abbrev pub warned : Result IoKind (Unit {0}) → World → World
  warned (ok u) s = s
  warned (err k) s = emit (warning (text "unmount failed; re-checking on the next pass")) s

  abbrev pub unmount_one : MountInfo → World → World
  unmount_one m s =
      let (r, s') = umount m.target (emit (action (say "unmounting" [] (m.target ∷ []))) s) in
      warned r s'

  unfoldable pub sweep : List MountInfo → World → World
  sweep [] s = s
  sweep (m ∷ ms) s = sweep ms (unmount_one m s)

  -- a pass whose scan is done
  abbrev pub on_mounts : ℕ → Exec World (Unit {0}) → List MountInfo → Exec World (Unit {0})
  on_mounts left next [] = pure tt
  on_mounts left next (m ∷ ms) = do
    act (emit (warning (say "found new mount(s)" ((3 - left) ∷ length (m ∷ ms) ∷ []) [])))
    act (sweep (m ∷ ms))
    cancellable_sleep h settle_ns
    next

  -- the passes that are left of three, then the last scan and the verdict
  unfoldable pub passes : ℕ → TargetDevts → Exec World (Unit {0})
  unfolding mounts_on_target cancellable_sleep sweep final_verdict from_source
  passes zero devts = do
    still ← within (text "Phase 7: final mountinfo scan") (mounts_on_target h devts)
    lift (final_verdict still)
  passes (suc left) devts =
      let next = passes left devts in
      do
        cancelled ← get load_cancel
        if cancelled then raise (from_source (cancelled_during (some "automount defense"))) else do
          mounts ←
              within (say "Phase 7 attempt: scanning mountinfo" ((3 - left) ∷ []) [])
                (mounts_on_target h devts)
          on_mounts left next mounts

  -- `phase7_automount_defense`
  unfoldable pub defend : Bytes → Exec World (Unit {0})
  unfolding passes from_disk
  defend kname = do
    act (emit (phase_started automount))
    cancellable_sleep h settle_ns
    cancelled ← get load_cancel
    if cancelled
        then raise (from_source (cancelled_during (some "automount defense settle")))
        else do
          devts ←
              within (text "Phase 7: rebuilding target devt set after udev settle")
                (from_disk h kname)
          passes 3 devts

  -- `run`
  unfoldable pub automount_run : Target → Exec World (Unit {0})
  unfolding defend
  automount_run target = reporting h automount (at_state written (defend target.dev_kname))
