-- ===== src/Wipe.antt =====
-- The signature wipe of Phase 3: crates/imi-core/src/phases/phase_3.rs. `WIPE_REGION` is the
-- parameter `region`; its conversion to usize cannot fail on the 64-bit targets.
pub mod Ends
pub mod Run
use imi.Common.{
  ℕ, ◌-◌, [], ◌∷◌, Option, none, some, Bool, leb, if◌then◌else◌, replicate, Result, ok, err,
}
use imi.Error.{text, say, msg, from_source, cancelled_during}
use imi.Exec.{Exec, pure, raise, call, get, ◌>>=◌, ◌>>◌}
use imi.Host.{Host}

-- `checked_sub`, then the filter
unfoldable pub tail_wipe_offset : ℕ → ℕ → Option ℕ
tail_wipe_offset region dev_size =
    let t = dev_size - region in
    if leb region dev_size then (if leb region t then some t else none) else none

module _ (h : Host) where
  open h use {World, load_cancel, alloc, write_all_at, fdatasync}

  -- `preflight`
  unfoldable pub wipe_preflight : Exec World (Unit {0})
  unfolding from_source
  wipe_preflight = do
    cancelled ← get load_cancel
    if cancelled then raise (from_source (cancelled_during none)) else pure tt

  abbrev pub wipe_at : ℕ → ℕ → Option ℕ → Exec World (Unit {0})
  wipe_at region dev_size none = raise (
      msg (
        say "device is too small for a head+tail signature wipe; refusing to flash" (dev_size ∷ [])
          []))
  wipe_at region dev_size (some tail_offset) = do
    call (text "allocating the 1 MiB wipe buffer (out of memory)") alloc
    call (text "zeroing first 1 MiB of device") (write_all_at (replicate region 0) 0)
    call (text "zeroing last 1 MiB of device") (write_all_at (replicate region 0) tail_offset)
    call (text "fdatasync after signature wipe") fdatasync

  unfoldable pub wipe_ends : ℕ → ℕ → Exec World (Unit {0})
  unfolding tail_wipe_offset
  wipe_ends region dev_size = wipe_at region dev_size (tail_wipe_offset region dev_size)
