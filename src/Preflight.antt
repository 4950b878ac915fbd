-- ===== src/Preflight.antt =====
-- The guards of Phase 0: crates/imi-core/src/phases/phase_0.rs. `WIPE_REGION` is the parameter
-- `region`; a file's type is `st_mode & S_IFMT`.
pub mod Laws
pub mod Subtree
pub mod Run
pub mod Agreed
use imi.Common.{
  ℕ, String, ◌*◌, Bytes, [], ◌∷◌, Option, none, some, Bool, true, false, ◌&&◌, ◌||◌, not, ltb, ◌==◌,
  if◌then◌else◌, codes, bytes_eq, starts_with, Result, ok, err,
}
use imi.Error.{Error, say, text, msg, context_io}
use imi.Exec.{Exec, pure, raise, lift, call, get, ◌>>=◌}
use imi.Events.{Summary}
use imi.Host.{Host, Devt, Stat}
use imi.Config.{Config}
use imi.Identity.{devt_eq}

-- `S_IFREG`, `S_IFBLK` and the other types
abbrev pub regular : ℕ
regular = 32768

abbrev pub block : ℕ
block = 24576

-- the device that holds a file, and the file's inode on it
unfoldable pub is_same_file : Devt × ℕ → Devt × ℕ → Bool
is_same_file (a, b) (c, d) = devt_eq a c && b == d

unfoldable pub ensure_physical_or_loop : Bytes → Bool → Bytes → Result Error (Unit {0})
unfolding starts_with msg
ensure_physical_or_loop kname has_backing path =
    if starts_with kname (codes "loop") || has_backing
    then ok tt
    else err (msg (say "virtual/stacked block device, not a physical disk" [] (path ∷ kname ∷ [])))

-- two canonical paths are compared
unfoldable pub ensure_distinct_paths : Bytes → Bytes → Result Error (Unit {0})
unfolding bytes_eq msg
ensure_distinct_paths img_canon dev_canon =
    if bytes_eq img_canon dev_canon
    then err (
        msg
          (say "image and target resolve to the same path; refusing to flash" [] (dev_canon ∷ [])))
    else ok tt

unfoldable pub ensure_device_large_enough : ℕ → ℕ → Result Error (Unit {0})
unfolding msg
ensure_device_large_enough region dev_size =
    if ltb dev_size (2 * region)
    then err (
        msg (
          say
            "device is too small for a head+tail signature wipe; refusing before any destructive step"
            (dev_size ∷ 2 * region ∷ []) []))
    else ok tt

unfoldable pub ensure_image_fits : Option ℕ → ℕ → Result Error (Unit {0})
unfolding msg
ensure_image_fits none dev_size = ok tt
ensure_image_fits (some image_size) dev_size =
    if ltb dev_size image_size
    then err (
        msg
          (say "raw image is larger than target device; aborting" (image_size ∷ dev_size ∷ []) []))
    else ok tt

unfoldable pub file_type_name : ℕ → String
file_type_name format =
    if format == 16384
    then "a directory"
    else if format == 40960
    then "a symlink"
    else if format == block
    then "a block device"
    else if format == 8192
    then "a character device"
    else if format == 4096
    then "a FIFO/pipe"
    else if format == 49152
    then "a socket"
    else "a non-regular file"

module _ (h : Host) where
  open h use {World, is_root, stat, confirm}

  unfoldable pub phase0_root_check : Exec World (Unit {0})
  unfolding msg
  phase0_root_check = do
    root ← get is_root
    if root then pure tt else raise (msg (text "imi must be run as root (try: sudo imi ...)"))

  unfoldable pub ensure_image_is_regular_file : Bytes → Exec World (Unit {0})
  unfolding context_io msg file_type_name
  ensure_image_is_regular_file path = do
    meta ← call (say "stat" [] (path ∷ [])) (stat path)
    if meta.format == regular
        then pure tt
        else raise (
            msg (
              say "image is not a regular file" []
                (path ∷ codes (file_type_name meta.format) ∷ [])))

  unfoldable pub ensure_block_device : Bytes → Exec World (Unit {0})
  unfolding context_io msg
  ensure_block_device path = do
    st ← call (say "stat" [] (path ∷ [])) (stat path)
    if not (st.format == block)
        then raise (msg (say "is not a block device; aborting" (st.format ∷ []) (path ∷ [])))
        else pure tt

  unfoldable pub confirm_destruction : Config → Summary → Exec World (Unit {0})
  unfolding msg
  confirm_destruction config summary = if config.yes then pure tt else do
    agreed ← get (confirm summary)
    if agreed then pure tt else raise (msg (text "aborted by user"))
