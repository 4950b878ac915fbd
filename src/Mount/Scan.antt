-- ===== src/Mount/Scan.antt =====
-- The parts of crates/imi-core/src/common/mount.rs that read /sys and the mount table: the devts of a
-- disk, the mounts on it, and its stacked volumes.
use imi.Common.{
  ℕ, Bytes, List, [], ◌∷◌, Option, none, some, Bool, false, ◌||◌, ◌==◌, if◌then◌else◌, codes,
  starts_with, String, Result, ok, err,
}
use imi.Error.{Error, malformed, text, say, msg, layer, foreign, context}
use imi.Exec.{Exec, pure, lift, call, within, get, ◌>>=◌, ◌>>◌}
use imi.Host.{Host, Devt, Stat}
use imi.Preflight.{block}
use imi.Strings.{split_once, lines, parse_u64}
use imi.Strings.Chars.{chars, trim}
use imi.Sysfs.{sys_class_block, attribute, sort, dm_uuid, ok_of}
use imi.Sysfs.Names.{partitions_of, holders_recursive}
use imi.Mount.{MountInfo, TargetDevts, contains, parsed, source_of_longest_mount_prefix}
use imi.Mount.Order.{is_live_data, classify_dm_uuid}

abbrev pub number_or : Bytes → String → Option ℕ → Result Error ℕ
number_or path what none =
    err (layer (say what [] (path ∷ [])) (foreign (malformed "invalid digit found in string")))
number_or path what (some n) = ok n

abbrev pub devt_or : Bytes → Bytes → Option (Bytes × Bytes) → Result Error Devt
devt_or s path none = err (msg (say "malformed" [] (path ∷ s ∷ [])))
devt_or s path (some (maj, min)) = elim (number_or path "parse major" (parse_u64 maj)) [
  | err e ↦ err e
  | ok m ↦ elim (number_or path "parse minor" (parse_u64 min)) [ err e ↦ err e | ok n ↦ ok (m, n) ]
]

-- on the text's code points
unfoldable pub parse_devt : Bytes → Bytes → Result Error Devt
unfolding chars split_once parse_u64 msg layer
parse_devt raw path = devt_or (trim (chars raw)) path (split_once 58 (trim (chars raw)))

-- a set keeps one of each
abbrev pub insert_devt : Devt → TargetDevts → TargetDevts
insert_devt d set = if contains set d then set else d ∷ set

abbrev pub proc_self_mountinfo : Bytes
proc_self_mountinfo = codes "/proc/self/mountinfo"

abbrev pub rdev_if_block : Option Stat → Option Devt
rdev_if_block none = none
rdev_if_block (some st) = if st.format == block then some st.rdev else none

module _ (h : Host) where
  open h use {World, read_to_string, stat}

  unfoldable pub read_devt_of : Bytes → Exec World Devt
  unfolding parse_devt
  read_devt_of kname = do
    let p = attribute sys_class_block kname (codes "dev")
    s ← call (say "read" [] (p ∷ [])) (read_to_string p)
    lift (parse_devt s p)

  unfoldable pub add_partitions : List Bytes → TargetDevts → Exec World TargetDevts
  unfolding read_devt_of contains context
  add_partitions [] set = pure set
  add_partitions (part ∷ parts) set = do
    devt ← within (say "reading devt for partition" [] (part ∷ [])) (read_devt_of part)
    add_partitions parts (insert_devt devt set)

  -- `TargetDevts::from_disk`
  unfoldable pub from_disk : Bytes → Exec World TargetDevts
  unfolding add_partitions read_devt_of partitions_of
  from_disk disk = do
    disk_devt ← read_devt_of disk
    parts ← partitions_of h disk
    add_partitions parts (disk_devt ∷ [])

  unfoldable pub block_rdev_of : Bytes → World → Option Devt × World
  block_rdev_of path s = let (r, s') = stat path s in (rdev_if_block (ok_of r), s')

  -- the devt of a mount's source, which is asked for whether or not the mount's own devt matches
  abbrev pub source_devt : Option Bytes → World → Option Devt × World
  source_devt none s = (none, s)
  source_devt (some p) s = block_rdev_of p s

  abbrev pub among : TargetDevts → Option Devt → Bool
  among target none = false
  among target (some d) = contains target d

  -- `filter_mountinfo` with `block_rdev_of`
  unfoldable pub filter_live : TargetDevts → List MountInfo → World → List MountInfo × World
  unfolding block_rdev_of contains
  filter_live target [] s = ([], s)
  filter_live target (mi ∷ rest) s =
      let (d, s₁) = source_devt mi.source s in
      let (more, s₂) = filter_live target rest s₁ in
      (if contains target mi.devt || among target d then mi ∷ more else more, s₂)

  unfoldable pub mounts_in_text : Bytes → TargetDevts → World → List MountInfo × World
  unfolding filter_live parsed lines
  mounts_in_text text target = filter_live target (parsed (lines text))

  unfoldable pub mounts_on_target : TargetDevts → Exec World (List MountInfo)
  unfolding mounts_in_text
  mounts_on_target target = do
    text ← call (text "read /proc/self/mountinfo") (read_to_string proc_self_mountinfo)
    get (mounts_in_text text target)

  unfoldable pub backing_source_for_path : Bytes → Exec World (Option Bytes)
  unfolding source_of_longest_mount_prefix
  backing_source_for_path path = do
    text ← call (text "read /proc/self/mountinfo") (read_to_string proc_self_mountinfo)
    pure (source_of_longest_mount_prefix text path)

  -- what a holder with this dm uuid means for the disk
  unfoldable pub holder_verdict : Bytes → Bytes → Option (List ℕ) → Result Error (Unit {0})
  unfolding starts_with classify_dm_uuid is_live_data msg
  holder_verdict disk holder none =
      if starts_with holder (codes "md")
      then err
          (msg (say "target disk has an active MD raid holder; aborting" [] (disk ∷ holder ∷ [])))
      else err (
          msg (
            say "target disk has an active block-layer holder that imi cannot classify" []
              (disk ∷ holder ∷ [])))
  holder_verdict disk holder (some uuid) =
      if is_live_data (classify_dm_uuid uuid)
      then err (msg (say "target disk has an active holder" [] (disk ∷ holder ∷ [])))
      else ok tt

  unfoldable pub check_holders : Bytes → List Bytes → Exec World (Unit {0})
  unfolding holder_verdict dm_uuid
  check_holders disk [] = pure tt
  check_holders disk (holder ∷ holders) = do
    uuid ← get (dm_uuid h holder)
    lift (holder_verdict disk holder uuid)
    check_holders disk holders

  -- each root, with the fuel of the walk over its holders
  unfoldable pub check_roots : ℕ → Bytes → List Bytes → Exec World (Unit {0})
  unfolding check_holders holders_recursive sort
  check_roots fuel disk [] = pure tt
  check_roots fuel disk (root ∷ roots) = do
    holders ← holders_recursive h fuel root
    check_holders disk (sort holders)
    check_roots fuel disk roots

  unfoldable pub reject_active_stacked_volumes : ℕ → Bytes → Exec World (Unit {0})
  unfolding check_roots partitions_of
  reject_active_stacked_volumes fuel disk = do
    parts ← partitions_of h disk
    check_roots fuel disk (disk ∷ parts)
