-- ===== src/Mount.antt =====
-- The mount table: crates/imi-core/src/common/mount.rs, its parser, its filters and its guards.
-- `String` and `PathBuf` are their bytes.
pub mod Octal
pub mod Unescape
pub mod Table
pub mod Deepest
pub mod Order
pub mod Guards
pub mod Scan
pub mod Detach
pub mod Teardown
pub mod Numbers
use imi.Common.{
  ℕ, ◌≡◌, Bytes, List, [], ◌∷◌, ◌++◌, Option, none, some, Bool, true, false, ◌||◌, ◌&&◌, leb, ◌==◌,
  if◌then◌else◌, codes, bytes_eq, starts_with, length, Result, ok, err, is_some,
}
use imi.Error.{Error, text, say, msg}
use imi.Host.{Devt}
use imi.Strings.{
  split_on, split_once, lines, parse_u64, components, path_starts_with, is_ascii_digit,
}
use Octal.{unescape_proc_octal}

-- `MountInfo`
pub record MountInfo : Type 0 where
  pub devt : Devt
  pub target : Bytes
  pub source : Option Bytes

-- `TargetDevts`, as a list
abbrev pub TargetDevts : Type 0
TargetDevts = List Devt

unfoldable pub contains : TargetDevts → Devt → Bool
contains [] d = false
contains ((a, b) ∷ ds) (maj, min) = (a == maj && b == min) || contains ds (maj, min)

-- behind the optional fields and their `-`
unfoldable pub after_dash : List Bytes → List Bytes
unfolding bytes_eq
after_dash [] = []
after_dash (tok ∷ it) = let rest = after_dash it in if bytes_eq tok (45 ∷ []) then it else rest

abbrev first : List Bytes → Option Bytes
first [] = none
first (t ∷ ts) = some t

abbrev decoded : Option Bytes → Option Bytes
decoded none = none
decoded (some s) = some (unescape_proc_octal s)

abbrev pub both : Option ℕ → Option ℕ → Option Devt
both (some a) (some b) = some (a, b)
both _ _ = none

abbrev pub from_parts : Option (Bytes × Bytes) → Option Devt
from_parts none = none
from_parts (some (maj, min)) = both (parse_u64 maj) (parse_u64 min)

-- `major:minor`
abbrev pub devt_of : Bytes → Option Devt
devt_of s = from_parts (split_once 58 s)

abbrev pub with_devt : Bytes → Option Bytes → Option Devt → Option MountInfo
with_devt target source none = none
with_devt target source (some d) =
    some record { devt = d; target = unescape_proc_octal target; source = source }

-- the fields behind the `-`: the type and the source
abbrev with_tail : Bytes → Bytes → List Bytes → Option MountInfo
with_tail devt_str target_raw [] = none
with_tail devt_str target_raw (_fstype ∷ it) =
    with_devt target_raw (decoded (first it)) (devt_of devt_str)

unfoldable pub parse_fields : List Bytes → Option MountInfo
unfolding after_dash parse_u64 split_once unescape_proc_octal
parse_fields (_id ∷ _parent ∷ devt_str ∷ _root ∷ target_raw ∷ _mopts ∷ it) =
    with_tail devt_str target_raw (after_dash it)
parse_fields _ = none

unfoldable pub parse_mountinfo_line : Bytes → Option MountInfo
unfolding parse_fields split_on
parse_mountinfo_line line = parse_fields (split_on 32 line)

-- the lines that parse
unfoldable pub parsed : List Bytes → List MountInfo
unfolding parse_mountinfo_line
parsed [] = []
parsed (line ∷ rest) =
    let more = parsed rest in elim (parse_mountinfo_line line) [ none ↦ more | some mi ↦ mi ∷ more ]

abbrev pub by_source : TargetDevts → (Bytes → Option Devt) → Option Bytes → Bool
by_source target source_devt none = false
by_source target source_devt (some p) = elim (source_devt p) [
  | none ↦ false
  | some d ↦ contains target d
]

-- the test of one entry
abbrev pub on_target : TargetDevts → (Bytes → Option Devt) → MountInfo → Bool
on_target target source_devt mi = contains target mi.devt || by_source target source_devt mi.source

unfoldable pub select : TargetDevts → (Bytes → Option Devt) → List MountInfo → List MountInfo
unfolding contains
select target source_devt [] = []
select target source_devt (mi ∷ rest) =
    let more = select target source_devt rest in
    if on_target target source_devt mi then mi ∷ more else more

unfoldable pub filter_mountinfo : Bytes → TargetDevts → (Bytes → Option Devt) → List MountInfo
unfolding select parsed lines
filter_mountinfo text target source_devt = select target source_devt (parsed (lines text))

-- the best mount so far: its depth and its source
abbrev pub Best : Type 0
Best = Option (ℕ × Bytes)

abbrev pub deeper : Best → ℕ → Bool
deeper none depth = true
deeper (some (d, src)) depth = leb d depth

abbrev pub consider_source : Bytes → Best → MountInfo → Option Bytes → Best
consider_source path best mi none = best
consider_source path best mi (some src) =
    let depth = length (components mi.target) in
    if path_starts_with path mi.target
    then (if deeper best depth then some (depth, src) else best)
    else best

abbrev pub consider : Bytes → Best → MountInfo → Best
consider path best mi = consider_source path best mi mi.source

unfoldable pub scan : Bytes → Best → List MountInfo → Best
unfolding components path_starts_with
scan path best [] = best
scan path best (mi ∷ rest) = scan path (consider path best mi) rest

abbrev pub source_of : Best → Option Bytes
source_of none = none
source_of (some (d, src)) = some src

unfoldable pub source_of_longest_mount_prefix : Bytes → Bytes → Option Bytes
unfolding scan parsed lines
source_of_longest_mount_prefix text path = source_of (scan path none (parsed (lines text)))

abbrev pub under : Bytes → Bytes → Bool
under s root = bytes_eq s root || starts_with s (root ++ (47 ∷ []))

-- the target is valid UTF-8, so `to_str` returns it
unfoldable pub is_whitelisted : Bytes → Bool
unfolding bytes_eq starts_with
is_whitelisted s =
    under s (codes "/media") || (under s (codes "/run/media") || under s (codes "/var/run/media"))

unfoldable pub enforce_whitelist : List MountInfo → Bytes → Result Error (Unit {0})
unfolding is_whitelisted msg
enforce_whitelist [] dev_display = ok tt
enforce_whitelist (m ∷ mounts) dev_display =
    let rest = enforce_whitelist mounts dev_display in
    if is_whitelisted m.target
    then rest
    else err (msg (say "target is mounted outside the whitelist" [] (dev_display ∷ m.target ∷ [])))

unfoldable pub ensure_unmounted : List MountInfo → Bytes → Result Error (Unit {0})
unfolding msg
ensure_unmounted [] what = ok tt
ensure_unmounted (m ∷ mounts) what =
    err (msg (say "mount(s) remain; aborting" (length (m ∷ mounts) ∷ []) (what ∷ [])))

-- `final_verdict` of phase_7.rs
unfoldable pub final_verdict : List MountInfo → Result Error (Unit {0})
unfolding msg
final_verdict [] = ok tt
final_verdict (m ∷ still) = err (
    msg (
      say "device still has persistent mount(s) after 3 automount-defense passes"
        (length (m ∷ still) ∷ []) []))
