-- ===== src/Devices.antt =====
-- The disks that a picker may offer: crates/imi-core/src/common/devices.rs.
pub mod Laws
use imi.Common.{
  ℕ, Bytes, List, [], ◌∷◌, ◌++◌, Option, none, some, Bool, true, false, ◌&&◌, ◌||◌, not,
  if◌then◌else◌, codes, starts_with, Result, ok, err,
}
use imi.Error.{Error, text}
use imi.Exec.{Exec, pure, call, within, get, ◌>>=◌}
use imi.Host.{Host}
use imi.Mount.{MountInfo, TargetDevts, is_whitelisted}
use imi.Mount.Scan.{from_disk, mounts_in_text, proc_self_mountinfo}
use imi.Sysfs.{device_model, size_bytes as disk_size, removable as is_removable}
use imi.Sysfs.Names.{all_disk_knames, holders_recursive}

pub record CandidateDevice : Type 0 where
  pub path : Bytes
  pub kname : Bytes
  pub size_bytes : ℕ
  pub model : Option (List ℕ)
  pub removable : Bool

abbrev pub virtual_prefixes : List Bytes
virtual_prefixes =
    codes "loop"
    ∷ codes "ram"
    ∷ codes "zram"
    ∷ codes "dm-"
    ∷ codes "md"
    ∷ codes "sr"
    ∷ codes "fd"
    ∷ codes "nbd"
    ∷ []

abbrev pub any_prefix : Bytes → List Bytes → Bool
any_prefix kname [] = false
any_prefix kname (p ∷ ps) = starts_with kname p || any_prefix kname ps

unfoldable pub is_virtual : Bytes → Bool
unfolding starts_with
is_virtual kname = any_prefix kname virtual_prefixes

unfoldable pub all_whitelisted : List MountInfo → Bool
unfolding is_whitelisted
all_whitelisted [] = true
all_whitelisted (m ∷ ms) = is_whitelisted m.target && all_whitelisted ms

-- what is asked of each disk
pub record DiskProbes (World : Type 0) : Type 0 where
  pub size_bytes : Bytes → World → Option ℕ × World
  pub holders : Bytes → Exec World (List Bytes)
  pub devts : Bytes → Exec World TargetDevts
  pub model : Bytes → World → Option (List ℕ) × World
  pub removable : Bytes → World → Bool × World

-- in front of the first that may not come before it
unfoldable pub place : CandidateDevice → List CandidateDevice → List CandidateDevice
place c [] = c ∷ []
place c (d ∷ ds) =
    let rest = place c ds in if c.removable || not d.removable then c ∷ d ∷ ds else d ∷ rest

-- the stable sort by `!removable`
unfoldable pub order_for_display : List CandidateDevice → List CandidateDevice
unfolding place
order_for_display [] = []
order_for_display (c ∷ cs) = place c (order_for_display cs)

abbrev pub kept : Option CandidateDevice → List CandidateDevice → List CandidateDevice
kept none cs = cs
kept (some c) cs = c ∷ cs

module _ (h : Host) where
  open h use {World, read_to_string}

  -- `DiskProbes::real`, with the fuel of the walk over holders
  abbrev pub real : ℕ → DiskProbes World
  real fuel = record {
    size_bytes = disk_size h;
    holders = holders_recursive h fuel;
    devts = from_disk h;
    model = device_model h;
    removable = is_removable h;
  }

  module _ (mountinfo : Bytes) (probes : DiskProbes World) where
    abbrev pub candidate : Bytes → ℕ → World → Option CandidateDevice × World
    candidate kname n s =
        let (m, s₁) = probes.model kname s in
        let (r, s₂) = probes.removable kname s₁ in
        (
          some record {
            path = codes "/dev/" ++ kname;
            kname = kname;
            size_bytes = n;
            model = m;
            removable = r;
          },
          s₂,
        )

    abbrev pub on_table : Bytes → ℕ → List MountInfo × World → Option CandidateDevice × World
    on_table kname n (mounts, s) =
        if not (all_whitelisted mounts) then (none, s) else candidate kname n s

    abbrev pub on_devts :
        Bytes → ℕ → Result Error TargetDevts × World → Option CandidateDevice × World
    on_devts kname n (err e, s) = (none, s)
    on_devts kname n (ok ds, s) = on_table kname n (mounts_in_text h mountinfo ds s)

    abbrev pub on_holders :
        Bytes → ℕ → Result Error (List Bytes) × World → Option CandidateDevice × World
    on_holders kname n (err e, s) = (none, s)
    on_holders kname n (ok (x ∷ xs), s) = (none, s)
    on_holders kname n (ok [], s) = on_devts kname n (probes.devts kname s)

    abbrev pub on_size : Bytes → Option ℕ × World → Option CandidateDevice × World
    on_size kname (none, s) = (none, s)
    on_size kname (some n, s) = on_holders kname n (probes.holders kname s)

    -- the body of the loop: the candidate, unless the disk is skipped
    unfoldable pub consider : Bytes → World → Option CandidateDevice × World
    unfolding is_virtual mounts_in_text all_whitelisted
    consider kname s =
        if is_virtual kname then (none, s) else on_size kname (probes.size_bytes kname s)

    unfoldable pub consider_each : List Bytes → World → List CandidateDevice × World
    unfolding consider
    consider_each [] s = ([], s)
    consider_each (kname ∷ knames) s =
        let (c, s₁) = consider kname s in let (cs, s₂) = consider_each knames s₁ in (kept c cs, s₂)

    unfoldable pub candidates_from_parts : List Bytes → World → List CandidateDevice × World
    unfolding consider_each order_for_display
    candidates_from_parts knames s =
        let (cs, s') = consider_each knames s in (order_for_display cs, s')

  unfoldable pub candidate_devices : ℕ → Exec World (List CandidateDevice)
  unfolding candidates_from_parts all_disk_knames holders_recursive from_disk device_model disk_size
      is_removable
  candidate_devices fuel = do
    knames ← within (text "enumerating /sys/block") (all_disk_knames h)
    mountinfo ←
        call (text "read /proc/self/mountinfo for the candidate filter")
          (read_to_string proc_self_mountinfo)
    get (candidates_from_parts mountinfo (real fuel) knames)
