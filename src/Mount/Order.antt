-- ===== src/Mount/Order.antt =====
-- The order of unmounting, and the device-mapper holders: `deepest_first`, `DmHolderKind`,
-- `classify_dm_uuid`.
pub mod Laws
use imi.Common.{
  ℕ, Bytes, List, [], ◌∷◌, Bool, true, false, ◌&&◌, not, leb, length, codes, bytes_eq, strip_prefix,
  Option, none, some, if◌then◌else◌,
}
use imi.Strings.{split_once, is_ascii_digit}
use imi.Mount.{MountInfo}

-- a stable insertion: in front of what is not longer
unfoldable pub insert : MountInfo → List MountInfo → List MountInfo
insert m [] = m ∷ []
insert m (x ∷ xs) =
    let rest = insert m xs in
    if leb (length x.target) (length m.target) then m ∷ x ∷ xs else x ∷ rest

-- the stable sort by the length of the target, longest first
unfoldable pub deepest_first : List MountInfo → List MountInfo
unfolding insert
deepest_first [] = []
deepest_first (m ∷ ms) = insert m (deepest_first ms)

pub data DmHolderKind : Type 0 where
  lvm crypt mpath dm_raid synthetic unknown : DmHolderKind

unfoldable pub is_live_data : DmHolderKind → Bool
is_live_data synthetic = false
is_live_data _ = true

abbrev pub all_digits : Bytes → Bool
all_digits [] = true
all_digits (c ∷ cs) = is_ascii_digit c && all_digits cs

abbrev pub nonempty : Bytes → Bool
nonempty [] = false
nonempty (c ∷ cs) = true

-- the text before the first `-`
abbrev pub uuid_prefix : Bytes → Option (Bytes × Bytes) → Bytes
uuid_prefix uuid none = uuid
uuid_prefix uuid (some (p, _)) = p

abbrev pub is_part : Option Bytes → Bool
is_part none = false
is_part (some ds) = nonempty ds && all_digits ds

-- the `match` on the prefix
abbrev pub by_name : Bytes → DmHolderKind
by_name prefix =
    if bytes_eq prefix (codes "LVM")
    then lvm
    else if bytes_eq prefix (codes "CRYPT")
    then crypt
    else if bytes_eq prefix (codes "mpath")
    then mpath
    else if bytes_eq prefix (codes "DMRAID")
    then dm_raid
    else unknown

abbrev pub by_prefix : Bytes → DmHolderKind
by_prefix prefix =
    if is_part (strip_prefix (codes "part") prefix) then synthetic else by_name prefix

unfoldable pub classify_dm_uuid : Bytes → DmHolderKind
unfolding strip_prefix bytes_eq split_once
classify_dm_uuid uuid = by_prefix (uuid_prefix uuid (split_once 45 uuid))
