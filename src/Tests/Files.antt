-- ===== src/Tests/Files.antt =====
-- The files under /sys and /proc of the simulated host: a disk `sdb` with one partition, and a disk
-- `sdc` below two device-mapper volumes.
use imi.Common.{Bytes, List, [], ◌∷◌, Bool, codes, bytes_eq, if◌then◌else◌, Result, ok, err}
use imi.Error.{IoKind, not_found}

abbrev pub Listing : Type 0
Listing = Result IoKind (List (Result IoKind Bytes))

abbrev pub above_sdc : List (Result IoKind Bytes)
above_sdc = ok (codes "dm-0") ∷ []

abbrev pub above_dm_0 : List (Result IoKind Bytes)
above_dm_0 = ok (codes "dm-1") ∷ ok (codes "dm-0") ∷ []

abbrev pub in_sdb : List (Result IoKind Bytes)
in_sdb = ok (codes "holders") ∷ ok (codes "sdb1") ∷ []

unfoldable pub listing : Bytes → Listing
unfolding bytes_eq
listing p =
    if bytes_eq p (codes "/sys/class/block/sdb")
    then ok in_sdb
    else if bytes_eq p (codes "/sys/class/block/sdc/holders")
    then ok above_sdc
    else if bytes_eq p (codes "/sys/class/block/dm-0/holders")
    then ok above_dm_0
    else err not_found

unfoldable pub contents_of : Bytes → Bytes → Result IoKind Bytes
unfolding bytes_eq
contents_of table p =
    if bytes_eq p (codes "/proc/self/mountinfo")
    then ok table
    else if bytes_eq p (codes "/sys/class/block/sdb/dev")
    then ok (codes "8:16\n")
    else if bytes_eq p (codes "/sys/class/block/sdb1/dev")
    then ok (codes "8:17\n")
    else if bytes_eq p (codes "/sys/class/block/sdb/device/model")
    then ok (codes "Stick\n")
    else err not_found

unfoldable pub is_file : Bytes → Bool
unfolding bytes_eq
is_file p = bytes_eq p (codes "/sys/class/block/sdb/sdb1/partition")
