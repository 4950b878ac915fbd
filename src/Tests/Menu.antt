-- ===== src/Tests/Menu.antt =====
-- The list of candidates, for three disks of which one holds the root file system.
use imi.Common.{
  ◌≡◌, refl, Bytes, List, [], ◌∷◌, ◌++◌, none, some, true, false, codes, bytes_eq, starts_with,
  if◌then◌else◌, ok,
}
use imi.Mount.{TargetDevts}
use imi.Devices.{CandidateDevice, DiskProbes, candidates_from_parts}
use imi.Devices.Laws.{Sifted, flagged, candidates_from_parts-Sifted}
use imi.Tests.Sim.{World, sim, blank}

abbrev disks : List Bytes
disks = codes "loop0" ∷ codes "nvme0n1" ∷ codes "sda" ∷ codes "sdb" ∷ []

abbrev table : Bytes
table =
    codes "22 1 8:1 / / rw - ext4 /dev/sda1 rw\n36 22 8:17 / /media/usb rw - vfat /dev/sdb1 rw\n"

abbrev devts_of : Bytes → TargetDevts
devts_of k =
    if bytes_eq k (codes "sda")
    then (8, 1) ∷ []
    else if bytes_eq k (codes "sdb")
    then (8, 17) ∷ []
    else []

abbrev probes : DiskProbes World
probes = record {
  size_bytes = λ k s. (some 512, s);
  holders = λ k s. (ok [], s);
  devts = λ k s. (ok (devts_of k), s);
  model = λ k s. (none, s);
  removable = λ k s. (bytes_eq k (codes "sdb"), s);
}

candidates_from_parts-Sifted_example :
    (cs : List CandidateDevice) × Sifted (sim 8) table probes disks cs
    × ((candidates_from_parts (sim 8) table probes disks blank).0
        ≡ flagged true cs ++ flagged false cs)
candidates_from_parts-Sifted_example = candidates_from_parts-Sifted (sim 8) table probes disks blank

abbrev knames_of : List CandidateDevice → List Bytes
knames_of [] = []
knames_of (c ∷ cs) = c.kname ∷ knames_of cs

offers :
    knames_of (candidates_from_parts (sim 8) table probes disks blank).0
    ≡ codes "sdb" ∷ codes "nvme0n1" ∷ []
unfolding candidates_from_parts bytes_eq starts_with
offers = refl
