-- ===== src/Tests/Checks.antt =====
-- Phase 0, on a host where every check passes.
use imi.Common.{
  ◌≡◌, refl, Bytes, [], ◌∷◌, Bool, ◌||◌, codes, bytes_eq, if◌then◌else◌, Result, ok, err,
}
use imi.Error.{IoKind, not_found, untouched, context}
use imi.Config.{Config, new}
use imi.Exec.Ends.{Ends}
use imi.Host.{Host, Stat}
use imi.Preflight.{regular, block}
use imi.Preflight.Run.{preflight_run}
use imi.Preflight.Agreed.{Sound, preflight_run-Sound}
use imi.Strings.Chars.{trim_start, trim_end}
use imi.Tests.Files.{Listing, listing, is_file, contents_of}
use imi.Tests.Phases.{target}
use imi.Tests.Sim.{World, sim, blank}

abbrev stat_of : Bytes → World → Result IoKind Stat × World
stat_of p s =
    if bytes_eq p (codes "/tmp/image")
    then (ok record { format = regular; rdev = (0, 0); dev = (8, 1); ino = 12; len = 6 }, s)
    else if bytes_eq p (codes "/dev/sdb")
    then (ok record { format = block; rdev = (8, 16); dev = (0, 5); ino = 300; len = 0 }, s)
    else (err not_found, s)

abbrev link_of : Bytes → World → Result IoKind Bytes × World
link_of p s =
    if bytes_eq p (codes "/sys/dev/block/8:1")
    then (ok (codes "../../devices/sda/sda1"), s)
    else if bytes_eq p (codes "/sys/dev/block/8:16")
    then (ok (codes "../../devices/sdb"), s)
    else (err not_found, s)

abbrev entries_of : Bytes → Listing
entries_of p =
    if bytes_eq p (codes "/sys/class/block")
    then ok (ok (codes "sda") ∷ ok (codes "sda1") ∷ ok (codes "sdb") ∷ ok (codes "sdb1") ∷ [])
    else listing p

abbrev there : Bytes → Bool
there p =
    is_file p
    || bytes_eq p (codes "/sys/class/block/sdb")
    || bytes_eq p (codes "/sys/class/block/sdb/device")

abbrev plugged : Host
plugged = record (sim 8) {
  stat = stat_of;
  read_link = link_of;
  read_dir = λ p s. (entries_of p, s);
  exists = λ p s. (there p, s);
  read_magic = λ p s. (ok [], s);
}

abbrev config : Config
config = new (codes "/tmp/image") (codes "/dev/sdb")

preflight_run-Sound_example :
    Ends
      (λ t _. Sound plugged 5 2 config t)
      (λ e _. e.device ≡ untouched)
      (preflight_run plugged 5 2 config blank)
preflight_run-Sound_example = preflight_run-Sound plugged 5 2 config blank

-- the stick is described
describes_stick : (preflight_run plugged 5 2 config blank).0 ≡ ok target
unfolding preflight_run listing is_file new trim_end trim_start contents_of context
describes_stick = refl
