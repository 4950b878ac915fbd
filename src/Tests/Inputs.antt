-- ===== src/Tests/Inputs.antt =====
-- The checks of the inputs, the image formats, the device's identity, and the start of the wipe.
use imi.Common.{ℕ, ◌≡◌, ◌↔◌, refl, Bytes, List, [], ◌∷◌, ◌++◌, none, some, false, codes, take, ok}
use imi.Error.{interrupted}
use imi.Events.{raw, xz, Summary}
use imi.Exec.Ends.{Ends}
use imi.Host.{Read, bytes, fails}
use imi.Config.{Config}
use imi.Image.{stream, failure}
use imi.Image.Magic.{classify, unsupported_archive, read_full_best_effort}
use imi.Image.Magic.Formats.{
  magic_of, classify_iff, unsupported_archive-raw, read_full_best_effort-take,
}
use imi.Identity.{DeviceIdentity}
use imi.Identity.Laws.{Passes, Passes-iff}
use imi.Session.{Target, Session}
use imi.Wipe.{tail_wipe_offset}
use imi.Wipe.Run.{Armed, Told, wipe_run, wipe_run_lem}
use imi.Preflight.{ensure_device_large_enough}
use imi.Preflight.Laws.{passed, ensure_device_large_enough_iff}
use imi.Tests.Sim.{sim, sim_disk, blank}

abbrev xz_file : Bytes
xz_file = 253 ∷ 55 ∷ 122 ∷ 88 ∷ 90 ∷ 0 ∷ 0 ∷ 4 ∷ []

classify_iff_example : (classify xz_file ≡ xz) ↔ ((rest : Bytes) × (xz_file ≡ magic_of xz ++ rest))
classify_iff_example = classify_iff xz_file xz (λ e. cc)

abbrev zip_file : Bytes
zip_file = 80 ∷ 75 ∷ 3 ∷ 4 ∷ 20 ∷ []

zip_refused : unsupported_archive zip_file ≡ some "zip"
unfolding unsupported_archive
zip_refused = refl

unsupported_archive-raw_example : classify zip_file ≡ raw
unsupported_archive-raw_example = unsupported_archive-raw zip_file "zip" zip_refused

abbrev two_reads : List Read
two_reads = bytes (253 ∷ 55 ∷ []) ∷ fails interrupted ∷ bytes (122 ∷ []) ∷ []

reads_end : failure two_reads ≡ none
unfolding failure
reads_end = refl

read_full_best_effort-take_example :
    read_full_best_effort two_reads 8 ≡ ok (take 8 (stream two_reads))
read_full_best_effort-take_example = read_full_best_effort-take two_reads 8 reads_end

abbrev stick : DeviceIdentity
stick = record {
  rdev = (8, 16);
  model = some (codes "Ultra");
  size = 64;
  wwid = none;
  serial = some (codes "7");
}

Passes-iff_example :
    Passes stick (record stick { serial = none }) ↔ (record stick { serial = none } ≡ stick)
Passes-iff_example = Passes-iff stick (record stick { serial = none })

abbrev target : Target
target = record {
  img_canon = codes "/a.img";
  dev_canon = codes "/dev/sdb";
  dev_kname = codes "sdb";
  comp = raw;
  raw_size = some 6;
  dev_size = 8;
  identity = stick;
}

abbrev session : Session
session = record { guard = record { dev_path = codes "/dev/sdb"; phase = 0 }; target = target }

wipe_run_lem_example :
    Ends
      (Armed (sim 8) (sim_disk 8) 2 (λ i. 7) session)
      (Told (sim 8) (sim_disk 8) 2 (λ i. 7) session)
      (wipe_run (sim 8) 2 session (record blank { contents = λ i. 7 }))
wipe_run_lem_example =
    wipe_run_lem (sim 8) (sim_disk 8) 2 (λ i. 7) session (record blank { contents = λ i. 7 })
      (λ i. refl)

ensure_device_large_enough_iff_example :
    (ensure_device_large_enough 2 8 ≡ passed) ↔ ((t : ℕ) × (tail_wipe_offset 2 8 ≡ some t))
ensure_device_large_enough_iff_example = ensure_device_large_enough_iff 2 8

abbrev config : Config
config = record {
  img = codes "/a.img";
  dev = codes "/dev/sdb";
  yes = false;
  throttle = none;
  skip_cooldown = false;
  skip_verification = false;
  cooldown_secs = none;
}

abbrev summary : Summary
summary = record {
  device = codes "/dev/sdb";
  model = none;
  device_size = 8;
  image = codes "/a.img";
  compression = raw;
  raw_image_size = some 6;
}
