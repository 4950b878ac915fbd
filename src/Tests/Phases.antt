-- ===== src/Tests/Phases.antt =====
-- Phases 1, 2 and 7 and the walk over holders, on the simulated host.
use imi.Common.{
  ◌≡◌, ◌≢◌, refl, sym, arith, Bytes, List, [], ◌∷◌, none, some, Bool, true, false, codes, bytes_eq,
  Result, ok, err, if◌then◌else◌,
}
use mathlib.Core.List.{Memᴰ}
use mathlib.Core.List.Memᴰ
use mathlib.Core.Path.{subst}
use imi.Error.{out_of_fuel, untouched, written, IoKind, not_found, context_io}
use imi.Events.{raw, automount, topology, claim, completed, failed, phase_finished}
use imi.Exec.Ends.{Ends}
use imi.Host.Spare.{Looks}
use imi.Identity.{DeviceIdentity}
use imi.Mount.Scan.{mounts_on_target}
use imi.Session.{Target}
use imi.Sysfs.Names.{member, holders_dir, holders_recursive}
use imi.Sysfs.Holders.{AllHolders, holders_recursive-AllHolders}
use imi.Automount.{automount_run}
use imi.Automount.Laws.{Unmounted, automount_run-Unmounted}
use imi.Topology.{topology_run}
use imi.Topology.Laws.{topology_run-Spared}
use imi.Claim.{claim_run}
use imi.Claim.Laws.{Claimed, LetGo, claim_run-Claimed}
use imi.Strings.Chars.{trim_start, trim_end}
use imi.Tests.Files.{is_file, contents_of, Listing, listing, above_sdc, above_dm_0, in_sdb}
use imi.Tests.Sim.{World, sim, sim_clock, blank}

abbrev volumes : List Bytes
volumes = codes "dm-0" ∷ codes "dm-1" ∷ codes "holders" ∷ codes "sdb1" ∷ []

same_name : {x y : Bytes} → ◌≡◌ {A = Result IoKind Bytes} (ok x) (ok y) → x ≡ y
same_name e = cc

known :
    (x n : Bytes)
    → ◌≡◌ {A = Result IoKind Bytes} (ok x) (ok n)
    → member n volumes ≡ true
    → member x volumes ≡ true
known x n e m = subst (λ t. member t volumes ≡ true) (sym (same_name e)) m

in_sdb_known : (x : Bytes) → Memᴰ (ok x) in_sdb → member x volumes ≡ true
unfolding member
in_sdb_known x (Memᴰ.head e) = known x (codes "holders") e refl
in_sdb_known x (Memᴰ.tail (Memᴰ.head e)) = known x (codes "sdb1") e refl
in_sdb_known x (Memᴰ.tail (Memᴰ.tail m)) = absurd (Memᴰ.not-nil m)

above_sdc_known : (x : Bytes) → Memᴰ (ok x) above_sdc → member x volumes ≡ true
unfolding member
above_sdc_known x (Memᴰ.head e) = known x (codes "dm-0") e refl
above_sdc_known x (Memᴰ.tail m) = absurd (Memᴰ.not-nil m)

above_dm_0_known : (x : Bytes) → Memᴰ (ok x) above_dm_0 → member x volumes ≡ true
unfolding member
above_dm_0_known x (Memᴰ.head e) = known x (codes "dm-1") e refl
above_dm_0_known x (Memᴰ.tail (Memᴰ.head e)) = known x (codes "dm-0") e refl
above_dm_0_known x (Memᴰ.tail (Memᴰ.tail m)) = absurd (Memᴰ.not-nil m)

same_listing : {xs ys : List (Result IoKind Bytes)} → ◌≡◌ {A = Listing} (ok xs) (ok ys) → ys ≡ xs
same_listing e = cc

above_known :
    (entries : List (Result IoKind Bytes)) (p x : Bytes)
    → listing p ≡ ok entries
    → Memᴰ (ok x) entries
    → member x volumes ≡ true
unfolding listing
above_known entries p x e m =
    go (bytes_eq p (codes "/sys/class/block/sdb"))
      (bytes_eq p (codes "/sys/class/block/sdc/holders"))
      (bytes_eq p (codes "/sys/class/block/dm-0/holders")) e
  where
    in_list :
        {es : List (Result IoKind Bytes)} → ◌≡◌ {A = Listing} (ok es) (ok entries) → Memᴰ (ok x) es
    in_list q = subst (Memᴰ (ok x)) (same_listing q) m

    go :
        (a b c : Bool)
        → (if a
            then ok in_sdb
            else if b
            then ok above_sdc
            else if c
            then ok above_dm_0
            else err not_found)
          ≡ ok entries
        → member x volumes ≡ true
    go true b c q = in_sdb_known x (in_list q)
    go false true c q = above_sdc_known x (in_list q)
    go false false true q = above_dm_0_known x (in_list q)
    go false false false q = cc

holders_recursive-AllHolders_example :
    Ends
      (λ names _. AllHolders (sim 8) listing (codes "sdc") names)
      (λ e _. e.detail ≢ out_of_fuel)
      (holders_recursive (sim 8) 5 (codes "sdc") blank)
holders_recursive-AllHolders_example =
    holders_recursive-AllHolders (sim 8) listing volumes 5 (codes "sdc") blank (λ p s. refl)
      (λ k x q. above_known q.0 (holders_dir k) x q.1 q.2) (omega arith)

abbrev stick : DeviceIdentity
stick = record {
  rdev = (8, 16);
  model = some (codes "Stick");
  size = 8;
  wwid = none;
  serial = none;
}

abbrev pub target : Target
target = record {
  img_canon = codes "/tmp/image";
  dev_canon = codes "/dev/sdb";
  dev_kname = codes "sdb";
  comp = raw;
  raw_size = some 6;
  dev_size = 8;
  identity = stick;
}

-- the partition of `sdb` is mounted
abbrev mounted : World
mounted = record blank { table = codes "36 35 8:17 / /media/usb rw - vfat /dev/sdb1 rw\n" }

automount_run-Unmounted_example :
    Ends
      (λ _ s'.
        (s₁ : World) × Unmounted (sim 8) (sim_clock 8) target.dev_kname mounted s₁
        × (s' ≡ (sim 8).emit (phase_finished automount completed) s₁))
      (λ e _. e.device ≡ written)
      (automount_run (sim 8) target mounted)
automount_run-Unmounted_example = automount_run-Unmounted (sim 8) (sim_clock 8) target mounted

-- the clock stands still
abbrev Noon : World → Type 0
Noon s = s.time ≡ 0

looks : Looks (sim 8) Noon
looks = record {
  emit_P = λ e s p. p;
  read_P = λ q s p. p;
  dir_P = λ q s p. p;
  stat_P = λ q s p. p;
  exists_P = λ q s p. p;
}

topology_run-Spared_example :
    Ends
      (λ devts s'.
        (s'.time ≡ 0)
        × (s₀ s₁ : World) × (mounts_on_target (sim 8) devts s₀ ≡ (ok [], s₁))
        × (s' ≡ (sim 8).emit (phase_finished topology completed) s₁))
      (λ e s'. (s'.time ≡ 0) × (e.device ≡ untouched))
      (topology_run (sim 8) 5 target mounted)
topology_run-Spared_example =
    topology_run-Spared (sim 8) Noon 5 target mounted
      record { looks = looks; umount_P = λ q s w p. p; swapoff_P = λ q s p. p } refl

claim_run-Claimed_example :
    Ends
      (λ session _. Claimed (sim 8) 5 target session)
      (λ e s'.
        (e.device ≡ untouched)
        × (s₁ : World) × LetGo (sim 8) 5 target s₁
        × (s' ≡ (sim 8).emit (phase_finished claim failed) s₁))
      (claim_run (sim 8) 5 target ((8, 16) ∷ (8, 17) ∷ []) blank)
claim_run-Claimed_example = claim_run-Claimed (sim 8) 5 target ((8, 16) ∷ (8, 17) ∷ []) blank

holders_of_sdc :
    (holders_recursive (sim 8) 5 (codes "sdc") blank).0 ≡ ok (codes "dm-1" ∷ codes "dm-0" ∷ [])
unfolding holders_recursive listing member
holders_of_sdc = refl

-- the one mount of the partition is found and taken away
clears_sdb : (topology_run (sim 8) 5 target mounted).0 ≡ ok ((8, 17) ∷ (8, 16) ∷ [])
unfolding topology_run listing context_io is_file contents_of trim_end trim_start
clears_sdb = refl
