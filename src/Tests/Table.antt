-- ===== src/Tests/Table.antt =====
-- A line of a mount table, and the rules for what may be torn down.
use imi.Common.{
  ℕ, ◌≡◌, ◌↔◌, ◌⊎◌, refl, arith, Bytes, List, [], ◌∷◌, ◌++◌, none, some, true, false, codes,
}
use mathlib.Core.List.{Perm}
use imi.Strings.{lines, split_once, parse_u64}
use imi.Strings.Utf8.{from_utf8_lossy}
use imi.Strings.Split.{Free, Free-of_test, is_free}
use imi.Mount.Octal.{mangle, unescape_proc_octal}
use imi.Mount.Unescape.{unescape_proc_octal-mangle}
use imi.Mount.{
  MountInfo, Best, parsed, parse_mountinfo_line, source_of, source_of_longest_mount_prefix,
  is_whitelisted, enforce_whitelist,
}
use imi.Mount.Table.{Line, Legal, render, parse_mountinfo_line-render}
use imi.Mount.Deepest.{Found, source_of_longest_mount_prefix-Found}
use imi.Mount.Guards.{AtOrBelow, is_whitelisted_iff, Enforced, enforce_whitelist-Enforced}
use imi.Mount.Order.{deepest_first, is_live_data, classify_dm_uuid, uuid_prefix}
use imi.Exec.Ends.{Ends}
use imi.Mount.Detach.{unmount_all}
use imi.Mount.Teardown.{Unmounts, Refused, unmount_all-Unmounts}
use imi.Tests.Sim.{sim, blank}
use imi.Mount.Order.Laws.{Descending, PartName, classify_dm_uuid_iff}

abbrev stick : Line
stick = record {
  id = codes "36";
  parent = codes "35";
  major = codes "8";
  minor = codes "17";
  root = codes "/";
  target = codes "/media/my disk";
  options = codes "rw,noatime";
  tags = codes "master:1" ∷ [];
  fstype = codes "vfat";
  source = codes "/dev/sdb1";
  super_options = codes "rw";
}

free : (sep : ℕ) (bs : Bytes) → is_free sep bs ≡ true → Free sep bs
free sep bs h = Free-of_test sep bs h

stick_line :
    render stick ≡ codes "36 35 8:17 / /media/my\\040disk rw,noatime master:1 - vfat /dev/sdb1 rw"
unfolding mangle
stick_line = refl

stick-Legal : Legal stick (8, 17)
unfolding is_free parse_u64 from_utf8_lossy
stick-Legal = record {
  id_free = free 32 stick.id refl;
  parent_free = free 32 stick.parent refl;
  devt_free = free 32 (stick.major ++ (58 ∷ stick.minor)) refl;
  root_free = free 32 stick.root refl;
  options_free = free 32 stick.options refl;
  tags_free = (free 32 (codes "master:1") refl, tt);
  no_dash = ((λ e. ground arith), tt);
  fstype_free = free 32 stick.fstype refl;
  super_free = free 32 stick.super_options refl;
  major_free = free 58 stick.major refl;
  major_is = refl;
  minor_is = refl;
  target_utf8 = refl;
  source_utf8 = refl;
}

parse_mountinfo_line-render_example :
    parse_mountinfo_line (render stick)
    ≡ some record {
      devt = (8, 17);
      target = codes "/media/my disk";
      source = some (codes "/dev/sdb1");
    }
parse_mountinfo_line-render_example = parse_mountinfo_line-render stick (8, 17) stick-Legal

blank_and_slash : from_utf8_lossy (codes "a b\\") ≡ codes "a b\\"
unfolding from_utf8_lossy
blank_and_slash = refl

unescape_proc_octal-mangle_example : unescape_proc_octal (mangle (codes "a b\\")) ≡ codes "a b\\"
unescape_proc_octal-mangle_example = unescape_proc_octal-mangle (codes "a b\\") blank_and_slash

source_of_longest_mount_prefix-Found_example :
    (best : Best) × (source_of_longest_mount_prefix (render stick) (codes "/media/my disk/a.iso")
      ≡ source_of best)
    × Found (codes "/media/my disk/a.iso") (parsed (lines (render stick))) best
source_of_longest_mount_prefix-Found_example =
    source_of_longest_mount_prefix-Found (render stick) (codes "/media/my disk/a.iso")

is_whitelisted_iff_example : (is_whitelisted (codes "/media-user/x") ≡ true) ↔ (
    AtOrBelow (codes "/media") (codes "/media-user/x")
    ⊎ (AtOrBelow (codes "/run/media") (codes "/media-user/x")
        ⊎ AtOrBelow (codes "/var/run/media") (codes "/media-user/x")))
is_whitelisted_iff_example = is_whitelisted_iff (codes "/media-user/x")

abbrev mount_at : Bytes → MountInfo
mount_at target = record { devt = (8, 17); target = target; source = none }

abbrev two_mounts : List MountInfo
two_mounts = mount_at (codes "/media/a") ∷ mount_at (codes "/media/a/b") ∷ []

enforce_whitelist-Enforced_example :
    Enforced two_mounts (codes "/dev/sdb") (enforce_whitelist two_mounts (codes "/dev/sdb"))
enforce_whitelist-Enforced_example = enforce_whitelist-Enforced two_mounts (codes "/dev/sdb")

deepest_first_two :
    deepest_first two_mounts ≡ mount_at (codes "/media/a/b") ∷ mount_at (codes "/media/a") ∷ []
unfolding deepest_first
deepest_first_two = refl

unmount_all-Unmounts_example :
    (l : List MountInfo) × Perm l two_mounts
    × Descending l
    × Ends
        (λ _ s'. Unmounts (sim 8) l blank s')
        (λ e s'. Refused (sim 8) l blank e s')
        (unmount_all (sim 8) two_mounts blank)
unmount_all-Unmounts_example = unmount_all-Unmounts (sim 8) two_mounts blank

classify_dm_uuid_iff_example :
    (is_live_data (classify_dm_uuid (codes "part1-mpath-x")) ≡ false)
    ↔ PartName (uuid_prefix (codes "part1-mpath-x") (split_once 45 (codes "part1-mpath-x")))
classify_dm_uuid_iff_example = classify_dm_uuid_iff (codes "part1-mpath-x")
