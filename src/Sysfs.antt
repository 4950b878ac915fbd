-- ===== src/Sysfs.antt =====
-- The lookups under /sys of crates/imi-core/src/common/sysfs.rs. A string that a device reports is
-- the list of its code points.
pub mod Names
pub mod Members
pub mod Holders
use imi.Common.{
  ℕ, zero, suc, ◌+◌, ◌*◌, ◌^◌, Bytes, List, [], ◌∷◌, ◌++◌, Option, none, some, Bool, true, false,
  ◌&&◌, ◌||◌, not, ltb, leb, ◌==◌, if◌then◌else◌, codes, bytes_eq, strip_prefix, take, Result, ok,
  err,
}
use imi.Error.{Error, IoKind, not_found, text, say, msg, out_of_fuel}
use imi.Exec.{Exec, pure, raise, lift, call, get, ◌>>=◌, ◌>>◌}
use imi.Host.{Host, Devt, Stat}
use imi.Strings.{split_on, parse_u64}
use imi.Strings.Utf8.{is_utf8}
use imi.Strings.Chars.{chars, trim, is_control}

abbrev pub sys_class_block : Bytes
sys_class_block = codes "/sys/class/block"

abbrev pub sys_dev_block : Bytes
sys_dev_block = codes "/sys/dev/block"

-- `{root}/{name}`
abbrev pub in_dir : Bytes → Bytes → Bytes
in_dir root name = root ++ (47 ∷ name)

-- the attribute of a kernel name
abbrev pub attribute : Bytes → Bytes → Bytes → Bytes
attribute root kname attr = in_dir (in_dir root kname) attr

-- `<` of two strings
unfoldable pub bytes_lt : Bytes → Bytes → Bool
bytes_lt xs [] = false
bytes_lt [] (y ∷ ys) = true
bytes_lt (x ∷ xs) (y ∷ ys) = ltb x y || (x == y && bytes_lt xs ys)

unfoldable pub insert_name : Bytes → List Bytes → List Bytes
unfolding bytes_lt
insert_name x [] = x ∷ []
insert_name x (y ∷ ys) =
    let rest = insert_name x ys in if bytes_lt y x then y ∷ rest else x ∷ y ∷ ys

-- `Vec::sort`
unfoldable pub sort : List Bytes → List Bytes
unfolding insert_name
sort [] = []
sort (x ∷ xs) = insert_name x (sort xs)

-- `.ok()`
abbrev pub ok_of : {A : Type 0} → Result IoKind A → Option A
ok_of (ok a) = some a
ok_of (err k) = none

abbrev pub map_option : {A B : Type 0} → (A → B) → Option A → Option B
map_option f none = none
map_option f (some a) = some (f a)

abbrev pub nonempty_text : Option (List ℕ) → Option (List ℕ)
nonempty_text (some []) = none
nonempty_text o = o

abbrev replaced : List ℕ → List ℕ
replaced [] = []
replaced (c ∷ cs) = (if is_control c then 0xfffd else c) ∷ replaced cs

unfoldable pub sanitise_model : Bytes → List ℕ
unfolding chars
sanitise_model raw = take 64 (replaced (trim (chars raw)))

-- `sectors.checked_mul(512).filter(|&b| b > 0)`
abbrev pub bytes_of_sectors : Option ℕ → Option ℕ
bytes_of_sectors none = none
bytes_of_sectors (some n) =
    if ltb (n * 512) (2 ^ 64) && ltb 0 (n * 512) then some (n * 512) else none

-- `s.strip_suffix(" (deleted)").unwrap_or(s)`
unfoldable pub strip_deleted_suffix : Bytes → Bytes
unfolding bytes_eq
strip_deleted_suffix [] = []
strip_deleted_suffix (c ∷ cs) =
    let rest = strip_deleted_suffix cs in
    if bytes_eq (c ∷ cs) (codes " (deleted)") then [] else c ∷ rest

-- `trim_end_matches('\n')`
abbrev keep_line : ℕ → Bytes → Bytes
keep_line c [] = if c == 10 then [] else c ∷ []
keep_line c (d ∷ ds) = c ∷ d ∷ ds

unfoldable pub trim_newlines : Bytes → Bytes
trim_newlines [] = []
trim_newlines (c ∷ cs) = keep_line c (trim_newlines cs)

abbrev nonempty_path : Bytes → Option Bytes
nonempty_path [] = none
nonempty_path (c ∷ cs) = some (c ∷ cs)

abbrev backing_of : Option Bytes → Option Bytes
backing_of none = none
backing_of (some raw) = nonempty_path (strip_deleted_suffix (trim_newlines raw))

module _ (h : Host) where
  open h use {World, read_to_string, read_dir, read_link, exists as path_exists, stat}

  -- `fs::read_to_string(p).ok()`
  abbrev pub read_ok : Bytes → World → Option Bytes × World
  read_ok p s = let (r, s') = read_to_string p s in (ok_of r, s')

  unfoldable pub is_partition : Bytes → World → Bool × World
  is_partition kname = path_exists (attribute sys_class_block kname (codes "partition"))

  unfoldable pub exists : Bytes → World → Bool × World
  exists kname = path_exists (in_dir sys_class_block kname)

  unfoldable pub has_backing_device : Bytes → World → Bool × World
  has_backing_device kname = path_exists (attribute sys_class_block kname (codes "device"))

  -- `device_model`
  unfoldable pub device_model : Bytes → World → Option (List ℕ) × World
  unfolding sanitise_model
  device_model kname s =
      let (r, s') = read_ok (attribute sys_class_block kname (codes "device/model")) s in
      (map_option sanitise_model r, s')

  unfoldable pub device_attr : Bytes → Bytes → World → Option (List ℕ) × World
  unfolding sanitise_model
  device_attr kname attr s =
      let (r, s') = read_ok (attribute sys_class_block kname (codes "device/" ++ attr)) s in
      (nonempty_text (map_option sanitise_model r), s')

  unfoldable pub device_serial : Bytes → World → Option (List ℕ) × World
  unfolding device_attr
  device_serial kname = device_attr kname (codes "serial")

  unfoldable pub device_wwid : Bytes → World → Option (List ℕ) × World
  unfolding device_attr
  device_wwid kname = device_attr kname (codes "wwid")

  unfoldable pub dm_uuid : Bytes → World → Option (List ℕ) × World
  unfolding chars
  dm_uuid kname s =
      let (r, s') = read_ok (attribute sys_class_block kname (codes "dm/uuid")) s in
      (map_option (λ raw. trim (chars raw)) r, s')

  unfoldable pub removable : Bytes → World → Bool × World
  unfolding chars bytes_eq
  removable kname s =
      let (r, s') = read_ok (attribute sys_class_block kname (codes "removable")) s in
      (is_one r, s')
    where
      is_one : Option Bytes → Bool
      is_one none = false
      is_one (some raw) = bytes_eq (trim (chars raw)) (codes "1")

  unfoldable pub size_bytes : Bytes → World → Option ℕ × World
  unfolding chars parse_u64
  size_bytes kname s =
      let (r, s') = read_ok (attribute sys_class_block kname (codes "size")) s in (sized r, s')
    where
      sized : Option Bytes → Option ℕ
      sized none = none
      sized (some raw) = bytes_of_sectors (parse_u64 (trim (chars raw)))

  unfoldable pub loop_backing_file : Bytes → World → Option Bytes × World
  unfolding strip_deleted_suffix trim_newlines
  loop_backing_file kname s =
      let (r, s') = read_ok (attribute sys_class_block kname (codes "loop/backing_file")) s in
      (backing_of r, s')
