-- ===== src/Sysfs/Names.antt =====
-- The lookups of crates/imi-core/src/common/sysfs.rs that yield kernel names, and the walk over the
-- holders of a device.
use imi.Common.{
  ℕ, zero, suc, ◌+◌, ◌/◌, ◌%◌, Bytes, List, [], ◌∷◌, ◌++◌, Option, none, some, Bool, false, ◌||◌,
  ltb, if◌then◌else◌, codes, bytes_eq, Result, ok, err,
}
use imi.Error.{IoKind, not_found, say, msg, out_of_fuel}
use imi.Exec.{Exec, pure, raise, call, get, ◌>>=◌}
use imi.Host.{Host, Devt}
use imi.Strings.{components}
use imi.Strings.Utf8.{is_utf8}
use imi.Sysfs.{sys_class_block, sys_dev_block, in_dir, attribute, sort}

-- the digits of a number, with enough fuel where `n < 10 ^ fuel`
unfoldable pub decimal_from : ℕ → ℕ → Bytes → Bytes
decimal_from zero n acc = acc
decimal_from (suc fuel) n acc =
    let rest = decimal_from fuel (n / 10) ((48 + n % 10) ∷ acc) in
    if ltb n 10 then (48 + n) ∷ acc else rest

unfoldable pub decimal : ℕ → Bytes
unfolding decimal_from
decimal n = decimal_from (n + 1) n []

abbrev pub last_of : List Bytes → Option Bytes
last_of [] = none
last_of (p ∷ []) = some p
last_of (p ∷ q ∷ ps) = last_of (q ∷ ps)

-- the root, `.` and `..` name no file
abbrev pub normal : Option Bytes → Option Bytes
normal none = none
normal (some p) =
    if bytes_eq p (codes "/") || (bytes_eq p (codes ".") || bytes_eq p (codes ".."))
    then none
    else some p

-- `Path::file_name`, then `to_str`
abbrev pub named : Option Bytes → Option Bytes
named none = none
named (some p) = if is_utf8 p then some p else none

unfoldable pub file_name : Bytes → Option Bytes
unfolding components bytes_eq is_utf8
file_name p = named (normal (last_of (components p)))

unfoldable pub member : Bytes → List Bytes → Bool
unfolding bytes_eq
member x [] = false
member x (y ∷ ys) = bytes_eq x y || member x ys

abbrev pub holders_dir : Bytes → Bytes
holders_dir kname = attribute sys_class_block kname (codes "holders")

module _ (h : Host) where
  open h use {World, read_dir, read_link, exists as path_exists, stat}

  abbrev pub named_or : Bytes → Option Bytes → Exec World Bytes
  named_or target (some name) = pure name
  named_or target none = raise (msg (say "no basename in sysfs link target" [] (target ∷ [])))

  unfoldable pub kname_for_devt : Devt → Exec World Bytes
  unfolding decimal file_name msg
  kname_for_devt (major, minor) = do
    let link = in_dir sys_dev_block (decimal major ++ (58 ∷ decimal minor))
    target ← call (say "readlink" [] (link ∷ [])) (read_link link)
    named_or target (file_name target)

  unfoldable pub kname_for_path : Bytes → Exec World Bytes
  unfolding kname_for_devt
  kname_for_path path = do st ← call (say "stat" [] (path ∷ [])) (stat path); kname_for_devt st.rdev

  abbrev pub kept_if : Bool → Bytes → List Bytes → List Bytes
  kept_if b name names = if b then name ∷ names else names

  -- the entries of a disk's directory that hold a file `partition`
  unfoldable pub partitions_among : Bytes → List (Result IoKind Bytes) → Exec World (List Bytes)
  unfolding is_utf8 msg
  partitions_among disk [] = pure []
  partitions_among disk (err k ∷ entries) =
      call (say "read_dir entry" [] (in_dir sys_class_block disk ∷ [])) (λ s. (err k, s))
  partitions_among disk (ok name ∷ entries) =
      let rest = partitions_among disk entries in
      if is_utf8 name
      then (do
        marked ←
            get
              (path_exists (in_dir (in_dir (in_dir sys_class_block disk) name) (codes "partition")))
        names ← rest
        pure (kept_if marked name names))
      else raise (msg (say "partition has a non-UTF-8 name" [] (disk ∷ name ∷ [])))

  unfoldable pub partitions_of : Bytes → Exec World (List Bytes)
  unfolding partitions_among sort
  partitions_of disk = do
    entries ←
        call (say "read_dir" [] (in_dir sys_class_block disk ∷ []))
          (read_dir (in_dir sys_class_block disk))
    names ← partitions_among disk entries
    pure (sort names)

  -- names that are not UTF-8 are left out
  unfoldable pub utf8_names : Bytes → List (Result IoKind Bytes) → Exec World (List Bytes)
  unfolding is_utf8
  utf8_names dir [] = pure []
  utf8_names dir (err k ∷ entries) = call (say "read an entry" [] (dir ∷ [])) (λ s. (err k, s))
  utf8_names dir (ok name ∷ entries) =
      let rest = utf8_names dir entries in do names ← rest; pure (kept_if (is_utf8 name) name names)

  abbrev pub listed : Bytes → Exec World (List Bytes)
  listed dir = do
    entries ← call (say "read" [] (dir ∷ [])) (read_dir dir)
    names ← utf8_names dir entries
    pure (sort names)

  unfoldable pub all_disk_knames : Exec World (List Bytes)
  unfolding utf8_names sort
  all_disk_knames = listed (codes "/sys/block")

  unfoldable pub all_block_knames : Exec World (List Bytes)
  unfolding utf8_names sort
  all_block_knames = listed sys_class_block

  -- the `for` over a directory's entries; `next` walks what a new holder is held by
  unfoldable pub each_holder :
      (Bytes → List Bytes → Exec World (List Bytes))
      → Bytes
      → List (Result IoKind Bytes)
      → List Bytes
      → Exec World (List Bytes)
  unfolding is_utf8 member msg
  each_holder next kname [] acc = pure acc
  each_holder next kname (err k ∷ entries) acc =
      call (say "read_dir entry" [] (holders_dir kname ∷ [])) (λ s. (err k, s))
  each_holder next kname (ok child ∷ entries) acc =
      let rest = each_holder next kname entries in
      if is_utf8 child
      then (if member child acc then rest acc else (do acc' ← next child (child ∷ acc); rest acc'))
      else raise (msg (say "holder has a non-UTF-8 name" [] (kname ∷ child ∷ [])))

  -- no directory is no holder
  abbrev pub on_listing :
      Bytes
      → (List (Result IoKind Bytes) → Exec World (List Bytes))
      → List Bytes
      → Result IoKind (List (Result IoKind Bytes))
      → Exec World (List Bytes)
  on_listing kname each acc (ok entries) = each entries
  on_listing kname each acc (err not_found) = pure acc
  on_listing kname each acc (err k) = raise (msg (say "read_dir" [] (holders_dir kname ∷ [])))

  -- `walk_holders`, on fuel
  unfoldable pub walk_holders : ℕ → Bytes → List Bytes → Exec World (List Bytes)
  unfolding each_holder msg
  walk_holders zero kname acc s = raise (msg out_of_fuel) s
  walk_holders (suc fuel) kname acc s =
      let (r, s') = read_dir (holders_dir kname) s in
      on_listing kname (λ entries. each_holder (walk_holders fuel) kname entries acc) acc r s'

  -- more fuel than there are block devices is enough
  unfoldable pub holders_recursive : ℕ → Bytes → Exec World (List Bytes)
  unfolding walk_holders
  holders_recursive fuel kname = walk_holders fuel kname []
