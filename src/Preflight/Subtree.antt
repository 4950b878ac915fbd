-- ===== src/Preflight/Subtree.antt =====
-- The block devices that a target's data may come from or go to: `block_kname_backing_path`,
-- `target_block_subtree` and `ensure_image_not_on_target` of crates/imi-core/src/phases/phase_0.rs.
use imi.Common.{
  ℕ, zero, suc, Bytes, List, [], ◌∷◌, Option, none, some, Bool, true, false, ◌||◌, not,
  if◌then◌else◌, codes, starts_with, Result, ok, err,
}
use imi.Error.{Error, IoKind, say, msg, out_of_fuel}
use imi.Exec.{Exec, pure, raise, lift, call, within, get, ◌>>=◌, ◌>>◌}
use imi.Host.{Host, Devt, Stat}
use imi.Mount.Scan.{backing_source_for_path, block_rdev_of}
use imi.Preflight.{is_same_file}
use imi.Sysfs.{sort, insert_name, loop_backing_file}
use imi.Sysfs.Names.{member, kname_for_devt, partitions_of, all_block_knames, holders_recursive}

-- `BTreeSet::insert`, with whether the name is new
abbrev pub insert_in : Bytes → Bool × List Bytes → Bool × List Bytes
insert_in name (grew, set) = if member name set then (grew, set) else (true, insert_name name set)

unfoldable pub insert_all : List Bytes → Bool × List Bytes → Bool × List Bytes
unfolding member insert_name
insert_all [] acc = acc
insert_all (n ∷ ns) acc = insert_all ns (insert_in n acc)

-- a file's file system and its inode
abbrev pub file_id : Stat → Devt × ℕ
file_id st = (st.dev, st.ino)

-- `.ok()`
abbrev pub succeeds : {A : Type 0} → Result Error A → Option A
succeeds (ok a) = some a
succeeds (err e) = none

module _ (h : Host) (fuel : ℕ) where
  open h use {World, stat}

  -- a call whose failure is not an error
  abbrev pub attempt : {A : Type 0} → Exec World A → Exec World (Option A)
  attempt m s = let (r, s') = m s in (ok (succeeds r), s')

  -- the kernel name of a devt, if it has one
  abbrev pub try_kname : Option Devt → Exec World (Option Bytes)
  try_kname none = pure none
  try_kname (some d) = attempt (kname_for_devt h d)

  -- behind a file system with a number of its own: the mount's source
  abbrev pub by_source : Option Bytes → Exec World (Option Bytes)
  by_source none = pure none
  by_source (some source) = do d ← get (block_rdev_of h source); try_kname d

  abbrev pub or_source : Bytes → Option Bytes → Exec World (Option Bytes)
  or_source path (some kname) = pure (some kname)
  or_source path none = do source ← backing_source_for_path h path; by_source source

  unfoldable pub block_kname_backing_path : Bytes → Exec World (Option Bytes)
  unfolding kname_for_devt backing_source_for_path block_rdev_of
  block_kname_backing_path path = do
    meta ← call (say "stat" [] (path ∷ [])) (stat path)
    kname ← attempt (kname_for_devt h meta.dev)
    or_source path kname

  -- the holders of each member
  unfoldable pub add_holders : List Bytes → Bool × List Bytes → Exec World (Bool × List Bytes)
  unfolding holders_recursive insert_all sort
  add_holders [] acc = pure acc
  add_holders (name ∷ names) acc = do
    hs ← holders_recursive h fuel name
    add_holders names (insert_all (sort hs) acc)

  abbrev pub with_parts : Bool × List Bytes → Option (List Bytes) → Bool × List Bytes
  with_parts acc none = acc
  with_parts acc (some parts) = insert_all parts acc

  -- a loop device whose file lies on a member, with its partitions
  abbrev pub add_loop :
      Bytes → Bool × List Bytes → Option (Option Bytes) → Exec World (Bool × List Bytes)
  add_loop lk acc (some (some backing)) =
      if member backing acc.1
      then (do parts ← attempt (partitions_of h lk); pure (with_parts (insert_in lk acc) parts))
      else pure acc
  add_loop lk acc _ = pure acc

  abbrev pub backed : Bytes → Bool × List Bytes → Option Bytes → Exec World (Bool × List Bytes)
  backed lk acc none = pure acc
  backed lk acc (some backing) = do
    kname ← attempt (block_kname_backing_path backing)
    add_loop lk acc kname

  unfoldable pub add_loops : List Bytes → Bool × List Bytes → Exec World (Bool × List Bytes)
  unfolding starts_with loop_backing_file block_kname_backing_path partitions_of insert_all
  add_loops [] acc = pure acc
  add_loops (lk ∷ names) acc = do
    acc' ←
        if not (starts_with lk (codes "loop")) || member lk acc.1
        then pure acc
        else (do backing ← get (loop_backing_file h lk); backed lk acc backing)
    add_loops names acc'

  -- one round of the closure
  unfoldable pub grow : List Bytes → Exec World (Bool × List Bytes)
  unfolding add_holders add_loops all_block_knames
  grow subtree = do
    acc ← add_holders subtree (false, subtree)
    names ← all_block_knames h
    add_loops names acc

  -- the `loop`, on fuel
  unfoldable pub close : ℕ → List Bytes → Exec World (List Bytes)
  unfolding grow msg
  close zero subtree = raise (msg out_of_fuel)
  close (suc n) subtree = do acc ← grow subtree; if acc.0 then close n acc.1 else pure acc.1

  unfoldable pub target_block_subtree : Bytes → Exec World (List Bytes)
  unfolding close partitions_of insert_all
  target_block_subtree kname = do
    parts ← partitions_of h kname
    close fuel (insert_all parts (false, kname ∷ [])).1

  abbrev pub same_as : Devt × ℕ → Result IoKind Stat → Bool
  same_as img (err k) = false
  same_as img (ok st) = is_same_file (file_id st) img

  abbrev pub is_image : Devt × ℕ → Option Bytes → World → Bool × World
  is_image img none s = (false, s)
  is_image img (some backing) s = let (r, s') = stat backing s in (same_as img r, s')

  -- no member is a loop device on the image itself
  unfoldable pub check_backing : Bytes → Devt × ℕ → List Bytes → Exec World (Unit {0})
  unfolding loop_backing_file is_same_file msg
  check_backing path img [] = pure tt
  check_backing path img (name ∷ names) =
      let rest = check_backing path img names in
      do
        backing ← get (loop_backing_file h name)
        same ← get (is_image img backing)
        if same
            then raise (
                msg (
                  say "image is the backing file of a loop device within the target's block stack"
                    [] (path ∷ name ∷ [])))
            else rest

  abbrev pub outside : Bytes → List Bytes → Option Bytes → Result Error (Unit {0})
  outside path subtree none = ok tt
  outside path subtree (some kname) =
      if member kname subtree
      then err (
          msg (
            say "image is on a block device within the target's block stack" []
              (path ∷ kname ∷ [])))
      else ok tt

  unfoldable pub ensure_image_not_on_target : Bytes → Bytes → Exec World (Unit {0})
  unfolding target_block_subtree check_backing block_kname_backing_path member msg
  ensure_image_not_on_target img kname = do
    meta ← call (say "stat" [] (img ∷ [])) (stat img)
    subtree ← target_block_subtree kname
    check_backing img (file_id meta) subtree
    img_kname ←
        within (say "resolving block device backing" [] (img ∷ [])) (block_kname_backing_path img)
    lift (outside img subtree img_kname)
