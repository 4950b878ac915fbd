-- ===== src/Host/Spare.antt =====
-- Laws of the calls that only look: /sys, /proc and the events leave alone what is to be spared.
use imi.Common.{codes, ℕ, zero, suc, Bytes, List, [], ◌∷◌, Option, none, some, Result, ok, err}
use imi.Error.{Error, IoKind, Detail, not_found, context}
use imi.Exec.Ends.{Ends, Ends-if, done, stop}
use imi.Events.{Event}
use imi.Exec.{Exec, lift, call, get, continue}
use imi.Host.{Host}
use imi.Strings.Utf8.{is_utf8}
use imi.Strings.{lines}
use imi.Sysfs.{dm_uuid, sort, attribute, in_dir, sys_class_block}
use imi.Sysfs.Names.{
  member, partitions_among, partitions_of, holders_dir, each_holder, on_listing, walk_holders,
  holders_recursive,
}
use imi.Mount.{parsed, MountInfo, TargetDevts}
use imi.Mount.Scan.{
  parse_devt, proc_self_mountinfo, read_devt_of, insert_devt, add_partitions, from_disk,
  block_rdev_of, source_devt, filter_live, mounts_in_text, mounts_on_target, holder_verdict,
  check_holders, check_roots, reject_active_stacked_volumes,
}

-- `P` is a property of the world that looking does not change
pub record Looks (h : Host) (P : h.World → Type 0) : Type 0 where
  pub emit_P : (e : Event) (s : h.World) → P s → P (h.emit e s)
  pub read_P : (p : Bytes) (s : h.World) → P s → P (h.read_to_string p s).1
  pub dir_P : (p : Bytes) (s : h.World) → P s → P (h.read_dir p s).1
  pub stat_P : (p : Bytes) (s : h.World) → P s → P (h.stat p s).1
  pub exists_P : (p : Bytes) (s : h.World) → P s → P (h.exists p s).1

-- `P` holds behind the action, however it ends
abbrev pub Holding : {S A : Type 0} → (S → Type 0) → Result Error A × S → Type 0
Holding P r = Ends (λ _ s'. P s') (λ _ s'. P s') r

module _ {S : Type 0} (P : S → Type 0) where
  pub held : {A : Type 0} (r : Result Error A × S) → P r.1 → Holding P r
  held (ok a, s) p = done p
  held (err e, s) p = stop p

  pub call_held :
      {A : Type 0} (t : Detail) (m : S → Result IoKind A × S) (s : S)
      → P (m s).1
      → Holding P (call t m s)
  call_held t m s p = held (call t m s) p

  pub get_held : {A : Type 0} (m : S → A × S) (s : S) → P (m s).1 → Holding P (get m s)
  get_held m s p = done p

  pub lift_held : {A : Type 0} (r : Result Error A) (s : S) → P s → Holding P (lift r s)
  lift_held r s p = held (r, s) p

  pub then_held :
      {A B : Type 0} {r : Result Error A × S} (f : A → Exec S B)
      → Holding P r
      → ((a : A) (s : S) → P s → Holding P (f a s))
      → Holding P (continue f r.0 r.1)
  then_held f (done {a} {s} p) g = g a s p
  then_held f (stop p) g = stop p

  pub within_held :
      {A : Type 0} (t : Detail) {r : Result Error A × S}
      → Holding P r
      → Holding P (context t r.0, r.1)
  unfolding context
  within_held t (done p) = done p
  within_held t (stop p) = stop p

  pub holds_after : {A : Type 0} {r : Result Error A × S} → Holding P r → P r.1
  holds_after (done p) = p
  holds_after (stop p) = p

module _ (h : Host) (P : h.World → Type 0) (l : Looks h P) where
  open h use {World}

  read_devt_of-held : (kname : Bytes) (s : World) → P s → Holding P (read_devt_of h kname s)
  unfolding read_devt_of
  read_devt_of-held kname s x =
      then_held P _
        (call_held P _ (h.read_to_string (attribute sys_class_block kname (codes "dev"))) s
          (l.read_P _ s x))
        (λ raw s' y.
          lift_held P (parse_devt raw (attribute sys_class_block kname (codes "dev"))) s' y)

  partitions_among-held :
      (disk : Bytes) (es : List (Result IoKind Bytes)) (s : World)
      → P s
      → Holding P (partitions_among h disk es s)
  unfolding partitions_among
  partitions_among-held disk [] s x = done x
  partitions_among-held disk (err k ∷ es) s x = held P _ x
  partitions_among-held disk (ok name ∷ es) s x =
      Ends-if (is_utf8 name) _ _ s
        (λ _.
          then_held P _
            (partitions_among-held disk es
              (h.exists (in_dir (in_dir (in_dir sys_class_block disk) name) (codes "partition"))
                s).1
              (l.exists_P _ s x))
            (λ names s₂ z. done z))
        (λ _. stop x)

  partitions_of-held : (disk : Bytes) (s : World) → P s → Holding P (partitions_of h disk s)
  unfolding partitions_of
  partitions_of-held disk s x =
      then_held P _ (call_held P _ (h.read_dir (in_dir sys_class_block disk)) s (l.dir_P _ s x))
        (λ entries s₁ y.
          then_held P _ (partitions_among-held disk entries s₁ y) (λ names s₂ z. done z))

  add_partitions-held :
      (parts : List Bytes) (set : TargetDevts) (s : World)
      → P s
      → Holding P (add_partitions h parts set s)
  unfolding add_partitions
  add_partitions-held [] set s x = done x
  add_partitions-held (part ∷ parts) set s x =
      then_held P _ (within_held P _ (read_devt_of-held part s x))
        (λ devt s₁ y. add_partitions-held parts (insert_devt devt set) s₁ y)

  pub from_disk-held : (disk : Bytes) (s : World) → P s → Holding P (from_disk h disk s)
  unfolding from_disk
  from_disk-held disk s x = then_held P _ (read_devt_of-held disk s x) (λ devt s₁ y.
      then_held P _ (partitions_of-held disk s₁ y) (λ parts s₂ z. add_partitions-held parts _ s₂ z))

  source-P : (src : Option Bytes) (s : World) → P s → P (source_devt h src s).1
  unfolding block_rdev_of
  source-P none s x = x
  source-P (some p) s x = l.stat_P p s x

  filter_live-P :
      (target : TargetDevts) (ms : List MountInfo) (s : World)
      → P s
      → P (filter_live h target ms s).1
  unfolding filter_live
  filter_live-P target [] s x = x
  filter_live-P target (mi ∷ ms) s x = filter_live-P target ms _ (source-P mi.source s x)

  pub mounts_on_target-held :
      (devts : TargetDevts) (s : World) → P s → Holding P (mounts_on_target h devts s)
  unfolding mounts_on_target mounts_in_text
  mounts_on_target-held devts s x =
      then_held P _ (call_held P _ (h.read_to_string proc_self_mountinfo) s (l.read_P _ s x))
        (λ table s₁ y.
          get_held P (filter_live h devts (parsed (lines table))) s₁
            (filter_live-P devts (parsed (lines table)) s₁ y))

  each_holder-held :
      (next : Bytes → List Bytes → Exec World (List Bytes))
      → ((k : Bytes) (acc : List Bytes) (s : World) → P s → Holding P (next k acc s))
      → (k : Bytes) (es : List (Result IoKind Bytes)) (acc : List Bytes) (s : World) → P s
      → Holding P (each_holder h next k es acc s)
  unfolding each_holder
  each_holder-held next ih k [] acc s x = done x
  each_holder-held next ih k (err kind ∷ es) acc s x = held P _ x
  each_holder-held next ih k (ok child ∷ es) acc s x =
      Ends-if (is_utf8 child) _ _ s
        (λ _.
          Ends-if (member child acc) _ _ s (λ _. each_holder-held next ih k es acc s x)
            (λ _.
              then_held P _ (ih child (child ∷ acc) s x)
                (λ acc' s₁ y. each_holder-held next ih k es acc' s₁ y)))
        (λ _. stop x)

  walk_holders-held :
      (fuel : ℕ) (k : Bytes) (acc : List Bytes) (s : World)
      → P s
      → Holding P (walk_holders h fuel k acc s)
  unfolding walk_holders
  walk_holders-held zero k acc s x = stop x
  walk_holders-held (suc fuel) k acc s x =
      go (h.read_dir (holders_dir k) s).0 (l.dir_P _ s x)
        (λ es s₁ y. each_holder-held (walk_holders h fuel) (walk_holders-held fuel) k es acc s₁ y)
    where
      go :
          (r : Result IoKind (List (Result IoKind Bytes))) {s₁ : World}
          → P s₁
          → ((es : List (Result IoKind Bytes)) (s₁ : World)
              → P s₁
              → Holding P (each_holder h (walk_holders h fuel) k es acc s₁))
          → Holding P (on_listing h k (λ es. each_holder h (walk_holders h fuel) k es acc) acc r s₁)
      go (ok es) y each = each es _ y
      go (err not_found) y each = done y
      go (err _) y each = stop y

  check_holders-held :
      (disk : Bytes) (names : List Bytes) (s : World)
      → P s
      → Holding P (check_holders h disk names s)
  unfolding check_holders dm_uuid
  check_holders-held disk [] s x = done x
  check_holders-held disk (name ∷ names) s x =
      then_held P _ (get_held P (dm_uuid h name) s (l.read_P _ s x)) (λ uuid s₁ y.
        then_held P _ (lift_held P (holder_verdict h disk name uuid) s₁ y)
          (λ _ s₂ z. check_holders-held disk names s₂ z))

  check_roots-held :
      (fuel : ℕ) (disk : Bytes) (roots : List Bytes) (s : World)
      → P s
      → Holding P (check_roots h fuel disk roots s)
  unfolding check_roots holders_recursive
  check_roots-held fuel disk [] s x = done x
  check_roots-held fuel disk (root ∷ roots) s x =
      then_held P _ (walk_holders-held fuel root [] s x) (λ names s₁ y.
        then_held P _ (check_holders-held disk (sort names) s₁ y)
          (λ _ s₂ z. check_roots-held fuel disk roots s₂ z))

  pub reject_active_stacked_volumes-held :
      (fuel : ℕ) (disk : Bytes) (s : World)
      → P s
      → Holding P (reject_active_stacked_volumes h fuel disk s)
  unfolding reject_active_stacked_volumes
  reject_active_stacked_volumes-held fuel disk s x =
      then_held P _ (partitions_of-held disk s x)
        (λ parts s₁ y. check_roots-held fuel disk (disk ∷ parts) s₁ y)
