-- ===== src/Mount/Order/Laws.antt =====
-- Laws of the order of unmounting and of the device-mapper holders.
use imi.Common.{
  ◌≤◌, ◌≡◌, ◌≢◌, ◌↔◌, refl, ap, arith, Bytes, List, [], ◌∷◌, ◌++◌, Bool, true, false, ◌&&◌, leb,
  length, codes, strip_prefix, strip_prefix-append, strip_prefix-some, Option, none, some,
  if◌then◌else◌, Bool-cases, inl, inr,
}
use mathlib.Core.List.{Perm}
use mathlib.Core.List.Perm
use imi.Strings.{split_once}
use imi.Mount.{MountInfo}
use imi.Mount.Deepest.{Every}
use imi.Mount.Order.{
  insert, deepest_first, DmHolderKind, synthetic, is_live_data, all_digits, nonempty, is_part,
  by_name, by_prefix, uuid_prefix, classify_dm_uuid,
}

-- no entry is longer than one in front of it
abbrev pub Descending : List MountInfo → Type 0
Descending [] = Unit
Descending (m ∷ ms) = Every (λ x. length x.target ≤ length m.target) ms × Descending ms

weaken :
    (m x : MountInfo) (l : List MountInfo)
    → length x.target ≤ length m.target
    → Every (λ y. length y.target ≤ length x.target) l
    → Every (λ y. length y.target ≤ length m.target) l
weaken m x [] le h = tt
weaken m x (y ∷ l) le (p, h) = (omega arith, weaken m x l le h)

insert-Every :
    (P : MountInfo → Type 0) (m : MountInfo) (l : List MountInfo)
    → P m
    → Every P l
    → Every P (insert m l)
unfolding insert
insert-Every P m [] p h = (p, tt)
insert-Every P m (x ∷ l) p (q, h) = elim (Bool-cases (leb (length x.target) (length m.target))) [
  | inl t ↦ rw t (p, (q, h))
  | inr f ↦ rw f (q, insert-Every P m l p h)
]

insert-Descending : (m : MountInfo) (l : List MountInfo) → Descending l → Descending (insert m l)
unfolding insert
insert-Descending m [] h = (tt, tt)
insert-Descending m (x ∷ l) (a, h) = elim (Bool-cases (leb (length x.target) (length m.target))) [
  | inl t ↦
      let le : length x.target ≤ length m.target = ground arith in
      rw t ((le, weaken m x l le a), (a, h))
  | inr f ↦ rw f (insert-Every _ m l (ground arith) a, insert-Descending m l h)
]

insert-Perm : (m : MountInfo) (l : List MountInfo) → Perm (insert m l) (m ∷ l)
unfolding insert
insert-Perm m [] = Perm.refl _
insert-Perm m (x ∷ l) = elim (Bool-cases (leb (length x.target) (length m.target))) [
  | inl t ↦ rw t (Perm.refl _)
  | inr f ↦ rw f (Perm.trans (Perm.cons x (insert-Perm m l)) (Perm.swap m x l))
]

sorted : (l : List MountInfo) → Descending (deepest_first l)
unfolding deepest_first
sorted [] = tt
sorted (m ∷ l) = insert-Descending m (deepest_first l) (sorted l)

permuted : (l : List MountInfo) → Perm (deepest_first l) l
unfolding deepest_first
permuted [] = Perm.refl _
permuted (m ∷ l) = Perm.trans (insert-Perm m (deepest_first l)) (Perm.cons m (permuted l))

-- The list holds each mount as often as it was given, and none is longer than one in front of it.
pub deepest_first-Descending :
    (l : List MountInfo) → Perm (deepest_first l) l × Descending (deepest_first l)
deepest_first-Descending l = (permuted l, sorted l)

by_name_lem : (p : Bytes) → by_name p ≢ synthetic
by_name_lem p h = go _ _ _ _ h
  where
    go :
        (a b c d : Bool)
        → (if a
            then DmHolderKind.lvm
            else if b
            then DmHolderKind.crypt
            else if c
            then DmHolderKind.mpath
            else if d
            then DmHolderKind.dm_raid
            else DmHolderKind.unknown)
          ≢ synthetic
    go a b c d e = ground arith

abbrev pub PartName : Bytes → Type 0
PartName p = (ds : Bytes) × (p ≡ codes "part" ++ ds) × (nonempty ds ≡ true) × (all_digits ds ≡ true)

by_prefix_iff : (p : Bytes) → (by_prefix p ≡ synthetic) ↔ PartName p
by_prefix_iff p = (there (strip_prefix (codes "part") p) refl, back)
  where
    there :
        (o : Option Bytes)
        → strip_prefix (codes "part") p ≡ o
        → (if is_part o then synthetic else by_name p) ≡ synthetic
        → PartName p
    there none e h = absurd (by_name_lem p h)
    there (some ds) e h = elim (Bool-cases (nonempty ds && all_digits ds)) [
      | inl t ↦ (ds, strip_prefix-some (codes "part") p e, ground (arith, t), ground (arith, t))
      | inr f ↦ absurd (by_name_lem p (rw f at h))
    ]

    back : PartName p → by_prefix p ≡ synthetic
    back (ds, e, n, a) = rw (e, strip_prefix-append (codes "part") ds, n, a) refl

-- A device-mapper holder counts as a mere partition mapping, and so as no live data, exactly when
-- its UUID reads `part` and at least one digit up to the first `-` or the end.
pub classify_dm_uuid_iff :
    (uuid : Bytes)
    → (is_live_data (classify_dm_uuid uuid) ≡ false)
      ↔ PartName (uuid_prefix uuid (split_once 45 uuid))
unfolding classify_dm_uuid is_live_data
classify_dm_uuid_iff uuid =
    let p = uuid_prefix uuid (split_once 45 uuid) in
    (
      (λ h. (by_prefix_iff p).0 (dead (by_prefix p) h)),
      λ x. ap (λ k. is_live_data k) ((by_prefix_iff p).1 x),
    )
  where
    dead : (k : DmHolderKind) → is_live_data k ≡ false → k ≡ synthetic
    dead k h = ground arith
