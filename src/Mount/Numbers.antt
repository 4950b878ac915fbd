-- ===== src/Mount/Numbers.antt =====
-- Laws of `TargetDevts::from_disk` of crates/imi-core/src/common/mount.rs.
use imi.Common.{
  ◌≡◌, refl, arith, Bytes, List, [], ◌∷◌, Bool, true, false, if◌then◌else◌, Result, ok,
}
use mathlib.Core.Path.{subst}
use imi.Error.{Error}
use imi.Exec.Ends.{Ends, Ends-within, Ends-mono, done, stop}
use imi.Exec.Yields.{Any, Ends-next, act_yields}
use imi.Host.{Host, Devt}
use imi.Mount.{TargetDevts, contains}
use imi.Mount.Scan.{insert_devt, read_devt_of, add_partitions, from_disk}
use imi.Sysfs.Names.{partitions_of}

-- every number of the first set is in the second
abbrev Within : TargetDevts → TargetDevts → Type 0
Within set devts = (d : Devt) → contains set d ≡ true → contains devts d ≡ true

contains_head : (d : Devt) (set : TargetDevts) → contains (d ∷ set) d ≡ true
unfolding contains
contains_head (a, b) set = ground arith

contains_tail : (d : Devt) (set : TargetDevts) → Within set (d ∷ set)
unfolding contains
contains_tail (a, b) set (m, n) e = ground (arith, e)

contains-insert_devt : (d : Devt) (set : TargetDevts) → contains (insert_devt d set) d ≡ true
contains-insert_devt d set = go (contains set d) refl
  where
    go : (b : Bool) → contains set d ≡ b → contains (if b then set else d ∷ set) d ≡ true
    go true e = e
    go false e = contains_head d set

insert_devt-Within : (d : Devt) (set : TargetDevts) → Within set (insert_devt d set)
insert_devt-Within d set = go (contains set d)
  where
    go : (b : Bool) → Within set (if b then set else d ∷ set)
    go true e x = x
    go false e x = contains_tail d set e x

module _ (h : Host) where
  open h use {World}

  -- the number that was read of a kernel name is in the set
  abbrev pub Counted : TargetDevts → Bytes → Type 0
  Counted devts kname =
      (s : World) × (d : Devt) × ((read_devt_of h kname s).0 ≡ ok d) × (contains devts d ≡ true)

  abbrev pub AllCounted : TargetDevts → List Bytes → Type 0
  AllCounted devts [] = Unit {0}
  AllCounted devts (kname ∷ knames) = Counted devts kname × AllCounted devts knames

  -- the set has the number of the disk, and of each of the partitions that it was found to have
  pub record Covers (kname : Bytes) (devts : TargetDevts) : Type 0 where
    pub disk : Counted devts kname
    pub before : World
    pub parts : List Bytes
    pub listed : (partitions_of h kname before).0 ≡ ok parts
    pub counted : AllCounted devts parts

  add_partitions-AllCounted :
      (parts : List Bytes) (set : TargetDevts) (s : World)
      → Ends
          (λ devts _. AllCounted devts parts × Within set devts)
          Any
          (add_partitions h parts set s)
  unfolding add_partitions
  add_partitions-AllCounted [] set s = done (tt, λ d e. e)
  add_partitions-AllCounted (part ∷ parts) set s =
      Ends-next _
        (Ends-within {R = Any} _ (read_devt_of h part) s (act_yields (read_devt_of h part) s)
          (λ e s' x. tt))
        (λ d s₁ read.
          Ends-mono (add_partitions-AllCounted parts (insert_devt d set) s₁)
            (λ devts s₂ q. (
              ((s, d, read, q.1 d (contains-insert_devt d set)), q.0),
              λ x e. q.1 x (insert_devt-Within d set x e),
            ))
            (λ e s₂ x. tt))

  Ends-Covers :
      (kname : Bytes) (s : World) → Ends (λ devts _. Covers kname devts) Any (from_disk h kname s)
  unfolding from_disk
  Ends-Covers kname s = Ends-next _ (act_yields (read_devt_of h kname) s) (λ d s₁ read.
      Ends-next _ (act_yields (partitions_of h kname) s₁) (λ parts s₂ found.
        Ends-mono (add_partitions-AllCounted parts (d ∷ []) s₂)
          (λ devts s₃ q. record {
            disk = (s, d, read, q.1 d (contains_head d []));
            before = s₁;
            parts = parts;
            listed = found;
            counted = q.0;
          })
          (λ e s₃ x. tt)))

  -- A set that was built for a disk covers it.
  pub from_disk-Covers :
      (kname : Bytes) (s : World) (devts : TargetDevts)
      → (from_disk h kname s).0 ≡ ok devts
      → Covers kname devts
  from_disk-Covers kname s devts = go (Ends-Covers kname s)
    where
      same : (x : TargetDevts) → ◌≡◌ {A = Result Error TargetDevts} (ok x) (ok devts) → x ≡ devts
      same x e = cc

      go :
          {r : Result Error TargetDevts × World}
          → Ends (λ x _. Covers kname x) Any r
          → r.0 ≡ ok devts
          → Covers kname devts
      go (done {a = x} q) e = subst (Covers kname) (same x e) q
      go (stop x) e = absurd (cc)
