-- ===== src/Sysfs/Members.antt =====
-- Laws of the set of names that `walk_holders` of crates/imi-core/src/common/sysfs.rs collects.
use imi.Common.{
  ℕ, suc, ◌≤◌, ◌<◌, Bytes, List, [], ◌∷◌, Bool, true, false, ◌||◌, ◌≡◌, ◌⊎◌, inl, inr, refl, sym,
  arith, if◌then◌else◌, length, bytes_eq, bytes_eq_iff,
}
use mathlib.Core.Path.{subst}
use imi.Sysfs.Names.{member}

pub member-cons : (x c : Bytes) (acc : List Bytes) → member x acc ≡ true → member x (c ∷ acc) ≡ true
unfolding member
member-cons x c acc e = ground (arith, e)

pub member-head : (x : Bytes) (acc : List Bytes) → member x (x ∷ acc) ≡ true
unfolding member
member-head x acc = rw ((bytes_eq_iff x x).1 refl) refl

pub member-split :
    (x c : Bytes) (acc : List Bytes) → member x (c ∷ acc) ≡ true → (x ≡ c) ⊎ (member x acc ≡ true)
unfolding member
member-split x c acc e = go (bytes_eq x c) refl e
  where
    go :
        (b : Bool) → bytes_eq x c ≡ b → (b || member x acc) ≡ true → (x ≡ c) ⊎ (member x acc ≡ true)
    go true q e = inl ((bytes_eq_iff x c).0 q)
    go false q e = inr e

-- how many of the names in `all` are not in `acc`
pub remaining : List Bytes → List Bytes → ℕ
remaining [] acc = 0
remaining (u ∷ us) acc = if member u acc then remaining us acc else suc (remaining us acc)

pub remaining_mono :
    (all acc acc' : List Bytes)
    → ((x : Bytes) → member x acc ≡ true → member x acc' ≡ true)
    → remaining all acc' ≤ remaining all acc
unfolding remaining
remaining_mono [] acc acc' f = omega arith
remaining_mono (u ∷ us) acc acc' f = ground (arith, f u, remaining_mono us acc acc' f)

pub remaining-length : (all acc : List Bytes) → remaining all acc ≤ length all
unfolding remaining
remaining-length [] acc = omega arith
remaining-length (u ∷ us) acc = ground (arith, remaining-length us acc)

pub remaining-new :
    (all acc : List Bytes) (c : Bytes)
    → member c all ≡ true
    → member c acc ≡ false
    → remaining all (c ∷ acc) < remaining all acc
unfolding remaining member
remaining-new [] acc c m n = cc
remaining-new (u ∷ us) acc c m n = go (member-split c u us m) (λ e. remaining-new us acc c e n)
  where
    le : remaining us (c ∷ acc) ≤ remaining us acc
    le = remaining_mono us acc (c ∷ acc) (λ x. member-cons x c acc)

    go :
        (c ≡ u) ⊎ (member c us ≡ true)
        → (member c us ≡ true → remaining us (c ∷ acc) < remaining us acc)
        → remaining (u ∷ us) (c ∷ acc) < remaining (u ∷ us) acc
    go (inl e) ih =
        let head : member u (c ∷ acc) ≡ true =
          subst (λ t. member u (t ∷ acc) ≡ true) (sym e) (member-head u acc) in
        let fresh : member u acc ≡ false = subst (λ t. member t acc ≡ false) e n in
        ground (arith, head, fresh, le)
    go (inr e) ih = ground (arith, ih e, member-cons u c acc)
