-- ===== src/Mount/Deepest.antt =====
-- Laws of `source_of_longest_mount_prefix`: which mount holds a path.
use imi.Common.{
  ℕ, ◌≤◌, ◌<◌, ◌≡◌, ◌≢◌, inl, inr, refl, sym, ap, ◌∙◌, arith, Bytes, List, [], ◌∷◌, ◌++◌,
  append_assoc, append-nil, Option, none, some, true, false, length, Bool-cases,
}
use mathlib.Core.Path.{subst}
use imi.Strings.{lines, components, path_starts_with}
use imi.Mount.{
  MountInfo, Best, deeper, consider, consider_source, scan, parsed, source_of,
  source_of_longest_mount_prefix,
}

abbrev pub depth_of : MountInfo → ℕ
depth_of mi = length (components mi.target)

abbrev pub Every : (MountInfo → Type 0) → List MountInfo → Type 0
Every P [] = Unit
Every P (mi ∷ rest) = P mi × Every P rest

-- if the entry has a source and is above the path, then its depth is as `R` says
abbrev pub Bound : Bytes → (ℕ → Type 0) → MountInfo → Type 0
Bound path R mi =
    (src : Bytes) → mi.source ≡ some src → path_starts_with path mi.target ≡ true → R (depth_of mi)

-- the entry is above the path, with this depth and this source
abbrev pub Above : Bytes → ℕ → Bytes → MountInfo → Type 0
Above path depth src mi =
    (mi.source ≡ some src) × (path_starts_with path mi.target ≡ true) × (depth_of mi ≡ depth)

-- what a scan of the list must have found
abbrev pub Found : Bytes → List MountInfo → Best → Type 0
Found path l none = Every (Bound path (λ n. ⊥)) l
Found path l (some (depth, src)) =
    (before : List MountInfo) × (mi : MountInfo) × (after : List MountInfo) × (l
      ≡ before ++ (mi ∷ after))
    × Above path depth src mi
    × Every (Bound path (λ n. n ≤ depth)) before
    × Every (Bound path (λ n. n < depth)) after

Every-append :
    (P : MountInfo → Type 0) (xs ys : List MountInfo) → Every P xs → Every P ys → Every P (xs ++ ys)
Every-append P [] ys h k = k
Every-append P (x ∷ xs) ys (p, h) k = (p, Every-append P xs ys h k)

Every-map :
    (P Q : MountInfo → Type 0) (xs : List MountInfo)
    → ((mi : MountInfo) → P mi → Q mi)
    → Every P xs
    → Every Q xs
Every-map P Q [] f h = tt
Every-map P Q (x ∷ xs) f (p, h) = (f x p, Every-map P Q xs f h)

module _ (path : Bytes) where
  -- an entry that is passed over
  passed :
      (seen : List MountInfo) (best : Best) (mi : MountInfo)
      → ((depth : ℕ) (src : Bytes) → best ≡ some (depth, src) → Bound path (λ n. n < depth) mi)
      → (best ≡ none → Bound path (λ n. ⊥) mi)
      → Found path seen best
      → Found path (seen ++ (mi ∷ [])) best
  passed seen none mi f g h = Every-append _ seen (mi ∷ []) h (g refl, tt)
  passed seen (some (depth, src)) mi f g (before, m, after, e, a, b, c) = (
    before,
    m,
    after ++ (mi ∷ []),
    ap (λ t. t ++ (mi ∷ [])) e ∙ append_assoc before (m ∷ after) (mi ∷ []),
    a,
    b,
    Every-append _ after (mi ∷ []) c (f depth src refl, tt),
  )

  bounded :
      (seen : List MountInfo) (best : Best) (n : ℕ)
      → deeper best n ≡ true
      → Found path seen best
      → Every (Bound path (λ k. k ≤ n)) seen
  bounded seen none n le h = Every-map _ _ seen (λ mi p src e a. absurd (p src e a)) h
  bounded seen (some (depth, src)) n le (before, m, after, e, a, b, c) =
      let le' : depth ≤ n = ground arith in
      rw e (
        Every-append _ before (m ∷ after)
          (Every-map _ _ before (λ mi p s x y. let z = p s x y in omega arith) b)
          (
            (λ s x y. omega (arith, a.2)),
            Every-map _ _ after (λ mi p s x y. let z = p s x y in omega arith) c,
          ))

  chosen :
      (seen : List MountInfo) (best : Best) (mi : MountInfo) (src : Bytes)
      → mi.source ≡ some src
      → path_starts_with path mi.target ≡ true
      → deeper best (depth_of mi) ≡ true
      → Found path seen best
      → Found path (seen ++ (mi ∷ [])) (some (depth_of mi, src))
  chosen seen best mi src e a le h =
      (seen, mi, [], refl, (e, a, refl), bounded seen best (depth_of mi) le h, tt)

  not_deeper :
      (best : Best) (n : ℕ)
      → deeper best n ≡ false
      → ((depth : ℕ) (src : Bytes) → best ≡ some (depth, src) → n < depth) × (best ≢ none)
  not_deeper none n h = ground arith
  not_deeper (some (d, s)) n h = ((λ depth src e. ground (arith, e)), λ e. ground arith)

  consider_lem :
      (seen : List MountInfo) (best : Best) (mi : MountInfo) (source : Option Bytes)
      → mi.source ≡ source
      → Found path seen best
      → Found path (seen ++ (mi ∷ [])) (consider_source path best mi source)
  consider_lem seen best mi none e h =
      passed seen best mi (λ depth src _ s x y. absurd (ground (arith, e, x)))
        (λ _ s x y. absurd (ground (arith, e, x))) h
  consider_lem seen best mi (some src) e h = elim (Bool-cases (path_starts_with path mi.target)) [
    | inr f ↦ rw f (
        passed seen best mi (λ depth s _ u x y. absurd (ground (arith, f, y)))
          (λ _ u x y. absurd (ground (arith, f, y))) h)
    | inl t ↦ elim (Bool-cases (deeper best (depth_of mi))) [
      | inl le ↦ rw (t, le) (chosen seen best mi src e t le h)
      | inr gt ↦
          let w = not_deeper best (depth_of mi) gt in
          rw (t, gt)
            (passed seen best mi (λ depth s x u y z. w.0 depth s x) (λ x. absurd (w.1 x)) h)
    ]
  ]

  scan_lem :
      (seen : List MountInfo) (best : Best) (l : List MountInfo)
      → Found path seen best
      → Found path (seen ++ l) (scan path best l)
  unfolding scan
  scan_lem seen best [] h = subst (λ t. Found path t best) (sym (append-nil seen)) h
  scan_lem seen best (mi ∷ l) h =
      subst (λ t. Found path t (scan path (consider path best mi) l))
        (append_assoc seen (mi ∷ []) l)
        (scan_lem (seen ++ (mi ∷ [])) (consider path best mi) l
          (consider_lem seen best mi mi.source refl h))

-- The source that is found for a path is that of an entry of the mount table that has a source and
-- is above the path, of which no such entry before it is deeper and every such entry behind it is
-- less deep: of the deepest the last. No source is found only if no entry with a source is above
-- the path.
pub source_of_longest_mount_prefix-Found :
    (text path : Bytes)
    → (best : Best) × (source_of_longest_mount_prefix text path ≡ source_of best)
      × Found path (parsed (lines text)) best
unfolding source_of_longest_mount_prefix
source_of_longest_mount_prefix-Found text path =
    (scan path none (parsed (lines text)), refl, scan_lem path [] none (parsed (lines text)) tt)
