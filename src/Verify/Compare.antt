-- ===== src/Verify/Compare.antt =====
-- `compare_chunk` of crates/imi-core/src/phases/phase_5.rs.
use imi.Common.{
  ℕ, zero, suc, ◌+◌, ◌<◌, Bytes, [], ◌∷◌, Option, none, some, false, ◌==◌, ◌≡◌, ◌≢◌, arith, refl,
  if◌then◌else◌, length, get_or, bytes_eq, bytes_eq_iff, Result, ok, err, Bool-cases, inl, inr,
}
use imi.Error.{Error, from_source, mismatch}

-- `zip` and `position` of the first pair that differs
unfoldable pub first_diff : Bytes → Bytes → Option ℕ
first_diff (x ∷ xs) (y ∷ ys) =
    let rest = first_diff xs ys in
    if x == y then elim rest [ none ↦ none | some n ↦ some (suc n) ] else some 0
first_diff _ _ = none

abbrev or_zero : Option ℕ → ℕ
or_zero none = 0
or_zero (some n) = n

unfoldable pub compare_chunk : Bytes → Bytes → ℕ → Bytes → Result Error (Unit {0})
unfolding first_diff bytes_eq from_source
compare_chunk dev_bytes img_bytes offset image_path =
    if bytes_eq dev_bytes img_bytes
    then ok tt
    else err (from_source (mismatch (offset + or_zero (first_diff dev_bytes img_bytes)) image_path))

-- `n` is the first place where the two differ
abbrev pub Differ : Bytes → Bytes → ℕ → Type 0
Differ xs ys n =
    (n < length xs)
    × (get_or xs n 0 ≢ get_or ys n 0)
    × ((i : ℕ) → i < n → get_or xs i 0 ≡ get_or ys i 0)

first_diff_lem :
    (xs ys : Bytes)
    → length xs ≡ length ys
    → bytes_eq xs ys ≡ false
    → (n : ℕ) × (first_diff xs ys ≡ some n) × Differ xs ys n
unfolding first_diff bytes_eq
first_diff_lem [] [] e ne = ground arith
first_diff_lem [] (y ∷ ys) e ne = ground arith
first_diff_lem (x ∷ xs) [] e ne = ground arith
first_diff_lem (x ∷ xs) (y ∷ ys) e ne = elim (Bool-cases (x == y)) [
  | inr f ↦ (0, rw f refl, (omega arith, (λ eq. ground arith), λ i lt. absurd (omega arith)))
  | inl t ↦
      let (n, found, (lt, differ, same)) = first_diff_lem xs ys (omega arith) (rw t at ne) in
      (
        suc n,
        rw (t, found) refl,
        (
          omega arith,
          differ,
          λ i. elim i as (λ i. i < suc n → get_or (x ∷ xs) i 0 ≡ get_or (y ∷ ys) i 0) [
            | zero ↦ (λ _. ground arith)
            | suc i ↦ (λ l. same i (omega arith))
          ],
        ),
      )
]

-- What a comparison at `offset` must have found.
abbrev pub CompareSpec : Bytes → Bytes → ℕ → Bytes → Result Error (Unit {0}) → Type 0
CompareSpec xs ys offset path (ok u) = xs ≡ ys
CompareSpec xs ys offset path (err e) =
    (n : ℕ) × (e ≡ from_source (mismatch (offset + n) path)) × Differ xs ys n

-- Two chunks of one length compare as equal only if they are, and else the error is a mismatch that
-- names the place of the first difference, counted from the start of the device.
pub compare_chunk_lem :
    (xs ys : Bytes) (offset : ℕ) (path : Bytes)
    → length xs ≡ length ys
    → CompareSpec xs ys offset path (compare_chunk xs ys offset path)
unfolding compare_chunk
compare_chunk_lem xs ys offset path e = elim (Bool-cases (bytes_eq xs ys)) [
  | inl t ↦ rw t ((bytes_eq_iff xs ys).0 t)
  | inr f ↦ let (n, found, differ) = first_diff_lem xs ys e f in rw (f, found) (n, refl, differ)
]
