-- ===== src/Image/Magic/Formats.antt =====
-- What the first bytes of a file decide.
use imi.Common.{
  starts_with_iff, ℕ, String, ◌≡◌, ◌≢◌, ◌↔◌, ◌<◌, inl, inr, refl, sym, ap, ◌∙◌, arith, Bytes, List,
  [], ◌∷◌, ◌++◌, ◌==◌, none, some, true, length, take, replicate, starts_with, strip_prefix,
  Bool-cases, ok, err, length-replicate, take_of_le, take-append_length, length-take,
}
use imi.Events.{Compression, raw, gzip, xz, bzip2, zstd}
use imi.Host.{Read}
use imi.Image.{stream, failure}
use imi.Image.Fill.{Fill, FillSpec, fill_buffer, fill_buffer_lem}
use imi.Image.Magic.{read_part, read_full_best_effort, classify, unsupported_archive}

-- the magic bytes of a compressed format
abbrev pub magic_of : Compression → Bytes
magic_of raw = []
magic_of gzip = 31 ∷ 139 ∷ []
magic_of xz = 253 ∷ 55 ∷ 122 ∷ 88 ∷ 90 ∷ 0 ∷ []
magic_of bzip2 = 66 ∷ 90 ∷ 104 ∷ []
magic_of zstd = 40 ∷ 181 ∷ 47 ∷ 253 ∷ []

-- the formats are told apart by their first byte
tests :
    (b : ℕ) (bs : Bytes) (c : Compression)
    → c ≢ raw
    → (classify (b ∷ bs) ≡ c) ↔ (starts_with (b ∷ bs) (magic_of c) ≡ true)
unfolding classify starts_with strip_prefix
tests b bs raw ne = absurd (ne refl)
tests b bs gzip ne = ground arith
tests b bs xz ne = ground arith
tests b bs bzip2 ne = ground arith
tests b bs zstd ne = ground arith

empty : (c : Compression) → c ≢ raw → (classify [] ≡ c) ↔ (starts_with [] (magic_of c) ≡ true)
unfolding classify starts_with strip_prefix
empty raw ne = absurd (ne refl)
empty gzip ne = ground arith
empty xz ne = ground arith
empty bzip2 ne = ground arith
empty zstd ne = ground arith

-- A file is taken to be of a compressed format exactly when it begins with the magic bytes of that
-- format, all of them.
pub classify_iff :
    (prefix : Bytes) (c : Compression)
    → c ≢ raw
    → (classify prefix ≡ c) ↔ ((rest : Bytes) × (prefix ≡ magic_of c ++ rest))
classify_iff [] c ne = (
  (λ h. (starts_with_iff [] (magic_of c)).0 ((empty c ne).0 h)),
  λ x. (empty c ne).1 ((starts_with_iff [] (magic_of c)).1 x),
)
classify_iff (b ∷ bs) c ne = (
  (λ h. (starts_with_iff (b ∷ bs) (magic_of c)).0 ((tests b bs c ne).0 h)),
  λ x. (tests b bs c ne).1 ((starts_with_iff (b ∷ bs) (magic_of c)).1 x),
)

-- No archive that is refused would pass for a compressed image: it would be written as it is.
pub unsupported_archive-raw :
    (prefix : Bytes) (kind : String)
    → unsupported_archive prefix ≡ some kind
    → classify prefix ≡ raw
unfolding unsupported_archive classify starts_with strip_prefix
unsupported_archive-raw [] kind h = ground arith
unsupported_archive-raw (b ∷ bs) kind h = ground arith

part_lem :
    (es : List Read) (n : ℕ) (dst : Bytes) (got : Fill)
    → length dst ≡ n
    → failure es ≡ none
    → FillSpec dst (stream es) (failure es) got
    → read_part got ≡ ok (take n (stream es))
part_lem es n dst (err k) e none_ x = ground (arith, none_, x)
part_lem es n dst (ok (m, buf, es')) e none_ x = elim (Bool-cases (m == n)) [
  | inl t ↦
      let m_is : m ≡ n = ground arith in
      let src = (x.full (m_is ∙ sym e)).0 in
      ap ok (
        sym (
          ap (λ t. take n t) src
          ∙ ap (λ k. take k (take m buf ++ stream es')) (sym (len m_is))
          ∙ take-append_length (take m buf) (stream es')))
  | inr f ↦
      let lt : m < length dst = ground (arith, x.fits) in
      let src = (x.short lt).0 in
      ap ok (
        sym (
          ap (λ t. take n t) src
          ∙ take_of_le n (take m buf) (omega (arith, length-take m buf, x.size, x.fits, e))))
]
  where
    len : m ≡ n → length (take m buf) ≡ n
    len q = omega (arith, length-take m buf, x.size, x.fits, q)

-- From a file that can be read, the first `n` bytes are looked at, or all of a shorter one, however
-- short the reads are and however often they are interrupted; nothing is put in for missing bytes.
pub read_full_best_effort-take :
    (es : List Read) (n : ℕ)
    → failure es ≡ none
    → read_full_best_effort es n ≡ ok (take n (stream es))
unfolding read_full_best_effort
read_full_best_effort-take es n h =
    part_lem es n (replicate n 0) (fill_buffer es (replicate n 0)) (length-replicate n 0) h
      (fill_buffer_lem es (replicate n 0))
