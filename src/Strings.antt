-- ===== src/Strings.antt =====
-- What the crate uses of Rust's strings and paths, on bytes: `split`, `split_once`, `lines`,
-- `u64::from_str`, `String::from_utf8_lossy` and `Path::components`.
pub mod Utf8
pub mod Split
pub mod Chars
use imi.Common.{
  ℕ, zero, suc, ◌+◌, ◌-◌, ◌*◌, ◌^◌, Bytes, List, [], ◌∷◌, ◌++◌, Option, none, some, Bool, true,
  false, not, ◌&&◌, ◌||◌, ltb, leb, ◌==◌, if◌then◌else◌, bytes_eq,
}

abbrev pub cons_first : ℕ → List Bytes → List Bytes
cons_first c [] = (c ∷ []) ∷ []
cons_first c (t ∷ ts) = (c ∷ t) ∷ ts

-- `split` at a byte
unfoldable pub split_on : ℕ → Bytes → List Bytes
split_on sep [] = [] ∷ []
split_on sep (c ∷ cs) =
    let rest = split_on sep cs in if c == sep then [] ∷ rest else cons_first c rest

abbrev cons_fst : ℕ → Option (Bytes × Bytes) → Option (Bytes × Bytes)
cons_fst c none = none
cons_fst c (some (a, b)) = some (c ∷ a, b)

-- `split_once` at a byte
unfoldable pub split_once : ℕ → Bytes → Option (Bytes × Bytes)
split_once sep [] = none
split_once sep (c ∷ cs) =
    let rest = split_once sep cs in if c == sep then some ([], cs) else cons_fst c rest

-- a line without the `\r` before its `\n`
abbrev strip_cr : Bytes → Bytes
strip_cr [] = []
strip_cr (c ∷ []) = if c == 13 then [] else c ∷ []
strip_cr (c ∷ d ∷ cs) = c ∷ strip_cr (d ∷ cs)

-- all but a last empty piece; the last line keeps its `\r`
abbrev each_line : List Bytes → List Bytes
each_line [] = []
each_line ([] ∷ []) = []
each_line (t ∷ []) = t ∷ []
each_line (t ∷ u ∷ ts) = strip_cr t ∷ each_line (u ∷ ts)

-- `str::lines`
unfoldable pub lines : Bytes → List Bytes
unfolding split_on
lines s = each_line (split_on 10 s)

abbrev pub is_ascii_digit : ℕ → Bool
is_ascii_digit c = leb 48 c && leb c 57

-- the value of a string of digits, behind digits of the value `acc`
unfoldable pub digits : ℕ → Bytes → Option ℕ
digits acc [] = some acc
digits acc (c ∷ cs) =
    let rest = digits (acc * 10 + (c - 48)) cs in if is_ascii_digit c then rest else none

abbrev fits_u64 : Option ℕ → Option ℕ
fits_u64 none = none
fits_u64 (some n) = if ltb n (2 ^ 64) then some n else none

abbrev unsigned : Bytes → Option ℕ
unsigned [] = none
unsigned (c ∷ cs) = fits_u64 (digits 0 (c ∷ cs))

-- `u64::from_str`; its error is not told apart
unfoldable pub parse_u64 : Bytes → Option ℕ
unfolding digits
parse_u64 [] = none
parse_u64 (c ∷ cs) = if c == 43 then unsigned cs else unsigned (c ∷ cs)

-- the pieces of a path that name something
abbrev named : List Bytes → List Bytes
named [] = []
named ([] ∷ ts) = named ts
named ((c ∷ t) ∷ ts) = if bytes_eq (c ∷ t) (46 ∷ []) then named ts else (c ∷ t) ∷ named ts

abbrev relative : List Bytes → List Bytes
relative [] = []
relative (t ∷ ts) = if bytes_eq t (46 ∷ []) then t ∷ named ts else named (t ∷ ts)

abbrev is_absolute : Bytes → Bool
is_absolute [] = false
is_absolute (c ∷ cs) = c == 47

-- `Path::components`, the root as `/`
unfoldable pub components : Bytes → List Bytes
unfolding split_on bytes_eq
components p = if is_absolute p then (47 ∷ []) ∷ named (split_on 47 p) else relative (split_on 47 p)

unfoldable pub is_prefix : List Bytes → List Bytes → Bool
unfolding bytes_eq
is_prefix [] ys = true
is_prefix (x ∷ xs) [] = false
is_prefix (x ∷ xs) (y ∷ ys) = bytes_eq x y && is_prefix xs ys

-- `Path::starts_with`
unfoldable pub path_starts_with : Bytes → Bytes → Bool
unfolding components is_prefix
path_starts_with path base = is_prefix (components base) (components path)
