-- ===== src/Mount/Octal.antt =====
-- The octal escapes of the kernel's tables: `unescape_proc_octal`.
use imi.Common.{
  ℕ, ◌+◌, ◌*◌, ◌-◌, ◌/◌, ◌%◌, Bytes, [], ◌∷◌, ◌++◌, Option, none, some, Bool, ltb, leb, ◌==◌, ◌&&◌,
  ◌||◌, if◌then◌else◌,
}
use imi.Strings.Utf8.{from_utf8_lossy}

-- `checked_sub`, then the filter
abbrev pub octal_val : ℕ → Option ℕ
octal_val b = if leb 48 b && ltb (b - 48) 8 then some (b - 48) else none

-- `u8::try_from` of the three digits
abbrev pub octal_byte : Option ℕ → Option ℕ → Option ℕ → Option ℕ
octal_byte (some h) (some m) (some l) =
    let v = h * 64 + m * 8 + l in if ltb v 256 then some v else none
octal_byte _ _ _ = none

abbrev pub escaped : ℕ → ℕ → ℕ → ℕ → Option ℕ
escaped b d0 d1 d2 =
    if b == 92 then octal_byte (octal_val d0) (octal_val d1) (octal_val d2) else none

-- the `while` loop
unfoldable pub unescape_bytes : Bytes → Bytes
unescape_bytes [] = []
unescape_bytes (b ∷ d0 ∷ d1 ∷ d2 ∷ after) = elim (escaped b d0 d1 d2) [
  | some byte ↦ byte ∷ unescape_bytes after
  | none ↦ b ∷ unescape_bytes (d0 ∷ d1 ∷ d2 ∷ after)
]
unescape_bytes (b ∷ tail) = b ∷ unescape_bytes tail

-- Well-formed UTF-8 is its own lossy decoding.
unfoldable pub unescape_proc_octal : Bytes → Bytes
unfolding unescape_bytes from_utf8_lossy
unescape_proc_octal s = from_utf8_lossy (unescape_bytes s)

-- What `seq_file_path()` of the kernel does with a path: a space, a tab, a newline and a backslash
-- become a backslash and three octal digits.
abbrev pub is_escaped : ℕ → Bool
is_escaped b = b == 32 || (b == 9 || (b == 10 || b == 92))

abbrev pub octal : ℕ → Bytes
octal b = 92 ∷ (48 + b / 64) ∷ (48 + b / 8 % 8) ∷ (48 + b % 8) ∷ []

unfoldable pub mangle : Bytes → Bytes
mangle [] = []
mangle (b ∷ bs) = (if is_escaped b then octal b else b ∷ []) ++ mangle bs
