-- ===== src/Strings/Chars.antt =====
-- What the crate uses of Rust's strings character by character, on code points: `chars`, `trim`,
-- `split_whitespace`, `char::is_control`, and the encoding of a character.
use imi.Common.{
  ℕ, zero, suc, ◌+◌, ◌-◌, ◌*◌, ◌/◌, ◌%◌, Bytes, List, [], ◌∷◌, ◌++◌, Bool, ◌&&◌, ◌||◌, ltb, leb,
  ◌==◌, if◌then◌else◌,
}
use imi.Strings.{cons_first}

-- the code points with the property White_Space
abbrev pub is_whitespace : ℕ → Bool
is_whitespace c =
    (leb 9 c && leb c 13)
    || (c == 32
        || (c == 133
            || (c == 160
                || (c == 5760
                    || ((leb 8192 c && leb c 8202)
                        || (c == 8232
                            || (c == 8233 || (c == 8239 || (c == 8287 || c == 12288)))))))))

unfoldable pub trim_start : Bytes → Bytes
trim_start [] = []
trim_start (c ∷ cs) = let rest = trim_start cs in if is_whitespace c then rest else c ∷ cs

abbrev keep : ℕ → Bytes → Bytes
keep c [] = if is_whitespace c then [] else c ∷ []
keep c (d ∷ ds) = c ∷ d ∷ ds

unfoldable pub trim_end : Bytes → Bytes
trim_end [] = []
trim_end (c ∷ cs) = keep c (trim_end cs)

-- `str::trim`
abbrev pub trim : Bytes → Bytes
trim s = trim_end (trim_start s)

-- `char::is_control`
abbrev pub is_control : ℕ → Bool
is_control c = ltb c 32 || (leb 127 c && leb c 159)

-- the bits that the first byte of a sequence carries, and how many bytes follow it
abbrev lead : ℕ → ℕ × ℕ
lead b =
    if ltb b 128
    then (b, 0)
    else if ltb b 224
    then (b - 192, 1)
    else if ltb b 240
    then (b - 224, 2)
    else (b - 240, 3)

-- the rest of a character that has `n` bytes to come, behind the bits `c`
unfoldable pub chars_from : ℕ → ℕ → Bytes → List ℕ
chars_from zero c [] = c ∷ []
chars_from zero c (b ∷ bs) = c ∷ chars_from (lead b).1 (lead b).0 bs
chars_from (suc n) c [] = []
chars_from (suc n) c (b ∷ bs) = chars_from n (c * 64 + (b - 128)) bs

-- `str::chars`; a `str` is well-formed UTF-8
unfoldable pub chars : Bytes → List ℕ
unfolding chars_from
chars [] = []
chars (b ∷ bs) = chars_from (lead b).1 (lead b).0 bs

abbrev pub continuation : ℕ → ℕ
continuation c = 128 + c % 64

-- `char::encode_utf8`
abbrev pub encode_char : ℕ → Bytes
encode_char c =
    if ltb c 128
    then c ∷ []
    else if ltb c 2048
    then (192 + c / 64) ∷ continuation c ∷ []
    else if ltb c 65536
    then (224 + c / 4096) ∷ continuation (c / 64) ∷ continuation c ∷ []
    else (240 + c / 262144) ∷ continuation (c / 4096) ∷ continuation (c / 64) ∷ continuation c ∷ []

unfoldable pub encode : List ℕ → Bytes
encode [] = []
encode (c ∷ cs) = encode_char c ++ encode cs

-- split at every white space
unfoldable pub split_at_space : List ℕ → List (List ℕ)
split_at_space [] = [] ∷ []
split_at_space (c ∷ cs) =
    let rest = split_at_space cs in if is_whitespace c then [] ∷ rest else cons_first c rest

unfoldable pub nonempty_pieces : List (List ℕ) → List (List ℕ)
nonempty_pieces [] = []
nonempty_pieces ([] ∷ ts) = nonempty_pieces ts
nonempty_pieces ((c ∷ t) ∷ ts) = (c ∷ t) ∷ nonempty_pieces ts

-- `str::split_whitespace`
unfoldable pub split_whitespace : List ℕ → List (List ℕ)
unfolding split_at_space nonempty_pieces
split_whitespace s = nonempty_pieces (split_at_space s)
