-- ===== src/Strings/Utf8.antt =====
-- `String::from_utf8_lossy`: each maximal part of an ill-formed sequence becomes U+FFFD.
use imi.Common.{
  ℕ, zero, suc, ◌≡◌, ◌<◌, refl, arith, Bytes, [], ◌∷◌, ◌++◌, Bool, true, false, ◌&&◌, ◌||◌, ltb,
  leb, ◌==◌, if◌then◌else◌,
}

-- inside a sequence: the bytes so far, the bounds of the next one, and how many follow it
pub data State : Type 0 where
  idle : State
  pending : Bytes → ℕ → ℕ → ℕ → State

abbrev replacement : Bytes
replacement = 239 ∷ 191 ∷ 189 ∷ []

abbrev between : ℕ → ℕ → ℕ → Bool
between lo hi b = leb lo b && leb b hi

-- the first byte of a sequence: what is put out, and the state behind it
abbrev start : ℕ → Bytes × State
start b =
    if ltb b 128
    then (b ∷ [], idle)
    else if between 194 223 b
    then ([], pending (b ∷ []) 128 191 0)
    else if b == 224
    then ([], pending (b ∷ []) 160 191 1)
    else if b == 237
    then ([], pending (b ∷ []) 128 159 1)
    else if between 225 239 b
    then ([], pending (b ∷ []) 128 191 1)
    else if b == 240
    then ([], pending (b ∷ []) 144 191 2)
    else if between 241 243 b
    then ([], pending (b ∷ []) 128 191 2)
    else if b == 244
    then ([], pending (b ∷ []) 128 143 2)
    else (replacement, idle)

-- one more byte of a sequence that is well-formed so far
abbrev follow : Bytes → ℕ → ℕ → Bytes × State
follow acc zero b = (acc ++ (b ∷ []), idle)
follow acc (suc n) b = ([], pending (acc ++ (b ∷ [])) 128 191 n)

abbrev step : State → ℕ → Bytes × State
step idle b = start b
step (pending acc lo hi n) b =
    if between lo hi b then follow acc n b else (let (out, s) = start b in (replacement ++ out, s))

pub decode : State → Bytes → Bytes
decode idle [] = []
decode (pending acc lo hi n) [] = replacement
decode s (b ∷ bs) = let (out, s') = step s b in out ++ decode s' bs

unfoldable pub from_utf8_lossy : Bytes → Bytes
unfolding decode
from_utf8_lossy bs = decode idle bs

abbrev pub Ascii : Bytes → Type 0
Ascii [] = Unit
Ascii (b ∷ bs) = (b < 128) × Ascii bs

pub lossy-Ascii : (bs : Bytes) → Ascii bs → from_utf8_lossy bs ≡ bs
unfolding from_utf8_lossy decode
lossy-Ascii [] h = refl
lossy-Ascii (b ∷ bs) (lt, h) = ground (arith, lossy-Ascii bs h)

-- whether the bytes go on a sequence as `step` expects them to
abbrev proceeds : State → ℕ → Bool
proceeds idle b = ltb b 128 || between 194 244 b
proceeds (pending acc lo hi n) b = between lo hi b

abbrev at_rest : State → Bool
at_rest idle = true
at_rest (pending acc lo hi n) = false

unfoldable pub well_formed : State → Bytes → Bool
well_formed s [] = at_rest s
well_formed s (b ∷ bs) = let rest = well_formed (step s b).1 bs in proceeds s b && rest

-- whether `OsStr::to_str` is some
unfoldable pub is_utf8 : Bytes → Bool
unfolding well_formed
is_utf8 bs = well_formed idle bs
