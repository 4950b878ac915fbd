-- ===== src/Strings/Split.antt =====
-- Laws of splitting at a byte, against joining with it.
use imi.Common.{
  ℕ, ◌≡◌, ◌≢◌, refl, arith, Bytes, List, [], ◌∷◌, ◌++◌, some, ◌==◌, Bool, true, not, ◌&&◌,
}
use imi.Strings.{split_on, split_once}

-- the byte `sep` is not in the piece
abbrev pub Free : ℕ → Bytes → Type 0
Free sep [] = Unit
Free sep (c ∷ cs) = (c ≢ sep) × Free sep cs

abbrev pub AllFree : ℕ → List Bytes → Type 0
AllFree sep [] = Unit
AllFree sep (t ∷ ts) = Free sep t × AllFree sep ts

-- the pieces with `sep` between them
abbrev pub join : ℕ → List Bytes → Bytes
join sep [] = []
join sep (t ∷ []) = t
join sep (t ∷ u ∷ ts) = t ++ (sep ∷ join sep (u ∷ ts))

split_on_last : (sep : ℕ) (t : Bytes) → Free sep t → split_on sep t ≡ t ∷ []
unfolding split_on
split_on_last sep [] h = refl
split_on_last sep (c ∷ t) (ne, h) = ground (arith, ne, split_on_last sep t h)

split_on_piece :
    (sep : ℕ) (t rest : Bytes)
    → Free sep t
    → split_on sep (t ++ (sep ∷ rest)) ≡ t ∷ split_on sep rest
unfolding split_on
split_on_piece sep [] rest h = ground arith
split_on_piece sep (c ∷ t) rest (ne, h) = ground (arith, ne, split_on_piece sep t rest h)

pub split_on-join :
    (sep : ℕ) (t : Bytes) (ts : List Bytes)
    → AllFree sep (t ∷ ts)
    → split_on sep (join sep (t ∷ ts)) ≡ t ∷ ts
split_on-join sep t [] (h, _) = split_on_last sep t h
split_on-join sep t (u ∷ ts) (h, hs) =
    rw (split_on_piece sep t (join sep (u ∷ ts)) h, split_on-join sep u ts hs) refl

pub split_once-join :
    (sep : ℕ) (a b : Bytes) → Free sep a → split_once sep (a ++ (sep ∷ b)) ≡ some (a, b)
unfolding split_once
split_once-join sep [] b h = ground arith
split_once-join sep (c ∷ a) b (ne, h) = ground (arith, ne, split_once-join sep a b h)

-- `Free`, as a test
unfoldable pub is_free : ℕ → Bytes → Bool
is_free sep [] = true
is_free sep (c ∷ cs) = not (c == sep) && is_free sep cs

pub Free-of_test : (sep : ℕ) (bs : Bytes) → is_free sep bs ≡ true → Free sep bs
unfolding is_free
Free-of_test sep [] h = tt
Free-of_test sep (c ∷ cs) h = ((λ e. ground (arith, h, e)), Free-of_test sep cs (ground (arith, h)))
