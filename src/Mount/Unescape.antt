-- ===== src/Mount/Unescape.antt =====
-- Laws of the decoder of escapes, against the kernel's encoder.
use imi.Common.{
  ℕ, ◌≡◌, ◌≢◌, refl, sym, ap, arith, Bytes, [], ◌∷◌, ◌++◌, Bool, true, false, ◌⊎◌, inl, inr, ◌∙◌,
  if◌then◌else◌,
}
use mathlib.Core.Path.{subst}
use imi.Strings.Utf8.{from_utf8_lossy}
use imi.Strings.Split.{Free}
use imi.Mount.Octal.{octal, is_escaped, mangle, unescape_bytes, unescape_proc_octal}

unescape_plain : (b : ℕ) (xs : Bytes) → b ≢ 92 → unescape_bytes (b ∷ xs) ≡ b ∷ unescape_bytes xs
unfolding unescape_bytes
unescape_plain b [] ne = refl
unescape_plain b (x ∷ []) ne = refl
unescape_plain b (x ∷ y ∷ []) ne = refl
unescape_plain b (x ∷ y ∷ z ∷ zs) ne = ground (arith, ne)

escaped-cases : (b : ℕ) → is_escaped b ≡ true → (b ≡ 32) ⊎ ((b ≡ 9) ⊎ ((b ≡ 10) ⊎ (b ≡ 92)))
escaped-cases b h = ground arith

unescape_octal :
    (b : ℕ) (xs : Bytes)
    → is_escaped b ≡ true
    → unescape_bytes (octal b ++ xs) ≡ b ∷ unescape_bytes xs
unfolding unescape_bytes
unescape_octal b xs h = elim (escaped-cases b h) [
  | inl e ↦ subst (λ c. unescape_bytes (octal c ++ xs) ≡ c ∷ unescape_bytes xs) (sym e) refl
  | inr (inl e) ↦ subst (λ c. unescape_bytes (octal c ++ xs) ≡ c ∷ unescape_bytes xs) (sym e) refl
  | inr (inr (inl e)) ↦
      subst (λ c. unescape_bytes (octal c ++ xs) ≡ c ∷ unescape_bytes xs) (sym e) refl
  | inr (inr (inr e)) ↦
      subst (λ c. unescape_bytes (octal c ++ xs) ≡ c ∷ unescape_bytes xs) (sym e) refl
]

unescape_step :
    (t : Bool) (b : ℕ) (xs : Bytes)
    → is_escaped b ≡ t
    → unescape_bytes ((if t then octal b else b ∷ []) ++ xs) ≡ b ∷ unescape_bytes xs
unescape_step true b xs h = unescape_octal b xs h
unescape_step false b xs h = unescape_plain b xs (λ e. ground (arith, e))

unescape-mangle : (bs : Bytes) → unescape_bytes (mangle bs) ≡ bs
unfolding mangle unescape_bytes
unescape-mangle [] = refl
unescape-mangle (b ∷ bs) =
    unescape_step (is_escaped b) b (mangle bs) refl ∙ ap (λ t. b ∷ t) (unescape-mangle bs)

-- Every path that is well-formed UTF-8, so that its lossy decoding is itself, is read back as it
-- was, whatever spaces, tabs, newlines and backslashes it holds.
pub unescape_proc_octal-mangle :
    (bs : Bytes) → from_utf8_lossy bs ≡ bs → unescape_proc_octal (mangle bs) ≡ bs
unfolding unescape_proc_octal
unescape_proc_octal-mangle bs h = ap (λ t. from_utf8_lossy t) (unescape-mangle bs) ∙ h

Free-step :
    (t : Bool) (b : ℕ) (xs : Bytes)
    → is_escaped b ≡ t
    → Free 32 xs
    → Free 32 ((if t then octal b else b ∷ []) ++ xs)
Free-step true b xs h f = elim (escaped-cases b h) [
  | inl e ↦
      subst (λ c. Free 32 (octal c ++ xs)) (sym e)
        (
          (λ e. omega (arith, e)),
          ((λ e. omega (arith, e)), ((λ e. omega (arith, e)), ((λ e. omega (arith, e)), f))),
        )
  | inr (inl e) ↦
      subst (λ c. Free 32 (octal c ++ xs)) (sym e)
        (
          (λ e. omega (arith, e)),
          ((λ e. omega (arith, e)), ((λ e. omega (arith, e)), ((λ e. omega (arith, e)), f))),
        )
  | inr (inr (inl e)) ↦
      subst (λ c. Free 32 (octal c ++ xs)) (sym e)
        (
          (λ e. omega (arith, e)),
          ((λ e. omega (arith, e)), ((λ e. omega (arith, e)), ((λ e. omega (arith, e)), f))),
        )
  | inr (inr (inr e)) ↦
      subst (λ c. Free 32 (octal c ++ xs)) (sym e)
        (
          (λ e. omega (arith, e)),
          ((λ e. omega (arith, e)), ((λ e. omega (arith, e)), ((λ e. omega (arith, e)), f))),
        )
]
Free-step false b xs h f = ((λ e. ground (arith, e)), f)

-- An escaped path has no space.
pub mangle-Free : (bs : Bytes) → Free 32 (mangle bs)
unfolding mangle
mangle-Free [] = tt
mangle-Free (b ∷ bs) = Free-step (is_escaped b) b (mangle bs) refl (mangle-Free bs)
