-- ===== src/Image/Exact.antt =====
-- `fill_exact` of crates/imi-core/src/phases/phase_5.rs.
use imi.Common.{
  ℕ, suc, ◌-◌, ◌≤◌, ◌<◌, Bytes, List, [], ◌∷◌, ◌++◌, Option, none, some, ◌≡◌, ◌⊎◌, inl, inr, refl,
  sym, ◌∙◌, arith, leb, if◌then◌else◌, length, take, drop, Result, ok, err, append-nil,
  append_assoc, length-append, length-drop, length-take, take-append-drop, Bool, true, false, ap,
}
use imi.Error.{IoKind, interrupted, unexpected_eof}
use imi.Host.{Read, bytes, fails}
use imi.Image.{stream, failure}

-- the bytes placed, and what is left of the stream
abbrev pub Exact : Type 0
Exact = Result IoKind (Bytes × List Read)

-- the `while` loop for a buffer of `n` bytes, with the bytes placed so far
unfoldable pub exact_loop : List Read → Bytes → ℕ → Exact
exact_loop [] done n = if leb n (length done) then ok (done, []) else err unexpected_eof
exact_loop (bytes [] ∷ es) done n =
    if leb n (length done) then ok (done, bytes [] ∷ es) else err unexpected_eof
exact_loop (bytes (b ∷ bs) ∷ es) done n =
    let room = n - length done in
    let rest = exact_loop es (done ++ (b ∷ bs)) n in
    if leb n (length done)
    then ok (done, bytes (b ∷ bs) ∷ es)
    else if leb (length (b ∷ bs)) room
    then rest
    else ok (done ++ take room (b ∷ bs), bytes (drop room (b ∷ bs)) ∷ es)
exact_loop (fails interrupted ∷ es) done n =
    let rest = exact_loop es done n in
    if leb n (length done) then ok (done, fails interrupted ∷ es) else rest
exact_loop (fails k ∷ es) done n = if leb n (length done) then ok (done, fails k ∷ es) else err k

unfoldable pub fill_exact : List Read → ℕ → Exact
unfolding exact_loop
fill_exact es n = exact_loop es [] n

-- What the loop must have done with a stream of the bytes `src` that ends by `fault`.
abbrev pub ExactSpec : ℕ → Bytes → Option IoKind → Exact → Type 0
ExactSpec n src fault (ok (bs, es)) =
    (src ≡ bs ++ stream es) × (length bs ≡ n) × (fault ≡ failure es)
ExactSpec n src fault (err k) =
    (length src < n) × ((fault ≡ some k) ⊎ ((fault ≡ none) × (k ≡ unexpected_eof)))

ExactSpec-step :
    (b : Bool) (src : Bytes) (fault : Option IoKind) (n : ℕ) (x y : Exact)
    → (b ≡ true → ExactSpec n src fault x)
    → (b ≡ false → ExactSpec n src fault y)
    → ExactSpec n src fault (if b then x else y)
ExactSpec-step true src fault n x y f g = f refl
ExactSpec-step false src fault n x y f g = g refl

stream-bytes :
    (xs : Bytes) (es : List Read)
    → 0 < length xs
    → (stream (bytes xs ∷ es) ≡ xs ++ stream es) × (failure (bytes xs ∷ es) ≡ failure es)
unfolding stream failure
stream-bytes [] es h = absurd (omega arith)
stream-bytes (x ∷ xs) es h = (refl, refl)

split_here :
    (xs done : Bytes) (n : ℕ) (es : List Read)
    → length done ≤ n
    → n - length done < length xs
    → let room = n - length done in
      ExactSpec n
        (done ++ (xs ++ stream es))
        (failure es)
        (ok (done ++ take room xs, bytes (drop room xs) ∷ es))
split_here xs done n es h lt =
    let room = n - length done in
    let rest = stream-bytes (drop room xs) es (omega (arith, length-drop room xs)) in
    (
      sym (
          rw rest.0 (
            rw append_assoc (
              ap (λ t. done ++ t)
                (sym (append_assoc (take room xs) (drop room xs) (stream es))
                  ∙ ap (λ t. t ++ stream es) (take-append-drop room xs))))),
      omega (arith, length-append done (take room xs), length-take room xs),
      sym rest.1,
    )

exact_loop_lem :
    (es : List Read) (done : Bytes) (n : ℕ)
    → length done ≤ n
    → ExactSpec n (done ++ stream es) (failure es) (exact_loop es done n)
unfolding exact_loop stream failure
exact_loop_lem [] done n h =
    ExactSpec-step (leb n (length done)) _ _ n _ _ (λ t. (refl, ground arith, refl))
      (λ f. (ground (arith, append-nil done), inr (refl, refl)))
exact_loop_lem (bytes [] ∷ es) done n h =
    ExactSpec-step (leb n (length done)) _ _ n _ _ (λ t. (refl, ground arith, refl))
      (λ f. (ground (arith, append-nil done), inr (refl, refl)))
exact_loop_lem (bytes (b ∷ bs) ∷ es) done n h =
    let rec = exact_loop_lem es (done ++ (b ∷ bs)) n in
    ExactSpec-step (leb n (length done)) _ _ n _ _ (λ t. (refl, ground arith, refl))
      (λ f.
        ExactSpec-step (leb (suc (length bs)) (n - length done)) _ _ n _ _
          (λ u. rw append_assoc at (rec (ground (arith, length-append done (b ∷ bs)))))
          (λ v. split_here (b ∷ bs) done n es h (ground arith)))
exact_loop_lem (fails interrupted ∷ es) done n h =
    ExactSpec-step (leb n (length done)) _ _ n _ _ (λ t. (refl, ground arith, refl))
      (λ f. exact_loop_lem es done n h)
exact_loop_lem (fails k ∷ es) done n h =
    ExactSpec-step (leb n (length done)) _ _ n _ _ (λ t. (refl, ground arith, refl))
      (λ f. (ground (arith, append-nil done), inl refl))

-- `fill_exact` places the next `n` bytes of the stream and leaves the rest to be read. It fails
-- exactly when the stream holds fewer bytes: with the stream's own failure, or else with
-- `UnexpectedEof`.
pub fill_exact_lem :
    (es : List Read) (n : ℕ) → ExactSpec n (stream es) (failure es) (fill_exact es n)
unfolding fill_exact
fill_exact_lem es n = exact_loop_lem es [] n (omega arith)
