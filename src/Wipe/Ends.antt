-- ===== src/Wipe/Ends.antt =====
-- What the wipe does to the device, and where it stops.
use imi.Common.{
  ℕ, zero, suc, ◌+◌, ◌-◌, ◌*◌, ◌≤◌, ◌<◌, Option, none, some, ◌≡◌, ◌⊎◌, inr, ◌↔◌, ◌∙◌, refl, arith,
  length, get_or, replicate, Bytes, [], ◌∷◌, ◌≢◌, length-replicate,
}
use imi.Exec.{call}
use imi.Error.{Detail, say, out_of_fuel, Error, msg}
use imi.Exec.Ends.{Ends, Ends-continue, Ends-mono, Ends-call, stop}
use imi.Host.{Host}
use imi.Host.Disk.{Disk, overlay}
use imi.Host.Keep.{io-Sourced, Sourced, Holds, call-Kept}
use imi.Wipe.{tail_wipe_offset, wipe_at, wipe_ends}

-- There is a place for the tail exactly when head and tail do not overlap, and it is then the last
-- `region` bytes.
pub tail_wipe_offset_iff :
    (region dev_size t : ℕ)
    → (tail_wipe_offset region dev_size ≡ some t)
      ↔ ((2 * region ≤ dev_size) × (t + region ≡ dev_size))
unfolding tail_wipe_offset
tail_wipe_offset_iff region dev_size t = ground arith

abbrev zeros : ℕ → Bytes
zeros n = replicate n 0

zeros_len : (n : ℕ) → length (zeros n) ≡ n
zeros_len n = length-replicate n _

zeros_at : (n i : ℕ) → get_or (zeros n) i 0 ≡ 0
zeros_at zero i = refl
zeros_at (suc n) zero = refl
zeros_at (suc n) (suc i) = zeros_at n i

-- the two regions of the wipe
abbrev pub InEnds : ℕ → ℕ → ℕ → Type 0
InEnds region dev_size i = (i < region) ⊎ ((dev_size ≤ i + region) × (i < dev_size))

abbrev pub Between : ℕ → ℕ → ℕ → Type 0
Between region dev_size i = (region ≤ i) × ((i + region < dev_size) ⊎ (dev_size ≤ i))

module _ (h : Host) (d : Disk h) (region dev_size : ℕ) (f : ℕ → ℕ) where
  open h use {World, alloc, write_all_at, fdatasync}

  abbrev pub Wiped : Unit {0} → World → Type 0
  Wiped u s' =
      (2 * region ≤ dev_size)
      × ((i : ℕ) → InEnds region dev_size i → d.byte s' i ≡ 0)
      × ((i : ℕ) → Between region dev_size i → d.byte s' i ≡ f i)

  abbrev pub Spared : Error → World → Type 0
  Spared e s' =
      Sourced e
      × (dev_size < 2 * region → Holds h d f s')
      × ((i : ℕ) → Between region dev_size i → d.byte s' i ≡ f i)

  zeroed :
      (t : ℕ) (s' : World)
      → 2 * region ≤ dev_size
      → t + region ≡ dev_size
      → Holds h d (overlay (overlay f 0 (zeros region)) t (zeros region)) s'
      → Wiped tt s'
  zeroed t s' fits e p = (
    fits,
    (λ i c. p i ∙ ground (arith, c, zeros_len region, zeros_at region i, zeros_at region (i - t))),
    λ i c. p i ∙ ground (arith, c, zeros_len region),
  )

  -- a write of zeros at `t`; when it fails, the bytes outside are as they were
  zeros-Ends :
      (g : ℕ → ℕ) (what : Detail) (t : ℕ) (s : World)
      → what ≢ out_of_fuel
      → Holds h d g s
      → Ends
          (λ _ s'. Holds h d (overlay g t (zeros region)) s')
          (λ e s'. Sourced e × ((i : ℕ) → (i < t) ⊎ (t + region ≤ i) → d.byte s' i ≡ g i))
          (call what (write_all_at (zeros region) t) s)
  zeros-Ends g what t s ne p =
      Ends-call _ (write_all_at (zeros region) t) s
        (Ends-mono (d.write_at (zeros region) t s) (λ _ s' q i. q i ∙ ground (arith, p i))
          (λ k s' q i c. q i (ground (arith, c, zeros_len region)) ∙ p i))
        (λ k s' x. (io-Sourced what k ne, x))

  wipe_at-Ends :
      (t : ℕ) (s : World)
      → 2 * region ≤ dev_size
      → t + region ≡ dev_size
      → Holds h d f s
      → Ends Wiped Spared (wipe_at h region dev_size (some t) s)
  wipe_at-Ends t s fits e p =
      Ends-continue _ (call-Kept h d _ alloc s (λ x. cc) (d.alloc_keeps s) p)
        (λ _ s₁ q.
          Ends-continue _ (zeros-Ends f _ 0 s₁ (λ x. cc) q)
            (λ _ s₂ q'.
              Ends-continue _ (zeros-Ends (overlay f 0 (zeros region)) _ t s₂ (λ x. cc) q')
                (λ _ s₃ w.
                  Ends-mono (call-Kept h d _ fdatasync s₃ (λ x. cc) (d.sync_keeps s₃) w)
                    (λ _ s₄ y. zeroed t s₄ fits e y)
                    (λ e' s₄ y. (y.0, (λ l. absurd (omega arith)), (zeroed t s₄ fits e y.1).2)))
                (λ e' s₃ y. (
                  y.0,
                  (λ l. absurd (omega arith)),
                  λ i c. y.1 i (ground (arith, c)) ∙ ground (arith, c, zeros_len region),
                )))
            (λ e' s₂ y. (y.0, (λ l. absurd (omega arith)), λ i c. y.1 i (inr (omega (arith, c))))))
        (λ e' s₁ y. (y.0, (λ l i. y.1 i), λ i c. y.1 i))

  too_small :
      (s : World)
      → dev_size < 2 * region
      → Holds h d f s
      → Spared
          (msg (
            say "device is too small for a head+tail signature wipe; refusing to flash"
              (dev_size ∷ [])
              []))
          s
  unfolding msg
  too_small s l p = (((λ x. cc), λ x. cc), (λ _. p), λ i _. p i)

  -- From a device that holds `f`: a wipe that succeeds found room for both regions, has set every
  -- byte of the first and of the last `region` bytes to zero, and has left every other byte as it
  -- was. A wipe that fails has changed no byte outside the two regions, and no byte at all when
  -- they would overlap.
  pub wipe_ends_lem :
      (s : World) → Holds h d f s → Ends Wiped Spared (wipe_ends h region dev_size s)
  unfolding wipe_ends
  wipe_ends_lem s p = go (tail_wipe_offset region dev_size) refl
    where
      go :
          (o : Option ℕ)
          → tail_wipe_offset region dev_size ≡ o
          → Ends Wiped Spared (wipe_at h region dev_size o s)
      go none e = stop (too_small s (refused e) p)
        where
          refused : tail_wipe_offset region dev_size ≡ none → dev_size < 2 * region
          refused e = unfold tail_wipe_offset in ground arith
      go (some t) e =
          let (fits, end) = (tail_wipe_offset_iff region dev_size t).0 e in
          wipe_at-Ends t s fits end p
