-- ===== src/Preflight/Laws.antt =====
-- What the guards of Phase 0 let pass.
use imi.Common.{
  ℕ, ◌-◌, Bool-cases, ◌≤◌, ◌≡◌, ◌≢◌, ◌↔◌, ◌⊎◌, inl, inr, refl, arith, Bytes, Option, none, some,
  true, bytes_eq_iff, Result, ok,
}
use imi.Error.{Error}
use imi.Events.{Summary}
use imi.Host.{Host}
use imi.Config.{Config}
use imi.Wipe.{tail_wipe_offset}
use imi.Preflight.{
  ensure_distinct_paths, ensure_device_large_enough, ensure_image_fits, confirm_destruction,
}

abbrev pub passed : Result Error (Unit {0})
passed = ok tt

-- Phase 0 lets a device pass for its size exactly when Phase 3 will find a place for the tail of its
-- wipe, so that the wipe never refuses a device that Phase 0 accepted.
pub ensure_device_large_enough_iff :
    (region dev_size : ℕ)
    → (ensure_device_large_enough region dev_size ≡ passed)
      ↔ ((t : ℕ) × (tail_wipe_offset region dev_size ≡ some t))
unfolding ensure_device_large_enough tail_wipe_offset
ensure_device_large_enough_iff region dev_size =
    ((λ h. (dev_size - region, ground arith)), λ x. let (t, e) = x in ground (arith, e))

-- The size check and the path check pass exactly when a raw image, whose size is known, is not
-- larger than the device, and when the two paths are different.
pub ensure_image_fits_iff :
    (img dev : Bytes) (raw_size : Option ℕ) (dev_size : ℕ)
    → ((ensure_image_fits raw_size dev_size ≡ passed) × (ensure_distinct_paths img dev ≡ passed))
      ↔ (((n : ℕ) → raw_size ≡ some n → n ≤ dev_size) × (img ≢ dev))
unfolding ensure_image_fits ensure_distinct_paths
ensure_image_fits_iff img dev none dev_size = (
  (λ h. ((λ n e. absurd (ground (arith, e))), λ e. ground (arith, h, (bytes_eq_iff img dev).1 e))),
  (λ h. (refl, ground (arith, h, bytes_eq_iff img dev))),
)
ensure_image_fits_iff img dev (some k) dev_size = (
  (λ h. ((λ n e. ground (arith, h, e)), λ e. ground (arith, h, (bytes_eq_iff img dev).1 e))),
  (λ h.
      let le : k ≤ dev_size = h.0 k refl in
      (ground arith, ground (arith, h, bytes_eq_iff img dev))),
)

module _ (h : Host) (config : Config) (summary : Summary) where
  open h use {World, confirm}

  -- The run goes on exactly when the configuration says yes or the caller confirms the summary.
  pub confirm_destruction_iff :
      (s : World)
      → ((confirm_destruction h config summary s).0 ≡ passed)
        ↔ ((config.yes ≡ true) ⊎ ((confirm summary s).0 ≡ true))
  unfolding confirm_destruction
  confirm_destruction_iff s = elim (Bool-cases config.yes) [
    | inl t ↦ rw t ((λ _. inl refl), λ _. refl)
    | inr f ↦ rw f (elim (Bool-cases (confirm summary s).0) [
      | inl t ↦ rw t ((λ _. inr refl), λ _. refl)
      | inr g ↦ rw g ((λ h. absurd (ground (arith, h))), λ h. absurd (ground (arith, h)))
    ])
  ]
