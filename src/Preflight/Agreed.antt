-- ===== src/Preflight/Agreed.antt =====
-- Laws of phase 0 as a whole: crates/imi-core/src/phases/phase_0.rs.
use imi.Common.{ℕ, ◌≤◌, Bytes, Option, some, ◌≡◌, ◌≢◌, ◌⊎◌, inl, inr, true, Result, map_err}
use imi.Error.{Error, untouched, at}
use imi.Events.{Compression, Summary, preflight, phase_started, phase_finished}
use imi.Config.{Config, resolved_cooldown_secs, validate_cooldown_secs}
use imi.Exec.Ends.{Ends, Ends-if, done, stop}
use imi.Exec.Yields.{Any, Ends-next, call_yields, lift_yields, within-Any, act_yields, act-Any}
use imi.Host.{Host}
use imi.Identity.{DeviceIdentity}
use imi.Identity.Capture.{capture}
use imi.Image.Magic.{detect_compression}
use imi.Preflight.{
  ensure_distinct_paths, ensure_device_large_enough, ensure_image_fits, phase0_root_check,
  ensure_image_is_regular_file, ensure_block_device, confirm_destruction,
}
use imi.Preflight.Laws.{
  ensure_image_fits_iff, ensure_device_large_enough_iff, confirm_destruction_iff, passed,
}
use imi.Preflight.Run.{
  raw_size_of, ensure_whole_disk, query_dev_geometry_readonly, describe, check_inputs,
  preflight_run,
}
use imi.Preflight.Subtree.{ensure_image_not_on_target}
use imi.Session.{Target, outcome_of}
use imi.Sysfs.{device_model}
use imi.Sysfs.Names.{kname_for_path}
use imi.Wipe.{tail_wipe_offset}
use imi.Wipe.Run.{at-device}

module _ (h : Host) (fuel region : ℕ) (config : Config) where
  open h use {World, emit, confirm, canonicalize}

  -- what the user is shown
  abbrev pub seen : Bytes → Bytes → Compression → Option ℕ → ℕ → Option Bytes → Summary
  seen img dev comp raw_size dev_size model = record {
    device = dev;
    model = model;
    device_size = dev_size;
    image = img;
    compression = comp;
    raw_image_size = raw_size;
  }

  -- the user agreed to what is done to the target
  abbrev pub Agreed : Target → Type 0
  Agreed t =
      (config.yes ≡ true)
      ⊎ ((model : Option Bytes) × (s : World) × ((confirm
              (seen t.img_canon t.dev_canon t.comp t.raw_size t.dev_size model) s).0
            ≡ true))

  -- both regions of the wipe and an image of a known size fit, and the image is not the device
  abbrev pub Sound : Target → Type 0
  Sound t =
      ((tail : ℕ) × (tail_wipe_offset region t.dev_size ≡ some tail))
      × ((n : ℕ) → t.raw_size ≡ some n → n ≤ t.dev_size)
      × (t.img_canon ≢ t.dev_canon)
      × Agreed t

  sound :
      (img dev kname : Bytes) (comp : Compression) (raw_size : Option ℕ) (dev_size : ℕ)
      (identity : DeviceIdentity) (model : Option Bytes) (s : World)
      → ensure_distinct_paths img dev ≡ passed
      → ensure_device_large_enough region dev_size ≡ passed
      → ensure_image_fits raw_size dev_size ≡ passed
      → (confirm_destruction h config (seen img dev comp raw_size dev_size model) s).0 ≡ passed
      → Sound record {
        img_canon = img;
        dev_canon = dev;
        dev_kname = kname;
        comp = comp;
        raw_size = raw_size;
        dev_size = dev_size;
        identity = identity;
      }
  sound img dev kname comp raw_size dev_size identity model s distinct large fits agreed =
      let fit = (ensure_image_fits_iff img dev raw_size dev_size).0 (fits, distinct) in
      (
        (ensure_device_large_enough_iff region dev_size).0 large,
        fit.0,
        fit.1,
        elim ((confirm_destruction_iff h config (seen img dev comp raw_size dev_size model) s).0
            agreed) [ inl told ↦ inl told | inr said ↦ inr (model, s, said) ],
      )

  describe-Sound :
      (img dev kname : Bytes) (s : World)
      → ensure_distinct_paths img dev ≡ passed
      → Ends (λ t _. Sound t) Any (describe h fuel region config img dev kname s)
  unfolding describe
  describe-Sound img dev kname s distinct =
      Ends-next _ (within-Any _ (detect_compression h img) s) (λ comp s₁ _.
        Ends-next _ (act-Any (raw_size_of h img comp) s₁) (λ raw_size s₂ _.
          Ends-next _ (within-Any _ (query_dev_geometry_readonly h dev) s₂) (λ geometry s₃ _.
            Ends-if geometry.1 _ _ s₃ (λ _. stop tt)
              (λ _.
                Ends-next _ (lift_yields (ensure_device_large_enough region geometry.0) s₃)
                  (λ _ s₄ large.
                    Ends-next _ (lift_yields (ensure_image_fits raw_size geometry.0) s₄)
                      (λ _ s₅ fits.
                        Ends-next _ (act-Any (capture h dev kname geometry.0) s₅) (λ identity s₆ _.
                          Ends-next _
                            (act_yields
                              (confirm_destruction h config
                                (seen img dev comp raw_size geometry.0 (device_model h kname s₆).0))
                              (device_model h kname s₆).1)
                            (λ _ s₇ agreed. done (
                              sound img dev kname comp raw_size geometry.0 identity
                                (device_model h kname s₆).0 (device_model h kname s₆).1 distinct
                                large fits agreed)))))))))

  check_inputs-Sound : (s : World) → Ends (λ t _. Sound t) Any (check_inputs h fuel region config s)
  unfolding check_inputs
  check_inputs-Sound s =
      Ends-next _
        (lift_yields (validate_cooldown_secs (resolved_cooldown_secs config))
          (emit (phase_started preflight) s))
        (λ _ s₁ _. Ends-next _ (act-Any (phase0_root_check h) s₁) (λ _ s₂ _.
          Ends-next _ (call_yields _ (canonicalize config.img) s₂) (λ img s₃ _.
            Ends-next _ (call_yields _ (canonicalize config.dev) s₃) (λ dev s₄ _.
              Ends-next _ (lift_yields (ensure_distinct_paths img dev) s₄) (λ _ s₅ distinct.
                Ends-next _ (act-Any (ensure_image_is_regular_file h img) s₅) (λ _ s₆ _.
                  Ends-next _ (act-Any (ensure_block_device h dev) s₆) (λ _ s₇ _.
                    Ends-next _ (act-Any (ensure_whole_disk h dev) s₇) (λ _ s₈ _.
                      Ends-next _ (within-Any _ (kname_for_path h dev) s₈) (λ kname s₉ _.
                        Ends-next _ (act-Any (ensure_image_not_on_target h fuel img kname) s₉)
                          (λ _ s₁₀ _. describe-Sound img dev kname s₁₀ distinct))))))))))

-- If phase 0 succeeds, both regions of the wipe have their place on the target, an image whose size
-- is known is not larger than the device, the image and the device are different paths, and either
-- the configuration says yes or the caller confirmed a summary that names this image and device with
-- their sizes. If it fails, the error says that the device is untouched.
pub preflight_run-Sound :
    (h : Host) (fuel region : ℕ) (config : Config) (s : h.World)
    → Ends
        (λ t _. Sound h fuel region config t)
        (λ e _. e.device ≡ untouched)
        (preflight_run h fuel region config s)
unfolding preflight_run
preflight_run-Sound h fuel region config s = go (check_inputs-Sound h fuel region config s)
  where
    go :
        {r : Result Error Target × h.World}
        → Ends (λ t _. Sound h fuel region config t) Any r
        → Ends
            (λ t _. Sound h fuel region config t)
            (λ e _. e.device ≡ untouched)
            (
              map_err (at untouched) r.0,
              h.emit (phase_finished preflight (outcome_of (map_err (at untouched) r.0))) r.1,
            )
    go (done q) = done q
    go (stop {e} x) = stop (at-device untouched e)
