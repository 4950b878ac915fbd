-- ===== src/Preflight/Run.antt =====
-- Phase 0 as a whole: `ensure_whole_disk`, `query_dev_geometry_readonly` and `run` of
-- crates/imi-core/src/phases/phase_0.rs.
use imi.Common.{ℕ, Bytes, [], ◌∷◌, Option, none, some, Bool, not, ◌==◌, if◌then◌else◌}
use imi.Error.{text, say, msg, untouched}
use imi.Events.{Compression, is_compressed, preflight, phase_started}
use imi.Config.{Config, resolved_cooldown_secs, validate_cooldown_secs}
use imi.Exec.{Exec, pure, raise, lift, call, within, get, act, ◌>>=◌, ◌>>◌}
use imi.Host.{Host}
use imi.Identity.Capture.{capture}
use imi.Image.Magic.{detect_compression}
use imi.Preflight.{
  ensure_distinct_paths, ensure_physical_or_loop, ensure_device_large_enough, ensure_image_fits,
  phase0_root_check, ensure_image_is_regular_file, ensure_block_device, confirm_destruction,
}
use imi.Preflight.Subtree.{ensure_image_not_on_target}
use imi.Session.{Target, at_state, reporting}
use imi.Sysfs.{is_partition, exists, has_backing_device, device_model}
use imi.Sysfs.Names.{kname_for_path}

module _ (h : Host) where
  open h use {World, emit, stat, canonicalize, open_read_only, opened_size, opened_ro, close_opened}

  unfoldable pub ensure_whole_disk : Bytes → Exec World (Unit {0})
  unfolding kname_for_path is_partition exists has_backing_device ensure_physical_or_loop msg
  ensure_whole_disk path = do
    kname ← within (say "resolving kernel name" [] (path ∷ [])) (kname_for_path h path)
    partition ← get (is_partition h kname)
    if partition
        then raise (msg (say "is a partition, not a whole disk" [] (path ∷ kname ∷ [])))
        else (do
          known ← get (exists h kname)
          if not known
              then raise (
                  msg (
                    say "does not appear in /sys/class/block; refusing to flash an unknown device"
                      [] (path ∷ kname ∷ [])))
              else (do
                backing ← get (has_backing_device h kname)
                lift (ensure_physical_or_loop kname backing path)))

  -- the device is closed again however the two queries end
  abbrev pub closing : {A : Type 0} → Exec World A → Exec World A
  closing m s = let (r, s') = m s in (r, close_opened s')

  unfoldable pub query_dev_geometry_readonly : Bytes → Exec World (ℕ × Bool)
  query_dev_geometry_readonly path = do
    call (say "open (read-only)" [] (path ∷ [])) (open_read_only path)
    closing (do
      size ← call (text "BLKGETSIZE64") opened_size
      ro ← call (text "BLKROGET (write-protect state)") opened_ro
      pure (size, not (ro == 0)))

  -- the size of an image that is not compressed
  abbrev pub raw_size_of : Bytes → Compression → Exec World (Option ℕ)
  raw_size_of img comp =
      if is_compressed comp
      then pure none
      else (do meta ← call (say "stat" [] (img ∷ [])) (stat img); pure (some meta.len))

  module _ (fuel region : ℕ) where
    -- what is behind the checks of the two paths
    unfoldable pub describe : Config → Bytes → Bytes → Bytes → Exec World Target
    unfolding detect_compression query_dev_geometry_readonly ensure_device_large_enough
        ensure_image_fits capture device_model confirm_destruction msg
    describe config img_canon dev_canon dev_kname = do
      comp ←
          within (say "detect compression format" [] (img_canon ∷ []))
            (detect_compression h img_canon)
      raw_size ← raw_size_of img_canon comp
      geometry ←
          within (say "query size/RO state" [] (dev_canon ∷ []))
            (query_dev_geometry_readonly dev_canon)
      if geometry.1
          then raise (msg (say "reports itself write-protected (BLKROGET)" [] (dev_canon ∷ [])))
          else (do
            lift (ensure_device_large_enough region geometry.0)
            lift (ensure_image_fits raw_size geometry.0)
            identity ← capture h dev_canon dev_kname geometry.0
            model ← get (device_model h dev_kname)
            confirm_destruction h config record {
              device = dev_canon;
              model = model;
              device_size = geometry.0;
              image = img_canon;
              compression = comp;
              raw_image_size = raw_size;
            }
            pure record {
              img_canon = img_canon;
              dev_canon = dev_canon;
              dev_kname = dev_kname;
              comp = comp;
              raw_size = raw_size;
              dev_size = geometry.0;
              identity = identity;
            })

    -- `run_inner`
    unfoldable pub check_inputs : Config → Exec World Target
    unfolding validate_cooldown_secs resolved_cooldown_secs phase0_root_check ensure_distinct_paths
        ensure_image_is_regular_file ensure_block_device ensure_whole_disk kname_for_path
        ensure_image_not_on_target describe
    check_inputs config = do
      act (emit (phase_started preflight))
      lift (validate_cooldown_secs (resolved_cooldown_secs config))
      phase0_root_check h
      img_canon ←
          call (say "canonicalize image path" [] (config.img ∷ [])) (canonicalize config.img)
      dev_canon ←
          call (say "canonicalize device path" [] (config.dev ∷ [])) (canonicalize config.dev)
      lift (ensure_distinct_paths img_canon dev_canon)
      ensure_image_is_regular_file h img_canon
      ensure_block_device h dev_canon
      ensure_whole_disk dev_canon
      dev_kname ←
          within (say "resolving kernel name" [] (dev_canon ∷ [])) (kname_for_path h dev_canon)
      ensure_image_not_on_target h fuel img_canon dev_kname
      describe config img_canon dev_canon dev_kname

    -- `run`
    unfoldable pub preflight_run : Config → Exec World Target
    unfolding check_inputs
    preflight_run config = reporting h preflight (at_state untouched (check_inputs config))
