-- ===== src/Events.antt =====
-- What the phases report to a front end: crates/imi-core/src/events.rs, and the compression tag of
-- crates/imi-core/src/common/image.rs that the confirmation shows.
use imi.Common.{ℕ, String, Bytes, Option, Bool, true, false}
use imi.Error.{Detail}

pub data Compression : Type 0 where
  raw gzip xz bzip2 zstd : Compression

-- `Compression::is_compressed`
abbrev pub is_compressed : Compression → Bool
is_compressed raw = false
is_compressed _ = true

-- `Compression::label`
unfoldable pub label : Compression → String
label raw = "raw"
label gzip = "gzip"
label xz = "xz"
label bzip2 = "bzip2"
label zstd = "zstd"

pub data Phase : Type 0 where
  preflight topology claim wipe flash cooldown verify kernel_sync automount : Phase

pub data PhaseOutcome : Type 0 where
  completed failed : PhaseOutcome

pub record Summary : Type 0 where
  pub device : Bytes
  pub model : Option Bytes
  pub device_size : ℕ
  pub image : Bytes
  pub compression : Compression
  pub raw_image_size : Option ℕ

-- One constructor for each call of the sink that returns nothing.
pub data Event : Type 0 where
  phase_started phase_skipped : Phase → Event
  phase_finished : Phase → PhaseOutcome → Event
  progress : Phase → ℕ → Option ℕ → Event
  action warning : Detail → Event
  finished : Bytes → Event
