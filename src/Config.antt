-- ===== src/Config.antt =====
-- The pipeline's options and their bounds: crates/imi-core/src/config.rs; the chunk and wipe sizes
-- of common/aligned.rs and common/geometry.rs; the pacing of common/throttle.rs.
pub mod Bounds
use imi.Common.{
  ℕ, ◌+◌, ◌-◌, ◌*◌, ◌/◌, ◌^◌, min, Bytes, [], ◌∷◌, Option, none, some, Bool, true, false, ltb, ◌==◌,
  if◌then◌else◌, Result, ok, err,
}
use imi.Error.{Error, text, say, msg}

-- `BUF_SIZE`
abbrev pub buf_size : ℕ
buf_size = 4 * 1024 * 1024

-- `WIPE_REGION`
abbrev pub wipe_region : ℕ
wipe_region = 1024 * 1024

abbrev pub u64_max : ℕ
u64_max = 2 ^ 64 - 1

abbrev pub u128_max : ℕ
u128_max = 2 ^ 128 - 1

pub record Config : Type 0 where
  pub img : Bytes
  pub dev : Bytes
  pub yes : Bool
  pub throttle : Option ℕ
  pub skip_cooldown : Bool
  pub skip_verification : Bool
  pub cooldown_secs : Option ℕ

-- `Config::new`
unfoldable pub new : Bytes → Bytes → Config
new img dev = record {
  img = img;
  dev = dev;
  yes = false;
  throttle = none;
  skip_cooldown = false;
  skip_verification = false;
  cooldown_secs = none;
}

abbrev pub default_cooldown_secs : ℕ
default_cooldown_secs = 20

abbrev pub max_cooldown_secs : ℕ
max_cooldown_secs = 600

abbrev or_default : Option ℕ → ℕ → ℕ
or_default none d = d
or_default (some n) d = n

unfoldable pub resolved_cooldown_secs : Config → ℕ
resolved_cooldown_secs c = or_default c.cooldown_secs default_cooldown_secs

unfoldable pub validate_cooldown_secs : ℕ → Result Error ℕ
validate_cooldown_secs secs =
    if secs == 0
    then err (msg (text "a zero cooldown is spelled --skip-cooldown"))
    else if ltb max_cooldown_secs secs
    then err (msg (say "cooldown exceeds the maximum" (secs ∷ max_cooldown_secs ∷ []) []))
    else ok secs

-- the three steps of the conversion, each with its fallback
abbrev saturating_mul_u128 : ℕ → ℕ → ℕ
saturating_mul_u128 a b = min (a * b) u128_max

abbrev div_or : ℕ → ℕ → ℕ → ℕ
div_or a b d = if b == 0 then d else a / b

abbrev pub u64_or_max : ℕ → ℕ
u64_or_max n = if ltb u64_max n then u64_max else n

-- The wall-clock time that one chunk should take, in nanoseconds.
unfoldable pub chunk_target_nanos : Option ℕ → Result Error (Option ℕ)
chunk_target_nanos none = ok none
chunk_target_nanos (some rate_bps) =
    if rate_bps == 0
    then err (msg (text "throttle rate must be at least 1 byte per second (got 0)"))
    else ok
        (some (u64_or_max (div_or (saturating_mul_u128 buf_size 1_000_000_000) rate_bps u128_max)))
