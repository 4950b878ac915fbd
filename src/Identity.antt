-- ===== src/Identity.antt =====
-- What is remembered of a device between the confirmation and the claim:
-- crates/imi-core/src/common/identity.rs, its record and its five checks.
pub mod Laws
pub mod Capture
use imi.Common.{
  ℕ, Bytes, [], ◌∷◌, Option, none, some, Bool, true, false, ◌&&◌, not, ◌==◌, if◌then◌else◌,
  bytes_eq, Result, ok, err,
}
use imi.Error.{Error, say, text, msg}
use imi.Host.{Devt}

pub record DeviceIdentity : Type 0 where
  pub rdev : Devt
  pub model : Option Bytes
  pub size : ℕ
  pub wwid : Option Bytes
  pub serial : Option Bytes

-- `==` of two optional strings
unfoldable pub option_eq : Option Bytes → Option Bytes → Bool
unfolding bytes_eq
option_eq none none = true
option_eq (some a) (some b) = bytes_eq a b
option_eq _ _ = false

abbrev pub devt_eq : Devt → Devt → Bool
devt_eq (a, b) (c, d) = a == c && b == d

unfoldable pub check_rdev : DeviceIdentity → Devt → Result Error (Unit {0})
unfolding msg
check_rdev i now =
    if not (devt_eq now i.rdev)
    then err (
        msg (
          say "device number changed between confirmation and O_EXCL claim"
            (i.rdev.0 ∷ i.rdev.1 ∷ now.0 ∷ now.1 ∷ []) []))
    else ok tt

unfoldable pub check_model : DeviceIdentity → Option Bytes → Result Error (Unit {0})
unfolding msg option_eq
check_model i now =
    if not (option_eq now i.model)
    then err (msg (text "device model changed between confirmation and O_EXCL claim"))
    else ok tt

unfoldable pub check_serial : DeviceIdentity → Option Bytes → Result Error (Unit {0})
unfolding msg option_eq
check_serial i now =
    if not (option_eq now i.serial)
    then err (msg (text "device serial changed between confirmation and O_EXCL claim"))
    else ok tt

unfoldable pub check_wwid : DeviceIdentity → Option Bytes → Result Error (Unit {0})
unfolding msg option_eq
check_wwid i now =
    if not (option_eq now i.wwid)
    then err (msg (text "device WWID changed between confirmation and O_EXCL claim"))
    else ok tt

unfoldable pub check_size : DeviceIdentity → ℕ → Result Error (Unit {0})
unfolding msg
check_size i now =
    if not (now == i.size)
    then err (
        msg
          (say "device size changed between confirmation and O_EXCL claim" (i.size ∷ now ∷ []) []))
    else ok tt
