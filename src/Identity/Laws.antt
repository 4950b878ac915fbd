-- ===== src/Identity/Laws.antt =====
-- The five checks together.
use imi.Common.{
  ℕ, ◌≡◌, ◌↔◌, ap, arith, Bytes, Option, none, some, Bool, true, false, not, ◌==◌, if◌then◌else◌,
  bytes_eq_iff, Result, ok, err,
}
use imi.Error.{Error}
use imi.Host.{Devt}
use imi.Identity.{
  DeviceIdentity, option_eq, devt_eq, check_rdev, check_model, check_serial, check_wwid, check_size,
}

option_eq_iff : (a b : Option Bytes) → (option_eq a b ≡ true) ↔ (a ≡ b)
unfolding option_eq
option_eq_iff none none = ground arith
option_eq_iff none (some b) = ground arith
option_eq_iff (some a) none = ground arith
option_eq_iff (some a) (some b) =
    ((λ h. ap some ((bytes_eq_iff a b).0 h)), λ e. (bytes_eq_iff a b).1 (ground (arith, e)))

abbrev passed : Result Error (Unit {0})
passed = ok tt

test_iff : (b : Bool) (e : Error) → ((if not b then err e else ok tt) ≡ passed) ↔ (b ≡ true)
test_iff true e = ground arith
test_iff false e = ground arith

devt_eq_iff : (a b : Devt) → (devt_eq a b ≡ true) ↔ (a ≡ b)
devt_eq_iff (a, b) (c, d) = ground arith

size_iff : (a b : ℕ) → ((a == b) ≡ true) ↔ (a ≡ b)
size_iff a b = ground arith

-- `now` passes the five checks
abbrev pub Passes : DeviceIdentity → DeviceIdentity → Type 0
Passes i now =
    (check_rdev i now.rdev ≡ ok tt)
    × (check_model i now.model ≡ ok tt)
    × (check_serial i now.serial ≡ ok tt)
    × (check_wwid i now.wwid ≡ ok tt)
    × (check_size i now.size ≡ ok tt)

-- A device that shows the number, the model, the serial, the WWID and the size of `now` passes all
-- five checks exactly when it is the one that was remembered, an attribute that is missing counting
-- as a value of its own.
pub Passes-iff : (i now : DeviceIdentity) → Passes i now ↔ (now ≡ i)
unfolding check_rdev check_model check_serial check_wwid check_size
Passes-iff i now = (there, back)
  where
    there : Passes i now → now ≡ i
    there (r, m, s, w, z) j = record {
      rdev = (devt_eq_iff now.rdev i.rdev).0 ((test_iff _ _).0 r) j;
      model = (option_eq_iff now.model i.model).0 ((test_iff _ _).0 m) j;
      size = (size_iff now.size i.size).0 ((test_iff _ _).0 z) j;
      wwid = (option_eq_iff now.wwid i.wwid).0 ((test_iff _ _).0 w) j;
      serial = (option_eq_iff now.serial i.serial).0 ((test_iff _ _).0 s) j;
    }

    back : now ≡ i → Passes i now
    back e = (
      (test_iff _ _).1 ((devt_eq_iff now.rdev i.rdev).1 (ap (λ x. x.rdev) e)),
      (test_iff _ _).1 ((option_eq_iff now.model i.model).1 (ap (λ x. x.model) e)),
      (test_iff _ _).1 ((option_eq_iff now.serial i.serial).1 (ap (λ x. x.serial) e)),
      (test_iff _ _).1 ((option_eq_iff now.wwid i.wwid).1 (ap (λ x. x.wwid) e)),
      (test_iff _ _).1 ((size_iff now.size i.size).1 (ap (λ x. x.size) e)),
    )
