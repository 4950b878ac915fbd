-- ===== src/Identity/Capture.antt =====
-- The reading of a device's identity: `capture` and `verify_claimed` of
-- crates/imi-core/src/common/identity.rs.
use imi.Common.{ℕ, Bytes, [], ◌∷◌}
use imi.Error.{text, say}
use imi.Exec.{Exec, pure, lift, call, get, ◌>>=◌, ◌>>◌}
use imi.Host.{Host}
use imi.Identity.{DeviceIdentity, check_rdev, check_model, check_serial, check_wwid, check_size}
use imi.Sysfs.{device_model, device_serial, device_wwid}

module _ (h : Host) where
  open h use {World, stat, claimed_rdev, claimed_size}

  -- `DeviceIdentity::capture`
  unfoldable pub capture : Bytes → Bytes → ℕ → Exec World DeviceIdentity
  unfolding device_model device_serial device_wwid
  capture dev kname size = do
    st ← call (say "stat for identity snapshot" [] (dev ∷ [])) (stat dev)
    model ← get (device_model h kname)
    serial ← get (device_serial h kname)
    wwid ← get (device_wwid h kname)
    pure record { rdev = st.rdev; model = model; size = size; wwid = wwid; serial = serial }

  -- `verify_claimed`; the guard's file is the claimed device
  unfoldable pub verify_claimed : DeviceIdentity → Bytes → Exec World (Unit {0})
  unfolding device_model device_serial device_wwid check_rdev check_model check_serial check_wwid
      check_size
  verify_claimed identity kname = do
    rdev ← call (text "fstat of claimed device FD") claimed_rdev
    lift (check_rdev identity rdev)
    model ← get (device_model h kname)
    lift (check_model identity model)
    serial ← get (device_serial h kname)
    lift (check_serial identity serial)
    wwid ← get (device_wwid h kname)
    lift (check_wwid identity wwid)
    size_now ← call (text "BLKGETSIZE64 (identity re-check)") claimed_size
    lift (check_size identity size_now)
