-- ===== src/Error/Classify.antt =====
-- Laws of the classification of errors, through context layers and `at`.
use imi.Common.{List, [], ◌∷◌, ◌≡◌, refl, arith, Result, ok, err, is_ok}
use imi.Error.{
  Error, Detail, Cause, cancelled_during, mismatch, io, malformed, ErrorKind, refused, cancelled,
  verification_failed, failed, DeviceState, untouched, indeterminate, inner, layer, from_source, at,
  context,
}

-- several `.context(...)` calls, the innermost last in the list
abbrev pub wrap : List Detail → Error → Error
wrap [] e = e
wrap (d ∷ ds) e = layer d (inner (wrap ds e))

-- what a caller is told about a cause, at a phase that reports the device state `d`
abbrev pub reported : Cause → DeviceState → ErrorKind
reported (cancelled_during during) d = cancelled
reported (mismatch offset image) d = verification_failed
reported (io kind) untouched = refused
reported (io kind) d = failed
reported (malformed what) untouched = refused
reported (malformed what) d = failed

wrap-kind : (ds : List Detail) (e : Error) → (wrap ds e).kind ≡ e.kind
unfolding layer
wrap-kind [] e = refl
wrap-kind (d ∷ ds) e = wrap-kind ds e

-- However many context layers lie between, a cancellation stays a cancellation and a mismatch a
-- verification failure, any other cause is a refusal exactly where the phase reports an untouched
-- device, and the device state is the phase's.
pub classification :
    (c : Cause) (ds : List Detail) (d : DeviceState)
    → ((at d (wrap ds (from_source c))).kind ≡ reported c d)
      × ((at d (wrap ds (from_source c))).device ≡ d)
unfolding at from_source
classification c ds d = ground (arith, wrap-kind ds (from_source c))

-- Without `at`, every layer of an error from this crate says that the device may be half written.
pub unclassified : (c : Cause) (ds : List Detail) → (wrap ds (from_source c)).device ≡ indeterminate
unfolding layer from_source
unclassified c [] = refl
unclassified c (d ∷ ds) = unclassified c ds

pub is_ok-context {ℓ} :
    {A : Type ℓ} (d : Detail) (r : Result Error A) → is_ok (context d r) ≡ is_ok r
unfolding context
is_ok-context d (ok a) = refl
is_ok-context d (err e) = refl
