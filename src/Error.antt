-- ===== src/Error.antt =====
-- The crate's error type: crates/imi-core/src/error.rs. A message is its format text with the
-- numbers and byte strings that are put into it; how it is rendered is not modelled.
pub mod Classify
use imi.Common.{
  ℕ, String, Bytes, codes, List, [], ◌∷◌, Option, none, some, Bool, true, false, ◌&&◌, Result, ok,
  err, if◌then◌else◌,
}

pub data ErrorKind : Type 0 where
  refused cancelled verification_failed failed : ErrorKind

pub data DeviceState : Type 0 where
  untouched indeterminate written : DeviceState

-- `std::io::ErrorKind`, as far as the source tells its values apart
pub data IoKind : Type 0 where
  interrupted storage_full write_zero unexpected_eof not_found : IoKind
  other : ℕ → IoKind

pub data Detail : Type 0 where
  say : String → List ℕ → List Bytes → Detail
  -- the model's own mark of a loop that was given too little fuel
  out_of_fuel : Detail

abbrev pub text : String → Detail
text s = say s [] []

-- The error values that are not `Error` and are wrapped by it.
pub data Cause : Type 0 where
  cancelled_during : Option String → Cause
  mismatch : ℕ → Bytes → Cause
  io : IoKind → Cause
  malformed : String → Cause  -- `ParseIntError`, `NulError`

pub record Error : Type 0 where
  pub detail : Detail
  pub source : List Detail
  pub kind : ErrorKind
  pub device : DeviceState

-- What `layer` and `kind_of` look at through `dyn StdError`.
pub data Source : Type 0 where
  inner : Error → Source
  foreign : Cause → Source

-- `Display` of a cause
abbrev pub display : Cause → Detail
display (cancelled_during (some what)) = say "cancelled by user during" [] (codes what ∷ [])
display (cancelled_during none) = text "cancelled by user"
display (mismatch offset image) =
    say "verification mismatch at byte offset" (offset ∷ []) (image ∷ [])
display (io kind) = text "io"
display (malformed what) = text what

unfoldable pub kind_of : Source → ErrorKind
kind_of (inner e) = e.kind
kind_of (foreign (cancelled_during during)) = cancelled
kind_of (foreign (mismatch offset image)) = verification_failed
kind_of (foreign (io kind)) = failed
kind_of (foreign (malformed what)) = failed

-- `Error::msg`, and `bail!`/`err!` with a literal
unfoldable pub msg : Detail → Error
msg d = record { detail = d; source = []; kind = failed; device = indeterminate }

-- `Error::from_source`, and `bail!`/`err!` with a value
unfoldable pub from_source : Cause → Error
unfolding kind_of
from_source c = record {
  detail = display c;
  source = [];
  kind = kind_of (foreign c);
  device = indeterminate;
}

-- the messages beneath a layer, outermost first
abbrev pub chain : Source → List Detail
chain (inner e) = e.detail ∷ e.source
chain (foreign c) = display c ∷ []

abbrev inner_device : Source → DeviceState
inner_device (inner e) = e.device
inner_device (foreign c) = indeterminate

unfoldable pub layer : Detail → Source → Error
unfolding kind_of
layer d s = record { detail = d; source = chain s; kind = kind_of s; device = inner_device s }

-- the inherent `Error::context`
unfoldable pub add_context : Detail → Error → Error
add_context d e = record {
  detail = d;
  source = e.detail ∷ e.source;
  kind = e.kind;
  device = e.device;
}

abbrev is_failed : ErrorKind → Bool
is_failed failed = true
is_failed _ = false

abbrev is_untouched : DeviceState → Bool
is_untouched untouched = true
is_untouched _ = false

-- `Error::at`
unfoldable pub at : DeviceState → Error → Error
at device e =
    let e' = record e { device = device } in
    if is_failed e'.kind && is_untouched device then record e' { kind = refused } else e'

-- `Context::context` on a `Result` whose error is an `Error`
unfoldable pub context {ℓ} : {A : Type ℓ} → Detail → Result Error A → Result Error A
unfolding layer
context d (ok a) = ok a
context d (err e) = err (layer d (inner e))

-- `Context::context` on a `Result` whose error comes from outside
unfoldable pub context_io {ℓ} : {A : Type ℓ} → Detail → Result IoKind A → Result Error A
unfolding layer
context_io d (ok a) = ok a
context_io d (err k) = err (layer d (foreign (io k)))

-- `Context::context` on an `Option`
unfoldable pub context_none {ℓ} : {A : Type ℓ} → Detail → Option A → Result Error A
unfolding msg
context_none d (some a) = ok a
context_none d none = err (msg d)

pub Kind-discrete : Discrete ErrorKind
Kind-discrete = hlevel
