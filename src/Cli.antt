-- ===== src/Cli.antt =====
-- The value parsers of the command line: crates/imi/src/cli.rs. A `str` is its list of code points.
pub mod Rate
use imi.Common.{
  ℕ, ◌*◌, ◌^◌, Bytes, List, [], ◌∷◌, ◌++◌, Option, none, some, Bool, true, false, ◌&&◌, ◌||◌, ltb,
  leb, ◌==◌, if◌then◌else◌, Result, ok, err,
}
use imi.Error.{Error}
use imi.Strings.{is_ascii_digit, parse_u64}
use imi.Strings.Chars.{trim, trim_start, trim_end}
use imi.Config.{Config, new, validate_cooldown_secs}

abbrev pub cons_init : ℕ → Option (Bytes × ℕ) → Option (Bytes × ℕ)
cons_init c none = some ([], c)
cons_init c (some (init, last)) = some (c ∷ init, last)

-- all but the last character, and the last
unfoldable pub split_last : Bytes → Option (Bytes × ℕ)
split_last [] = none
split_last (c ∷ cs) = cons_init c (split_last cs)

-- the messages of the two parsers
pub data Refusal : Type 0 where
  empty : Refusal
  bad_suffix : ℕ → Bytes → Refusal
  missing_number invalid_number overflows : Bytes → Refusal
  zero_rate : Refusal
  plain_seconds : Bytes → Bytes → Refusal
  out_of_bounds : Error → Refusal

-- the multiplier of a suffix
unfoldable pub multiplier : ℕ → Option ℕ
multiplier c =
    if c == 107 || c == 75
    then some 1024
    else if c == 109 || c == 77
    then some (1024 * 1024)
    else if c == 103 || c == 71
    then some (1024 * 1024 * 1024)
    else none

-- zero is refused, and the product is `checked_mul`
abbrev pub scaled : Bytes → ℕ → Option ℕ → Result Refusal ℕ
scaled s mult none = err (invalid_number s)
scaled s mult (some n) =
    if n == 0
    then err zero_rate
    else if ltb (n * mult) (2 ^ 64)
    then ok (n * mult)
    else err (overflows s)

abbrev pub number : Bytes → Bytes → ℕ → Result Refusal ℕ
number s [] mult = err (missing_number s)
number s (c ∷ cs) mult = scaled s mult (parse_u64 (c ∷ cs))

abbrev pub with_suffix : Bytes → Bytes → ℕ → Option ℕ → Result Refusal ℕ
with_suffix s init last (some mult) = number s init mult
with_suffix s init last none = if is_ascii_digit last then number s s 1 else err (bad_suffix last s)

abbrev pub rate_of : Bytes → Option (Bytes × ℕ) → Result Refusal ℕ
rate_of s none = err empty
rate_of s (some (init, last)) = with_suffix s init last (multiplier last)

unfoldable pub parse_rate : Bytes → Result Refusal ℕ
unfolding trim_start trim_end split_last multiplier parse_u64
parse_rate s = rate_of (trim s) (split_last (trim s))

abbrev all_digits : Bytes → Bool
all_digits [] = true
all_digits (c ∷ cs) = is_ascii_digit c && all_digits cs

-- `30s`
abbrev pub has_unit : Option (Bytes × ℕ) → Option Bytes
has_unit none = none
has_unit (some ([], last)) = none
has_unit (some (c ∷ cs, last)) =
    if (last == 115 || last == 83) && all_digits (c ∷ cs) then some (c ∷ cs) else none

abbrev pub checked : ℕ → Result Error ℕ → Result Refusal ℕ
checked n (ok m) = ok n
checked n (err e) = err (out_of_bounds e)

abbrev pub seconds : Bytes → Option ℕ → Result Refusal ℕ
seconds s none = err (invalid_number s)
seconds s (some n) = checked n (validate_cooldown_secs n)

abbrev pub cooldown_of : Bytes → Option Bytes → Result Refusal ℕ
cooldown_of s (some stem) = err (plain_seconds stem s)
cooldown_of s none = seconds s (parse_u64 s)

unfoldable pub parse_cooldown_secs : Bytes → Result Refusal ℕ
unfolding trim_start trim_end split_last parse_u64 validate_cooldown_secs
parse_cooldown_secs s = cooldown_of (trim s) (has_unit (split_last (trim s)))

-- `Cli`, without the fields that `to_config` does not read
pub record Cli : Type 0 where
  pub img : Bytes
  pub yes : Bool
  pub throttle : Option ℕ
  pub skip_verification : Bool
  pub skip_cooldown : Bool
  pub cooldown_secs : Option ℕ

unfoldable pub to_config : Cli → Bytes → Config
unfolding new
to_config cli dev = record (new cli.img dev) {
  yes = cli.yes;
  throttle = cli.throttle;
  skip_cooldown = cli.skip_cooldown;
  skip_verification = cli.skip_verification;
  cooldown_secs = cli.cooldown_secs;
}
