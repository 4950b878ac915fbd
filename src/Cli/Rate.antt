-- ===== src/Cli/Rate.antt =====
-- What the two parsers accept, and the value that they return.
use imi.Common.{
  ℕ, ◌*◌, ◌^◌, ◌≤◌, ◌<◌, ◌≡◌, ◌≢◌, ◌↔◌, ◌⊎◌, inl, inr, refl, ap, ◌∙◌, arith, Bytes, [], ◌∷◌, ◌++◌,
  Option, none, some, true, ok, err, Bool-cases,
}
use imi.Strings.{is_ascii_digit, parse_u64}
use imi.Config.{validate_cooldown_secs, max_cooldown_secs}
use imi.Cli.{
  trim, cons_init, split_last, Refusal, multiplier, scaled, number, with_suffix, rate_of,
  parse_rate, has_unit, seconds, cooldown_of, parse_cooldown_secs,
}

split_last-append : (init : Bytes) (c : ℕ) → split_last (init ++ (c ∷ [])) ≡ some (init, c)
unfolding split_last
split_last-append [] c = refl
split_last-append (d ∷ init) c = rw (split_last-append init c) refl

split_last-none : (s : Bytes) → split_last s ≡ none → s ≡ []
unfolding split_last
split_last-none [] h = refl
split_last-none (d ∷ s) h = absurd (go (split_last s) h)
  where
    go : (o : Option (Bytes × ℕ)) → cons_init d o ≢ none
    go none e = ground arith
    go (some (i, l)) e = ground arith

split_last-some : (s init : Bytes) (c : ℕ) → split_last s ≡ some (init, c) → s ≡ init ++ (c ∷ [])
unfolding split_last
split_last-some [] init c h = ground arith
split_last-some (d ∷ s) init c h = go (split_last s) refl (split_last-some s) h
  where
    go :
        (o : Option (Bytes × ℕ))
        → split_last s ≡ o
        → ((i : Bytes) (l : ℕ) → o ≡ some (i, l) → s ≡ i ++ (l ∷ []))
        → cons_init d o ≡ some (init, c)
        → d ∷ s ≡ init ++ (c ∷ [])
    go none e rec h = ground (arith, split_last-none s e, h)
    go (some (i, l)) e rec h = ground (arith, rec i l refl, h)

-- `t` is a number and one of the suffixes, or a number alone, and its value is `v`
abbrev pub Rated : Bytes → ℕ → Type 0
Rated t v =
    (init : Bytes) × (c mult n : ℕ) × (t ≡ init ++ (c ∷ []))
    × (1 ≤ n)
    × (v ≡ n * mult)
    × (v < 2 ^ 64)
    × (((multiplier c ≡ some mult) × (parse_u64 init ≡ some n))
        ⊎ ((multiplier c ≡ none) × (is_ascii_digit c ≡ true) × (mult ≡ 1) × (parse_u64 t ≡ some n)))

scaled_iff :
    (s : Bytes) (mult v : ℕ) (o : Option ℕ)
    → (scaled s mult o ≡ ok v) ↔ ((n : ℕ) × (o ≡ some n) × (1 ≤ n) × (v ≡ n * mult) × (v < 2 ^ 64))
scaled_iff s mult v none =
    ((λ h. ground arith), λ x. let (m, e, one, eq, lt) = x in ground (arith, e))
scaled_iff s mult v (some n) = (
  (λ h. (n, refl, ground (arith, h), ground (arith, h), ground (arith, h))),
  (λ x. let (m, e, one, eq, lt) = x in ground (arith, e, one, eq, lt)),
)

number_iff :
    (s num : Bytes) (mult v : ℕ)
    → (number s num mult ≡ ok v)
      ↔ ((n : ℕ) × (parse_u64 num ≡ some n) × (1 ≤ n) × (v ≡ n * mult) × (v < 2 ^ 64))
unfolding parse_u64
number_iff s [] mult v =
    ((λ h. ground arith), λ x. let (m, e, one, eq, lt) = x in ground (arith, e))
number_iff s (c ∷ cs) mult v = scaled_iff s mult v (parse_u64 (c ∷ cs))

suffix_sound :
    (t init : Bytes) (c v : ℕ) (o : Option ℕ)
    → t ≡ init ++ (c ∷ [])
    → multiplier c ≡ o
    → with_suffix t init c o ≡ ok v
    → Rated t v
suffix_sound t init c v (some mult) e m h =
    let (n, p, one, eq, lt) = (number_iff t init mult v).0 h in
    (init, c, mult, n, e, one, eq, lt, inl (m, p))
suffix_sound t init c v none e m h = elim (Bool-cases (is_ascii_digit c)) [
  | inl d ↦
      let (n, p, one, eq, lt) = (number_iff t t 1 v).0 (rw d at h) in
      (init, c, 1, n, e, one, eq, lt, inr (m, d, refl, p))
  | inr d ↦ absurd (refused (rw d at h))
]
  where
    refused : {e : Refusal} → err e ≢ ok v
    refused h = ground (arith, h)

rate_sound :
    (t : Bytes) (v : ℕ) (o : Option (Bytes × ℕ)) → split_last t ≡ o → rate_of t o ≡ ok v → Rated t v
rate_sound t v none e h = ground (arith, h)
rate_sound t v (some (init, c)) e h =
    suffix_sound t init c v (multiplier c) (split_last-some t init c e) refl h

rate_complete : (t : Bytes) (v : ℕ) → Rated t v → rate_of t (split_last t) ≡ ok v
rate_complete t v (init, c, mult, n, e, one, eq, lt, inl (m, p)) =
    ap (λ o. rate_of t o) (ap split_last e ∙ split_last-append init c)
    ∙ ap (λ o. with_suffix t init c o) m
    ∙ (number_iff t init mult v).1 (n, p, one, eq, lt)
rate_complete t v (init, c, mult, n, e, one, eq, lt, inr (m, d, u, p)) =
    ap (λ o. rate_of t o) (ap split_last e ∙ split_last-append init c)
    ∙ ap (λ o. with_suffix t init c o) m
    ∙ rw d ((number_iff t t 1 v).1 (n, p, one, eq ∙ ap (λ k. n * k) u, lt))

-- A rate is accepted exactly when, without the white space around it, it is a number that
-- `u64::from_str` reads and then one of the suffixes, or such a number alone that ends with a digit;
-- the number is not zero, its product with the multiplier of the suffix is below 2 ^ 64, and that
-- product is the value.
pub parse_rate_iff : (s : Bytes) (v : ℕ) → (parse_rate s ≡ ok v) ↔ Rated (trim s) v
unfolding parse_rate
parse_rate_iff s v = (rate_sound (trim s) v (split_last (trim s)) refl, rate_complete (trim s) v)

-- A cooldown is accepted exactly when, without the white space around it, it does not read as digits
-- with an `s` behind them, and is a number from one to 600; that number is the value.
pub parse_cooldown_secs_iff :
    (s : Bytes) (v : ℕ)
    → (parse_cooldown_secs s ≡ ok v) ↔ (
        (has_unit (split_last (trim s)) ≡ none)
        × (parse_u64 (trim s) ≡ some v)
        × (1 ≤ v)
        × (v ≤ max_cooldown_secs))
unfolding parse_cooldown_secs
parse_cooldown_secs_iff s v = go (trim s) (has_unit (split_last (trim s)))
  where
    bounded :
        (t : Bytes) (o : Option ℕ)
        → (seconds t o ≡ ok v) ↔ ((o ≡ some v) × (1 ≤ v) × (v ≤ max_cooldown_secs))
    bounded t none = ground arith
    bounded t (some n) = unfold validate_cooldown_secs in ground arith

    go :
        (t : Bytes) (o : Option Bytes)
        → (cooldown_of t o ≡ ok v)
          ↔ ((o ≡ none) × (parse_u64 t ≡ some v) × (1 ≤ v) × (v ≤ max_cooldown_secs))
    go t (some stem) = ground arith
    go t none = (
      (λ h. let x = (bounded t (parse_u64 t)).0 h in (refl, x.0, x.1, x.2)),
      (λ x. (bounded t (parse_u64 t)).1 (x.1, x.2, x.3)),
    )
