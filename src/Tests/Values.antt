-- ===== src/Tests/Values.antt =====
-- Option values, the guard, and the classification of errors.
use imi.Common.{
  ℕ, ◌≡◌, ◌↔◌, ◌≤◌, ◌<◌, ◌*◌, ◌+◌, refl, List, [], ◌∷◌, none, some, codes, ok, err, ◌⊎◌,
}
use imi.Error.{Error, text, untouched, refused, io, not_found, from_source, at}
use imi.Error.Classify.{wrap, classification}
use imi.Config.{buf_size, u64_max, max_cooldown_secs, chunk_target_nanos}
use imi.Config.Bounds.{chunk_target_exact}
use imi.Strings.{parse_u64}
use imi.Strings.Chars.{trim}
use imi.Cli.{split_last, has_unit, parse_rate, parse_cooldown_secs}
use imi.Cli.Rate.{Rated, parse_rate_iff, parse_cooldown_secs_iff}
use imi.Guard.{
  ArmedPhase, fatal_notice, interrupted_verb, guard_phase, new, arm, set_phases, disarm,
  advance_phase,
}
use imi.Guard.Laws.{fatal_notice-set_phases}

eight_mib : parse_rate (codes " 8M ") ≡ ok 8388608
unfolding parse_rate
eight_mib = refl

parse_rate_iff_example :
    (parse_rate (codes " 8M ") ≡ ok 8388608) ↔ Rated (trim (codes " 8M ")) 8388608
parse_rate_iff_example = parse_rate_iff (codes " 8M ") 8388608

parse_cooldown_secs_iff_example : (parse_cooldown_secs (codes "30") ≡ ok 30) ↔ (
    (has_unit (split_last (trim (codes "30"))) ≡ none)
    × (parse_u64 (trim (codes "30")) ≡ some 30)
    × (1 ≤ 30)
    × (30 ≤ max_cooldown_secs))
parse_cooldown_secs_iff_example = parse_cooldown_secs_iff (codes "30") 30

abbrev rate_8m : ℕ
rate_8m = 8388608

chunk_target_exact_example :
    ((rate_8m ≡ 0) × (e : Error) × (chunk_target_nanos (some rate_8m) ≡ err e))
    ⊎ ((1 ≤ rate_8m)
        × (t : ℕ) × (chunk_target_nanos (some rate_8m) ≡ ok (some t))
        × (t * rate_8m ≤ buf_size * 1_000_000_000)
        × (buf_size * 1_000_000_000 < (t + 1) * rate_8m)
        × (t ≤ u64_max))
chunk_target_exact_example = chunk_target_exact rate_8m

abbrev armed_phases : List ArmedPhase
armed_phases = ArmedPhase.writing ∷ ArmedPhase.cooldown ∷ []

fatal_notice-set_phases_example :
    (fatal_notice
        (set_phases (arm (new (codes "/dev/sdb")) ArmedPhase.wiping_signatures) armed_phases).inner
      ≡ some (codes "/dev/sdb", interrupted_verb (guard_phase ArmedPhase.cooldown)))
    × (fatal_notice (
          disarm
            (set_phases (arm (new (codes "/dev/sdb")) ArmedPhase.wiping_signatures) armed_phases))
        ≡ none)
    × ((q : ArmedPhase)
        → fatal_notice (
            advance_phase
              (disarm (
                set_phases
                  (arm (new (codes "/dev/sdb")) ArmedPhase.wiping_signatures)
                  armed_phases))
              q)
          ≡ none)
unfolding new
fatal_notice-set_phases_example =
    fatal_notice-set_phases (new (codes "/dev/sdb")) ArmedPhase.wiping_signatures armed_phases

classification_example :
    ((at untouched (wrap (text "Phase 1" ∷ []) (from_source (io not_found)))).kind ≡ refused)
    × ((at untouched (wrap (text "Phase 1" ∷ []) (from_source (io not_found)))).device ≡ untouched)
classification_example = classification (io not_found) (text "Phase 1" ∷ []) untouched
