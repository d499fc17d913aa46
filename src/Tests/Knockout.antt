-- ===== src/Tests/Knockout.antt =====
-- The knockout policy at concrete inputs.
use chiliztv_com.Base.{lower, some, none, codes, ◌≡◌, ◌↔◌, ◌⊎◌, true, false, refl, Among, ℕ}
use chiliztv_com.Matches.Knockout.{
  KnockoutMatchInput, group_stage_regex, first_leg_regex, knockout_round_regex,
  pure_knockout_league_ids, round_of, is_knockout_match, is_pure, decide_on, found_in, starts,
}
use chiliztv_com.Matches.Knockout.Reading.{Mentions, is_knockout_match_iff}

abbrev second_leg : KnockoutMatchInput
second_leg = record { id = some 2; type_name = none; round = some (codes "ROUND of 16 - 2nd Leg") }

abbrev cup_first_leg : KnockoutMatchInput
cup_first_leg = record { id = some 143; type_name = none; round = some (codes "Semi - 1st Leg") }

is_knockout_match_iff_example : (is_knockout_match second_leg ≡ true) ↔ (
    (¬ Mentions group_stage_regex (round_of second_leg))
    × (¬ Mentions first_leg_regex (round_of second_leg))
    × (((n : ℕ) × (second_leg.id ≡ some n) × Among n pure_knockout_league_ids)
        ⊎ (second_leg.type_name ≡ some "Cup")
        ⊎ Mentions knockout_round_regex (round_of second_leg)))
is_knockout_match_iff_example = is_knockout_match_iff second_leg

second_leg-knockout : is_knockout_match second_leg ≡ true
unfolding is_knockout_match is_pure decide_on found_in starts lower
second_leg-knockout = refl

cup_first_leg-league : is_knockout_match cup_first_leg ≡ false
unfolding is_knockout_match is_pure decide_on found_in starts lower
cup_first_leg-league = refl

abbrev group_i : KnockoutMatchInput
group_i = record { id = some 1; type_name = some "Cup"; round = some (codes "Group I") }

-- A ninth group is taken for a knockout.
group_i-knockout : is_knockout_match group_i ≡ true
unfolding is_knockout_match is_pure decide_on found_in starts lower
group_i-knockout = refl
