-- ===== src/Matches/Knockout.antt =====
-- packages/domain/src/matches/policies/KnockoutMatchPolicy.ts. A regular expression is the list of its
-- alternatives, each a sequence of spans of code units in lower case; `\d+` tests as one digit.
pub mod Reading
use chiliztv_com.Base.{
  ℕ, Bool, true, false, Option, none, some, List, [], ◌∷◌, ◌++◌, map, ◌&&◌, ◌||◌, ◌==◌, leb, String,
  str_eq, Text, codes, lower, any, if◌then◌else◌,
}

abbrev pub Span : Type 0
Span = ℕ × ℕ

abbrev pub within : Span → ℕ → Bool
within (first, last) c = leb first (lower c) && leb (lower c) last

abbrev literally : String → List Span
literally s = map (λ c. (c, c)) (codes s)

unfoldable pub starts : List Span → Text → Bool
starts [] text = true
starts (span ∷ spans) [] = false
starts (span ∷ spans) (c ∷ text) = within span c && starts spans text

-- The alternative is found from some place on.
unfoldable pub found_in : Text → List Span → Bool
found_in [] pattern = starts pattern []
found_in (c ∷ text) pattern = starts pattern (c ∷ text) || found_in text pattern

abbrev pub test : List (List Span) → Text → Bool
test regex text = any (found_in text) regex

abbrev pub group_stage_regex : List (List Span)
group_stage_regex =
    literally "group stage"
    ∷ literally "phase de groupes"
    ∷ (literally "group " ++ (b'a', b'h') ∷ [])
    ∷ literally "grupo"
    ∷ []

abbrev pub first_leg_regex : List (List Span)
first_leg_regex = map literally ("1st leg" ∷ "first leg" ∷ "aller" ∷ [])

abbrev pub knockout_round_regex : List (List Span)
knockout_round_regex =
    (literally "round of " ++ (b'0', b'9') ∷ [])
    ∷ map literally (
        "final" ∷ "finale" ∷ "semi" ∷ "demi" ∷ "quarter" ∷ "quarts" ∷ "octavos" ∷ "cuartos"
        ∷ "play-off" ∷ "knockout" ∷ "1/2 de" ∷ "1/4 de" ∷ "1/8 de" ∷ "1/16 de" ∷ "1/32 de" ∷ [])

abbrev pub pure_knockout_league_ids : List ℕ
pure_knockout_league_ids =
    66 ∷ 143 ∷ 45 ∷ 48 ∷ 81 ∷ 137 ∷ 90 ∷ 96 ∷ 97 ∷ 206 ∷ 73 ∷ 526 ∷ 556 ∷ 528 ∷ 529 ∷ 547 ∷ 92 ∷ 550
    ∷ 75 ∷ 531 ∷ 541 ∷ []

pub record KnockoutMatchInput : Type 0 where
  pub id : Option ℕ
  pub type_name : Option String
  pub round : Option Text

-- `?? ''`
abbrev pub round_of : KnockoutMatchInput → Text
round_of input = elim input.round [ none ↦ [] | some round ↦ round ]

unfoldable pub is_pure : Option ℕ → Bool
is_pure none = false
is_pure (some id) = any (λ known. id == known) pure_knockout_league_ids

abbrev pub is_cup : Option String → Bool
is_cup none = false
is_cup (some name) = str_eq name "Cup"

-- The tests in their order, on the three expressions.
unfoldable pub decide_on : Bool → Bool → Bool → Bool → Bool → Bool
decide_on group first_leg pure cup knockout_round =
    if group
    then false
    else if first_leg
    then false
    else if pure
    then true
    else if cup
    then true
    else if knockout_round
    then true
    else false

unfoldable pub is_knockout_match : KnockoutMatchInput → Bool
is_knockout_match input =
    decide_on (test group_stage_regex (round_of input)) (test first_leg_regex (round_of input))
      (is_pure input.id) (is_cup input.type_name) (test knockout_round_regex (round_of input))
