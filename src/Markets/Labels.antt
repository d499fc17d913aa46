-- ===== src/Markets/Labels.antt =====
-- packages/domain/src/blockchain-indexing/policies/selectionToBetLabel.ts: what a selection of a
-- market is called. A line is a natural number of tenths; `toFixed(1)` of its tenth prints it exactly.
pub mod Reading
use chiliztv_com.Base.{
  ℕ, ◌/◌, ◌%◌, Option, none, some, List, [], ◌∷◌, ◌++◌, ◌||◌, ◌==◌, ltb, Text, codes, text_eq,
  to_upper_case, if◌then◌else◌,
}
use chiliztv_com.Base.Decimal.{decimal}

pub record BetLabelArgs : Type 0 where
  pub market_type : Option Text
  pub selection : ℕ
  pub line : Option ℕ
  pub home_team : Text
  pub away_team : Text

pub record BetLabel : Type 0 where
  pub sub_type : Text
  pub display : Text

unfoldable pub label : Text → Text → BetLabel
label sub_type display = record { sub_type = sub_type; display = display }

unfoldable out_of_range : ℕ → BetLabel
unfolding label
out_of_range selection =
    label (codes "selection-" ++ decimal selection) (codes "Selection #" ++ decimal selection)

unfoldable pub winner_label : BetLabelArgs → BetLabel
unfolding label out_of_range
winner_label args =
    if args.selection == 0
    then label (codes "home") args.home_team
    else if args.selection == 1
    then label (codes "draw") (codes "Draw")
    else if args.selection == 2
    then label (codes "away") args.away_team
    else out_of_range args.selection

abbrev default_goals_line_tenths : ℕ
default_goals_line_tenths = 25

unfoldable pub line_tenths : Option ℕ → ℕ
line_tenths none = default_goals_line_tenths
line_tenths (some n) = if ltb 0 n then n else default_goals_line_tenths

-- `(lineTenths / 10).toFixed(1)`
unfoldable pub line_label : ℕ → Text
line_label n = decimal (n / 10) ++ b'.' ∷ decimal (n % 10)

unfoldable pub goals_label : BetLabelArgs → BetLabel
unfolding label out_of_range line_label line_tenths
goals_label args =
    let line = line_label (line_tenths args.line) in
    if args.selection == 0
    then label (codes "under") (codes "Under " ++ line)
    else if args.selection == 1
    then label (codes "over") (codes "Over " ++ line)
    else out_of_range args.selection

unfoldable both_score_label : BetLabelArgs → BetLabel
unfolding label out_of_range
both_score_label args =
    if args.selection == 0
    then label (codes "btts_no") (codes "No")
    else if args.selection == 1
    then label (codes "btts_yes") (codes "Yes")
    else out_of_range args.selection

unfoldable variant_tag : Option ℕ → Text
variant_tag none = codes "?"
variant_tag (some n) =
    if n == 0
    then codes "1X"
    else if n == 1
    then codes "12"
    else if n == 2
    then codes "2X"
    else codes "?"

unfoldable variant_text : BetLabelArgs → Text
variant_text args = elim args.line [
  | none ↦ codes "Double Chance"
  | some n ↦
      if n == 0
      then args.home_team ++ codes " or Draw"
      else if n == 1
      then args.home_team ++ (codes " or " ++ args.away_team)
      else if n == 2
      then codes "Draw or " ++ args.away_team
      else codes "Double Chance"
]

unfoldable double_chance_label : BetLabelArgs → BetLabel
unfolding label out_of_range variant_tag variant_text
double_chance_label args =
    if args.selection == 0
    then label (codes "dc_" ++ (variant_tag args.line ++ codes "_no"))
        (variant_text args ++ codes ": No")
    else if args.selection == 1
    then label (codes "dc_" ++ (variant_tag args.line ++ codes "_yes"))
        (variant_text args ++ codes ": Yes")
    else out_of_range args.selection

unfoldable first_scorer_label : BetLabelArgs → BetLabel
unfolding label out_of_range
first_scorer_label args =
    if args.selection == 0
    then label (codes "home") args.home_team
    else if args.selection == 1
    then label (codes "away") args.away_team
    else if args.selection == 2
    then label (codes "none") (codes "No goal")
    else out_of_range args.selection

abbrev pub market_of : Option Text → Text
market_of none = codes "WINNER"
market_of (some type) = to_upper_case type

unfoldable pub label_in : Text → BetLabelArgs → BetLabel
unfolding winner_label goals_label both_score_label double_chance_label first_scorer_label
label_in market args =
    if text_eq market (codes "WINNER") || text_eq market (codes "HALFTIME")
    then winner_label args
    else if text_eq market (codes "GOALS_TOTAL")
    then goals_label args
    else if text_eq market (codes "BOTH_SCORE")
    then both_score_label args
    else if text_eq market (codes "DOUBLE_CHANCE")
    then double_chance_label args
    else if text_eq market (codes "FIRST_SCORER")
    then first_scorer_label args
    else winner_label (record args { market_type = some (codes "WINNER") })

unfoldable pub selection_to_bet_label : BetLabelArgs → BetLabel
unfolding label_in
selection_to_bet_label args = label_in (market_of args.market_type) args
