-- ===== src/Markets/Manifest.antt =====
-- packages/domain/src/markets/DefaultMarkets.ts: the markets that a new contract is seeded with.
use chiliztv_com.Base.{
  Among-All, ℕ, Bool, true, false, not, Option, some, List, [], ◌∷◌, ◌≡◌, refl, ◌&&◌, ◌==◌, String,
  str_eq, Among, filter, find?, if◌then◌else◌, ◌+◌,
}

pub record DefaultMarketSpec : Type 0 where
  pub market_id : ℕ
  pub market_type_name : String
  pub line : ℕ
  pub max_outcome : ℕ
  pub display_label : String

abbrev market : ℕ → String → ℕ → ℕ → String → DefaultMarketSpec
market id name line max_outcome label = record {
  market_id = id;
  market_type_name = name;
  line = line;
  max_outcome = max_outcome;
  display_label = label;
}

abbrev pub default_football_markets : List DefaultMarketSpec
default_football_markets =
    market 0 "WINNER" 0 3 "1X2 (90 min)"
    ∷ market 1 "HALFTIME" 0 3 "1X2 Halftime"
    ∷ market 2 "GOALS_TOTAL" 15 2 "O/U 1.5 Goals"
    ∷ market 3 "GOALS_TOTAL" 25 2 "O/U 2.5 Goals"
    ∷ market 4 "BOTH_SCORE" 0 2 "Both Teams to Score"
    ∷ market 5 "DOUBLE_CHANCE" 0 2 "Double Chance 1X"
    ∷ market 6 "DOUBLE_CHANCE" 1 2 "Double Chance 12"
    ∷ market 7 "DOUBLE_CHANCE" 2 2 "Double Chance 2X"
    ∷ market 8 "FULL_TIME_WINNER" 0 2 "Final Winner (incl. AET + PEN)"
    ∷ []

unfoldable pub get_default_football_markets : Bool → List DefaultMarketSpec
get_default_football_markets is_knockout =
    if is_knockout
    then default_football_markets
    else filter (λ s. not (str_eq s.market_type_name "FULL_TIME_WINNER")) default_football_markets

unfoldable find_default_market_spec : String → ℕ → Option DefaultMarketSpec
find_default_market_spec name line =
    find? (λ s. str_eq s.market_type_name name && s.line == line) default_football_markets

-- The ids count up from `n`: each market's id is its place in the batch.
abbrev Sequential : ℕ → List DefaultMarketSpec → Type 0
Sequential n [] = Unit {0}
Sequential n (s ∷ specs) = (s.market_id ≡ n) × Sequential (n + 1) specs

abbrev Found : DefaultMarketSpec → Type 0
Found s = find_default_market_spec s.market_type_name s.line ≡ some s

-- Whether the match is a knockout or not, each seeded market stands at the place that its id names,
-- and it is found again by its type and line.
seed-Sequential :
    (is_knockout : Bool) (s : DefaultMarketSpec)
    → Among s (get_default_football_markets is_knockout)
    → Sequential 0 (get_default_football_markets is_knockout)
      × (find_default_market_spec s.market_type_name s.line ≡ some s)
unfolding get_default_football_markets find_default_market_spec
seed-Sequential true s m = (
  (refl, (refl, (refl, (refl, (refl, (refl, (refl, (refl, (refl, tt))))))))),
  Among-All Found (get_default_football_markets true) s
      (refl, (refl, (refl, (refl, (refl, (refl, (refl, (refl, (refl, tt))))))))) m,
)
seed-Sequential false s m = (
  (refl, (refl, (refl, (refl, (refl, (refl, (refl, (refl, tt)))))))),
  Among-All Found (get_default_football_markets false) s
      (refl, (refl, (refl, (refl, (refl, (refl, (refl, (refl, tt)))))))) m,
)
