-- ===== src/Tests/Markets.antt =====
-- Markets and labels at concrete inputs.
use chiliztv_com.Base.{
  ℕ, ◌≤◌, Bool, Option, none, some, List, [], ◌∷◌, ◌≡◌, refl, Text, codes, Pairwise,
}
use chiliztv_com.Markets.Manifest.{DefaultMarketSpec}
use chiliztv_com.Markets.Sorting.{
  sort_markets_by_manifest, insert, rank, order_by_id, index_from, no_later,
}
use chiliztv_com.Markets.Labels.{BetLabelArgs}

abbrev winner_spec : DefaultMarketSpec
winner_spec = record {
  market_id = 0;
  market_type_name = "WINNER";
  line = 0;
  max_outcome = 3;
  display_label = "1X2 (90 min)";
}

-- Two legacy markets, which go last in their order.
sorted : sort_markets_by_manifest (λ (n : ℕ). n) (41 ∷ 3 ∷ 40 ∷ 1 ∷ []) ≡ 1 ∷ 3 ∷ 41 ∷ 40 ∷ []
unfolding sort_markets_by_manifest insert rank order_by_id index_from no_later
sorted = refl

abbrev bet_on : Text → ℕ → Option ℕ → BetLabelArgs
bet_on market selection line = record {
  market_type = some market;
  selection = selection;
  line = line;
  home_team = codes "Lens";
  away_team = codes "Nice";
}

abbrev final_spec : DefaultMarketSpec
final_spec = record {
  market_id = 8;
  market_type_name = "FULL_TIME_WINNER";
  line = 0;
  max_outcome = 2;
  display_label = "Final Winner (incl. AET + PEN)";
}

abbrev away_bet : BetLabelArgs
away_bet = bet_on (codes "FULL_TIME_WINNER") 1 none
