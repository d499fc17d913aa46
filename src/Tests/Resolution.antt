-- ===== src/Tests/Resolution.antt =====
-- The runs that settle markets at concrete inputs.
use chiliztv_com.Base.{inl, false, none, some, [], ◌∷◌, ◌≡◌, ◌↔◌, refl, Among}
use chiliztv_com.Matches.Entity.{Match}
use chiliztv_com.Matches.Closing.{contract_of, plan_of, leaves}
use chiliztv_com.Matches.Resolution.{
  resolve_finished, to_resolve, ScoreInput, finished_codes, score_with,
}
use chiliztv_com.Matches.Resolution.Runs.{Called, resolve_finished_calls}
use chiliztv_com.Matches.Resolution.Awarded.{awarded_untouched}
use chiliztv_com.Matches.Halftime.{
  voids_market, in_rescue_window, warrants_scan, should_void, settle_halftime, handle_state,
  handle_match, guarded, HalftimeChain, HalftimeCall, execute_all, opened,
}
use chiliztv_com.Matches.Halftime.Reading.{Reason, execute_all_calls}
use chiliztv_com.Tests.Matches.{full_time}

abbrev ended : Match
ended = record full_time {
  status = "FT";
  home_score = some 2;
  away_score = some 1;
  ht_home_score = some 1;
  ht_away_score = some 0;
  betting_contract_address = some "0xA";
}

-- In its second half for an hour, without a score of the half time.
abbrev scoreless : Match
scoreless = record full_time {
  status = "2H";
  match_date = 50000000;
  ht_home_score = none;
  ht_away_score = none;
  betting_contract_address = some "0xB";
}

abbrev awarded : Match
awarded = record full_time {
  status = "AWD";
  home_score = some 3;
  away_score = some 0;
  betting_contract_address = some "0xC";
}

abbrev two_one : ScoreInput
two_one = record {
  home_goals = 2;
  away_goals = 1;
  ht_home_goals = some 1;
  ht_away_goals = some 0;
  aet_home_goals = ended.aet_home_score;
  aet_away_goals = ended.aet_away_score;
  pen_winner = none;
}

resolve_finished_calls_example :
    Among ("0xA", two_one) (resolve_finished (λ c. false) (λ c s. some 8) (ended ∷ awarded ∷ [])).1
    ↔ ((m : Match) × Among m (ended ∷ awarded ∷ [])
        × Among m.status finished_codes
        × Called
            (λ c. false)
            m
            (contract_of m.betting_contract_address)
            m.home_score
            m.away_score
            ("0xA", two_one))
resolve_finished_calls_example =
    resolve_finished_calls (λ c. false) (λ c s. some 8) (ended ∷ awarded ∷ []) ("0xA", two_one)

run-ended :
    resolve_finished (λ c. false) (λ c s. some 8) (ended ∷ awarded ∷ [])
    ≡ (record { matches_processed = 1; markets_resolved = 8 }, ("0xA", two_one) ∷ [])
unfolding resolve_finished chiliztv_com.Matches.Resolution.resolve_each
    chiliztv_com.Matches.Resolution.resolve_with to_resolve contract_of
    chiliztv_com.Matches.Entity.get_penalty_winner
run-ended = refl

awarded_untouched_example :
    (plan_of 50000000 120 awarded ≡ leaves)
    × (to_resolve awarded ≡ false)
    × (chiliztv_com.Matches.Halftime.warrants_scan 50000000 awarded ≡ false)
awarded_untouched_example = awarded_untouched 50000000 120 awarded (inl refl)

-- Each market is open; no call throws.
abbrev halftime_chain : HalftimeChain
halftime_chain = record {
  market_state = λ c. some opened;
  close_market = λ c. some 1;
  resolve_market = λ c h a. some 1;
  cancel_market = λ c. some 1;
}

execute_all_calls_example :
    Among
      (voids_market "0xB")
      (execute_all halftime_chain (λ c. false) 60000000 900 (scoreless ∷ awarded ∷ [])).1
    ↔ ((m : Match) × Among m (scoreless ∷ awarded ∷ [])
        × Reason halftime_chain (λ c. false) 60000000 900 m (voids_market "0xB"))
execute_all_calls_example =
    execute_all_calls halftime_chain (λ c. false) 60000000 900 (scoreless ∷ awarded ∷ [])
      (voids_market "0xB")

run-voids :
    execute_all halftime_chain (λ c. false) 60000000 900 (scoreless ∷ awarded ∷ [])
    ≡ (record { resolved_markets = 0; voided_markets = 1; scanned = 1 }, voids_market "0xB" ∷ [])
unfolding execute_all guarded handle_match handle_state settle_halftime should_void warrants_scan
    in_rescue_window
run-voids = refl
