-- ===== src/Tests/Closing.antt =====
-- The closing of markets at concrete inputs.
use chiliztv_com.Base.{none, some, [], ◌∷◌, ◌≡◌, ◌≢◌, ◌↔◌, ◌⊎◌, refl, length, Among, String}
use chiliztv_com.Matches.Status.{finished, classify_status, bettable, is_bettable}
use chiliztv_com.Matches.Entity.{Match}
use chiliztv_com.Matches.Closing.{
  Chain, Plan, leaves, cancels, closes, verdict, plan_of, contract_of, run_plan, close_match,
  close_live,
}
use chiliztv_com.Matches.Closing.Calls.{plan_of_iff}
use chiliztv_com.Matches.Closing.Candidates.{
  Found, buffer_sec, close_live_matches_markets, close_live_matches_markets_iff, is_candidate,
  eligible, insert_by_date, by_date, find_open_contracts_candidates,
}
use chiliztv_com.Tests.Matches.{full_time}

abbrev called_off : Match
called_off = record full_time {
  status = "CANC";
  match_date = 50000000;
  betting_contract_address = some "0x1";
}

abbrev in_play : Match
in_play = record full_time {
  status = "1H";
  match_date = 49000000;
  betting_contract_address = some "0x2";
}

-- The second contract throws.
abbrev chain : Chain
chain = record { cancel_open = λ contract status. some 3; close_open = λ contract. none }

plan_of_iff_example :
    ((plan_of 50000000 120 called_off ≡ leaves)
      ↔ ((classify_status "CANC" ≡ finished) ⊎ (verdict 50000000 120 called_off ≡ bettable)))
    × ((plan_of 50000000 120 called_off ≡ cancels "CANC")
        ↔ ((called_off.status ≡ "CANC") ⊎ (called_off.status ≡ "ABD")))
    × ((plan_of 50000000 120 called_off ≡ closes) ↔ (
        (classify_status "CANC" ≢ finished)
        × (verdict 50000000 120 called_off ≢ bettable)
        × ((called_off.status ≡ "CANC") ⊎ (called_off.status ≡ "ABD") → ⊥)))
plan_of_iff_example = plan_of_iff 50000000 120 called_off

close_live_matches_markets_iff_example :
    ((c : String) (p : Plan)
      → Among (c, p) (close_live_matches_markets chain none 50000000 (called_off ∷ in_play ∷ [])).1
        ↔ ((m : Match) × Among m (called_off ∷ in_play ∷ [])
            × Found 50000000 (buffer_sec none) m
            × (contract_of m.betting_contract_address ≡ some c)
            × (plan_of 50000000 (buffer_sec none) m ≡ p)
            × (p ≢ leaves)))
    × ((close_live_matches_markets chain none 50000000 (called_off ∷ in_play ∷ [])).0.scanned
        ≡ length (close_live_matches_markets chain none 50000000 (called_off ∷ in_play ∷ [])).1)
close_live_matches_markets_iff_example =
    close_live_matches_markets_iff chain none 50000000 (called_off ∷ in_play ∷ [])

-- One market set is cancelled, the closing of the other fails and is counted.
run-both : close_live_matches_markets chain none 50000000 (called_off ∷ in_play ∷ []) ≡ (
  record { scanned = 2; closed = 0; cancelled = 3; errors = 1 },
  ("0x2", closes) ∷ ("0x1", cancels "CANC") ∷ [],
)
unfolding close_live_matches_markets buffer_sec find_open_contracts_candidates by_date
    insert_by_date is_candidate eligible close_live close_match run_plan plan_of verdict is_bettable
    classify_status contract_of
run-both = refl

-- A match that was called off three minutes before its kickoff waits.
run-waits : (close_live_matches_markets chain none 49820000 (called_off ∷ [])).1 ≡ []
unfolding close_live_matches_markets buffer_sec find_open_contracts_candidates by_date
    insert_by_date is_candidate eligible close_live close_match run_plan plan_of verdict is_bettable
    classify_status contract_of
run-waits = refl
