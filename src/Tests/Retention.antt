-- ===== src/Tests/Retention.antt =====
-- The cleanup of old matches at concrete inputs.
use chiliztv_com.Base.{
  sym, true, ◌∙◌, none, some, [], ◌∷◌, ◌≡◌, ◌≤◌, ◌↔◌, ◌⊎◌, refl, inl, inr, Among, codes,
}
use chiliztv_com.Matches.Entity.{Match}
use chiliztv_com.Indexing.Bets.{BetRow, won}
use chiliztv_com.Matches.Retention.{cleanup_with}
use chiliztv_com.Matches.Retention.Kept.{BetOn, PredictedOn, IsKeyed, cleanup_with-keeps}
use chiliztv_com.Tests.Matches.{full_time}

abbrev old_match : Match
old_match = record full_time { id = 4; match_date = 1000; betting_contract_address = some "0xAB" }

abbrev old_bet : BetRow
old_bet = record {
  tx_hash = codes "0x1";
  log_index = 0;
  block_number = 5;
  block_timestamp = 900;
  contract_address = codes "0xab";
  market_id = 0;
  user_address = codes "0xu";
  outcome = 0;
  stake_amount = 10;
  new_outcome_pool = 10;
  new_total_pool = 10;
  status = won;
  payout_amount = none;
  claimed_at = none;
}

one-IsKeyed : IsKeyed (old_match ∷ [])
one-IsKeyed a b (inl e) (inl f) same = e ∙ sym f
one-IsKeyed a b (inl e) (inr f) same = absurd f
one-IsKeyed a b (inr e) f same = absurd e

cleanup_with-keeps_example :
    Among old_match (cleanup_with true 5000 (some (old_bet ∷ [])) (some []) (old_match ∷ [])) ↔ (
      Among old_match (old_match ∷ [])
      × ((5000 ≤ 1000) ⊎ (BetOn (old_bet ∷ []) old_match ⊎ PredictedOn [] old_match)))
cleanup_with-keeps_example =
    cleanup_with-keeps 5000 (old_bet ∷ []) [] (old_match ∷ []) old_match one-IsKeyed

-- Without the bet the match goes.
run-deletes : cleanup_with true 5000 (some []) (some []) (old_match ∷ []) ≡ []
unfolding chiliztv_com.Matches.Retention.delete_old_matches
    chiliztv_com.Matches.Retention.referenced_contracts
    chiliztv_com.Matches.Retention.referenced_matches
run-deletes = refl
