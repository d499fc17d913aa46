-- ===== src/Indexing/PariMatch/Once.antt =====
-- A log that is handed over again at once changes nothing.
use chiliztv_com.Base.{
  text_eq_iff, arith, inr, inl, Bool-cases, ℕ, Bool, true, false, Option, none, some, List, ◌≡◌,
  refl, ap, to_lower_case,
}
use chiliztv_com.Indexing.Bets.{insert_if_absent, BetRow}
use chiliztv_com.Indexing.Bets.Effects.{
  cancel-NotOpen, settle-NotOpen, claim-NotClaimable, all_through, settle_closed, cancel_closed,
  claim_settled,
}
use chiliztv_com.Indexing.Bets.Presence.{insert_stores, insert_present}
use chiliztv_com.Indexing.PariMatch.{
  after_insert, stored_event, Event, position_taken, position_claimed, stake_refunded,
  market_resolved, market_cancelled, market_created, market_state_changed,
  leaderboard_record_failed, other, ChainLog, MarketEvent, Ledger, MatchWithContract, bet_of,
  dispatch,
}
use chiliztv_com.Indexing.PariMatch.Phases.{calm, is_stored, Done}

module _ (now : ℕ) (matches : List MatchWithContract) where
  pub Done-nothing :
      (log : ChainLog) (event : Event) (ledger : Ledger)
      → Done log event ledger
      → dispatch (calm now) matches log event ledger ≡ ledger
  unfolding dispatch
  Done-nothing log (position_taken market user outcome stake outcome_pool total_pool) ledger d =
      rw
        (insert_present (bet_of market user outcome stake outcome_pool total_pool log) ledger.bets
          d)
        refl
  Done-nothing log (position_claimed market user payout) ledger d =
      ap (λ rows. record ledger { bets = rows })
        (claim_settled (to_lower_case log.address) market user payout log.block_timestamp
          ledger.bets d)
  Done-nothing log (stake_refunded market user amount) ledger d =
      ap (λ rows. record ledger { bets = rows })
        (claim_settled (to_lower_case log.address) market user amount log.block_timestamp
          ledger.bets d)
  Done-nothing log (market_resolved market result) ledger (e, d) = rw e (
      ap (λ rows. record ledger { bets = rows })
        (settle_closed (to_lower_case log.address) market result ledger.bets d))
  Done-nothing log (market_cancelled market) ledger (e, d) = rw e (
      ap (λ rows. record ledger { bets = rows })
        (cancel_closed (to_lower_case log.address) market ledger.bets d))
  Done-nothing log (market_created market) ledger e = rw e refl
  Done-nothing log (market_state_changed market) ledger e = rw e refl
  Done-nothing log leaderboard_record_failed ledger e = rw e refl
  Done-nothing log other ledger d = refl

  stored_itself :
      (log : ChainLog) (events : List MarketEvent) → is_stored log (stored_event log events) ≡ true
  stored_itself log events = elim (Bool-cases (is_stored log events)) [
    | inl e ↦ rw e e
    | inr e ↦ rw e (
        ground (
          arith,
          (text_eq_iff (to_lower_case log.transaction_hash) (to_lower_case log.transaction_hash)).1
              refl,
        ))
  ]

  pub after_insert-bets :
      (log : ChainLog) (ledger : Ledger) (answer : Option Bool × List BetRow)
      → (after_insert true now matches log ledger answer).bets ≡ answer.1
  after_insert-bets log ledger (none, rows) = refl
  after_insert-bets log ledger (some true, rows) = refl
  after_insert-bets log ledger (some false, rows) = refl

  pub after_insert-events :
      (log : ChainLog) (ledger : Ledger) (answer : Option Bool × List BetRow)
      → (after_insert true now matches log ledger answer).market_events ≡ ledger.market_events
  after_insert-events log ledger (none, rows) = refl
  after_insert-events log ledger (some true, rows) = refl
  after_insert-events log ledger (some false, rows) = refl

  pub dispatch-Done :
      (log : ChainLog) (event : Event) (ledger : Ledger)
      → Done log event (dispatch (calm now) matches log event ledger)
  unfolding dispatch
  dispatch-Done log (position_taken market user outcome stake outcome_pool total_pool) ledger =
      let bet = bet_of market user outcome stake outcome_pool total_pool log in
      rw (after_insert-bets log ledger (insert_if_absent all_through bet ledger.bets))
        (insert_stores bet ledger.bets)
  dispatch-Done log (position_claimed market user payout) ledger =
      claim-NotClaimable (to_lower_case log.address) market user payout log.block_timestamp
        ledger.bets
  dispatch-Done log (stake_refunded market user amount) ledger =
      claim-NotClaimable (to_lower_case log.address) market user amount log.block_timestamp
        ledger.bets
  dispatch-Done log (market_resolved market result) ledger = (
    stored_itself log ledger.market_events,
    settle-NotOpen (to_lower_case log.address) market result ledger.bets,
  )
  dispatch-Done log (market_cancelled market) ledger = (
    stored_itself log ledger.market_events,
    cancel-NotOpen (to_lower_case log.address) market ledger.bets,
  )
  dispatch-Done log (market_created market) ledger = stored_itself log ledger.market_events
  dispatch-Done log (market_state_changed market) ledger = stored_itself log ledger.market_events
  dispatch-Done log leaderboard_record_failed ledger = stored_itself log ledger.market_events
  dispatch-Done log other ledger = tt
