-- ===== src/Indexing/PariMatch/Kept.antt =====
-- What makes a log change nothing stays when later logs of the contract's order follow.
use chiliztv_com.Base.{
  Text, arith, ◌∙◌, inr, inl, Bool-cases, ℕ, ◌≤◌, true, false, some, List, ◌≡◌, refl, ◌⊎◌, ◌&&◌,
  text_eq, to_lower_case, any, All,
}
use chiliztv_com.Indexing.Bets.{refunded, lost, won, insert_if_absent, BetRow, same_row}
use chiliztv_com.Indexing.Bets.Effects.{
  cancel-kept, settle-kept, claim-kept, all_through, NotOpen, NotClaimable,
}
use chiliztv_com.Indexing.Bets.Presence.{cancel-any, settle-any, claim-any, insert-any, insert-All}
use chiliztv_com.Indexing.PariMatch.{
  stored_event, Event, position_taken, position_claimed, stake_refunded, market_resolved,
  market_cancelled, market_created, market_state_changed, leaderboard_record_failed, other,
  ChainLog, MarketEvent, Ledger, MatchWithContract, bet_of, dispatch,
}
use chiliztv_com.Indexing.PariMatch.Phases.{
  calm, market_of, phase, same_number, is_stored, new_elsewhere, elsewhere,
}
use chiliztv_com.Indexing.PariMatch.Once.{after_insert-bets, after_insert-events}

module _ (now : ℕ) (matches : List MatchWithContract) where
  stored_later :
      (log later : ChainLog) (events : List MarketEvent)
      → is_stored log events ≡ true
      → is_stored log (stored_event later events) ≡ true
  stored_later log later events e = elim (Bool-cases (is_stored later events)) [
    | inl h ↦ rw h e
    | inr h ↦ rw h (ground arith)
  ]

  -- What a later log keeps: rows and audit entries stay, and closed markets stay closed.
  pub stored-kept :
      (log later : ChainLog) (event : Event) (ledger : Ledger)
      → is_stored log ledger.market_events ≡ true
      → is_stored log (dispatch (calm now) matches later event ledger).market_events ≡ true
  unfolding dispatch
  stored-kept log later (position_taken market user outcome stake outcome_pool total_pool) ledger
        e =
      rw
        (after_insert-events now matches later ledger (
          insert_if_absent all_through
            (bet_of market user outcome stake outcome_pool total_pool later) ledger.bets))
        e
  stored-kept log later (position_claimed market user payout) ledger e = e
  stored-kept log later (stake_refunded market user amount) ledger e = e
  stored-kept log later (market_resolved market result) ledger e =
      stored_later log later ledger.market_events e
  stored-kept log later (market_cancelled market) ledger e =
      stored_later log later ledger.market_events e
  stored-kept log later (market_created market) ledger e =
      stored_later log later ledger.market_events e
  stored-kept log later (market_state_changed market) ledger e =
      stored_later log later ledger.market_events e
  stored-kept log later leaderboard_record_failed ledger e =
      stored_later log later ledger.market_events e
  stored-kept log later other ledger e = e

  pub row-kept :
      (bet : BetRow) (later : ChainLog) (event : Event) (ledger : Ledger)
      → any (same_row bet) ledger.bets ≡ true
      → any (same_row bet) (dispatch (calm now) matches later event ledger).bets ≡ true
  unfolding dispatch
  row-kept bet later (position_taken market user outcome stake outcome_pool total_pool) ledger e =
      let new = bet_of market user outcome stake outcome_pool total_pool later in
      rw (after_insert-bets now matches later ledger (insert_if_absent all_through new ledger.bets))
        (insert-any bet new ledger.bets e)
  row-kept bet later (position_claimed market user payout) ledger e =
      claim-any bet (to_lower_case later.address) market user payout later.block_timestamp
        ledger.bets
      ∙ e
  row-kept bet later (stake_refunded market user amount) ledger e =
      claim-any bet (to_lower_case later.address) market user amount later.block_timestamp
        ledger.bets
      ∙ e
  row-kept bet later (market_resolved market result) ledger e =
      settle-any bet (to_lower_case later.address) market result ledger.bets ∙ e
  row-kept bet later (market_cancelled market) ledger e =
      cancel-any bet (to_lower_case later.address) market ledger.bets ∙ e
  row-kept bet later (market_created market) ledger e = e
  row-kept bet later (market_state_changed market) ledger e = e
  row-kept bet later leaderboard_record_failed ledger e = e
  row-kept bet later other ledger e = e

  pub closed-kept :
      (log later : ChainLog) (market : ℕ) (event : Event) (ledger : Ledger)
      → ((text_eq (to_lower_case log.address) (to_lower_case later.address)
            && same_number (some market) (market_of event))
          ≡ false)
        ⊎ (1 ≤ phase event)
      → All (NotOpen (to_lower_case log.address) market) ledger.bets
      → All
          (NotOpen (to_lower_case log.address) market)
          (dispatch (calm now) matches later event ledger).bets
  unfolding dispatch
  closed-kept log later market (position_taken market' user outcome stake outcome_pool total_pool)
        ledger f h =
      let new = bet_of market' user outcome stake outcome_pool total_pool later in
      rw (after_insert-bets now matches later ledger (insert_if_absent all_through new ledger.bets))
        (elim f [
          | inl apart ↦
              insert-All (NotOpen (to_lower_case log.address) market) new ledger.bets
                (rw (new_elsewhere log.address later.address market market' apart) refl) h
          | inr late ↦ absurd (omega arith)
        ])
  closed-kept log later market (position_claimed market' user payout) ledger f h =
      claim-kept (NotOpen (to_lower_case log.address) market) (to_lower_case later.address) market'
        user payout later.block_timestamp ledger.bets (λ r k. k) (λ r k. k) h
  closed-kept log later market (stake_refunded market' user payout) ledger f h =
      claim-kept (NotOpen (to_lower_case log.address) market) (to_lower_case later.address) market'
        user payout later.block_timestamp ledger.bets (λ r k. k) (λ r k. k) h
  closed-kept log later market (market_resolved market' result) ledger f h =
      settle-kept (NotOpen (to_lower_case log.address) market) (to_lower_case later.address) market'
        result ledger.bets (λ r e k. ground arith) (λ r e k. ground arith) h
  closed-kept log later market (market_cancelled market') ledger f h =
      cancel-kept (NotOpen (to_lower_case log.address) market) (to_lower_case later.address) market'
        ledger.bets (λ r e k. ground arith) h
  closed-kept log later market (market_created market') ledger f h = h
  closed-kept log later market (market_state_changed market') ledger f h = h
  closed-kept log later market leaderboard_record_failed ledger f h = h
  closed-kept log later market other ledger f h = h

  pub claimed-kept :
      (log later : ChainLog) (market : ℕ) (user : Text) (event : Event) (ledger : Ledger)
      → ((text_eq (to_lower_case log.address) (to_lower_case later.address)
            && same_number (some market) (market_of event))
          ≡ false)
        ⊎ (2 ≤ phase event)
      → All (NotClaimable (to_lower_case log.address) market user) ledger.bets
      → All
          (NotClaimable (to_lower_case log.address) market user)
          (dispatch (calm now) matches later event ledger).bets
  unfolding dispatch
  claimed-kept log later market user
        (position_taken market' better outcome stake outcome_pool total_pool) ledger f h =
      let new = bet_of market' better outcome stake outcome_pool total_pool later in
      rw (after_insert-bets now matches later ledger (insert_if_absent all_through new ledger.bets))
        (insert-All (NotClaimable (to_lower_case log.address) market user) new ledger.bets
          (ground arith) h)
  claimed-kept log later market user (position_claimed market' better payout) ledger f h =
      claim-kept (NotClaimable (to_lower_case log.address) market user)
        (to_lower_case later.address) market' better payout later.block_timestamp ledger.bets
        (λ r k. ground arith) (λ r k. k) h
  claimed-kept log later market user (stake_refunded market' better payout) ledger f h =
      claim-kept (NotClaimable (to_lower_case log.address) market user)
        (to_lower_case later.address) market' better payout later.block_timestamp ledger.bets
        (λ r k. ground arith) (λ r k. k) h
  claimed-kept log later market user (market_resolved market' result) ledger (inl apart) h =
      settle-kept (NotClaimable (to_lower_case log.address) market user)
        (to_lower_case later.address) market' result ledger.bets
        (λ r e k. elsewhere log later market market' user won r apart (ground arith))
        (λ r e k. elsewhere log later market market' user lost r apart (ground arith)) h
  claimed-kept log later market user (market_resolved market' result) ledger (inr late) h =
      absurd (omega arith)
  claimed-kept log later market user (market_cancelled market') ledger (inl apart) h =
      cancel-kept (NotClaimable (to_lower_case log.address) market user)
        (to_lower_case later.address) market' ledger.bets
        (λ r e k. elsewhere log later market market' user refunded r apart (ground arith)) h
  claimed-kept log later market user (market_cancelled market') ledger (inr late) h =
      absurd (omega arith)
  claimed-kept log later market user (market_created market') ledger f h = h
  claimed-kept log later market user (market_state_changed market') ledger f h = h
  claimed-kept log later market user leaderboard_record_failed ledger f h = h
  claimed-kept log later market user other ledger f h = h
