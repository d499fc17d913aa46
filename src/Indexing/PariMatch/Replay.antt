-- ===== src/Indexing/PariMatch/Replay.antt =====
-- The overlap of the cursor hands the last blocks over again with every tick.
use chiliztv_com.Base.{
  [], ◌∷◌, Pairwise, ℕ, ◌≤◌, false, List, ◌≡◌, refl, ◌⊎◌, ◌&&◌, text_eq, to_lower_case, All,
}
use chiliztv_com.Indexing.Bets.{to_row}
use chiliztv_com.Indexing.PariMatch.{
  run_logs, Event, position_taken, position_claimed, stake_refunded, market_resolved,
  market_cancelled, market_created, market_state_changed, leaderboard_record_failed, other,
  ChainLog, Ledger, MatchWithContract, bet_of, dispatch,
}
use chiliztv_com.Indexing.PariMatch.Phases.{calm, market_of, phase, same_number, Follows, Done}
use chiliztv_com.Indexing.PariMatch.Once.{Done-nothing, dispatch-Done}
use chiliztv_com.Indexing.PariMatch.Kept.{stored-kept, row-kept, closed-kept, claimed-kept}

module _ (now : ℕ) (matches : List MatchWithContract) where
  Done-kept :
      (log later : ChainLog) (event : Event) (ledger : Ledger)
      → ((text_eq (to_lower_case log.address) (to_lower_case later.address)
            && same_number (market_of event) (market_of later.event))
          ≡ false)
        ⊎ (phase event ≤ phase later.event)
      → Done log event ledger
      → Done log event (dispatch (calm now) matches later later.event ledger)
  Done-kept log later (position_taken market user outcome stake outcome_pool total_pool) ledger f
        d =
      row-kept now matches (to_row (bet_of market user outcome stake outcome_pool total_pool log))
        later later.event ledger d
  Done-kept log later (position_claimed market user payout) ledger f d =
      claimed-kept now matches log later market user later.event ledger f d
  Done-kept log later (stake_refunded market user amount) ledger f d =
      claimed-kept now matches log later market user later.event ledger f d
  Done-kept log later (market_resolved market result) ledger f (e, d) = (
    stored-kept now matches log later later.event ledger e,
    closed-kept now matches log later market later.event ledger f d,
  )
  Done-kept log later (market_cancelled market) ledger f (e, d) = (
    stored-kept now matches log later later.event ledger e,
    closed-kept now matches log later market later.event ledger f d,
  )
  Done-kept log later (market_created market) ledger f d =
      stored-kept now matches log later later.event ledger d
  Done-kept log later (market_state_changed market) ledger f d =
      stored-kept now matches log later later.event ledger d
  Done-kept log later leaderboard_record_failed ledger f d =
      stored-kept now matches log later later.event ledger d
  Done-kept log later other ledger f d = tt

  run_logs-kept :
      (log : ChainLog) (logs : List ChainLog) (ledger : Ledger)
      → All (Follows log) logs
      → Done log log.event ledger
      → Done log log.event (run_logs (calm now) matches logs ledger)
  unfolding run_logs
  run_logs-kept log [] ledger f d = d
  run_logs-kept log (later ∷ logs) ledger (f, rest) d =
      run_logs-kept log logs (dispatch (calm now) matches later later.event ledger) rest
        (Done-kept log later log.event ledger f d)

  run_logs-Done :
      (logs : List ChainLog) (ledger : Ledger)
      → Pairwise Follows logs
      → All (λ log. Done log log.event (run_logs (calm now) matches logs ledger)) logs
  unfolding run_logs
  run_logs-Done [] ledger f = tt
  run_logs-Done (log ∷ logs) ledger (f, rest) = (
    run_logs-kept log logs (dispatch (calm now) matches log log.event ledger) f
        (dispatch-Done now matches log log.event ledger),
    run_logs-Done logs (dispatch (calm now) matches log log.event ledger) rest,
  )

  run_logs-nothing :
      (logs : List ChainLog) (ledger : Ledger)
      → All (λ log. Done log log.event ledger) logs
      → run_logs (calm now) matches logs ledger ≡ ledger
  unfolding run_logs
  run_logs-nothing [] ledger d = refl
  run_logs-nothing (log ∷ logs) ledger (d, rest) =
      rw (Done-nothing now matches log log.event ledger d) (run_logs-nothing logs ledger rest)

-- Where nothing fails, handing the logs of a range over once more, at any later time, changes neither
-- table and sends nothing, whatever the tables held before, provided that the logs stand in the order
-- that the chain allows: of one market, no bet comes after the decision and no decision after a payment.
pub run_logs_replay :
    (now later : ℕ) (matches others : List MatchWithContract) (logs : List ChainLog)
    (ledger : Ledger)
    → Pairwise Follows logs
    → run_logs (calm later) others logs (run_logs (calm now) matches logs ledger)
      ≡ run_logs (calm now) matches logs ledger
run_logs_replay now later matches others logs ledger f =
    run_logs-nothing later others logs (run_logs (calm now) matches logs ledger)
      (run_logs-Done now matches logs ledger f)
