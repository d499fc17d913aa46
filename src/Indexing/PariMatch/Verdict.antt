-- ===== src/Indexing/PariMatch/Verdict.antt =====
-- The status of each stored bet against the history of the chain.
use chiliztv_com.Indexing.PariMatch.Phases.{calm}
use chiliztv_com.Indexing.PariMatch.Once.{dispatch-Done, after_insert-bets}
use chiliztv_com.Indexing.PariMatch.Kept.{row-kept}
use chiliztv_com.Base.{
  true, All, ◌++◌, sym, ◌⊎◌, ℕ, List, [], ◌∷◌, ◌≡◌, refl, inl, inr, ap, ◌∙◌, Text, to_lower_case,
  any, Among, arith,
}
use chiliztv_com.Indexing.Bets.{
  insert_if_absent, BetRow, BetStatus, to_row, same_row, won, lost, refunded, pending,
}
use chiliztv_com.Indexing.Bets.Effects.{all_through}
use chiliztv_com.Indexing.PariMatch.{
  run_logs, other, leaderboard_record_failed, market_state_changed, market_created, Ledger,
  stake_refunded, MatchWithContract, dispatch, position_claimed, Event, position_taken,
  market_resolved, market_cancelled, ChainLog, bet_of,
}
use chiliztv_com.Indexing.PariMatch.Changes.{
  decision, verdict, placed, Places, settled_by, Evolves, kept_status, settle_from, cancel_from,
  SamePlaced, claim_from, insert_from,
}

abbrev Comes : ChainLog → Event → List BetRow → BetRow → Type 0
Comes log event rows new =
    ((old : BetRow) × Among old rows × Evolves log.address event old new)
    ⊎ ((market : ℕ) × (user : Text) × (outcome stake outcome_pool total_pool : ℕ) × (event
          ≡ position_taken market user outcome stake outcome_pool total_pool)
        × (new ≡ to_row (bet_of market user outcome stake outcome_pool total_pool log)))

stays :
    (log : ChainLog) (event : Event) (rows : List BetRow) (new : BetRow)
    → ((old : BetRow) → decision old log.address event pending ≡ pending)
    → ((old : BetRow) × Among old rows × SamePlaced old new)
    → Comes log event rows new
stays log event rows new d (old, m, (p, s)) =
    inl (old, m, kept_status log.address event old new p s (d old))

dispatch_from :
    (now : ℕ) (matches : List MatchWithContract) (log : ChainLog) (event : Event) (ledger : Ledger)
    (new : BetRow)
    → Among new (dispatch (calm now) matches log event ledger).bets
    → Comes log event ledger.bets new
unfolding dispatch
dispatch_from now matches log (position_taken market user outcome stake outcome_pool total_pool)
      ledger new m =
    let bet = bet_of market user outcome stake outcome_pool total_pool log in
    elim (insert_from bet ledger.bets new (
      rw (after_insert-bets now matches log ledger (insert_if_absent all_through bet ledger.bets))
        at m)) [
          | inl k ↦
              stays log (position_taken market user outcome stake outcome_pool total_pool)
                ledger.bets new (λ old. refl) (new, k, (refl, refl))
          | inr e ↦ inr (market, user, outcome, stake, outcome_pool, total_pool, refl, e)
        ]
dispatch_from now matches log (position_claimed market user payout) ledger new m =
    stays log (position_claimed market user payout) ledger.bets new (λ old. refl)
      (claim_from (to_lower_case log.address) market user payout log.block_timestamp ledger.bets new
        m)
dispatch_from now matches log (stake_refunded market user amount) ledger new m =
    stays log (stake_refunded market user amount) ledger.bets new (λ old. refl)
      (claim_from (to_lower_case log.address) market user amount log.block_timestamp ledger.bets new
        m)
dispatch_from now matches log (market_resolved market result) ledger new m =
    inl (settle_from log.address market result ledger.bets new m)
dispatch_from now matches log (market_cancelled market) ledger new m =
    inl (cancel_from log.address market ledger.bets new m)
dispatch_from now matches log (market_created market) ledger new m =
    stays log (market_created market) ledger.bets new (λ old. refl) (new, m, (refl, refl))
dispatch_from now matches log (market_state_changed market) ledger new m =
    stays log (market_state_changed market) ledger.bets new (λ old. refl) (new, m, (refl, refl))
dispatch_from now matches log leaderboard_record_failed ledger new m =
    stays log leaderboard_record_failed ledger.bets new (λ old. refl) (new, m, (refl, refl))
dispatch_from now matches log other ledger new m =
    stays log other ledger.bets new (λ old. refl) (new, m, (refl, refl))

-- A decision is final, so that what comes first counts.
decide_twice :
    (old : BetRow) (status : BetStatus) (address : Text) (event : Event) (rest : BetStatus)
    → settled_by (settled_by status (decision old address event pending)) rest
      ≡ settled_by status (decision old address event rest)
decide_twice old pending address (market_resolved market result) rest = ground arith
decide_twice old pending address (market_cancelled market) rest = ground arith
decide_twice old pending address (position_taken _ _ _ _ _ _) rest = refl
decide_twice old pending address (position_claimed _ _ _) rest = refl
decide_twice old pending address (stake_refunded _ _ _) rest = refl
decide_twice old pending address (market_created _) rest = refl
decide_twice old pending address (market_state_changed _) rest = refl
decide_twice old pending address leaderboard_record_failed rest = refl
decide_twice old pending address other rest = refl
decide_twice old won address event rest = refl
decide_twice old lost address event rest = refl
decide_twice old refunded address event rest = refl

-- What is decided of a bet hangs on how it was placed only.
decision-placed :
    (bet : BetRow) (address : Text) (event : Event) (rest : BetStatus)
    → decision (placed bet) address event rest ≡ decision bet address event rest
decision-placed bet address (market_resolved market result) rest = refl
decision-placed bet address (market_cancelled market) rest = refl
decision-placed bet address (position_taken _ _ _ _ _ _) rest = refl
decision-placed bet address (position_claimed _ _ _) rest = refl
decision-placed bet address (stake_refunded _ _ _) rest = refl
decision-placed bet address (market_created _) rest = refl
decision-placed bet address (market_state_changed _) rest = refl
decision-placed bet address leaderboard_record_failed rest = refl
decision-placed bet address other rest = refl

verdict-placed :
    (bet : BetRow) (logs : List ChainLog) → verdict (placed bet) logs ≡ verdict bet logs
verdict-placed bet [] = refl
verdict-placed bet (log ∷ logs) =
    ap (decision (placed bet) log.address log.event) (verdict-placed bet logs)
    ∙ decision-placed bet log.address log.event (verdict bet logs)

verdict_same :
    (a b : BetRow) (logs : List ChainLog) → placed a ≡ placed b → verdict a logs ≡ verdict b logs
verdict_same a b logs e =
    sym (verdict-placed a logs) ∙ ap (λ r. verdict r logs) e ∙ verdict-placed b logs

-- Where a stored bet comes from: from the table before, or from a log of its own.
abbrev Origin : List ChainLog → List BetRow → BetRow → Type 0
Origin logs rows new =
    ((old : BetRow) × Among old rows
      × (placed new ≡ placed old)
      × (new.status ≡ settled_by old.status (verdict old logs)))
    ⊎ ((before : List ChainLog) × (log : ChainLog) × (after : List ChainLog) × (logs
          ≡ before ++ log ∷ after)
        × Places log new
        × (new.status ≡ verdict new after))

settled_by_pending : (s : BetStatus) → s ≡ settled_by s pending
settled_by_pending pending = refl
settled_by_pending won = refl
settled_by_pending lost = refl
settled_by_pending refunded = refl

earlier :
    (log : ChainLog) (logs : List ChainLog) (rows : List BetRow) (mid new : BetRow)
    → Comes log log.event rows mid
    → placed new ≡ placed mid
    → new.status ≡ settled_by mid.status (verdict mid logs)
    → Origin (log ∷ logs) rows new
earlier log logs rows mid new (inl (old, m, (q, t))) p s = inl (
  old,
  m,
  p ∙ q,
  s
      ∙ ap (settled_by mid.status) (verdict_same mid old logs q)
      ∙ ap (λ status. settled_by status (verdict old logs)) t
      ∙ decide_twice old old.status log.address log.event (verdict old logs),
)
earlier log logs rows mid new (inr (market, user, outcome, stake, outcome_pool, total_pool, e, f)) p
      s =
    inr (
      [],
      log,
      logs,
      refl,
      (market, user, outcome, stake, outcome_pool, total_pool, e, p ∙ ap placed f),
      s
          ∙ ap (λ (r : BetRow). settled_by r.status (verdict mid logs)) f
          ∙ verdict_same mid new logs (sym p),
    )

run_logs_from :
    (now : ℕ) (matches : List MatchWithContract) (logs : List ChainLog) (ledger : Ledger)
    (new : BetRow)
    → Among new (run_logs (calm now) matches logs ledger).bets
    → Origin logs ledger.bets new
unfolding run_logs
run_logs_from now matches [] ledger new m = inl (new, m, refl, settled_by_pending new.status)
run_logs_from now matches (log ∷ logs) ledger new m =
    elim (run_logs_from now matches logs (dispatch (calm now) matches log log.event ledger) new m) [
      | inl (mid, n, p, s) ↦
          earlier log logs ledger.bets mid new
            (dispatch_from now matches log log.event ledger mid n) p s
      | inr (before, placing, after, e, places, s) ↦
          inr (log ∷ before, placing, after, ap (λ l. log ∷ l) e, places, s)
    ]

-- The bet of a log is in the table, by its coordinates.
abbrev pub IsKept : ChainLog → Event → List BetRow → Type 0
IsKept log (position_taken market user outcome stake outcome_pool total_pool) rows =
    any (same_row (to_row (bet_of market user outcome stake outcome_pool total_pool log))) rows
    ≡ true
IsKept log _ rows = Unit {0}

module _ (now : ℕ) (matches : List MatchWithContract) where
  run_logs-row :
      (bet : BetRow) (logs : List ChainLog) (ledger : Ledger)
      → any (same_row bet) ledger.bets ≡ true
      → any (same_row bet) (run_logs (calm now) matches logs ledger).bets ≡ true
  unfolding run_logs
  run_logs-row bet [] ledger h = h
  run_logs-row bet (log ∷ logs) ledger h =
      run_logs-row bet logs (dispatch (calm now) matches log log.event ledger)
        (row-kept now matches bet log log.event ledger h)

  run_logs-log :
      (log : ChainLog) (event : Event) (logs : List ChainLog) (ledger : Ledger)
      → IsKept log event
          (run_logs (calm now) matches logs (dispatch (calm now) matches log event ledger)).bets
  run_logs-log log (position_taken market user outcome stake outcome_pool total_pool) logs ledger =
      run_logs-row (to_row (bet_of market user outcome stake outcome_pool total_pool log)) logs _ (
        dispatch-Done now matches log
          (position_taken market user outcome stake outcome_pool total_pool) ledger)
  run_logs-log log (position_claimed _ _ _) logs ledger = tt
  run_logs-log log (stake_refunded _ _ _) logs ledger = tt
  run_logs-log log (market_resolved _ _) logs ledger = tt
  run_logs-log log (market_cancelled _) logs ledger = tt
  run_logs-log log (market_created _) logs ledger = tt
  run_logs-log log (market_state_changed _) logs ledger = tt
  run_logs-log log leaderboard_record_failed logs ledger = tt
  run_logs-log log other logs ledger = tt

  run_logs-IsKept :
      (logs : List ChainLog) (ledger : Ledger)
      → All (λ log. IsKept log log.event (run_logs (calm now) matches logs ledger).bets) logs
  unfolding run_logs
  run_logs-IsKept [] ledger = tt
  run_logs-IsKept (log ∷ logs) ledger = (
    run_logs-log log log.event logs ledger,
    run_logs-IsKept logs (dispatch (calm now) matches log log.event ledger),
  )

-- Where nothing fails, a history of the chain leaves in a table without bets a row for each log that
-- takes a position, and each bet there was placed by a log of it, with the data of that log, and has the
-- status that the logs after that one say: won or lost by the result of the first decision of its
-- market, refunded if that is a cancellation, and pending if there is none. Payments do not change it.
pub run_logs-verdict :
    (now : ℕ) (matches : List MatchWithContract) (logs : List ChainLog) (ledger : Ledger)
    → ledger.bets ≡ []
    → All (λ log. IsKept log log.event (run_logs (calm now) matches logs ledger).bets) logs
      × ((bet : BetRow)
          → Among bet (run_logs (calm now) matches logs ledger).bets
          → (before : List ChainLog) × (log : ChainLog) × (after : List ChainLog) × (logs
              ≡ before ++ log ∷ after)
            × Places log bet
            × (bet.status ≡ verdict bet after))
run_logs-verdict now matches logs ledger empty = (
  run_logs-IsKept now matches logs ledger,
  (λ bet m. elim (run_logs_from now matches logs ledger bet m) [
    | inl (old, n, _, _) ↦ absurd (rw empty at n)
    | inr found ↦ found
  ]),
)
