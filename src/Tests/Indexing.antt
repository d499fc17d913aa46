-- ===== src/Tests/Indexing.antt =====
-- The cursor and the indexer of the bets at concrete inputs.
use chiliztv_com.Matches.Status.{classify_status}
use chiliztv_com.Base.{
  Pairwise, ◌*◌, lower, leb, text_eq, ℕ, ◌+◌, ◌≤◌, ◌<◌, true, false, some, none, [], ◌∷◌, ◌++◌, ◌≡◌,
  ◌≢◌, ◌⊎◌, refl, inl, inr, codes, List, Option, Among, All, map, arith, filter,
}
use chiliztv_com.Indexing.Cursor.{
  Settings, Answers, Cursor, Outcome, returned, failed, walk, run_ticks, advance_cursor_once,
  advance_from, from_block, safe_head, chunk_end, run_chunk,
}
use chiliztv_com.Indexing.Cursor.Loop.{walk_ends}
use chiliztv_com.Indexing.Cursor.Coverage.{IsCovered, run_ticks-IsCovered}
use chiliztv_com.Indexing.Cursor.Progress.{Grew, IsBelowHead, advance_cursor_once_lem}
use chiliztv_com.Indexing.Bets.{
  BetStatus, BetRow, won, lost, claimable, record_claim, insert_if_absent, settle_market,
  claim_rows, latest,
}
use chiliztv_com.Indexing.Bets.Effects.{all_through}
use chiliztv_com.Indexing.PariMatch.{
  Event, ChainLog, Ledger, MatchWithContract, Surroundings, position_taken, position_claimed,
  market_resolved, dispatch, run_logs, process_range,
}
use chiliztv_com.Indexing.PariMatch.Phases.{Follows, calm}
use chiliztv_com.Indexing.PariMatch.Replay.{run_logs_replay}
use chiliztv_com.Indexing.PariMatch.Changes.{Places, verdict}
use chiliztv_com.Indexing.PariMatch.Verdict.{IsKept, run_logs-verdict}
use chiliztv_com.Indexing.PariMatch.Outages.{
  no_payout, record_claim_unpaid, tick_of, outage_passes_over,
}

abbrev settings : Settings
settings = record { reorg_depth = 6; default_lookback = 1000; max_blocks = 900; tail_overlap = 120 }

-- The second chunk fails.
abbrev answers : Answers
answers = record {
  head = some 3006;
  reads = true;
  processes = λ first last. leb first 1001;
  writes = λ to. true;
}

abbrev cursor : Cursor
cursor = record { last_block = 1000; processed = (900, 1000) ∷ [] }

abbrev stopped : Cursor
stopped = record { last_block = 1900; processed = (1001, 1900) ∷ (900, 1000) ∷ [] }

walk_ends_example :
    (0 < settings.max_blocks
      → (from : ℕ) (c : Cursor)
      → (r : Outcome × Cursor) × (walk settings answers 3000 (3000 + 2) from c ≡ some r))
    × (settings.max_blocks ≡ 0
        → ((from to : ℕ) → answers.processes from to ≡ true)
        → ((to : ℕ) → answers.writes to ≡ true)
        → (fuel from : ℕ) (c : Cursor) → 0 < from
        → from ≤ 3000
        → walk settings answers 3000 fuel from c ≡ none)
walk_ends_example = walk_ends settings answers 3000

tick-fails : advance_cursor_once settings answers cursor ≡ some (failed, stopped)
unfolding advance_cursor_once advance_from from_block safe_head walk chunk_end run_chunk
tick-fails = refl

cursor-IsCovered : IsCovered 900 cursor
cursor-IsCovered = (omega arith, (λ b h k. (900, 1000, inl refl, h, k)))

run_ticks-IsCovered_example :
    (after : Cursor) × (run_ticks settings ((true, answers) ∷ (false, answers) ∷ []) cursor
      ≡ some after)
    × IsCovered 900 after
run_ticks-IsCovered_example =
    run_ticks-IsCovered settings 900 (omega arith) ((true, answers) ∷ (false, answers) ∷ []) cursor
      (omega arith) cursor-IsCovered

advance_cursor_once_lem_example :
    Grew settings
      (from_block settings 1000 (safe_head settings 3006))
      (safe_head settings 3006)
      cursor
      (record { last_block = 1900; processed = (1001, 1900) ∷ (900, 1000) ∷ [] })
    × (failed ≡ returned
        → ((from_block settings 1000 (safe_head settings 3006) ≤ safe_head settings 3006)
            × (stopped.last_block ≡ safe_head settings 3006))
          ⊎ ((safe_head settings 3006 < from_block settings 1000 (safe_head settings 3006))
              × (stopped.last_block ≡ 1000)))
    × IsBelowHead settings 3006
advance_cursor_once_lem_example =
    advance_cursor_once_lem settings answers cursor stopped failed 3006 (omega arith) refl refl
      tick-fails

abbrev log_at : ℕ → Event → ChainLog
log_at n event = record {
  address = codes "0xC";
  transaction_hash = codes "0xT";
  index = n;
  block_number = n;
  block_timestamp = 1000 * n;
  event = event;
}

-- Two bets, the result, and the claim of the winner.
abbrev history : List ChainLog
history =
    log_at 1 (position_taken 0 (codes "0xA") 1 50 50 50)
    ∷ log_at 2 (position_taken 0 (codes "0xB") 0 70 70 120)
    ∷ log_at 3 (market_resolved 0 1)
    ∷ log_at 4 (position_claimed 0 (codes "0xA") 115)
    ∷ []

abbrev blank : Ledger
blank = record { bets = []; market_events = []; notices = [] }

abbrev matches : List MatchWithContract
matches = record { status = "1H"; betting_contract_address = codes "0xC" } ∷ []

in_order : Pairwise Follows history
in_order = (
  (inr (omega arith), (inr (omega arith), (inr (omega arith), tt))),
  ((inr (omega arith), (inr (omega arith), tt)), ((inr (omega arith), tt), (tt, tt))),
)

run_logs_replay_example :
    run_logs (calm 9000) [] history (run_logs (calm 5000) matches history blank)
    ≡ run_logs (calm 5000) matches history blank
run_logs_replay_example = run_logs_replay 5000 9000 matches [] history blank in_order

run_logs-verdict_example :
    All (λ log. IsKept log log.event (run_logs (calm 5000) matches history blank).bets) history
    × ((bet : BetRow)
        → Among bet (run_logs (calm 5000) matches history blank).bets
        → (before : List ChainLog) × (log : ChainLog) × (after : List ChainLog) × (history
            ≡ before ++ log ∷ after)
          × Places log bet
          × (bet.status ≡ verdict bet after))
run_logs-verdict_example = run_logs-verdict 5000 matches history blank refl

abbrev shown : BetRow → BetStatus × Option ℕ
shown r = (r.status, r.payout_amount)

abbrev outcomes : List (BetStatus × Option ℕ)
outcomes = (lost, none) ∷ (won, some 115) ∷ []

history-statuses :
    map
      (λ (r : BetRow). (r.status, r.payout_amount))
      (run_logs (calm 5000) matches history blank).bets
    ≡ outcomes
unfolding run_logs dispatch insert_if_absent settle_market record_claim claim_rows latest lower
    text_eq classify_status
history-statuses = refl

abbrev winner : BetRow
winner = record {
  tx_hash = codes "0xt";
  log_index = 1;
  block_number = 1;
  block_timestamp = 1000;
  contract_address = codes "0xc";
  market_id = 0;
  user_address = codes "0xa";
  outcome = 1;
  stake_amount = 50;
  new_outcome_pool = 50;
  new_total_pool = 50;
  status = won;
  payout_amount = none;
  claimed_at = none;
}

winner-claimable : filter (claimable (codes "0xC") 0 (codes "0xA")) (winner ∷ []) ≢ []
unfolding text_eq lower
winner-claimable e = cc

record_claim_unpaid_example :
    ((record_claim no_payout (codes "0xC") 0 (codes "0xA") 115 4000 (winner ∷ [])).0 ≡ none)
    × (map
          (λ (r : BetRow). r.payout_amount)
          (record_claim no_payout (codes "0xC") 0 (codes "0xA") 115 4000 (winner ∷ [])).1
        ≡ none ∷ [])
    × ((record_claim all_through
          (codes "0xC")
          0
          (codes "0xA")
          115
          9000
          (record_claim no_payout (codes "0xC") 0 (codes "0xA") 115 4000 (winner ∷ [])).1).1
        ≡ (record_claim no_payout (codes "0xC") 0 (codes "0xA") 115 4000 (winner ∷ [])).1)
record_claim_unpaid_example =
    record_claim_unpaid (codes "0xC") 0 (codes "0xA") 115 4000 115 9000 (winner ∷ [])
      winner-claimable

abbrev unreadable : Surroundings
unreadable = record (calm 5000) { matches = none }

backlog : from_block settings 1000 (safe_head settings 3006) ≤ safe_head settings 3006
unfolding from_block safe_head
backlog = omega arith

outage_passes_over_example :
    (after : Cursor) × (advance_cursor_once settings
        (tick_of unreadable (λ first last. history) blank 3006)
        cursor
      ≡ some (returned, after))
    × (after.last_block ≡ safe_head settings 3006)
    × ((first last : ℕ) → process_range unreadable history blank ≡ (true, blank))
outage_passes_over_example =
    outage_passes_over settings unreadable (λ first last. history) blank cursor 3006 (omega arith)
      refl backlog
