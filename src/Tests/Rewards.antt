-- ===== src/Tests/Rewards.antt =====
-- The leaderboard and its rewards at concrete inputs.
use chiliztv_com.Base.{
  ℕ, ◌+◌, ◌*◌, ◌<◌, Bool, true, false, Option, none, some, List, [], ◌∷◌, ◌≡◌, ◌≢◌, ◌↔◌, refl, inl,
  inr, arith, Among, Text, text_eq, codes, to_lower_case,
}
use chiliztv_com.Indexing.Cursor.{
  Settings, Cursor, run_ticks, from_block, resume_at, safe_head, back,
}
use chiliztv_com.Indexing.Leaderboard.{
  handle_each, epoch_advanced, Board, Calls, Log, EpochRow, confirmed, win_recorded,
  epoch_rolled_over, process_leaderboard, handle, score_at, same_cycle,
}
use chiliztv_com.Indexing.Leaderboard.Scores.{process_leaderboard-scores}
use chiliztv_com.Indexing.Leaderboard.Recounts.{
  tick_with, board_after, IsOneChunk, lost_checkpoint_counts_twice,
}
use chiliztv_com.Rewards.{
  Rollovers, Claims, rolls_epoch, execute_upkeep, get_claimable, ClaimableEntry,
}
use chiliztv_com.Rewards.Upkeep.{Advances, IsExpired, execute_upkeep_rolls}
use chiliztv_com.Rewards.Once.{rolled_over_once}
use chiliztv_com.Rewards.Claimable.{Listed, entry_at, get_claimable_iff}

abbrev all_calls : Calls
all_calls = record {
  scores_written = true;
  cycles_written = true;
  epoch_inserted = true;
  epoch_confirmed = true;
  epoch_rolled = true;
  claim_inserted = true;
}

abbrev empty_board : Board
empty_board = record { scores = []; cycles = []; epochs = []; claims = [] }

abbrev win : ℕ → ℕ → Log
win block delta = record {
  block = block;
  index = 0;
  transaction = codes "0xaa";
  block_time = 5000;
  event = win_recorded (codes "0xAB") 1 delta;
}

abbrev player : Text
player = codes "0xab"

-- The logs arrive in the wrong order.
abbrev two_wins : List Log
two_wins = win 20 50 ∷ win 10 7 ∷ []

process_leaderboard-scores_example :
    (score_at text_eq player
        (process_leaderboard true (λ l. all_calls) two_wins empty_board).1.scores
      ≡ 0 + 57)
    × (score_at same_cycle
          (1, player)
          (process_leaderboard true (λ l. all_calls) two_wins empty_board).1.cycles
        ≡ 0 + 57)
unfolding text_eq chiliztv_com.Base.lower
process_leaderboard-scores_example =
    process_leaderboard-scores (λ l. all_calls) two_wins empty_board player 1 (λ l. (refl, refl))

abbrev ranges : Settings
ranges = record { reorg_depth = 6; default_lookback = 1000; max_blocks = 900; tail_overlap = 0 }

abbrev at_hundred : Cursor
at_hundred = record { last_block = 100; processed = [] }

abbrev chain_logs : ℕ → ℕ → List Log
chain_logs from to = two_wins

hundred-IsOneChunk : IsOneChunk ranges 206 100
unfolding from_block resume_at safe_head back
hundred-IsOneChunk = (omega arith, omega arith)

lost_checkpoint_counts_twice_example :
    (after : Cursor) × (run_ticks ranges
        ((true, tick_with 206 false) ∷ (true, tick_with 206 true) ∷ [])
        at_hundred
      ≡ some after)
    × (score_at text_eq player
          (board_after (λ l. all_calls) chain_logs after.processed empty_board).scores
        ≡ 0 + 2 * 57)
unfolding text_eq chiliztv_com.Base.lower
lost_checkpoint_counts_twice_example =
    lost_checkpoint_counts_twice ranges 206 at_hundred (λ l. all_calls) chain_logs empty_board
      player hundred-IsOneChunk (λ l. (refl, refl))

abbrev closed_epoch : EpochRow
closed_epoch = record {
  tx_hash = codes "0xee";
  epoch_id = some 3;
  prize_pool = some 900;
  claim_expiry = some 40000;
  closed_at = some 20000;
  rolled = none;
  rolled_over_at = none;
  status = confirmed;
}

abbrev quiet : Rollovers
quiet = record {
  boundary = some (30, 60);
  simulates_advance = true;
  advances = true;
  simulates_roll = λ id. true;
  rolls = λ id. true;
}

execute_upkeep_rolls_example :
    Among (rolls_epoch 3) (execute_upkeep quiet 50000 50100 (closed_epoch ∷ [])).1 ↔ (
      Advances quiet 50000 quiet.boundary
      × ((quiet.simulates_roll 3 ≡ true) × IsExpired 50100 (closed_epoch ∷ []) 3))
execute_upkeep_rolls_example = execute_upkeep_rolls quiet 50000 50100 (closed_epoch ∷ []) 3

-- The epoch in course runs on; the closed one is rolled over.
run-rolls :
    execute_upkeep quiet 50000 50100 (closed_epoch ∷ []) ≡ (some (false, 1), rolls_epoch 3 ∷ [])
unfolding execute_upkeep chiliztv_com.Rewards.advance_if_due chiliztv_com.Rewards.rollover_each
    chiliztv_com.Rewards.find_expired_confirmed
run-rolls = refl

-- Nothing is sent where the simulation rejects: the advance is due, and the run throws.
run-rejected :
    execute_upkeep (record quiet { simulates_advance = false }) 100000 100100 (closed_epoch ∷ [])
    ≡ (none, [])
unfolding execute_upkeep chiliztv_com.Rewards.advance_if_due
run-rejected = refl

abbrev rolled_log : Log
rolled_log = record {
  block = 300;
  index = 1;
  transaction = codes "0xff";
  block_time = 51000;
  event = epoch_rolled_over 3 900;
}

abbrev closed_board : Board
closed_board = record empty_board { epochs = closed_epoch ∷ [] }

-- A later epoch ends.
abbrev next_epoch : Log
next_epoch = record {
  block = 400;
  index = 0;
  transaction = codes "0xdd";
  block_time = 52000;
  event = epoch_advanced 4 100 52 90;
}

rolled_over_once_example :
    Among
      (rolls_epoch 3)
      (execute_upkeep quiet 60000 60100
        (handle_each
          (λ l. all_calls)
          (next_epoch ∷ [])
          (handle all_calls rolled_log (epoch_rolled_over 3 900) closed_board)).epochs).1
    → ⊥
rolled_over_once_example =
    rolled_over_once quiet 60000 60100 (λ l. all_calls) rolled_log 3 900 (next_epoch ∷ [])
      closed_board refl (refl, tt)

abbrev due : Claims
due = record { pending_claim = λ id user. some 25; has_claimed = λ id user. some false }

shown :
    get_claimable due 30000 (codes "0xAB") (closed_epoch ∷ [])
    ≡ some (entry_at 30000 closed_epoch 3 25 false ∷ [])
unfolding get_claimable chiliztv_com.Rewards.all_entries
    chiliztv_com.Rewards.find_open_claim_windows
shown = refl

get_claimable_iff_example :
    Among (entry_at 30000 closed_epoch 3 25 false) (entry_at 30000 closed_epoch 3 25 false ∷ []) ↔ (
      (row : EpochRow) × Among row (closed_epoch ∷ [])
      × (row.status ≡ confirmed)
      × ((expiry : ℕ) × (row.claim_expiry ≡ some expiry) × (30000 < expiry))
      × Listed due 30000
          (to_lower_case (codes "0xAB"))
          row
          (entry_at 30000 closed_epoch 3 25 false))
get_claimable_iff_example =
    get_claimable_iff due 30000 (codes "0xAB") (closed_epoch ∷ [])
      (entry_at 30000 closed_epoch 3 25 false ∷ []) (entry_at 30000 closed_epoch 3 25 false) shown
