-- ===== src/Indexing/Leaderboard.antt =====
-- apps/backend/src/infrastructure/blockchain/indexers/LeaderboardIndexer.ts with the tables behind it: the
-- functions that count scores, of migrations/024_leaderboard_schema.sql and 029_leaderboard_cycle_scores.sql,
-- and the writes of SupabaseLeaderboardEpochRepository and SupabaseLeaderboardClaimRepository. Each call of
-- the database may fail; a write that fails has changed nothing. The times of writing are left out.
pub mod Scores
pub mod Recounts
use chiliztv_com.Base.{
  none, not, any, false, true, ◌+◌, [], ◌*◌, leb, ◌&&◌, update_where, ◌==◌, if◌then◌else◌, text_eq,
  ◌∷◌, Option, some, List, Text, ℕ, Bool, to_lower_case, refl,
}

-- A table of counts by its primary key.
abbrev pub Tally : Type 0 → Type 0
Tally K = List (K × ℕ)

-- `INSERT ... ON CONFLICT DO UPDATE SET score = score + delta`; the key is unique.
abbrev pub increment : {K : Type 0} → (K → K → Bool) → K → ℕ → Tally K → Tally K
increment same key delta [] = (key, delta) ∷ []
increment same key delta ((k, n) ∷ rows) =
    let rest = increment same key delta rows in
    if same k key then (k, n + delta) ∷ rows else (k, n) ∷ rest

-- The score in the row of the key, and 0 where there is none.
abbrev pub score_at : {K : Type 0} → (K → K → Bool) → K → Tally K → ℕ
score_at same key [] = 0
score_at same key ((k, n) ∷ rows) = if same k key then n else score_at same key rows

abbrev pub same_cycle : ℕ × Text → ℕ × Text → Bool
same_cycle (c, u) (c', u') = c == c' && text_eq u u'

pub data EpochStatus : Type 0 where
  pending confirmed rolled_over expired : EpochStatus

pub record EpochRow : Type 0 where
  pub tx_hash : Text
  pub epoch_id : Option ℕ
  pub prize_pool : Option ℕ
  pub claim_expiry : Option ℕ
  pub closed_at : Option ℕ
  pub rolled : Option ℕ
  pub rolled_over_at : Option ℕ
  pub status : EpochStatus

pub record ClaimRow : Type 0 where
  pub claimed_epoch : ℕ
  pub claimed_by : Text
  pub amount : ℕ
  pub claimed_at : ℕ
  pub claim_tx : Text

pub record Board : Type 0 where
  pub scores : Tally Text
  pub cycles : Tally (ℕ × Text)
  pub epochs : List EpochRow
  pub claims : List ClaimRow

-- Which calls of the database go through for a log.
pub record Calls : Type 0 where
  pub scores_written : Bool
  pub cycles_written : Bool
  pub epoch_inserted : Bool
  pub epoch_confirmed : Bool
  pub epoch_rolled : Bool
  pub claim_inserted : Bool

pub data Event : Type 0 where
  win_recorded : Text → ℕ → ℕ → Event
  epoch_advanced : ℕ → ℕ → ℕ → ℕ → Event
  prize_claimed : ℕ → Text → ℕ → Event
  epoch_rolled_over : ℕ → ℕ → Event
  unknown : Event

-- A log with the time of its block; the times of the chain are in seconds.
pub record Log : Type 0 where
  pub block : ℕ
  pub index : ℕ
  pub transaction : Text
  pub block_time : ℕ
  pub event : Event

abbrev pub has_tx : Text → EpochRow → Bool
has_tx tx row = text_eq row.tx_hash tx

abbrev pub is_epoch : ℕ → EpochRow → Bool
is_epoch id row = elim row.epoch_id [ none ↦ false | some n ↦ n == id ]

-- The transaction is the primary key. The error of a second insert is swallowed.
unfoldable pub insert_pending : Bool → Text → List EpochRow → List EpochRow
insert_pending goes tx rows =
    if goes && not (any (has_tx tx) rows)
    then (record {
      tx_hash = tx;
      epoch_id = none;
      prize_pool = none;
      claim_expiry = none;
      closed_at = none;
      rolled = none;
      rolled_over_at = none;
      status = pending;
    }
        ∷ rows)
    else rows

abbrev pub confirm : ℕ → ℕ → ℕ → ℕ → EpochRow → EpochRow
confirm id pool closed expiry row = record row {
  epoch_id = some id;
  prize_pool = some pool;
  claim_expiry = some (expiry * 1000);
  closed_at = some (closed * 1000);
  status = confirmed;
}

-- The number of the epoch is unique: the update is refused where another row has it.
unfoldable pub mark_confirmed : Bool → Text → ℕ → ℕ → ℕ → ℕ → List EpochRow → List EpochRow
mark_confirmed goes tx id pool closed expiry rows =
    if goes && not (any (λ r. is_epoch id r && not (has_tx tx r)) rows)
    then update_where (has_tx tx) (confirm id pool closed expiry) rows
    else rows

abbrev pub roll : ℕ → ℕ → EpochRow → EpochRow
roll amount at row = record row {
  rolled = some amount;
  rolled_over_at = some at;
  status = rolled_over;
}

unfoldable pub mark_rolled_over : Bool → ℕ → ℕ → ℕ → List EpochRow → List EpochRow
mark_rolled_over goes id amount at rows =
    if goes then update_where (is_epoch id) (roll amount at) rows else rows

abbrev pub is_claim : ℕ → Text → ClaimRow → Bool
is_claim id user row = row.claimed_epoch == id && text_eq row.claimed_by user

-- The epoch and the user are the primary key, and the epoch refers to a row of the epochs.
unfoldable pub insert_claim : Bool → ClaimRow → List EpochRow → List ClaimRow → List ClaimRow
insert_claim goes claim epochs rows =
    if goes
      && any (is_epoch claim.claimed_epoch) epochs
      && not (any (is_claim claim.claimed_epoch claim.claimed_by) rows)
    then claim ∷ rows
    else rows

-- The cycle is counted only where the lifetime score was written.
unfoldable pub handle_win_recorded : Calls → Text → ℕ → ℕ → Board → Board
handle_win_recorded calls user epoch delta board =
    if calls.scores_written
    then record board {
      scores = increment text_eq user delta board.scores;
      cycles =
          if calls.cycles_written
          then increment same_cycle (epoch, user) delta board.cycles
          else board.cycles;
    }
    else board

-- The board after a log. What it throws is caught by the loop.
unfoldable pub handle : Calls → Log → Event → Board → Board
unfolding handle_win_recorded
handle calls log (win_recorded user epoch delta) board =
    handle_win_recorded calls (to_lower_case user) epoch delta board
handle calls log (epoch_advanced id pool closed expiry) board = record board {
  epochs =
      mark_confirmed calls.epoch_confirmed (to_lower_case log.transaction) id pool closed expiry
        (insert_pending calls.epoch_inserted (to_lower_case log.transaction) board.epochs);
}
handle calls log (prize_claimed id user amount) board = record board {
  claims =
      insert_claim calls.claim_inserted
        (record {
          claimed_epoch = id;
          claimed_by = to_lower_case user;
          amount = amount;
          claimed_at = log.block_time;
          claim_tx = to_lower_case log.transaction;
        })
        board.epochs board.claims;
}
handle calls log (epoch_rolled_over id amount) board = record board {
  epochs = mark_rolled_over calls.epoch_rolled id amount log.block_time board.epochs;
}
handle calls log unknown board = board

-- The order of the chain.
abbrev pub not_after : Log → Log → Bool
not_after a b = if a.block == b.block then leb a.index b.index else leb a.block b.block

abbrev pub insert_log : Log → List Log → List Log
insert_log log [] = log ∷ []
insert_log log (next ∷ logs) =
    let rest = insert_log log logs in if not_after log next then log ∷ next ∷ logs else next ∷ rest

-- `logs.sort`, which is stable.
abbrev pub in_order : List Log → List Log
in_order [] = []
in_order (log ∷ logs) = insert_log log (in_order logs)

unfoldable pub handle_each : (Log → Calls) → List Log → Board → Board
handle_each calls [] board = board
handle_each calls (log ∷ logs) board =
    handle_each calls logs (handle (calls log) log log.event board)

-- Whether the range is processed without a throw, from whether the chain is read, and the board after it.
unfoldable pub process_leaderboard : Bool → (Log → Calls) → List Log → Board → Bool × Board
process_leaderboard answers calls logs board =
    if answers then (true, handle_each calls (in_order logs) board) else (false, board)
