-- ===== src/Indexing/Cursor.antt =====
-- apps/backend/src/infrastructure/blockchain/indexers/BaseIndexer.ts with the checkpoint of
-- SupabaseIndexerCheckpointRepository: the cursor over the blocks. A block is its number; the block
-- before block 0, where a chunk of size zero would end, is written 0.
pub mod Loop
pub mod Coverage
pub mod Progress
use chiliztv_com.Base.{
  true, false, [], ℕ, zero, suc, ◌+◌, ◌-◌, Bool, Option, none, some, List, ◌∷◌, ltb, leb,
  if◌then◌else◌,
}

pub record Settings : Type 0 where
  pub reorg_depth : ℕ
  pub default_lookback : ℕ
  pub max_blocks : ℕ
  pub tail_overlap : ℕ

-- What the other parts answer during a tick: the head of the chain, none if it cannot be read; whether
-- the checkpoint can be read; whether a range is processed without a throw; whether a checkpoint is
-- written.
pub record Answers : Type 0 where
  pub head : Option ℕ
  pub reads : Bool
  pub processes : ℕ → ℕ → Bool
  pub writes : ℕ → Bool

-- The row of the indexer, 0 if there is none, and the ranges that were processed, the last first.
pub record Cursor : Type 0 where
  pub last_block : ℕ
  pub processed : List (ℕ × ℕ)

-- How a tick ends.
pub data Outcome : Type 0 where
  returned failed : Outcome

-- `head > depth ? head - depth : 0`, also for the lookback and the overlap.
unfoldable pub back : ℕ → ℕ → ℕ
back head depth = if ltb depth head then head - depth else 0

abbrev smaller : ℕ → ℕ → ℕ
smaller a b = if ltb a b then a else b

module _ (settings : Settings) where
  unfoldable pub safe_head : ℕ → ℕ
  unfolding back
  safe_head head = back head settings.reorg_depth

  unfoldable pub resume_at : ℕ → ℕ → ℕ
  unfolding back
  resume_at stored safe = if ltb 0 stored then stored + 1 else back safe settings.default_lookback

  unfoldable pub from_block : ℕ → ℕ → ℕ
  unfolding resume_at
  from_block stored safe =
      let start = resume_at stored safe in
      if ltb 0 stored
      then (if ltb 0 settings.tail_overlap
          then smaller (back safe settings.tail_overlap) start
          else start)
      else start

  unfoldable pub chunk_end : ℕ → ℕ → ℕ
  chunk_end safe from = smaller (from + settings.max_blocks - 1) safe

  -- One round of the loop: the range is processed, and its end is written.
  unfoldable pub run_chunk : Answers → ℕ → ℕ → Cursor → Outcome × Cursor
  run_chunk answers from to cursor =
      if answers.processes from to
      then (if answers.writes to
          then (returned, record { last_block = to; processed = (from, to) ∷ cursor.processed })
          else (failed, record cursor { processed = (from, to) ∷ cursor.processed }))
      else (failed, cursor)

  -- A chunk that failed throws out of the loop.
  abbrev pub after_chunk :
      (Cursor → Option (Outcome × Cursor)) → Outcome × Cursor → Option (Outcome × Cursor)
  after_chunk next (failed, cursor) = some (failed, cursor)
  after_chunk next (returned, cursor) = next cursor

  -- The `while` with fuel; `none` means that the fuel ran out.
  unfoldable pub walk : Answers → ℕ → ℕ → ℕ → Cursor → Option (Outcome × Cursor)
  walk answers safe zero from cursor = none
  walk answers safe (suc fuel) from cursor =
      let to = chunk_end safe from in
      let next = λ (c : Cursor). walk answers safe fuel (to + 1) c in
      if leb from safe
      then after_chunk next (run_chunk answers from to cursor)
      else some (returned, cursor)

  -- From the head and whether the checkpoint is read. The fuel is a round for each block up to the safe
  -- head, and one to leave the loop.
  unfoldable pub advance_from : Answers → Option ℕ → Bool → Cursor → Option (Outcome × Cursor)
  unfolding safe_head from_block
  advance_from answers none reads cursor = some (failed, cursor)
  advance_from answers (some head) false cursor = some (failed, cursor)
  advance_from answers (some head) true cursor =
      walk answers (safe_head head) (safe_head head + 2)
        (from_block cursor.last_block (safe_head head)) cursor

  unfoldable pub advance_cursor_once : Answers → Cursor → Option (Outcome × Cursor)
  advance_cursor_once answers cursor = advance_from answers answers.head answers.reads cursor

  -- A tick: it is left out where the lock is not acquired, and what it throws is logged.
  unfoldable pub run_batch : Bool → Answers → Cursor → Option Cursor
  run_batch acquired answers cursor =
      if acquired
      then elim (advance_cursor_once answers cursor) [ none ↦ none | some (_, after) ↦ some after ]
      else some cursor

  -- Ticks one after the other, each with whether it gets the lock.
  unfoldable pub run_ticks : List (Bool × Answers) → Cursor → Option Cursor
  run_ticks [] cursor = some cursor
  run_ticks ((acquired, answers) ∷ ticks) cursor = elim (run_batch acquired answers cursor) [
    | none ↦ none
    | some after ↦ run_ticks ticks after
  ]
