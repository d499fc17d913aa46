-- ===== src/Indexing/Leaderboard/Recounts.antt =====
-- What a range counts that the cursor hands over a second time.
use chiliztv_com.Indexing.Leaderboard.Scores.{process_leaderboard-scores, won_by, total, IsWritten}
use chiliztv_com.Base.{
  ◌*◌, Text, text_eq, ap, ◌∙◌, false, suc, leb, arith, [], ◌∷◌, false, arith, ◌≡◌, true, ◌+◌, some,
  ◌<◌, List, Bool, ◌≤◌, ℕ, refl,
}
use chiliztv_com.Indexing.Cursor.{
  Outcome, safe_head, from_block, advance_from, advance_cursor_once, run_batch, run_ticks, failed,
  returned, Cursor, run_chunk, chunk_end, walk, Answers, Settings,
}
use chiliztv_com.Indexing.Leaderboard.{score_at, process_leaderboard, Calls, Log, Board}

-- A tick that gets the lock, reads all it asks for and processes its ranges; its checkpoints are written
-- or not.
abbrev pub tick_with : ℕ → Bool → Answers
tick_with head written = record {
  head = some head;
  reads = true;
  processes = λ from to. true;
  writes = λ to. written;
}

-- The board after the ranges that a cursor has processed, the last of them first.
abbrev pub board_after : (Log → Calls) → (ℕ → ℕ → List Log) → List (ℕ × ℕ) → Board → Board
board_after calls chain [] board = board
board_after calls chain ((from, to) ∷ ranges) board =
    (process_leaderboard true calls (chain from to) (board_after calls chain ranges board)).1

module _ (settings : Settings) (from safe : ℕ) (f : from ≤ safe)
    (g : safe < from + settings.max_blocks) where
  one_chunk : chunk_end settings safe from ≡ safe
  unfolding chunk_end
  one_chunk = ground arith

  walk_lost :
      (fuel head : ℕ) (cursor : Cursor)
      → walk settings (tick_with head false) safe (suc fuel) from cursor
        ≡ some (failed, record cursor { processed = (from, safe) ∷ cursor.processed })
  unfolding walk run_chunk
  walk_lost fuel head cursor =
      let open_still : leb from safe ≡ true = ground arith in rw (open_still, one_chunk) refl

  walk_written :
      (fuel head : ℕ) (cursor : Cursor)
      → walk settings (tick_with head true) safe (suc (suc fuel)) from cursor
        ≡ some (returned, record { last_block = safe; processed = (from, safe) ∷ cursor.processed })
  unfolding walk run_chunk
  walk_written fuel head cursor =
      let open_still : leb from safe ≡ true = ground arith in
      let over : leb (safe + 1) safe ≡ false = ground arith in rw (open_still, one_chunk, over) refl

batch_after :
    (settings : Settings) (answers : Answers) (o : Outcome) (cursor after : Cursor)
    → advance_cursor_once settings answers cursor ≡ some (o, after)
    → run_batch settings true answers cursor ≡ some after
unfolding run_batch
batch_after settings answers o cursor after e = rw e refl

tick_after :
    (settings : Settings) (answers : Answers) (ticks : List (Bool × Answers)) (o : Outcome)
    (cursor after : Cursor)
    → advance_cursor_once settings answers cursor ≡ some (o, after)
    → run_ticks settings ((true, answers) ∷ ticks) cursor ≡ run_ticks settings ticks after
unfolding run_ticks
tick_after settings answers ticks o cursor after e =
    rw (batch_after settings answers o cursor after e, run_ticks) refl

module _ (settings : Settings) (head : ℕ) where
  -- The range of a tick with this head.
  abbrev pub range_of : ℕ → ℕ × ℕ
  range_of stored = (from_block settings stored (safe_head settings head), safe_head settings head)

  -- The range is a single chunk, and not empty.
  abbrev pub IsOneChunk : ℕ → Type 0
  IsOneChunk stored =
      (from_block settings stored (safe_head settings head) ≤ safe_head settings head)
      × (safe_head settings head
          < from_block settings stored (safe_head settings head) + settings.max_blocks)

  fuelled : safe_head settings head + 2 ≡ suc (suc (safe_head settings head))
  fuelled = omega arith

  tick_lost :
      (cursor : Cursor)
      → IsOneChunk cursor.last_block
      → advance_cursor_once settings (tick_with head false) cursor
        ≡ some (failed, record cursor { processed = range_of cursor.last_block ∷ cursor.processed })
  unfolding advance_cursor_once advance_from
  tick_lost cursor (f, g) =
      ap
        (λ n.
          walk settings (tick_with head false) (safe_head settings head) n
            (from_block settings cursor.last_block (safe_head settings head)) cursor)
        fuelled
      ∙ walk_lost settings (from_block settings cursor.last_block (safe_head settings head))
          (safe_head settings head) f g (suc (safe_head settings head)) head cursor

  tick_written :
      (cursor : Cursor)
      → IsOneChunk cursor.last_block
      → advance_cursor_once settings (tick_with head true) cursor
        ≡ some (
          returned,
          record {
            last_block = safe_head settings head;
            processed = range_of cursor.last_block ∷ cursor.processed;
          },
        )
  unfolding advance_cursor_once advance_from
  tick_written cursor (f, g) =
      ap
        (λ n.
          walk settings (tick_with head true) (safe_head settings head) n
            (from_block settings cursor.last_block (safe_head settings head)) cursor)
        fuelled
      ∙ walk_written settings (from_block settings cursor.last_block (safe_head settings head))
          (safe_head settings head) f g (safe_head settings head) head cursor

  two_ticks :
      (cursor : Cursor)
      → IsOneChunk cursor.last_block
      → run_ticks settings ((true, tick_with head false) ∷ (true, tick_with head true) ∷ []) cursor
        ≡ some (record {
          last_block = safe_head settings head;
          processed = range_of cursor.last_block ∷ range_of cursor.last_block ∷ cursor.processed;
        })
  unfolding run_ticks
  two_ticks cursor w =
      let again = record cursor { processed = range_of cursor.last_block ∷ cursor.processed } in
      tick_after settings (tick_with head false) ((true, tick_with head true) ∷ []) failed cursor
        again (tick_lost cursor w)
      ∙ tick_after settings (tick_with head true) [] returned again _ (tick_written again w)

-- A tick that processes its range but cannot write the checkpoint leaves the range to the next tick, which
-- counts it again: after the two ticks the score of a user has grown by twice what the logs of the
-- range record as won.
pub lost_checkpoint_counts_twice :
    (settings : Settings) (head : ℕ) (cursor : Cursor) (calls : Log → Calls)
    (chain : ℕ → ℕ → List Log) (board : Board) (user : Text)
    → IsOneChunk settings head cursor.last_block
    → ((log : Log) → IsWritten (calls log))
    → (after : Cursor) × (run_ticks settings
          ((true, tick_with head false) ∷ (true, tick_with head true) ∷ [])
          cursor
        ≡ some after)
      × (score_at text_eq user (board_after calls chain after.processed board).scores
          ≡ score_at text_eq user (board_after calls chain cursor.processed board).scores
            + 2
              * total (won_by user) (
                  chain
                    (range_of settings head cursor.last_block).0
                    (range_of settings head cursor.last_block).1))
lost_checkpoint_counts_twice settings head cursor calls chain board user w written =
    let (from, safe) = range_of settings head cursor.last_block in
    let earlier = board_after calls chain cursor.processed board in
    let once = (process_leaderboard true calls (chain from safe) earlier).1 in
    let (first, _) = process_leaderboard-scores calls (chain from safe) earlier user 0 written in
    let (second, _) = process_leaderboard-scores calls (chain from safe) once user 0 written in
    (
      record {
        last_block = safe_head settings head;
        processed =
            range_of settings head cursor.last_block
            ∷ range_of settings head cursor.last_block
            ∷ cursor.processed;
      },
      two_ticks settings head cursor w,
      omega (arith, first, second),
    )
