-- ===== src/Indexing/PariMatch/Outages.antt =====
-- What a failure of the database loses.
use chiliztv_com.Base.{
  ℕ, ◌+◌, ◌≤◌, ◌<◌, Bool, true, false, none, some, List, [], ◌∷◌, ◌≡◌, ◌≢◌, refl, ap, ◌∙◌, inl, inr,
  Text, any, filter, map, Among, Among-filter, All, All-updated, update_where, Bool-cases, arith,
}
use chiliztv_com.Indexing.Bets.{
  BetRow, Database, claimable, record_claim, claim_rows, same_row, stamped,
}
use chiliztv_com.Indexing.Bets.Effects.{
  all_through, NotClaimable, stamped-NotClaimable, claim_settled,
}
use chiliztv_com.Indexing.Cursor.{
  Settings, Answers, Cursor, Outcome, returned, safe_head, from_block, chunk_end, run_chunk, walk,
  advance_from, advance_cursor_once,
}
use chiliztv_com.Indexing.Cursor.Loop.{walk_rule, advance_total}
use chiliztv_com.Indexing.Cursor.Progress.{advance_cursor_once_lem}
use chiliztv_com.Indexing.PariMatch.{
  ChainLog, Ledger, Surroundings, process_batch, process_range, betting_contracts,
}

-- The payout of the claim cannot be written, and all else can.
abbrev pub no_payout : Database
no_payout = record all_through { attaches = false }

payouts_updated :
    (q : BetRow → Bool) (at : ℕ) (rows : List BetRow)
    → map (λ (r : BetRow). r.payout_amount) (update_where q (stamped at) rows)
      ≡ map (λ (r : BetRow). r.payout_amount) rows
payouts_updated q at [] = refl
payouts_updated q at (row ∷ rows) = elim (Bool-cases (q row)) [
  | inl e ↦ rw (e, payouts_updated q at rows) refl
  | inr e ↦ rw (e, payouts_updated q at rows) refl
]

claim_rows_unpaid :
    (contract : Text) (market : ℕ) (user : Text) (payout at : ℕ) (selected rows : List BetRow)
    → selected ≢ []
    → ((r : BetRow) → Among r rows → claimable contract market user r ≡ true → Among r selected)
    → ((claim_rows no_payout payout at selected rows).0 ≡ none)
      × All (NotClaimable contract market user) (claim_rows no_payout payout at selected rows).1
      × (map (λ (r : BetRow). r.payout_amount) (claim_rows no_payout payout at selected rows).1
          ≡ map (λ (r : BetRow). r.payout_amount) rows)
unfolding claim_rows
claim_rows_unpaid contract market user payout at [] rows some_row h = absurd (some_row refl)
claim_rows_unpaid contract market user payout at (row ∷ selected) rows some_row h = (
  refl,
  All-updated (NotClaimable contract market user) (λ r. any (same_row r) (row ∷ selected))
      (stamped at) rows
      (λ r m. stamped-NotClaimable contract market user at (row ∷ selected) r (h r m)),
  payouts_updated (λ r. any (same_row r) (row ∷ selected)) at rows,
)

-- A claim whose payout cannot be written throws after the bets were stamped as claimed: no row has a new
-- payout, and no later claim of the user on the market, not even the same one handed over again with the
-- database in order, changes anything, so that the payout is never recorded.
pub record_claim_unpaid :
    (contract : Text) (market : ℕ) (user : Text) (payout at payout' at' : ℕ) (rows : List BetRow)
    → filter (claimable contract market user) rows ≢ []
    → ((record_claim no_payout contract market user payout at rows).0 ≡ none)
      × (map
            (λ (r : BetRow). r.payout_amount)
            (record_claim no_payout contract market user payout at rows).1
          ≡ map (λ (r : BetRow). r.payout_amount) rows)
      × ((record_claim all_through contract market user payout' at'
            (record_claim no_payout contract market user payout at rows).1).1
          ≡ (record_claim no_payout contract market user payout at rows).1)
unfolding record_claim
record_claim_unpaid contract market user payout at payout' at' rows some_row =
    let (thrown, closed, same) =
      claim_rows_unpaid contract market user payout at
        (filter (claimable contract market user) rows) rows some_row
        (λ r m e. (Among-filter (claimable contract market user) rows r).1 (m, e)) in
    (thrown, same, claim_settled contract market user payout' at' _ closed)

-- A tick of the indexer of the matches, on the logs that the chain has in each range.
abbrev pub tick_of : Surroundings → (ℕ → ℕ → List ChainLog) → Ledger → ℕ → Answers
tick_of s logs_in ledger head = record {
  head = some head;
  reads = true;
  processes = λ first last. (process_range s (logs_in first last) ledger).0;
  writes = λ to. true;
}

unread :
    (s : Surroundings) (logs : List ChainLog) (ledger : Ledger)
    → s.matches ≡ none
    → process_range s logs ledger ≡ (true, ledger)
unfolding process_range process_batch
unread s logs ledger e = ap (λ found. process_batch s (betting_contracts found) logs ledger) e

module _ (settings : Settings) (answers : Answers) (safe : ℕ) where
  abbrev Ended : Outcome × Cursor → Type 0
  Ended (o, c) = o ≡ returned

  walk-returned :
      ((first last : ℕ) → answers.processes first last ≡ true)
      → ((to : ℕ) → answers.writes to ≡ true)
      → (fuel from : ℕ) (c : Cursor) (r : Outcome × Cursor)
      → walk settings answers safe fuel from c ≡ some r
      → Ended r
  unfolding run_chunk
  walk-returned process write fuel from c r e =
      walk_rule settings answers safe (λ from c. Unit {0}) Ended
        (λ from c h k.
          rw (process from (chunk_end settings safe from), write (chunk_end settings safe from)) tt)
        (λ from c h k. refl) fuel from c r tt e

advance-returned :
    (settings : Settings) (answers : Answers) (head : ℕ) (before : Cursor) (o : Outcome)
    (after : Cursor)
    → ((first last : ℕ) → answers.processes first last ≡ true)
    → ((to : ℕ) → answers.writes to ≡ true)
    → advance_from settings answers (some head) true before ≡ some (o, after)
    → o ≡ returned
unfolding advance_from
advance-returned settings answers head before o after process write e =
    walk-returned settings answers (safe_head settings head) process write
      (safe_head settings head + 2)
      (from_block settings before.last_block (safe_head settings head)) before (o, after) e

-- While the matches cannot be read, a tick with a backlog passes for a success: whatever the logs of its
-- ranges, none of them is processed, the tables stay as they are, and the checkpoint still moves on to
-- the safe head, beyond them.
pub outage_passes_over :
    (settings : Settings) (s : Surroundings) (logs_in : ℕ → ℕ → List ChainLog) (ledger : Ledger)
    (before : Cursor) (head : ℕ)
    → 0 < settings.max_blocks
    → s.matches ≡ none
    → from_block settings before.last_block (safe_head settings head) ≤ safe_head settings head
    → (after : Cursor) × (advance_cursor_once settings (tick_of s logs_in ledger head) before
        ≡ some (returned, after))
      × (after.last_block ≡ safe_head settings head)
      × ((first last : ℕ) → process_range s (logs_in first last) ledger ≡ (true, ledger))
unfolding advance_cursor_once
outage_passes_over settings s logs_in ledger before head positive unreadable backlog =
    let tick = tick_of s logs_in ledger head in
    let ((o, after), e) = advance_total settings tick before positive in
    let all_true = λ (first last : ℕ).
      ap (λ (r : Bool × Ledger). r.0) (unread s (logs_in first last) ledger unreadable) in
    let ends = advance-returned settings tick head before o after all_true (λ to. refl) e in
    let (_, reached, _) =
      advance_cursor_once_lem settings tick before after o head positive refl refl e in
    (
      after,
      e ∙ ap (λ x. some (x, after)) ends,
      elim (reached ends) [ inl (_, at) ↦ at | inr (past, _) ↦ absurd (omega arith) ],
      (λ first last. unread s (logs_in first last) ledger unreadable),
    )
