-- ===== src/Indexing/Leaderboard/Scores.antt =====
-- The scores of the leaderboard against the wins that the chain records.
use chiliztv_com.Base.{
  text_eq, text_eq_iff, to_lower_case, List, sym, Text, ◌∙◌, false, inr, inl, Bool-cases, [], ◌∷◌,
  ap, arith, if◌then◌else◌, ◌+◌, ℕ, ◌↔◌, true, ◌≡◌, Bool, refl,
}
use chiliztv_com.Indexing.Leaderboard.{
  unknown, epoch_rolled_over, prize_claimed, not_after, epoch_advanced, insert_log, in_order, Board,
  same_cycle, handle_each, win_recorded, handle_win_recorded, Event, process_leaderboard, Log,
  handle, Calls, increment, score_at, Tally,
}

-- What a count comes to after an increment.
score_at-increment :
    {K : Type 0} (same : K → K → Bool)
    → ((a b : K) → (same a b ≡ true) ↔ (a ≡ b))
    → (key k : K) (delta : ℕ) (rows : Tally K)
    → score_at same key (increment same k delta rows)
      ≡ score_at same key rows + (if same k key then delta else 0)
score_at-increment same iff key k delta [] = elim (Bool-cases (same k key)) [
  | inl e ↦ rw e (omega arith)
  | inr e ↦ rw e (omega arith)
]
score_at-increment same iff key k delta ((x, n) ∷ rows) = elim (Bool-cases (same x k)) [
  | inl e ↦
      let alike : same x key ≡ same k key = ap (λ y. same y key) ((iff x k).0 e) in
      elim (Bool-cases (same k key)) [
        | inl f ↦ rw (e, alike, f) (omega arith)
        | inr f ↦ rw (e, alike, f) (omega arith)
      ]
  | inr e ↦ elim (Bool-cases (same x key)) [
    | inl f ↦
        let other : same k key ≡ false = (elim (Bool-cases (same k key)) [
          | inl g ↦ absurd (cc ((iff x k).1 ((iff x key).0 f ∙ sym ((iff k key).0 g)), e))
          | inr g ↦ g
        ]) in
        rw (e, f, other) (omega arith)
    | inr f ↦ rw (e, f) (score_at-increment same iff key k delta rows)
  ]
]

same_cycle_iff : (a b : ℕ × Text) → (same_cycle a b ≡ true) ↔ (a ≡ b)
same_cycle_iff (c, u) (c', u') =
    let texts = text_eq_iff u u' in
    (
      (λ e.
          let (p, q) : (c ≡ c') × (text_eq u u' ≡ true) = ground arith in
          let same : u ≡ u' = texts.0 q in cc (p, same)),
      (λ e.
          let p : c ≡ c' = ap (λ (x : ℕ × Text). x.0) e in
          let q = texts.1 (ap (λ (x : ℕ × Text). x.1) e) in ground arith),
    )

-- What a log adds to the score of a user, and to that of a cycle.
abbrev pub won_by : Text → Event → ℕ
won_by user (win_recorded u epoch delta) = if text_eq (to_lower_case u) user then delta else 0
won_by user _ = 0

abbrev pub won_in : ℕ × Text → Event → ℕ
won_in key (win_recorded u epoch delta) =
    if same_cycle (epoch, to_lower_case u) key then delta else 0
won_in key _ = 0

abbrev pub total : (Event → ℕ) → List Log → ℕ
total f [] = 0
total f (log ∷ logs) = f log.event + total f logs

total-insert_log :
    (f : Event → ℕ) (log : Log) (logs : List Log)
    → total f (insert_log log logs) ≡ f log.event + total f logs
total-insert_log f log [] = refl
total-insert_log f log (next ∷ logs) = elim (Bool-cases (not_after log next)) [
  | inl e ↦ rw e refl
  | inr e ↦ rw e (omega (arith, total-insert_log f log logs))
]

total-in_order : (f : Event → ℕ) (logs : List Log) → total f (in_order logs) ≡ total f logs
total-in_order f [] = refl
total-in_order f (log ∷ logs) =
    omega (arith, total-insert_log f log (in_order logs), total-in_order f logs)

-- Both counts go through.
abbrev pub IsWritten : Calls → Type 0
IsWritten calls = (calls.scores_written ≡ true) × (calls.cycles_written ≡ true)

handle-score :
    (calls : Calls) (user : Text) (log : Log) (event : Event) (board : Board)
    → IsWritten calls
    → score_at text_eq user (handle calls log event board).scores
      ≡ score_at text_eq user board.scores + won_by user event
unfolding handle handle_win_recorded
handle-score calls user log (win_recorded u epoch delta) board (s, c) =
    rw s (score_at-increment text_eq text_eq_iff user (to_lower_case u) delta board.scores)
handle-score calls user log (epoch_advanced id pool closed expiry) board w = omega arith
handle-score calls user log (prize_claimed id u amount) board w = omega arith
handle-score calls user log (epoch_rolled_over id amount) board w = omega arith
handle-score calls user log unknown board w = omega arith

handle-cycle :
    (calls : Calls) (key : ℕ × Text) (log : Log) (event : Event) (board : Board)
    → IsWritten calls
    → score_at same_cycle key (handle calls log event board).cycles
      ≡ score_at same_cycle key board.cycles + won_in key event
unfolding handle handle_win_recorded
handle-cycle calls key log (win_recorded u epoch delta) board (s, c) =
    rw (s, c)
      (score_at-increment same_cycle same_cycle_iff key (epoch, to_lower_case u) delta board.cycles)
handle-cycle calls key log (epoch_advanced id pool closed expiry) board w = omega arith
handle-cycle calls key log (prize_claimed id u amount) board w = omega arith
handle-cycle calls key log (epoch_rolled_over id amount) board w = omega arith
handle-cycle calls key log unknown board w = omega arith

module _ (calls : Log → Calls) (w : (log : Log) → IsWritten (calls log)) where
  handle_each-score :
      (user : Text) (logs : List Log) (board : Board)
      → score_at text_eq user (handle_each calls logs board).scores
        ≡ score_at text_eq user board.scores + total (won_by user) logs
  unfolding handle_each
  handle_each-score user [] board = omega arith
  handle_each-score user (log ∷ logs) board = omega (
    arith,
    handle_each-score user logs (handle (calls log) log log.event board),
    handle-score (calls log) user log log.event board (w log),
  )

  handle_each-cycle :
      (key : ℕ × Text) (logs : List Log) (board : Board)
      → score_at same_cycle key (handle_each calls logs board).cycles
        ≡ score_at same_cycle key board.cycles + total (won_in key) logs
  unfolding handle_each
  handle_each-cycle key [] board = omega arith
  handle_each-cycle key (log ∷ logs) board = omega (
    arith,
    handle_each-cycle key logs (handle (calls log) log log.event board),
    handle-cycle (calls log) key log log.event board (w log),
  )

-- Where the chain is read and the counts are written, a range adds to the score of a user what its logs
-- record as won by the user, and to the score of a user in a cycle what they record for that cycle,
-- in whatever order the logs arrive.
pub process_leaderboard-scores :
    (calls : Log → Calls) (logs : List Log) (board : Board) (user : Text) (cycle : ℕ)
    → ((log : Log) → IsWritten (calls log))
    → (score_at text_eq user (process_leaderboard true calls logs board).1.scores
        ≡ score_at text_eq user board.scores + total (won_by user) logs)
      × (score_at same_cycle (cycle, user) (process_leaderboard true calls logs board).1.cycles
          ≡ score_at same_cycle (cycle, user) board.cycles + total (won_in (cycle, user)) logs)
unfolding process_leaderboard
process_leaderboard-scores calls logs board user cycle w = (
  handle_each-score calls w user (in_order logs) board
      ∙ ap (λ n. score_at text_eq user board.scores + n) (total-in_order (won_by user) logs),
  handle_each-cycle calls w (cycle, user) (in_order logs) board
      ∙ ap (λ n. score_at same_cycle (cycle, user) board.cycles + n)
          (total-in_order (won_in (cycle, user)) logs),
)
