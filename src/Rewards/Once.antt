-- ===== src/Rewards/Once.antt =====
-- What the indexer of the leaderboard stores of a rollover, and the upkeep that follows.
use chiliztv_com.Base.{
  Text, All, sym, ◌==◌, Among-update_where, update_where, ◌∙◌, ap, ◌&&◌, not, any, Bool-cases, ◌≡◌,
  Option, Among, ℕ, List, [], ◌∷◌, none, some, Bool, true, false, inl, inr, arith,
}
use chiliztv_com.Indexing.Leaderboard.{
  Board, roll, Log, Calls, Event, is_epoch, has_tx, confirm, rolled_over, epoch_rolled_over,
  epoch_advanced, win_recorded, prize_claimed, unknown, handle, handle_each, insert_pending,
  mark_confirmed, mark_rolled_over, handle_win_recorded, EpochRow,
}
use chiliztv_com.Rewards.{execute_upkeep, rolls_epoch, Rollovers}
use chiliztv_com.Rewards.Upkeep.{execute_upkeep_rolls}

-- Whether an event is the end of the epoch of the number.
abbrev pub ends_epoch : ℕ → Event → Bool
ends_epoch id (epoch_advanced n pool closed expiry) = n == id
ends_epoch id _ = false

-- Each row of the number is stored as rolled over.
abbrev IsRolled : ℕ → List EpochRow → Type 0
IsRolled id rows =
    (row : EpochRow) → Among row rows → row.epoch_id ≡ some id → row.status ≡ rolled_over

numbered : (id : ℕ) (row : EpochRow) → row.epoch_id ≡ some id → is_epoch id row ≡ true
numbered id row e = from row.epoch_id e
  where
    from :
        (found : Option ℕ)
        → found ≡ some id
        → (elim found as (λ _. Bool) [ none ↦ false | some n ↦ n == id ]) ≡ true
    from none e = absurd (ground arith)
    from (some n) e = ground arith

update_where-IsRolled :
    (id amount at : ℕ) (rows : List EpochRow)
    → IsRolled id (update_where (is_epoch id) (roll amount at) rows)
update_where-IsRolled id amount at rows row m e =
    let (old, _, same) = Among-update_where (is_epoch id) (roll amount at) rows row m in
    elim (Bool-cases (is_epoch id old)) [
      | inl t ↦
          let now_rolled : row ≡ roll amount at old = rw t at same in
          ap (λ (r : EpochRow). r.status) now_rolled
      | inr t ↦
          let unchanged : row ≡ old = rw t at same in
          absurd (cc (numbered id row e, ap (λ r. is_epoch id r) unchanged, t))
    ]

roll-IsRolled :
    (id n amount at : ℕ) (goes : Bool) (rows : List EpochRow)
    → IsRolled id rows
    → IsRolled id (mark_rolled_over goes n amount at rows)
unfolding mark_rolled_over
roll-IsRolled id n amount at false rows h row m e = h row m e
roll-IsRolled id n amount at true rows h row m e =
    let (old, here, same) = Among-update_where (is_epoch n) (roll amount at) rows row m in
    elim (Bool-cases (is_epoch n old)) [
      | inl t ↦
          let now_rolled : row ≡ roll amount at old = rw t at same in
          ap (λ (r : EpochRow). r.status) now_rolled
      | inr t ↦
          let unchanged : row ≡ old = rw t at same in
          ap (λ (r : EpochRow). r.status) unchanged
          ∙ h old here (ap (λ (r : EpochRow). r.epoch_id) (sym unchanged) ∙ e)
    ]

pending-IsRolled :
    (id : ℕ) (goes : Bool) (tx : Text) (rows : List EpochRow)
    → IsRolled id rows
    → IsRolled id (insert_pending goes tx rows)
unfolding insert_pending
pending-IsRolled id goes tx rows h = elim (Bool-cases (goes && not (any (has_tx tx) rows))) [
  | inl t ↦ rw t (λ row m e. elim m [
    | inl same ↦ let unnumbered = ap (λ (r : EpochRow). r.epoch_id) same in absurd (ground arith)
    | inr n ↦ h row n e
  ])
  | inr t ↦ rw t h
]

confirmed-IsRolled :
    (id n pool closed expiry : ℕ) (goes : Bool) (tx : Text) (rows : List EpochRow)
    → (n == id) ≡ false
    → IsRolled id rows
    → IsRolled id (mark_confirmed goes tx n pool closed expiry rows)
unfolding mark_confirmed
confirmed-IsRolled id n pool closed expiry goes tx rows other h =
    elim (Bool-cases (goes && not (any (λ r. is_epoch n r && not (has_tx tx r)) rows))) [
      | inl t ↦ rw t (λ row m e.
          let (old, here, same) =
            Among-update_where (has_tx tx) (confirm n pool closed expiry) rows row m in
          elim (Bool-cases (has_tx tx old)) [
            | inl k ↦
                let set : row ≡ confirm n pool closed expiry old = rw k at same in
                let numbers = sym (ap (λ (r : EpochRow). r.epoch_id) set) ∙ e in
                absurd (ground arith)
            | inr k ↦
                let unchanged : row ≡ old = rw k at same in
                ap (λ (r : EpochRow). r.status) unchanged
                ∙ h old here (ap (λ (r : EpochRow). r.epoch_id) (sym unchanged) ∙ e)
          ])
      | inr t ↦ rw t h
    ]

handle-IsRolled :
    (id : ℕ) (calls : Calls) (log : Log) (event : Event) (board : Board)
    → ends_epoch id event ≡ false
    → IsRolled id board.epochs
    → IsRolled id (handle calls log event board).epochs
unfolding handle handle_win_recorded
handle-IsRolled id calls log (win_recorded user n delta) board other h =
    elim (Bool-cases calls.scores_written) [ inl t ↦ rw t h | inr t ↦ rw t h ]
handle-IsRolled id calls log (epoch_advanced n pool closed expiry) board other h =
    confirmed-IsRolled id n pool closed expiry calls.epoch_confirmed _ _ other
      (pending-IsRolled id calls.epoch_inserted _ board.epochs h)
handle-IsRolled id calls log (prize_claimed n user amount) board other h = h
handle-IsRolled id calls log (epoch_rolled_over n amount) board other h =
    roll-IsRolled id n amount log.block_time calls.epoch_rolled board.epochs h
handle-IsRolled id calls log unknown board other h = h

handle_each-IsRolled :
    (id : ℕ) (calls : Log → Calls) (logs : List Log) (board : Board)
    → All (λ (l : Log). ends_epoch id l.event ≡ false) logs
    → IsRolled id board.epochs
    → IsRolled id (handle_each calls logs board).epochs
unfolding handle_each
handle_each-IsRolled id calls [] board others h = h
handle_each-IsRolled id calls (log ∷ logs) board (other, others) h =
    handle_each-IsRolled id calls logs (handle (calls log) log log.event board) others
      (handle-IsRolled id (calls log) log log.event board other h)

-- Once the indexer has stored that an epoch was rolled over, no run of the upkeep sends its rollover again,
-- whatever the chain answers and however late, after whatever further logs and failed writes, as long as
-- none of these logs is the end of that epoch.
pub rolled_over_once :
    (chain : Rollovers) (now sweep : ℕ) (calls : Log → Calls) (log : Log) (id amount : ℕ)
    (logs : List Log) (board : Board)
    → (calls log).epoch_rolled ≡ true
    → All (λ (l : Log). ends_epoch id l.event ≡ false) logs
    → Among
        (rolls_epoch id)
        (execute_upkeep chain now sweep
          (handle_each calls logs
            (handle (calls log) log (epoch_rolled_over id amount) board)).epochs).1
    → ⊥
unfolding handle mark_rolled_over
rolled_over_once chain now sweep calls log id amount logs board goes others m =
    let (_, (_, (row, at, e, s, _))) = (execute_upkeep_rolls chain now sweep _ id).0 m in
    let start : IsRolled id (handle (calls log) log (epoch_rolled_over id amount) board).epochs =
      rw goes (update_where-IsRolled id amount log.block_time board.epochs) in
    let rolled = handle_each-IsRolled id calls logs _ others start row at e in ground arith
