-- ===== src/Indexing/PariMatch/Changes.antt =====
-- What an event decides of a bet, and where the rows of the table after a write come from.
use chiliztv_com.Base.{
  ◌⊎◌, ℕ, Bool, none, List, [], ◌∷◌, ◌≡◌, refl, inl, inr, ap, ◌∙◌, ◌&&◌, ◌==◌, Text, text_eq,
  to_lower_case, to_lower_case_idem, any, Among, Among-update_where, update_where, Bool-cases,
  arith, if◌then◌else◌, filter,
}
use chiliztv_com.Indexing.Bets.{
  insert_if_absent, BetRow, BetStatus, to_row, same_row, open_in, claimable, wins, loses,
  with_status, won, lost, refunded, stamped, paid, pending, settle_market, cancel_market,
  record_claim, claim_rows, latest,
}
use chiliztv_com.Indexing.Bets.Effects.{all_through}
use chiliztv_com.Indexing.PariMatch.{
  Event, position_taken, market_resolved, market_cancelled, ChainLog, bet_of,
}

-- What an event decides of a bet, and else what the rest does.
abbrev pub decision : BetRow → Text → Event → BetStatus → BetStatus
decision bet address (market_resolved market result) rest =
    if text_eq bet.contract_address (to_lower_case address) && bet.market_id == market
    then (if bet.outcome == result then won else lost)
    else rest
decision bet address (market_cancelled market) rest =
    if text_eq bet.contract_address (to_lower_case address) && bet.market_id == market
    then refunded
    else rest
decision bet address _ rest = rest

-- The first decision of the bet's market in the history: won or lost by its result, or refunded.
abbrev pub verdict : BetRow → List ChainLog → BetStatus
verdict bet [] = pending
verdict bet (log ∷ logs) = decision bet log.address log.event (verdict bet logs)

-- A bet as it was placed.
abbrev pub placed : BetRow → BetRow
placed row = record row { status = pending; payout_amount = none; claimed_at = none }

-- The log is the one that placed the bet.
abbrev pub Places : ChainLog → BetRow → Type 0
Places log row =
    (market : ℕ) × (user : Text) × (outcome stake outcome_pool total_pool : ℕ) × (log.event
      ≡ position_taken market user outcome stake outcome_pool total_pool)
    × (placed row ≡ to_row (bet_of market user outcome stake outcome_pool total_pool log))

abbrev pub settled_by : BetStatus → BetStatus → BetStatus
settled_by pending verdict = verdict
settled_by status verdict = status

-- One row comes from another, and the status moves only from pending to what the log decides.
abbrev pub Evolves : Text → Event → BetRow → BetRow → Type 0
Evolves address event old new =
    (placed new ≡ placed old)
    × (new.status ≡ settled_by old.status (decision old address event pending))

pub kept_status :
    (address : Text) (event : Event) (old new : BetRow)
    → placed new ≡ placed old
    → new.status ≡ old.status
    → decision old address event pending ≡ pending
    → Evolves address event old new
kept_status address event old new p e d = (p, rw (e, d) (settled_by_pending old.status))
  where
    settled_by_pending : (s : BetStatus) → s ≡ settled_by s pending
    settled_by_pending pending = refl
    settled_by_pending won = refl
    settled_by_pending lost = refl
    settled_by_pending refunded = refl

-- The rows of an update, each from the row it was.
updated_from :
    (q : BetRow → Bool) (f : BetRow → BetRow) (rows : List BetRow) (new : BetRow)
    → ((r : BetRow) → placed (f r) ≡ placed r)
    → Among new (update_where q f rows)
    → (old : BetRow) × Among old rows
      × (placed new ≡ placed old)
      × (new ≡ (if q old then f old else old))
updated_from q f rows new h m =
    let (old, n, e) = Among-update_where q f rows new m in (old, n, rw e (ap_placed old), e)
  where
    ap_placed : (r : BetRow) → placed (if q r then f r else r) ≡ placed r
    ap_placed r = elim (Bool-cases (q r)) [ inl e ↦ rw e (h r) | inr e ↦ rw e refl ]

settle_status :
    (address : Text) (market result : ℕ) (old : BetRow)
    → (let mid =
          if wins (to_lower_case address) market result old then with_status won old else old in
        if loses (to_lower_case address) market result mid
        then with_status lost mid
        else mid).status
      ≡ settled_by old.status (decision old address (market_resolved market result) pending)
settle_status address market result old = rw (to_lower_case_idem address) (ground arith)

cancel_status :
    (address : Text) (market : ℕ) (old : BetRow)
    → (if open_in (to_lower_case address) market old then with_status refunded old else old).status
      ≡ settled_by old.status (decision old address (market_cancelled market) pending)
cancel_status address market old = rw (to_lower_case_idem address) (ground arith)

pub settle_from :
    (address : Text) (market result : ℕ) (rows : List BetRow) (new : BetRow)
    → Among new (settle_market all_through (to_lower_case address) market result rows).1
    → (old : BetRow) × Among old rows × Evolves address (market_resolved market result) old new
unfolding settle_market
settle_from address market result rows new m =
    let (mid, n, p, e) =
      updated_from (loses (to_lower_case address) market result) (with_status lost) _ new
        (λ r. refl) m in
    let (old, k, q, f) =
      updated_from (wins (to_lower_case address) market result) (with_status won) rows mid
        (λ r. refl) n in
    (
      old,
      k,
      (
        p ∙ q,
        ap (λ (r : BetRow). r.status)
              (e
                ∙ ap
                    (λ (r : BetRow).
                      if loses (to_lower_case address) market result r
                      then with_status lost r
                      else r)
                    f)
            ∙ settle_status address market result old,
      ),
    )

pub cancel_from :
    (address : Text) (market : ℕ) (rows : List BetRow) (new : BetRow)
    → Among new (cancel_market all_through (to_lower_case address) market rows).1
    → (old : BetRow) × Among old rows × Evolves address (market_cancelled market) old new
unfolding cancel_market
cancel_from address market rows new m =
    let (old, k, q, f) =
      updated_from (open_in (to_lower_case address) market) (with_status refunded) rows new
        (λ r. refl) m in
    (old, k, (q, ap (λ (r : BetRow). r.status) f ∙ cancel_status address market old))

-- Payments leave the status.
abbrev pub SamePlaced : BetRow → BetRow → Type 0
SamePlaced old new = (placed new ≡ placed old) × (new.status ≡ old.status)

paid_from :
    (q : BetRow → Bool) (f : BetRow → BetRow) (rows : List BetRow) (new : BetRow)
    → ((r : BetRow) → SamePlaced r (f r))
    → Among new (update_where q f rows)
    → (old : BetRow) × Among old rows × SamePlaced old new
paid_from q f rows new h m =
    let (old, k, p, e) = updated_from q f rows new (λ r. (h r).0) m in
    (old, k, (p, ap (λ (r : BetRow). r.status) e ∙ same old))
  where
    same : (r : BetRow) → (if q r then f r else r).status ≡ r.status
    same r = elim (Bool-cases (q r)) [ inl e ↦ rw e (h r).1 | inr e ↦ rw e refl ]

claim_rows_from :
    (payout at : ℕ) (selected rows : List BetRow) (new : BetRow)
    → Among new (claim_rows all_through payout at selected rows).1
    → (old : BetRow) × Among old rows × SamePlaced old new
unfolding claim_rows
claim_rows_from payout at [] rows new m = (new, m, (refl, refl))
claim_rows_from payout at (row ∷ selected) rows new m =
    let (mid, n, (p, s)) =
      paid_from (same_row (latest row selected)) (paid payout) _ new (λ r. (refl, refl)) m in
    let (old, k, (q, t)) =
      paid_from (λ r. any (same_row r) (row ∷ selected)) (stamped at) rows mid (λ r. (refl, refl))
        n in
    (old, k, (p ∙ q, s ∙ t))

pub claim_from :
    (contract : Text) (market : ℕ) (user : Text) (payout at : ℕ) (rows : List BetRow) (new : BetRow)
    → Among new (record_claim all_through contract market user payout at rows).1
    → (old : BetRow) × Among old rows × SamePlaced old new
unfolding record_claim
claim_from contract market user payout at rows new m =
    claim_rows_from payout at (filter (claimable contract market user) rows) rows new m

pub insert_from :
    (bet : BetRow) (rows : List BetRow) (new : BetRow)
    → Among new (insert_if_absent all_through bet rows).1
    → Among new rows ⊎ (new ≡ to_row bet)
unfolding insert_if_absent
insert_from bet rows new = elim (Bool-cases (any (same_row (to_row bet)) rows)) [
  | inl e ↦ rw e (λ m. inl m)
  | inr e ↦ rw e (λ m. elim m [ inl at ↦ inr at | inr later ↦ inl later ])
]
