-- ===== src/Indexing/Bets/Presence.antt =====
-- What the writes of the indexer leave of the rows that are there.
use chiliztv_com.Base.{
  any-update_where, update_where, ◌∙◌, [], some, inr, ◌∷◌, inl, refl, if◌then◌else◌, filter,
  Bool-cases, any, Bool, ℕ, true, false, List, ◌≡◌, Text, All, arith,
}
use chiliztv_com.Indexing.Bets.{
  latest, paid, to_row, stamped, insert_if_absent, record_claim, claim_rows, same_row, BetRow, wins,
  loses, open_in, claimable, with_status, won, lost, refunded, settle_market, cancel_market,
}
use chiliztv_com.Indexing.Bets.Effects.{all_through, same_row_refl}

pub insert_present :
    (bet : BetRow) (rows : List BetRow)
    → any (same_row (to_row bet)) rows ≡ true
    → insert_if_absent all_through bet rows ≡ (some false, rows)
unfolding insert_if_absent
insert_present bet rows e = rw e refl

pub insert_stores :
    (bet : BetRow) (rows : List BetRow)
    → any (same_row (to_row bet)) (insert_if_absent all_through bet rows).1 ≡ true
unfolding insert_if_absent
insert_stores bet rows = elim (Bool-cases (any (same_row (to_row bet)) rows)) [
  | inl e ↦ rw e e
  | inr e ↦ rw (e, same_row_refl (to_row bet)) refl
]

-- No write of the indexer takes a row away.
module _ (bet : BetRow) where
  pub insert-any :
      (other : BetRow) (rows : List BetRow)
      → any (same_row bet) rows ≡ true
      → any (same_row bet) (insert_if_absent all_through other rows).1 ≡ true
  unfolding insert_if_absent
  insert-any other rows h = elim (Bool-cases (any (same_row (to_row other)) rows)) [
    | inl e ↦ rw e h
    | inr e ↦ rw e (ground arith)
  ]

  same_row-kept :
      (q : BetRow → Bool) (f : BetRow → BetRow) (r : BetRow)
      → same_row bet (f r) ≡ same_row bet r
      → same_row bet (if q r then f r else r) ≡ same_row bet r
  same_row-kept q f r h = elim (Bool-cases (q r)) [ inl e ↦ rw e h | inr e ↦ rw e refl ]

  any-kept :
      (q : BetRow → Bool) (f : BetRow → BetRow) (rows : List BetRow)
      → ((r : BetRow) → same_row bet (f r) ≡ same_row bet r)
      → any (same_row bet) (update_where q f rows) ≡ any (same_row bet) rows
  any-kept q f rows h = any-update_where (same_row bet) q f rows (λ r. same_row-kept q f r (h r))

  pub settle-any :
      (contract : Text) (market winning : ℕ) (rows : List BetRow)
      → any (same_row bet) (settle_market all_through contract market winning rows).1
        ≡ any (same_row bet) rows
  unfolding settle_market
  settle-any contract market winning rows =
      any-kept (loses contract market winning) (with_status lost) _ (λ r. refl)
      ∙ any-kept (wins contract market winning) (with_status won) rows (λ r. refl)

  pub cancel-any :
      (contract : Text) (market : ℕ) (rows : List BetRow)
      → any (same_row bet) (cancel_market all_through contract market rows).1
        ≡ any (same_row bet) rows
  unfolding cancel_market
  cancel-any contract market rows =
      any-kept (open_in contract market) (with_status refunded) rows (λ r. refl)

  claim_rows-any :
      (payout at : ℕ) (selected rows : List BetRow)
      → any (same_row bet) (claim_rows all_through payout at selected rows).1
        ≡ any (same_row bet) rows
  unfolding claim_rows
  claim_rows-any payout at [] rows = refl
  claim_rows-any payout at (row ∷ selected) rows =
      any-kept (same_row (latest row selected)) (paid payout) _ (λ r. refl)
      ∙ any-kept (λ r. any (same_row r) (row ∷ selected)) (stamped at) rows (λ r. refl)

  pub claim-any :
      (contract : Text) (market : ℕ) (user : Text) (payout at : ℕ) (rows : List BetRow)
      → any (same_row bet) (record_claim all_through contract market user payout at rows).1
        ≡ any (same_row bet) rows
  unfolding record_claim
  claim-any contract market user payout at rows =
      claim_rows-any payout at (filter (claimable contract market user) rows) rows

pub insert-All :
    (P : BetRow → Type 0) (bet : BetRow) (rows : List BetRow)
    → P (to_row bet)
    → All P rows
    → All P (insert_if_absent all_through bet rows).1
unfolding insert_if_absent
insert-All P bet rows p h = elim (Bool-cases (any (same_row (to_row bet)) rows)) [
  | inl e ↦ rw e h
  | inr e ↦ rw e (p, h)
]
