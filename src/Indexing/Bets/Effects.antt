-- ===== src/Indexing/Bets/Effects.antt =====
-- What the writes of the indexer do to every row of the table, where the database fails nowhere.
use chiliztv_com.Base.{
  [], any-Among, inr, ◌∷◌, Among-filter, inl, ◌&&◌, refl, if◌then◌else◌, filter, Bool-cases, any,
  text_eq_iff, Among, Bool, ℕ, true, false, List, ◌≡◌, Text, All, All-updated, All-of_Among,
  filter_nothing, Among-All, All-carried, All-imp, update_nothing, arith,
}
use chiliztv_com.Indexing.Bets.{
  latest, paid, stamped, record_claim, claim_rows, same_row, in_market, BetRow, Database, wins,
  loses, open_in, claimable, with_status, won, lost, refunded, settle_market, cancel_market,
}

abbrev pub all_through : Database
all_through = record {
  inserts = true;
  marks_won = true;
  marks_lost = true;
  refunds = true;
  selects = true;
  stamps = true;
  attaches = true;
}

abbrev pub NotOpen : Text → ℕ → BetRow → Type 0
NotOpen contract market row = open_in contract market row ≡ false

abbrev pub NotClaimable : Text → ℕ → Text → BetRow → Type 0
NotClaimable contract market user row = claimable contract market user row ≡ false

module _ (contract : Text) (market : ℕ) where
  pub settle-NotOpen :
      (winning : ℕ) (rows : List BetRow)
      → All (NotOpen contract market) (settle_market all_through contract market winning rows).1
  unfolding settle_market
  settle-NotOpen winning rows =
      All-carried (λ r. wins contract market winning r ≡ false) (NotOpen contract market)
        (loses contract market winning) (with_status lost) _ (λ r h. ground arith)
        (All-updated (λ r. wins contract market winning r ≡ false) (wins contract market winning)
          (with_status won) rows (λ r m. ground arith))

  pub cancel-NotOpen :
      (rows : List BetRow)
      → All (NotOpen contract market) (cancel_market all_through contract market rows).1
  unfolding cancel_market
  cancel-NotOpen rows =
      All-updated (NotOpen contract market) (open_in contract market) (with_status refunded) rows
        (λ r m. ground arith)

  -- A market without open rows is settled and cancelled to no effect.
  pub settle_closed :
      (winning : ℕ) (rows : List BetRow)
      → All (NotOpen contract market) rows
      → (settle_market all_through contract market winning rows).1 ≡ rows
  unfolding settle_market
  settle_closed winning rows h =
      let no_win = update_nothing (wins contract market winning) (with_status won) rows (
        All-imp (NotOpen contract market) (λ r. wins contract market winning r ≡ false) rows
          (λ r k. ground arith) h) in
      rw no_win (
        update_nothing (loses contract market winning) (with_status lost) rows (
          All-imp (NotOpen contract market) (λ r. loses contract market winning r ≡ false) rows
            (λ r k. ground arith) h))

  pub cancel_closed :
      (rows : List BetRow)
      → All (NotOpen contract market) rows
      → (cancel_market all_through contract market rows).1 ≡ rows
  unfolding cancel_market
  cancel_closed rows h = update_nothing (open_in contract market) (with_status refunded) rows h

-- No row is in both markets.
abbrev Apart : Text → ℕ → Text → ℕ → Type 0
Apart contract market contract' market' =
    (row : BetRow) → (in_market contract market row && in_market contract' market' row) ≡ false

kept :
    (P : BetRow → Type 0) (q : BetRow → Bool) (f : BetRow → BetRow) (r : BetRow)
    → (q r ≡ true → P r → P (f r))
    → P r
    → P (if q r then f r else r)
kept P q f r h p = elim (Bool-cases (q r)) [ inl e ↦ rw e (h e p) | inr e ↦ rw e p ]

-- What both updates of a settlement keep of each row.
pub settle-kept :
    (P : BetRow → Type 0) (contract : Text) (market winning : ℕ) (rows : List BetRow)
    → ((r : BetRow) → wins contract market winning r ≡ true → P r → P (with_status won r))
    → ((r : BetRow) → loses contract market winning r ≡ true → P r → P (with_status lost r))
    → All P rows
    → All P (settle_market all_through contract market winning rows).1
unfolding settle_market
settle-kept P contract market winning rows on_win on_loss h =
    All-carried P P (loses contract market winning) (with_status lost) _
      (λ r p. kept P (loses contract market winning) (with_status lost) r (on_loss r) p)
      (All-carried P P (wins contract market winning) (with_status won) rows
        (λ r p. kept P (wins contract market winning) (with_status won) r (on_win r) p) h)

pub cancel-kept :
    (P : BetRow → Type 0) (contract : Text) (market : ℕ) (rows : List BetRow)
    → ((r : BetRow) → open_in contract market r ≡ true → P r → P (with_status refunded r))
    → All P rows
    → All P (cancel_market all_through contract market rows).1
unfolding cancel_market
cancel-kept P contract market rows on_refund h =
    All-carried P P (open_in contract market) (with_status refunded) rows
      (λ r p. kept P (open_in contract market) (with_status refunded) r (on_refund r) p) h

claim_rows-kept :
    (P : BetRow → Type 0) (payout at : ℕ) (selected rows : List BetRow)
    → ((r : BetRow) → P r → P (stamped at r))
    → ((r : BetRow) → P r → P (paid payout r))
    → All P rows
    → All P (claim_rows all_through payout at selected rows).1
unfolding claim_rows
claim_rows-kept P payout at [] rows on_stamp on_pay h = h
claim_rows-kept P payout at (row ∷ selected) rows on_stamp on_pay h =
    All-carried P P (same_row (latest row selected)) (paid payout) _
      (λ r p. kept P (same_row (latest row selected)) (paid payout) r (λ _. on_pay r) p)
      (All-carried P P (λ r. any (same_row r) (row ∷ selected)) (stamped at) rows
        (λ r p. kept P (λ r. any (same_row r) (row ∷ selected)) (stamped at) r (λ _. on_stamp r) p)
        h)

pub claim-kept :
    (P : BetRow → Type 0) (contract : Text) (market : ℕ) (user : Text) (payout at : ℕ)
    (rows : List BetRow)
    → ((r : BetRow) → P r → P (stamped at r))
    → ((r : BetRow) → P r → P (paid payout r))
    → All P rows
    → All P (record_claim all_through contract market user payout at rows).1
unfolding record_claim
claim-kept P contract market user payout at rows =
    claim_rows-kept P payout at (filter (claimable contract market user) rows) rows

pub same_row_refl : (r : BetRow) → same_row r r ≡ true
same_row_refl r = ground (arith, (text_eq_iff r.tx_hash r.tx_hash).1 refl)

pub stamped-NotClaimable :
    (contract : Text) (market : ℕ) (user : Text) (at : ℕ) (selected : List BetRow) (r : BetRow)
    → (claimable contract market user r ≡ true → Among r selected)
    → NotClaimable contract market user (if any (same_row r) selected then stamped at r else r)
stamped-NotClaimable contract market user at selected r h =
    elim (Bool-cases (any (same_row r) selected)) [
      | inl e ↦ rw e (ground arith)
      | inr e ↦ elim (Bool-cases (claimable contract market user r)) [
        | inl c ↦ absurd (cc (any-Among (same_row r) selected r (h c) (same_row_refl r), e))
        | inr c ↦ rw e c
      ]
    ]

claim_rows-NotClaimable :
    (contract : Text) (market : ℕ) (user : Text) (payout at : ℕ) (selected rows : List BetRow)
    → ((r : BetRow) → Among r rows → claimable contract market user r ≡ true → Among r selected)
    → All (NotClaimable contract market user) (claim_rows all_through payout at selected rows).1
unfolding claim_rows
claim_rows-NotClaimable contract market user payout at [] rows h =
    All-of_Among (NotClaimable contract market user) rows (λ r m.
      elim (Bool-cases (claimable contract market user r)) [ inl e ↦ absurd (h r m e) | inr e ↦ e ])
claim_rows-NotClaimable contract market user payout at (row ∷ selected) rows h =
    All-carried (NotClaimable contract market user) (NotClaimable contract market user)
      (same_row (latest row selected)) (paid payout) _
      (λ r p.
        kept (NotClaimable contract market user) (same_row (latest row selected)) (paid payout) r
          (λ _ k. k) p)
      (All-updated (NotClaimable contract market user) (λ r. any (same_row r) (row ∷ selected))
        (stamped at) rows
        (λ r m. stamped-NotClaimable contract market user at (row ∷ selected) r (h r m)))

pub claim-NotClaimable :
    (contract : Text) (market : ℕ) (user : Text) (payout at : ℕ) (rows : List BetRow)
    → All
        (NotClaimable contract market user)
        (record_claim all_through contract market user payout at rows).1
unfolding record_claim
claim-NotClaimable contract market user payout at rows =
    claim_rows-NotClaimable contract market user payout at
      (filter (claimable contract market user) rows) rows
      (λ r m e. (Among-filter (claimable contract market user) rows r).1 (m, e))

pub claim_settled :
    (contract : Text) (market : ℕ) (user : Text) (payout at : ℕ) (rows : List BetRow)
    → All (NotClaimable contract market user) rows
    → (record_claim all_through contract market user payout at rows).1 ≡ rows
unfolding record_claim claim_rows
claim_settled contract market user payout at rows h =
    rw
      (filter_nothing (claimable contract market user) rows
        (λ r m. Among-All (NotClaimable contract market user) rows r h m))
      refl
