-- ===== src/Indexing/Bets.antt =====
-- apps/backend/src/infrastructure/persistence/repositories/SupabaseBetRepository.ts: the table of bets
-- and the writes of the indexer. A row is named by its transaction and log index, which are unique, as
-- by its id. Each call of the database may fail; a write that fails has changed nothing.
pub mod Effects
pub mod Presence
use chiliztv_com.Base.{
  ℕ, Bool, true, false, Option, none, some, List, [], ◌∷◌, ◌&&◌, not, ◌==◌, leb, Text, text_eq,
  to_lower_case, any, filter, update_where, if◌then◌else◌,
}

pub data BetStatus : Type 0 where
  pending won lost refunded : BetStatus

pub record BetRow : Type 0 where
  pub tx_hash : Text
  pub log_index : ℕ
  pub block_number : ℕ
  pub block_timestamp : ℕ
  pub contract_address : Text
  pub market_id : ℕ
  pub user_address : Text
  pub outcome : ℕ
  pub stake_amount : ℕ
  pub new_outcome_pool : ℕ
  pub new_total_pool : ℕ
  pub status : BetStatus
  pub payout_amount : Option ℕ
  pub claimed_at : Option ℕ

-- Which calls of the database go through.
pub record Database : Type 0 where
  pub inserts : Bool
  pub marks_won : Bool
  pub marks_lost : Bool
  pub refunds : Bool
  pub selects : Bool
  pub stamps : Bool
  pub attaches : Bool

abbrev pub same_row : BetRow → BetRow → Bool
same_row a b = text_eq a.tx_hash b.tx_hash && a.log_index == b.log_index

abbrev pub is_pending : BetStatus → Bool
is_pending pending = true
is_pending _ = false

-- `.in('status', ['WON', 'REFUNDED'])`
abbrev pays_out : BetStatus → Bool
pays_out won = true
pays_out refunded = true
pays_out _ = false

abbrev is_unset : Option ℕ → Bool
is_unset none = true
is_unset (some _) = false

-- A row of the market, the address in lower case.
abbrev pub in_market : Text → ℕ → BetRow → Bool
in_market contract market row =
    text_eq row.contract_address (to_lower_case contract) && row.market_id == market

-- The bet as its row.
abbrev pub to_row : BetRow → BetRow
to_row bet = record bet {
  tx_hash = to_lower_case bet.tx_hash;
  contract_address = to_lower_case bet.contract_address;
  user_address = to_lower_case bet.user_address;
}

-- A write returns whether it went through, with the table after it.
abbrev Write : Type 0 → Type 0
Write A = Option A × List BetRow

-- The upsert that ignores duplicates, and whether it has inserted.
unfoldable pub insert_if_absent : Database → BetRow → List BetRow → Write Bool
insert_if_absent db bet rows =
    if db.inserts
    then (if any (same_row (to_row bet)) rows
        then (some false, rows)
        else (some true, to_row bet ∷ rows))
    else (none, rows)

abbrev pub with_status : BetStatus → BetRow → BetRow
with_status status row = record row { status = status }

abbrev pub wins : Text → ℕ → ℕ → BetRow → Bool
wins contract market winning row =
    in_market contract market row && row.outcome == winning && is_pending row.status

abbrev pub loses : Text → ℕ → ℕ → BetRow → Bool
loses contract market winning row =
    in_market contract market row && not (row.outcome == winning) && is_pending row.status

abbrev update_if : Bool → (BetRow → Bool) → (BetRow → BetRow) → List BetRow → List BetRow
update_if goes p f rows = if goes then update_where p f rows else rows

-- The second update is sent also where the first one failed.
unfoldable pub settle_market : Database → Text → ℕ → ℕ → List BetRow → Write (Unit {0})
settle_market db contract market winning rows = (
  (if db.marks_won && db.marks_lost then some tt else none),
  update_if db.marks_lost (loses contract market winning) (with_status lost)
      (update_if db.marks_won (wins contract market winning) (with_status won) rows),
)

abbrev pub open_in : Text → ℕ → BetRow → Bool
open_in contract market row = in_market contract market row && is_pending row.status

unfoldable pub cancel_market : Database → Text → ℕ → List BetRow → Write (Unit {0})
cancel_market db contract market rows = (
  (if db.refunds then some tt else none),
  update_if db.refunds (open_in contract market) (with_status refunded) rows,
)

abbrev pub claimable : Text → ℕ → Text → BetRow → Bool
claimable contract market user row =
    in_market contract market row
    && text_eq row.user_address (to_lower_case user)
    && pays_out row.status
    && is_unset row.claimed_at

-- The first row of `order('block_number', { ascending: false })`; of rows of one block, which the query
-- leaves in any order, the first of the table.
unfoldable pub latest : BetRow → List BetRow → BetRow
latest row [] = row
latest row (next ∷ rows) =
    latest (if leb next.block_number row.block_number then row else next) rows

abbrev pub stamped : ℕ → BetRow → BetRow
stamped at row = record row { claimed_at = some at }

abbrev pub paid : ℕ → BetRow → BetRow
paid payout row = record row { payout_amount = some payout }

-- From the rows that are selected: all of them are stamped, and the latest gets the payout.
unfoldable pub claim_rows : Database → ℕ → ℕ → List BetRow → List BetRow → Write (Unit {0})
claim_rows db payout at [] rows = (some tt, rows)
claim_rows db payout at (row ∷ selected) rows =
    if db.stamps
    then (
      (if db.attaches then some tt else none),
      update_if db.attaches (same_row (latest row selected)) (paid payout)
          (update_where (λ r. any (same_row r) (row ∷ selected)) (stamped at) rows),
    )
    else (none, rows)

unfoldable pub record_claim : Database → Text → ℕ → Text → ℕ → ℕ → List BetRow → Write (Unit {0})
record_claim db contract market user payout at rows =
    if db.selects
    then claim_rows db payout at (filter (claimable contract market user) rows) rows
    else (none, rows)
