-- ===== src/Rewards.antt =====
-- apps/backend/src/application/leaderboard: AdvanceEpochUseCase and GetMyClaimableEpochsUseCase, with the
-- queries of SupabaseLeaderboardEpochRepository that they make. The chain is a port: a read and a
-- transaction may throw. The queries themselves are taken to go through.
pub mod Upkeep
pub mod Once
pub mod Claimable
use chiliztv_com.Base.{
  ◌*◌, not, ◌==◌, ◌+◌, to_lower_case, ◌++◌, Text, leb, ◌&&◌, ltb, filter, if◌then◌else◌, Option, ℕ,
  List, [], ◌∷◌, none, some, suc, Bool, true, false,
}
use chiliztv_com.Indexing.Leaderboard.{confirmed, EpochRow, EpochStatus}

abbrev pub is_confirmed : EpochStatus → Bool
is_confirmed confirmed = true
is_confirmed _ = false

abbrev pub expires_after : ℕ → Option ℕ → Bool
expires_after now none = false
expires_after now (some expiry) = ltb now expiry

abbrev pub expires_before : ℕ → Option ℕ → Bool
expires_before now none = false
expires_before now (some expiry) = ltb expiry now

abbrev pub is_open_window : ℕ → EpochRow → Bool
is_open_window now row = is_confirmed row.status && expires_after now row.claim_expiry

abbrev pub is_expired_window : ℕ → EpochRow → Bool
is_expired_window now row = is_confirmed row.status && expires_before now row.claim_expiry

-- A null comes last in ascending order, and first in descending order.
abbrev pub no_later_epoch : Option ℕ → Option ℕ → Bool
no_later_epoch _ none = true
no_later_epoch none (some _) = false
no_later_epoch (some a) (some b) = leb a b

abbrev pub insert_epoch : (EpochRow → EpochRow → Bool) → EpochRow → List EpochRow → List EpochRow
insert_epoch before row [] = row ∷ []
insert_epoch before row (next ∷ rows) =
    let rest = insert_epoch before row rows in
    if before row next then row ∷ next ∷ rows else next ∷ rest

abbrev pub order_by : (EpochRow → EpochRow → Bool) → List EpochRow → List EpochRow
order_by before [] = []
order_by before (row ∷ rows) = insert_epoch before row (order_by before rows)

unfoldable pub find_expired_confirmed : ℕ → List EpochRow → List EpochRow
find_expired_confirmed now rows =
    order_by (λ a b. no_later_epoch a.epoch_id b.epoch_id) (filter (is_expired_window now) rows)

unfoldable pub find_open_claim_windows : ℕ → List EpochRow → List EpochRow
find_open_claim_windows now rows =
    order_by (λ a b. no_later_epoch b.epoch_id a.epoch_id) (filter (is_open_window now) rows)

-- What the contract answers: the start and the duration of the epoch, in seconds; whether the simulation of
-- the advance accepts it, and whether the transaction and its receipt come through; the same of the rollover
-- of each epoch.
pub record Rollovers : Type 0 where
  pub boundary : Option (ℕ × ℕ)
  pub simulates_advance : Bool
  pub advances : Bool
  pub simulates_roll : ℕ → Bool
  pub rolls : ℕ → Bool

pub data UpkeepCall : Type 0 where
  advances_epoch : UpkeepCall
  rolls_epoch : ℕ → UpkeepCall

module _ (chain : Rollovers) (now : ℕ) where
  -- Whether it has advanced, none where it throws, with the transaction that it sends: none where the
  -- simulation rejects.
  unfoldable pub advance_if_due : Option (ℕ × ℕ) → Option Bool × List UpkeepCall
  advance_if_due none = (none, [])
  advance_if_due (some (start, duration)) =
      if ltb now ((start + duration) * 1000)
      then (some false, [])
      else if not chain.simulates_advance
      then (none, [])
      else ((if chain.advances then some true else none), advances_epoch ∷ [])

  abbrev pub roll_one : Option ℕ → ℕ × List UpkeepCall → ℕ × List UpkeepCall
  roll_one none state = state
  roll_one (some id) (rolled, calls) =
      if chain.simulates_roll id
      then ((if chain.rolls id then suc rolled else rolled), rolls_epoch id ∷ calls)
      else (rolled, calls)

  -- The loop; the count does not depend on its order.
  unfoldable pub rollover_each : List EpochRow → ℕ × List UpkeepCall
  rollover_each [] = (0, [])
  rollover_each (row ∷ rows) = roll_one row.epoch_id (rollover_each rows)

  -- The clock is read again for the sweep.
  abbrev pub after_advance :
      ℕ → List EpochRow → Option Bool × List UpkeepCall → Option (Bool × ℕ) × List UpkeepCall
  after_advance sweep rows (none, calls) = (none, calls)
  after_advance sweep rows (some advanced, calls) = (
    some (advanced, (rollover_each (find_expired_confirmed sweep rows)).0),
    calls ++ (rollover_each (find_expired_confirmed sweep rows)).1,
  )

  unfoldable pub execute_upkeep : ℕ → List EpochRow → Option (Bool × ℕ) × List UpkeepCall
  execute_upkeep sweep rows = after_advance sweep rows (advance_if_due chain.boundary)

pub record ClaimableEntry : Type 0 where
  pub entry_epoch : ℕ
  pub entry_amount : ℕ
  pub entry_expiry : ℕ
  pub already_claimed : Bool

-- `pendingClaim` and `hasClaimed` of a user, none where the read throws.
pub record Claims : Type 0 where
  pub pending_claim : ℕ → Text → Option ℕ
  pub has_claimed : ℕ → Text → Option Bool

-- `epoch.claimExpiry ?? now`
abbrev pub expiry_or : ℕ → Option ℕ → ℕ
expiry_or now none = now
expiry_or now (some expiry) = expiry

module _ (chain : Claims) (now : ℕ) (user : Text) where
  abbrev pub entry_with : EpochRow → ℕ → Option ℕ → Option Bool → Option (List ClaimableEntry)
  entry_with row id (some amount) (some claimed) =
      if amount == 0 && not claimed
      then some []
      else some (
          record {
            entry_epoch = id;
            entry_amount = amount;
            entry_expiry = expiry_or now row.claim_expiry;
            already_claimed = claimed;
          }
          ∷ [])
  entry_with row id _ _ = none

  abbrev pub entries_of : EpochRow → Option ℕ → Option (List ClaimableEntry)
  entries_of row none = some []
  entries_of row (some id) =
      entry_with row id (chain.pending_claim id user) (chain.has_claimed id user)

  abbrev pub joined :
      Option (List ClaimableEntry) → Option (List ClaimableEntry) → Option (List ClaimableEntry)
  joined (some xs) (some ys) = some (xs ++ ys)
  joined _ _ = none

  -- `Promise.all`: one read that throws fails them all.
  unfoldable pub all_entries : List EpochRow → Option (List ClaimableEntry)
  all_entries [] = some []
  all_entries (row ∷ rows) = joined (entries_of row row.epoch_id) (all_entries rows)

unfoldable pub get_claimable : Claims → ℕ → Text → List EpochRow → Option (List ClaimableEntry)
get_claimable chain now user rows =
    all_entries chain now (to_lower_case user) (find_open_claim_windows now rows)
