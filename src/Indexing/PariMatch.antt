-- ===== src/Indexing/PariMatch.antt =====
-- apps/backend/src/infrastructure/blockchain/indexers/PariMatchEventIndexer.ts: what each log does to
-- the bets and to the audit trail, and the processing of a range. The texts of the chat messages and the
-- drop of the cached pools after an event are left out; the drop comes last and changes no table.
pub mod Phases
pub mod Once
pub mod Kept
pub mod Replay
pub mod Changes
pub mod Verdict
pub mod Outages
use chiliztv_com.Base.{
  ◌++◌, ℕ, ◌+◌, ◌*◌, Bool, true, false, Option, none, some, List, [], ◌∷◌, ◌&&◌, ◌==◌, leb, String,
  Text, text_eq, to_lower_case, any, find?, if◌then◌else◌,
}
use chiliztv_com.Matches.Status.{MatchStatusKind, live, blocked, classify_status}
use chiliztv_com.Indexing.Bets.{
  BetRow, pending, Database, insert_if_absent, settle_market, cancel_market, record_claim,
}

-- The events of the contract; `other` is an event that the switch does not know, or a log that misses
-- its name, arguments or coordinates.
pub data Event : Type 0 where
  position_taken : ℕ → Text → ℕ → ℕ → ℕ → ℕ → Event
  position_claimed : ℕ → Text → ℕ → Event
  stake_refunded : ℕ → Text → ℕ → Event
  market_resolved : ℕ → ℕ → Event
  market_cancelled : ℕ → Event
  market_created : ℕ → Event
  market_state_changed : ℕ → Event
  leaderboard_record_failed : Event
  other : Event

-- A log with the time of its block.
pub record ChainLog : Type 0 where
  pub address : Text
  pub transaction_hash : Text
  pub index : ℕ
  pub block_number : ℕ
  pub block_timestamp : ℕ
  pub event : Event

-- A row of `market_events`: its coordinates, and whether it was stored is all that is read of it here.
pub record MarketEvent : Type 0 where
  pub event_tx : Text
  pub event_index : ℕ

pub data Notice : Type 0 where
  incident : Text → ℕ → Notice
  bet_posted : Text → ℕ → Notice

-- The tables with the notices that were sent, the last first.
pub record Ledger : Type 0 where
  pub bets : List BetRow
  pub market_events : List MarketEvent
  pub notices : List Notice

pub record MatchWithContract : Type 0 where
  pub status : String
  pub betting_contract_address : Text

-- What a range meets: the matches, none where their query fails; the current time; whether the logs with
-- what else the chain is asked are read; which calls go through for a log; whether the audit trail takes
-- its row, and whether the context of the market is read.
pub record Surroundings : Type 0 where
  pub matches : Option (List MatchWithContract)
  pub now : ℕ
  pub answers : Bool
  pub database : ChainLog → Database
  pub stores_event : ChainLog → Bool
  pub finds_context : ChainLog → Bool

abbrev pub bet_of : ℕ → Text → ℕ → ℕ → ℕ → ℕ → ChainLog → BetRow
bet_of market user outcome stake outcome_pool total_pool log = record {
  tx_hash = log.transaction_hash;
  log_index = log.index;
  block_number = log.block_number;
  block_timestamp = log.block_timestamp;
  contract_address = to_lower_case log.address;
  market_id = market;
  user_address = user;
  outcome = outcome;
  stake_amount = stake;
  new_outcome_pool = outcome_pool;
  new_total_pool = total_pool;
  status = pending;
  payout_amount = none;
  claimed_at = none;
}

abbrev is_in_play : MatchStatusKind → Bool
is_in_play live = true
is_in_play blocked = true
is_in_play _ = false

-- An incident is not reported for a block that is older than an hour.
abbrev incidents : ℕ → ChainLog → MatchWithContract → List Notice
incidents now log match =
    if is_in_play (classify_status match.status)
    then (if leb now (log.block_timestamp + 60 * 60000)
        then incident log.transaction_hash log.index ∷ []
        else [])
    else []

-- What a new bet sends; nothing where no match has the contract. The query of the market's context
-- comes between the two, and throws where it fails.
abbrev announced : Bool → ℕ → ChainLog → Option MatchWithContract → List Notice → List Notice
announced finds now log none notices = notices
announced finds now log (some match) notices =
    let sent = incidents now log match ++ notices in
    if finds then bet_posted log.transaction_hash log.index ∷ sent else sent

-- The log goes on only if the bet is new.
abbrev pub after_insert :
    Bool → ℕ → List MatchWithContract → ChainLog → Ledger → Option Bool × List BetRow → Ledger
after_insert finds now matches log ledger (some true, rows) = record ledger {
  bets = rows;
  notices =
      announced finds now log
        (find? (λ m. text_eq (to_lower_case m.betting_contract_address) (to_lower_case log.address))
          matches)
        ledger.notices;
}
after_insert finds now matches log ledger (_, rows) = record ledger { bets = rows }

abbrev pub stored_event : ChainLog → List MarketEvent → List MarketEvent
stored_event log events =
    if any
      (λ e. text_eq (to_lower_case log.transaction_hash) e.event_tx && log.index == e.event_index)
      events
    then events
    else record { event_tx = to_lower_case log.transaction_hash; event_index = log.index } ∷ events

-- The row of the audit trail comes first; where it is not stored the log throws before the bets.
abbrev pub audited : Bool → ChainLog → (List BetRow → List BetRow) → Ledger → Ledger
audited stores log write ledger =
    if stores
    then record ledger {
      bets = write ledger.bets;
      market_events = stored_event log ledger.market_events;
    }
    else ledger

-- The tables after a log. What it throws is caught by the loop, so that only its effect counts.
unfoldable pub dispatch : Surroundings → List MatchWithContract → ChainLog → Event → Ledger → Ledger
dispatch s matches log (position_taken market user outcome stake outcome_pool total_pool) ledger =
    after_insert (s.finds_context log) s.now matches log ledger (
      insert_if_absent (s.database log)
        (bet_of market user outcome stake outcome_pool total_pool log) ledger.bets)
dispatch s matches log (position_claimed market user payout) ledger = record ledger {
  bets =
      (record_claim (s.database log) (to_lower_case log.address) market user payout
        log.block_timestamp ledger.bets).1;
}
dispatch s matches log (stake_refunded market user amount) ledger = record ledger {
  bets =
      (record_claim (s.database log) (to_lower_case log.address) market user amount
        log.block_timestamp ledger.bets).1;
}
dispatch s matches log (market_resolved market result) ledger =
    audited (s.stores_event log) log
      (λ rows. (settle_market (s.database log) (to_lower_case log.address) market result rows).1)
      ledger
dispatch s matches log (market_cancelled market) ledger =
    audited (s.stores_event log) log
      (λ rows. (cancel_market (s.database log) (to_lower_case log.address) market rows).1) ledger
dispatch s matches log (market_created market) ledger =
    audited (s.stores_event log) log (λ rows. rows) ledger
dispatch s matches log (market_state_changed market) ledger =
    audited (s.stores_event log) log (λ rows. rows) ledger
dispatch s matches log leaderboard_record_failed ledger =
    audited (s.stores_event log) log (λ rows. rows) ledger
dispatch s matches log other ledger = ledger

unfoldable pub run_logs : Surroundings → List MatchWithContract → List ChainLog → Ledger → Ledger
run_logs s matches [] ledger = ledger
run_logs s matches (log ∷ logs) ledger =
    run_logs s matches logs (dispatch s matches log log.event ledger)

-- `getBettingContracts`: an error and an empty table both give no matches.
abbrev pub betting_contracts : Option (List MatchWithContract) → List MatchWithContract
betting_contracts none = []
betting_contracts (some matches) = matches

-- Whether the range is processed without a throw, and the tables after it. The logs are those that the
-- chain has of the contracts in the range.
unfoldable pub process_batch :
    Surroundings → List MatchWithContract → List ChainLog → Ledger → Bool × Ledger
process_batch s [] logs ledger = (true, ledger)
process_batch s (m ∷ matches) logs ledger =
    if s.answers then (true, run_logs s (m ∷ matches) logs ledger) else (false, ledger)

unfoldable pub process_range : Surroundings → List ChainLog → Ledger → Bool × Ledger
unfolding process_batch
process_range s logs ledger = process_batch s (betting_contracts s.matches) logs ledger
