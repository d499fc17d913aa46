-- ===== src/Indexing/PariMatch/Phases.antt =====
-- The order of the logs of one market, and what makes a log change nothing.
use chiliztv_com.Base.{
  to_lower_case_idem, Text, text_eq_iff, arith, ℕ, ◌≤◌, Bool, true, false, Option, none, some, List,
  ◌≡◌, ◌⊎◌, ◌&&◌, ◌==◌, text_eq, to_lower_case, any, All,
}
use chiliztv_com.Indexing.Bets.{with_status, BetStatus, in_market, BetRow, to_row, same_row}
use chiliztv_com.Indexing.Bets.Effects.{all_through, NotOpen, NotClaimable}
use chiliztv_com.Indexing.PariMatch.{
  Event, position_taken, position_claimed, stake_refunded, market_resolved, market_cancelled, other,
  ChainLog, MarketEvent, Ledger, Surroundings, bet_of,
}

-- Surroundings in which nothing fails.
abbrev pub calm : ℕ → Surroundings
calm now = record {
  matches = none;
  now = now;
  answers = true;
  database = λ log. all_through;
  stores_event = λ log. true;
  finds_context = λ log. true;
}

abbrev pub market_of : Event → Option ℕ
market_of (position_taken market _ _ _ _ _) = some market
market_of (position_claimed market _ _) = some market
market_of (stake_refunded market _ _) = some market
market_of (market_resolved market _) = some market
market_of (market_cancelled market) = some market
market_of _ = none

-- The phases of a market on the chain: bets, the decision, and the payments.
abbrev pub phase : Event → ℕ
phase (position_taken _ _ _ _ _ _) = 0
phase (market_resolved _ _) = 1
phase (market_cancelled _) = 1
phase _ = 2

abbrev pub same_number : Option ℕ → Option ℕ → Bool
same_number (some a) (some b) = a == b
same_number _ _ = false

abbrev same_market : ChainLog → ChainLog → Bool
same_market a b =
    text_eq (to_lower_case a.address) (to_lower_case b.address)
    && same_number (market_of a.event) (market_of b.event)

-- The later log is of another market, or of no earlier phase.
abbrev pub Follows : ChainLog → ChainLog → Type 0
Follows a b = (same_market a b ≡ false) ⊎ (phase a.event ≤ phase b.event)

abbrev pub is_stored : ChainLog → List MarketEvent → Bool
is_stored log events =
    any (λ e. text_eq (to_lower_case log.transaction_hash) e.event_tx && log.index == e.event_index)
      events

-- What makes the log change nothing.
abbrev pub Done : ChainLog → Event → Ledger → Type 0
Done log (position_taken market user outcome stake outcome_pool total_pool) ledger =
    any (same_row (to_row (bet_of market user outcome stake outcome_pool total_pool log)))
      ledger.bets
    ≡ true
Done log (position_claimed market user payout) ledger =
    All (NotClaimable (to_lower_case log.address) market user) ledger.bets
Done log (stake_refunded market user amount) ledger =
    All (NotClaimable (to_lower_case log.address) market user) ledger.bets
Done log (market_resolved market result) ledger =
    (is_stored log ledger.market_events ≡ true)
    × All (NotOpen (to_lower_case log.address) market) ledger.bets
Done log (market_cancelled market) ledger =
    (is_stored log ledger.market_events ≡ true)
    × All (NotOpen (to_lower_case log.address) market) ledger.bets
Done log other ledger = Unit {0}
Done log _ ledger = is_stored log ledger.market_events ≡ true

-- A new bet of another market is not in this one.
pub new_elsewhere :
    (a b : Text) (m k : ℕ)
    → (text_eq (to_lower_case a) (to_lower_case b) && m == k) ≡ false
    → (text_eq (to_lower_case (to_lower_case b)) (to_lower_case (to_lower_case a)) && k == m)
      ≡ false
new_elsewhere a b m k h =
    rw (to_lower_case_idem a, to_lower_case_idem b)
      (ground (
        arith,
        text_eq_iff (to_lower_case b) (to_lower_case a),
        text_eq_iff (to_lower_case a) (to_lower_case b),
      ))

-- A row of one market is in no other.
apart_row :
    (a b : Text) (m k : ℕ) (row : BetRow)
    → (text_eq (to_lower_case a) (to_lower_case b) && m == k) ≡ false
    → (in_market (to_lower_case a) m row && in_market (to_lower_case b) k row) ≡ false
apart_row a b m k row h =
    rw (to_lower_case_idem a, to_lower_case_idem b)
      (ground (
        arith,
        text_eq_iff row.contract_address (to_lower_case a),
        text_eq_iff row.contract_address (to_lower_case b),
        text_eq_iff (to_lower_case a) (to_lower_case b),
      ))

-- A row that a decision of another market changes is not claimable here.
pub elsewhere :
    (log later : ChainLog) (market market' : ℕ) (user : Text) (status : BetStatus) (r : BetRow)
    → (text_eq (to_lower_case log.address) (to_lower_case later.address) && market == market')
      ≡ false
    → in_market (to_lower_case later.address) market' r ≡ true
    → NotClaimable (to_lower_case log.address) market user (with_status status r)
elsewhere log later market market' user status r apart there =
    ground (arith, apart_row log.address later.address market market' r apart)
