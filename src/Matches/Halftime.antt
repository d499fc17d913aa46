-- ===== src/Matches/Halftime.antt =====
-- apps/backend/src/application/matches/use-cases/ResolveHalftimeMarketUseCase.ts. The chain is a port:
-- each call may throw. Another run may be at work on a contract.
pub mod Due
pub mod Reading
use chiliztv_com.Base.{
  codes, to_lower_case, ◌++◌, suc, Text, ℕ, ◌+◌, ◌*◌, Bool, true, false, Option, none, some, List,
  [], ◌∷◌, ◌&&◌, ◌||◌, ◌==◌, leb, String, str_eq, has, if◌then◌else◌,
}
use chiliztv_com.Matches.Status.{live_statuses}
use chiliztv_com.Matches.Entity.{Match, both}

pub data MarketState : Type 0 where
  inactive opened suspended closed resolved cancelled : MarketState

abbrev pub post_ht_statuses : List String
post_ht_statuses = "2H" ∷ "ET" ∷ "BT" ∷ "P" ∷ "LIVE" ∷ "FT" ∷ "AET" ∷ "PEN" ∷ []

abbrev pub post_live_rescue_statuses : List String
post_live_rescue_statuses = "FT" ∷ "AET" ∷ "PEN" ∷ []

abbrev pub rescue_window_ms : ℕ
rescue_window_ms = 6 * 60 * 60 * 1000

-- The calls on the market of the half time. The score is sent as the score of both periods.
pub data HalftimeCall : Type 0 where
  closes_market : String → HalftimeCall
  resolves_market : String → ℕ → ℕ → HalftimeCall
  voids_market : String → HalftimeCall

pub record HalftimeChain : Type 0 where
  pub market_state : String → Option MarketState
  pub close_market : String → Option ℕ
  pub resolve_market : String → ℕ → ℕ → Option ℕ
  pub cancel_market : String → Option ℕ

-- What is resolved and voided, none where the match threw, with the calls in their order.
abbrev pub Handled : Type 0
Handled = Option (ℕ × ℕ) × List HalftimeCall

abbrev pub is_open : MarketState → Bool
is_open opened = true
is_open _ = false

unfoldable pub in_rescue_window : ℕ → Match → Bool
in_rescue_window now m =
    has post_live_rescue_statuses m.status && leb now (m.match_date + rescue_window_ms)

-- The second half begins 47 minutes after the kickoff. The threshold is in seconds.
unfoldable pub should_void : ℕ → ℕ → Match → Bool
should_void now void_after m =
    has post_ht_statuses m.status && leb (m.match_date + 47 * 60000 + void_after * 1000) now

abbrev void_after_seconds : Option ℕ → ℕ
void_after_seconds none = 900
void_after_seconds (some seconds) = seconds

-- `!contract`
abbrev pub given_contract : Option String → Option String
given_contract none = none
given_contract (some contract) = if str_eq contract "" then none else some contract

abbrev pub resolved_by : String → ℕ → ℕ → Option ℕ → Handled
resolved_by contract h a none = (none, closes_market contract ∷ resolves_market contract h a ∷ [])
resolved_by contract h a (some n) =
    (some (n, 0), closes_market contract ∷ resolves_market contract h a ∷ [])

abbrev pub voided_by : String → Option ℕ → Handled
voided_by contract none = (none, voids_market contract ∷ [])
voided_by contract (some n) = (some (0, n), voids_market contract ∷ [])

module _ (chain : HalftimeChain) where
  -- From how many markets were closed.
  abbrev pub after_close : String → ℕ → ℕ → Option ℕ → Handled
  after_close contract h a none = (none, closes_market contract ∷ [])
  after_close contract h a (some n) =
      if n == 0
      then (some (0, 0), closes_market contract ∷ [])
      else resolved_by contract h a (chain.resolve_market contract h a)

  unfoldable pub close_and_resolve : String → ℕ → ℕ → Handled
  close_and_resolve contract h a = after_close contract h a (chain.close_market contract)

  -- From the score of the half time.
  unfoldable pub settle_halftime : ℕ → ℕ → Match → String → Option (ℕ × ℕ) → Handled
  unfolding close_and_resolve
  settle_halftime now void_after m contract (some (h, a)) = close_and_resolve contract h a
  settle_halftime now void_after m contract none =
      if should_void now void_after m
      then voided_by contract (chain.cancel_market contract)
      else (some (0, 0), [])

  -- From the state of the market.
  unfoldable pub handle_state : ℕ → ℕ → Match → String → Option MarketState → Handled
  handle_state now void_after m contract none = (none, [])
  handle_state now void_after m contract (some state) =
      if is_open state
      then settle_halftime now void_after m contract (both m.ht_home_score m.ht_away_score)
      else (some (0, 0), [])

  unfoldable pub handle_match : ℕ → ℕ → Match → String → Handled
  handle_match now void_after m contract =
      handle_state now void_after m contract (chain.market_state contract)

pub record HalftimeResult : Type 0 where
  pub resolved_markets : ℕ
  pub voided_markets : ℕ
  pub scanned : ℕ

unfoldable pub warrants_scan : ℕ → Match → Bool
warrants_scan now m = has live_statuses m.status || in_rescue_window now m

-- A match that threw is logged and counts as scanned only.
abbrev pub tallied :
    Handled → HalftimeResult × List HalftimeCall → HalftimeResult × List HalftimeCall
tallied (none, made) (r, calls) = (record r { scanned = suc r.scanned }, made ++ calls)
tallied (some (settled, voided), made) (r, calls) = (
  record {
    resolved_markets = settled + r.resolved_markets;
    voided_markets = voided + r.voided_markets;
    scanned = suc r.scanned;
  },
  made ++ calls,
)

module _ (chain : HalftimeChain) (busy : Text → Bool) (now void_after : ℕ) where
  -- What is done about a match of which another run may hold the contract.
  unfoldable pub guarded : Match → String → Handled
  guarded m contract =
      if busy (to_lower_case (codes contract))
      then (some (0, 0), [])
      else handle_match chain now void_after m contract

  abbrev one_scanned : Handled → Option HalftimeResult × List HalftimeCall
  one_scanned (none, made) = (none, made)
  one_scanned (some (settled, voided), made) =
      (some (record { resolved_markets = settled; voided_markets = voided; scanned = 1 }), made)

  abbrev execute_on : Match → Option String → Option HalftimeResult × List HalftimeCall
  execute_on m none = (some (record { resolved_markets = 0; voided_markets = 0; scanned = 0 }), [])
  execute_on m (some contract) =
      if busy (to_lower_case (codes contract))
      then (some (record { resolved_markets = 0; voided_markets = 0; scanned = 0 }), [])
      else one_scanned (handle_match chain now void_after m contract)

  -- `execute`, from the match that the identifier finds; none where it throws.
  unfoldable pub execute : Option Match → Option HalftimeResult × List HalftimeCall
  execute none = (some (record { resolved_markets = 0; voided_markets = 0; scanned = 0 }), [])
  execute (some m) = execute_on m (given_contract m.betting_contract_address)

  abbrev pub scan_match :
      Match
      → Option String
      → HalftimeResult × List HalftimeCall
      → HalftimeResult × List HalftimeCall
  scan_match m none state = state
  scan_match m (some contract) state =
      if warrants_scan now m then tallied (guarded m contract) state else state

  -- The loop of `executeAll`; the sums do not depend on its order.
  unfoldable pub execute_all : List Match → HalftimeResult × List HalftimeCall
  execute_all [] = (record { resolved_markets = 0; voided_markets = 0; scanned = 0 }, [])
  execute_all (m ∷ ms) = scan_match m (given_contract m.betting_contract_address) (execute_all ms)
