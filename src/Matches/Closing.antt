-- ===== src/Matches/Closing.antt =====
-- apps/backend/src/application/matches/use-cases/CloseLiveMatchesMarketsUseCase.ts: the closing of the
-- markets of matches that take no more bets. The chain is a port: each call may throw, and else
-- answers with the number of markets that it changed. Each match has a contract of its own, so that
-- an answer depends on the contract alone.
pub mod Calls
pub mod Candidates
use chiliztv_com.Base.{
  ℕ, suc, ◌+◌, Bool, true, false, not, Option, none, some, List, [], ◌∷◌, ◌&&◌, ◌||◌, ◌==◌, String,
  str_eq, Text, codes, all, has, if◌then◌else◌,
}
use chiliztv_com.Matches.Status.{
  MatchStatusKind, finished, blocked, BettableResult, bettable, refused, classify_status,
  is_bettable,
}
use chiliztv_com.Matches.Entity.{Match}

abbrev is_space : ℕ → Bool
is_space c = c == 32 || c == 9 || c == 10 || c == 11 || c == 12 || c == 13

-- The contract that is there and not blank. The white space is that of ASCII.
unfoldable pub contract_of : Option String → Option String
contract_of none = none
contract_of (some contract) = if all is_space (codes contract) then none else some contract

abbrev pub is_finished_kind : MatchStatusKind → Bool
is_finished_kind finished = true
is_finished_kind _ = false

abbrev is_blocked_kind : MatchStatusKind → Bool
is_blocked_kind blocked = true
is_blocked_kind _ = false

abbrev pub verdict_ok : BettableResult → Bool
verdict_ok bettable = true
verdict_ok (refused _) = false

-- What is done about a match: nothing, the cancelling of its open markets, for the status that the
-- reason names, or their closing.
pub data Plan : Type 0 where
  leaves : Plan
  cancels : String → Plan
  closes : Plan

unfoldable pub verdict : ℕ → ℕ → Match → BettableResult
verdict now buffer m =
    is_bettable (record { status = m.status; kickoff_at = some m.match_date }) now
      (record { kickoff_buffer_sec = buffer })

unfoldable pub plan_of : ℕ → ℕ → Match → Plan
plan_of now buffer m =
    if is_finished_kind (classify_status m.status)
    then leaves
    else if verdict_ok (verdict now buffer m)
    then leaves
    else if is_blocked_kind (classify_status m.status)
        && (str_eq m.status "CANC" || str_eq m.status "ABD")
    then cancels m.status
    else closes

pub record Chain : Type 0 where
  pub cancel_open : String → String → Option ℕ
  pub close_open : String → Option ℕ

pub record CloseResult : Type 0 where
  pub scanned : ℕ
  pub closed : ℕ
  pub cancelled : ℕ
  pub errors : ℕ

-- A call of the chain: the contract, with what is done.
abbrev pub Calls : Type 0
Calls = List (String × Plan)

abbrev closed_by : Option ℕ → CloseResult → CloseResult
closed_by none r = record r { scanned = suc r.scanned; errors = suc r.errors }
closed_by (some n) r = record r { scanned = suc r.scanned; closed = n + r.closed }

abbrev cancelled_by : Option ℕ → CloseResult → CloseResult
cancelled_by none r = record r { scanned = suc r.scanned; errors = suc r.errors }
cancelled_by (some n) r = record r { scanned = suc r.scanned; cancelled = n + r.cancelled }

module _ (chain : Chain) where
  unfoldable pub run_plan : String → Plan → CloseResult × Calls → CloseResult × Calls
  run_plan contract leaves (r, calls) = (r, calls)
  run_plan contract closes (r, calls) =
      (closed_by (chain.close_open contract) r, (contract, closes) ∷ calls)
  run_plan contract (cancels status) (r, calls) =
      (cancelled_by (chain.cancel_open contract status) r, (contract, cancels status) ∷ calls)

  unfoldable pub close_match : Option String → Plan → CloseResult × Calls → CloseResult × Calls
  close_match none plan state = state
  close_match (some contract) plan state = run_plan contract plan state

  -- The loop over the candidates; the sums do not depend on its order.
  unfoldable pub close_live : ℕ → ℕ → List Match → CloseResult × Calls
  close_live now buffer [] = (record { scanned = 0; closed = 0; cancelled = 0; errors = 0 }, [])
  close_live now buffer (m ∷ ms) =
      close_match (contract_of m.betting_contract_address) (plan_of now buffer m)
        (close_live now buffer ms)
