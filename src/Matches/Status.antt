-- ===== src/Matches/Status.antt =====
-- packages/domain/src/matches/policies/BettablePolicy.ts and MatchStatusKind.ts: the status codes
-- of API-Football, their classification, and when a match takes bets.
pub mod Laws
use chiliztv_com.Base.{
  ℕ, ◌+◌, ◌*◌, String, Bool, true, false, Option, none, some, List, [], ◌∷◌, str_eq, has, ltb,
  if◌then◌else◌,
}

pub data MatchStatusKind : Type 0 where
  upcoming live finished blocked unknown : MatchStatusKind

abbrev pub live_statuses : List String
live_statuses = "1H" ∷ "HT" ∷ "2H" ∷ "ET" ∷ "BT" ∷ "P" ∷ "LIVE" ∷ "SUSP" ∷ "INT" ∷ []

abbrev pub finished_statuses : List String
finished_statuses = "FT" ∷ "AET" ∷ "PEN" ∷ "AWD" ∷ "WO" ∷ []

abbrev pub blocked_statuses : List String
blocked_statuses = "PST" ∷ "CANC" ∷ "ABD" ∷ []

abbrev pub upcoming_statuses : List String
upcoming_statuses = "NS" ∷ "TBD" ∷ []

pub data BlockReason : Type 0 where
  in_play halftime kickoff_buffer over postponed unreadable : BlockReason

pub data BettableResult : Type 0 where
  bettable : BettableResult
  refused : BlockReason → BettableResult

-- `kickoff_at` is the time value in milliseconds; `none` stands for a date that is not finite.
pub record BettableMatch : Type 0 where
  pub status : String
  pub kickoff_at : Option ℕ

pub record BettableOptions : Type 0 where
  pub kickoff_buffer_sec : ℕ

unfoldable pub classify_status : String → MatchStatusKind
classify_status status =
    if has upcoming_statuses status
    then upcoming
    else if has live_statuses status
    then live
    else if has finished_statuses status
    then finished
    else if has blocked_statuses status
    then blocked
    else unknown

unfoldable is_halftime : String → Bool
is_halftime status = str_eq status "HT"

-- The test of the kickoff buffer. `(kickoff - now) / 1000 < buffer` is read over the integers.
abbrev pub check_kickoff : Option ℕ → ℕ → BettableOptions → BettableResult
check_kickoff none now opts = refused unreadable
check_kickoff (some kickoff) now opts =
    if ltb kickoff (now + opts.kickoff_buffer_sec * 1000) then refused kickoff_buffer else bettable

unfoldable pub is_bettable : BettableMatch → ℕ → BettableOptions → BettableResult
unfolding is_halftime
is_bettable match now opts = elim (classify_status match.status) [
  | live ↦ refused (if is_halftime match.status then halftime else in_play)
  | finished ↦ refused over
  | blocked ↦ refused postponed
  | unknown ↦ refused unreadable
  | upcoming ↦ check_kickoff match.kickoff_at now opts
]
