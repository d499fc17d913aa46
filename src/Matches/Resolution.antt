-- ===== src/Matches/Resolution.antt =====
-- apps/backend/src/application/matches/use-cases/ResolveFinishedMatchesUseCase.ts. The chain is a port: a
-- call may throw, and else answers with the number of markets that it resolved. Another run may be at
-- work on a contract; that set does not change during this run but by what this run adds and takes away.
pub mod Score
pub mod Runs
pub mod Awarded
use chiliztv_com.Base.{
  ℕ, suc, ◌+◌, Bool, true, false, Option, none, some, List, [], ◌∷◌, ◌&&◌, String, Text, codes,
  to_lower_case, has, filter, if◌then◌else◌,
}
use chiliztv_com.Matches.Entity.{Match, Side, home, away, get_penalty_winner}
use chiliztv_com.Matches.Closing.{contract_of}

abbrev pub finished_codes : List String
finished_codes = "FT" ∷ "AET" ∷ "PEN" ∷ []

abbrev pub is_known : Option ℕ → Bool
is_known none = false
is_known (some _) = true

abbrev pub is_given : Option String → Bool
is_given none = false
is_given (some _) = true

unfoldable pub to_resolve : Match → Bool
to_resolve m =
    has finished_codes m.status
    && is_known m.home_score
    && is_known m.away_score
    && is_given (contract_of m.betting_contract_address)

pub record ScoreInput : Type 0 where
  pub home_goals : ℕ
  pub away_goals : ℕ
  pub ht_home_goals : Option ℕ
  pub ht_away_goals : Option ℕ
  pub aet_home_goals : Option ℕ
  pub aet_away_goals : Option ℕ
  pub pen_winner : Option ℕ

abbrev pub pen_winner_of : Option Side → Option ℕ
pen_winner_of none = none
pen_winner_of (some home) = some 0
pen_winner_of (some away) = some 1

abbrev pub score_with : Match → ℕ → ℕ → ScoreInput
score_with m h a = record {
  home_goals = h;
  away_goals = a;
  ht_home_goals = m.ht_home_score;
  ht_away_goals = m.ht_away_score;
  aet_home_goals = m.aet_home_score;
  aet_away_goals = m.aet_away_score;
  pen_winner = pen_winner_of (get_penalty_winner m);
}

pub record ResolveResult : Type 0 where
  pub matches_processed : ℕ
  pub markets_resolved : ℕ

abbrev pub Resolutions : Type 0
Resolutions = List (String × ScoreInput)

abbrev pub counted : Option ℕ → ResolveResult → ResolveResult
counted none r = r
counted (some n) r = record {
  matches_processed = suc r.matches_processed;
  markets_resolved = n + r.markets_resolved;
}

module _ (busy : Text → Bool) (resolves : String → ScoreInput → Option ℕ) where
  -- The match with its contract and score, which the filter has seen to be there.
  unfoldable pub resolve_with :
      Match
      → Option String
      → Option ℕ
      → Option ℕ
      → ResolveResult × Resolutions
      → ResolveResult × Resolutions
  resolve_with m (some contract) (some h) (some a) (r, calls) =
      if busy (to_lower_case (codes contract))
      then (r, calls)
      else (counted (resolves contract (score_with m h a)) r, (contract, score_with m h a) ∷ calls)
  resolve_with m _ _ _ state = state

  -- The loop; the sums do not depend on its order.
  unfoldable pub resolve_each : List Match → ResolveResult × Resolutions
  resolve_each [] = (record { matches_processed = 0; markets_resolved = 0 }, [])
  resolve_each (m ∷ ms) =
      resolve_with m (contract_of m.betting_contract_address) m.home_score m.away_score
        (resolve_each ms)

  unfoldable pub resolve_finished : List Match → ResolveResult × Resolutions
  resolve_finished ms = resolve_each (filter to_resolve ms)
