-- ===== src/Predictions/Settlement.antt =====
-- apps/backend/src/application/predictions/use-cases/SettlePredictionsUseCase.ts: the settlement of
-- the open predictions. The two repositories are ports: the lookup of a match may fail, and so may
-- the write of a prediction. The result is the count with the predictions that were written.
pub mod Outcome
pub mod Run
use chiliztv_com.Base.{
  ℕ, suc, ◌+◌, String, Bool, true, false, Option, none, some, List, [], ◌∷◌, ◌==◌, ◌||◌, str_eq,
  ltb, Result, ok, throws, if◌then◌else◌, not,
}
use chiliztv_com.Matches.Entity.{Match, both}
use chiliztv_com.Predictions.Values.{ValidationError}
use chiliztv_com.Predictions.Entity.{Prediction, settle}

unfoldable pub determine_result : ℕ → ℕ → String → String → Bool
determine_result home away type value =
    if str_eq type "WIN_HOME"
    then ltb away home
    else if str_eq type "WIN_AWAY"
    then ltb home away
    else if str_eq type "DRAW"
    then home == away
    else if str_eq type "match_winner"
    then (if str_eq value "home"
        then ltb away home
        else if str_eq value "away"
        then ltb home away
        else if str_eq value "draw"
        then home == away
        else false)
    else false

unfoldable pub get_actual_result : ℕ → ℕ → String → String
get_actual_result home away type =
    if str_eq type "WIN_HOME"
      || str_eq type "WIN_AWAY"
      || str_eq type "DRAW"
      || str_eq type "match_winner"
    then (if ltb away home then "WIN_HOME" else if ltb home away then "WIN_AWAY" else "DRAW")
    else "unknown"

-- What the use case is given: the match repository's lookup, whether the write of a prediction
-- succeeds, and the two readings of the clock while a prediction is settled.
pub record Ports : Type 1 where
  pub Failure : Type 0
  pub find_match : ℕ → Result Failure (Option Match)
  pub write : Prediction → Bool
  pub clock : Prediction → ℕ × ℕ

-- The match as the loop uses it: found, at FT, with both scores.
abbrev pub scored : Option Match → Option (ℕ × ℕ)
scored none = none
scored (some m) = if str_eq m.status "FT" then both m.home_score m.away_score else none

abbrev pub looked_up {ℓ} : {E : Type ℓ} → Result E (Option Match) → Option (ℕ × ℕ)
looked_up (ok o) = scored o
looked_up (throws e) = none

module _ (ports : Ports) where
  -- The write, of a prediction that `settle` returned.
  store : Result ValidationError Prediction → Option Prediction
  store (throws e) = none
  store (ok q) = if ports.write q then some q else none

  -- One round of the loop; `none` is a `continue` or a caught exception.
  settle_one : Prediction → Option Prediction
  unfolding store
  settle_one p = elim (looked_up (ports.find_match p.match_id)) [
    | none ↦ none
    | some (home, away) ↦ store (
        settle (ports.clock p).0 (ports.clock p).1 (get_actual_result home away p.prediction_type)
          (determine_result home away p.prediction_type p.prediction_value) p)
  ]

  abbrev pub counted : Option Prediction → ℕ × List Prediction → ℕ × List Prediction
  counted none r = r
  counted (some q) (n, qs) = (suc n, q ∷ qs)

  unfoldable pub execute : List Prediction → ℕ × List Prediction
  unfolding settle_one
  execute [] = (0, [])
  execute (p ∷ ps) = let rest = execute ps in counted (settle_one p) rest
