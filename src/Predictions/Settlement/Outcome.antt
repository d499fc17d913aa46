-- ===== src/Predictions/Settlement/Outcome.antt =====
-- The two readings of a score, whether a bet won and what the result was, against one another.
use chiliztv_com.Base.{
  ℕ, String, true, ◌≡◌, ◌↔◌, inl, inr, List, [], ◌∷◌, Among, arith, eq_iff, ◌≢◌,
}
use chiliztv_com.Predictions.Settlement.{determine_result, get_actual_result}

abbrev result_types : List String
result_types = "WIN_HOME" ∷ "WIN_AWAY" ∷ "DRAW" ∷ []

-- The three results are different texts.
win_home-ne-away : ◌≢◌ {A = String} "WIN_HOME" "WIN_AWAY"
win_home-ne-away = ground (arith, eq_iff "WIN_HOME" "WIN_AWAY")

win_home-ne-draw : ◌≢◌ {A = String} "WIN_HOME" "DRAW"
win_home-ne-draw = ground (arith, eq_iff "WIN_HOME" "DRAW")

win_away-ne-draw : ◌≢◌ {A = String} "WIN_AWAY" "DRAW"
win_away-ne-draw = ground (arith, eq_iff "WIN_AWAY" "DRAW")

-- A prediction of one of the three result types wins exactly when the recorded result of the match
-- is that type.
determine-actual :
    (h a : ℕ) (t v : String)
    → Among t result_types
    → (determine_result h a t v ≡ true) ↔ (get_actual_result h a t ≡ t)
unfolding determine_result get_actual_result
determine-actual h a t v (inl e) =
    rw e ((λ w. ground arith), (λ w. ground (arith, win_home-ne-away, win_home-ne-draw)))
determine-actual h a t v (inr (inl e)) =
    rw e ((λ w. ground arith), (λ w. ground (arith, win_home-ne-away, win_away-ne-draw)))
determine-actual h a t v (inr (inr (inl e))) =
    rw e ((λ w. ground arith), (λ w. ground (arith, win_home-ne-draw, win_away-ne-draw)))
determine-actual h a t v (inr (inr (inr e))) = absurd e

-- The result type that a value of the older format stands for.
abbrev meaning : List (String × String)
meaning = ("home", "WIN_HOME") ∷ ("away", "WIN_AWAY") ∷ ("draw", "DRAW") ∷ []

-- A prediction of the older format `match_winner` wins exactly when its value is home, away or draw
-- and the recorded result is the one that the value stands for.
determine-match_winner :
    (h a : ℕ) (v : String)
    → (determine_result h a "match_winner" v ≡ true)
      ↔ Among (v, get_actual_result h a "match_winner") meaning
unfolding determine_result get_actual_result
determine-match_winner h a v = (
  (λ w. ground (arith, eq_iff v "home", eq_iff v "away", eq_iff v "draw")),
  (λ w. ground (
    arith,
    eq_iff v "home",
    eq_iff v "away",
    eq_iff v "draw",
    win_home-ne-away,
    win_home-ne-draw,
    win_away-ne-draw,
    eq_iff "home" "away",
    eq_iff "home" "draw",
    eq_iff "away" "draw",
  )),
)
