-- ===== src/Matches/Entity/Scores.antt =====
-- What the match aggregate says of its own state: which setter calls change it, and how its final
-- score, its shootout winner and its status predicates relate to the status code.
use chiliztv_com.Base.{
  not-Among_of_is_disjoint, str_eq, ◌||◌, ℕ, ◌<◌, String, Bool, true, false, Option, none, some,
  List, [], ◌∷◌, ◌≡◌, refl, ◌↔◌, ◌≢◌, ◌⊎◌, inl, inr, arith, eq_iff, Among, has_iff,
}
use chiliztv_com.Matches.Status.{live, finished, classify_status, finished_statuses, live_statuses}
use chiliztv_com.Matches.Status.Laws.{classify_iff}
use chiliztv_com.Matches.Entity.{
  Match, both, set_extratime_score, set_penalty_score, set_halftime_score, is_live, is_finished,
  playing_statuses, get_penalty_winner, shootout_winner, home, away, get_final_score,
}

-- A setter's result: either the pair is complete and new, the call says so and stamps the moment,
-- or the call says no and nothing at all is written.
abbrev pub Reports : ℕ → Option (ℕ × ℕ) → Option (ℕ × ℕ) → Match → Match × Bool → Type 0
Reports now given before m r =
    ((given ≢ none) × (given ≢ before) × (r.1 ≡ true) × (r.0.updated_at ≡ now))
    ⊎ (((given ≡ none) ⊎ (given ≡ before)) × (r ≡ (m, false)))

set_halftime_score-Reports :
    (now : ℕ) (h a : Option ℕ) (m : Match)
    → Reports now (both h a) (both m.ht_home_score m.ht_away_score) m (set_halftime_score now h a m)
unfolding set_halftime_score
set_halftime_score-Reports now none a m = inr (inl refl, refl)
set_halftime_score-Reports now (some h) none m = inr (inl refl, refl)
set_halftime_score-Reports now (some h) (some a) m = ground arith

set_extratime_score-Reports :
    (now : ℕ) (h a : Option ℕ) (m : Match)
    → Reports now
        (both h a)
        (both m.aet_home_score m.aet_away_score)
        m
        (set_extratime_score now h a m)
unfolding set_extratime_score
set_extratime_score-Reports now none a m = inr (inl refl, refl)
set_extratime_score-Reports now (some h) none m = inr (inl refl, refl)
set_extratime_score-Reports now (some h) (some a) m = ground arith

set_penalty_score-Reports :
    (now : ℕ) (h a : Option ℕ) (m : Match)
    → Reports now
        (both h a)
        (both m.pen_home_score m.pen_away_score)
        m
        (set_penalty_score now h a m)
unfolding set_penalty_score
set_penalty_score-Reports now none a m = inr (inl refl, refl)
set_penalty_score-Reports now (some h) none m = inr (inl refl, refl)
set_penalty_score-Reports now (some h) (some a) m = ground arith

-- Each of the three score setters returns true exactly when both sides are numbers and the pair is
-- not the stored one, and then stamps the moment; otherwise it leaves the whole aggregate as it was.
setters-Reports :
    (now : ℕ) (h a : Option ℕ) (m : Match)
    → Reports now (both h a) (both m.ht_home_score m.ht_away_score) m (set_halftime_score now h a m)
      × Reports now
          (both h a)
          (both m.aet_home_score m.aet_away_score)
          m
          (set_extratime_score now h a m)
      × Reports now
          (both h a)
          (both m.pen_home_score m.pen_away_score)
          m
          (set_penalty_score now h a m)
setters-Reports now h a m = (
  set_halftime_score-Reports now h a m,
  set_extratime_score-Reports now h a m,
  set_penalty_score-Reports now h a m,
)

shootout_winner-home :
    (o : Option (ℕ × ℕ))
    → (shootout_winner o ≡ some home) ↔ ((h a : ℕ) × (o ≡ some (h, a)) × (a < h))
shootout_winner-home none = ((λ e. cc), (λ (h, a, e, lt). cc))
shootout_winner-home (some (h, a)) =
    ((λ e. (h, a, refl, ground arith)), (λ (x, y, e, lt). ground arith))

shootout_winner-away :
    (o : Option (ℕ × ℕ))
    → (shootout_winner o ≡ some away) ↔ ((h a : ℕ) × (o ≡ some (h, a)) × (h < a))
shootout_winner-away none = ((λ e. cc), (λ (h, a, e, lt). cc))
shootout_winner-away (some (h, a)) =
    ((λ e. (h, a, refl, ground arith)), (λ (x, y, e, lt). ground arith))

-- A side is named the winner of the shootout exactly when the status is PEN, both shootout scores
-- are known, and that side has the greater one.
pub get_penalty_winner_iff :
    (m : Match)
    → ((get_penalty_winner m ≡ some home) ↔ (
        (m.status ≡ "PEN")
        × ((h a : ℕ) × (both m.pen_home_score m.pen_away_score ≡ some (h, a)) × (a < h))))
      × ((get_penalty_winner m ≡ some away) ↔ (
          (m.status ≡ "PEN")
          × ((h a : ℕ) × (both m.pen_home_score m.pen_away_score ≡ some (h, a)) × (h < a))))
unfolding get_penalty_winner
get_penalty_winner_iff m =
    let pair = both m.pen_home_score m.pen_away_score in
    (
      (
        (λ e.
            (ground (arith, eq_iff m.status "PEN"), (shootout_winner-home pair).0 (ground arith))),
        (λ (s, won). ground (arith, eq_iff m.status "PEN", (shootout_winner-home pair).1 won)),
      ),
      (
        (λ e.
            (ground (arith, eq_iff m.status "PEN"), (shootout_winner-away pair).0 (ground arith))),
        (λ (s, won). ground (arith, eq_iff m.status "PEN", (shootout_winner-away pair).1 won)),
      ),
    )

-- The final score is known exactly when the pair that counts is: the aggregate after extra time for
-- a match at AET or PEN where that is known, and the score at ninety minutes otherwise.
get_final_score_iff :
    (m : Match) (p : ℕ × ℕ)
    → (get_final_score m ≡ some p) ↔ (
        (Among m.status ("AET" ∷ "PEN" ∷ []) × (both m.aet_home_score m.aet_away_score ≡ some p))
        ⊎ (((¬ Among m.status ("AET" ∷ "PEN" ∷ []))
              ⊎ (both m.aet_home_score m.aet_away_score ≡ none))
            × (both m.home_score m.away_score ≡ some p)))
unfolding get_final_score
get_final_score_iff m p =
    let aet = both m.aet_home_score m.aet_away_score in
    let known = has_iff ("AET" ∷ "PEN" ∷ []) m.status in ground (arith, known)

-- The codes that the policy counts as in play, or as finished, and the aggregate does not.
abbrev pub unseen_live : List String
unseen_live = "ET" ∷ "BT" ∷ "P" ∷ "LIVE" ∷ "SUSP" ∷ "INT" ∷ []

abbrev pub unseen_finished : List String
unseen_finished = "AWD" ∷ "WO" ∷ []

abbrev over_statuses : List String
over_statuses = "FT" ∷ "AET" ∷ "PEN" ∷ []

module _ (s : String) where
  live_split : Among s playing_statuses ↔ (Among s live_statuses × ¬ Among s unseen_live)
  live_split = (
    (λ m. (ground arith, not-Among_of_is_disjoint playing_statuses unseen_live s refl m)),
    (λ (m, n). ground arith),
  )

  finished_split : Among s over_statuses ↔ (Among s finished_statuses × ¬ Among s unseen_finished)
  finished_split = (
    (λ m. (ground arith, not-Among_of_is_disjoint over_statuses unseen_finished s refl m)),
    (λ (m, n). ground arith),
  )

  is_over_iff : (str_eq s "FT" || str_eq s "AET" || str_eq s "PEN") ≡ true ↔ Among s over_statuses
  is_over_iff = ground (arith, eq_iff s "FT", eq_iff s "AET", eq_iff s "PEN")

-- The aggregate's own predicates against the policy's classification: a match calls itself live
-- exactly when it is classified so by another code than ET, BT, P, LIVE, SUSP and INT, and finished
-- exactly when it is classified so by another code than AWD and WO.
pub predicates_classify :
    (m : Match)
    → ((is_live m ≡ true) ↔ ((classify_status m.status ≡ live) × ¬ Among m.status unseen_live))
      × ((is_finished m ≡ true)
          ↔ ((classify_status m.status ≡ finished) × ¬ Among m.status unseen_finished))
unfolding is_live is_finished
predicates_classify m =
    let s = m.status in
    let kind_live = classify_iff s live (λ e. cc) in
    let kind_over = classify_iff s finished (λ e. cc) in
    (
      (
        (λ e. (
          kind_live.1 ((live_split s).0 ((has_iff playing_statuses s).0 e)).0,
          ((live_split s).0 ((has_iff playing_statuses s).0 e)).1,
        )),
        (λ (k, n). (has_iff playing_statuses s).1 ((live_split s).1 (kind_live.0 k, n))),
      ),
      (
        (λ e. (
          kind_over.1 ((finished_split s).0 ((is_over_iff s).0 e)).0,
          ((finished_split s).0 ((is_over_iff s).0 e)).1,
        )),
        (λ (k, n). (is_over_iff s).1 ((finished_split s).1 (kind_over.0 k, n))),
      ),
    )
