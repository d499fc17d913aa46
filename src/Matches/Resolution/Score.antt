-- ===== src/Matches/Resolution/Score.antt =====
-- The score that a match is resolved with, by its fields.
use chiliztv_com.Base.{ℕ, Option, none, some, ◌≡◌, ◌↔◌, ◌⊎◌, ◌<◌, inl, inr, refl, sym, ◌∙◌, arith}
use chiliztv_com.Matches.Entity.{Match, Side, home, away, get_penalty_winner, both}
use chiliztv_com.Matches.Entity.Scores.{get_penalty_winner_iff}
use chiliztv_com.Matches.Resolution.{ScoreInput, score_with, pen_winner_of}

-- The match went to penalties, both scores of the shootout are known, and the first is the greater.
abbrev pub WonBy : Match → Option ℕ → Option ℕ → Type 0
WonBy m own other = (m.status ≡ "PEN") × ((x y : ℕ) × (own ≡ some x) × (other ≡ some y) × (y < x))

-- The winner of the shootout: 0 for the home side, 1 for the away side, none where there is none.
abbrev pub IsPenWinner : Match → Option ℕ → Type 0
IsPenWinner m w =
    ((w ≡ some 0) × WonBy m m.pen_home_score m.pen_away_score)
    ⊎ (((w ≡ some 1) × WonBy m m.pen_away_score m.pen_home_score)
        ⊎ ((w ≡ none)
            × ¬ WonBy m m.pen_home_score m.pen_away_score
            × ¬ WonBy m m.pen_away_score m.pen_home_score))

-- The goals at the end, at the half time and after the extra time, and the winner of the shootout.
abbrev pub IsScoreOf : Match → ℕ → ℕ → ScoreInput → Type 0
IsScoreOf m h a s =
    (s.home_goals ≡ h)
    × (s.away_goals ≡ a)
    × (s.ht_home_goals ≡ m.ht_home_score)
    × (s.ht_away_goals ≡ m.ht_away_score)
    × (s.aet_home_goals ≡ m.aet_home_score)
    × (s.aet_away_goals ≡ m.aet_away_score)
    × IsPenWinner m s.pen_winner

both_iff : (p q : Option ℕ) (x y : ℕ) → (both p q ≡ some (x, y)) ↔ ((p ≡ some x) × (q ≡ some y))
both_iff none q x y = ((λ e. absurd (ground arith)), (λ (e, _). absurd (ground arith)))
both_iff (some p) none x y = ((λ e. absurd (ground arith)), (λ (_, e). absurd (ground arith)))
both_iff (some p) (some q) x y = ((λ e. ground arith), (λ (e, f). ground arith))

home_won :
    (m : Match) → (get_penalty_winner m ≡ some home) ↔ WonBy m m.pen_home_score m.pen_away_score
home_won m =
    let won = (get_penalty_winner_iff m).0 in
    let known = both_iff m.pen_home_score m.pen_away_score in
    (
      (λ e.
          let (s, (h, a, b, l)) = won.0 e in let (p, q) = (known h a).0 b in (s, (h, a, p, q, l))),
      (λ (s, (h, a, p, q, l)). won.1 (s, (h, a, (known h a).1 (p, q), l))),
    )

away_won :
    (m : Match) → (get_penalty_winner m ≡ some away) ↔ WonBy m m.pen_away_score m.pen_home_score
away_won m =
    let won = (get_penalty_winner_iff m).1 in
    let known = both_iff m.pen_home_score m.pen_away_score in
    (
      (λ e.
          let (s, (h, a, b, l)) = won.0 e in let (p, q) = (known h a).0 b in (s, (a, h, q, p, l))),
      (λ (s, (a, h, q, p, l)). won.1 (s, (h, a, (known h a).1 (p, q), l))),
    )

winner_of :
    (m : Match) (found : Option Side)
    → get_penalty_winner m ≡ found
    → IsPenWinner m (pen_winner_of found)
winner_of m none e = inr (
    inr (
      refl,
      (λ w. let f = (home_won m).1 w in absurd (ground (arith, sym e ∙ f))),
      (λ w. let f = (away_won m).1 w in absurd (ground (arith, sym e ∙ f))),
    ))
winner_of m (some home) e = inl (refl, (home_won m).0 e)
winner_of m (some away) e = inr (inl (refl, (away_won m).0 e))

won_once :
    (m : Match)
    → WonBy m m.pen_home_score m.pen_away_score
    → WonBy m m.pen_away_score m.pen_home_score
    → ⊥
won_once m u v =
    let e = (home_won m).1 u in let f = (away_won m).1 v in absurd (ground (arith, sym e ∙ f))

winner_unique : (m : Match) (v w : Option ℕ) → IsPenWinner m v → IsPenWinner m w → v ≡ w
winner_unique m v w (inl (e, p)) (inl (f, q)) = e ∙ sym f
winner_unique m v w (inl (e, p)) (inr (inl (f, q))) = absurd (won_once m p q)
winner_unique m v w (inl (e, p)) (inr (inr (f, q, r))) = absurd (q p)
winner_unique m v w (inr (inl (e, p))) (inl (f, q)) = absurd (won_once m q p)
winner_unique m v w (inr (inl (e, p))) (inr (inl (f, q))) = e ∙ sym f
winner_unique m v w (inr (inl (e, p))) (inr (inr (f, q, r))) = absurd (r p)
winner_unique m v w (inr (inr (e, n, k))) (inl (f, q)) = absurd (n q)
winner_unique m v w (inr (inr (e, n, k))) (inr (inl (f, q))) = absurd (k q)
winner_unique m v w (inr (inr (e, n, k))) (inr (inr (f, q, r))) = e ∙ sym f

-- A score is the one that a match is resolved with exactly when each of its fields is that of the match.
pub score_with_iff :
    (m : Match) (h a : ℕ) (s : ScoreInput) → (s ≡ score_with m h a) ↔ IsScoreOf m h a s
score_with_iff m h a s = (
  (λ e. rw e (refl, refl, refl, refl, refl, refl, winner_of m (get_penalty_winner m) refl)),
  (λ (p, q, r, t, u, v, w).
      let same = winner_unique m _ _ w (winner_of m (get_penalty_winner m) refl) in
      cc (p, q, r, t, u, v, same)),
)
