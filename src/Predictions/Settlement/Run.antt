-- ===== src/Predictions/Settlement/Run.antt =====
-- The settlement loop: exactly which predictions are written, and how many are counted.
use chiliztv_com.Base.{
  if◌then◌else◌, ℕ, suc, true, Option, none, some, List, [], ◌∷◌, ◌≡◌, refl, sym, ◌↔◌, ◌⊎◌, inl,
  inr, Among, Result, ok, throws, arith, eq_iff, length, Option-cases, ap, ◌∙◌,
}
use chiliztv_com.Matches.Entity.{Match, both}
use chiliztv_com.Predictions.Values.{ValidationError}
use chiliztv_com.Predictions.Entity.{pending, in_progress, won, lost, Prediction, settle}
use chiliztv_com.Predictions.Settlement.{
  Ports, determine_result, get_actual_result, looked_up, store, settle_one, counted, execute,
}

-- What a lookup that yields a score has found.
looked_up_inv :
    {F : Type 0} (r : Result F (Option Match)) (h a : ℕ)
    → looked_up r ≡ some (h, a)
    → (m : Match) × (r ≡ ok (some m))
      × (m.status ≡ "FT")
      × (both m.home_score m.away_score ≡ some (h, a))
looked_up_inv (ok none) h a e = cc
looked_up_inv (ok (some m)) h a e =
    (m, refl, ground (arith, eq_iff m.status "FT"), ground (arith, eq_iff m.status "FT"))
looked_up_inv (throws f) h a e = cc

looked_up_of :
    {F : Type 0} (r : Result F (Option Match)) (m : Match) (h a : ℕ)
    → r ≡ ok (some m)
    → m.status ≡ "FT"
    → both m.home_score m.away_score ≡ some (h, a)
    → looked_up r ≡ some (h, a)
looked_up_of r m h a e s b = rw e (ground (arith, eq_iff m.status "FT"))

-- The prediction that the score `h` to `a` makes of `p`.
abbrev with_outcome : ℕ × ℕ → ℕ → ℕ → Prediction → Prediction
with_outcome (now, later) h a p = record p {
  actual_result = some (get_actual_result h a p.prediction_type);
  status = if determine_result h a p.prediction_type p.prediction_value then won else lost;
  settled_at = some now;
  updated_at = later;
}

module _ (ports : Ports) where
  -- `p` is settled as `q`: its match is found at FT with the score `h` to `a`, `p` is open, the write
  -- succeeds, and `q` carries the outcome and the result of that score.
  pub record SettledAs (p q : Prediction) : Type 0 where
    pub match : Match
    pub h : ℕ
    pub a : ℕ
    pub found : ports.find_match p.match_id ≡ ok (some match)
    pub at_full_time : match.status ≡ "FT"
    pub score : both match.home_score match.away_score ≡ some (h, a)
    pub open_before : (p.status ≡ pending) ⊎ (p.status ≡ in_progress)
    pub written : ports.write q ≡ true
    pub outcome : q ≡ with_outcome (ports.clock p) h a p

  abbrev settled : ℕ → ℕ → Prediction → Result ValidationError Prediction
  settled h a p =
      settle (ports.clock p).0 (ports.clock p).1 (get_actual_result h a p.prediction_type)
        (determine_result h a p.prediction_type p.prediction_value) p

  store-settled :
      (h a : ℕ) (p q : Prediction)
      → (store ports (settled h a p) ≡ some q) ↔ (
          ((p.status ≡ pending) ⊎ (p.status ≡ in_progress))
          × (ports.write q ≡ true)
          × (q ≡ with_outcome (ports.clock p) h a p))
  unfolding settle store
  store-settled h a p q = ((λ e. ground arith), (λ (o, w, e). ground arith))

  settle_one-some :
      (p q : Prediction) (h a : ℕ)
      → looked_up (ports.find_match p.match_id) ≡ some (h, a)
      → settle_one ports p ≡ store ports (settled h a p)
  unfolding settle_one
  settle_one-some p q h a e = rw (e, settle_one)

  settle_one-none :
      (p : Prediction) → looked_up (ports.find_match p.match_id) ≡ none → settle_one ports p ≡ none
  unfolding settle_one
  settle_one-none p e = rw (e, settle_one)

  settle_one_iff : (p q : Prediction) → (settle_one ports p ≡ some q) ↔ SettledAs p q
  settle_one_iff p q = (to, from)
    where
      to : settle_one ports p ≡ some q → SettledAs p q
      to e = elim (Option-cases (looked_up (ports.find_match p.match_id))) [
        | inl missing ↦ cc (settle_one-none p missing)
        | inr ((h, a), known) ↦
            let (m, found, ft, score) = looked_up_inv _ h a known in
            let (o, w, q_is) =
              (store-settled h a p q).0 (sym (settle_one-some p q h a known) ∙ e) in
            record {
              match = m;
              h = h;
              a = a;
              found = found;
              at_full_time = ft;
              score = score;
              open_before = o;
              written = w;
              outcome = q_is;
            }
      ]

      from : SettledAs p q → settle_one ports p ≡ some q
      from s =
          settle_one-some p q s.h s.a
            (looked_up_of _ s.match s.h s.a s.found s.at_full_time s.score)
          ∙ (store-settled s.h s.a p q).1 (s.open_before, s.written, s.outcome)

  counted-length :
      (o : Option Prediction) (r : ℕ × List Prediction)
      → r.0 ≡ length r.1
      → (counted ports o r).0 ≡ length (counted ports o r).1
  counted-length none r e = e
  counted-length (some q) r e = ap suc e

  execute-length : (ps : List Prediction) → (execute ports ps).0 ≡ length (execute ports ps).1
  unfolding execute
  execute-length [] = refl
  execute-length (p ∷ ps) =
      counted-length (settle_one ports p) (execute ports ps) (execute-length ps)

  Among-counted :
      (o : Option Prediction) (r : ℕ × List Prediction) (q : Prediction)
      → Among q (counted ports o r).1 ↔ ((o ≡ some q) ⊎ Among q r.1)
  Among-counted none r q = ground arith
  Among-counted (some x) r q = ground arith

  execute-Among :
      (ps : List Prediction) (q : Prediction)
      → Among q (execute ports ps).1 ↔ ((p : Prediction) × Among p ps × SettledAs p q)
  unfolding execute
  execute-Among [] q = ((λ m. absurd m), (λ (p, m, s). absurd m))
  execute-Among (p ∷ ps) q = (to (execute-Among ps q), from (execute-Among ps q))
    where
      here_or_later :
          Among q (counted ports (settle_one ports p) (execute ports ps)).1
          ↔ ((settle_one ports p ≡ some q) ⊎ Among q (execute ports ps).1)
      here_or_later = Among-counted (settle_one ports p) (execute ports ps) q

      to :
          (Among q (execute ports ps).1 ↔ ((x : Prediction) × Among x ps × SettledAs x q))
          → Among q (execute ports (p ∷ ps)).1
          → (x : Prediction) × Among x (p ∷ ps) × SettledAs x q
      to ih m = elim (here_or_later.0 m) [
        | inl e ↦ (p, inl refl, (settle_one_iff p q).0 e)
        | inr later ↦ let (x, listed, s) = ih.0 later in (x, inr listed, s)
      ]

      from :
          (Among q (execute ports ps).1 ↔ ((x : Prediction) × Among x ps × SettledAs x q))
          → ((x : Prediction) × Among x (p ∷ ps) × SettledAs x q)
          → Among q (execute ports (p ∷ ps)).1
      from ih (x, inl e, s) = here_or_later.1 (inl ((settle_one_iff p q).1 (rw e at s)))
      from ih (x, inr listed, s) = here_or_later.1 (inr (ih.1 (x, listed, s)))

  -- The use case returns the number of predictions that it wrote, and it wrote exactly these: the
  -- open ones whose match is found at FT with both scores and whose write succeeds, each with the
  -- outcome and the result that the score gives it.
  pub execute_settles :
      (ps : List Prediction) (q : Prediction)
      → ((execute ports ps).0 ≡ length (execute ports ps).1)
        × (Among q (execute ports ps).1 ↔ ((p : Prediction) × Among p ps × SettledAs p q))
  execute_settles ps q = (execute-length ps, execute-Among ps q)
