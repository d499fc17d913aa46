-- ===== src/Matches/Entity/History.antt =====
-- The monotone setters of the match aggregate over any history of calls: what the upstream feed
-- clears for a while is kept, and what is stored is the latest complete report.
use chiliztv_com.Base.{
  ℕ, String, Option, none, some, List, [], ◌∷◌, ◌≡◌, refl, ap, ◌∙◌, arith, or_else,
}
use chiliztv_com.Matches.Entity.{
  Match, both, update_score, update_status, set_elapsed, set_extratime_score, set_penalty_score,
  set_halftime_score,
}

-- A call of one of the methods that write.
pub data Update : Type 0 where
  score : ℕ → ℕ → Update
  status : String → Update
  elapsed : Option ℕ → Update
  extratime penalty halftime : Option ℕ → Option ℕ → Update

-- The call, made at a moment.
unfoldable apply : ℕ → Update → Match → Match
unfolding update_score update_status set_elapsed set_extratime_score set_penalty_score
    set_halftime_score
apply now (score h a) m = update_score now h a m
apply now (status s) m = update_status now s m
apply now (elapsed e) m = set_elapsed now e m
apply now (extratime h a) m = (set_extratime_score now h a m).0
apply now (penalty h a) m = (set_penalty_score now h a m).0
apply now (halftime h a) m = (set_halftime_score now h a m).0

-- A history, first call first.
unfoldable pub run : List (ℕ × Update) → Match → Match
unfolding apply
run [] m = m
run ((now, u) ∷ us) m = run us (apply now u m)

-- The four facts that the setters guard.
pub record Known : Type 0 where
  pub elapsed : Option ℕ
  extratime : Option (ℕ × ℕ)
  pub penalty : Option (ℕ × ℕ)
  pub halftime : Option (ℕ × ℕ)

abbrev pub known : Match → Known
known m = record {
  elapsed = m.elapsed;
  extratime = both m.aet_home_score m.aet_away_score;
  penalty = both m.pen_home_score m.pen_away_score;
  halftime = both m.ht_home_score m.ht_away_score;
}

-- What a call reports, on its own: a pair counts only when both sides are numbers.
abbrev learn : Update → Known → Known
learn (score h a) k = k
learn (status s) k = k
learn (elapsed e) k = record k { elapsed = or_else e k.elapsed }
learn (extratime h a) k = record k { extratime = or_else (both h a) k.extratime }
learn (penalty h a) k = record k { penalty = or_else (both h a) k.penalty }
learn (halftime h a) k = record k { halftime = or_else (both h a) k.halftime }

abbrev pub latest : List (ℕ × Update) → Known → Known
latest [] k = k
latest ((now, u) ∷ us) k = latest us (learn u k)

known-apply : (now : ℕ) (u : Update) (m : Match) → known (apply now u m) ≡ learn u (known m)
unfolding apply
known-apply now (score h a) m = refl
known-apply now (status s) m = refl
known-apply now (elapsed none) m = refl
known-apply now (elapsed (some e)) m = refl
known-apply now (extratime (some h) (some a)) m = ground arith
known-apply now (extratime none a) m = refl
known-apply now (extratime (some h) none) m = refl
known-apply now (penalty (some h) (some a)) m = ground arith
known-apply now (penalty none a) m = refl
known-apply now (penalty (some h) none) m = refl
known-apply now (halftime (some h) (some a)) m = ground arith
known-apply now (halftime none a) m = refl
known-apply now (halftime (some h) none) m = refl

-- After any history of calls the aggregate holds exactly the latest complete reports: the elapsed
-- minute, and the extra-time, shootout and halftime pairs, each the last one of which both sides
-- were numbers, or else what was there before.
pub known-run : (us : List (ℕ × Update)) (m : Match) → known (run us m) ≡ latest us (known m)
unfolding run
known-run [] m = refl
known-run ((now, u) ∷ us) m = known-run us (apply now u m) ∙ ap (latest us) (known-apply now u m)
