-- ===== src/Matches/LiveSync/Written.antt =====
-- What the live sync writes, and what it does not.
use chiliztv_com.Base.{
  arith, ◌∙◌, or_else, ℕ, Bool, Option, none, some, List, [], ◌∷◌, map, ◌≡◌, refl, ap, sym, inl,
  inr, ◌==◌, ==_iff, Bool-cases,
}
use chiliztv_com.Matches.Entity.{
  update_status, set_elapsed, update_score, both, set_halftime_score, Match,
}
use chiliztv_com.Matches.LiveSync.{
  with_score, SyncLiveMatchesResult, sync_all, apply_snapshot, sync_live_matches, sync_found,
  RawMatch, rebuilt, refreshed, write_row, store_row, update_live_snapshot, snapshot_changed,
}

-- A match's number with its two stored scores.
abbrev pub stored_score : Match → ℕ × Option ℕ × Option ℕ
stored_score m = (m.api_football_id, m.home_score, m.away_score)

store_row-scores :
    (m : Match) (rows : List Match)
    → m.home_score ≡ none
    → map stored_score (store_row m rows) ≡ map stored_score rows
unfolding store_row write_row
store_row-scores m [] h = refl
store_row-scores m (row ∷ rows) h = elim (Bool-cases (row.api_football_id == m.api_football_id)) [
  | inl e ↦
      rw (e, h, sym ((==_iff row.api_football_id m.api_football_id).0 e))
        (ap (λ l. stored_score row ∷ l) (store_row-scores m rows h))
  | inr e ↦ rw e (ap (λ l. stored_score row ∷ l) (store_row-scores m rows h))
]

snapshot-unscored :
    (now : ℕ) (existing : Match) (raw : RawMatch) (m : Match) (newly : Bool)
    → update_live_snapshot now existing raw ≡ (some m, newly)
    → m ≡ rebuilt now (refreshed now existing raw) raw
unfolding update_live_snapshot
snapshot-unscored now existing raw m newly e = elim (Bool-cases (snapshot_changed existing raw)) [
  | inl c ↦ cc (rw c at e)
  | inr c ↦ absurd (cc (rw c at e))
]

apply-scores :
    (writes : Match → Bool) (existing : Match) (raw : RawMatch) (p : Option Match × Bool)
    (state : List Match × SyncLiveMatchesResult)
    → ((m : Match) → p.0 ≡ some m → m.home_score ≡ none)
    → map stored_score (apply_snapshot writes existing raw p state).0 ≡ map stored_score state.0
unfolding apply_snapshot
apply-scores writes existing raw (none, newly) (rows, r) h = refl
apply-scores writes existing raw (some m, newly) (rows, r) h = elim (Bool-cases (writes m)) [
  | inl w ↦ rw w (store_row-scores m rows (h m refl))
  | inr w ↦ rw w refl
]

unscored :
    (now : ℕ) (existing : Match) (raw : RawMatch) (m : Match)
    → (update_live_snapshot now existing raw).0 ≡ some m
    → m.home_score ≡ none
unfolding rebuilt
unscored now existing raw m e =
    ap (λ (x : Match). x.home_score)
      (snapshot-unscored now existing raw m (update_live_snapshot now existing raw).1
        (ap (λ o. (o, (update_live_snapshot now existing raw).1)) e))

found-scores :
    (writes : Match → Bool) (now : ℕ) (found : Option Match) (raw : RawMatch)
    (state : List Match × SyncLiveMatchesResult)
    → map stored_score (sync_found writes now found raw state).0 ≡ map stored_score state.0
unfolding sync_found
found-scores writes now none raw state = refl
found-scores writes now (some existing) raw state =
    apply-scores writes existing raw (update_live_snapshot now existing raw) state
      (unscored now existing raw)

all-scores :
    (writes : Match → Bool) (now : ℕ) (raws : List RawMatch)
    (state : List Match × SyncLiveMatchesResult)
    → map stored_score (sync_all writes now raws state).0 ≡ map stored_score state.0
unfolding sync_all
all-scores writes now [] state = refl
all-scores writes now (raw ∷ raws) state =
    all-scores writes now raws _ ∙ found-scores writes now _ raw state

-- Whatever the live payload says, and whichever writes fail, a run of the live sync leaves the stored
-- score of every match as it was.
pub sync_live_matches-scores :
    (writes : Match → Bool) (now : ℕ) (live : List RawMatch) (rows : List Match)
    → map stored_score (sync_live_matches writes now live rows).0 ≡ map stored_score rows
unfolding sync_live_matches
sync_live_matches-scores writes now live rows = all-scores writes now live _

halftime_kept :
    (now : ℕ) (h a : Option ℕ) (m : Match)
    → ((set_halftime_score now h a m).0.status ≡ m.status)
      × ((set_halftime_score now h a m).0.elapsed ≡ m.elapsed)
      × (both
            (set_halftime_score now h a m).0.ht_home_score
            (set_halftime_score now h a m).0.ht_away_score
          ≡ or_else (both h a) (both m.ht_home_score m.ht_away_score))
unfolding set_halftime_score
halftime_kept now h a m = ground arith

elapsed_kept :
    (now : ℕ) (e : Option ℕ) (m : Match)
    → ((set_elapsed now e m).status ≡ m.status)
      × ((set_elapsed now e m).elapsed ≡ or_else e m.elapsed)
      × (both (set_elapsed now e m).ht_home_score (set_elapsed now e m).ht_away_score
          ≡ both m.ht_home_score m.ht_away_score)
unfolding set_elapsed
elapsed_kept now none m = (refl, refl, refl)
elapsed_kept now (some e) m = (refl, refl, refl)

score_kept :
    (now : ℕ) (s : Option (ℕ × ℕ)) (m : Match)
    → ((with_score now s m).status ≡ m.status)
      × ((with_score now s m).elapsed ≡ m.elapsed)
      × (both (with_score now s m).ht_home_score (with_score now s m).ht_away_score
          ≡ both m.ht_home_score m.ht_away_score)
unfolding update_score
score_kept now none m = (refl, refl, refl)
score_kept now (some (h, a)) m = (refl, refl, refl)

refreshed_lem :
    (now : ℕ) (existing : Match) (raw : RawMatch)
    → ((refreshed now existing raw).status ≡ raw.status)
      × ((refreshed now existing raw).elapsed ≡ or_else raw.elapsed existing.elapsed)
      × (both (refreshed now existing raw).ht_home_score (refreshed now existing raw).ht_away_score
          ≡ or_else
              (both raw.ht_home_score raw.ht_away_score)
              (both existing.ht_home_score existing.ht_away_score))
unfolding refreshed update_status
refreshed_lem now existing raw =
    let first = update_status now raw.status existing in
    let scored = with_score now (both raw.home_score raw.away_score) first in
    let timed = set_elapsed now raw.elapsed scored in
    let (s1, e1, h1) = score_kept now (both raw.home_score raw.away_score) first in
    let (s2, e2, h2) = elapsed_kept now raw.elapsed scored in
    let (s3, e3, h3) = halftime_kept now raw.ht_home_score raw.ht_away_score timed in
    (
      s3 ∙ s2 ∙ s1,
      e3 ∙ e2 ∙ ap (or_else raw.elapsed) e1,
      h3 ∙ ap (or_else (both raw.ht_home_score raw.ht_away_score)) (h2 ∙ h1),
    )

-- What a live payload writes: its status, its minute if it has one and else the one before, and its
-- half time score if both halves of it are given and else the one before.
update_live_snapshot_lem :
    (now : ℕ) (existing : Match) (raw : RawMatch) (m : Match) (newly : Bool)
    → update_live_snapshot now existing raw ≡ (some m, newly)
    → (m.status ≡ raw.status)
      × (m.elapsed ≡ or_else raw.elapsed existing.elapsed)
      × (both m.ht_home_score m.ht_away_score
          ≡ or_else
              (both raw.ht_home_score raw.ht_away_score)
              (both existing.ht_home_score existing.ht_away_score))
unfolding rebuilt
update_live_snapshot_lem now existing raw m newly e =
    rw (snapshot-unscored now existing raw m newly e) (refreshed_lem now existing raw)
