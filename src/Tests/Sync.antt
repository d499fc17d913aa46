-- ===== src/Tests/Sync.antt =====
-- The live sync at concrete inputs.
use chiliztv_com.Base.{false, true, none, some, [], ◌∷◌, map, ◌≡◌, refl}
use chiliztv_com.Matches.Entity.{Match}
use chiliztv_com.Matches.LiveSync.{
  apply_snapshot, sync_found, sync_all, RawMatch, update_live_snapshot, rebuilt, refreshed,
  sync_live_matches, snapshot_changed, score_changed, differs, halftime_newly_known,
  halftime_changed,
}
use chiliztv_com.Matches.LiveSync.Written.{stored_score, sync_live_matches-scores}
use chiliztv_com.Tests.Matches.{full_time}

abbrev kicked_off : Match
kicked_off = record full_time {
  api_football_id = 9;
  status = "1H";
  home_score = none;
  away_score = none;
  elapsed = some 3;
  ht_home_score = none;
  ht_away_score = none;
}

-- A goal at the 20th minute.
abbrev raw : RawMatch
raw = record {
  api_football_id = 9;
  home_team_id = 1;
  home_team_name = "Lens";
  home_team_logo = "l.png";
  away_team_id = 2;
  away_team_name = "Nice";
  away_team_logo = "n.png";
  league_id = 61;
  league_name = "Ligue 1";
  league_logo = "l1.png";
  league_country = "France";
  season = 2025;
  status = "1H";
  match_date = 1000;
  home_score = some 1;
  away_score = some 0;
  elapsed = some 20;
  ht_home_score = none;
  ht_away_score = none;
}

-- The run counts an update, and the stored score is still missing.
counted : (sync_live_matches (λ m. true) 50 (raw ∷ []) (kicked_off ∷ [])).1.matches_updated ≡ 1
unfolding sync_live_matches sync_all sync_found apply_snapshot update_live_snapshot snapshot_changed
    score_changed differs halftime_newly_known halftime_changed
counted = refl

sync_live_matches-scores_example :
    map stored_score (sync_live_matches (λ m. true) 50 (raw ∷ []) (kicked_off ∷ [])).0
    ≡ (9, none, none) ∷ []
sync_live_matches-scores_example =
    sync_live_matches-scores (λ m. true) 50 (raw ∷ []) (kicked_off ∷ [])

abbrev written : Match
written = rebuilt 50 (refreshed 50 kicked_off raw) raw

kicked_off-changes : update_live_snapshot 50 kicked_off raw ≡ (some written, false)
unfolding update_live_snapshot snapshot_changed score_changed differs halftime_newly_known
    halftime_changed
kicked_off-changes = refl
