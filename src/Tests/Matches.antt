-- ===== src/Tests/Matches.antt =====
-- packages/domain/src/matches at concrete inputs.
use chiliztv_com.Base.{ℕ, ◌+◌, ◌*◌, ◌≤◌, true, none, some, List, [], ◌∷◌, ◌≡◌, refl, ◌↔◌, Among}
use chiliztv_com.Matches.Status.{
  classify_status, BettableMatch, BettableOptions, bettable, refused, is_bettable, kickoff_buffer,
  upcoming_statuses,
}
use chiliztv_com.Matches.Status.Laws.{is_bettable_iff}
use chiliztv_com.Matches.Entity.{Match, get_penalty_winner, home, get_final_score}
use chiliztv_com.Matches.Entity.History.{Update, run}

abbrev derby : BettableMatch
derby = record { status = "NS"; kickoff_at = some 1000000 }

abbrev two_minutes : BettableOptions
two_minutes = record { kickoff_buffer_sec = 120 }

is_bettable_iff_example : (is_bettable derby 500000 two_minutes ≡ bettable) ↔ (
    Among "NS" upcoming_statuses × ((k : ℕ) × (some 1000000 ≡ some k) × (500000 + 120 * 1000 ≤ k)))
is_bettable_iff_example = is_bettable_iff derby 500000 two_minutes

derby-bettable : is_bettable derby 500000 two_minutes ≡ bettable
unfolding is_bettable classify_status
derby-bettable = refl

derby-too_late : is_bettable derby 880001 two_minutes ≡ refused kickoff_buffer
unfolding is_bettable classify_status
derby-too_late = refl

abbrev pub final : Match
final = record {
  id = 7;
  api_football_id = 7;
  home_team_id = 1;
  home_team_name = "Lens";
  home_team_logo = none;
  away_team_id = 2;
  away_team_name = "Nice";
  away_team_logo = none;
  league_id = 66;
  league_name = "Coupe de France";
  league_logo = none;
  league_country = none;
  season = 2026;
  status = "PEN";
  match_date = 1000000;
  venue = none;
  home_score = some 1;
  away_score = some 1;
  home_form = none;
  away_form = none;
  elapsed = some 120;
  ht_home_score = none;
  ht_away_score = none;
  aet_home_score = some 2;
  aet_away_score = some 2;
  pen_home_score = some 5;
  pen_away_score = some 4;
  knockout_flag = some true;
  betting_contract_address = none;
  created_at = 0;
  updated_at = 0;
}

final-runs : (get_final_score final ≡ some (2, 2)) × (get_penalty_winner final ≡ some home)
unfolding get_final_score get_penalty_winner
final-runs = (refl, refl)

abbrev feed : List (ℕ × Update)
feed =
    (5, Update.halftime (some 1) (some 0))
    ∷ (6, Update.halftime none none)
    ∷ (7, Update.elapsed none)
    ∷ (8, Update.penalty (some 6) (some 5))
    ∷ []

feed-runs : ((run feed final).ht_home_score ≡ some 1) × ((run feed final).pen_home_score ≡ some 6)
unfolding run
feed-runs = (refl, refl)

-- A match that ended two to one after ninety minutes.
abbrev pub full_time : Match
full_time = record final { status = "FT"; home_score = some 2; away_score = some 1 }
