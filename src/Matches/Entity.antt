-- ===== src/Matches/Entity.antt =====
-- packages/domain/src/matches/entities/Match.ts: the match aggregate. A method that writes `props`
-- returns the new record; `new Date()` is the argument `now`, in milliseconds. A field that may be
-- undefined or null is an `Option`.
pub mod History
pub mod Scores
use chiliztv_com.Base.{
  ℕ, String, Bool, true, false, Option, none, some, List, [], ◌∷◌, ◌&&◌, ◌||◌, ◌==◌, str_eq, has,
  ltb, or_else, if◌then◌else◌,
}

pub record Match : Type 0 where
  pub id : ℕ
  pub api_football_id : ℕ
  pub home_team_id : ℕ
  pub home_team_name : String
  pub home_team_logo : Option String
  pub away_team_id : ℕ
  pub away_team_name : String
  pub away_team_logo : Option String
  pub league_id : ℕ
  pub league_name : String
  pub league_logo : Option String
  pub league_country : Option String
  pub season : ℕ
  pub status : String
  pub match_date : ℕ
  pub venue : Option String
  pub home_score : Option ℕ
  pub away_score : Option ℕ
  pub home_form : Option String
  pub away_form : Option String
  pub elapsed : Option ℕ
  pub ht_home_score : Option ℕ
  pub ht_away_score : Option ℕ
  pub aet_home_score : Option ℕ
  pub aet_away_score : Option ℕ
  pub pen_home_score : Option ℕ
  pub pen_away_score : Option ℕ
  pub knockout_flag : Option Bool
  pub betting_contract_address : Option String
  pub created_at : ℕ
  pub updated_at : ℕ

-- `create` stamps both dates; the caller's dates are not read.
unfoldable pub create : ℕ → Match → Match
create now props = record props { created_at = now; updated_at = now }

abbrev pub playing_statuses : List String
playing_statuses = "1H" ∷ "2H" ∷ "HT" ∷ []

unfoldable pub is_live : Match → Bool
is_live m = has playing_statuses m.status

unfoldable is_upcoming : ℕ → Match → Bool
is_upcoming now m = str_eq m.status "NS" && ltb now m.match_date

unfoldable pub is_finished : Match → Bool
is_finished m = str_eq m.status "FT" || str_eq m.status "AET" || str_eq m.status "PEN"

unfoldable went_to_extra_time : Match → Bool
went_to_extra_time m = str_eq m.status "AET" || str_eq m.status "PEN"

unfoldable went_to_penalties : Match → Bool
went_to_penalties m = str_eq m.status "PEN"

-- A pair of goals, known only when both are.
abbrev pub both : Option ℕ → Option ℕ → Option (ℕ × ℕ)
both (some h) (some a) = some (h, a)
both _ _ = none

unfoldable pub get_final_score : Match → Option (ℕ × ℕ)
unfolding went_to_extra_time
get_final_score m =
    let ninety = both m.home_score m.away_score in
    if went_to_extra_time m
    then elim (both m.aet_home_score m.aet_away_score) [ some aet ↦ some aet | none ↦ ninety ]
    else ninety

pub data Side : Type 0 where
  home away : Side

-- The comparison of a shootout; a tie names no side.
abbrev pub shootout_winner : Option (ℕ × ℕ) → Option Side
shootout_winner none = none
shootout_winner (some (h, a)) = if ltb a h then some home else if ltb h a then some away else none

unfoldable pub get_penalty_winner : Match → Option Side
unfolding went_to_penalties
get_penalty_winner m =
    if went_to_penalties m then shootout_winner (both m.pen_home_score m.pen_away_score) else none

abbrev pub is_true : Option Bool → Bool
is_true (some true) = true
is_true _ = false

unfoldable pub is_knockout : Match → Bool
is_knockout m = is_true m.knockout_flag

unfoldable pub update_score : ℕ → ℕ → ℕ → Match → Match
update_score now h a m = record m { home_score = some h; away_score = some a; updated_at = now }

unfoldable pub update_status : ℕ → String → Match → Match
update_status now s m = record m { status = s; updated_at = now }

unfoldable pub set_elapsed : ℕ → Option ℕ → Match → Match
set_elapsed now none m = m
set_elapsed now (some e) m = record m { elapsed = some e; updated_at = now }

-- `stored === given`, where the stored number may be absent.
abbrev pub holds : Option ℕ → ℕ → Bool
holds none n = false
holds (some k) n = k == n

unfoldable pub set_extratime_score : ℕ → Option ℕ → Option ℕ → Match → Match × Bool
set_extratime_score now (some h) (some a) m =
    if holds m.aet_home_score h && holds m.aet_away_score a
    then (m, false)
    else (record m { aet_home_score = some h; aet_away_score = some a; updated_at = now }, true)
set_extratime_score now _ _ m = (m, false)

unfoldable pub set_penalty_score : ℕ → Option ℕ → Option ℕ → Match → Match × Bool
set_penalty_score now (some h) (some a) m =
    if holds m.pen_home_score h && holds m.pen_away_score a
    then (m, false)
    else (record m { pen_home_score = some h; pen_away_score = some a; updated_at = now }, true)
set_penalty_score now _ _ m = (m, false)

unfoldable pub set_halftime_score : ℕ → Option ℕ → Option ℕ → Match → Match × Bool
set_halftime_score now (some h) (some a) m =
    if holds m.ht_home_score h && holds m.ht_away_score a
    then (m, false)
    else (record m { ht_home_score = some h; ht_away_score = some a; updated_at = now }, true)
set_halftime_score now _ _ m = (m, false)
