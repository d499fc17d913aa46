-- ===== src/Matches/LiveSync.antt =====
-- apps/backend/src/application/matches/use-cases/SyncLiveMatchesUseCase.ts: the sync of the live
-- matches, with the writing of a row by SupabaseMatchRepository and the JSON of a match that both read.
-- The table is the list of its rows, each read as the match it holds; a write may fail.
pub mod Written
use chiliztv_com.Base.{
  lower_string, ℕ, suc, ◌+◌, Bool, true, false, not, Option, none, some, List, [], ◌∷◌, ◌++◌, ◌&&◌,
  ◌||◌, ◌==◌, String, str_eq, is_some, find?, update_where, length, if◌then◌else◌,
}
use chiliztv_com.Matches.Entity.{
  Match, both, holds, update_status, update_score, set_elapsed, set_halftime_score,
}

-- What the live payload supplies.
pub record RawMatch : Type 0 where
  pub api_football_id : ℕ
  pub home_team_id : ℕ
  pub home_team_name : String
  pub home_team_logo : String
  pub away_team_id : ℕ
  pub away_team_name : String
  pub away_team_logo : String
  pub league_id : ℕ
  pub league_name : String
  pub league_logo : String
  pub league_country : String
  pub season : ℕ
  pub status : String
  pub match_date : ℕ
  pub home_score : Option ℕ
  pub away_score : Option ℕ
  pub elapsed : Option ℕ
  pub ht_home_score : Option ℕ
  pub ht_away_score : Option ℕ

-- `a !== b` on a number that may be absent.
unfoldable pub differs : Option ℕ → Option ℕ → Bool
differs none none = false
differs (some a) (some b) = not (a == b)
differs _ _ = true

abbrev home_of : Option (ℕ × ℕ) → Option ℕ
home_of none = none
home_of (some (h, a)) = some h

abbrev away_of : Option (ℕ × ℕ) → Option ℕ
away_of none = none
away_of (some (h, a)) = some a

unfoldable pub score_changed : Match → RawMatch → Bool
score_changed existing raw =
    let current = both existing.home_score existing.away_score in
    let new = both raw.home_score raw.away_score in
    differs (home_of current) (home_of new) || differs (away_of current) (away_of new)

unfoldable pub halftime_newly_known : Match → RawMatch → Bool
halftime_newly_known existing raw =
    not (is_some existing.ht_home_score && is_some existing.ht_away_score)
    && is_some raw.ht_home_score
    && is_some raw.ht_away_score

unfoldable pub halftime_changed : Match → RawMatch → Bool
unfolding halftime_newly_known
halftime_changed existing raw =
    halftime_newly_known existing raw
    || (is_some raw.ht_home_score
        && is_some raw.ht_away_score
        && (differs raw.ht_home_score existing.ht_home_score
            || differs raw.ht_away_score existing.ht_away_score))

unfoldable pub snapshot_changed : Match → RawMatch → Bool
unfolding score_changed halftime_changed
snapshot_changed existing raw =
    score_changed existing raw
    || not (str_eq existing.status raw.status)
    || (is_some raw.elapsed && differs raw.elapsed existing.elapsed)
    || halftime_changed existing raw

abbrev pub with_score : ℕ → Option (ℕ × ℕ) → Match → Match
with_score now none m = m
with_score now (some (h, a)) m = update_score now h a m

-- The match after its four setters.
unfoldable pub refreshed : ℕ → Match → RawMatch → Match
refreshed now existing raw =
    (set_halftime_score now raw.ht_home_score raw.ht_away_score (
      set_elapsed now raw.elapsed (
        with_score now (both raw.home_score raw.away_score)
          (update_status now raw.status existing)))).0

abbrev pub is_true : Option Bool → Bool
is_true (some true) = true
is_true _ = false

-- The props of `{ ...existing.toJSON(), ... }`. The JSON nests the two scores in a field of its own,
-- so that the props have none; teams and league are named again from the payload.
unfoldable pub rebuilt : ℕ → Match → RawMatch → Match
rebuilt now m raw = record m {
  api_football_id = raw.api_football_id;
  home_team_id = raw.home_team_id;
  home_team_name = raw.home_team_name;
  home_team_logo = some raw.home_team_logo;
  away_team_id = raw.away_team_id;
  away_team_name = raw.away_team_name;
  away_team_logo = some raw.away_team_logo;
  league_id = raw.league_id;
  league_name = raw.league_name;
  league_logo = some raw.league_logo;
  league_country = some raw.league_country;
  season = raw.season;
  match_date = raw.match_date;
  home_score = none;
  away_score = none;
  knockout_flag = some (is_true m.knockout_flag);
  updated_at = now;
}

abbrev pub home_column : Option (ℕ × ℕ) → Option ℕ → Option ℕ
home_column none stored = stored
home_column (some (h, a)) stored = some h

abbrev pub away_column : Option (ℕ × ℕ) → Option ℕ → Option ℕ
away_column none stored = stored
away_column (some (h, a)) stored = some a

abbrev text_column : Option String → Option String → Option String
text_column none stored = stored
text_column (some text) stored = some text

-- `?.toLowerCase()`
abbrev lower_address : Option String → Option String
lower_address none = none
lower_address (some address) = some (lower_string address)

-- The row after the update: a column whose value is undefined is not sent, and keeps what it has. The
-- contract's address is written in lower case, and the league without its country.
unfoldable pub write_row : Match → Match → Match
write_row m row = record m {
  id = row.id;
  league_country = none;
  home_score = home_column (both m.home_score m.away_score) row.home_score;
  away_score = away_column (both m.home_score m.away_score) row.away_score;
  venue = text_column m.venue row.venue;
  betting_contract_address =
      text_column (lower_address m.betting_contract_address) row.betting_contract_address;
}

-- What is to be written, none where nothing changed, and whether the half time became known.
unfoldable pub update_live_snapshot : ℕ → Match → RawMatch → Option Match × Bool
update_live_snapshot now existing raw =
    if not (snapshot_changed existing raw)
    then (none, false)
    else (some (rebuilt now (refreshed now existing raw) raw), halftime_newly_known existing raw)

pub record SyncLiveMatchesResult : Type 0 where
  pub matches_updated : ℕ
  changed_match_ids : List ℕ
  changed_league_ids : List ℕ
  halftime_ready_match_ids : List ℕ

abbrev nothing_yet : SyncLiveMatchesResult
nothing_yet = record {
  matches_updated = 0;
  changed_match_ids = [];
  changed_league_ids = [];
  halftime_ready_match_ids = [];
}

abbrev mutated : RawMatch → SyncLiveMatchesResult → SyncLiveMatchesResult
mutated raw r = record r {
  matches_updated = suc r.matches_updated;
  changed_match_ids = r.changed_match_ids ++ (raw.api_football_id ∷ []);
  changed_league_ids = r.changed_league_ids ++ (raw.league_id ∷ []);
}

abbrev ready : Bool → Match → RawMatch → SyncLiveMatchesResult → SyncLiveMatchesResult
ready newly existing raw r =
    if newly && is_some existing.betting_contract_address
    then record r {
      halftime_ready_match_ids = r.halftime_ready_match_ids ++ (raw.api_football_id ∷ []);
    }
    else r

unfoldable pub store_row : Match → List Match → List Match
store_row m rows = update_where (λ row. row.api_football_id == m.api_football_id) (write_row m) rows

-- `writes`: whether the update of a row succeeds.
module _ (writes : Match → Bool) where
  unfoldable pub apply_snapshot :
      Match
      → RawMatch
      → Option Match × Bool
      → List Match × SyncLiveMatchesResult
      → List Match × SyncLiveMatchesResult
  apply_snapshot existing raw (none, newly) (rows, r) = (rows, ready newly existing raw r)
  apply_snapshot existing raw (some m, newly) (rows, r) =
      if writes m then (store_row m rows, ready newly existing raw (mutated raw r)) else (rows, r)

  unfoldable pub sync_found :
      ℕ
      → Option Match
      → RawMatch
      → List Match × SyncLiveMatchesResult
      → List Match × SyncLiveMatchesResult
  sync_found now none raw state = state
  sync_found now (some existing) raw state =
      apply_snapshot existing raw (update_live_snapshot now existing raw) state

  -- The loop over the live payload, from the state before it.
  unfoldable pub sync_all :
      ℕ → List RawMatch → List Match × SyncLiveMatchesResult → List Match × SyncLiveMatchesResult
  sync_all now [] state = state
  sync_all now (raw ∷ raws) state =
      sync_all now raws (
        sync_found now (find? (λ row. row.api_football_id == raw.api_football_id) state.0) raw
          state)

  unfoldable pub sync_live_matches :
      ℕ → List RawMatch → List Match → List Match × SyncLiveMatchesResult
  sync_live_matches now live rows = sync_all now live (rows, nothing_yet)
