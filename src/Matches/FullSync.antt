-- ===== src/Matches/FullSync.antt =====
-- apps/backend/src/application/matches/use-cases/SyncMatchesUseCase.ts on the rows of
-- SupabaseMatchRepository. The API and the chain are ports; the calls of the chain that deploy are
-- numbered, since a second call for a match may answer otherwise. The invalidation of the cache, which
-- reads which matches changed, and the warning about a changed knockout flag are left out; the queries are
-- taken to go through.
pub mod Rule
pub mod Lasting
pub mod Deployments
use chiliztv_com.Base.{
  List, [], ◌∷◌, ◌++◌, Option, Text, ℕ, length, take, filter, ltb, not, ◌==◌, if◌then◌else◌, none,
  some, suc, Bool, true, false, ◌&&◌, String, has, find?, str_eq,
}
use chiliztv_com.Matches.Entity.{Match, both}
use chiliztv_com.Matches.Closing.Candidates.{by_date}
use chiliztv_com.Matches.Knockout.{is_knockout_match}
use chiliztv_com.Matches.LiveSync.{is_true, home_column, away_column, RawMatch, store_row}

-- What the fetched payload supplies beyond that of the live sync.
pub record FetchedMatch : Type 0 where
  pub raw : RawMatch
  pub venue : Option String
  pub league_round : Option Text
  pub league_type : Option String
  pub aet_home : Option ℕ
  pub aet_away : Option ℕ
  pub pen_home : Option ℕ
  pub pen_away : Option ℕ

-- What the other parts answer. A deployment has its number, and gives a contract or throws.
pub record SyncPorts : Type 0 where
  pub saves : Match → Bool
  pub updates : Match → Bool
  pub fresh_id : List Match → ℕ
  pub deploys : ℕ → Match → Option String
  pub seeds : String → Bool → Bool
  pub team_form : ℕ → Option String

-- The table, the matches for which a deployment was sent, the last first, and the counts.
pub record SyncState : Type 0 where
  pub rows : List Match
  pub deployments : List Match
  pub matches_stored : ℕ
  pub contracts_deployed : ℕ

abbrev pub not_started_statuses : List String
not_started_statuses = "NS" ∷ "TBD" ∷ []

abbrev pub contract_repair_cap : ℕ
contract_repair_cap = 5

-- `a ?? b`
abbrev pub or_known : Option ℕ → Option ℕ → Option ℕ
or_known none stored = stored
or_known (some n) stored = some n

unfoldable pub fresh_knockout : FetchedMatch → Bool
fresh_knockout f =
    is_knockout_match
      (record { id = some f.raw.league_id; type_name = f.league_type; round = f.league_round })

-- The match that is written for one that the table has.
unfoldable pub updated_match : ℕ → (ℕ → Option String) → Match → FetchedMatch → Match
updated_match now team_form existing f = record existing {
  api_football_id = f.raw.api_football_id;
  home_team_id = f.raw.home_team_id;
  home_team_name = f.raw.home_team_name;
  home_team_logo = some f.raw.home_team_logo;
  away_team_id = f.raw.away_team_id;
  away_team_name = f.raw.away_team_name;
  away_team_logo = some f.raw.away_team_logo;
  league_id = f.raw.league_id;
  league_name = f.raw.league_name;
  league_logo = some f.raw.league_logo;
  league_country = some f.raw.league_country;
  season = f.raw.season;
  status = f.raw.status;
  match_date = f.raw.match_date;
  venue = f.venue;
  home_score = f.raw.home_score;
  away_score = f.raw.away_score;
  home_form = team_form f.raw.home_team_id;
  away_form = team_form f.raw.away_team_id;
  elapsed = or_known f.raw.elapsed existing.elapsed;
  ht_home_score = or_known f.raw.ht_home_score existing.ht_home_score;
  ht_away_score = or_known f.raw.ht_away_score existing.ht_away_score;
  aet_home_score = or_known f.aet_home existing.aet_home_score;
  aet_away_score = or_known f.aet_away existing.aet_away_score;
  pen_home_score = or_known f.pen_home existing.pen_home_score;
  pen_away_score = or_known f.pen_away existing.pen_away_score;
  knockout_flag = some (is_true existing.knockout_flag);
  updated_at = now;
}

-- The row of a match that the table does not have: the identifier is the table's own.
unfoldable pub new_match : ℕ → (ℕ → Option String) → ℕ → FetchedMatch → Match
new_match now team_form id f = record {
  id = id;
  api_football_id = f.raw.api_football_id;
  home_team_id = f.raw.home_team_id;
  home_team_name = f.raw.home_team_name;
  home_team_logo = some f.raw.home_team_logo;
  away_team_id = f.raw.away_team_id;
  away_team_name = f.raw.away_team_name;
  away_team_logo = some f.raw.away_team_logo;
  league_id = f.raw.league_id;
  league_name = f.raw.league_name;
  league_logo = some f.raw.league_logo;
  league_country = none;
  season = f.raw.season;
  status = f.raw.status;
  match_date = f.raw.match_date;
  venue = f.venue;
  home_score = home_column (both f.raw.home_score f.raw.away_score) none;
  away_score = away_column (both f.raw.home_score f.raw.away_score) none;
  home_form = team_form f.raw.home_team_id;
  away_form = team_form f.raw.away_team_id;
  elapsed = f.raw.elapsed;
  ht_home_score = f.raw.ht_home_score;
  ht_away_score = f.raw.ht_away_score;
  aet_home_score = f.aet_home;
  aet_away_score = f.aet_away;
  pen_home_score = f.pen_home;
  pen_away_score = f.pen_away;
  knockout_flag = some (fresh_knockout f);
  betting_contract_address = none;
  created_at = now;
  updated_at = now;
}

-- The contract is there and not the empty text.
abbrev pub has_contract : Option String → Bool
has_contract none = false
has_contract (some contract) = not (str_eq contract "")

unfoldable pub is_contractless : ℕ → Match → Bool
is_contractless now m =
    not (has_contract m.betting_contract_address)
    && has not_started_statuses m.status
    && ltb now m.match_date

abbrev pub with_contract : ℕ → String → Match → Match
with_contract now contract m = record m {
  betting_contract_address = some contract;
  updated_at = now;
}

module _ (ports : SyncPorts) (now : ℕ) where
  -- From what the deployment answers.
  abbrev pub after_deploy : Match → Option String → SyncState → Bool × SyncState
  after_deploy m none s = (false, s)
  after_deploy m (some contract) s =
      if ports.seeds contract (is_true m.knockout_flag)
        && ports.updates (with_contract now contract m)
      then (true, record s { rows = store_row (with_contract now contract m) s.rows })
      else (false, s)

  -- Whether the contract is deployed, seeded and stored.
  unfoldable pub deploy_and_seed : Match → SyncState → Bool × SyncState
  deploy_and_seed m s =
      after_deploy m (ports.deploys (length s.deployments) m)
        (record s { deployments = m ∷ s.deployments })

  abbrev pub counted_deploy : Bool × SyncState → SyncState
  counted_deploy (true, s) = record s { contracts_deployed = suc s.contracts_deployed }
  counted_deploy (false, s) = s

  abbrev pub stored_one : SyncState → SyncState
  stored_one s = record s { matches_stored = suc s.matches_stored }

  -- A match that throws is passed over.
  unfoldable pub sync_one : Option Match → FetchedMatch → SyncState → SyncState
  sync_one (some existing) f s =
      if ports.updates (updated_match now ports.team_form existing f)
      then stored_one
          (record s { rows = store_row (updated_match now ports.team_form existing f) s.rows })
      else s
  sync_one none f s =
      let fresh = new_match now ports.team_form (ports.fresh_id s.rows) f in
      if ports.saves fresh
      then counted_deploy
          (deploy_and_seed fresh (stored_one (record s { rows = s.rows ++ (fresh ∷ []) })))
      else s

  unfoldable pub sync_each : List FetchedMatch → SyncState → SyncState
  sync_each [] s = s
  sync_each (f ∷ fs) s =
      sync_each fs
        (sync_one (find? (λ row. row.api_football_id == f.raw.api_football_id) s.rows) f s)

  unfoldable pub repair_each : List Match → SyncState → SyncState
  repair_each [] s = s
  repair_each (m ∷ ms) s = repair_each ms (counted_deploy (deploy_and_seed m s))

  -- `repairContractlessMatches`; `findAll` answers in the order of the kickoff dates.
  unfoldable pub repair : SyncState → SyncState
  repair s =
      repair_each (take contract_repair_cap (filter (is_contractless now) (by_date s.rows))) s

  unfoldable pub sync_matches : List FetchedMatch → List Match → SyncState
  sync_matches [] rows = record {
    rows = rows;
    deployments = [];
    matches_stored = 0;
    contracts_deployed = 0;
  }
  sync_matches (f ∷ fs) rows = repair (
      sync_each (f ∷ fs)
        (record { rows = rows; deployments = []; matches_stored = 0; contracts_deployed = 0 }))
