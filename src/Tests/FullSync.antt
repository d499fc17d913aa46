-- ===== src/Tests/FullSync.antt =====
-- The sync of all matches at concrete inputs.
use chiliztv_com.Base.{
  map, lower_char, lower_string, String, ◌==◌, if◌then◌else◌, false, none, some, [], ◌∷◌, ◌≡◌, ◌+◌,
  ◌≤◌, refl, arith, ◌≢◌, eq_iff, length, true, is_some,
}
use chiliztv_com.Matches.Entity.{Match}
use chiliztv_com.Matches.LiveSync.{RawMatch}
use chiliztv_com.Matches.FullSync.{FetchedMatch, SyncPorts, sync_matches, contract_repair_cap}
use chiliztv_com.Matches.FullSync.Rule.{Held}
use chiliztv_com.Matches.FullSync.Lasting.{
  IsSeededAs, halftime_home, fact_of, sync_matches-contract, sync_matches-known,
}
use chiliztv_com.Matches.FullSync.Deployments.{sync_matches-deployments}
use chiliztv_com.Tests.Matches.{full_time}

-- The payload of a match in its second half that misses the score of the half time.
abbrev fetched : FetchedMatch
fetched = record {
  raw = record {
    api_football_id = full_time.api_football_id;
    home_team_id = 1;
    home_team_name = "Home";
    home_team_logo = "";
    away_team_id = 2;
    away_team_name = "Away";
    away_team_logo = "";
    league_id = 39;
    league_name = "League";
    league_logo = "";
    league_country = "";
    season = 2026;
    status = "2H";
    match_date = 5000;
    home_score = some 1;
    away_score = some 0;
    elapsed = some 50;
    ht_home_score = none;
    ht_away_score = none;
  };
  venue = none;
  league_round = none;
  league_type = none;
  aet_home = none;
  aet_away = none;
  pen_home = none;
  pen_away = none;
}

-- A match of another number, which the table does not have.
abbrev upcoming : FetchedMatch
upcoming = record fetched {
  raw = record fetched.raw { api_football_id = 77; status = "NS"; match_date = 900000 };
}

-- Everything goes through but the first deployment.
abbrev ports : SyncPorts
ports = record {
  saves = λ m. true;
  updates = λ m. true;
  fresh_id = λ rows. 9;
  deploys = λ n m. if n == 0 then none else some "0xNEW";
  seeds = λ c k. true;
  team_form = λ team. none;
}

abbrev seeded : Match
seeded = record full_time {
  betting_contract_address = some "0xa";
  knockout_flag = some false;
  ht_home_score = some 1;
}

named : ◌≢◌ {A = String} "0xa" ""
named e = let t = (eq_iff "0xa" "").1 e in ground arith

lower_named : lower_string "0xa" ≡ "0xa"
unfolding lower_string lower_char
lower_named = refl

sync_matches-contract_example :
    Held full_time.api_football_id
      (IsSeededAs "0xa" false)
      (sync_matches ports 1000 (fetched ∷ upcoming ∷ []) (seeded ∷ [])).rows
sync_matches-contract_example =
    sync_matches-contract ports 1000 full_time.api_football_id "0xa" false (fetched ∷ upcoming ∷ [])
      (seeded ∷ []) named lower_named (((λ e. (refl, refl)), tt), refl)

sync_matches-known_example :
    Held full_time.api_football_id
      (λ m. is_some (fact_of halftime_home m) ≡ true)
      (sync_matches ports 1000 (fetched ∷ upcoming ∷ []) (seeded ∷ [])).rows
sync_matches-known_example =
    sync_matches-known ports 1000 full_time.api_football_id halftime_home (fetched ∷ upcoming ∷ [])
      (seeded ∷ []) (((λ e. refl), tt), refl)

sync_matches-deployments_example :
    (length (sync_matches ports 1000 (fetched ∷ upcoming ∷ []) (seeded ∷ [])).deployments
      ≤ 2 + contract_repair_cap)
    × ((sync_matches ports 1000 (fetched ∷ upcoming ∷ []) (seeded ∷ [])).contracts_deployed
        ≤ length (sync_matches ports 1000 (fetched ∷ upcoming ∷ []) (seeded ∷ [])).deployments)
sync_matches-deployments_example =
    sync_matches-deployments ports 1000 (fetched ∷ upcoming ∷ []) (seeded ∷ [])

-- The deployment that failed for the new match is sent again in the same run.
run-repairs :
    (sync_matches ports 1000 (fetched ∷ upcoming ∷ []) (seeded ∷ [])).contracts_deployed ≡ 1
unfolding sync_matches chiliztv_com.Matches.FullSync.repair chiliztv_com.Matches.FullSync.sync_each
    chiliztv_com.Matches.FullSync.repair_each chiliztv_com.Matches.FullSync.sync_one
    chiliztv_com.Matches.FullSync.deploy_and_seed chiliztv_com.Matches.FullSync.is_contractless
    chiliztv_com.Matches.FullSync.new_match chiliztv_com.Matches.FullSync.updated_match
    chiliztv_com.Matches.LiveSync.store_row chiliztv_com.Matches.LiveSync.write_row
    chiliztv_com.Matches.Closing.Candidates.by_date
    chiliztv_com.Matches.Closing.Candidates.insert_by_date lower_string lower_char
run-repairs = refl

-- The address is stored in lower case.
run-lowers :
    map
      (λ (m : Match). m.betting_contract_address)
      (sync_matches ports 1000 (fetched ∷ upcoming ∷ []) (seeded ∷ [])).rows
    ≡ some "0xa" ∷ some "0xnew" ∷ []
unfolding sync_matches chiliztv_com.Matches.FullSync.repair chiliztv_com.Matches.FullSync.sync_each
    chiliztv_com.Matches.FullSync.repair_each chiliztv_com.Matches.FullSync.sync_one
    chiliztv_com.Matches.FullSync.deploy_and_seed chiliztv_com.Matches.FullSync.is_contractless
    chiliztv_com.Matches.FullSync.new_match chiliztv_com.Matches.FullSync.updated_match
    chiliztv_com.Matches.LiveSync.store_row chiliztv_com.Matches.LiveSync.write_row
    chiliztv_com.Matches.Closing.Candidates.by_date
    chiliztv_com.Matches.Closing.Candidates.insert_by_date lower_string lower_char
run-lowers = refl
