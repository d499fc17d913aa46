-- ===== src/Matches/FullSync/Lasting.antt =====
-- What no sync takes from a match: its contract, and what is known of it.
use chiliztv_com.Base.{
  ap, lower_string, false, not, ◌&&◌, sym, ◌∙◌, has, ltb, refl, ◌≡◌, ◌≢◌, true, arith, List, none,
  some, ℕ, String, Option, is_some, Bool, eq_iff,
}
use chiliztv_com.Matches.Entity.{Match, both}
use chiliztv_com.Matches.LiveSync.{is_true, write_row, home_column, away_column}
use chiliztv_com.Matches.FullSync.{
  has_contract, or_known, not_started_statuses, SyncPorts, FetchedMatch, is_contractless,
  with_contract, updated_match, sync_matches,
}
use chiliztv_com.Matches.FullSync.Rule.{Held, sync_matches-Held}

bare_text :
    (found : Option String) (c : String) (p q : Bool)
    → found ≡ some c
    → (not (has_contract found) && p && q) ≡ true
    → c ≡ ""
bare_text none c p q e t = absurd (ground arith)
bare_text (some d) c p q e t =
    let same : d ≡ c = ground arith in sym same ∙ ground (arith, eq_iff d "")

bare_contract :
    (now : ℕ) (m : Match) (c : String)
    → is_contractless now m ≡ true
    → m.betting_contract_address ≡ some c
    → c ≡ ""
unfolding chiliztv_com.Matches.FullSync.is_contractless
bare_contract now m c bare e =
    bare_text m.betting_contract_address c (has not_started_statuses m.status)
      (ltb now m.match_date) e bare

-- The contract, and whether it was seeded for a knockout.
abbrev pub IsSeededAs : String → Bool → Match → Type 0
IsSeededAs c knockout m = (m.betting_contract_address ≡ some c) × (m.knockout_flag ≡ some knockout)

same_flag : (flag : Option Bool) (b : Bool) → flag ≡ some b → some (is_true flag) ≡ some b
same_flag none b e = absurd (ground arith)
same_flag (some true) b e = e
same_flag (some false) b e = e

update_seeded :
    (now : ℕ) (team_form : ℕ → Option String) (c : String) (b : Bool) (existing row : Match)
    (f : FetchedMatch)
    → lower_string c ≡ c
    → IsSeededAs c b existing
    → IsSeededAs c b (write_row (updated_match now team_form existing f) row)
unfolding chiliztv_com.Matches.LiveSync.write_row chiliztv_com.Matches.FullSync.updated_match
update_seeded now team_form c b existing row f low (e, k) =
    (rw e (ap some low), same_flag existing.knockout_flag b k)

-- The contract of a match and the knockout flag that it was seeded with stay through a sync: where the
-- table has a row of the match and every such row has them before it, and the contract is in lower case, as it is
-- stored, and not the empty text, the same holds after it, whatever is fetched and whatever the chain and
-- the database answer.
pub sync_matches-contract :
    (ports : SyncPorts) (now i : ℕ) (c : String) (b : Bool) (fs : List FetchedMatch)
    (rows : List Match)
    → c ≢ ""
    → lower_string c ≡ c
    → Held i (IsSeededAs c b) rows
    → Held i (IsSeededAs c b) (sync_matches ports now fs rows).rows
sync_matches-contract ports now i c b fs rows filled low =
    sync_matches-Held i (IsSeededAs c b) ports now
      (λ existing row f p q. update_seeded now ports.team_form c b existing row f low p)
      (λ m row c' bare (e, k) q. absurd (filled (bare_contract now m c bare e))) fs rows

-- What may become known of a match.
pub data Fact : Type 0 where
  home_goals away_goals minute halftime_home halftime_away : Fact
  extratime_home extratime_away penalties_home penalties_away : Fact

abbrev pub fact_of : Fact → Match → Option ℕ
fact_of home_goals m = m.home_score
fact_of away_goals m = m.away_score
fact_of minute m = m.elapsed
fact_of halftime_home m = m.ht_home_score
fact_of halftime_away m = m.ht_away_score
fact_of extratime_home m = m.aet_home_score
fact_of extratime_away m = m.aet_away_score
fact_of penalties_home m = m.pen_home_score
fact_of penalties_away m = m.pen_away_score

known_after : (new stored : Option ℕ) → is_some stored ≡ true → is_some (or_known new stored) ≡ true
known_after none stored k = k
known_after (some n) stored k = refl

home_after :
    (score : Option (ℕ × ℕ)) (stored : Option ℕ)
    → is_some stored ≡ true
    → is_some (home_column score stored) ≡ true
home_after none stored k = k
home_after (some (h, a)) stored k = refl

away_after :
    (score : Option (ℕ × ℕ)) (stored : Option ℕ)
    → is_some stored ≡ true
    → is_some (away_column score stored) ≡ true
away_after none stored k = k
away_after (some (h, a)) stored k = refl

update_keeps :
    (now : ℕ) (team_form : ℕ → Option String) (fact : Fact) (existing row : Match)
    (f : FetchedMatch)
    → is_some (fact_of fact existing) ≡ true
    → is_some (fact_of fact row) ≡ true
    → is_some (fact_of fact (write_row (updated_match now team_form existing f) row)) ≡ true
unfolding chiliztv_com.Matches.LiveSync.write_row chiliztv_com.Matches.FullSync.updated_match
update_keeps now team_form home_goals existing row f p q =
    home_after (both f.raw.home_score f.raw.away_score) row.home_score q
update_keeps now team_form away_goals existing row f p q =
    away_after (both f.raw.home_score f.raw.away_score) row.away_score q
update_keeps now team_form minute existing row f p q = known_after f.raw.elapsed existing.elapsed p
update_keeps now team_form halftime_home existing row f p q =
    known_after f.raw.ht_home_score existing.ht_home_score p
update_keeps now team_form halftime_away existing row f p q =
    known_after f.raw.ht_away_score existing.ht_away_score p
update_keeps now team_form extratime_home existing row f p q =
    known_after f.aet_home existing.aet_home_score p
update_keeps now team_form extratime_away existing row f p q =
    known_after f.aet_away existing.aet_away_score p
update_keeps now team_form penalties_home existing row f p q =
    known_after f.pen_home existing.pen_home_score p
update_keeps now team_form penalties_away existing row f p q =
    known_after f.pen_away existing.pen_away_score p

contract_keeps :
    (now : ℕ) (fact : Fact) (m row : Match) (c : String)
    → is_some (fact_of fact m) ≡ true
    → is_some (fact_of fact row) ≡ true
    → is_some (fact_of fact (write_row (with_contract now c m) row)) ≡ true
unfolding chiliztv_com.Matches.LiveSync.write_row
contract_keeps now home_goals m row c p q =
    home_after (both m.home_score m.away_score) row.home_score q
contract_keeps now away_goals m row c p q =
    away_after (both m.home_score m.away_score) row.away_score q
contract_keeps now minute m row c p q = p
contract_keeps now halftime_home m row c p q = p
contract_keeps now halftime_away m row c p q = p
contract_keeps now extratime_home m row c p q = p
contract_keeps now extratime_away m row c p q = p
contract_keeps now penalties_home m row c p q = p
contract_keeps now penalties_away m row c p q = p

-- What is known of a match stays known through a sync: where the table has a row of the match and every
-- such row has a goal count, the minute, or a score of the half time, the extra time or the penalties
-- before it, the same holds after it, also where the fetched payload has none.
pub sync_matches-known :
    (ports : SyncPorts) (now i : ℕ) (fact : Fact) (fs : List FetchedMatch) (rows : List Match)
    → Held i (λ m. is_some (fact_of fact m) ≡ true) rows
    → Held i (λ m. is_some (fact_of fact m) ≡ true) (sync_matches ports now fs rows).rows
sync_matches-known ports now i fact fs rows =
    sync_matches-Held i (λ m. is_some (fact_of fact m) ≡ true) ports now
      (λ existing row f p q. update_keeps now ports.team_form fact existing row f p q)
      (λ m row c bare p q. contract_keeps now fact m row c p q) fs rows
