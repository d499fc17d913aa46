-- ===== src/Matches/Retention.antt =====
-- apps/backend/src/application/matches/use-cases/CleanupOldMatchesUseCase.ts with deleteOldMatches of
-- SupabaseMatchRepository and the two sets of references of SupabaseBetRepository and
-- SupabasePredictionRepository. The queries that select the matches and delete them may fail together.
pub mod Kept
use chiliztv_com.Base.{
  ℕ, ◌-◌, ◌*◌, Bool, true, false, not, Option, none, some, List, [], ◌∷◌, ◌&&◌, ◌||◌, ◌==◌, String,
  str_eq, Text, text_eq, codes, to_lower_case, any, filter, map, ltb, if◌then◌else◌,
}
use chiliztv_com.Matches.Entity.{Match}
use chiliztv_com.Indexing.Bets.{BetRow}
use chiliztv_com.Predictions.Entity.{Prediction}

-- `if (row.contract_address) set.add(row.contract_address.toLowerCase())`
unfoldable pub referenced_contracts : List BetRow → List Text
referenced_contracts bets =
    map (λ (b : BetRow). to_lower_case b.contract_address)
      (filter (λ (b : BetRow). not (text_eq b.contract_address [])) bets)

unfoldable pub referenced_matches : List Prediction → List ℕ
referenced_matches predictions = map (λ (p : Prediction). p.match_id) predictions

abbrev pub by_contract : List Text → Option String → Bool
by_contract contracts none = false
by_contract contracts (some contract) =
    not (str_eq contract "") && any (text_eq (to_lower_case (codes contract))) contracts

abbrev pub is_old : ℕ → Match → Bool
is_old before m = ltb m.match_date before

-- A candidate that neither set refers to.
unfoldable pub is_deletable : ℕ → List Text → List ℕ → Match → Bool
is_deletable before contracts ids m =
    is_old before m
    && not (by_contract contracts m.betting_contract_address)
    && not (any (λ id. m.api_football_id == id) ids)

-- Where both sets are empty every old match is deleted by one query.
unfoldable pub delete_old_matches : Bool → ℕ → List Text → List ℕ → List Match → List Match
delete_old_matches goes before [] [] rows =
    if goes then filter (λ m. not (is_old before m)) rows else rows
delete_old_matches goes before contracts ids rows =
    let gone = map (λ (m : Match). m.id) (filter (is_deletable before contracts ids) rows) in
    if goes then filter (λ m. not (any (λ id. m.id == id) gone)) rows else rows

-- From what the two repositories answer, none where one throws.
abbrev pub cleanup_with :
    Bool → ℕ → Option (List BetRow) → Option (List Prediction) → List Match → List Match
cleanup_with goes before (some bets) (some predictions) rows =
    delete_old_matches goes before (referenced_contracts bets) (referenced_matches predictions) rows
cleanup_with goes before _ _ rows = rows

-- `cleanupOutside24Hours`
abbrev pub cleanup_outside_24_hours :
    Bool → ℕ → Option (List BetRow) → Option (List Prediction) → List Match → List Match
cleanup_outside_24_hours goes now bets predictions rows =
    cleanup_with goes (now - 24 * 60 * 60 * 1000) bets predictions rows
