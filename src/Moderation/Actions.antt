-- ===== src/Moderation/Actions.antt =====
-- packages/domain/src/reporting/entities/ReportAction.ts with the table behind it, which is
-- SupabaseReportActionRepository, and the removal of a message in SupabaseChatRepository, both in
-- apps/backend/src/infrastructure/persistence/repositories.
pub mod OneUnreversed
use chiliztv_com.Base.{
  ℕ, Bool, true, false, Option, none, some, List, [], ◌∷◌, ◌&&◌, ◌||◌, String, str_eq, Text,
  text_eq, to_lower_case, any, filter, map, update_where, Result, ok, throws, if◌then◌else◌,
}
use chiliztv_com.Moderation.Policies.{QuorumSnapshot}
use chiliztv_com.Moderation.Rows.{QueryError, maybe_single}
use chiliztv_com.Moderation.Reports.{TargetType, Target, same_target, StoreError, failed_to_save}

pub data ActionKind : Type 0 where
  soft_delete_message stop_stream ban_account : ActionKind

pub record ReportAction : Type 0 where
  pub id : String
  pub kind : ActionKind
  pub target_type : TargetType
  pub target_id : Text
  pub live_context_match_id : Option ℕ
  pub quorum_snapshot : QuorumSnapshot
  pub reporter_wallets : List Text
  pub triggered_at : ℕ
  pub reversed_at : Option ℕ
  pub reversed_by_wallet : Option Text
  pub reverse_note : Option String
  pub affected_message_id : Option Text
  pub affected_stream_id : Option Text
  pub affected_ban_id : Option String

abbrev pub action_target : ReportAction → Target
action_target action = record {
  target_type = action.target_type;
  target_id = action.target_id;
  live_context_match_id = action.live_context_match_id;
}

abbrev pub unreversed : Option ℕ → Bool
unreversed none = true
unreversed (some _) = false

unfoldable pub find_active_for_target :
    Target → List ReportAction → Result QueryError (Option ReportAction)
find_active_for_target target rows =
    maybe_single
      (filter (λ row. same_target (action_target row) target && unreversed row.reversed_at) rows)

-- The insert violates the primary key, or the index on the targets of the unreversed rows.
abbrev pub doubles : ReportAction → ReportAction → Bool
doubles action row =
    str_eq action.id row.id
    || (unreversed action.reversed_at
        && unreversed row.reversed_at
        && same_target (action_target row) (action_target action))

-- On a violation the unreversed action of the target is returned in place of the new one.
pub existing_or_error :
    List ReportAction
    → Result QueryError (Option ReportAction)
    → Result StoreError (ReportAction × List ReportAction)
existing_or_error rows (ok (some existing)) = ok (existing, rows)
existing_or_error rows (ok none) = throws failed_to_save
existing_or_error rows (throws e) = throws failed_to_save

-- The action on file with the table after it.
unfoldable pub save_action :
    ReportAction → List ReportAction → Result StoreError (ReportAction × List ReportAction)
unfolding existing_or_error
save_action action rows =
    if any (doubles action) rows
    then existing_or_error rows (find_active_for_target (action_target action) rows)
    else ok (action, action ∷ rows)

abbrev pub reversed : Text → Option String → ℕ → ReportAction → ReportAction
reversed wallet note at row = record row {
  reversed_at = some at;
  reversed_by_wallet = some (to_lower_case wallet);
  reverse_note = note;
}

-- The reversed row, if it was not reversed before, and the table after it.
unfoldable pub reverse :
    String → Text → Option String → ℕ → List ReportAction → List ReportAction × List ReportAction
reverse id wallet note at rows = (
  map (reversed wallet note at)
      (filter (λ row. str_eq row.id id && unreversed row.reversed_at) rows),
  update_where (λ row. str_eq row.id id && unreversed row.reversed_at) (reversed wallet note at)
      rows,
)

-- The columns of a chat message that its removal reads and writes.
pub record MessageRow : Type 0 where
  pub id : Text
  pub match_id : ℕ
  pub removed_at : Option ℕ
  pub removed_by_action_id : Option String

unfoldable pub removed : String → ℕ → MessageRow → MessageRow
removed action_id at row = record row {
  removed_at = some at;
  removed_by_action_id = some action_id;
}

unfoldable pub soft_delete_message_row : Text → String → ℕ → List MessageRow → List MessageRow
soft_delete_message_row id action_id at rows =
    update_where (λ row. text_eq row.id id && unreversed row.removed_at) (removed action_id at) rows

abbrev pub is_by : String → Option String → Bool
is_by action_id none = false
is_by action_id (some other) = str_eq other action_id

abbrev pub restored : MessageRow → MessageRow
restored row = record row { removed_at = none; removed_by_action_id = none }

unfoldable pub restore_message : Text → String → List MessageRow → List MessageRow
restore_message id action_id rows =
    update_where (λ row. text_eq row.id id && is_by action_id row.removed_by_action_id) restored
      rows
