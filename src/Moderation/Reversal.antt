-- ===== src/Moderation/Reversal.antt =====
-- apps/backend/src/application/admin/use-cases/ReverseActionUseCase.ts on the tables of the actions and
-- of the chat messages. The id of an action is the primary key, so that at most one row is reversed.
pub mod Undone
use chiliztv_com.Base.{
  ℕ, Bool, Option, none, some, List, [], ◌∷◌, ◌++◌, String, Text, Result, ok, throws, if◌then◌else◌,
}
use chiliztv_com.Moderation.Actions.{
  ActionKind, soft_delete_message, ReportAction, reverse, MessageRow, restore_message,
}
use chiliztv_com.Moderation.World.{Failure, conflict_error, outage}

-- The tables, and the ids that the audit trail has taken.
pub record Docket : Type 0 where
  pub actions : List ReportAction
  pub messages : List MessageRow
  pub audited_ids : List String

-- The message that is to be restored. An empty id counts as none.
abbrev pub to_restore : ActionKind → Option Text → Option Text
to_restore soft_delete_message (some (c ∷ id)) = some (c ∷ id)
to_restore _ _ = none

unfoldable pub restore_if : Option Text → String → List MessageRow → List MessageRow
restore_if none action_id messages = messages
restore_if (some id) action_id messages = restore_message id action_id messages

unfoldable pub after_reverse :
    Bool
    → String
    → List ReportAction × List ReportAction
    → Docket
    → Result Failure ReportAction × Docket
after_reverse audits id ([], rows) docket =
    (throws conflict_error, record docket { actions = rows })
after_reverse audits id (row ∷ _, rows) docket =
    let messages = restore_if (to_restore row.kind row.affected_message_id) id docket.messages in
    if audits
    then (
      ok row,
      record { actions = rows; messages = messages; audited_ids = docket.audited_ids ++ (id ∷ []) },
    )
    else (throws outage, record docket { actions = rows; messages = messages })

unfoldable pub reverse_action :
    Bool → Text → String → Option String → ℕ → Docket → Result Failure ReportAction × Docket
reverse_action audits actor id note at docket =
    after_reverse audits id (reverse id actor note at docket.actions) docket
