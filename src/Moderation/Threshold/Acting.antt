-- ===== src/Moderation/Threshold/Acting.antt =====
-- EvaluateReportThresholdUseCase, from the decision on: the action that is filed, and its effects.
use chiliztv_com.Base.{
  [], ◌∷◌, if◌then◌else◌, Option, none, some, List, map, Result, ok, throws, String,
}
use chiliztv_com.Moderation.Policies.{QuorumSnapshot}
use chiliztv_com.Moderation.Bans.{Ban}
use chiliztv_com.Moderation.Banning.{
  ban_account as issue_ban, BanAccountInput, ban_account as issue_ban,
}
use chiliztv_com.Moderation.World.{World, Failure, outage}
use chiliztv_com.Moderation.Reports.{
  Report, TargetType, stream, message, account, same_type, StoreError, find_open_on_target,
  mark_actioned_batch,
}
use chiliztv_com.Moderation.Actions.{ReportAction, save_action, soft_delete_message_row}
use chiliztv_com.Moderation.Threshold.{
  Evaluation, EvaluateInput, Run, Desk, decide, reporters, kind_by_target,
}

-- `persistAction`: the action that is to be saved; `ban_id` is that of the ban of an account.
abbrev pub new_action :
    Run → EvaluateInput → List Report → QuorumSnapshot → Option String → ReportAction
new_action run input reports snapshot ban_id =
    let target = input.target in
    record {
      id = run.action_id;
      kind = kind_by_target target.target_type;
      target_type = target.target_type;
      target_id = target.target_id;
      live_context_match_id = target.live_context_match_id;
      quorum_snapshot = snapshot;
      reporter_wallets = reporters reports;
      triggered_at = run.triggered_at;
      reversed_at = none;
      reversed_by_wallet = none;
      reverse_note = none;
      affected_message_id =
          if same_type target.target_type message then some target.target_id else none;
      affected_stream_id =
          if same_type target.target_type stream then some target.target_id else none;
      affected_ban_id = ban_id;
    }

abbrev pub report_ids : List Report → List String
report_ids reports = map (λ (r : Report). r.id) reports

abbrev pub ban_input : EvaluateInput → List Report → QuorumSnapshot → BanAccountInput
ban_input input reports snapshot = record {
  wallet_address = input.target.target_id;
  quorum_snapshot = snapshot;
  triggered_by_report_id = elim reports [ [] ↦ none | r ∷ _ ↦ some r.id ];
  triggering_live_match_id = input.target.live_context_match_id;
  duration_hours_override = none;
}

module _ (e : Evaluation) where
  -- What follows the insert of the action, by the kind of the target.
  unfoldable pub apply_action :
      TargetType
      → Run
      → EvaluateInput
      → List Report
      → String
      → Desk
      → Result Failure (Unit {0}) × Desk
  apply_action message run input reports action_id desk = (
    ok tt,
    record desk {
      messages =
          soft_delete_message_row input.target.target_id action_id run.removed_at desk.messages;
      reports = mark_actioned_batch (report_ids reports) action_id desk.reports;
    },
  )
  apply_action stream run input reports action_id desk =
      if e.stops input.target.target_id
      then (
        ok tt,
        record desk { reports = mark_actioned_batch (report_ids reports) action_id desk.reports },
      )
      else (throws outage, desk)
  apply_action account run input reports action_id desk = (
    ok tt,
    record desk { reports = mark_actioned_batch (report_ids reports) action_id desk.reports },
  )

  unfoldable pub persisted :
      Run
      → EvaluateInput
      → List Report
      → Desk
      → Result StoreError (ReportAction × List ReportAction)
      → Result Failure (Unit {0}) × Desk
  persisted run input reports desk (throws s) = (throws outage, desk)
  persisted run input reports desk (ok (action, rows)) =
      apply_action input.target.target_type run input reports action.id
        (record desk { actions = rows })

  unfoldable pub after_ban :
      Run
      → EvaluateInput
      → List Report
      → QuorumSnapshot
      → Desk
      → Result Failure Ban × World
      → Result Failure (Unit {0}) × Desk
  unfolding persisted
  after_ban run input reports snapshot desk (throws f, world) =
      (throws f, record desk { world = world })
  after_ban run input reports snapshot desk (ok ban, world) =
      persisted run input reports (record desk { world = world })
        (save_action (new_action run input reports snapshot (some ban.id)) desk.actions)

  unfoldable pub act :
      TargetType
      → Run
      → EvaluateInput
      → List Report
      → QuorumSnapshot
      → Desk
      → Result Failure (Unit {0}) × Desk
  unfolding persisted after_ban
  act account run input reports snapshot desk =
      after_ban run input reports snapshot desk
        (issue_ban e.services run.ban_id run.ban_now (ban_input input reports snapshot) desk.world)
  act _ run input reports snapshot desk =
      persisted run input reports desk
        (save_action (new_action run input reports snapshot none) desk.actions)

  unfoldable pub carry_out :
      Run
      → EvaluateInput
      → Desk
      → Result Failure (Option QuorumSnapshot)
      → Result Failure (Unit {0}) × Desk
  carry_out run input desk (throws f) = (throws f, desk)
  carry_out run input desk (ok none) = (ok tt, desk)
  carry_out run input desk (ok (some snapshot)) =
      act input.target.target_type run input (find_open_on_target input.target desk.reports)
        snapshot desk

  unfoldable pub evaluate : Run → EvaluateInput → Desk → Result Failure (Unit {0}) × Desk
  unfolding carry_out
  evaluate run input desk = carry_out run input desk (decide e run.now input desk)

  -- The evaluation is skipped where the lock is taken.
  unfoldable pub execute_evaluation : Run → EvaluateInput → Desk → Result Failure (Unit {0}) × Desk
  execute_evaluation run input desk = if e.acquired then evaluate run input desk else (ok tt, desk)
