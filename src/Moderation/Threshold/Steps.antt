-- ===== src/Moderation/Threshold/Steps.antt =====
-- What an evaluation that triggers leaves behind, and why it triggers once.
use chiliztv_com.Moderation.Actions.OneUnreversed.{save_action_lem, IsRegister}
use chiliztv_com.Base.{
  Among-update_where, filter_nothing, arith, false, if◌then◌else◌, Among-filter, map-Among, has_iff,
  has, true, ◌&&◌, ◌∙◌, sym, ap, Among, [], Bool-cases, String, Option, none, some, List, ◌≡◌, refl,
  inl, inr, Result, ok, throws,
}
use chiliztv_com.Moderation.Policies.{QuorumSnapshot}
use chiliztv_com.Moderation.Bans.{Ban}
use chiliztv_com.Moderation.World.{World, Failure}
use chiliztv_com.Moderation.Reports.{
  actioned, is_open, target_of, same_target, Target, find_open_on_target, Report, TargetType,
  stream, message, account, StoreError, mark_actioned_batch,
}
use chiliztv_com.Moderation.Actions.{find_active_for_target, ReportAction, save_action}
use chiliztv_com.Moderation.Threshold.{
  decide_under, unless_active, decide, Evaluation, EvaluateInput, Run, Desk,
}
use chiliztv_com.Moderation.Threshold.Acting.{
  carry_out, evaluate, new_action, report_ids, apply_action, persisted, after_ban, act,
}

module _ (e : Evaluation) (run : Run) (input : EvaluateInput) where
  apply-outcome :
      (type : TargetType) (reports : List Report) (id : String) (desk after : Desk)
      → apply_action e type run input reports id desk ≡ (ok tt, after)
      → (after.actions ≡ desk.actions)
        × (after.reports ≡ mark_actioned_batch (report_ids reports) id desk.reports)
  unfolding apply_action
  apply-outcome message reports id desk after h = (cc h, cc h)
  apply-outcome account reports id desk after h = (cc h, cc h)
  apply-outcome stream reports id desk after h =
      elim (Bool-cases (e.stops input.target.target_id)) [
        | inl b ↦ (cc (rw b at h), cc (rw b at h))
        | inr b ↦ absurd (cc (rw b at h))
      ]

  persisted-outcome :
      (reports : List Report) (desk after : Desk)
      (r : Result StoreError (ReportAction × List ReportAction))
      → persisted e run input reports desk r ≡ (ok tt, after)
      → (stored : ReportAction) × (rows : List ReportAction) × (r ≡ ok (stored, rows))
        × (after.actions ≡ rows)
        × (after.reports ≡ mark_actioned_batch (report_ids reports) stored.id desk.reports)
  unfolding persisted
  persisted-outcome reports desk after (throws s) h = absurd (cc h)
  persisted-outcome reports desk after (ok (stored, rows)) h =
      let (a, m) =
        apply-outcome input.target.target_type reports stored.id (record desk { actions = rows })
          after h in
      (stored, rows, refl, a, m)

  -- The action that the run files, for some ban or for none.
  record Filed (reports : List Report) (snapshot : QuorumSnapshot) (desk after : Desk)
      : Type 0 where
    ban_id : Option String
    stored : ReportAction
    rows : List ReportAction
    saved :
        save_action (new_action run input reports snapshot ban_id) desk.actions ≡ ok (stored, rows)
    actions_after : after.actions ≡ rows
    reports_after : after.reports ≡ mark_actioned_batch (report_ids reports) stored.id desk.reports

  filed :
      (reports : List Report) (snapshot : QuorumSnapshot) (desk after : Desk)
      (ban_id : Option String) (start : Desk)
      → start.reports ≡ desk.reports
      → persisted e run input reports start
          (save_action (new_action run input reports snapshot ban_id) desk.actions)
        ≡ (ok tt, after)
      → Filed reports snapshot desk after
  filed reports snapshot desk after ban_id start same h =
      let (stored, rows, r, a, m) = persisted-outcome reports start after _ h in
      record {
        ban_id = ban_id;
        stored = stored;
        rows = rows;
        saved = r;
        actions_after = a;
        reports_after = m ∙ ap (mark_actioned_batch (report_ids reports) stored.id) same;
      }

  after_ban-outcome :
      (reports : List Report) (snapshot : QuorumSnapshot) (desk after : Desk)
      (r : Result Failure Ban × World)
      → after_ban e run input reports snapshot desk r ≡ (ok tt, after)
      → Filed reports snapshot desk after
  unfolding after_ban
  after_ban-outcome reports snapshot desk after (throws f, world) h = absurd (cc h)
  after_ban-outcome reports snapshot desk after (ok ban, world) h =
      filed reports snapshot desk after (some ban.id) (record desk { world = world }) refl h

  act-outcome :
      (type : TargetType) (reports : List Report) (snapshot : QuorumSnapshot) (desk after : Desk)
      → act e type run input reports snapshot desk ≡ (ok tt, after)
      → Filed reports snapshot desk after
  unfolding act
  act-outcome account reports snapshot desk after h =
      after_ban-outcome reports snapshot desk after _ h
  act-outcome stream reports snapshot desk after h =
      filed reports snapshot desk after none desk refl h
  act-outcome message reports snapshot desk after h =
      filed reports snapshot desk after none desk refl h

none_open :
    (t : Target) (id : String) (reports : List Report)
    → find_open_on_target t
        (mark_actioned_batch (report_ids (find_open_on_target t reports)) id reports)
      ≡ []
unfolding find_open_on_target mark_actioned_batch
none_open t id reports =
    filter_nothing (λ row. same_target (target_of row) t && is_open row.status) _
      (λ b m.
        let (row, n, at) =
          Among-update_where (λ row. has listed row.id && is_open row.status) (actioned id) reports
            b m in
        rw at (closed row n))
  where
    listed : List String
    listed = report_ids (find_open_on_target t reports)

    in_batch :
        (row : Report)
        → Among row reports
        → (same_target (target_of row) t && is_open row.status) ≡ true
        → has listed row.id ≡ true
    in_batch row n h = (has_iff listed row.id).1 (
        map-Among (λ (r : Report). r.id) (find_open_on_target t reports) row
          ((Among-filter (λ r. same_target (target_of r) t && is_open r.status) reports row).1
            (n, h)))

    closed :
        (row : Report)
        → Among row reports
        → (same_target
              (target_of (if has listed row.id && is_open row.status then actioned id row else row))
              t
            && is_open
                (if has listed row.id && is_open row.status then actioned id row else row).status)
          ≡ false
    closed row n = elim (Bool-cases (same_target (target_of row) t && is_open row.status)) [
      | inl h ↦ rw (in_batch row n h) (ground arith)
      | inr h ↦ ground arith
    ]

module _ (e : Evaluation) where
  -- An active action ends every later evaluation of its target.
  pub stays :
      (again : Run) (input : EvaluateInput) (desk : Desk) (a : ReportAction)
      → find_active_for_target input.target desk.actions ≡ ok (some a)
      → evaluate e again input desk ≡ (ok tt, desk)
  unfolding evaluate decide unless_active carry_out
  stays again input desk a h =
      ap
        (λ r.
          carry_out e again input desk
            (unless_active r (decide_under e e.services.config again.now input desk)))
        h

  -- An evaluation that triggers and comes to its end leaves its target with one active action and no
  -- open report, keeps the invariant of the actions, and is the last: whoever evaluates the target
  -- again, at whatever time, changes nothing.
  pub evaluate_once :
      (run again : Run) (input : EvaluateInput) (desk after : Desk) (snapshot : QuorumSnapshot)
      → IsRegister desk.actions
      → decide e run.now input desk ≡ ok (some snapshot)
      → evaluate e run input desk ≡ (ok tt, after)
      → ((a : ReportAction) × (find_active_for_target input.target after.actions ≡ ok (some a)))
        × IsRegister after.actions
        × (find_open_on_target input.target after.reports ≡ [])
        × (evaluate e again input after ≡ (ok tt, after))
  unfolding evaluate carry_out
  evaluate_once run again input desk after snapshot r d h =
      let reports = find_open_on_target input.target desk.reports in
      let f =
        act-outcome e run input input.target.target_type reports snapshot desk after
          (ap (carry_out e run input desk) (sym d) ∙ h) in
      let (register, found, _) =
        save_action_lem (new_action run input reports snapshot f.ban_id) f.stored desk.actions
          f.rows r refl f.saved in
      let active = ap (find_active_for_target input.target) f.actions_after ∙ found in
      (
        (f.stored, active),
        rw f.actions_after register,
        ap (find_open_on_target input.target) f.reports_after
            ∙ none_open input.target f.stored.id desk.reports,
        stays again input after f.stored active,
      )
