-- ===== src/Moderation/Threshold/StopFailure.antt =====
-- What an evaluation leaves behind when the stop of a stream throws.
use chiliztv_com.Base.{String, none, some, List, ◌≡◌, refl, ok, throws, false, ap, ◌∙◌}
use chiliztv_com.Moderation.Policies.{QuorumSnapshot}
use chiliztv_com.Moderation.World.{outage}
use chiliztv_com.Moderation.Reports.{Report, TargetType, stream, find_open_on_target}
use chiliztv_com.Moderation.Actions.{ReportAction, save_action, find_active_for_target}
use chiliztv_com.Moderation.Actions.OneUnreversed.{IsRegister, save_action_lem}
use chiliztv_com.Moderation.Threshold.{Evaluation, EvaluateInput, Run, Desk, decide}
use chiliztv_com.Moderation.Threshold.Acting.{
  new_action, apply_action, persisted, act, carry_out, evaluate,
}
use chiliztv_com.Moderation.Threshold.Steps.{stays}

module _ (e : Evaluation) (run : Run) (input : EvaluateInput) where
  apply_failing :
      (reports : List Report) (id : String) (desk : Desk)
      → e.stops input.target.target_id ≡ false
      → apply_action e stream run input reports id desk ≡ (throws outage, desk)
  unfolding apply_action
  apply_failing reports id desk s = rw s refl

  act_failing :
      (type : TargetType) (reports : List Report) (snapshot : QuorumSnapshot) (desk : Desk)
      (stored : ReportAction) (rows : List ReportAction)
      → type ≡ stream
      → input.target.target_type ≡ stream
      → e.stops input.target.target_id ≡ false
      → save_action (new_action run input reports snapshot none) desk.actions ≡ ok (stored, rows)
      → act e type run input reports snapshot desk ≡ (throws outage, record desk { actions = rows })
  unfolding act persisted
  act_failing type reports snapshot desk stored rows t u s saved =
      ap (λ x. act e x run input reports snapshot desk) t
      ∙ ap (persisted e run input reports desk) saved
      ∙ ap (λ x. apply_action e x run input reports stored.id (record desk { actions = rows })) u
      ∙ apply_failing reports stored.id (record desk { actions = rows }) s

-- The action of a stream is filed before the stream is stopped. Where the stop throws, the evaluation
-- fails with the action on file and every report still open, and each later evaluation of the same target,
-- in the same live match, returns normally without a change, whatever reports have come in since, whatever
-- else the desk holds and whatever the services then answer, as long as the actions are as they were left.
pub stop_failure_sticks :
    (e later : Evaluation) (run again : Run) (input next : EvaluateInput) (desk then : Desk)
    (snapshot : QuorumSnapshot) (stored : ReportAction) (rows : List ReportAction)
    → IsRegister desk.actions
    → decide e run.now input desk ≡ ok (some snapshot)
    → input.target.target_type ≡ stream
    → e.stops input.target.target_id ≡ false
    → save_action
        (new_action run input (find_open_on_target input.target desk.reports) snapshot none)
        desk.actions
      ≡ ok (stored, rows)
    → next.target ≡ input.target
    → then.actions ≡ rows
    → (evaluate e run input desk ≡ (throws outage, record desk { actions = rows }))
      × (find_active_for_target input.target rows ≡ ok (some stored))
      × (evaluate later again next then ≡ (ok tt, then))
unfolding evaluate carry_out
stop_failure_sticks e later run again input next desk then snapshot stored rows r d t s saved same
      kept =
    let reports = find_open_on_target input.target desk.reports in
    let (register, found, _) =
      save_action_lem (new_action run input reports snapshot none) stored desk.actions rows r refl
        saved in
    (
      ap (carry_out e run input desk) d
          ∙ act_failing e run input input.target.target_type reports snapshot desk stored rows t t s
              saved,
      found,
      stays later again next then stored (rw (same, kept) found),
    )
