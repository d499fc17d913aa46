-- ===== src/Tests/Reports.antt =====
-- Reports, their evaluation and their filing at concrete inputs.
use chiliztv_com.Moderation.Bans.{find_active_ban, Ban, active}
use chiliztv_com.Moderation.Threshold.StopFailure.{stop_failure_sticks}
use chiliztv_com.Moderation.Threshold.Steps.{evaluate_once}
use chiliztv_com.Moderation.Filing.Stored.{duplicate_fails}
use chiliztv_com.Moderation.Filing.Admission.{admit_iff, Admissible}
use chiliztv_com.Moderation.World.{outage}
use chiliztv_com.Moderation.Actions.OneUnreversed.{IsRegister}
use chiliztv_com.Moderation.Filing.{
  reason_severity, evaluated, stored, present_wallets, is_context_streamer, is_self_report,
  eligibility, spam, eligibility_under, admitted, failed, after_admission, new_report, Filing,
  CreateReportDto, admit, file_report,
}
use chiliztv_com.Base.{
  ℕ, Bool, true, false, Option, none, some, List, [], ◌∷◌, ◌≡◌, ◌≢◌, refl, sym, ◌↔◌, ◌⊎◌, inl, inr,
  arith, String, Text, codes, to_lower_case, Among, All, Result, ok, throws,
}
use chiliztv_com.Moderation.Policies.{
  is_eligible, QuorumSnapshot, quorum, threshold, evaluate_quorum,
}
use chiliztv_com.Moderation.Reports.{
  save_report, exists_for_reporter, account, Report, Target, TargetType, message, stream,
  create_report, find_open_on_target, same_target, same_type, same_context,
}
use chiliztv_com.Moderation.Actions.{save_action, ReportAction, find_active_for_target}
use chiliztv_com.Moderation.Threshold.{
  Evaluation, EvaluateInput, Run, Desk, decide, decide_under, judged, unless_active, count_eligible,
}
use chiliztv_com.Moderation.Threshold.Acting.{
  execute_evaluation, apply_action, persisted, new_action, act, carry_out, evaluate,
}
use chiliztv_com.Moderation.Threshold.Decision.{Triggers, decide_iff}
use chiliztv_com.Tests.Bans.{wallet, services}

abbrev report : String → String → TargetType → Report
report id reporter type = create_report id (record {
  target_type = type;
  target_id = codes "t1";
  reporter_wallet = codes reporter;
  live_context_match_id = none;
  live_context_stream_id = none;
  reason_code = "spam";
  reason_free_text = none;
  severity = 2;
  created_at = 5;
})

abbrev target : TargetType → Target
target type = record { target_type = type; target_id = codes "t1"; live_context_match_id = none }

abbrev evaluation : Evaluation
evaluation = record {
  services = services;
  acquired = true;
  eligible_wallets = λ m s n. ok [];
  streamer_of = λ s. none;
  stops = λ s. false;
}

abbrev desk : TargetType → Desk
desk type = record {
  reports = report "r2" "0xb" type ∷ report "r1" "0xa" type ∷ [];
  actions = [];
  messages =
      record { id = codes "t1"; match_id = 7; removed_at = none; removed_by_action_id = none } ∷ [];
  world = record { bans = []; log = [] };
}

abbrev input : TargetType → EvaluateInput
input type = record { target = target type; live_context_stream_id = none }

abbrev run_at : String → ℕ → Run
run_at id now = record {
  action_id = id;
  ban_id = "b";
  now = now;
  ban_now = now;
  triggered_at = now;
  removed_at = now;
}

-- Two reporters reach the floor of two.
abbrev pub two_reporters : QuorumSnapshot
two_reporters = record {
  trigger = quorum;
  issued_by = none;
  reason = none;
  total_eligible = some 0;
  distinct_reports = 2;
  quorum_pct = 20;
  floor_count = 2;
  max_severity = 2;
  evaluated_at = 9;
}

message-triggers : decide evaluation 9 (input message) (desk message) ≡ ok (some two_reporters)
unfolding decide decide_under judged unless_active count_eligible evaluate_quorum threshold
    find_active_for_target find_open_on_target same_target same_type same_context
    chiliztv_com.Base.text_eq chiliztv_com.Base.lower
message-triggers = refl

decide_iff_example :
    (decide evaluation 9 (input message) (desk message) ≡ ok (some two_reporters))
    ↔ Triggers evaluation 9 (input message) (desk message) two_reporters
decide_iff_example = decide_iff evaluation 9 (input message) (desk message) two_reporters

stream-triggers : decide evaluation 9 (input stream) (desk stream) ≡ ok (some two_reporters)
unfolding decide decide_under judged unless_active count_eligible evaluate_quorum threshold
    find_active_for_target find_open_on_target same_target same_type same_context
    chiliztv_com.Base.text_eq chiliztv_com.Base.lower
stream-triggers = refl

abbrev after_message : Desk
after_message = (evaluate evaluation (run_at "a1" 9) (input message) (desk message)).1

message-evaluates :
    evaluate evaluation (run_at "a1" 9) (input message) (desk message) ≡ (ok tt, after_message)
unfolding evaluate carry_out act persisted apply_action save_action decide decide_under judged
    unless_active count_eligible evaluate_quorum threshold find_active_for_target
    find_open_on_target same_target same_type same_context chiliztv_com.Base.text_eq
    chiliztv_com.Base.lower
message-evaluates = refl

evaluate_once_example :
    ((a : ReportAction) × (find_active_for_target (target message) after_message.actions
        ≡ ok (some a)))
    × IsRegister after_message.actions
    × (find_open_on_target (target message) after_message.reports ≡ [])
    × (evaluate evaluation (run_at "a2" 20) (input message) after_message ≡ (ok tt, after_message))
evaluate_once_example =
    evaluate_once evaluation (run_at "a1" 9) (run_at "a2" 20) (input message) (desk message)
      after_message two_reporters tt message-triggers message-evaluates

abbrev stream_action : ReportAction
stream_action =
    new_action (run_at "a1" 9) (input stream)
      (find_open_on_target (target stream) (desk stream).reports) two_reporters none

stream-saved : save_action stream_action [] ≡ ok (stream_action, stream_action ∷ [])
unfolding save_action
stream-saved = refl

-- A third report has come in by the second evaluation, and the streams can be stopped again.
abbrev desk_later : Desk
desk_later = record (desk stream) {
  reports = report "r9" "0xc" stream ∷ (desk stream).reports;
  actions = stream_action ∷ [];
}

stop_failure_sticks_example :
    (evaluate evaluation (run_at "a1" 9) (input stream) (desk stream)
      ≡ (throws outage, record (desk stream) { actions = stream_action ∷ [] }))
    × (find_active_for_target (target stream) (stream_action ∷ []) ≡ ok (some stream_action))
    × (evaluate
          (record evaluation { stops = λ id. true })
          (run_at "a2" 20)
          (input stream)
          desk_later
        ≡ (ok tt, desk_later))
stop_failure_sticks_example =
    stop_failure_sticks evaluation (record evaluation { stops = λ id. true }) (run_at "a1" 9)
      (run_at "a2" 20) (input stream) (input stream) (desk stream) desk_later two_reporters
      stream_action (stream_action ∷ []) tt stream-triggers refl refl stream-saved refl refl

abbrev filing : Filing
filing = record { evaluation = evaluation; has_ever_bet = λ w. ok true; author_of = λ m. none }

-- The client writes the account in capitals.
abbrev dto : CreateReportDto
dto = record {
  target_type = account;
  target_id = codes "0xCD";
  reason_code = spam;
  reason_free_text = none;
  live_context_match_id = none;
  live_context_stream_id = none;
}

abbrev quiet_desk : Desk
quiet_desk = record {
  reports = [];
  actions = [];
  messages = [];
  world = record { bans = []; log = [] };
}

abbrev first : Report
first = new_report "r1" 5 (to_lower_case (codes "0xA")) dto

abbrev desk_with_first : Desk
desk_with_first = record quiet_desk { reports = first ∷ [] }

admit_iff_example :
    (admit filing 5 wallet dto quiet_desk ≡ ok tt) ↔ Admissible filing 5 wallet dto quiet_desk
admit_iff_example = admit_iff filing 5 wallet dto quiet_desk

first-filed :
    file_report filing "r1" 5 (run_at "a1" 5) (codes "0xA") dto quiet_desk
    ≡ (ok first, desk_with_first)
unfolding file_report after_admission admit admitted eligibility_under eligibility is_self_report
    is_context_streamer present_wallets is_eligible find_active_ban stored evaluated save_report
    execute_evaluation evaluate carry_out decide decide_under judged unless_active count_eligible
    evaluate_quorum threshold find_active_for_target find_open_on_target exists_for_reporter
    same_target same_type same_context chiliztv_com.Base.text_eq chiliztv_com.Base.lower
    reason_severity
first-filed = refl

let_through_again : admit filing 6 (to_lower_case (codes "0xA")) dto desk_with_first ≡ ok tt
unfolding admit admitted eligibility_under eligibility is_self_report is_context_streamer
    present_wallets is_eligible find_active_ban exists_for_reporter same_target same_type
    same_context chiliztv_com.Base.text_eq chiliztv_com.Base.lower
let_through_again = refl

duplicate_fails_example :
    file_report filing "r2" 6 (run_at "a2" 6) (codes "0xA") dto desk_with_first
    ≡ (throws (failed outage), desk_with_first)
unfolding chiliztv_com.Base.lower
duplicate_fails_example =
    duplicate_fails filing "r2" 6 (run_at "a2" 6) (codes "0xA") dto desk_with_first first
      ((admit_iff filing 6 (to_lower_case (codes "0xA")) dto desk_with_first).0 let_through_again)
      (inl refl) refl refl

abbrev banned_wallet : Ban
banned_wallet = record {
  id = "b1";
  wallet_address = codes "0xb";
  status = active;
  triggered_by_report_id = none;
  triggering_live_match_id = none;
  quorum_snapshot = two_reporters;
  starts_at = 1;
  expires_at = some 100;
  ended_at = none;
  escalation_index = 1;
  lifted_by_wallet = none;
  lift_note = none;
}

-- Four wallets were present; the streamer and the banned one do not count.
run-counts :
    count_eligible
      (record evaluation {
        eligible_wallets = λ m s n. ok (codes "0xa" ∷ codes "0xb" ∷ codes "0xc" ∷ codes "0xd" ∷ []);
        streamer_of = λ s. some (codes "0xD");
      })
      (record (input stream) { target = record (target stream) { live_context_match_id = some 7 } })
      60
      50
      (banned_wallet ∷ [])
    ≡ ok 2
unfolding count_eligible chiliztv_com.Moderation.Threshold.eligible_count
    chiliztv_com.Moderation.Threshold.resolve_streamer_wallet
    chiliztv_com.Moderation.Bans.find_active_wallets chiliztv_com.Base.text_eq
    chiliztv_com.Base.lower
run-counts = refl
