-- ===== src/Moderation/Filing.antt =====
-- apps/backend/src/application/reporting/use-cases/CreateReportUseCase.ts, with the taxonomy of
-- packages/shared/src/dto/reporting: who may report, what is stored, and the evaluation that follows.
pub mod Admission
pub mod Stored
use chiliztv_com.Base.{
  [], ℕ, Bool, true, false, Option, none, some, List, any, String, Text, text_eq, to_lower_case,
  Result, ok, throws, if◌then◌else◌, is_some,
}
use chiliztv_com.Moderation.Policies.{
  ReportConfig, EligibilityInput, EligibilityResult, Ineligibility, self_report, eligible, rejected,
  is_eligible,
}
use chiliztv_com.Moderation.Bans.{Ban, find_active_ban}
use chiliztv_com.Moderation.Rows.{QueryError}
use chiliztv_com.Moderation.World.{Failure, outage}
use chiliztv_com.Moderation.Reports.{
  Report, NewReport, create_report, Target, TargetType, stream, message, account, StoreError,
  save_report, exists_for_reporter,
}
use chiliztv_com.Moderation.Threshold.{Evaluation, EvaluateInput, Run, Desk}
use chiliztv_com.Moderation.Threshold.Acting.{execute_evaluation}

pub data ReasonCode : Type 0 where
  spam harassment hate_speech violence sexual_content child_safety illegal_content scam off_topic
        other :
      ReasonCode

unfoldable pub reason_severity : ReasonCode → ℕ
reason_severity child_safety = 5
reason_severity illegal_content = 4
reason_severity violence = 4
reason_severity sexual_content = 4
reason_severity hate_speech = 3
reason_severity scam = 3
reason_severity harassment = 2
reason_severity spam = 2
reason_severity off_topic = 1
reason_severity other = 1

-- The text of a code, as the column stores it.
abbrev reason_text : ReasonCode → String
reason_text spam = "spam"
reason_text harassment = "harassment"
reason_text hate_speech = "hate_speech"
reason_text violence = "violence"
reason_text sexual_content = "sexual_content"
reason_text child_safety = "child_safety"
reason_text illegal_content = "illegal_content"
reason_text scam = "scam"
reason_text off_topic = "off_topic"
reason_text other = "other"

pub record CreateReportDto : Type 0 where
  pub target_type : TargetType
  pub target_id : Text
  pub reason_code : ReasonCode
  pub reason_free_text : Option String
  pub live_context_match_id : Option ℕ
  pub live_context_stream_id : Option Text

pub data FilingError : Type 0 where
  business_rule : Ineligibility → FilingError
  already_reported : FilingError
  failed : Failure → FilingError

-- The services beside those of the evaluation: the history of bets, and the author of a message (none
-- where the lookup fails or finds nothing).
pub record Filing : Type 0 where
  pub evaluation : Evaluation
  pub has_ever_bet : Text → Result Failure Bool
  pub author_of : Text → Option Text

abbrev is_wallet : Text → Option Text → Bool
is_wallet wallet none = false
is_wallet wallet (some found) = text_eq (to_lower_case found) wallet

abbrev stored_id : TargetType → Text → Text
stored_id account id = to_lower_case id
stored_id _ id = id

-- `Promise.all` over the three lookups, then `isEligible`.
unfoldable pub eligibility :
    Text
    → Bool
    → Result QueryError (Option Ban)
    → Result Failure Bool
    → Result Failure (List Text)
    → Result Failure EligibilityResult
eligibility wallet is_streamer (ok active_ban) (ok has_ever_bet) (ok wallets) = ok (
    is_eligible (record {
      is_present = any (text_eq wallet) wallets;
      has_ever_bet = has_ever_bet;
      is_streamer = is_streamer;
      is_banned = is_some active_ban;
      is_self_report = false;
    }))
eligibility wallet is_streamer (throws q) h w = throws outage
eligibility wallet is_streamer (ok b) (throws e) w = throws e
eligibility wallet is_streamer (ok b) (ok h) (throws e) = throws e

-- The dedup lookup, which takes the target's id as the client wrote it.
abbrev pub asked_target : CreateReportDto → Target
asked_target dto = record {
  target_type = dto.target_type;
  target_id = dto.target_id;
  live_context_match_id = dto.live_context_match_id;
}

unfoldable pub admitted :
    Text → CreateReportDto → Desk → Result Failure EligibilityResult → Result FilingError (Unit {0})
admitted wallet dto desk (throws e) = throws (failed e)
admitted wallet dto desk (ok (rejected reason)) = throws (business_rule reason)
admitted wallet dto desk (ok eligible) =
    if exists_for_reporter wallet (asked_target dto) desk.reports
    then throws already_reported
    else ok tt

abbrev pub new_report : String → ℕ → Text → CreateReportDto → Report
new_report id now wallet dto = create_report id (record {
  target_type = dto.target_type;
  target_id = stored_id dto.target_type dto.target_id;
  reporter_wallet = wallet;
  live_context_match_id = dto.live_context_match_id;
  live_context_stream_id = dto.live_context_stream_id;
  reason_code = reason_text dto.reason_code;
  reason_free_text = dto.reason_free_text;
  severity = reason_severity dto.reason_code;
  created_at = now;
})

abbrev pub evaluate_input : CreateReportDto → EvaluateInput
evaluate_input dto = record {
  target = record {
    target_type = dto.target_type;
    target_id = stored_id dto.target_type dto.target_id;
    live_context_match_id = dto.live_context_match_id;
  };
  live_context_stream_id = dto.live_context_stream_id;
}

unfoldable pub evaluated :
    Report → Result Failure (Unit {0}) × Desk → Result FilingError Report × Desk
evaluated report (throws e, desk) = (throws (failed e), desk)
evaluated report (ok _, desk) = (ok report, desk)

module _ (f : Filing) where
  unfoldable pub is_self_report : Text → TargetType → Text → Bool
  is_self_report wallet account id = text_eq (to_lower_case id) wallet
  is_self_report wallet message id = is_wallet wallet (f.author_of id)
  is_self_report wallet stream id = is_wallet wallet (f.evaluation.streamer_of id)

  -- The streamer of the live in which the report is made.
  unfoldable pub is_context_streamer : Text → Option Text → Bool
  is_context_streamer wallet none = false
  is_context_streamer wallet (some id) = is_wallet wallet (f.evaluation.streamer_of id)

  unfoldable pub present_wallets : Option ℕ → ℕ → ℕ → Result Failure (List Text)
  present_wallets none min_presence_sec now = ok []
  present_wallets (some match_id) min_presence_sec now =
      f.evaluation.eligible_wallets match_id min_presence_sec now

  unfoldable pub eligibility_under :
      Result Failure ReportConfig
      → ℕ
      → Text
      → CreateReportDto
      → Desk
      → Result Failure EligibilityResult
  unfolding eligibility
  eligibility_under (throws e) now wallet dto desk = throws e
  eligibility_under (ok config) now wallet dto desk =
      eligibility wallet (is_context_streamer wallet dto.live_context_stream_id)
        (find_active_ban wallet now desk.world.bans) (f.has_ever_bet wallet)
        (present_wallets dto.live_context_match_id config.min_presence_sec now)

  -- The guards, in their order.
  unfoldable pub admit : ℕ → Text → CreateReportDto → Desk → Result FilingError (Unit {0})
  unfolding admitted
  admit now wallet dto desk =
      if is_self_report wallet dto.target_type dto.target_id
      then throws (business_rule self_report)
      else admitted wallet dto desk
          (eligibility_under f.evaluation.services.config now wallet dto desk)

  -- The repository reports each failure of the insert in words of its own, in which the use case does
  -- not find the `duplicate` that it looks for.
  unfoldable pub stored :
      Run
      → Report
      → CreateReportDto
      → Desk
      → Result StoreError (List Report)
      → Result FilingError Report × Desk
  unfolding evaluated
  stored run report dto desk (throws e) = (throws (failed outage), desk)
  stored run report dto desk (ok rows) =
      evaluated report
        (execute_evaluation f.evaluation run (evaluate_input dto) (record desk { reports = rows }))

  unfoldable pub after_admission :
      String
      → ℕ
      → Run
      → Text
      → CreateReportDto
      → Desk
      → Result FilingError (Unit {0})
      → Result FilingError Report × Desk
  unfolding stored
  after_admission id now run wallet dto desk (throws e) = (throws e, desk)
  after_admission id now run wallet dto desk (ok _) =
      let report = new_report id now wallet dto in
      stored run report dto desk (save_report report desk.reports)

  unfoldable pub file_report :
      String → ℕ → Run → Text → CreateReportDto → Desk → Result FilingError Report × Desk
  unfolding after_admission
  file_report id now run reporter dto desk =
      let wallet = to_lower_case reporter in
      after_admission id now run wallet dto desk (admit now wallet dto desk)
