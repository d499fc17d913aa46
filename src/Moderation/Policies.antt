-- ===== src/Moderation/Policies.antt =====
-- packages/domain/src/reporting/policies and value-objects: when reports trigger an action, how long
-- the next ban lasts, and who may report.
pub mod Quorum
pub mod Escalation
use chiliztv_com.Base.{
  ℕ, suc, ◌+◌, ◌*◌, ◌/◌, max, Bool, true, false, not, Option, none, some, ◌&&◌, ◌==◌, ltb, leb,
  String, if◌then◌else◌,
}

-- The thresholds are whole numbers; `quorum_pct` is a percentage.
pub record ReportConfig : Type 0 where
  pub quorum_pct : ℕ
  pub floor_count : ℕ
  pub min_presence_sec : ℕ
  pub ban_first_hours : ℕ
  pub ban_second_hours : ℕ
  pub bypass_severity_threshold : ℕ

pub data Trigger : Type 0 where
  quorum severity_bypass admin_manual : Trigger

-- `evaluated_at` is the moment of which the code stores the ISO form.
pub record QuorumSnapshot : Type 0 where
  pub trigger : Trigger
  pub issued_by : Option String
  pub reason : Option String
  pub total_eligible : Option ℕ
  pub distinct_reports : ℕ
  pub quorum_pct : ℕ
  pub floor_count : ℕ
  pub max_severity : ℕ
  pub evaluated_at : ℕ

pub record QuorumInput : Type 0 where
  pub distinct_reports : ℕ
  pub total_eligible : ℕ
  pub max_severity : ℕ
  pub config : ReportConfig
  pub now : ℕ

pub data QuorumDecision : Type 0 where
  triggered : QuorumSnapshot → QuorumDecision
  below_threshold : QuorumDecision

abbrev pub snapshot : Trigger → Option ℕ → QuorumInput → QuorumSnapshot
snapshot trigger eligible input = record {
  trigger = trigger;
  issued_by = none;
  reason = none;
  total_eligible = eligible;
  distinct_reports = input.distinct_reports;
  quorum_pct = input.config.quorum_pct;
  floor_count = input.config.floor_count;
  max_severity = input.max_severity;
  evaluated_at = input.now;
}

-- `Math.max(floor, Math.ceil(totalEligible * quorumPct / 100))`
unfoldable pub threshold : QuorumInput → ℕ
threshold input =
    max input.config.floor_count ((input.total_eligible * input.config.quorum_pct + 99) / 100)

unfoldable pub evaluate_quorum : QuorumInput → QuorumDecision
evaluate_quorum input =
    if leb input.config.bypass_severity_threshold input.max_severity
    then triggered (snapshot severity_bypass none input)
    else if ltb input.distinct_reports (threshold input)
    then below_threshold
    else triggered (snapshot quorum (some input.total_eligible) input)

pub record NextBanTerms : Type 0 where
  pub starts_at : ℕ
  pub expires_at : Option ℕ
  pub escalation_index : ℕ

abbrev pub hour_ms : ℕ
hour_ms = 3600000

unfoldable pub next_ban : ℕ → ReportConfig → ℕ → NextBanTerms
next_ban escalating_count config now =
    let index = escalating_count + 1 in
    if leb 2 escalating_count
    then record { starts_at = now; expires_at = none; escalation_index = index }
    else record {
      starts_at = now;
      expires_at = some (
          now
          + (if escalating_count == 0 then config.ban_first_hours else config.ban_second_hours)
            * hour_ms);
      escalation_index = index;
    }

pub record EligibilityInput : Type 0 where
  pub is_present : Bool
  pub has_ever_bet : Bool
  pub is_streamer : Bool
  pub is_banned : Bool
  pub is_self_report : Bool

pub data Ineligibility : Type 0 where
  self_report streamer banned not_eligible : Ineligibility

pub data EligibilityResult : Type 0 where
  eligible : EligibilityResult
  rejected : Ineligibility → EligibilityResult

unfoldable pub is_eligible : EligibilityInput → EligibilityResult
is_eligible input =
    if input.is_self_report
    then rejected self_report
    else if input.is_streamer
    then rejected streamer
    else if input.is_banned
    then rejected banned
    else if not input.is_present && not input.has_ever_bet
    then rejected not_eligible
    else eligible
