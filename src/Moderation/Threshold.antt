-- ===== src/Moderation/Threshold.antt =====
-- apps/backend/src/application/reporting/use-cases/EvaluateReportThresholdUseCase.ts: whether the
-- open reports on a target trigger an action, and the action. The state is the desk: the three tables
-- of moderation with the world of the bans.
pub mod Numbers
pub mod Audience
pub mod Eligible
pub mod Decision
pub mod Acting
pub mod Steps
pub mod StopFailure
use chiliztv_com.Base.{
  ℕ, ◌-◌, Bool, true, false, not, Option, none, some, List, [], ◌∷◌, map, filter, length, String,
  Text, text_eq, to_lower_case, Result, ok, throws, if◌then◌else◌, ltb, ◌==◌,
}
use chiliztv_com.Moderation.Policies.{
  QuorumSnapshot, QuorumInput, QuorumDecision, triggered, below_threshold, evaluate_quorum,
  ReportConfig,
}
use chiliztv_com.Moderation.Bans.{Ban, distinct, find_active_wallets}
use chiliztv_com.Moderation.Rows.{QueryError}
use chiliztv_com.Moderation.Reports.{
  Report, Target, TargetType, stream, message, account, StoreError, find_open_on_target,
  mark_actioned_batch,
}
use chiliztv_com.Moderation.Actions.{
  ReportAction, ActionKind, soft_delete_message, stop_stream, ban_account, MessageRow,
  find_active_for_target, save_action, soft_delete_message_row,
}
use chiliztv_com.Moderation.World.{World, Services, Failure, outage}

pub record Desk : Type 0 where
  pub reports : List Report
  pub actions : List ReportAction
  pub messages : List MessageRow
  pub world : World

pub record EvaluateInput : Type 0 where
  pub target : Target
  pub live_context_stream_id : Option Text

-- The services of the evaluation beside those of a ban: whether the lock is acquired, the wallets that
-- were present long enough in a match, the streamer of a stream (none where the lookup fails or finds
-- nobody), and whether StopStreamUseCase returns.
pub record Evaluation : Type 0 where
  pub services : Services
  pub acquired : Bool
  pub eligible_wallets : ℕ → ℕ → ℕ → Result Failure (List Text)
  pub streamer_of : Text → Option Text
  pub stops : Text → Bool

abbrev pub kind_by_target : TargetType → ActionKind
kind_by_target message = soft_delete_message
kind_by_target stream = stop_stream
kind_by_target account = ban_account

abbrev pub reporters : List Report → List Text
reporters reports = distinct (map (λ (r : Report). r.reporter_wallet) reports)

-- The `reduce` that starts from severity 1.
abbrev pub max_severity : ℕ → List Report → ℕ
max_severity worst [] = worst
max_severity worst (r ∷ rs) = max_severity (if ltb worst r.severity then r.severity else worst) rs

-- The ids, and the moments at which the clock is read.
pub record Run : Type 0 where
  pub action_id : String
  pub ban_id : String
  pub now : ℕ
  pub ban_now : ℕ
  pub triggered_at : ℕ
  pub removed_at : ℕ

abbrev pub without : Option Text → List Text → List Text
without none wallets = wallets
without (some streamer) wallets = filter (λ w. not (text_eq w streamer)) wallets

abbrev pub snapshot_of : QuorumDecision → Option QuorumSnapshot
snapshot_of (triggered snapshot) = some snapshot
snapshot_of below_threshold = none

abbrev pub quorum_input : ReportConfig → ℕ → List Report → ℕ → QuorumInput
quorum_input config now reports total = record {
  distinct_reports = length (reporters reports);
  total_eligible = total;
  max_severity = max_severity 1 reports;
  config = config;
  now = now;
}

unfoldable pub judged :
    ReportConfig → ℕ → List Report → Result Failure ℕ → Result Failure (Option QuorumSnapshot)
judged config now reports (throws f) = throws f
judged config now reports (ok total) =
    ok (snapshot_of (evaluate_quorum (quorum_input config now reports total)))

unfoldable pub unless_active :
    Result QueryError (Option ReportAction)
    → Result Failure (Option QuorumSnapshot)
    → Result Failure (Option QuorumSnapshot)
unless_active (throws q) decision = throws outage
unless_active (ok (some existing)) decision = ok none
unless_active (ok none) decision = decision

module _ (e : Evaluation) where
  unfoldable pub resolve_streamer_wallet : EvaluateInput → Option Text
  resolve_streamer_wallet input = elim (is_stream input.target.target_type) [
    | true ↦ owner (some input.target.target_id)
    | false ↦ owner input.live_context_stream_id
  ]
    where
      is_stream : TargetType → Bool
      is_stream stream = true
      is_stream _ = false

      owner : Option Text → Option Text
      owner none = none
      owner (some id) = elim (e.streamer_of id) [ none ↦ none | some w ↦ some (to_lower_case w) ]

  unfoldable pub eligible_count : EvaluateInput → ℕ → List Ban → List Text → ℕ
  eligible_count input now bans present =
      let wallets = without (resolve_streamer_wallet input) present in
      length wallets - length (find_active_wallets wallets now bans)

  unfoldable pub count_eligible : EvaluateInput → ℕ → ℕ → List Ban → Result Failure ℕ
  count_eligible input min_presence_sec now bans = elim input.target.live_context_match_id [
    | none ↦ ok 0
    | some match_id ↦ elim (e.eligible_wallets match_id min_presence_sec now) [
      | throws f ↦ throws f
      | ok present ↦ ok (eligible_count input now bans present)
    ]
  ]

  unfoldable pub decide_under :
      Result Failure ReportConfig
      → ℕ
      → EvaluateInput
      → Desk
      → Result Failure (Option QuorumSnapshot)
  unfolding judged
  decide_under (throws f) now input desk = throws f
  decide_under (ok config) now input desk =
      let reports = find_open_on_target input.target desk.reports in
      if length reports == 0
      then ok none
      else judged config now reports
          (count_eligible input config.min_presence_sec now desk.world.bans)

  -- The evaluation up to its effects: the snapshot of a trigger, or none where it returns.
  unfoldable pub decide : ℕ → EvaluateInput → Desk → Result Failure (Option QuorumSnapshot)
  unfolding unless_active decide_under
  decide now input desk =
      unless_active (find_active_for_target input.target desk.actions)
        (decide_under e.services.config now input desk)
