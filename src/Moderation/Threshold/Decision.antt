-- ===== src/Moderation/Threshold/Decision.antt =====
-- When an evaluation triggers.
use chiliztv_com.Base.{
  arith, inr, ◌∷◌, inl, false, ◌==◌, length, Bool-cases, ℕ, Option, none, some, List, [], ◌≡◌, ◌≢◌,
  refl, ◌↔◌, Result, ok, throws, ap, ◌∙◌,
}
use chiliztv_com.Moderation.Policies.{
  QuorumSnapshot, QuorumInput, QuorumDecision, triggered, below_threshold, evaluate_quorum,
  ReportConfig,
}
use chiliztv_com.Moderation.Rows.{QueryError}
use chiliztv_com.Moderation.World.{Failure}
use chiliztv_com.Moderation.Reports.{Report, find_open_on_target}
use chiliztv_com.Moderation.Actions.{ReportAction, find_active_for_target}
use chiliztv_com.Moderation.Threshold.Numbers.{
  IsReporterCount, IsWorst, reporters-IsReporterCount, max_severity-IsWorst,
}
use chiliztv_com.Moderation.Threshold.Eligible.{IsEligibleCount, count_eligible_lem}
use chiliztv_com.Moderation.Threshold.{
  Evaluation, EvaluateInput, Desk, decide, decide_under, judged, unless_active, quorum_input,
  snapshot_of, count_eligible,
}

-- What the quorum policy is given: the number of the wallets that have reported, the worst severity,
-- the number of the eligible wallets, the configuration and the moment.
abbrev pub IsQuorumInput :
    Evaluation → EvaluateInput → ReportConfig → ℕ → Desk → QuorumInput → Type 0
IsQuorumInput e input config now desk q =
    IsReporterCount (find_open_on_target input.target desk.reports) q.distinct_reports
    × IsWorst (find_open_on_target input.target desk.reports) 1 q.max_severity
    × IsEligibleCount e input config.min_presence_sec now desk.world.bans q.total_eligible
    × (q.config ≡ config)
    × (q.now ≡ now)

-- The conditions of a trigger with the snapshot `s`.
pub record Triggers (e : Evaluation) (now : ℕ) (input : EvaluateInput) (desk : Desk)
    (s : QuorumSnapshot) : Type 0 where
  pub config : ReportConfig
  pub total : ℕ
  pub nothing_active : find_active_for_target input.target desk.actions ≡ ok none
  pub configured : e.services.config ≡ ok config
  pub some_open : find_open_on_target input.target desk.reports ≢ []
  pub counted : count_eligible e input config.min_presence_sec now desk.world.bans ≡ ok total
  pub given :
      IsQuorumInput e input config now desk
        (quorum_input config now (find_open_on_target input.target desk.reports) total)
  pub reached :
      evaluate_quorum
        (quorum_input config now (find_open_on_target input.target desk.reports) total)
      ≡ triggered s

snapshot_of_inv :
    (d : QuorumDecision) (s : QuorumSnapshot) → snapshot_of d ≡ some s → d ≡ triggered s
snapshot_of_inv (triggered x) s h = ap triggered (cc h)
snapshot_of_inv below_threshold s h = absurd (cc h)

unless_active_inv :
    (r : Result QueryError (Option ReportAction)) (d : Result Failure (Option QuorumSnapshot))
    (s : QuorumSnapshot)
    → unless_active r d ≡ ok (some s)
    → (r ≡ ok none) × (d ≡ ok (some s))
unfolding unless_active
unless_active_inv (throws q) d s h = absurd (cc h)
unless_active_inv (ok none) d s h = (refl, h)
unless_active_inv (ok (some a)) d s h = absurd (cc h)

judged_inv :
    (config : ReportConfig) (now : ℕ) (reports : List Report) (r : Result Failure ℕ)
    (s : QuorumSnapshot)
    → judged config now reports r ≡ ok (some s)
    → (n : ℕ) × (r ≡ ok n) × (evaluate_quorum (quorum_input config now reports n) ≡ triggered s)
unfolding judged
judged_inv config now reports (throws f) s h = absurd (cc h)
judged_inv config now reports (ok n) s h = (n, refl, snapshot_of_inv _ s (cc h))

not_empty : (reports : List Report) → reports ≢ [] → (length reports == 0) ≡ false
not_empty [] h = absurd (h refl)
not_empty (r ∷ rs) h = ground arith

module _ (e : Evaluation) (now : ℕ) (input : EvaluateInput) (desk : Desk) (s : QuorumSnapshot) where
  abbrev reports : List Report
  reports = find_open_on_target input.target desk.reports

  under_inv :
      (c : Result Failure ReportConfig)
      → decide_under e c now input desk ≡ ok (some s)
      → (config : ReportConfig) × (c ≡ ok config)
        × (reports ≢ [])
        × (judged config now reports
              (count_eligible e input config.min_presence_sec now desk.world.bans)
            ≡ ok (some s))
  unfolding decide_under
  under_inv (throws f) h = absurd (cc h)
  under_inv (ok config) h = elim (Bool-cases (length reports == 0)) [
    | inl z ↦ absurd (cc (rw z at h))
    | inr z ↦ (config, refl, (λ x. cc (z, ap (λ (l : List Report). length l == 0) x)), rw z at h)
  ]

  under_of :
      (config : ReportConfig)
      → reports ≢ []
      → decide_under e (ok config) now input desk
        ≡ judged config now reports
            (count_eligible e input config.min_presence_sec now desk.world.bans)
  unfolding decide_under
  under_of config some_open = rw (not_empty reports some_open) refl

  to : decide e now input desk ≡ ok (some s) → Triggers e now input desk s
  unfolding decide
  to h =
      let (none_active, under) = unless_active_inv _ _ s h in
      let (config, c, some_open, j) = under_inv e.services.config under in
      let (n, counted, reached) = judged_inv config now reports _ s j in
      record {
        config = config;
        total = n;
        nothing_active = none_active;
        configured = c;
        some_open = some_open;
        counted = counted;
        given = (
          reporters-IsReporterCount reports,
          max_severity-IsWorst reports 1,
          count_eligible_lem e input config.min_presence_sec now desk.world.bans n counted,
          refl,
          refl,
        );
        reached = reached;
      }

  from : Triggers e now input desk s → decide e now input desk ≡ ok (some s)
  unfolding decide unless_active judged
  from t =
      ap (λ r. unless_active r (decide_under e e.services.config now input desk)) t.nothing_active
      ∙ ap (λ c. decide_under e c now input desk) t.configured
      ∙ under_of t.config t.some_open
      ∙ ap (judged t.config now reports) t.counted
      ∙ ap (λ d. ok (snapshot_of d)) t.reached

  -- An evaluation triggers with a snapshot exactly when no unreversed action stands on the target, the
  -- configuration is read, some report on the target is open, the eligible wallets are counted, and
  -- the quorum policy triggers with that snapshot on the number of the different wallets that filed the
  -- open reports, the worst severity of these, at least 1, and the number of the eligible wallets: those
  -- that were present in the target's match, without the streamer and without the ones whose active ban
  -- has not run out, and 0 where the target has no match.
  pub decide_iff : (decide e now input desk ≡ ok (some s)) ↔ Triggers e now input desk s
  decide_iff = (to, from)
