-- ===== src/Moderation/Policies/Quorum.antt =====
-- When a set of reports triggers an action, and who may report.
use chiliztv_com.Base.{ℕ, ◌*◌, ◌≤◌, ◌<◌, true, false, none, some, ◌≡◌, ◌↔◌, ◌≢◌, ◌⊎◌, arith}
use chiliztv_com.Moderation.Policies.{
  QuorumInput, QuorumSnapshot, triggered, below_threshold, threshold, evaluate_quorum, snapshot,
  quorum, severity_bypass, EligibilityInput, eligible, rejected, is_eligible, streamer, banned,
}

-- The rounded threshold is reached exactly when the floor is, and when the reports make up the
-- percentage of the eligible wallets.
threshold-le :
    (i : QuorumInput) (d : ℕ)
    → (threshold i ≤ d)
      ↔ ((i.config.floor_count ≤ d) × (i.total_eligible * i.config.quorum_pct ≤ d * 100))
unfolding threshold
threshold-le i d = ((λ h. (omega arith, omega arith)), (λ (f, q). omega arith))

-- The decision with the threshold kept as a number.
below_iff :
    (i : QuorumInput)
    → (evaluate_quorum i ≡ below_threshold)
      ↔ ((i.max_severity < i.config.bypass_severity_threshold) × (i.distinct_reports < threshold i))
unfolding evaluate_quorum
below_iff i = ((λ e. ground arith), (λ (s, b). ground arith))

-- No action is taken exactly when the worst severity is under the bypass threshold and the distinct
-- reports are fewer than the floor, or fewer than the quorum percentage of the eligible wallets.
evaluate_quorum_below_iff :
    (i : QuorumInput)
    → (evaluate_quorum i ≡ below_threshold) ↔ (
        (i.max_severity < i.config.bypass_severity_threshold)
        × ((i.distinct_reports < i.config.floor_count)
            ⊎ (i.distinct_reports * 100 < i.total_eligible * i.config.quorum_pct)))
evaluate_quorum_below_iff i =
    let reached = threshold-le i i.distinct_reports in
    (
      (λ e. let (s, b) = (below_iff i).0 e in (s, ground (arith, reached.1))),
      (λ (s, b). (below_iff i).1 (s, ground (arith, reached.0))),
    )

-- An action, once triggered, records what triggered it: a bypass without the number of eligible
-- wallets exactly at a severity that reaches the bypass threshold, and else a quorum with it.
evaluate_quorum-snapshot :
    (i : QuorumInput) (s : QuorumSnapshot)
    → evaluate_quorum i ≡ triggered s
    → ((i.config.bypass_severity_threshold ≤ i.max_severity)
        × (s ≡ snapshot severity_bypass none i))
      ⊎ ((i.max_severity < i.config.bypass_severity_threshold)
          × (threshold i ≤ i.distinct_reports)
          × (s ≡ snapshot quorum (some i.total_eligible) i))
unfolding evaluate_quorum
evaluate_quorum-snapshot i s e = ground arith

share_mono : (q a b : ℕ) → a ≤ b → a * q ≤ b * q
share_mono q a b h = grind arith

threshold_mono :
    (i : QuorumInput) (wallets : ℕ)
    → wallets ≤ i.total_eligible
    → threshold (record i { total_eligible = wallets }) ≤ threshold i
unfolding threshold
threshold_mono i wallets w =
    omega (arith, share_mono i.config.quorum_pct wallets i.total_eligible w)

-- More reporters, a worse severity or fewer eligible wallets never undo a trigger.
evaluate_quorum_monotone :
    (i : QuorumInput) (reports severity wallets : ℕ)
    → i.distinct_reports ≤ reports
    → i.max_severity ≤ severity
    → wallets ≤ i.total_eligible
    → evaluate_quorum i ≢ below_threshold
    → evaluate_quorum
        (record i { distinct_reports = reports; max_severity = severity; total_eligible = wallets })
      ≢ below_threshold
unfolding threshold
evaluate_quorum_monotone i reports severity wallets r s w t e =
    let worse = record i {
      distinct_reports = reports;
      max_severity = severity;
      total_eligible = wallets;
    } in
    let (calm, few) = (below_iff worse).0 e in
    t ((below_iff i).1 (omega arith, omega (arith, threshold_mono i wallets w)))

-- A reporter is accepted exactly when it is neither the target, nor the streamer, nor banned, and is
-- present or has bet before. The reasons go by rank: a rejection names the first that applies.
pub is_eligible_iff :
    (i : EligibilityInput)
    → ((is_eligible i ≡ eligible) ↔ (
        (i.is_self_report ≡ false)
        × (i.is_streamer ≡ false)
        × (i.is_banned ≡ false)
        × ((i.is_present ≡ true) ⊎ (i.has_ever_bet ≡ true))))
      × ((is_eligible i ≡ rejected streamer)
          ↔ ((i.is_self_report ≡ false) × (i.is_streamer ≡ true)))
      × ((is_eligible i ≡ rejected banned)
          ↔ ((i.is_self_report ≡ false) × (i.is_streamer ≡ false) × (i.is_banned ≡ true)))
unfolding is_eligible
is_eligible_iff i = ground arith
