-- ===== src/Moderation/Policies/Escalation.antt =====
-- How bans grow: 24 hours, 7 days, permanent, in whatever hours the configuration says.
use chiliztv_com.Base.{zero, ℕ, suc, ◌+◌, ◌≤◌, Option, none, some, ◌≡◌, ◌↔◌, arith}
use chiliztv_com.Moderation.Policies.{ReportConfig, next_ban}

-- An end of a ban lies no earlier than another: permanent is the latest end.
abbrev EndsBy : Option ℕ → Option ℕ → Type 0
EndsBy (some a) (some b) = a ≤ b
EndsBy none (some b) = ⊥
EndsBy _ none = Unit {0}

-- A ban starts now and counts the earlier ones; it is permanent exactly from the third on.
next_ban_terms :
    (count : ℕ) (config : ReportConfig) (now : ℕ)
    → ((next_ban count config now).starts_at ≡ now)
      × ((next_ban count config now).escalation_index ≡ count + 1)
      × (((next_ban count config now).expires_at ≡ none) ↔ (2 ≤ count))
unfolding next_ban
next_ban_terms count config now = ground arith

never_ends :
    (count : ℕ) (config : ReportConfig) (now : ℕ)
    → 2 ≤ count
    → (next_ban count config now).expires_at ≡ none
never_ends count config now many = (next_ban_terms count config now).2.1 many

EndsBy-none : (end : Option ℕ) → EndsBy end none
EndsBy-none none = tt
EndsBy-none (some a) = tt

-- If the second duration is no shorter than the first, no ban ends before one with fewer priors.
next_ban_escalates :
    (fewer more : ℕ) (config : ReportConfig) (now : ℕ)
    → config.ban_first_hours ≤ config.ban_second_hours
    → fewer ≤ more
    → EndsBy (next_ban fewer config now).expires_at (next_ban more config now).expires_at
unfolding next_ban
next_ban_escalates zero zero config now h le = omega arith
next_ban_escalates zero (suc zero) config now h le = omega arith
next_ban_escalates (suc zero) zero config now h le = absurd (omega arith)
next_ban_escalates (suc zero) (suc zero) config now h le = omega arith
next_ban_escalates fewer (suc (suc m)) config now h le =
    rw (never_ends (suc (suc m)) config now (omega arith))
      (EndsBy-none (next_ban fewer config now).expires_at)
next_ban_escalates (suc (suc n)) zero config now h le = absurd (omega arith)
next_ban_escalates (suc (suc n)) (suc zero) config now h le = absurd (omega arith)
