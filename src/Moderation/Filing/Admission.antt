-- ===== src/Moderation/Filing/Admission.antt =====
-- CreateReportUseCase: who is let through, and what is filed.
use chiliztv_com.Moderation.Policies.Quorum.{is_eligible_iff}
use chiliztv_com.Base.{
  ◌∙◌, ◌↔◌, ap, ok_inj, ℕ, Bool, true, false, Option, none, some, List, ◌≡◌, refl, ◌⊎◌, inl, inr,
  any, Text, text_eq, Result, ok, throws, Bool-cases,
}
use chiliztv_com.Moderation.Policies.{
  ReportConfig, EligibilityResult, eligible, rejected, is_eligible,
}
use chiliztv_com.Moderation.Bans.{Ban, find_active_ban}
use chiliztv_com.Moderation.Rows.{QueryError}
use chiliztv_com.Moderation.World.{Failure}
use chiliztv_com.Moderation.Reports.{exists_for_reporter}
use chiliztv_com.Moderation.Threshold.{Desk}
use chiliztv_com.Moderation.Filing.{
  Filing, CreateReportDto, admit, admitted, eligibility, eligibility_under, present_wallets,
  is_self_report, is_context_streamer, asked_target,
}

-- The conditions under which a report is let through.
pub record Admissible (f : Filing) (now : ℕ) (wallet : Text) (dto : CreateReportDto) (desk : Desk)
    : Type 0 where
  pub config : ReportConfig
  pub bet_before : Bool
  pub present : List Text
  pub not_self : is_self_report f wallet dto.target_type dto.target_id ≡ false
  pub configured : f.evaluation.services.config ≡ ok config
  pub not_banned : find_active_ban wallet now desk.world.bans ≡ ok none
  pub history : f.has_ever_bet wallet ≡ ok bet_before
  pub presence :
      present_wallets f dto.live_context_match_id config.min_presence_sec now ≡ ok present
  pub not_streamer : is_context_streamer f wallet dto.live_context_stream_id ≡ false
  pub engaged : (any (text_eq wallet) present ≡ true) ⊎ (bet_before ≡ true)
  pub first_report : exists_for_reporter wallet (asked_target dto) desk.reports ≡ false

eligibility_inv :
    (wallet : Text) (streamer : Bool) (b : Result QueryError (Option Ban)) (h : Result Failure Bool)
    (w : Result Failure (List Text))
    → eligibility wallet streamer b h w ≡ ok eligible
    → (bet : Bool) × (present : List Text) × (b ≡ ok none)
      × (h ≡ ok bet)
      × (w ≡ ok present)
      × (streamer ≡ false)
      × ((any (text_eq wallet) present ≡ true) ⊎ (bet ≡ true))
unfolding eligibility is_eligible
eligibility_inv wallet streamer (ok none) (ok bet) (ok present) e =
    let (_, clear, _, engaged) =
      (is_eligible_iff (record {
        is_present = any (text_eq wallet) present;
        has_ever_bet = bet;
        is_streamer = streamer;
        is_banned = false;
        is_self_report = false;
      })).0.0
        (ok_inj _ _ e) in
    (bet, present, refl, refl, refl, clear, engaged)
eligibility_inv wallet streamer (ok (some ban)) (ok bet) (ok present) e =
    let (_, _, free, _) =
      (is_eligible_iff (record {
        is_present = any (text_eq wallet) present;
        has_ever_bet = bet;
        is_streamer = streamer;
        is_banned = true;
        is_self_report = false;
      })).0.0
        (ok_inj _ _ e) in
    absurd (cc free)
eligibility_inv wallet streamer (throws q) h w e = absurd (cc e)
eligibility_inv wallet streamer (ok b) (throws x) w e = absurd (cc e)
eligibility_inv wallet streamer (ok b) (ok bet) (throws x) e = absurd (cc e)

admitted_inv :
    (wallet : Text) (dto : CreateReportDto) (desk : Desk) (r : Result Failure EligibilityResult)
    → admitted wallet dto desk r ≡ ok tt
    → (r ≡ ok eligible) × (exists_for_reporter wallet (asked_target dto) desk.reports ≡ false)
unfolding admitted
admitted_inv wallet dto desk (throws x) e = absurd (cc e)
admitted_inv wallet dto desk (ok (rejected reason)) e = absurd (cc e)
admitted_inv wallet dto desk (ok eligible) e =
    elim (Bool-cases (exists_for_reporter wallet (asked_target dto) desk.reports)) [
      | inl t ↦ absurd (cc (rw t at e))
      | inr t ↦ (refl, t)
    ]

module _ (f : Filing) (now : ℕ) (wallet : Text) (dto : CreateReportDto) (desk : Desk) where
  from_config :
      (c : Result Failure ReportConfig)
      → f.evaluation.services.config ≡ c
      → is_self_report f wallet dto.target_type dto.target_id ≡ false
      → eligibility_under f c now wallet dto desk ≡ ok eligible
      → exists_for_reporter wallet (asked_target dto) desk.reports ≡ false
      → Admissible f now wallet dto desk
  unfolding eligibility_under
  from_config (throws x) c s e n = absurd (cc e)
  from_config (ok config) c s e n =
      let (bet, present, b, h, w, streamer, engaged) = eligibility_inv wallet _ _ _ _ e in
      record {
        config = config;
        bet_before = bet;
        present = present;
        not_self = s;
        configured = c;
        not_banned = b;
        history = h;
        presence = w;
        not_streamer = streamer;
        engaged = engaged;
        first_report = n;
      }

  admit_inv : admit f now wallet dto desk ≡ ok tt → Admissible f now wallet dto desk
  unfolding admit
  admit_inv e = elim (Bool-cases (is_self_report f wallet dto.target_type dto.target_id)) [
    | inl s ↦ absurd (cc (rw s at e))
    | inr s ↦
        let (ok_e, n) = admitted_inv wallet dto desk _ (rw s at e) in
        from_config f.evaluation.services.config refl s ok_e n
  ]

  let_through :
      Admissible f now wallet dto desk
      → eligibility_under f f.evaluation.services.config now wallet dto desk ≡ ok eligible
  unfolding eligibility_under eligibility
  let_through a =
      ap (λ c. eligibility_under f c now wallet dto desk) a.configured
      ∙ rw (a.not_banned, a.history, a.presence, a.not_streamer)
          (ap ok (
            (is_eligible_iff (record {
              is_present = any (text_eq wallet) a.present;
              has_ever_bet = a.bet_before;
              is_streamer = false;
              is_banned = false;
              is_self_report = false;
            })).0.1
              (refl, refl, refl, a.engaged)))

  admit_of : Admissible f now wallet dto desk → admit f now wallet dto desk ≡ ok tt
  unfolding admit admitted
  admit_of a =
      rw a.not_self (ap (admitted wallet dto desk) (let_through a) ∙ rw a.first_report refl)

  -- A report is let through exactly when the reporter is not the target, its author or its streamer,
  -- does not stream the live of the report, is not banned, is present in the live or has bet before,
  -- and has not reported the target there under the id as it is written.
  pub admit_iff : (admit f now wallet dto desk ≡ ok tt) ↔ Admissible f now wallet dto desk
  admit_iff = (admit_inv, admit_of)
