-- ===== src/Moderation/Filing/Stored.antt =====
-- CreateReportUseCase: what a report that is filed says, and how a duplicate is refused.
use chiliztv_com.Base.{
  ℕ, true, List, [], ◌∷◌, ◌≡◌, refl, sym, ap, ◌∙◌, inl, inr, arith, any, String, Text, text_eq_iff,
  to_lower_case, to_lower_case_idem, Result, ok, throws, Among,
}
use chiliztv_com.Moderation.World.{Failure, outage}
use chiliztv_com.Moderation.Reports.{Report, StoreError, target_of, duplicates, save_report}
use chiliztv_com.Moderation.Actions.OneUnreversed.{same_target_iff}
use chiliztv_com.Moderation.Threshold.{Desk, Run}
use chiliztv_com.Moderation.Filing.{
  Filing, CreateReportDto, FilingError, failed, evaluate_input, file_report, after_admission,
  new_report, stored, evaluated,
}
use chiliztv_com.Moderation.Filing.Admission.{Admissible, admit_iff}

evaluated_inv :
    (report r : Report) (x : Result Failure (Unit {0}) × Desk) (after : Desk)
    → evaluated report x ≡ (ok r, after)
    → r ≡ report
unfolding evaluated
evaluated_inv report r (throws e, desk) after h = absurd (cc h)
evaluated_inv report r (ok _, desk) after h = cc h

module _ (f : Filing) (id : String) (now : ℕ) (run : Run) where
  stored_inv :
      (report r : Report) (dto : CreateReportDto) (desk after : Desk)
      (s : Result StoreError (List Report))
      → stored f run report dto desk s ≡ (ok r, after)
      → r ≡ report
  unfolding stored
  stored_inv report r dto desk after (throws e) h = absurd (cc h)
  stored_inv report r dto desk after (ok rows) h = evaluated_inv report r _ after h

  admission_inv :
      (wallet : Text) (dto : CreateReportDto) (desk after : Desk) (r : Report)
      (a : Result FilingError (Unit {0}))
      → after_admission f id now run wallet dto desk a ≡ (ok r, after)
      → (a ≡ ok tt) × (r ≡ new_report id now wallet dto)
  unfolding after_admission
  admission_inv wallet dto desk after r (throws e) h = absurd (cc h)
  admission_inv wallet dto desk after r (ok _) h = (refl, stored_inv _ r dto desk after _ h)

  -- A report that is filed was let through, and is the one of the request: its severity is that of the
  -- taxonomy, its reporter is the wallet in lower case, and so is the target's id on an account.
  file_report_lem :
      (reporter : Text) (dto : CreateReportDto) (desk after : Desk) (r : Report)
      → file_report f id now run reporter dto desk ≡ (ok r, after)
      → Admissible f now (to_lower_case reporter) dto desk
        × (r ≡ new_report id now (to_lower_case reporter) dto)
  unfolding file_report
  file_report_lem reporter dto desk after r h =
      let (let_through, same) = admission_inv (to_lower_case reporter) dto desk after r _ h in
      ((admit_iff f now (to_lower_case reporter) dto desk).0 let_through, same)

  clash :
      (report row : Report) (rows : List Report)
      → Among row rows
      → report.reporter_wallet ≡ row.reporter_wallet
      → target_of report ≡ target_of row
      → any (duplicates report) rows ≡ true
  clash report row [] m w t = absurd m
  clash report row (x ∷ rows) (inl e) w t = rw (sym e) (
      ground (
        arith,
        text_eq_iff report.reporter_wallet row.reporter_wallet,
        same_target_iff (target_of report) (target_of row),
      ))
  clash report row (x ∷ rows) (inr m) w t = ground (arith, clash report row rows m w t)

  -- A report that was let through, on a target on which the wallet has one on file, fails as an outage
  -- and not as a report that was already made, and leaves the desk as it was.
  pub duplicate_fails :
      (reporter : Text) (dto : CreateReportDto) (desk : Desk) (row : Report)
      → Admissible f now (to_lower_case reporter) dto desk
      → Among row desk.reports
      → row.reporter_wallet ≡ to_lower_case reporter
      → target_of row ≡ (evaluate_input dto).target
      → file_report f id now run reporter dto desk ≡ (throws (failed outage), desk)
  unfolding file_report after_admission stored save_report
  duplicate_fails reporter dto desk row a m w t =
      let wallet = to_lower_case reporter in
      ap (after_admission f id now run wallet dto desk) ((admit_iff f now wallet dto desk).1 a)
      ∙ rw
          (clash (new_report id now wallet dto) row desk.reports m
            (to_lower_case_idem reporter ∙ sym w) (sym t))
          refl
