-- ===== src/Moderation/Reports.antt =====
-- packages/domain/src/reporting/entities/Report.ts with the table behind it, SupabaseReportRepository
-- of apps/backend/src/infrastructure/persistence/repositories. The table is the list of its rows; an
-- insert is refused where the primary key or a unique index refuses it.
use chiliztv_com.Base.{
  ℕ, Bool, true, false, Option, none, some, List, ◌∷◌, ◌&&◌, ◌||◌, ◌==◌, String, str_eq, has, Text,
  text_eq, to_lower_case, any, filter, map, update_where, Result, ok, throws, if◌then◌else◌, length,
  ltb,
}

pub data TargetType : Type 0 where
  stream message account : TargetType

pub data ReportStatus : Type 0 where
  opened auto_actioned dismissed closed : ReportStatus

pub record Report : Type 0 where
  pub id : String
  pub target_type : TargetType
  pub target_id : Text
  pub reporter_wallet : Text
  pub live_context_match_id : Option ℕ
  pub live_context_stream_id : Option Text
  pub reason_code : String
  pub reason_free_text : Option String
  pub severity : ℕ
  pub status : ReportStatus
  triggered_action_id : Option String
  pub created_at : ℕ
  reviewed_at : Option ℕ
  reviewed_by_wallet : Option Text
  review_note : Option String

-- What `Report.create` is given.
pub record NewReport : Type 0 where
  pub target_type : TargetType
  pub target_id : Text
  pub reporter_wallet : Text
  pub live_context_match_id : Option ℕ
  pub live_context_stream_id : Option Text
  pub reason_code : String
  pub reason_free_text : Option String
  pub severity : ℕ
  pub created_at : ℕ

abbrev pub create_report : String → NewReport → Report
create_report id new = record {
  id = id;
  target_type = new.target_type;
  target_id = new.target_id;
  reporter_wallet = to_lower_case new.reporter_wallet;
  live_context_match_id = new.live_context_match_id;
  live_context_stream_id = new.live_context_stream_id;
  reason_code = new.reason_code;
  reason_free_text = new.reason_free_text;
  severity = new.severity;
  status = opened;
  triggered_action_id = none;
  created_at = new.created_at;
  reviewed_at = none;
  reviewed_by_wallet = none;
  review_note = none;
}

-- What a report is about, and where: none is the global context.
pub record Target : Type 0 where
  pub target_type : TargetType
  pub target_id : Text
  pub live_context_match_id : Option ℕ

unfoldable pub same_type : TargetType → TargetType → Bool
same_type stream stream = true
same_type message message = true
same_type account account = true
same_type _ _ = false

unfoldable pub same_context : Option ℕ → Option ℕ → Bool
same_context none none = true
same_context (some m) (some n) = m == n
same_context _ _ = false

unfoldable pub same_target : Target → Target → Bool
same_target a b =
    same_type a.target_type b.target_type
    && text_eq a.target_id b.target_id
    && same_context a.live_context_match_id b.live_context_match_id

abbrev pub target_of : Report → Target
target_of report = record {
  target_type = report.target_type;
  target_id = report.target_id;
  live_context_match_id = report.live_context_match_id;
}

abbrev pub is_open : ReportStatus → Bool
is_open opened = true
is_open _ = false

pub data StoreError : Type 0 where
  failed_to_save : StoreError

-- The insert violates the primary key, or one of the two dedup indexes.
abbrev pub duplicates : Report → Report → Bool
duplicates report row =
    str_eq report.id row.id
    || (text_eq report.reporter_wallet row.reporter_wallet
        && same_target (target_of report) (target_of row))

-- Each failure of the insert comes out as the same error.
unfoldable pub save_report : Report → List Report → Result StoreError (List Report)
save_report report rows =
    if any (duplicates report) rows then throws failed_to_save else ok (report ∷ rows)

unfoldable pub exists_for_reporter : Text → Target → List Report → Bool
exists_for_reporter wallet target rows = ltb 0 (
    length (
      filter
        (λ row.
          text_eq row.reporter_wallet (to_lower_case wallet) && same_target (target_of row) target)
        rows))

unfoldable pub find_open_on_target : Target → List Report → List Report
find_open_on_target target rows =
    filter (λ row. same_target (target_of row) target && is_open row.status) rows

abbrev pub actioned : String → Report → Report
actioned action_id row = record row { status = auto_actioned; triggered_action_id = some action_id }

unfoldable pub mark_actioned_batch : List String → String → List Report → List Report
mark_actioned_batch ids action_id rows =
    update_where (λ row. has ids row.id && is_open row.status) (actioned action_id) rows

abbrev reviewed : ReportStatus → Text → Option String → ℕ → Report → Report
reviewed status reviewer note at row = record row {
  status = status;
  reviewed_at = some at;
  reviewed_by_wallet = some (to_lower_case reviewer);
  review_note = note;
}

-- The reviewed row, if the report is open, and the table after it.
unfoldable mark_reviewed :
    String → ReportStatus → Text → Option String → ℕ → List Report → List Report × List Report
mark_reviewed id status reviewer note at rows = (
  map (reviewed status reviewer note at)
      (filter (λ row. str_eq row.id id && is_open row.status) rows),
  update_where (λ row. str_eq row.id id && is_open row.status) (reviewed status reviewer note at)
      rows,
)
