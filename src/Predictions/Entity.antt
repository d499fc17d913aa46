-- ===== src/Predictions/Entity.antt =====
-- packages/domain/src/predictions/entities/Prediction.ts and PredictionStatus.ts. A method that
-- throws leaves the entity as it was; `new Date()` is the argument `now`, in milliseconds.
pub mod Lifecycle
use chiliztv_com.Base.{
  ℕ, String, Bool, true, false, Option, none, some, ◌||◌, ◌==◌, str_eq, ltb, Result, ok, throws,
  if◌then◌else◌,
}
use chiliztv_com.Predictions.Values.{
  ValidationError, Odds, TransactionHash, user_required, match_required, match_started,
  not_settleable, not_cancellable, not_pending,
}

pub data PredictionStatus : Type 0 where
  pending in_progress won lost cancelled : PredictionStatus

pub record Prediction : Type 0 where
  pub id : String
  pub user_id : String
  pub wallet_address : String
  pub username : String
  pub match_id : ℕ
  pub match_name : String
  pub prediction_type : String
  pub prediction_value : String
  pub predicted_team : String
  pub odds : Odds
  pub status : PredictionStatus
  pub actual_result : Option String
  pub transaction_hash : TransactionHash
  pub placed_at : ℕ
  pub match_start_time : ℕ
  pub settled_at : Option ℕ
  pub created_at : ℕ
  pub updated_at : ℕ

-- The caller's `placedAt`, `createdAt` and `updatedAt` are not read.
unfoldable pub create : ℕ → Prediction → Result ValidationError Prediction
create now props =
    if str_eq props.user_id "" || str_eq props.wallet_address ""
    then throws user_required
    else if props.match_id == 0 || str_eq props.match_name ""
    then throws match_required
    else if ltb props.match_start_time now
    then throws match_started
    else ok (record props { placed_at = now; created_at = now; updated_at = now })

abbrev pub is_pending : PredictionStatus → Bool
is_pending pending = true
is_pending _ = false

abbrev pub is_open : PredictionStatus → Bool
is_open pending = true
is_open in_progress = true
is_open _ = false

-- The clock is read twice: `settledAt` first, then `updatedAt`.
unfoldable pub settle : ℕ → ℕ → String → Bool → Prediction → Result ValidationError Prediction
settle now later actual is_win p =
    if is_open p.status
    then ok (record p {
      actual_result = some actual;
      status = if is_win then won else lost;
      settled_at = some now;
      updated_at = later;
    })
    else throws not_settleable

unfoldable pub cancel : ℕ → Prediction → Result ValidationError Prediction
cancel now p =
    if is_pending p.status
    then ok (record p { status = cancelled; updated_at = now })
    else throws not_cancellable

unfoldable pub mark_in_progress : ℕ → Prediction → Result ValidationError Prediction
mark_in_progress now p =
    if is_pending p.status
    then ok (record p { status = in_progress; updated_at = now })
    else throws not_pending
