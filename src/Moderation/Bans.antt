-- ===== src/Moderation/Bans.antt =====
-- packages/domain/src/reporting/entities/Ban.ts and the table of bans behind it, which is
-- SupabaseBanRepository of apps/backend/src/infrastructure/persistence/repositories. The table is the
-- list of its rows, a query is the filter that the method writes, and an insert is refused where the
-- primary key or the index idx_bans_one_active refuses it.
pub mod OneActive
pub mod Enforcement
pub mod History
use chiliztv_com.Base.{
  ℕ, Bool, true, false, Option, none, some, List, [], ◌∷◌, ◌&&◌, ◌||◌, not, ltb, leb, String,
  str_eq, Text, text_eq, to_lower_case, any, filter, take, count, update_where, map, Result, ok,
  throws, if◌then◌else◌,
}
use chiliztv_com.Moderation.Rows.{QueryError, maybe_single}
use chiliztv_com.Moderation.Policies.{QuorumSnapshot}

pub data BanStatus : Type 0 where
  active expired lifted_by_admin lifted_by_appeal : BanStatus

pub record Ban : Type 0 where
  pub id : String
  pub wallet_address : Text
  pub status : BanStatus
  pub triggered_by_report_id : Option String
  pub triggering_live_match_id : Option ℕ
  pub quorum_snapshot : QuorumSnapshot
  pub starts_at : ℕ
  pub expires_at : Option ℕ
  pub ended_at : Option ℕ
  pub escalation_index : ℕ
  pub lifted_by_wallet : Option Text
  pub lift_note : Option String

-- What `Ban.create` is given.
pub record NewBan : Type 0 where
  pub wallet_address : Text
  pub triggered_by_report_id : Option String
  pub triggering_live_match_id : Option ℕ
  pub quorum_snapshot : QuorumSnapshot
  pub starts_at : ℕ
  pub expires_at : Option ℕ
  pub escalation_index : ℕ

abbrev pub create : String → NewBan → Ban
create id new = record {
  id = id;
  wallet_address = to_lower_case new.wallet_address;
  status = active;
  triggered_by_report_id = new.triggered_by_report_id;
  triggering_live_match_id = new.triggering_live_match_id;
  quorum_snapshot = new.quorum_snapshot;
  starts_at = new.starts_at;
  expires_at = new.expires_at;
  ended_at = none;
  escalation_index = new.escalation_index;
  lifted_by_wallet = none;
  lift_note = none;
}

abbrev pub is_active : BanStatus → Bool
is_active active = true
is_active _ = false

abbrev pub is_escalating : BanStatus → Bool
is_escalating active = true
is_escalating expired = true
is_escalating _ = false

-- `expires_at` is null or later than `now`.
abbrev pub unexpired : ℕ → Option ℕ → Bool
unexpired now none = true
unexpired now (some end) = ltb now end

-- `expires_at` is not null and no later than `now`.
abbrev pub due : ℕ → Option ℕ → Bool
due now none = false
due now (some end) = leb end now

unfoldable pub is_active_at : ℕ → Ban → Bool
is_active_at now ban = is_active ban.status && unexpired now ban.expires_at

abbrev is_permanent : Ban → Bool
is_permanent ban = elim ban.expires_at [ none ↦ true | some _ ↦ false ]

pub data SaveError : Type 0 where
  conflict : SaveError

-- The insert violates the primary key, or the index on the wallets of the active rows.
abbrev pub clashes : Ban → Ban → Bool
clashes ban row =
    str_eq ban.id row.id
    || (is_active ban.status
        && is_active row.status
        && text_eq ban.wallet_address row.wallet_address)

unfoldable pub save : Ban → List Ban → Result SaveError (List Ban)
save ban rows = if any (clashes ban) rows then throws conflict else ok (ban ∷ rows)

abbrev pub binds : Text → ℕ → Ban → Bool
binds wallet now row =
    text_eq row.wallet_address wallet && is_active row.status && unexpired now row.expires_at

unfoldable pub find_active_ban : Text → ℕ → List Ban → Result QueryError (Option Ban)
find_active_ban wallet now rows = maybe_single (filter (binds (to_lower_case wallet) now) rows)

unfoldable pub count_escalating : Text → List Ban → ℕ
count_escalating wallet rows =
    count (λ row. text_eq row.wallet_address (to_lower_case wallet) && is_escalating row.status)
      rows

unfoldable count_active : ℕ → List Ban → ℕ × ℕ
count_active now rows =
    (count (is_active_at now) rows, count (λ row. is_active row.status && is_permanent row) rows)

-- `Array.from(new Set(xs))`
abbrev pub distinct : List Text → List Text
distinct [] = []
distinct (x ∷ xs) = x ∷ filter (λ y. not (text_eq x y)) (distinct xs)

unfoldable pub find_active_wallets : List Text → ℕ → List Ban → List Text
find_active_wallets wallets now rows = distinct (
    map (λ row. row.wallet_address)
      (filter
        (λ row.
          any (text_eq row.wallet_address) (map to_lower_case wallets)
          && is_active row.status
          && unexpired now row.expires_at)
        rows))

unfoldable pub find_to_expire : ℕ → ℕ → List Ban → List Ban
find_to_expire now limit rows =
    take limit (filter (λ row. is_active row.status && due now row.expires_at) rows)

abbrev pub expire : ℕ → Ban → Ban
expire now row = record row { status = expired; ended_at = some now }

unfoldable pub mark_expired : List String → ℕ → List Ban → List Ban
mark_expired ids now rows =
    update_where (λ row. any (str_eq row.id) ids && is_active row.status) (expire now) rows

abbrev pub lift : Text → String → ℕ → Ban → Ban
lift wallet note at row = record row {
  status = lifted_by_admin;
  ended_at = some at;
  lifted_by_wallet = some (to_lower_case wallet);
  lift_note = some note;
}

abbrev pub liftable : String → Ban → Bool
liftable id row = str_eq row.id id && is_active row.status

abbrev pub first : List Ban → Option Ban
first [] = none
first (row ∷ _) = some row

-- The row that was lifted, if there is one, and the table after it.
unfoldable pub lift_by_admin : String → Text → String → ℕ → List Ban → Option Ban × List Ban
lift_by_admin id wallet note at rows = (
  first (map (lift wallet note at) (filter (liftable id) rows)),
  update_where (liftable id) (lift wallet note at) rows,
)
