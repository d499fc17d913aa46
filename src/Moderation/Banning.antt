-- ===== src/Moderation/Banning.antt =====
-- The use cases of apps/backend/src/application that issue and lift bans: BanAccountUseCase and
-- LiftExpiredBansUseCase of reporting/use-cases, CreateManualBanUseCase and LiftBanUseCase of
-- admin/use-cases. Each takes the world, the table of bans with the calls that left the process in
-- their order, and returns what it answers with the world after it. A notification or an alert whose
-- failure the code discards is recorded as the attempt.
pub mod Issued
pub mod Safety
pub mod Cascade
pub mod Expiry
use chiliztv_com.Base.{
  ◌==◌, ℕ, ◌+◌, ◌*◌, Bool, true, false, Option, none, some, List, [], ◌∷◌, ◌++◌, map, String, Text,
  text_eq, to_lower_case, length, Result, ok, throws, if◌then◌else◌,
}
use chiliztv_com.Moderation.Policies.{
  ReportConfig, QuorumSnapshot, Trigger, admin_manual, NextBanTerms, next_ban, hour_ms,
}
use chiliztv_com.Moderation.Bans.{
  SaveError, Ban, create, save, count_escalating, find_to_expire, mark_expired, lift_by_admin,
}
use chiliztv_com.Moderation.World.{
  Failure, conflict_error, outage, LiftSource, by_expiry, by_admin, BanIssued, Effect, purged,
  notified_banned, alerted_issued, stopped, notified_lifted, alerted_lifted, audited, World,
  ActiveStream, Services,
}

-- `duration_hours_override`: none keeps the policy, `some none` is permanent.
pub record BanAccountInput : Type 0 where
  pub wallet_address : Text
  pub quorum_snapshot : QuorumSnapshot
  pub triggered_by_report_id : Option String
  pub triggering_live_match_id : Option ℕ
  pub duration_hours_override : Option (Option ℕ)

unfoldable pub terms_of : ℕ → ReportConfig → ℕ → Option (Option ℕ) → NextBanTerms
terms_of count config now none = next_ban count config now
terms_of count config now (some none) = record {
  starts_at = now;
  expires_at = none;
  escalation_index = count + 1;
}
terms_of count config now (some (some hours)) = record {
  starts_at = now;
  expires_at = some (now + hours * hour_ms);
  escalation_index = count + 1;
}

abbrev is_admin_manual : Trigger → Bool
is_admin_manual admin_manual = true
is_admin_manual _ = false

abbrev pub owns : Text → ActiveStream → Bool
owns wallet stream = elim stream.streamer_wallet [
  | none ↦ false
  | some owner ↦ text_eq (to_lower_case owner) wallet
]

-- The ban that is to be saved.
abbrev pub issued : String → ℕ → ReportConfig → BanAccountInput → List Ban → Ban
issued id now config input bans =
    let wallet = to_lower_case input.wallet_address in
    let terms = terms_of (count_escalating wallet bans) config now input.duration_hours_override in
    create id (record {
      wallet_address = wallet;
      triggered_by_report_id = input.triggered_by_report_id;
      triggering_live_match_id = input.triggering_live_match_id;
      quorum_snapshot = input.quorum_snapshot;
      starts_at = terms.starts_at;
      expires_at = terms.expires_at;
      escalation_index = terms.escalation_index;
    })

abbrev pub ban_issued : Text → Ban → BanIssued
ban_issued wallet ban = record {
  wallet = wallet;
  is_admin_source = is_admin_manual ban.quorum_snapshot.trigger;
  admin_wallet = ban.quorum_snapshot.issued_by;
  trigger = ban.quorum_snapshot.trigger;
  reason = ban.quorum_snapshot.reason;
  escalation_index = ban.escalation_index;
  expires_at = ban.expires_at;
}

abbrev manual_snapshot : String → String → ℕ → QuorumSnapshot
manual_snapshot actor reason at = record {
  trigger = admin_manual;
  issued_by = some actor;
  reason = some reason;
  total_eligible = none;
  distinct_reports = 0;
  quorum_pct = 0;
  floor_count = 0;
  max_severity = 5;
  evaluated_at = at;
}

abbrev pub manual_input : String → Text → String → Option (Option ℕ) → ℕ → BanAccountInput
manual_input actor wallet reason duration at = record {
  wallet_address = wallet;
  quorum_snapshot = manual_snapshot actor reason at;
  triggered_by_report_id = none;
  triggering_live_match_id = none;
  duration_hours_override = duration;
}

abbrev pub batch_size : ℕ
batch_size = 100

abbrev pub ids_of : List Ban → List String
ids_of bans = map (λ (ban : Ban). ban.id) bans

module _ (services : Services) where
  -- The streams that the cascade stops, in order; a stop that throws ends it.
  unfoldable pub stop_owned : Text → List ActiveStream → List String
  stop_owned wallet [] = []
  stop_owned wallet (stream ∷ streams) =
      let rest = stop_owned wallet streams in
      if owns wallet stream
      then (if services.stops stream.id then stream.id ∷ rest else [])
      else rest

  pub stops_in : Text → Result Failure (List ActiveStream) → List Effect
  stops_in wallet (throws e) = []
  stops_in wallet (ok streams) = map stopped (stop_owned wallet streams)

  unfoldable pub cascade : Text → List Effect
  unfolding stops_in
  cascade wallet = stops_in wallet services.active_streams

  -- What follows the insert.
  unfoldable pub announce : Text → Ban → World → Result Failure Ban × World
  announce wallet ban world =
      if services.deletes wallet
      then (
        ok ban,
        record world {
          log =
              world.log
              ++ (purged wallet
                  ∷ notified_banned wallet ban
                  ∷ alerted_issued (ban_issued wallet ban)
                  ∷ cascade wallet);
        },
      )
      else (throws outage, world)

  pub after_save : Text → Ban → World → Result SaveError (List Ban) → Result Failure Ban × World
  unfolding announce
  after_save wallet ban world (throws e) = (throws conflict_error, world)
  after_save wallet ban world (ok rows) = announce wallet ban (record world { bans = rows })

  -- The use case with the configuration read.
  pub ban_under : ReportConfig → String → ℕ → BanAccountInput → World → Result Failure Ban × World
  unfolding after_save
  ban_under config id now input world =
      let ban = issued id now config input world.bans in
      after_save (to_lower_case input.wallet_address) ban world (save ban world.bans)

  pub with_config :
      Result Failure ReportConfig
      → String
      → ℕ
      → BanAccountInput
      → World
      → Result Failure Ban × World
  unfolding ban_under
  with_config (throws e) id now input world = (throws e, world)
  with_config (ok config) id now input world = ban_under config id now input world

  unfoldable pub ban_account : String → ℕ → BanAccountInput → World → Result Failure Ban × World
  unfolding with_config
  ban_account id now input world = with_config services.config id now input world

  -- The entry of the audit trail that ends an administrator's use case.
  pub record_entry : {A : Type 0} → String → Text → A → World → Result Failure A × World
  record_entry action target answer world =
      if services.audits
      then (ok answer, record world { log = world.log ++ (audited action target ∷ []) })
      else (throws outage, world)

  pub record_ban : Text → Result Failure Ban × World → Result Failure Ban × World
  unfolding record_entry
  record_ban wallet (throws e, world) = (throws e, world)
  record_ban wallet (ok ban, world) =
      record_entry "moderation.ban.create" (to_lower_case wallet) ban world

  -- `CreateManualBanUseCase.execute`; its own reading of the clock comes first.
  unfoldable pub create_manual_ban :
      String
      → ℕ
      → ℕ
      → String
      → Text
      → String
      → Option (Option ℕ)
      → World
      → Result Failure Ban × World
  unfolding record_ban
  create_manual_ban id at now actor wallet reason duration world =
      record_ban wallet (ban_account id now (manual_input actor wallet reason duration at) world)

  -- The calls of the loop over the expired bans, and whether it comes to its end.
  unfoldable pub lift_each : List Ban → Bool × List Effect
  lift_each [] = (true, [])
  lift_each (ban ∷ bans) =
      let (done, rest) = lift_each bans in
      let wallet = ban.wallet_address in
      if services.deletes wallet
      then (done, purged wallet ∷ notified_lifted wallet ∷ alerted_lifted wallet by_expiry ∷ rest)
      else (false, [])

  unfoldable pub lift_expired : ℕ → World → Result Failure ℕ × World
  lift_expired now world =
      let expired = find_to_expire now batch_size world.bans in
      if length expired == 0
      then (ok 0, world)
      else (let (done, calls) = lift_each expired in
          (
            (if done then ok (length expired) else throws outage),
            record {
              bans = mark_expired (ids_of expired) now world.bans;
              log = world.log ++ calls;
            },
          ))

  -- `LiftBanUseCase.execute`, from what the table answers.
  pub after_lift : Option Ban × List Ban → World → Result Failure Ban × World
  unfolding record_entry
  after_lift (none, rows) world = (throws conflict_error, record world { bans = rows })
  after_lift (some ban, rows) world =
      let wallet = ban.wallet_address in
      if services.deletes wallet
      then record_entry "moderation.ban.lift" wallet ban (record {
        bans = rows;
        log =
            world.log
            ++ (purged wallet ∷ notified_lifted wallet ∷ alerted_lifted wallet by_admin ∷ []);
      })
      else (throws outage, record world { bans = rows })

  unfoldable pub lift_ban : String → Text → String → ℕ → World → Result Failure Ban × World
  unfolding after_lift
  lift_ban id actor note at world = after_lift (lift_by_admin id actor note at world.bans) world
