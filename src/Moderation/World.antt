-- ===== src/Moderation/World.antt =====
-- What the moderation use cases of apps/backend/src/application share: the table of bans with the
-- calls that left the process, and the services that they call.
use chiliztv_com.Base.{ℕ, Bool, Option, List, String, Text, Result}
use chiliztv_com.Moderation.Policies.{ReportConfig, Trigger}
use chiliztv_com.Moderation.Bans.{Ban}

pub data Failure : Type 0 where
  conflict_error outage : Failure

pub data LiftSource : Type 0 where
  by_expiry by_admin : LiftSource

-- The alert of a new ban.
pub record BanIssued : Type 0 where
  pub wallet : Text
  pub is_admin_source : Bool
  pub admin_wallet : Option String
  pub trigger : Trigger
  pub reason : Option String
  pub escalation_index : ℕ
  pub expires_at : Option ℕ

pub data Effect : Type 0 where
  purged : Text → Effect
  notified_banned : Text → Ban → Effect
  alerted_issued : BanIssued → Effect
  stopped : String → Effect
  notified_lifted : Text → Effect
  alerted_lifted : Text → LiftSource → Effect
  audited : String → Text → Effect

pub record World : Type 0 where
  pub bans : List Ban
  pub log : List Effect

-- An active stream as the cascade reads it.
pub record ActiveStream : Type 0 where
  pub id : String
  pub streamer_wallet : Option Text

-- The services: the configuration, whether the cache deletes a key, the active streams, whether
-- StopStreamUseCase returns on a stream, and whether the audit trail takes an entry.
pub record Services : Type 0 where
  pub config : Result Failure ReportConfig
  pub deletes : Text → Bool
  pub active_streams : Result Failure (List ActiveStream)
  pub stops : String → Bool
  pub audits : Bool
