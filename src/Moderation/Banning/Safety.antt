-- ===== src/Moderation/Banning/Safety.antt =====
-- The invariant of the table of bans across whole histories of the use cases.
use chiliztv_com.Base.{
  arith, ℕ, Option, none, some, List, [], ◌∷◌, ◌≡◌, refl, inl, inr, String, Text, Result, ok,
  throws, Bool-cases, to_lower_case,
}
use chiliztv_com.Moderation.Policies.{ReportConfig}
use chiliztv_com.Moderation.Bans.{find_to_expire, Ban, SaveError, save, lift_by_admin}
use chiliztv_com.Moderation.Bans.OneActive.{
  IsTable, save-IsTable, mark_expired-IsTable, lift_by_admin-IsTable,
}
use chiliztv_com.Moderation.World.{World, Services, Failure}
use chiliztv_com.Moderation.Banning.{
  batch_size, record_ban, ids_of, BanAccountInput, ban_account, ban_under, after_save, with_config,
  create_manual_ban, lift_expired, lift_ban, issued, manual_input, record_entry, after_lift,
}
use chiliztv_com.Moderation.Banning.Issued.{announce-bans}
use chiliztv_com.Moderation.Banning.Expiry.{rows_after}

-- A run of one of the four use cases, with its clock and its arguments.
pub data Call : Type 0 where
  issues : String → ℕ → BanAccountInput → Call
  issues_by_hand : String → ℕ → ℕ → String → Text → String → Option (Option ℕ) → Call
  expires : ℕ → Call
  lifts : String → Text → String → ℕ → Call

module _ (services : Services) where
  unfoldable pub perform : Call → World → World
  perform (issues id now input) world = (ban_account services id now input world).1
  perform (issues_by_hand id at now actor wallet reason duration) world =
      (create_manual_ban services id at now actor wallet reason duration world).1
  perform (expires now) world = (lift_expired services now world).1
  perform (lifts id actor note at) world = (lift_ban services id actor note at world).1

  unfoldable pub run : List Call → World → World
  run [] world = world
  run (call ∷ calls) world = run calls (perform call world)

  after_save-IsTable :
      (wallet : Text) (ban : Ban) (world : World) (r : Result SaveError (List Ban))
      → save ban world.bans ≡ r
      → IsTable world.bans
      → IsTable (after_save services wallet ban world r).1.bans
  unfolding after_save
  after_save-IsTable wallet ban world (throws e) s t = t
  after_save-IsTable wallet ban world (ok rows) s t =
      rw (announce-bans services wallet ban (record world { bans = rows }))
        (save-IsTable ban world.bans rows s t)

  with_config-IsTable :
      (c : Result Failure ReportConfig) (id : String) (now : ℕ) (input : BanAccountInput)
      (world : World)
      → IsTable world.bans
      → IsTable (with_config services c id now input world).1.bans
  unfolding with_config ban_under
  with_config-IsTable (throws e) id now input world t = t
  with_config-IsTable (ok config) id now input world t =
      after_save-IsTable (to_lower_case input.wallet_address)
        (issued id now config input world.bans) world
        (save (issued id now config input world.bans) world.bans) refl t

  ban_account-IsTable :
      (id : String) (now : ℕ) (input : BanAccountInput) (world : World)
      → IsTable world.bans
      → IsTable (ban_account services id now input world).1.bans
  unfolding ban_account
  ban_account-IsTable id now input world t =
      with_config-IsTable services.config id now input world t

  record_entry-bans :
      {A : Type 0} (action : String) (target : Text) (answer : A) (world : World)
      → (record_entry services action target answer world).1.bans ≡ world.bans
  unfolding record_entry
  record_entry-bans action target answer world = elim (Bool-cases services.audits) [
    | inl e ↦ ground arith
    | inr e ↦ ground arith
  ]

  record_ban-bans :
      (wallet : Text) (r : Result Failure Ban × World)
      → (record_ban services wallet r).1.bans ≡ r.1.bans
  unfolding record_ban
  record_ban-bans wallet (throws e, world) = refl
  record_ban-bans wallet (ok ban, world) = record_entry-bans _ (to_lower_case wallet) ban world

  after_lift-bans :
      (r : Option Ban × List Ban) (world : World) → (after_lift services r world).1.bans ≡ r.1
  unfolding after_lift
  after_lift-bans (none, rows) world = refl
  after_lift-bans (some ban, rows) world = elim (Bool-cases (services.deletes ban.wallet_address)) [
    | inl e ↦ rw e (record_entry-bans _ ban.wallet_address ban _)
    | inr e ↦ rw e refl
  ]

  perform-IsTable :
      (call : Call) (world : World) → IsTable world.bans → IsTable (perform call world).bans
  unfolding perform create_manual_ban lift_ban
  perform-IsTable (issues id now input) world t = ban_account-IsTable id now input world t
  perform-IsTable (issues_by_hand id at now actor wallet reason duration) world t =
      rw
        (record_ban-bans wallet
          (ban_account services id now (manual_input actor wallet reason duration at) world))
        (ban_account-IsTable id now (manual_input actor wallet reason duration at) world t)
  perform-IsTable (expires now) world t =
      rw (rows_after services now world)
        (mark_expired-IsTable (ids_of (find_to_expire now batch_size world.bans)) now world.bans t)
  perform-IsTable (lifts id actor note at) world t =
      rw (after_lift-bans (lift_by_admin id actor note at world.bans) world)
        (lift_by_admin-IsTable id actor note at world.bans t)

  -- Whatever bans are issued, by reports or by hand, expired and lifted, in whatever order, and
  -- whichever services fail: ids stay unique, and a wallet has one row in status active at most.
  pub run-IsTable :
      (calls : List Call) (world : World) → IsTable world.bans → IsTable (run calls world).bans
  unfolding run
  run-IsTable [] world t = t
  run-IsTable (call ∷ calls) world t =
      run-IsTable calls (perform call world) (perform-IsTable call world t)
