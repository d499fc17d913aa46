-- ===== src/Moderation/Banning/Issued.antt =====
-- BanAccountUseCase: what it saves, whom the saved ban binds, and when it refuses.
use chiliztv_com.Moderation.Bans.Enforcement.{find_active_ban_iff}
use chiliztv_com.Base.{
  sym, to_lower_case_idem, some, Among-All, ◌∙◌, ap, true, Among, ℕ, ◌∷◌, ◌≡◌, refl, ◌⊎◌, inl, inr,
  String, Text, to_lower_case, All, Result, ok, throws, Bool-cases,
}
use chiliztv_com.Moderation.Policies.{ReportConfig}
use chiliztv_com.Moderation.Bans.{SaveError, find_active_ban, is_active, is_active_at, Ban, save}
use chiliztv_com.Moderation.Bans.OneActive.{IsTable, Compatible, save_iff}
use chiliztv_com.Moderation.World.{conflict_error, World, Services}
use chiliztv_com.Moderation.Banning.{
  with_config, Failure, after_save, ban_under, BanAccountInput, issued, announce, ban_account,
}

pub announce-bans :
    (services : Services) (wallet : Text) (ban : Ban) (world : World)
    → (announce services wallet ban world).1.bans ≡ world.bans
unfolding announce
announce-bans services wallet ban world = elim (Bool-cases (services.deletes wallet)) [
  | inl e ↦ rw e refl
  | inr e ↦ rw e refl
]

Result-cases : {E A : Type 0} (r : Result E A) → ((e : E) × (r ≡ throws e)) ⊎ ((a : A) × (r ≡ ok a))
Result-cases (ok a) = inr (a, refl)
Result-cases (throws e) = inl (e, refl)

module _ (services : Services) (config : ReportConfig) (id : String) (now : ℕ)
    (input : BanAccountInput) (world : World) (configured : services.config ≡ ok config) where
  abbrev new : Ban
  new = issued id now config input world.bans

  runs_under :
      ban_account services id now input world ≡ ban_under services config id now input world
  unfolding ban_account with_config
  runs_under = ap (λ c. with_config services c id now input world) configured

  -- The use case, where the insert succeeds.
  pub saved_as :
      All (Compatible new) world.bans
      → ban_account services id now input world
        ≡ announce services
            (to_lower_case input.wallet_address)
            new
            (record world { bans = new ∷ world.bans })
  unfolding ban_under after_save
  saved_as free =
      runs_under
      ∙ ap (after_save services (to_lower_case input.wallet_address) new world)
          ((save_iff new world.bans (new ∷ world.bans)).1 (free, refl))

  saved :
      All (Compatible new) world.bans
      → (ban_account services id now input world).1.bans ≡ new ∷ world.bans
  saved free =
      ap (λ (r : Result Failure Ban × World). r.1.bans) (saved_as free)
      ∙ announce-bans services (to_lower_case input.wallet_address) new
          (record world { bans = new ∷ world.bans })

  unfree : (e : SaveError) → save new world.bans ≡ throws e → ¬ All (Compatible new) world.bans
  unfree e stuck free = cc (stuck, (save_iff new world.bans (new ∷ world.bans)).1 (free, refl))

  refused :
      ¬ All (Compatible new) world.bans
      → ban_account services id now input world ≡ (throws conflict_error, world)
  unfolding ban_under after_save
  refused taken = elim (Result-cases (save new world.bans)) [
    | inl (e, stuck) ↦
        runs_under ∙ ap (after_save services (to_lower_case input.wallet_address) new world) stuck
    | inr (rows, done) ↦ absurd (taken ((save_iff new world.bans rows).0 done).0)
  ]

  -- With its configuration read, the use case puts the new ban on the table when the id is new and the
  -- wallet has no row in status active, whether or not the cache, the streams and the notifications
  -- answer; else it refuses with a conflict and changes nothing.
  pub ban_account_lem :
      (All (Compatible new) world.bans
        × ((ban_account services id now input world).1.bans ≡ new ∷ world.bans))
      ⊎ ((¬ All (Compatible new) world.bans)
          × (ban_account services id now input world ≡ (throws conflict_error, world)))
  ban_account_lem = elim (Result-cases (save new world.bans)) [
    | inl (e, stuck) ↦ inr (unfree e stuck, refused (unfree e stuck))
    | inr (rows, done) ↦
        let (free, _) = (save_iff new world.bans rows).0 done in inl (free, saved free)
  ]

  -- A ban that is put on a table that keeps the invariant binds its wallet, in any case of letters, at
  -- each moment before its end.
  ban_account_binds :
      (wallet : Text) (later : ℕ)
      → IsTable world.bans
      → All (Compatible new) world.bans
      → to_lower_case wallet ≡ to_lower_case input.wallet_address
      → is_active_at later new ≡ true
      → find_active_ban wallet later (ban_account services id now input world).1.bans
        ≡ ok (some new)
  ban_account_binds wallet later t free same live = rw (saved free) (
      (find_active_ban_iff wallet later (new ∷ world.bans) new (free, t)).1.1
        (inl refl, to_lower_case_idem input.wallet_address ∙ sym same, live))

  -- A row on the wallet in status active refuses the ban, also when it has expired and binds nobody.
  pub stale_row_blocks :
      (row : Ban)
      → Among row world.bans
      → row.wallet_address ≡ to_lower_case input.wallet_address
      → is_active row.status ≡ true
      → ban_account services id now input world ≡ (throws conflict_error, world)
  stale_row_blocks row m same stuck = refused (λ free.
      elim (Among-All (Compatible new) world.bans row free m).1 [
        | inl idle ↦ cc idle
        | inr (inl ended) ↦ cc (stuck, ended)
        | inr (inr differ) ↦ differ (to_lower_case_idem input.wallet_address ∙ sym same)
      ])
