-- ===== src/Moderation/Banning/Cascade.antt =====
-- BanAccountUseCase: the streams that go down with a ban.
use chiliztv_com.Moderation.Banning.Issued.{saved_as}
use chiliztv_com.Moderation.Bans.OneActive.{Compatible}
use chiliztv_com.Moderation.Bans.{Ban}
use chiliztv_com.Moderation.Policies.{ReportConfig}
use chiliztv_com.Base.{
  ◌++◌, Among-append, ◌⊎◌, to_lower_case, map-Among, All, Among-map, ok, ℕ, true, List, [], ◌∷◌,
  ◌≡◌, refl, ◌∙◌, ap, ◌↔◌, inl, inr, String, Text, Among, Bool-cases,
}
use chiliztv_com.Moderation.World.{
  alerted_issued, notified_banned, purged, World, stopped, Services, ActiveStream,
}
use chiliztv_com.Moderation.Banning.{
  ban_issued, announce, ban_account, issued, BanAccountInput, stops_in, cascade, owns, stop_owned,
}

stopped_inj : (a b : String) → stopped a ≡ stopped b → a ≡ b
stopped_inj a b e = cc e

module _ (services : Services) (wallet : Text) where
  -- A stream that the wallet owns, whatever the case of its letters.
  abbrev pub Owned : List ActiveStream → String → Type 0
  Owned streams id = (s : ActiveStream) × Among s streams × (owns wallet s ≡ true) × (id ≡ s.id)

  stop_owned-Among :
      (streams : List ActiveStream) (id : String)
      → ((s : ActiveStream) → Among s streams → owns wallet s ≡ true → services.stops s.id ≡ true)
      → Among id (stop_owned services wallet streams) ↔ Owned streams id
  unfolding stop_owned
  stop_owned-Among [] id h = ((λ m. absurd m), (λ (s, m, o, e). absurd m))
  stop_owned-Among (x ∷ xs) id h =
      let ih = stop_owned-Among xs id (λ s m. h s (inr m)) in
      elim (Bool-cases (owns wallet x)) [
        | inl o ↦
            rw (o, h x (inl refl) o)
              (
                (λ m. elim m [
                  | inl e ↦ (x, inl refl, o, e)
                  | inr later ↦ let (s, n, p, e) = ih.0 later in (s, inr n, p, e)
                ]),
                (λ (s, m, p, e). elim m [
                  | inl at ↦ inl (e ∙ ap (λ (y : ActiveStream). y.id) at)
                  | inr later ↦ inr (ih.1 (s, later, p, e))
                ]),
              )
        | inr o ↦ rw o (
          (λ m. let (s, n, p, e) = ih.0 m in (s, inr n, p, e)),
          (λ (s, m, p, e). elim m [
            | inl at ↦ absurd (cc (at, p, o))
            | inr later ↦ ih.1 (s, later, p, e)
          ]),
        )
      ]

  cascade-Among :
      (streams : List ActiveStream) (id : String)
      → services.active_streams ≡ ok streams
      → ((s : ActiveStream) → Among s streams → owns wallet s ≡ true → services.stops s.id ≡ true)
      → Among (stopped id) (cascade services wallet) ↔ Owned streams id
  unfolding cascade stops_in
  cascade-Among streams id listed h = rw (ap (stops_in services wallet) listed) (
    (λ m.
        let (a, n, e) = Among-map stopped (stop_owned services wallet streams) (stopped id) m in
        (stop_owned-Among streams id h).0 (rw (stopped_inj id a e) n)),
    (λ o.
        map-Among stopped (stop_owned services wallet streams) id
          ((stop_owned-Among streams id h).1 o)),
  )

  announce-log :
      (ban : Ban) (world : World)
      → services.deletes wallet ≡ true
      → (announce services wallet ban world).1.log
        ≡ world.log
          ++ (purged wallet
              ∷ notified_banned wallet ban
              ∷ alerted_issued (ban_issued wallet ban)
              ∷ cascade services wallet)
  unfolding announce
  announce-log ban world e = rw e refl

  stopped_after :
      (ban : Ban) (world : World) (id : String)
      → services.deletes wallet ≡ true
      → Among (stopped id) (announce services wallet ban world).1.log
        ↔ (Among (stopped id) world.log ⊎ Among (stopped id) (cascade services wallet))
  stopped_after ban world id e =
      let split =
        Among-append world.log
          (purged wallet
            ∷ notified_banned wallet ban
            ∷ alerted_issued (ban_issued wallet ban)
            ∷ cascade services wallet)
          (stopped id) in
      rw (announce-log ban world e) (
        (λ m. elim (split.0 m) [
          | inl before ↦ inl before
          | inr (inl no_purge) ↦ absurd (cc no_purge)
          | inr (inr (inl no_note)) ↦ absurd (cc no_note)
          | inr (inr (inr (inl no_alert))) ↦ absurd (cc no_alert)
          | inr (inr (inr (inr n))) ↦ inr n
        ]),
        (λ m. elim m [
          | inl before ↦ split.1 (inl before)
          | inr n ↦ split.1 (inr (inr (inr (inr n))))
        ]),
      )

-- Once a ban is saved and its key purged, the streams that are stopped, beside those before, are the
-- active streams of the banned wallet, none of them left out, when each stop returns.
pub ban_account_stops :
    (services : Services) (config : ReportConfig) (id : String) (now : ℕ) (input : BanAccountInput)
    (world : World) (streams : List ActiveStream) (stream : String)
    → services.config ≡ ok config
    → All (Compatible (issued id now config input world.bans)) world.bans
    → services.deletes (to_lower_case input.wallet_address) ≡ true
    → services.active_streams ≡ ok streams
    → ((s : ActiveStream)
        → Among s streams
        → owns (to_lower_case input.wallet_address) s ≡ true
        → services.stops s.id ≡ true)
    → Among (stopped stream) (ban_account services id now input world).1.log ↔ (
        Among (stopped stream) world.log
        ⊎ Owned services (to_lower_case input.wallet_address) streams stream)
ban_account_stops services config id now input world streams stream c free d listed h =
    let wallet = to_lower_case input.wallet_address in
    let new = issued id now config input world.bans in
    let after =
      stopped_after services wallet new (record world { bans = new ∷ world.bans }) stream d in
    let fallen = cascade-Among services wallet streams stream listed h in
    rw (saved_as services config id now input world c free) (
      (λ m. elim (after.0 m) [ inl b ↦ inl b | inr n ↦ inr (fallen.0 n) ]),
      (λ m. elim m [ inl b ↦ after.1 (inl b) | inr o ↦ after.1 (inr (fallen.1 o)) ]),
    )
