-- ===== src/Moderation/Threshold/Eligible.antt =====
-- Which wallets count as eligible for the quorum.
use chiliztv_com.Base.{
  Option-cases, ℕ, ◌-◌, ◌<◌, Bool, true, Option, none, some, List, [], ◌∷◌, ◌≡◌, ◌↔◌, ◌⊎◌, inl, inr,
  refl, sym, ◌∙◌, ap, arith, map, filter, length, any, ◌&&◌, Text, text_eq, text_eq_iff,
  to_lower_case, Result, ok, throws, Among, Among-filter, Among-map, map-Among, Bool-cases, subst,
}
use chiliztv_com.Moderation.Bans.{unexpired, Ban, BanStatus, active, is_active, find_active_wallets}
use chiliztv_com.Moderation.World.{Failure}
use chiliztv_com.Moderation.Threshold.{
  Evaluation, EvaluateInput, resolve_streamer_wallet, eligible_count, count_eligible, without,
}
use chiliztv_com.Moderation.Threshold.Numbers.{IsListing, distinct-NoRepeats, distinct-Among}
use chiliztv_com.Moderation.Threshold.Audience.{IsAudience, without-IsAudience}

-- A ban of one of the wallets is active and has not run out.
abbrev pub IsBanned : ℕ → List Ban → List Text → Text → Type 0
IsBanned now bans wallets w =
    (b : Ban) × Among b bans
    × (b.wallet_address ≡ w)
    × ((x : Text) × Among x wallets × (to_lower_case x ≡ w))
    × (b.status ≡ active)
    × ((b.expires_at ≡ none) ⊎ ((end : ℕ) × (b.expires_at ≡ some end) × (now < end)))

-- Of the match of the target, the audience less the wallets of it that are banned; 0 without a match.
abbrev pub IsEligibleCount : Evaluation → EvaluateInput → ℕ → ℕ → List Ban → ℕ → Type 0
IsEligibleCount e input min_presence_sec now bans n =
    ((input.target.live_context_match_id ≡ none) × (n ≡ 0))
    ⊎ ((match_id : ℕ) × (present : List Text) × (wallets : List Text) × (banned : List Text)
        × (input.target.live_context_match_id ≡ some match_id)
        × (e.eligible_wallets match_id min_presence_sec now ≡ ok present)
        × IsAudience e input present wallets
        × IsListing banned (IsBanned now bans wallets)
        × (n ≡ length wallets - length banned))

unexpired_iff :
    (now : ℕ) (expiry : Option ℕ)
    → (unexpired now expiry ≡ true)
      ↔ ((expiry ≡ none) ⊎ ((end : ℕ) × (expiry ≡ some end) × (now < end)))
unexpired_iff now none = ((λ h. inl refl), (λ h. refl))
unexpired_iff now (some t) = (
  (λ h. inr (t, refl, ground arith)),
  (λ h. elim h [ inl k ↦ absurd (ground arith) | inr (end, k, l) ↦ ground arith ]),
)

is_active_iff : (status : BanStatus) → (is_active status ≡ true) ↔ (status ≡ active)
is_active_iff status = ground arith

three_iff : (p q r : Bool) → ((p && q && r) ≡ true) ↔ ((p ≡ true) × (q ≡ true) × (r ≡ true))
three_iff p q r = ground arith

lowered_iff :
    (wallets : List Text) (w : Text)
    → (any (text_eq w) (map to_lower_case wallets) ≡ true)
      ↔ ((x : Text) × Among x wallets × (to_lower_case x ≡ w))
lowered_iff [] w = ((λ h. absurd (ground arith)), (λ (x, m, _). absurd m))
lowered_iff (x ∷ xs) w =
    let later = lowered_iff xs w in
    let same = text_eq_iff w (to_lower_case x) in
    (
      (λ h. elim (Bool-cases (text_eq w (to_lower_case x))) [
        | inl t ↦ (x, inl refl, sym (same.0 t))
        | inr t ↦ let (y, n, k) = later.0 (ground arith) in (y, inr n, k)
      ]),
      (λ (y, m, k). elim m [
        | inl at ↦
            let here : text_eq w (to_lower_case x) ≡ true = same.1 (sym k ∙ ap to_lower_case at) in
            ground arith
        | inr n ↦ let there = later.1 (y, n, k) in ground arith
      ]),
    )

find_active_wallets-IsListing :
    (now : ℕ) (bans : List Ban) (wallets : List Text)
    → IsListing (find_active_wallets wallets now bans) (IsBanned now bans wallets)
unfolding find_active_wallets
find_active_wallets-IsListing now bans wallets =
    let test = λ (row : Ban).
      any (text_eq row.wallet_address) (map to_lower_case wallets)
      && is_active row.status
      && unexpired now row.expires_at in
    let found = map (λ (row : Ban). row.wallet_address) (filter test bans) in
    (
      distinct-NoRepeats found,
      (λ w. (
        (λ m.
            let (b, n, k) =
              Among-map (λ (row : Ban). row.wallet_address) (filter test bans) w
                ((distinct-Among found w).0 m) in
            let (here, t) = (Among-filter test bans b).0 n in
            let (p, q, r) =
              (three_iff (any (text_eq b.wallet_address) (map to_lower_case wallets))
                  (is_active b.status) (unexpired now b.expires_at)).0
                t in
            let (x, at, low) = (lowered_iff wallets b.wallet_address).0 p in
            (
              b,
              here,
              sym k,
              (x, at, low ∙ sym k),
              (is_active_iff b.status).0 q,
              (unexpired_iff now b.expires_at).0 r,
            )),
        (λ (b, here, k, (x, at, low), q, r).
            let t =
              (three_iff (any (text_eq b.wallet_address) (map to_lower_case wallets))
                  (is_active b.status) (unexpired now b.expires_at)).1
                (
                  (lowered_iff wallets b.wallet_address).1 (x, at, low ∙ sym k),
                  (is_active_iff b.status).1 q,
                  (unexpired_iff now b.expires_at).1 r,
                ) in
            (distinct-Among found w).1 (
              subst (λ y. Among y found) k
                (map-Among (λ (row : Ban). row.wallet_address) (filter test bans) b
                  ((Among-filter test bans b).1 (here, t))))),
      )),
    )

-- What is counted is the number of the eligible wallets.
pub count_eligible_lem :
    (e : Evaluation) (input : EvaluateInput) (min_presence_sec now : ℕ) (bans : List Ban) (n : ℕ)
    → count_eligible e input min_presence_sec now bans ≡ ok n
    → IsEligibleCount e input min_presence_sec now bans n
unfolding count_eligible eligible_count resolve_streamer_wallet
count_eligible_lem e input min_presence_sec now bans n h =
    elim (Option-cases input.target.live_context_match_id) [
      | inl k ↦ inl (k, sym (cc (rw k at h)))
      | inr (id, k) ↦ counted id k (e.eligible_wallets id min_presence_sec now) refl (rw k at h)
    ]
  where
    counted :
        (id : ℕ)
        → input.target.live_context_match_id ≡ some id
        → (r : Result Failure (List Text)) → e.eligible_wallets id min_presence_sec now ≡ r
        → (elim r as (λ _. Result Failure ℕ) [
          | throws f ↦ throws f
          | ok present ↦ ok (eligible_count e input now bans present)
        ])
          ≡ ok n
        → IsEligibleCount e input min_presence_sec now bans n
    counted id k (throws f) from g = absurd (cc g)
    counted id k (ok present) from g =
        let wallets = without (resolve_streamer_wallet e input) present in
        inr (
          id,
          present,
          wallets,
          find_active_wallets wallets now bans,
          k,
          from,
          without-IsAudience e input present (resolve_streamer_wallet e input) refl,
          find_active_wallets-IsListing now bans wallets,
          sym (cc g),
        )
