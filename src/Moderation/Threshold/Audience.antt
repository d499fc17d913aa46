-- ===== src/Moderation/Threshold/Audience.antt =====
-- Whose wallet counts as the streamer's, and the audience without it.
use chiliztv_com.Base.{
  Option-cases, not, Option, none, some, List, ◌≡◌, ◌≢◌, ◌↔◌, ◌⊎◌, inl, inr, refl, sym, ◌∙◌, ap,
  arith, filter, Text, text_eq, to_lower_case,
}
use chiliztv_com.Moderation.Reports.{TargetType, stream, message, account}
use chiliztv_com.Moderation.Threshold.{Evaluation, EvaluateInput, resolve_streamer_wallet, without}

-- The stream whose streamer does not count: a target that is a stream, or the stream of the context.
abbrev pub IsStreamId : EvaluateInput → Text → Type 0
IsStreamId input id =
    ((input.target.target_type ≡ stream) × (input.target.target_id ≡ id))
    ⊎ ((input.target.target_type ≢ stream) × (input.live_context_stream_id ≡ some id))

abbrev pub IsStreamer : Evaluation → EvaluateInput → Text → Type 0
IsStreamer e input s =
    (id : Text) × IsStreamId input id
    × ((owner : Text) × (e.streamer_of id ≡ some owner) × (to_lower_case owner ≡ s))

-- The wallets that were present, without the streamer.
abbrev pub IsAudience : Evaluation → EvaluateInput → List Text → List Text → Type 0
IsAudience e input present wallets =
    ((s : Text) × IsStreamer e input s × (wallets ≡ filter (λ w. not (text_eq w s)) present))
    ⊎ (((s : Text) → IsStreamer e input s → ⊥) × (wallets ≡ present))

module _ (e : Evaluation) (input : EvaluateInput) where
  -- The streamer of a stream, none where the lookup finds nobody.
  abbrev owner : Option Text → Option Text
  owner none = none
  owner (some id) = elim (e.streamer_of id) [ none ↦ none | some w ↦ some (to_lower_case w) ]

  owner_iff :
      (id : Text) (s : Text)
      → (owner (some id) ≡ some s)
        ↔ ((w : Text) × (e.streamer_of id ≡ some w) × (to_lower_case w ≡ s))
  owner_iff id s = lowered (e.streamer_of id)
    where
      lowered :
          (found : Option Text)
          → ((elim found as (λ _. Option Text) [ none ↦ none | some w ↦ some (to_lower_case w) ])
              ≡ some s)
            ↔ ((w : Text) × (found ≡ some w) × (to_lower_case w ≡ s))
      lowered none = ((λ h. absurd (ground arith)), (λ (w, h, _). absurd (ground arith)))
      lowered (some w) =
          ((λ h. (w, refl, cc h)), (λ (v, h, k). let same : w ≡ v = cc h in cc (same, k)))

  of_stream :
      input.target.target_type ≡ stream
      → resolve_streamer_wallet e input ≡ owner (some input.target.target_id)
  unfolding resolve_streamer_wallet
  of_stream t = rw t refl

  of_context :
      (type : TargetType)
      → input.target.target_type ≡ type
      → type ≢ stream
      → resolve_streamer_wallet e input ≡ owner input.live_context_stream_id
  unfolding resolve_streamer_wallet
  of_context message t n = elim (Option-cases input.live_context_stream_id) [
    | inl k ↦ rw (t, k) refl
    | inr (id, k) ↦ rw (t, k) refl
  ]
  of_context stream t n = absurd (n refl)
  of_context account t n = elim (Option-cases input.live_context_stream_id) [
    | inl k ↦ rw (t, k) refl
    | inr (id, k) ↦ rw (t, k) refl
  ]

  none_found : (o : Option Text) (s : Text) → owner o ≡ some s → (id : Text) × (o ≡ some id)
  none_found none s h = absurd (ground arith)
  none_found (some id) s h = (id, refl)

  not_stream :
      (type : TargetType)
      → input.target.target_type ≡ type
      → type ≢ stream
      → (s : Text) → (resolve_streamer_wallet e input ≡ some s) ↔ IsStreamer e input s
  not_stream type t n s =
      let from = of_context type t n in
      (
        (λ h.
            let (id, k) = none_found input.live_context_stream_id s (sym from ∙ h) in
            let found = ap owner (sym k) ∙ sym from ∙ h in
            (id, inr ((λ q. n (sym t ∙ q)), k), (owner_iff id s).0 found)),
        (λ (id, at, w). elim at [
          | inl (q, _) ↦ absurd (n (sym t ∙ q))
          | inr (_, k) ↦ from ∙ ap owner k ∙ (owner_iff id s).1 w
        ]),
      )

  on_stream :
      input.target.target_type ≡ stream
      → (s : Text) → (resolve_streamer_wallet e input ≡ some s) ↔ IsStreamer e input s
  on_stream t s =
      let from = of_stream t in
      let own = owner_iff input.target.target_id s in
      (
        (λ h. (input.target.target_id, inl (t, refl), own.0 (sym from ∙ h))),
        (λ (id, at, w). elim at [
          | inl (_, k) ↦ from ∙ ap (λ x. owner (some x)) k ∙ (owner_iff id s).1 w
          | inr (n, _) ↦ absurd (n t)
        ]),
      )

  resolves_iff :
      (type : TargetType)
      → input.target.target_type ≡ type
      → (s : Text) → (resolve_streamer_wallet e input ≡ some s) ↔ IsStreamer e input s
  resolves_iff stream t = on_stream t
  resolves_iff message t = not_stream message t (λ k. absurd (ground arith))
  resolves_iff account t = not_stream account t (λ k. absurd (ground arith))

  pub without-IsAudience :
      (present : List Text) (o : Option Text)
      → resolve_streamer_wallet e input ≡ o
      → IsAudience e input present (without o present)
  without-IsAudience present none h = inr (
    (λ s k.
        let f = (resolves_iff input.target.target_type refl s).1 k in
        absurd (ground (arith, sym h ∙ f))),
    refl,
  )
  without-IsAudience present (some s) h =
      inl (s, (resolves_iff input.target.target_type refl s).0 h, refl)
