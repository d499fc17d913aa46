-- ===== src/Matches/Halftime/Due.antt =====
-- Which call is due for an open market of the half time.
use chiliztv_com.Base.{
  ◌&&◌, ◌==◌, ℕ, ◌+◌, ◌*◌, ◌≤◌, true, false, Option, none, some, List, ◌≡◌, ◌↔◌, ◌⊎◌, ◌≢◌, refl,
  inl, inr, String, Among, has, has_iff, arith, Bool-cases, leb,
}
use chiliztv_com.Matches.Entity.{both, Match}
use chiliztv_com.Matches.Halftime.{
  MarketState, handle_state, close_and_resolve, settle_halftime, voided_by, HalftimeChain,
  HalftimeCall, inactive, opened, suspended, closed, resolved, cancelled, closes_market,
  resolves_market, voids_market, after_close, resolved_by, should_void, post_ht_statuses,
}

-- The market of the match is open.
abbrev pub IsOpen : HalftimeChain → String → Type 0
IsOpen chain contract = chain.market_state contract ≡ some opened

-- What makes a run on an open market do a call, from the score of the half time: a known score closes the
-- market, and settles it if the closing changed something; without one it is voided once the second
-- half runs for long enough.
abbrev pub Due : HalftimeChain → ℕ → ℕ → Match → String → Option (ℕ × ℕ) → HalftimeCall → Type 0
Due chain now void_after m contract score (closes_market c) = (contract ≡ c) × (score ≢ none)
Due chain now void_after m contract score (resolves_market c h a) =
    (contract ≡ c)
    × (score ≡ some (h, a))
    × ((n : ℕ) × (chain.close_market contract ≡ some n) × (n ≢ 0))
Due chain now void_after m contract score (voids_market c) =
    (contract ≡ c)
    × (score ≡ none)
    × Among m.status post_ht_statuses
    × (m.match_date + 47 * 60000 + void_after * 1000 ≤ now)

within_iff :
    (known : List String) (status : String) (a b : ℕ)
    → ((has known status && leb a b) ≡ true) ↔ (Among status known × (a ≤ b))
within_iff known status a b = ground (arith, has_iff known status)

should_void_iff :
    (now void_after : ℕ) (m : Match)
    → (should_void now void_after m ≡ true)
      ↔ (Among m.status post_ht_statuses × (m.match_date + 47 * 60000 + void_after * 1000 ≤ now))
unfolding should_void
should_void_iff now void_after m =
    within_iff post_ht_statuses m.status (m.match_date + 47 * 60000 + void_after * 1000) now

module _ (chain : HalftimeChain) (now void_after : ℕ) (m : Match) (contract : String) where
  resolved_by-calls :
      (h a : ℕ) (answer : Option ℕ) (n : ℕ)
      → (n == 0) ≡ false
      → (call : HalftimeCall)
      → Among call (resolved_by contract h a answer).1 ↔ (
          (call ≡ closes_market contract)
          ⊎ ((call ≡ resolves_market contract h a) × ((k : ℕ) × (some n ≡ some k) × (k ≢ 0))))
  resolved_by-calls h a none n z call = (
    (λ k. elim k [
      | inl e ↦ inl e
      | inr r ↦ elim r [ inl e ↦ inr (e, (n, refl, ground arith)) | inr e ↦ absurd e ]
    ]),
    (λ k. elim k [ inl e ↦ inl e | inr (e, _) ↦ inr (inl e) ]),
  )
  resolved_by-calls h a (some _) n z call = (
    (λ k. elim k [
      | inl e ↦ inl e
      | inr r ↦ elim r [ inl e ↦ inr (e, (n, refl, ground arith)) | inr e ↦ absurd e ]
    ]),
    (λ k. elim k [ inl e ↦ inl e | inr (e, _) ↦ inr (inl e) ]),
  )

  -- The calls once a score is known.
  after_close-calls :
      (h a : ℕ) (closed : Option ℕ) (call : HalftimeCall)
      → Among call (after_close chain contract h a closed).1 ↔ (
          (call ≡ closes_market contract)
          ⊎ ((call ≡ resolves_market contract h a) × ((n : ℕ) × (closed ≡ some n) × (n ≢ 0))))
  after_close-calls h a none call = (
    (λ k. elim k [ inl e ↦ inl e | inr e ↦ absurd e ]),
    (λ k. elim k [ inl e ↦ inl e | inr (_, (n, e, _)) ↦ absurd (ground arith) ]),
  )
  after_close-calls h a (some n) call = elim (Bool-cases (n == 0)) [
    | inl z ↦ rw z (
      (λ k. elim k [ inl e ↦ inl e | inr e ↦ absurd e ]),
      (λ k. elim k [ inl e ↦ inl e | inr (_, (n', e, p)) ↦ absurd (ground arith) ]),
    )
    | inr z ↦ rw z (resolved_by-calls h a (chain.resolve_market contract h a) n z call)
  ]

  voided_by-calls :
      (answer : Option ℕ) (call : HalftimeCall)
      → Among call (voided_by contract answer).1 ↔ (call ≡ voids_market contract)
  voided_by-calls none call = ((λ k. elim k [ inl e ↦ e | inr e ↦ absurd e ]), (λ e. inl e))
  voided_by-calls (some n) call = ((λ k. elim k [ inl e ↦ e | inr e ↦ absurd e ]), (λ e. inl e))

  known-Due :
      (h a : ℕ) (call : HalftimeCall)
      → Among call (close_and_resolve chain contract h a).1
        ↔ Due chain now void_after m contract (some (h, a)) call
  unfolding close_and_resolve
  known-Due h a (closes_market c) =
      let calls = after_close-calls h a (chain.close_market contract) (closes_market c) in
      (
        (λ k. elim (calls.0 k) [
          | inl e ↦ (ground arith, (λ n. absurd (ground arith)))
          | inr (e, _) ↦ absurd (ground arith)
        ]),
        (λ (e, _). calls.1 (inl (ground arith))),
      )
  known-Due h a (resolves_market c h' a') =
      let calls = after_close-calls h a (chain.close_market contract) (resolves_market c h' a') in
      (
        (λ k. elim (calls.0 k) [
          | inl e ↦ absurd (ground arith)
          | inr (e, n) ↦ (ground arith, ground arith, n)
        ]),
        (λ (e, f, n). calls.1 (inr (ground arith, n))),
      )
  known-Due h a (voids_market c) =
      let calls = after_close-calls h a (chain.close_market contract) (voids_market c) in
      (
        (λ k. elim (calls.0 k) [
          | inl e ↦ absurd (ground arith)
          | inr (e, _) ↦ absurd (ground arith)
        ]),
        (λ (e, f, _, _). absurd (ground arith)),
      )

  voided-Due :
      (call : HalftimeCall)
      → Among m.status post_ht_statuses × (m.match_date + 47 * 60000 + void_after * 1000 ≤ now)
      → Among call (voided_by contract (chain.cancel_market contract)).1
        ↔ Due chain now void_after m contract none call
  voided-Due (closes_market c) w =
      let calls = voided_by-calls (chain.cancel_market contract) (closes_market c) in
      ((λ k. absurd (let e = calls.0 k in ground arith)), (λ (_, n). absurd (n refl)))
  voided-Due (resolves_market c h a) w =
      let calls = voided_by-calls (chain.cancel_market contract) (resolves_market c h a) in
      ((λ k. absurd (let e = calls.0 k in ground arith)), (λ (_, n, _). absurd (ground arith)))
  voided-Due (voids_market c) w =
      let calls = voided_by-calls (chain.cancel_market contract) (voids_market c) in
      (
        (λ k. let e = calls.0 k in (ground arith, refl, w.0, w.1)),
        (λ (e, _, _, _). calls.1 (ground arith)),
      )

  not-Due :
      (call : HalftimeCall)
      → should_void now void_after m ≡ false
      → Due chain now void_after m contract none call
      → ⊥
  not-Due (closes_market c) f (_, n) = n refl
  not-Due (resolves_market c h a) f (_, n, _) = ground arith
  not-Due (voids_market c) f (_, _, s, t) = cc ((should_void_iff now void_after m).1 (s, t), f)

  unknown-Due :
      (call : HalftimeCall)
      → Among call (settle_halftime chain now void_after m contract none).1
        ↔ Due chain now void_after m contract none call
  unfolding settle_halftime
  unknown-Due call = elim (Bool-cases (should_void now void_after m)) [
    | inl t ↦ rw t (voided-Due call ((should_void_iff now void_after m).0 t))
    | inr t ↦ rw t ((λ k. absurd k), not-Due call t)
  ]

  score-Due :
      (score : Option (ℕ × ℕ)) (call : HalftimeCall)
      → Among call (settle_halftime chain now void_after m contract score).1
        ↔ Due chain now void_after m contract score call
  unfolding settle_halftime
  score-Due none call = unknown-Due call
  score-Due (some (h, a)) call = known-Due h a call

  pub handle_state-calls :
      (state : Option MarketState) (call : HalftimeCall)
      → Among call (handle_state chain now void_after m contract state).1 ↔ (
          (state ≡ some opened)
          × Due chain now void_after m contract (both m.ht_home_score m.ht_away_score) call)
  unfolding handle_state
  handle_state-calls none call = ((λ k. absurd k), (λ (e, _). absurd (ground arith)))
  handle_state-calls (some opened) call =
      let due = score-Due (both m.ht_home_score m.ht_away_score) call in
      ((λ k. (refl, due.0 k)), (λ (_, d). due.1 d))
  handle_state-calls (some inactive) call = ((λ k. absurd k), (λ (e, _). absurd (ground arith)))
  handle_state-calls (some suspended) call = ((λ k. absurd k), (λ (e, _). absurd (ground arith)))
  handle_state-calls (some closed) call = ((λ k. absurd k), (λ (e, _). absurd (ground arith)))
  handle_state-calls (some resolved) call = ((λ k. absurd k), (λ (e, _). absurd (ground arith)))
  handle_state-calls (some cancelled) call = ((λ k. absurd k), (λ (e, _). absurd (ground arith)))
