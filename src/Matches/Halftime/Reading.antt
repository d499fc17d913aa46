-- ===== src/Matches/Halftime/Reading.antt =====
-- Which calls a run makes on the markets of the half time.
use chiliztv_com.Base.{
  [], subst, ◌∷◌, Among-append, codes, to_lower_case, ◌||◌, Bool, Text, ◌&&◌, ℕ, ◌+◌, ◌≤◌, true,
  false, Option, none, some, List, ◌≡◌, ◌↔◌, ◌⊎◌, refl, inl, inr, String, Among, has, has_iff,
  arith, Bool-cases, leb,
}
use chiliztv_com.Matches.Entity.{both, Match}
use chiliztv_com.Matches.Halftime.{
  execute_all, scan_match, tallied, handle_match, HalftimeResult, rescue_window_ms, Handled,
  given_contract, guarded, in_rescue_window, post_live_rescue_statuses, warrants_scan,
  live_statuses, HalftimeChain, HalftimeCall,
}
use chiliztv_com.Matches.Halftime.Due.{IsOpen, Due, handle_state-calls}

-- The cron run looks at the match.
abbrev Scanned : ℕ → Match → Type 0
Scanned now m =
    Among m.status live_statuses
    ⊎ (Among m.status post_live_rescue_statuses × (now ≤ m.match_date + rescue_window_ms))

warrants_scan_iff : (now : ℕ) (m : Match) → (warrants_scan now m ≡ true) ↔ Scanned now m
unfolding warrants_scan in_rescue_window
warrants_scan_iff now m =
    either_iff live_statuses post_live_rescue_statuses m.status now
      (m.match_date + rescue_window_ms)
  where
    either_iff :
        (xs ys : List String) (s : String) (a b : ℕ)
        → ((has xs s || has ys s && leb a b) ≡ true) ↔ (Among s xs ⊎ (Among s ys × (a ≤ b)))
    either_iff xs ys s a b = ground (arith, has_iff xs s, has_iff ys s)

given_transport : (P : String → Type 0) (x y : String) → some x ≡ some y → P y → P x
given_transport P x y e p = let same : y ≡ x = ground arith in subst P same p

module _ (chain : HalftimeChain) (busy : Text → Bool) (now void_after : ℕ) where
  -- The match, with its contract, that makes the cron run do a call.
  abbrev pub Reason : Match → HalftimeCall → Type 0
  Reason m call =
      (contract : String) × (given_contract m.betting_contract_address ≡ some contract)
      × Scanned now m
      × (busy (to_lower_case (codes contract)) ≡ false)
      × IsOpen chain contract
      × Due chain now void_after m contract (both m.ht_home_score m.ht_away_score) call

  -- The run that looks at the match does the call on the contract.
  abbrev Undertaken : Match → HalftimeCall → String → Type 0
  Undertaken m call contract =
      (busy (to_lower_case (codes contract)) ≡ false)
      × IsOpen chain contract
      × Due chain now void_after m contract (both m.ht_home_score m.ht_away_score) call

  guarded-calls :
      (m : Match) (contract : String) (call : HalftimeCall)
      → Among call (guarded chain busy now void_after m contract).1 ↔ Undertaken m call contract
  unfolding guarded handle_match
  guarded-calls m contract call = elim (Bool-cases (busy (to_lower_case (codes contract)))) [
    | inl b ↦ rw b ((λ k. absurd k), (λ (e, _, _). absurd (ground arith)))
    | inr b ↦
        let calls =
          handle_state-calls chain now void_after m contract (chain.market_state contract) call in
        rw b ((λ k. let (o, d) = calls.0 k in (refl, o, d)), (λ (_, o, d). calls.1 (o, d)))
  ]

  tallied-calls :
      (handled : Handled) (state : HalftimeResult × List HalftimeCall) (call : HalftimeCall)
      → Among call (tallied handled state).1 ↔ (Among call handled.1 ⊎ Among call state.1)
  tallied-calls (none, made) (r, calls) call = Among-append made calls call
  tallied-calls (some (settled, voided), made) (r, calls) call = Among-append made calls call

  Undertaken-from :
      (m : Match) (contract : String) (call : HalftimeCall)
      → Scanned now m
      → Undertaken m call contract
      → (c : String) × (some contract ≡ some c)
        × Scanned now m
        × (busy (to_lower_case (codes c)) ≡ false)
        × IsOpen chain c
        × Due chain now void_after m c (both m.ht_home_score m.ht_away_score) call
  Undertaken-from m contract call s (b, o, d) = (contract, refl, s, b, o, d)

  scan_match-calls :
      (m : Match) (found : Option String) (state : HalftimeResult × List HalftimeCall)
      (call : HalftimeCall)
      → Among call (scan_match chain busy now void_after m found state).1 ↔ (
          ((contract : String) × (found ≡ some contract)
            × Scanned now m
            × (busy (to_lower_case (codes contract)) ≡ false)
            × IsOpen chain contract
            × Due chain now void_after m contract (both m.ht_home_score m.ht_away_score) call)
          ⊎ Among call state.1)
  scan_match-calls m none state call =
      ((λ k. inr k), (λ k. elim k [ inl (c, e, _, _, _, _) ↦ absurd (ground arith) | inr n ↦ n ]))
  scan_match-calls m (some contract) state call = elim (Bool-cases (warrants_scan now m)) [
    | inl w ↦ rw w (
      (λ k. elim ((tallied-calls (guarded chain busy now void_after m contract) state call).0 k) [
        | inl g ↦ inl (
            Undertaken-from m contract call ((warrants_scan_iff now m).0 w)
              ((guarded-calls m contract call).0 g))
        | inr n ↦ inr n
      ]),
      (λ k. (tallied-calls (guarded chain busy now void_after m contract) state call).1 (elim k [
        | inl (c, e, _, b, o, d) ↦ inl (
            (guarded-calls m contract call).1
              (given_transport (Undertaken m call) contract c e (b, o, d)))
        | inr n ↦ inr n
      ])),
    )
    | inr w ↦ rw w (
      (λ k. inr k),
      (λ k. elim k [
        | inl (c, e, s, _, _, _) ↦ absurd (cc ((warrants_scan_iff now m).1 s, w))
        | inr n ↦ n
      ]),
    )
  ]

  -- A run closes, resolves or voids a market of the half time exactly when a match that carries the
  -- contract gives a reason: it is in play, or over with its kickoff six hours ago at most, no other run
  -- is at work on the contract, the market is open, and the call is the one that is due.
  pub execute_all_calls :
      (ms : List Match) (call : HalftimeCall)
      → Among call (execute_all chain busy now void_after ms).1
        ↔ ((m : Match) × Among m ms × Reason m call)
  unfolding execute_all
  execute_all_calls [] call = ((λ k. absurd k), (λ (m, k, _). absurd k))
  execute_all_calls (m ∷ ms) call =
      let step =
        scan_match-calls m (given_contract m.betting_contract_address)
          (execute_all chain busy now void_after ms) call in
      (
        (λ k. elim (step.0 k) [
          | inl r ↦ (m, inl refl, r)
          | inr n ↦ let (m', at, r) = (execute_all_calls ms call).0 n in (m', inr at, r)
        ]),
        (λ (m', at, r). step.1 (elim at [
          | inl e ↦ inl (subst (λ x. Reason x call) e r)
          | inr n ↦ inr ((execute_all_calls ms call).1 (m', n, r))
        ])),
      )
