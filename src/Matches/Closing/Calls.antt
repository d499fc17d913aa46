-- ===== src/Matches/Closing/Calls.antt =====
-- Which markets are closed or cancelled.
use chiliztv_com.Base.{
  Bool, false, none, [], ◌∷◌, ◌∷◌, Option, refl, suc, inl, Option-cases, inr, ◌≢◌, length, some,
  sym, ◌∙◌, Among, eq_iff, ap, List, String, ℕ, true, ◌≡◌, ◌↔◌, ◌⊎◌, arith,
}
use chiliztv_com.Matches.Status.{classify_status}
use chiliztv_com.Matches.Entity.{Match}
use chiliztv_com.Matches.Closing.{
  close_match, close_live, closes, cancels, Calls, contract_of, CloseResult, bettable, finished,
  run_plan, Plan, is_bettable, MatchStatusKind, Chain, BettableResult, is_finished_kind, verdict_ok,
  leaves, verdict, plan_of,
}

-- The plan with its tests kept as Booleans.
plan_leaves :
    (now buffer : ℕ) (m : Match)
    → (plan_of now buffer m ≡ leaves) ↔ (
        (is_finished_kind (classify_status m.status) ≡ true)
        ⊎ (verdict_ok (verdict now buffer m) ≡ true))
unfolding plan_of
plan_leaves now buffer m = ground arith

is_finished_kind_iff : (k : MatchStatusKind) → (is_finished_kind k ≡ true) ↔ (k ≡ finished)
is_finished_kind_iff k = ground arith

verdict_ok_iff : (r : BettableResult) → (verdict_ok r ≡ true) ↔ (r ≡ bettable)
verdict_ok_iff r = ground arith

refuted : (b : Bool) → (b ≡ true → ⊥) → b ≡ false
refuted true h = absurd (h refl)
refuted false h = refl

called_off :
    (now buffer : ℕ) (m : Match) (s : String)
    → m.status ≡ s
    → plan_of now buffer (record m { status = s }) ≡ cancels s
    → plan_of now buffer m ≡ cancels m.status
called_off now buffer m s e h =
    ap (λ x. plan_of now buffer (record m { status = x })) e ∙ h ∙ ap cancels (sym e)

plan_cancels :
    (now buffer : ℕ) (m : Match)
    → plan_of now buffer m ≡ cancels m.status
    → (m.status ≡ "CANC") ⊎ (m.status ≡ "ABD")
unfolding plan_of
plan_cancels now buffer m e = ground (arith, eq_iff m.status "CANC", eq_iff m.status "ABD")

plan_closes :
    (now buffer : ℕ) (m : Match)
    → plan_of now buffer m ≡ closes
    → (is_finished_kind (classify_status m.status) ≡ false)
      × (verdict_ok (verdict now buffer m) ≡ false)
unfolding plan_of
plan_closes now buffer m e = ground arith

closes_otherwise :
    (now buffer : ℕ) (m : Match)
    → is_finished_kind (classify_status m.status) ≡ false
    → verdict_ok (verdict now buffer m) ≡ false
    → ((m.status ≡ "CANC") ⊎ (m.status ≡ "ABD") → ⊥)
    → plan_of now buffer m ≡ closes
unfolding plan_of
closes_otherwise now buffer m f b n = ground (arith, eq_iff m.status "CANC", eq_iff m.status "ABD")

-- A match is left alone exactly when it is finished or takes bets; its markets are cancelled exactly
-- when it was called off or abandoned, with its status as the reason; and they are closed exactly when
-- none of this is the case.
pub plan_of_iff :
    (now buffer : ℕ) (m : Match)
    → ((plan_of now buffer m ≡ leaves)
        ↔ ((classify_status m.status ≡ finished) ⊎ (verdict now buffer m ≡ bettable)))
      × ((plan_of now buffer m ≡ cancels m.status) ↔ ((m.status ≡ "CANC") ⊎ (m.status ≡ "ABD")))
      × ((plan_of now buffer m ≡ closes) ↔ (
          (classify_status m.status ≢ finished)
          × (verdict now buffer m ≢ bettable)
          × ((m.status ≡ "CANC") ⊎ (m.status ≡ "ABD") → ⊥)))
unfolding plan_of verdict chiliztv_com.Matches.Status.is_bettable
    chiliztv_com.Matches.Status.classify_status
plan_of_iff now buffer m =
    let left = plan_leaves now buffer m in
    let over = is_finished_kind_iff (classify_status m.status) in
    let open_still = verdict_ok_iff (verdict now buffer m) in
    (
      (
        (λ e. elim (left.0 e) [ inl f ↦ inl (over.0 f) | inr b ↦ inr (open_still.0 b) ]),
        (λ h. elim h [ inl f ↦ left.1 (inl (over.1 f)) | inr b ↦ left.1 (inr (open_still.1 b)) ]),
      ),
      (
        plan_cancels now buffer m,
        (λ h. elim h [
          | inl c ↦ called_off now buffer m "CANC" c refl
          | inr a ↦ called_off now buffer m "ABD" a refl
        ]),
      ),
      (
        (λ e.
            let (f, b) = plan_closes now buffer m e in
            (
              (λ g. cc (f, over.1 g)),
              (λ g. cc (b, open_still.1 g)),
              (λ h. elim h [
                | inl c ↦
                    let off = called_off now buffer m "CANC" c refl in
                    absurd (ground (arith, off, e))
                | inr a ↦
                    let off = called_off now buffer m "ABD" a refl in
                    absurd (ground (arith, off, e))
              ]),
            )),
        (λ (f, b, n).
            closes_otherwise now buffer m
              (refuted (is_finished_kind (classify_status m.status)) (λ t. f (over.0 t)))
              (refuted (verdict_ok (verdict now buffer m)) (λ t. b (open_still.0 t))) n),
      ),
    )

-- The match of which a call is.
abbrev Source : ℕ → ℕ → List Match → String → Plan → Type 0
Source now buffer ms contract plan =
    (m : Match) × Among m ms
    × (contract_of m.betting_contract_address ≡ some contract)
    × (plan_of now buffer m ≡ plan)
    × (plan ≢ leaves)

later-Source :
    (m : Match) (ms : List Match) (now buffer : ℕ) (c : String) (p : Plan)
    → Source now buffer ms c p
    → Source now buffer (m ∷ ms) c p
later-Source m ms now buffer c p (k, b, x, y, n) = (k, inr b, x, y, n)

module _ (chain : Chain) where
  run_plan-calls :
      (contract : String) (plan : Plan) (state : CloseResult × Calls) (c : String) (p : Plan)
      → Among (c, p) (run_plan chain contract plan state).1
        ↔ (((contract ≡ c) × (plan ≡ p) × (p ≢ leaves)) ⊎ Among (c, p) state.1)
  unfolding run_plan
  run_plan-calls contract leaves (r, calls) c p =
      ((λ m. inr m), (λ h. elim h [ inl (x, y, n) ↦ absurd (n (sym y)) | inr m ↦ m ]))
  run_plan-calls contract closes (r, calls) c p = (
    (λ m. elim m [
      | inl e ↦ inl (
        sym (ap (λ (x : String × Plan). x.0) e),
        sym (ap (λ (x : String × Plan). x.1) e),
        (λ n. cc (ap (λ (x : String × Plan). x.1) e, n)),
      )
      | inr n ↦ inr n
    ]),
    (λ h. elim h [ inl (x, y, n) ↦ inl (cc (x, y)) | inr m ↦ inr m ]),
  )
  run_plan-calls contract (cancels s) (r, calls) c p = (
    (λ m. elim m [
      | inl e ↦ inl (
        sym (ap (λ (x : String × Plan). x.0) e),
        sym (ap (λ (x : String × Plan). x.1) e),
        (λ n. cc (ap (λ (x : String × Plan). x.1) e, n)),
      )
      | inr n ↦ inr n
    ]),
    (λ h. elim h [ inl (x, y, n) ↦ inl (cc (x, y)) | inr m ↦ inr m ]),
  )

  run_plan-count :
      (contract : String) (plan : Plan) (state : CloseResult × Calls)
      → state.0.scanned ≡ length state.1
      → (run_plan chain contract plan state).0.scanned
        ≡ length (run_plan chain contract plan state).1
  unfolding run_plan
  run_plan-count contract leaves (r, calls) h = h
  run_plan-count contract closes (r, calls) h = elim (Option-cases (chain.close_open contract)) [
    | inl e ↦ rw e (ap suc h)
    | inr (n, e) ↦ rw e (ap suc h)
  ]
  run_plan-count contract (cancels s) (r, calls) h =
      elim (Option-cases (chain.cancel_open contract s)) [
        | inl e ↦ rw e (ap suc h)
        | inr (n, e) ↦ rw e (ap suc h)
      ]

  close_match-calls :
      (found : Option String) (plan : Plan) (state : CloseResult × Calls) (c : String) (p : Plan)
      → Among (c, p) (close_match chain found plan state).1
        ↔ (((found ≡ some c) × (plan ≡ p) × (p ≢ leaves)) ⊎ Among (c, p) state.1)
  unfolding close_match
  close_match-calls none plan state c p =
      ((λ m. inr m), (λ h. elim h [ inl (x, _, _) ↦ ground arith | inr m ↦ m ]))
  close_match-calls (some contract) plan state c p =
      let carried = run_plan-calls contract plan state c p in
      (
        (λ m. elim (carried.0 m) [ inl (x, y, n) ↦ inl (ap some x, y, n) | inr b ↦ inr b ]),
        (λ h. elim h [
          | inl (x, y, n) ↦ carried.1 (inl (ground arith, y, n))
          | inr m ↦ carried.1 (inr m)
        ]),
      )

  close_match-count :
      (found : Option String) (plan : Plan) (state : CloseResult × Calls)
      → state.0.scanned ≡ length state.1
      → (close_match chain found plan state).0.scanned
        ≡ length (close_match chain found plan state).1
  unfolding close_match
  close_match-count none plan state h = h
  close_match-count (some contract) plan state h = run_plan-count contract plan state h

  close_live-calls :
      (now buffer : ℕ) (ms : List Match) (c : String) (p : Plan)
      → Among (c, p) (close_live chain now buffer ms).1 ↔ Source now buffer ms c p
  unfolding close_live
  close_live-calls now buffer [] c p = ((λ m. absurd m), (λ (m, a, _, _, _). absurd a))
  close_live-calls now buffer (m ∷ ms) c p =
      let rest = close_live chain now buffer ms in
      let step =
        close_match-calls (contract_of m.betting_contract_address) (plan_of now buffer m) rest c
          p in
      let later = close_live-calls now buffer ms c p in
      (
        (λ a. elim (step.0 a) [
          | inl (x, y, n) ↦ (m, inl refl, x, y, n)
          | inr b ↦ later-Source m ms now buffer c p (later.0 b)
        ]),
        (λ (k, a, x, y, n). elim a [
          | inl e ↦ step.1 (
              inl (
                ap (λ (z : Match). contract_of z.betting_contract_address) (sym e) ∙ x,
                ap (λ z. plan_of now buffer z) (sym e) ∙ y,
                n,
              ))
          | inr b ↦ step.1 (inr (later.1 (k, b, x, y, n)))
        ]),
      )

  close_live-count :
      (now buffer : ℕ) (ms : List Match)
      → (close_live chain now buffer ms).0.scanned ≡ length (close_live chain now buffer ms).1
  unfolding close_live
  close_live-count now buffer [] = refl
  close_live-count now buffer (m ∷ ms) =
      close_match-count (contract_of m.betting_contract_address) (plan_of now buffer m)
        (close_live chain now buffer ms) (close_live-count now buffer ms)

-- A run calls the chain for a contract exactly when a candidate that carries it has a plan other than
-- to be left alone, whatever earlier calls have answered or thrown, and it counts each call as scanned.
pub close_live_calls :
    (chain : Chain) (now buffer : ℕ) (ms : List Match)
    → ((c : String) (p : Plan)
        → Among (c, p) (close_live chain now buffer ms).1 ↔ Source now buffer ms c p)
      × ((close_live chain now buffer ms).0.scanned ≡ length (close_live chain now buffer ms).1)
close_live_calls chain now buffer ms =
    (close_live-calls chain now buffer ms, close_live-count chain now buffer ms)
