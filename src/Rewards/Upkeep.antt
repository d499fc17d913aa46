-- ===== src/Rewards/Upkeep.antt =====
-- Which transactions the upkeep of the epochs sends.
use chiliztv_com.Base.{
  sym, ◌≤◌, ltb, subst, ◌∙◌, ap, Among-filter, filter, ◌*◌, ◌+◌, Bool-cases, ◌⊎◌, ◌&&◌, ◌↔◌, ◌<◌,
  ◌≡◌, Option, Among, ℕ, List, [], ◌∷◌, none, some, Bool, true, false, inl, inr, arith, refl,
}
use chiliztv_com.Indexing.Leaderboard.{EpochRow, EpochStatus, confirmed}
use chiliztv_com.Rewards.{
  execute_upkeep, is_expired_window, no_later_epoch, after_advance, find_expired_confirmed,
  advance_if_due, roll_one, expires_before, UpkeepCall, is_confirmed, rollover_each, order_by,
  insert_epoch, rolls_epoch, Rollovers,
}

Among-insert_epoch :
    (before : EpochRow → EpochRow → Bool) (row : EpochRow) (rows : List EpochRow) (a : EpochRow)
    → Among a (insert_epoch before row rows) ↔ ((a ≡ row) ⊎ Among a rows)
Among-insert_epoch before row [] a = ((λ m. m), (λ m. m))
Among-insert_epoch before row (next ∷ rows) a =
    let later = Among-insert_epoch before row rows a in
    elim (Bool-cases (before row next)) [
      | inl e ↦ rw e ((λ m. m), (λ m. m))
      | inr e ↦ rw e (
        (λ m. elim m [
          | inl at ↦ inr (inl at)
          | inr n ↦ elim (later.0 n) [ inl at ↦ inl at | inr k ↦ inr (inr k) ]
        ]),
        (λ m. elim m [
          | inl at ↦ inr (later.1 (inl at))
          | inr n ↦ elim n [ inl at ↦ inl at | inr k ↦ inr (later.1 (inr k)) ]
        ]),
      )
    ]

pub Among-order_by :
    (before : EpochRow → EpochRow → Bool) (rows : List EpochRow) (a : EpochRow)
    → Among a (order_by before rows) ↔ Among a rows
Among-order_by before [] a = ((λ m. m), (λ m. m))
Among-order_by before (row ∷ rows) a =
    let here = Among-insert_epoch before row (order_by before rows) a in
    let later = Among-order_by before rows a in
    (
      (λ m. elim (here.0 m) [ inl at ↦ inl at | inr n ↦ inr (later.0 n) ]),
      (λ m. here.1 (elim m [ inl at ↦ inl at | inr n ↦ inr (later.1 n) ])),
    )

-- The window of the epoch is over, and what it left was not rolled over.
abbrev pub IsExpired : ℕ → List EpochRow → ℕ → Type 0
IsExpired now rows id =
    (row : EpochRow) × Among row rows
    × (row.epoch_id ≡ some id)
    × (row.status ≡ confirmed)
    × ((expiry : ℕ) × (row.claim_expiry ≡ some expiry) × (expiry < now))

window_iff :
    (now : ℕ) (status : EpochStatus) (expiry : Option ℕ)
    → ((is_confirmed status && expires_before now expiry) ≡ true)
      ↔ ((status ≡ confirmed) × ((t : ℕ) × (expiry ≡ some t) × (t < now)))
window_iff now status none =
    ((λ e. absurd (ground arith)), (λ (_, (_, e, _)). absurd (ground arith)))
window_iff now status (some t) =
    ((λ e. (ground arith, (t, refl, ground arith))), (λ (s, (t', e, l)). ground arith))

module _ (chain : Rollovers) (now : ℕ) where
  -- The rollover of the number of a row, which the simulation accepts.
  abbrev Rolls : Option ℕ → UpkeepCall → Type 0
  Rolls found call =
      (id : ℕ) × (found ≡ some id) × (chain.simulates_roll id ≡ true) × (call ≡ rolls_epoch id)

  roll_one-calls :
      (found : Option ℕ) (state : ℕ × List UpkeepCall) (call : UpkeepCall)
      → Among call (roll_one chain now found state).1 ↔ (Rolls found call ⊎ Among call state.1)
  roll_one-calls none state call =
      ((λ m. inr m), (λ m. elim m [ inl (_, e, _, _) ↦ absurd (ground arith) | inr n ↦ n ]))
  roll_one-calls (some id) (rolled, calls) call = elim (Bool-cases (chain.simulates_roll id)) [
    | inl t ↦ rw t (
      (λ m. elim m [ inl e ↦ inl (id, refl, t, e) | inr n ↦ inr n ]),
      (λ m. elim m [
        | inl (k, e, _, c) ↦ let same : k ≡ id = ground arith in inl (c ∙ ap rolls_epoch same)
        | inr n ↦ inr n
      ]),
    )
    | inr t ↦ rw t (
      (λ m. inr m),
      (λ m. elim m [
        | inl (k, e, g, _) ↦
            let same : k ≡ id = ground arith in absurd (cc (ap chain.simulates_roll same, g, t))
        | inr n ↦ n
      ]),
    )
  ]

  rollover_each-calls :
      (rows : List EpochRow) (call : UpkeepCall)
      → Among call (rollover_each chain now rows).1
        ↔ ((row : EpochRow) × Among row rows × Rolls row.epoch_id call)
  unfolding rollover_each
  rollover_each-calls [] call = ((λ m. absurd m), (λ (_, m, _). absurd m))
  rollover_each-calls (row ∷ rows) call =
      let here = roll_one-calls row.epoch_id (rollover_each chain now rows) call in
      let later = rollover_each-calls rows call in
      (
        (λ m. elim (here.0 m) [
          | inl r ↦ (row, inl refl, r)
          | inr n ↦ let (x, at, r) = later.0 n in (x, inr at, r)
        ]),
        (λ (x, at, r). here.1 (elim at [
          | inl e ↦ inl (subst (λ (y : EpochRow). Rolls y.epoch_id call) e r)
          | inr n ↦ inr (later.1 (x, n, r))
        ])),
      )

  swept_iff :
      (sweep : ℕ) (rows : List EpochRow) (id : ℕ)
      → Among (rolls_epoch id) (rollover_each chain now (find_expired_confirmed sweep rows)).1
        ↔ ((chain.simulates_roll id ≡ true) × IsExpired sweep rows id)
  unfolding find_expired_confirmed
  swept_iff sweep rows id =
      let each =
        rollover_each-calls
          (order_by (λ a b. no_later_epoch a.epoch_id b.epoch_id)
            (filter (is_expired_window sweep) rows))
          (rolls_epoch id) in
      let sorted =
        Among-order_by (λ a b. no_later_epoch a.epoch_id b.epoch_id)
          (filter (is_expired_window sweep) rows) in
      (
        (λ m.
            let (row, at, (k, e, g, c)) = each.0 m in
            let (here, t) =
              (Among-filter (is_expired_window sweep) rows row).0 ((sorted row).0 at) in
            let (s, w) = (window_iff sweep row.status row.claim_expiry).0 t in
            let same : k ≡ id = ground arith in
            (ap chain.simulates_roll (sym same) ∙ g, (row, here, e ∙ ap some same, s, w))),
        (λ (g, (row, at, e, s, w)). each.1 (
          row,
          (sorted row).1 (
              (Among-filter (is_expired_window sweep) rows row).1
                (at, (window_iff sweep row.status row.claim_expiry).1 (s, w))),
          (id, e, g, refl),
        )),
      )

  -- The epoch is read, and it is not over or its advance is accepted and goes through.
  abbrev pub Advances : Option (ℕ × ℕ) → Type 0
  Advances found =
      (start : ℕ) × (duration : ℕ) × (found ≡ some (start, duration))
      × ((now < (start + duration) * 1000)
          ⊎ ((chain.simulates_advance ≡ true) × (chain.advances ≡ true)))

  stuck :
      (start duration : ℕ)
      → ltb now ((start + duration) * 1000) ≡ false
      → (chain.simulates_advance && chain.advances) ≡ false
      → Advances (some (start, duration))
      → ⊥
  stuck start duration t a (s, d, e, inl l) =
      let (p, q) : (s ≡ start) × (d ≡ duration) = ground arith in
      let late : (start + duration) * 1000 ≤ now = ground arith in
      let early : now < (start + duration) * 1000 = subst (λ x. now < x * 1000) (cc (p, q)) l in
      omega (arith, late, early)
  stuck start duration t a (s, d, e, inr (g, h)) =
      let both : (chain.simulates_advance && chain.advances) ≡ true = rw (g, h) refl in
      absurd (cc (both, a))

  after-rolls :
      (found : Option (ℕ × ℕ)) (sweep : ℕ) (rows : List EpochRow) (id : ℕ)
      → Among
          (rolls_epoch id)
          (after_advance chain now sweep rows (advance_if_due chain now found)).1
        ↔ (Advances found × ((chain.simulates_roll id ≡ true) × IsExpired sweep rows id))
  unfolding advance_if_due rollover_each
  after-rolls none sweep rows id = ((λ m. absurd m), (λ ((_, _, e, _), _). absurd (ground arith)))
  after-rolls (some (start, duration)) sweep rows id =
      elim (Bool-cases (ltb now ((start + duration) * 1000))) [
        | inl t ↦ rw t (
          (λ m. ((start, duration, refl, inl (ground arith)), (swept_iff sweep rows id).0 m)),
          (λ (_, x). (swept_iff sweep rows id).1 x),
        )
        | inr t ↦ elim (Bool-cases chain.simulates_advance) [
          | inl g ↦ elim (Bool-cases chain.advances) [
            | inl a ↦
                rw (t, g, a)
                  (
                    (λ m. elim m [
                      | inl e ↦ absurd (ground arith)
                      | inr n ↦
                          ((start, duration, refl, inr (refl, refl)), (swept_iff sweep rows id).0 n)
                    ]),
                    (λ (_, x). inr ((swept_iff sweep rows id).1 x)),
                  )
            | inr a ↦ (
              rw (t, g, a) (λ m. elim m [ inl e ↦ absurd (ground arith) | inr n ↦ absurd n ]),
              (λ (w, _). absurd (stuck start duration t (rw (g, a) refl) w)),
            )
          ]
          | inr g ↦
              (rw (t, g) (λ m. absurd m), (λ (w, _). absurd (stuck start duration t (rw g refl) w)))
        ]
      ]

-- A run of the upkeep sends a rollover of an epoch exactly when the boundary of the epoch in course is
-- read and, if it is passed, the simulation accepts the advance and the advance goes through; a confirmed
-- row of that number has a claim window that is over at the sweep; and the simulation accepts the
-- rollover. That one rollover is rejected or fails keeps none of the others back.
pub execute_upkeep_rolls :
    (chain : Rollovers) (now sweep : ℕ) (rows : List EpochRow) (id : ℕ)
    → Among (rolls_epoch id) (execute_upkeep chain now sweep rows).1 ↔ (
        Advances chain now chain.boundary
        × ((chain.simulates_roll id ≡ true) × IsExpired sweep rows id))
unfolding execute_upkeep
execute_upkeep_rolls chain now sweep rows id = after-rolls chain now chain.boundary sweep rows id
