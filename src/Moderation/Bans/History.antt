-- ===== src/Moderation/Bans/History.antt =====
-- How the rows of a wallet count towards its next ban.
use chiliztv_com.Base.{
  ℕ, suc, Bool, true, false, some, List, [], ◌∷◌, ◌≡◌, refl, ap, ◌∙◌, inl, inr, arith, String,
  eq_iff, Text, text_eq, text_eq_iff, to_lower_case, All, count, filter, map, update_where, ok,
  Bool-cases, ◌&&◌, has,
}
use chiliztv_com.Moderation.Bans.{
  Ban, is_escalating, is_active, first, liftable, lift, expire, save, mark_expired, lift_by_admin,
  count_escalating,
}
use chiliztv_com.Moderation.Bans.OneActive.{save-IsTable, Compatible, IsTable, save_iff}

-- A row of the wallet that counts.
abbrev counts : Text → Ban → Bool
counts wallet row = text_eq row.wallet_address wallet && is_escalating row.status

count-kept :
    (p q : Ban → Bool) (f : Ban → Ban) (rows : List Ban)
    → ((b : Ban) → q b ≡ true → p (f b) ≡ p b)
    → count p (update_where q f rows) ≡ count p rows
count-kept p q f [] h = refl
count-kept p q f (row ∷ rows) h = elim (Bool-cases (q row)) [
  | inl e ↦ elim (Bool-cases (p row)) [
    | inl t ↦ rw (e, h row e, t) (ap suc (count-kept p q f rows h))
    | inr t ↦ rw (e, h row e, t) (count-kept p q f rows h)
  ]
  | inr e ↦ elim (Bool-cases (p row)) [
    | inl t ↦ rw (e, t) (ap suc (count-kept p q f rows h))
    | inr t ↦ rw (e, t) (count-kept p q f rows h)
  ]
]

mark_expired-counts :
    (ids : List String) (now : ℕ) (wallet : Text) (rows : List Ban)
    → count_escalating wallet (mark_expired ids now rows) ≡ count_escalating wallet rows
unfolding count_escalating mark_expired
mark_expired-counts ids now wallet rows =
    count-kept (counts (to_lower_case wallet)) (λ row. has ids row.id && is_active row.status)
      (expire now) rows (λ b h. ground arith)

no_other :
    (id : String) (f : Ban → Ban) (row : Ban) (rows : List Ban)
    → All (Compatible row) rows
    → row.id ≡ id
    → update_where (liftable id) f rows ≡ rows
no_other id f row [] k e = refl
no_other id f row (b ∷ rows) ((ids, _), k) e = elim (Bool-cases (liftable id b)) [
  | inl l ↦ absurd (ids (ground (arith, eq_iff b.id id)))
  | inr l ↦ rw (l, no_other id f row rows k e) refl
]

-- A row that is lifted counts before, and not after.
row-counts :
    (id : String) (actor : Text) (note : String) (at : ℕ) (wallet : Text) (row : Ban)
    → liftable id row ≡ true
    → row.wallet_address ≡ wallet
    → (counts wallet row ≡ true) × (counts wallet (lift actor note at row) ≡ false)
row-counts id actor note at wallet row l w =
    (ground (arith, text_eq_iff row.wallet_address wallet), ground arith)

some_inj : (a b : Ban) → some a ≡ some b → a ≡ b
some_inj a b e = cc e

lift-counts :
    (id : String) (actor : Text) (note : String) (at : ℕ) (wallet : Text) (rows : List Ban)
    (b : Ban)
    → IsTable rows
    → first (map (lift actor note at) (filter (liftable id) rows)) ≡ some b
    → b.wallet_address ≡ wallet
    → suc (count (counts wallet) (update_where (liftable id) (lift actor note at) rows))
      ≡ count (counts wallet) rows
lift-counts id actor note at wallet [] b t e w = cc
lift-counts id actor note at wallet (row ∷ rows) b (k, t) e w =
    elim (Bool-cases (liftable id row)) [
      | inl l ↦
          let lifted = some_inj (lift actor note at row) b (rw l at e) in
          let own = ap (λ (x : Ban). x.wallet_address) lifted ∙ w in
          let (counted, dropped) = row-counts id actor note at wallet row l own in
          rw
            (
              l,
              no_other id (lift actor note at) row rows k (ground (arith, eq_iff row.id id)),
              counted,
              dropped,
            )
            refl
      | inr l ↦
          let later = lift-counts id actor note at wallet rows b t (rw l at e) w in
          elim (Bool-cases (counts wallet row)) [
            | inl c ↦ rw (l, c) (ap suc later)
            | inr c ↦ rw (l, c) later
          ]
    ]

saved-counts :
    (ban : Ban) (rows after : List Ban) (wallet : Text)
    → save ban rows ≡ ok after
    → is_active ban.status ≡ true
    → ban.wallet_address ≡ to_lower_case wallet
    → count_escalating wallet after ≡ suc (count_escalating wallet rows)
unfolding count_escalating
saved-counts ban rows after wallet e live own =
    let (free, at) = (save_iff ban rows after).0 e in
    let counted : counts (to_lower_case wallet) ban ≡ true =
      ground (arith, text_eq_iff ban.wallet_address (to_lower_case wallet)) in
    rw (at, counted) refl

-- The rows that escalate a wallet's next ban. Saving a ban of the wallet adds one, flipping expired
-- rows keeps the number, and once an administrator lifts the wallet's ban the number is again what it
-- was before that ban.
pub count_escalating_history :
    (rows : List Ban) (wallet : Text) (ban : Ban) (after : List Ban) (ids : List String) (now : ℕ)
    (id : String) (actor : Text) (note : String) (at : ℕ) (lifted : Ban)
    → IsTable rows
    → save ban rows ≡ ok after
    → is_active ban.status ≡ true
    → ban.wallet_address ≡ to_lower_case wallet
    → (lift_by_admin id actor note at after).0 ≡ some lifted
    → lifted.wallet_address ≡ to_lower_case wallet
    → (count_escalating wallet after ≡ suc (count_escalating wallet rows))
      × (count_escalating wallet (mark_expired ids now after) ≡ count_escalating wallet after)
      × (count_escalating wallet (lift_by_admin id actor note at after).1
          ≡ count_escalating wallet rows)
unfolding lift_by_admin count_escalating
count_escalating_history rows wallet ban after ids now id actor note at lifted t e live own l mine =
    let grown = saved-counts ban rows after wallet e live own in
    let shrunk =
      lift-counts id actor note at (to_lower_case wallet) after lifted
        (save-IsTable ban rows after e t) l mine in
    (grown, mark_expired-counts ids now wallet after, omega (arith, grown, shrunk))
