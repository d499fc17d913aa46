-- ===== src/Moderation/Bans/OneActive.antt =====
-- The invariant of the table of bans: ids are unique, and a wallet has one active row at most.
use chiliztv_com.Base.{
  ◌⊎◌, inr, inl, Bool-cases, if◌then◌else◌, ℕ, Pairwise-update_where, Text, String, update_where,
  Bool, false, List, [], ◌∷◌, ◌≡◌, ◌≢◌, refl, ◌↔◌, arith, eq_iff, text_eq_iff, any, All, Pairwise,
  ok,
}
use chiliztv_com.Moderation.Bans.{
  lift, liftable, expire, lift_by_admin, mark_expired, Ban, is_active, clashes, save,
}

abbrev pub Compatible : Ban → Ban → Type 0
Compatible a b =
    (a.id ≢ b.id)
    × ((is_active a.status ≡ false)
        ⊎ ((is_active b.status ≡ false) ⊎ (a.wallet_address ≢ b.wallet_address)))

abbrev pub IsTable : List Ban → Type 0
IsTable rows = Pairwise Compatible rows

clashes_iff : (a b : Ban) → (clashes a b ≡ false) ↔ Compatible a b
clashes_iff a b = ground (arith, eq_iff a.id b.id, text_eq_iff a.wallet_address b.wallet_address)

clashes-All :
    (ban : Ban) (rows : List Ban) → (any (clashes ban) rows ≡ false) ↔ All (Compatible ban) rows
clashes-All ban [] = ((λ _. tt), (λ _. refl))
clashes-All ban (row ∷ rows) = ground (arith, clashes_iff ban row, clashes-All ban rows)

-- A ban is saved exactly when its id is new and no active row stands on its wallet if it is active
-- itself, whatever the expiry of that row.
pub save_iff :
    (ban : Ban) (rows after : List Ban)
    → (save ban rows ≡ ok after) ↔ (All (Compatible ban) rows × (after ≡ ban ∷ rows))
unfolding save
save_iff ban rows after = ground (arith, clashes-All ban rows)

-- A row that keeps its id and its wallet, and does not become active.
abbrev Retires : (Ban → Ban) → Type 0
Retires f =
    (b : Ban)
    → ((f b).id ≡ b.id)
      × ((f b).wallet_address ≡ b.wallet_address)
      × (is_active b.status ≡ false → is_active (f b).status ≡ false)

retire-Compatible :
    (f : Ban → Ban) → Retires f → (a b : Ban) → Compatible a b → Compatible (f a) (f b)
retire-Compatible f r a b (ids, wallets) =
    let (ia, wa, sa) = r a in
    let (ib, wb, sb) = r b in
    (
      rw (ia, ib) ids,
      elim wallets [
        | inl x ↦ inl (sa x)
        | inr (inl y) ↦ inr (inl (sb y))
        | inr (inr differ) ↦ inr (inr (rw (wa, wb) differ))
      ],
    )

where-Retires : (p : Ban → Bool) (f : Ban → Ban) → Retires f → Retires (λ b. if p b then f b else b)
where-Retires p f r b = elim (Bool-cases (p b)) [
  | inl e ↦ rw e (r b)
  | inr e ↦ rw e (refl, refl, λ x. x)
]

update-IsTable :
    (p : Ban → Bool) (f : Ban → Ban) (rows : List Ban)
    → Retires f
    → IsTable rows
    → IsTable (update_where p f rows)
update-IsTable p f rows r t =
    Pairwise-update_where Compatible p f rows
      (retire-Compatible (λ b. if p b then f b else b) (where-Retires p f r)) t

pub save-IsTable :
    (ban : Ban) (rows after : List Ban) → save ban rows ≡ ok after → IsTable rows → IsTable after
save-IsTable ban rows after e t = let (free, at) = (save_iff ban rows after).0 e in rw at (free, t)

pub mark_expired-IsTable :
    (ids : List String) (now : ℕ) (rows : List Ban)
    → IsTable rows
    → IsTable (mark_expired ids now rows)
unfolding mark_expired
mark_expired-IsTable ids now rows t =
    update-IsTable _ (expire now) rows (λ b. (refl, refl, λ x. refl)) t

pub lift_by_admin-IsTable :
    (id : String) (wallet : Text) (note : String) (at : ℕ) (rows : List Ban)
    → IsTable rows
    → IsTable (lift_by_admin id wallet note at rows).1
unfolding lift_by_admin
lift_by_admin-IsTable id wallet note at rows t =
    update-IsTable (liftable id) (lift wallet note at) rows (λ b. (refl, refl, λ x. refl)) t
