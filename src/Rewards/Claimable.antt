-- ===== src/Rewards/Claimable.antt =====
-- What a user is told to be able to claim.
use chiliztv_com.Base.{
  ℕ, Bool, true, false, Option, none, some, List, [], ◌∷◌, ◌++◌, ◌≡◌, ◌≢◌, ◌↔◌, ◌⊎◌, refl, ap, sym,
  ◌∙◌, inl, inr, arith, ◌&&◌, ◌==◌, ◌<◌, not, Among, Among-append, Among-filter, filter, subst,
  Text, to_lower_case, Bool-cases,
}
use chiliztv_com.Indexing.Leaderboard.{EpochRow, EpochStatus, confirmed}
use chiliztv_com.Rewards.{
  ClaimableEntry, Claims, entry_with, entries_of, joined, all_entries, get_claimable, expiry_or,
  is_open_window, is_confirmed, expires_after, find_open_claim_windows, no_later_epoch, order_by,
}
use chiliztv_com.Rewards.Upkeep.{Among-order_by}

abbrev pub entry_at : ℕ → EpochRow → ℕ → ℕ → Bool → ClaimableEntry
entry_at now row id a c = record {
  entry_epoch = id;
  entry_amount = a;
  entry_expiry = expiry_or now row.claim_expiry;
  already_claimed = c;
}

-- The entry of an epoch, from what the contract answers: something is due, or was claimed already.
abbrev pub Shown : ℕ → EpochRow → ℕ → Option ℕ → Option Bool → ClaimableEntry → Type 0
Shown now row id pending claimed entry =
    (a : ℕ) × (c : Bool) × (pending ≡ some a)
    × (claimed ≡ some c)
    × ((a ≢ 0) ⊎ (c ≡ true))
    × (entry ≡ entry_at now row id a c)

-- The claim window of the row is open, and its epoch has the entry.
abbrev pub Listed : Claims → ℕ → Text → EpochRow → ClaimableEntry → Type 0
Listed chain now user row entry =
    (id : ℕ) × (row.epoch_id ≡ some id)
    × Shown now row id (chain.pending_claim id user) (chain.has_claimed id user) entry

some_same : {A : Type 0} {x y : A} → some x ≡ some y → x ≡ y
some_same {A} {x} {y} e = ground arith

due_same :
    (a a' : ℕ) (c c' : Bool) → a ≡ a' → c ≡ c' → (a' ≢ 0) ⊎ (c' ≡ true) → (a ≢ 0) ⊎ (c ≡ true)
due_same a a' c c' p q h = rw (p, q) h

nothing_due : (a : ℕ) (c : Bool) → (a == 0 && not c) ≡ true → (a ≢ 0) ⊎ (c ≡ true) → ⊥
nothing_due a c e h = ground arith

something_due : (a : ℕ) (c : Bool) → (a == 0 && not c) ≡ false → (a ≢ 0) ⊎ (c ≡ true)
something_due a true e = inr refl
something_due a false e = inl (λ z. ground arith)

module _ (chain : Claims) (now : ℕ) (user : Text) where
  entry_with-Shown :
      (row : EpochRow) (id : ℕ) (pending : Option ℕ) (claimed : Option Bool)
      (xs : List ClaimableEntry) (entry : ClaimableEntry)
      → entry_with chain now user row id pending claimed ≡ some xs
      → Among entry xs ↔ Shown now row id pending claimed entry
  entry_with-Shown row id none claimed xs entry e = absurd (ground arith)
  entry_with-Shown row id (some a) none xs entry e = absurd (ground arith)
  entry_with-Shown row id (some a) (some c) xs entry e = elim (Bool-cases (a == 0 && not c)) [
    | inl t ↦
        let none_listed : [] ≡ xs = some_same (rw t at e) in
        rw (← none_listed) (
          (λ m. absurd m),
          (λ (a', c', p, q, d, _).
              absurd (nothing_due a c t (due_same a a' c c' (some_same p) (some_same q) d))),
        )
    | inr t ↦
        let listed : (entry_at now row id a c ∷ []) ≡ xs = some_same (rw t at e) in
        rw (← listed) (
          (λ m. elim m [ inl at ↦ (a, c, refl, refl, something_due a c t, at) | inr n ↦ absurd n ]),
          (λ (a', c', p, q, d, at). inl (
              at
              ∙ sym (
                  ap (entry_at now row id a) (some_same q)
                  ∙ ap (λ x. entry_at now row id x c') (some_same p)))),
        )
  ]

  entries_of-Shown :
      (row : EpochRow) (found : Option ℕ) (xs : List ClaimableEntry) (entry : ClaimableEntry)
      → entries_of chain now user row found ≡ some xs
      → Among entry xs ↔ (
          (id : ℕ) × (found ≡ some id)
          × Shown now row id (chain.pending_claim id user) (chain.has_claimed id user) entry)
  entries_of-Shown row none xs entry e =
      let none_listed : [] ≡ xs = some_same e in
      rw (← none_listed) ((λ m. absurd m), (λ (id, f, _). absurd (ground arith)))
  entries_of-Shown row (some id) xs entry e =
      let here =
        entry_with-Shown row id (chain.pending_claim id user) (chain.has_claimed id user) xs entry
          e in
      (
        (λ m. (id, refl, here.0 m)),
        (λ (k, f, s). here.1 (
            subst
              (λ x. Shown now row x (chain.pending_claim x user) (chain.has_claimed x user) entry)
              (sym (some_same f)) s)),
      )

  joined-parts :
      (p q : Option (List ClaimableEntry)) (zs : List ClaimableEntry)
      → joined chain now user p q ≡ some zs
      → (xs : List ClaimableEntry) × (ys : List ClaimableEntry) × (p ≡ some xs)
        × (q ≡ some ys)
        × ((xs ++ ys) ≡ zs)
  joined-parts (some xs) (some ys) zs e = (xs, ys, refl, refl, some_same e)
  joined-parts (some xs) none zs e = absurd (ground arith)
  joined-parts none q zs e = absurd (ground arith)

  all_entries-Listed :
      (rows : List EpochRow) (entries : List ClaimableEntry) (entry : ClaimableEntry)
      → all_entries chain now user rows ≡ some entries
      → Among entry entries ↔ ((row : EpochRow) × Among row rows × Listed chain now user row entry)
  unfolding all_entries
  all_entries-Listed [] entries entry e =
      let none_listed : [] ≡ entries = some_same e in
      rw (← none_listed) ((λ m. absurd m), (λ (_, m, _). absurd m))
  all_entries-Listed (row ∷ rows) entries entry e =
      let (xs, ys, p, q, parts) =
        joined-parts (entries_of chain now user row row.epoch_id) (all_entries chain now user rows)
          entries e in
      let here = entries_of-Shown row row.epoch_id xs entry p in
      let later = all_entries-Listed rows ys entry q in
      let both_parts = Among-append xs ys entry in
      rw (← parts) (
        (λ m. elim (both_parts.0 m) [
          | inl k ↦ (row, inl refl, here.0 k)
          | inr k ↦ let (r, at, s) = later.0 k in (r, inr at, s)
        ]),
        (λ (r, at, s). both_parts.1 (elim at [
          | inl f ↦ inl (here.1 (subst (λ x. Listed chain now user x entry) f s))
          | inr n ↦ inr (later.1 (r, n, s))
        ])),
      )

open_iff :
    (now : ℕ) (status : EpochStatus) (expiry : Option ℕ)
    → ((is_confirmed status && expires_after now expiry) ≡ true)
      ↔ ((status ≡ confirmed) × ((t : ℕ) × (expiry ≡ some t) × (now < t)))
open_iff now status none = ((λ e. absurd (ground arith)), (λ (_, (_, e, _)). absurd (ground arith)))
open_iff now status (some t) =
    ((λ e. (ground arith, (t, refl, ground arith))), (λ (s, (t', e, l)). ground arith))

-- When every read goes through, a user is shown an epoch exactly when a confirmed row of it has a claim
-- window that is still open, and the contract has something for the user or a claim made already; the
-- entry holds what the contract answers.
pub get_claimable_iff :
    (chain : Claims) (now : ℕ) (user : Text) (rows : List EpochRow) (entries : List ClaimableEntry)
    (entry : ClaimableEntry)
    → get_claimable chain now user rows ≡ some entries
    → Among entry entries ↔ (
        (row : EpochRow) × Among row rows
        × (row.status ≡ confirmed)
        × ((expiry : ℕ) × (row.claim_expiry ≡ some expiry) × (now < expiry))
        × Listed chain now (to_lower_case user) row entry)
unfolding get_claimable find_open_claim_windows
get_claimable_iff chain now user rows entries entry e =
    let before = λ (a b : EpochRow). no_later_epoch b.epoch_id a.epoch_id in
    let all =
      all_entries-Listed chain now (to_lower_case user)
        (order_by before (filter (is_open_window now) rows)) entries entry e in
    let sorted = Among-order_by before (filter (is_open_window now) rows) in
    (
      (λ m.
          let (row, at, s) = all.0 m in
          let (here, t) = (Among-filter (is_open_window now) rows row).0 ((sorted row).0 at) in
          let (c, w) = (open_iff now row.status row.claim_expiry).0 t in (row, here, c, w, s)),
      (λ (row, at, c, w, s). all.1 (
        row,
        (sorted row).1 (
            (Among-filter (is_open_window now) rows row).1
              (at, (open_iff now row.status row.claim_expiry).1 (c, w))),
        s,
      )),
    )
