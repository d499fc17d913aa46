-- ===== src/Markets/Sorting/Stable.antt =====
-- The sort of the markets: ordered, and stable.
use chiliztv_com.Base.{
  ℕ, true, false, Option, List, [], ◌∷◌, ◌≡◌, refl, ap, ◌∙◌, inl, inr, arith, filter, All, Pairwise,
  Bool-cases,
}
use chiliztv_com.Markets.Sorting.{
  no_later, same_rank, rank, insert, sort_markets_by_manifest, Ordered,
}

no_later_trans :
    (a b c : Option ℕ) → no_later a b ≡ true → no_later b c ≡ true → no_later a c ≡ true
unfolding no_later
no_later_trans a b c h k = ground arith

no_later_total : (a b : Option ℕ) → no_later a b ≡ false → no_later b a ≡ true
unfolding no_later
no_later_total a b h = ground arith

no_later_same :
    (r a b : Option ℕ) → same_rank a r ≡ true → same_rank b r ≡ true → no_later a b ≡ true
unfolding no_later same_rank
no_later_same r a b h k = ground arith

module _ {A : Type 0} (market_id : A → ℕ) where
  abbrev Before : A → A → Type 0
  Before = Ordered market_id

  All-later : (m x : A) (xs : List A) → Before m x → All (Before x) xs → All (Before m) xs
  All-later m x [] h t = tt
  All-later m x (y ∷ ys) h (b, t) = (
    no_later_trans (rank market_id m) (rank market_id x) (rank market_id y) h b,
    All-later m x ys h t,
  )

  insert-All :
      (z m : A) (xs : List A)
      → Before z m
      → All (Before z) xs
      → All (Before z) (insert market_id m xs)
  unfolding insert
  insert-All z m [] h t = (h, tt)
  insert-All z m (x ∷ xs) h (b, t) =
      elim (Bool-cases (no_later (rank market_id m) (rank market_id x))) [
        | inl e ↦ rw e (h, (b, t))
        | inr e ↦ rw e (b, insert-All z m xs h t)
      ]

  insert-Pairwise :
      (m : A) (xs : List A) → Pairwise Before xs → Pairwise Before (insert market_id m xs)
  unfolding insert
  insert-Pairwise m [] t = (tt, tt)
  insert-Pairwise m (x ∷ xs) (b, t) =
      elim (Bool-cases (no_later (rank market_id m) (rank market_id x))) [
        | inl e ↦ rw e ((e, All-later m x xs e b), (b, t))
        | inr e ↦ rw e (
          insert-All x m xs (no_later_total (rank market_id m) (rank market_id x) e) b,
          insert-Pairwise m xs t,
        )
      ]

  sort-Pairwise : (ms : List A) → Pairwise Before (sort_markets_by_manifest market_id ms)
  unfolding sort_markets_by_manifest
  sort-Pairwise [] = tt
  sort-Pairwise (m ∷ ms) =
      insert-Pairwise m (sort_markets_by_manifest market_id ms) (sort-Pairwise ms)

  -- The markets of one rank.
  abbrev pub of_rank : Option ℕ → List A → List A
  of_rank r ms = filter (λ m. same_rank (rank market_id m) r) ms

  insert-of_rank :
      (r : Option ℕ) (m : A) (xs : List A) → of_rank r (insert market_id m xs) ≡ of_rank r (m ∷ xs)
  unfolding insert
  insert-of_rank r m [] = refl
  insert-of_rank r m (x ∷ xs) = elim (Bool-cases (no_later (rank market_id m) (rank market_id x))) [
    | inl e ↦ rw e refl
    | inr e ↦ rw e (passes r m x xs e (insert-of_rank r m xs))
  ]
    where
      passes :
          (r : Option ℕ) (m x : A) (xs : List A)
          → no_later (rank market_id m) (rank market_id x) ≡ false
          → of_rank r (insert market_id m xs) ≡ of_rank r (m ∷ xs)
          → of_rank r (x ∷ insert market_id m xs) ≡ of_rank r (m ∷ x ∷ xs)
      passes r m x xs e ih = elim (Bool-cases (same_rank (rank market_id m) r)) [
        | inl a ↦ elim (Bool-cases (same_rank (rank market_id x) r)) [
          | inl b ↦ absurd (cc (e, no_later_same r (rank market_id m) (rank market_id x) a b))
          | inr b ↦ rw b ih
        ]
        | inr a ↦ elim (Bool-cases (same_rank (rank market_id x) r)) [
          | inl b ↦ rw (a, b) (ap (λ l. x ∷ l) (ih ∙ rw a refl))
          | inr b ↦ rw b ih
        ]
      ]

  -- The markets come out in the order of the manifest, those that it does not know last, and those of
  -- one rank are the same ones in the same order as before.
  pub sort-Stable :
      (ms : List A) (r : Option ℕ)
      → Pairwise Before (sort_markets_by_manifest market_id ms)
        × (of_rank r (sort_markets_by_manifest market_id ms) ≡ of_rank r ms)
  unfolding sort_markets_by_manifest
  sort-Stable ms r = (sort-Pairwise ms, same ms)
    where
      same : (ms : List A) → of_rank r (sort_markets_by_manifest market_id ms) ≡ of_rank r ms
      same [] = refl
      same (m ∷ ms) =
          insert-of_rank r m (sort_markets_by_manifest market_id ms)
          ∙ elim (Bool-cases (same_rank (rank market_id m) r)) [
            | inl a ↦ rw a (ap (λ l. m ∷ l) (same ms))
            | inr a ↦ rw a (same ms)
          ]
