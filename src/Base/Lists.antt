-- ===== src/Base/Lists.antt =====
-- Lists measured by native numbers, predicates on them, and membership by recursion.
use Prim.Native.Nat.{ℕ, zero, suc, ◌+◌, ◌≤◌}
use mathlib.Core.Path.{◌≡◌, refl, ap}
use mathlib.Core.Logic.{inl, inr, ◌↔◌, ◌⊎◌}
use mathlib.Core.Bool.{Bool, true, false, ◌&&◌, ◌||◌}
use mathlib.Core.List.{List, [], ◌∷◌, ◌++◌, map}
use mathlib.Core.Option.{Option, none, some}
use native.Mathlib.Omega.{arith}
use chiliztv_com.Base.Tests.{Bool-cases, if◌then◌else◌}

module _ {ℓ} {A : Type ℓ} where
  abbrev pub length : List A → ℕ
  length [] = 0
  length (x ∷ xs) = suc (length xs)

  -- `Array.prototype.some`
  abbrev pub any : (A → Bool) → List A → Bool
  any p [] = false
  any p (x ∷ xs) = p x || any p xs

  -- `Array.prototype.every`
  abbrev pub all : (A → Bool) → List A → Bool
  all p [] = true
  all p (x ∷ xs) = p x && all p xs

  -- `Array.prototype.filter`
  abbrev pub filter : (A → Bool) → List A → List A
  filter p [] = []
  filter p (x ∷ xs) = let rest = filter p xs in if p x then x ∷ rest else rest

  -- `Array.prototype.find`
  abbrev pub find? : (A → Bool) → List A → Option A
  find? p [] = none
  find? p (x ∷ xs) = if p x then some x else find? p xs

  -- `Array.prototype.slice(0, n)`, and the `limit` of a query.
  abbrev pub take : ℕ → List A → List A
  take zero xs = []
  take (suc n) [] = []
  take (suc n) (x ∷ xs) = x ∷ take n xs

  abbrev pub count : (A → Bool) → List A → ℕ
  count p xs = length (filter p xs)

  -- `UPDATE ... WHERE`: the rows that pass the test are changed, the others stay.
  abbrev pub update_where : (A → Bool) → (A → A) → List A → List A
  update_where p f [] = []
  update_where p f (x ∷ xs) = (if p x then f x else x) ∷ update_where p f xs

  -- Filters that agree on every row agree on the list.
  filter_cong : (p q : A → Bool) (xs : List A) → ((x : A) → p x ≡ q x) → filter p xs ≡ filter q xs
  filter_cong p q [] h = refl
  filter_cong p q (x ∷ xs) h = rw (h x, filter_cong p q xs h) refl

  length-append : (xs ys : List A) → length (xs ++ ys) ≡ length xs + length ys
  length-append [] ys = omega arith
  length-append (x ∷ xs) ys = omega (arith, length-append xs ys)

module _ {A : Type 0} where
  -- `a` stands in the list.
  abbrev pub Among : A → List A → Type 0
  Among a [] = ⊥
  Among a (x ∷ xs) = (a ≡ x) ⊎ Among a xs

  pub Among-filter :
      (p : A → Bool) (xs : List A) (a : A) → Among a (filter p xs) ↔ (Among a xs × (p a ≡ true))
  Among-filter p [] a = ((λ m. absurd m), (λ (m, _). absurd m))
  Among-filter p (x ∷ xs) a = elim (Bool-cases (p x)) [
    | inl e ↦ rw e (
      (λ m. elim m [
        | inl at ↦ (inl at, rw at e)
        | inr later ↦ let (l, t) = (Among-filter p xs a).0 later in (inr l, t)
      ]),
      (λ (m, t). elim m [ inl at ↦ inl at | inr later ↦ inr ((Among-filter p xs a).1 (later, t)) ]),
    )
    | inr e ↦ rw e (
      (λ m. let (l, t) = (Among-filter p xs a).0 m in (inr l, t)),
      (λ (m, t). elim m [
        | inl at ↦ absurd (cc (at, t, e))
        | inr later ↦ (Among-filter p xs a).1 (later, t)
      ]),
    )
  ]

  pub Among-append : (xs ys : List A) (a : A) → Among a (xs ++ ys) ↔ (Among a xs ⊎ Among a ys)
  Among-append [] ys a = ((λ m. inr m), (λ m. elim m [ inl n ↦ absurd n | inr n ↦ n ]))
  Among-append (x ∷ xs) ys a = ground (arith, Among-append xs ys a)

  pub take_all : (n : ℕ) (xs : List A) → length xs ≤ n → take n xs ≡ xs
  take_all zero [] h = refl
  take_all zero (x ∷ xs) h = absurd (omega arith)
  take_all (suc n) [] h = refl
  take_all (suc n) (x ∷ xs) h = ap (λ ys. x ∷ ys) (take_all n xs (omega arith))

  pub filter_nothing :
      (p : A → Bool) (xs : List A) → ((a : A) → Among a xs → p a ≡ false) → filter p xs ≡ []
  filter_nothing p [] h = refl
  filter_nothing p (x ∷ xs) h = rw (h x (inl refl)) (filter_nothing p xs (λ a m. h a (inr m)))

  pub Among-update_where :
      (q : A → Bool) (f : A → A) (xs : List A) (b : A)
      → Among b (update_where q f xs)
      → (a : A) × Among a xs × (b ≡ (if q a then f a else a))
  Among-update_where q f [] b m = absurd m
  Among-update_where q f (x ∷ xs) b (inl e) = (x, inl refl, e)
  Among-update_where q f (x ∷ xs) b (inr m) =
      let (a, n, e) = Among-update_where q f xs b m in (a, inr n, e)

  pub Among-take : (n : ℕ) (xs : List A) (a : A) → Among a (take n xs) → Among a xs
  Among-take zero xs a m = absurd m
  Among-take (suc n) [] a m = absurd m
  Among-take (suc n) (x ∷ xs) a (inl e) = inl e
  Among-take (suc n) (x ∷ xs) a (inr m) = inr (Among-take n xs a m)

  -- An update does not show through a test that fails on every row it changes, before and after.
  pub filter-update_where :
      (p q : A → Bool) (f : A → A) (xs : List A)
      → ((a : A) → Among a xs → q a ≡ true → (p a ≡ false) × (p (f a) ≡ false))
      → filter p (update_where q f xs) ≡ filter p xs
  filter-update_where p q f [] h = refl
  filter-update_where p q f (x ∷ xs) h = elim (Bool-cases (q x)) [
    | inl e ↦
        let (before, after) = h x (inl refl) e in
        rw (e, before, after) (filter-update_where p q f xs (λ a m. h a (inr m)))
    | inr e ↦ rw (e, filter-update_where p q f xs (λ a m. h a (inr m))) refl
  ]

module _ {ℓ κ} {A : Type ℓ} (P : A → Type κ) where
  abbrev pub All : List A → Type κ
  All [] = Unit
  All (x ∷ xs) = P x × All xs

  pub All-append : (xs ys : List A) → All xs → All ys → All (xs ++ ys)
  All-append [] ys h k = k
  All-append (x ∷ xs) ys (p, h) k = (p, All-append xs ys h k)

-- Any two of the list, the earlier first, are related.
module _ {ℓ κ} {A : Type ℓ} (R : A → A → Type κ) where
  abbrev pub Pairwise : List A → Type (ℓ ⊔ κ)
  Pairwise [] = Unit
  Pairwise (x ∷ xs) = All (R x) xs × Pairwise xs

  All-update_where :
      (x y : A) (p : A → Bool) (f : A → A) (xs : List A)
      → ((b : A) → R x b → R y (if p b then f b else b))
      → All (R x) xs
      → All (R y) (update_where p f xs)
  All-update_where x y p f [] h k = tt
  All-update_where x y p f (b ∷ xs) h (r, k) = (h b r, All-update_where x y p f xs h k)

  -- An update that keeps the relation of every two rows keeps it on the list.
  pub Pairwise-update_where :
      (p : A → Bool) (f : A → A) (xs : List A)
      → ((a b : A) → R a b → R (if p a then f a else a) (if p b then f b else b))
      → Pairwise xs
      → Pairwise (update_where p f xs)
  Pairwise-update_where p f [] h k = tt
  Pairwise-update_where p f (x ∷ xs) h (r, k) =
      (All-update_where x (if p x then f x else x) p f xs (h x) r, Pairwise-update_where p f xs h k)

filter_none_else {ℓ κ} :
    {A : Type ℓ} (R : A → A → Type κ) (p : A → Bool) (x : A) (ys : List A)
    → ((y : A) → p y ≡ true → ¬ R x y)
    → All (R x) ys
    → filter p ys ≡ []
filter_none_else R p x [] h t = refl
filter_none_else R p x (y ∷ ys) h (q, t) = elim (Bool-cases (p y)) [
  | inl e ↦ absurd (h y e q)
  | inr e ↦ rw e (filter_none_else R p x ys h t)
]

-- A test that no two related rows both pass leaves one row at most.
pub filter_single {ℓ κ} :
    {A : Type ℓ} (R : A → A → Type κ) (p : A → Bool) (xs : List A)
    → ((a b : A) → p a ≡ true → p b ≡ true → ¬ R a b)
    → Pairwise R xs
    → (filter p xs ≡ []) ⊎ ((a : A) × (filter p xs ≡ a ∷ []))
filter_single R p [] h k = inl refl
filter_single R p (x ∷ xs) h (r, k) = elim (Bool-cases (p x)) [
  | inl e ↦ inr (x, rw (e, filter_none_else R p x xs (λ y. h x y e) r) refl)
  | inr e ↦ rw e (filter_single R p xs h k)
]

pub Among-All {κ} :
    {A : Type 0} (P : A → Type κ) (xs : List A) (a : A) → All P xs → Among a xs → P a
Among-All P [] a h m = absurd m
Among-All P (x ∷ xs) a (p, h) (inl e) = rw e p
Among-All P (x ∷ xs) a (p, h) (inr m) = Among-All P xs a h m

pub Among-map :
    {A B : Type 0} (f : A → B) (xs : List A) (b : B)
    → Among b (map f xs)
    → (a : A) × Among a xs × (b ≡ f a)
Among-map f [] b m = absurd m
Among-map f (x ∷ xs) b (inl e) = (x, inl refl, e)
Among-map f (x ∷ xs) b (inr m) = let (a, n, e) = Among-map f xs b m in (a, inr n, e)

pub map-Among :
    {A B : Type 0} (f : A → B) (xs : List A) (a : A) → Among a xs → Among (f a) (map f xs)
map-Among f [] a m = absurd m
map-Among f (x ∷ xs) a (inl e) = inl (ap f e)
map-Among f (x ∷ xs) a (inr m) = inr (map-Among f xs a m)
