-- ===== src/Base/Updates.antt =====
-- Updates of a table, and what holds of all its rows before and after.
use mathlib.Core.Path.{◌≡◌, refl, sym, ap}
use mathlib.Core.Option.{none, some}
use mathlib.Core.Bool.{Bool, true, false}
use mathlib.Core.Logic.{inl, inr}
use mathlib.Core.List.{List, [], ◌∷◌, ◌++◌}
use native.Mathlib.Omega.{arith}
use chiliztv_com.Base.Tests.{Bool-cases, if◌then◌else◌}
use chiliztv_com.Base.Lists.{find?, Among, All, any, update_where}

module _ {κ} {A : Type 0} (P : A → Type κ) where
  pub All-of_Among : (xs : List A) → ((a : A) → Among a xs → P a) → All P xs
  All-of_Among [] h = tt
  All-of_Among (x ∷ xs) h = (h x (inl refl), All-of_Among xs (λ a m. h a (inr m)))

  -- What each row of the table comes to.
  pub All-updated :
      (q : A → Bool) (f : A → A) (xs : List A)
      → ((a : A) → Among a xs → P (if q a then f a else a))
      → All P (update_where q f xs)
  All-updated q f [] h = tt
  All-updated q f (x ∷ xs) h = (h x (inl refl), All-updated q f xs (λ a m. h a (inr m)))

module _ {κ μ} {A : Type 0} (P : A → Type κ) (Q : A → Type μ) where
  -- What an update makes of a property of each row, it makes of it for all.
  pub All-carried :
      (q : A → Bool) (f : A → A) (xs : List A)
      → ((a : A) → P a → Q (if q a then f a else a))
      → All P xs
      → All Q (update_where q f xs)
  All-carried q f [] h k = tt
  All-carried q f (x ∷ xs) h (p, k) = (h x p, All-carried q f xs h k)

module _ {A : Type 0} where
  pub update_nothing :
      (q : A → Bool) (f : A → A) (xs : List A)
      → All (λ a. q a ≡ false) xs
      → update_where q f xs ≡ xs
  update_nothing q f [] h = refl
  update_nothing q f (x ∷ xs) (e, h) = rw e (ap (λ ys. x ∷ ys) (update_nothing q f xs h))

  pub any-Among : (q : A → Bool) (xs : List A) (a : A) → Among a xs → q a ≡ true → any q xs ≡ true
  any-Among q [] a m e = absurd m
  any-Among q (x ∷ xs) a (inl at) e = rw (← at, e) refl
  any-Among q (x ∷ xs) a (inr m) e = ground (arith, any-Among q xs a m e)

  -- An update that keeps a test of every row keeps whether some row passes it.
  pub any-update_where :
      (p q : A → Bool) (f : A → A) (xs : List A)
      → ((a : A) → p (if q a then f a else a) ≡ p a)
      → any p (update_where q f xs) ≡ any p xs
  any-update_where p q f [] h = refl
  any-update_where p q f (x ∷ xs) h = rw (h x, any-update_where p q f xs h) refl

pub All-imp {κ μ} :
    {A : Type 0} (P : A → Type κ) (Q : A → Type μ) (xs : List A)
    → ((a : A) → P a → Q a)
    → All P xs
    → All Q xs
All-imp P Q [] h k = tt
All-imp P Q (x ∷ xs) h (p, k) = (h x p, All-imp P Q xs h k)

module _ {A : Type 0} (p : A → Bool) where
  -- What a search finds is in the list and passes the test.
  pub find?-Among : (xs : List A) (a : A) → find? p xs ≡ some a → Among a xs × (p a ≡ true)
  find?-Among [] a e = absurd (ground arith)
  find?-Among (x ∷ xs) a e = elim (Bool-cases (p x)) [
    | inl t ↦ let same : x ≡ a = ground arith in (inl (sym same), rw (← same) t)
    | inr t ↦ let (m, q) = find?-Among xs a (rw t at e) in (inr m, q)
  ]

  pub find?-nothing : (xs : List A) → find? p xs ≡ none → any p xs ≡ false
  find?-nothing [] e = refl
  find?-nothing (x ∷ xs) e = elim (Bool-cases (p x)) [
    | inl t ↦ absurd (ground arith)
    | inr t ↦ rw t (find?-nothing xs (rw t at e))
  ]

  pub any-append : (xs ys : List A) → any p xs ≡ true → any p (xs ++ ys) ≡ true
  any-append [] ys e = absurd (ground arith)
  any-append (x ∷ xs) ys e = elim (Bool-cases (p x)) [
    | inl t ↦ rw t refl
    | inr t ↦ rw t (any-append xs ys (rw t at e))
  ]
