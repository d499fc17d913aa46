-- ===== src/Moderation/Rows.antt =====
-- The result of a query that expects one row at most, `maybeSingle` of the database client.
use chiliztv_com.Base.{
  List, [], ◌∷◌, Option, none, some, Result, ok, throws, ◌≡◌, refl, ◌⊎◌, ◌↔◌, inl, inr, Among,
}

pub data QueryError : Type 0 where
  several_rows : QueryError

-- `maybeSingle` refuses a result of several rows.
abbrev pub maybe_single {ℓ} : {A : Type ℓ} → List A → Result QueryError (Option A)
maybe_single [] = ok none
maybe_single (x ∷ []) = ok (some x)
maybe_single (x ∷ y ∷ _) = throws several_rows

pub single_iff :
    {A : Type 0} (xs : List A) (b : A)
    → (xs ≡ []) ⊎ ((c : A) × (xs ≡ c ∷ []))
    → (maybe_single xs ≡ ok (some b)) ↔ Among b xs
single_iff xs b (inl e) = rw e ((λ h. cc), (λ m. absurd m))
single_iff xs b (inr (c, e)) =
    rw e ((λ h. inl cc), (λ m. elim m [ inl at ↦ rw at refl | inr later ↦ absurd later ]))

pub single_ok :
    {A : Type 0} (xs : List A)
    → (xs ≡ []) ⊎ ((c : A) × (xs ≡ c ∷ []))
    → (o : Option A) × (maybe_single xs ≡ ok o)
single_ok xs (inl e) = (none, rw e refl)
single_ok xs (inr (c, e)) = (some c, rw e refl)
