-- ===== src/Markets/Sorting.antt =====
-- packages/domain/src/markets/sortMarketsByManifest.ts. `Array.prototype.sort` is stable; it is an
-- insertion from the end. An id is read as the number that `Number` makes of it.
pub mod Stable
use chiliztv_com.Base.{
  ℕ, ◌+◌, Bool, true, false, Option, none, some, List, [], ◌∷◌, ◌≡◌, ◌==◌, leb, if◌then◌else◌,
}
use chiliztv_com.Markets.Manifest.{DefaultMarketSpec, default_football_markets}

-- The index in the manifest, `orderById.get`.
unfoldable pub index_from : ℕ → List DefaultMarketSpec → ℕ → Option ℕ
index_from n [] id = none
index_from n (s ∷ specs) id =
    let later = index_from (n + 1) specs id in if s.market_id == id then some n else later

unfoldable pub order_by_id : ℕ → Option ℕ
order_by_id id = index_from 0 default_football_markets id

-- The comparison is not positive; a missing index is infinite, and two of them are equal.
unfoldable pub no_later : Option ℕ → Option ℕ → Bool
no_later _ none = true
no_later none (some _) = false
no_later (some a) (some b) = leb a b

unfoldable pub same_rank : Option ℕ → Option ℕ → Bool
same_rank none none = true
same_rank (some a) (some b) = a == b
same_rank _ _ = false

module _ {A : Type 0} (market_id : A → ℕ) where
  unfoldable pub rank : A → Option ℕ
  rank m = order_by_id (market_id m)

  unfoldable pub insert : A → List A → List A
  insert m [] = m ∷ []
  insert m (x ∷ xs) =
      let rest = insert m xs in if no_later (rank m) (rank x) then m ∷ x ∷ xs else x ∷ rest

  unfoldable pub sort_markets_by_manifest : List A → List A
  sort_markets_by_manifest [] = []
  sort_markets_by_manifest (m ∷ ms) = insert m (sort_markets_by_manifest ms)

  -- The first is displayed no later than the second.
  abbrev pub Ordered : A → A → Type 0
  Ordered a b = no_later (rank a) (rank b) ≡ true
