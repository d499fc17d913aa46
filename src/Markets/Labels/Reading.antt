-- ===== src/Markets/Labels/Reading.antt =====
-- What can be read back from a label, and what cannot.
use chiliztv_com.Base.{
  ◌==◌, ◌&&◌, ◌||◌, not, str_eq, Bool, inr, inl, ◌∙◌, sym, ap, ◌⊎◌, text_eq, ◌≤◌, ℕ, ◌/◌, ◌%◌, [],
  ◌∷◌, ◌++◌, ◌≡◌, refl, arith, Text, codes, All,
}
use chiliztv_com.Base.Decimal.{decimal, decimal-IsDigit, decimal-injective, IsDigit}
use chiliztv_com.Markets.Manifest.{DefaultMarketSpec}
use chiliztv_com.Markets.Labels.{
  BetLabel, line_tenths, label, market_of, label_in, goals_label, BetLabelArgs,
  selection_to_bet_label, line_label,
}

head_eq : (a b : ℕ) (s t : Text) → a ∷ s ≡ b ∷ t → a ≡ b
head_eq a b s t e = cc e

tail_eq : (a b : ℕ) (s t : Text) → a ∷ s ≡ b ∷ t → s ≡ t
tail_eq a b s t e = cc e

-- Two runs of digits that each end at a point: both parts agree.
point_split :
    (s t u v : Text)
    → All IsDigit s
    → All IsDigit t
    → s ++ b'.' ∷ u ≡ t ++ b'.' ∷ v
    → (s ≡ t) × (u ≡ v)
point_split [] [] u v h k e = (refl, tail_eq b'.' b'.' u v e)
point_split [] (b ∷ t) u v h (k, _) e =
    absurd (omega (arith, head_eq b'.' b u (t ++ b'.' ∷ v) e, k))
point_split (a ∷ s) [] u v (h, _) k e =
    absurd (omega (arith, head_eq a b'.' (s ++ b'.' ∷ u) v e, h))
point_split (a ∷ s) (b ∷ t) u v (h, hs) (k, ks) e =
    let (same, rest) = point_split s t u v hs ks (tail_eq a b (s ++ b'.' ∷ u) (t ++ b'.' ∷ v) e) in
    (cc (same, head_eq a b (s ++ b'.' ∷ u) (t ++ b'.' ∷ v) e), rest)

-- A printed line reads back as the tenths that it was printed from.
line_label-injective : (m n : ℕ) → line_label m ≡ line_label n → m ≡ n
unfolding line_label
line_label-injective m n e =
    let (whole, tenth) =
      point_split (decimal (m / 10)) (decimal (n / 10)) (decimal (m % 10)) (decimal (n % 10))
        (decimal-IsDigit (m / 10)) (decimal-IsDigit (n / 10)) e in
    omega
      (arith, decimal-injective (m / 10) (n / 10) whole, decimal-injective (m % 10) (n % 10) tenth)

under_eq : (s t : Text) → codes "Under " ++ s ≡ codes "Under " ++ t → s ≡ t
under_eq s t e = cc e

goals_of :
    (args : BetLabelArgs)
    → market_of args.market_type ≡ codes "GOALS_TOTAL"
    → selection_to_bet_label args ≡ goals_label args
unfolding selection_to_bet_label label_in text_eq
goals_of args h = ap (λ m. label_in m args) h

under_display :
    (args : BetLabelArgs)
    → args.selection ≡ 0
    → (goals_label args).display ≡ codes "Under " ++ line_label (line_tenths args.line)
unfolding goals_label label
under_display args h = rw h refl

over_display :
    (args : BetLabelArgs)
    → args.selection ≡ 1
    → (goals_label args).display ≡ codes "Over " ++ line_label (line_tenths args.line)
unfolding goals_label label
over_display args h = rw h refl

over_eq : (s t : Text) → codes "Over " ++ s ≡ codes "Over " ++ t → s ≡ t
over_eq s t e = cc e

-- On the goals markets two bets, on under or over, read alike only if they agree on the side and on
-- the line, where a missing line counts as 2.5.
pub goals_display-injective :
    (a b : BetLabelArgs)
    → market_of a.market_type ≡ codes "GOALS_TOTAL"
    → market_of b.market_type ≡ codes "GOALS_TOTAL"
    → a.selection ≤ 1
    → b.selection ≤ 1
    → (selection_to_bet_label a).display ≡ (selection_to_bet_label b).display
    → (a.selection ≡ b.selection) × (line_tenths a.line ≡ line_tenths b.line)
goals_display-injective a b ga gb sa sb e =
    let shown =
      ap (λ (l : BetLabel). l.display) (sym (goals_of a ga))
      ∙ e
      ∙ ap (λ (l : BetLabel). l.display) (goals_of b gb) in
    elim (sides a.selection b.selection sa sb) [
      | inl (x, y) ↦
          let lines = under_eq _ _ (sym (under_display a x) ∙ shown ∙ under_display b y) in
          (x ∙ sym y, line_label-injective (line_tenths a.line) (line_tenths b.line) lines)
      | inr (inl (x, y)) ↦
          let lines = over_eq _ _ (sym (over_display a x) ∙ shown ∙ over_display b y) in
          (x ∙ sym y, line_label-injective (line_tenths a.line) (line_tenths b.line) lines)
      | inr (inr (inl (x, y))) ↦ absurd (
          omega (arith, head_eq b'U' b'O' _ _ (sym (under_display a x) ∙ shown ∙ over_display b y)))
      | inr (inr (inr (x, y))) ↦ absurd (
          omega (arith, head_eq b'O' b'U' _ _ (sym (over_display a x) ∙ shown ∙ under_display b y)))
    ]
  where
    sides :
        (m n : ℕ)
        → m ≤ 1
        → n ≤ 1
        → ((m ≡ 0) × (n ≡ 0)) ⊎ (((m ≡ 1) × (n ≡ 1)) ⊎ (((m ≡ 0) × (n ≡ 1)) ⊎ ((m ≡ 1) × (n ≡ 0))))
    sides m n h k = ground arith

-- A market of the final winner is seeded for a knockout alone, with two outcomes.
abbrev is_final : Bool → DefaultMarketSpec → Bool
is_final is_knockout s =
    not (str_eq s.market_type_name "FULL_TIME_WINNER") || (is_knockout && s.max_outcome == 2)
