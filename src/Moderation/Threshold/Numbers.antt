-- ===== src/Moderation/Threshold/Numbers.antt =====
-- The numbers that the quorum policy is given, described apart from the way they are computed.
use chiliztv_com.Base.{
  ℕ, ◌≤◌, ltb, Bool, not, List, [], ◌∷◌, ◌≡◌, ◌↔◌, ◌⊎◌, inl, inr, refl, sym, arith, map, filter,
  length, Text, text_eq, text_eq_iff, Among, Among-filter, Among-map, map-Among, Bool-cases, subst,
}
use chiliztv_com.Moderation.Bans.{distinct}
use chiliztv_com.Moderation.Reports.{Report}
use chiliztv_com.Moderation.Threshold.{reporters, max_severity}

-- A list that has each of the texts with the property, and none twice.
abbrev NoRepeats : List Text → Type 0
NoRepeats [] = Unit {0}
NoRepeats (x ∷ xs) = (Among x xs → ⊥) × NoRepeats xs

abbrev pub IsListing : List Text → (Text → Type 0) → Type 0
IsListing xs P = NoRepeats xs × ((w : Text) → Among w xs ↔ P w)

filter-NoRepeats : (p : Text → Bool) (xs : List Text) → NoRepeats xs → NoRepeats (filter p xs)
filter-NoRepeats p [] h = tt
filter-NoRepeats p (x ∷ xs) (n, h) = elim (Bool-cases (p x)) [
  | inl e ↦ rw e ((λ m. n ((Among-filter p xs x).0 m).0), filter-NoRepeats p xs h)
  | inr e ↦ rw e (filter-NoRepeats p xs h)
]

pub distinct-NoRepeats : (xs : List Text) → NoRepeats (distinct xs)
distinct-NoRepeats [] = tt
distinct-NoRepeats (x ∷ xs) = (
  (λ m.
      let (_, t) = (Among-filter (λ y. not (text_eq x y)) (distinct xs) x).0 m in
      ground (arith, (text_eq_iff x x).1 refl)),
  filter-NoRepeats (λ y. not (text_eq x y)) (distinct xs) (distinct-NoRepeats xs),
)

pub distinct-Among : (xs : List Text) (w : Text) → Among w (distinct xs) ↔ Among w xs
distinct-Among [] w = ((λ m. m), (λ m. m))
distinct-Among (x ∷ xs) w =
    let later = distinct-Among xs w in
    let kept = Among-filter (λ y. not (text_eq x y)) (distinct xs) w in
    (
      (λ m. elim m [ inl e ↦ inl e | inr n ↦ inr (later.0 (kept.0 n).0) ]),
      (λ m. elim m [
        | inl e ↦ inl e
        | inr n ↦ elim (Bool-cases (text_eq x w)) [
          | inl t ↦ inl (sym ((text_eq_iff x w).0 t))
          | inr t ↦ inr (kept.1 (later.1 n, rw t refl))
        ]
      ]),
    )

-- The number of the wallets that have filed one of the reports.
abbrev pub IsReporterCount : List Report → ℕ → Type 0
IsReporterCount open_reports n =
    (names : List Text) × IsListing names
      (λ w. (r : Report) × Among r open_reports × (r.reporter_wallet ≡ w))
    × (n ≡ length names)

pub reporters-IsReporterCount : (rs : List Report) → IsReporterCount rs (length (reporters rs))
reporters-IsReporterCount rs =
    let wallets = map (λ (r : Report). r.reporter_wallet) rs in
    (
      distinct wallets,
      (
        distinct-NoRepeats wallets,
        (λ w. (
          (λ m.
              let (r, n, e) =
                Among-map (λ (r : Report). r.reporter_wallet) rs w
                  ((distinct-Among wallets w).0 m) in
              (r, n, sym e)),
          (λ (r, n, e). (distinct-Among wallets w).1 (
              subst (λ x. Among x wallets) e
                (map-Among (λ (r : Report). r.reporter_wallet) rs r n))),
        )),
      ),
      refl,
    )

-- The worst severity: 1, or that of some report, and no report is worse.
abbrev pub IsWorst : List Report → ℕ → ℕ → Type 0
IsWorst rs least n =
    (least ≤ n)
    × ((r : Report) → Among r rs → r.severity ≤ n)
    × ((n ≡ least) ⊎ ((r : Report) × Among r rs × (r.severity ≡ n)))

pub max_severity-IsWorst : (rs : List Report) (worst : ℕ) → IsWorst rs worst (max_severity worst rs)
max_severity-IsWorst [] worst = (omega arith, (λ r m. absurd m), inl refl)
max_severity-IsWorst (x ∷ rs) worst = elim (Bool-cases (ltb worst x.severity)) [
  | inl e ↦
      let (low, all, from) = max_severity-IsWorst rs x.severity in
      rw e (
        ground (arith, low),
        (λ r m. elim m [ inl at ↦ rw at low | inr n ↦ all r n ]),
        elim from [ inl at ↦ inr (x, inl refl, sym at) | inr (r, n, at) ↦ inr (r, inr n, at) ],
      )
  | inr e ↦
      let (low, all, from) = max_severity-IsWorst rs worst in
      rw e (
        low,
        (λ r m. elim m [ inl at ↦ rw at (ground (arith, low)) | inr n ↦ all r n ]),
        elim from [ inl at ↦ inl at | inr (r, n, at) ↦ inr (r, inr n, at) ],
      )
]
