-- ===== src/Matches/Knockout/Reading.antt =====
-- Which rounds and leagues count as a knockout.
use chiliztv_com.Base.{
  ℕ, Bool, true, Option, none, some, List, [], ◌∷◌, ◌++◌, ◌≡◌, ◌↔◌, ◌⊎◌, inl, inr, refl, ap, String,
  Text, any, Among, eq_iff, ==_iff, ◌==◌, Bool-cases, arith,
}
use chiliztv_com.Matches.Knockout.{
  Span, starts, found_in, test, group_stage_regex, first_leg_regex, knockout_round_regex,
  pure_knockout_league_ids, KnockoutMatchInput, round_of, is_pure, is_cup, decide_on,
  is_knockout_match,
}

-- The pattern stands in the text from some place on.
abbrev Stands : List Span → Text → Type 0
Stands pattern text = (before rest : Text) × (text ≡ before ++ rest) × (starts pattern rest ≡ true)

-- One of the alternatives stands in the text.
abbrev pub Mentions : List (List Span) → Text → Type 0
Mentions regex text = (pattern : List Span) × Among pattern regex × Stands pattern text

later-Stands :
    (c : ℕ) (text : Text) (pattern : List Span) → Stands pattern text → Stands pattern (c ∷ text)
later-Stands c text pattern (before, rest, e, t) = (c ∷ before, rest, ap (λ s. c ∷ s) e, t)

found_in→Stands :
    (text : Text) (pattern : List Span) → found_in text pattern ≡ true → Stands pattern text
unfolding found_in
found_in→Stands [] pattern h = ([], [], refl, h)
found_in→Stands (c ∷ text) pattern h = elim (Bool-cases (starts pattern (c ∷ text))) [
  | inl e ↦ ([], c ∷ text, refl, e)
  | inr e ↦ later-Stands c text pattern (found_in→Stands text pattern (ground arith))
]

starts→found_in :
    (text : Text) (pattern : List Span) → starts pattern text ≡ true → found_in text pattern ≡ true
unfolding found_in
starts→found_in [] pattern h = h
starts→found_in (c ∷ text) pattern h = rw h refl

found_in-append :
    (before rest : Text) (pattern : List Span)
    → starts pattern rest ≡ true
    → found_in (before ++ rest) pattern ≡ true
unfolding found_in
found_in-append [] rest pattern h = starts→found_in rest pattern h
found_in-append (c ∷ before) rest pattern h =
    elim (Bool-cases (starts pattern (c ∷ before ++ rest))) [
      | inl e ↦ rw e refl
      | inr e ↦ rw e (found_in-append before rest pattern h)
    ]

any_iff :
    (p : List Span → Bool) (xs : List (List Span))
    → (any p xs ≡ true) ↔ ((x : List Span) × Among x xs × (p x ≡ true))
any_iff p [] = ((λ e. ground arith), (λ (x, a, _). absurd a))
any_iff p (x ∷ xs) = elim (Bool-cases (p x)) [
  | inl e ↦ rw e ((λ _. (x, inl refl, e)), (λ _. refl))
  | inr e ↦ rw e (
    (λ h. let (y, a, t) = (any_iff p xs).0 h in (y, inr a, t)),
    (λ (y, a, t). elim a [ inl at ↦ cc (at, t, e) | inr b ↦ (any_iff p xs).1 (y, b, t) ]),
  )
]

Stands→found_in :
    (text : Text) (pattern : List Span) → Stands pattern text → found_in text pattern ≡ true
Stands→found_in text pattern (before, rest, e, t) = rw e (found_in-append before rest pattern t)

test_iff : (regex : List (List Span)) (text : Text) → (test regex text ≡ true) ↔ Mentions regex text
test_iff regex text =
    let some_found = any_iff (found_in text) regex in
    (
      (λ h. let (pattern, a, t) = some_found.0 h in (pattern, a, found_in→Stands text pattern t)),
      (λ (pattern, a, s). some_found.1 (pattern, a, Stands→found_in text pattern s)),
    )

any_id_iff : (ids : List ℕ) (n : ℕ) → (any (λ known. n == known) ids ≡ true) ↔ Among n ids
any_id_iff [] n = ((λ e. ground arith), (λ a. absurd a))
any_id_iff (x ∷ ids) n = ground (arith, ==_iff n x, any_id_iff ids n)

is_pure_iff :
    (id : Option ℕ)
    → (is_pure id ≡ true) ↔ ((n : ℕ) × (id ≡ some n) × Among n pure_knockout_league_ids)
unfolding is_pure
is_pure_iff none = ((λ e. ground arith), (λ (n, e, _). ground arith))
is_pure_iff (some id) = (
  (λ h. (id, refl, (any_id_iff pure_knockout_league_ids id).0 h)),
  (λ (n, e, a).
      let same : id ≡ n = ground arith in (any_id_iff pure_knockout_league_ids id).1 (rw same a)),
)

is_cup_iff : (name : Option String) → (is_cup name ≡ true) ↔ (name ≡ some "Cup")
is_cup_iff none = ((λ e. ground arith), (λ e. ground arith))
is_cup_iff (some name) =
    ((λ h. ap some ((eq_iff name "Cup").0 h)), (λ e. (eq_iff name "Cup").1 (ground arith)))

decide_on_iff :
    (group first_leg pure cup knockout_round : Bool)
    → (decide_on group first_leg pure cup knockout_round ≡ true) ↔ (
        (¬ (group ≡ true))
        × (¬ (first_leg ≡ true))
        × ((pure ≡ true) ⊎ (cup ≡ true) ⊎ (knockout_round ≡ true)))
unfolding decide_on
decide_on_iff group first_leg pure cup knockout_round = ground arith

-- A fixture counts as a knockout exactly when its round mentions neither a group stage nor a first leg,
-- in any case of the letters, and its league is one of the pure cups, or is said to be a cup, or the
-- round mentions a knockout phase. A missing round mentions nothing.
pub is_knockout_match_iff :
    (input : KnockoutMatchInput)
    → (is_knockout_match input ≡ true) ↔ (
        (¬ Mentions group_stage_regex (round_of input))
        × (¬ Mentions first_leg_regex (round_of input))
        × (((n : ℕ) × (input.id ≡ some n) × Among n pure_knockout_league_ids)
            ⊎ (input.type_name ≡ some "Cup")
            ⊎ Mentions knockout_round_regex (round_of input)))
unfolding is_knockout_match
is_knockout_match_iff input =
    let group = test_iff group_stage_regex (round_of input) in
    let first_leg = test_iff first_leg_regex (round_of input) in
    let phase = test_iff knockout_round_regex (round_of input) in
    let pure = is_pure_iff input.id in
    let cup = is_cup_iff input.type_name in
    let decided =
      decide_on_iff (test group_stage_regex (round_of input))
        (test first_leg_regex (round_of input)) (is_pure input.id) (is_cup input.type_name)
        (test knockout_round_regex (round_of input)) in
    (
      (λ h.
          let (g, f, s) = decided.0 h in
          (
            (λ m. g (group.1 m)),
            (λ m. f (first_leg.1 m)),
            elim s [
              | inl p ↦ inl (pure.0 p)
              | inr (inl c) ↦ inr (inl (cup.0 c))
              | inr (inr k) ↦ inr (inr (phase.0 k))
            ],
          )),
      (λ (g, f, s). decided.1 (
        (λ m. g (group.0 m)),
        (λ m. f (first_leg.0 m)),
        elim s [
          | inl p ↦ inl (pure.1 p)
          | inr (inl c) ↦ inr (inl (cup.1 c))
          | inr (inr k) ↦ inr (inr (phase.1 k))
        ],
      )),
    )
