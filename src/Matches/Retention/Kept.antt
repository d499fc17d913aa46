-- ===== src/Matches/Retention/Kept.antt =====
-- Which matches a cleanup leaves in the table.
use chiliztv_com.Base.{
  map-Among, ltb, ℕ, Bool, true, false, not, Option, none, some, List, [], ◌∷◌, ◌≡◌, ◌≢◌, ◌≤◌, ◌↔◌,
  ◌⊎◌, refl, inl, inr, ap, sym, ◌∙◌, arith, Among, Among-filter, any-Among, Bool-cases, any, filter,
  map, ◌&&◌, ◌==◌, Text, text_eq, text_eq_iff, String, str_eq, eq_iff, codes, to_lower_case,
  Among-map,
}
use chiliztv_com.Matches.Entity.{Match}
use chiliztv_com.Indexing.Bets.{BetRow}
use chiliztv_com.Predictions.Entity.{Prediction}
use chiliztv_com.Matches.Retention.{
  by_contract, is_old, is_deletable, delete_old_matches, cleanup_with, referenced_contracts,
  referenced_matches,
}

-- A bet stands on the contract of the match.
abbrev pub BetOn : List BetRow → Match → Type 0
BetOn bets m =
    (bet : BetRow) × (contract : String) × Among bet bets
    × (m.betting_contract_address ≡ some contract)
    × (contract ≢ "")
    × (bet.contract_address ≢ [])
    × (to_lower_case (codes contract) ≡ to_lower_case bet.contract_address)

abbrev pub PredictedOn : List Prediction → Match → Type 0
PredictedOn predictions m =
    (prediction : Prediction) × Among prediction predictions
    × (prediction.match_id ≡ m.api_football_id)

-- The identifier is the primary key.
abbrev pub IsKeyed : List Match → Type 0
IsKeyed rows = (a b : Match) → Among a rows → Among b rows → a.id ≡ b.id → a ≡ b

any-some :
    {A : Type 0} (p : A → Bool) (xs : List A)
    → any p xs ≡ true
    → (a : A) × Among a xs × (p a ≡ true)
any-some p [] e = absurd (ground arith)
any-some p (x ∷ xs) e = elim (Bool-cases (p x)) [
  | inl t ↦ (x, inl refl, t)
  | inr t ↦ let (a, m, q) = any-some p xs (rw t at e) in (a, inr m, q)
]

deleted_iff :
    (p : Match → Bool) (rows : List Match) (m : Match)
    → IsKeyed rows
    → Among m rows
    → (any (λ id. m.id == id) (map (λ (y : Match). y.id) (filter p rows)) ≡ true) ↔ (p m ≡ true)
deleted_iff p rows m keyed here = (
  (λ e.
      let (id, at, same) =
        any-some (λ id. m.id == id) (map (λ (y : Match). y.id) (filter p rows)) e in
      let (y, listed, f) = Among-map (λ (y : Match). y.id) (filter p rows) id at in
      let (there, t) = (Among-filter p rows y).0 listed in
      let alike : m.id ≡ y.id = ground arith in ap p (keyed m y here there alike) ∙ t),
  (λ t.
      any-Among (λ id. m.id == id) (map (λ (y : Match). y.id) (filter p rows)) m.id
        (map-Among (λ (y : Match). y.id) (filter p rows) m ((Among-filter p rows m).1 (here, t)))
        (ground arith)),
)

opposite : (p q : Bool) → (p ≡ true) ↔ (q ≡ true) → (not p ≡ true) ↔ (q ≡ false)
opposite p q (f, g) = (
  (λ e. elim (Bool-cases q) [ inl t ↦ absurd (let u = g t in ground arith) | inr t ↦ t ]),
  (λ e. elim (Bool-cases p) [
    | inl t ↦ absurd (let u = f t in ground arith)
    | inr t ↦ ground arith
  ]),
)

-- What the deletion by identifiers leaves.
left_iff :
    (p : Match → Bool) (rows : List Match) (m : Match)
    → IsKeyed rows
    → Among m (
        filter (λ x. not (any (λ id. x.id == id) (map (λ (y : Match). y.id) (filter p rows)))) rows)
      ↔ (Among m rows × (p m ≡ false))
left_iff p rows m keyed =
    let gone = λ (x : Match). any (λ id. x.id == id) (map (λ (y : Match). y.id) (filter p rows)) in
    (
      (λ k.
          let (here, t) = (Among-filter (λ x. not (gone x)) rows m).0 k in
          (here, (opposite (gone m) (p m) (deleted_iff p rows m keyed here)).0 t)),
      (λ (here, f).
          (Among-filter (λ x. not (gone x)) rows m).1
            (here, (opposite (gone m) (p m) (deleted_iff p rows m keyed here)).1 f)),
    )

no_contracts : (found : Option String) → by_contract [] found ≡ false
no_contracts none = refl
no_contracts (some c) = ground arith

all_old : (before : ℕ) (m : Match) → is_deletable before [] [] m ≡ is_old before m
unfolding chiliztv_com.Matches.Retention.is_deletable
all_old before m = rw (no_contracts m.betting_contract_address) (ground arith)

deletion_iff :
    (before : ℕ) (contracts : List Text) (ids : List ℕ) (rows : List Match) (m : Match)
    → IsKeyed rows
    → Among m (delete_old_matches true before contracts ids rows)
      ↔ (Among m rows × (is_deletable before contracts ids m ≡ false))
unfolding chiliztv_com.Matches.Retention.delete_old_matches
deletion_iff before [] [] rows m keyed = rw (all_old before m) (
  (λ k.
      let (here, t) = (Among-filter (λ x. not (is_old before x)) rows m).0 k in
      (here, ground arith)),
  (λ (here, f). (Among-filter (λ x. not (is_old before x)) rows m).1 (here, rw f refl)),
)
deletion_iff before (c ∷ contracts) ids rows m keyed =
    left_iff (is_deletable before (c ∷ contracts) ids) rows m keyed
deletion_iff before [] (id ∷ ids) rows m keyed =
    left_iff (is_deletable before [] (id ∷ ids)) rows m keyed

filled_iff : (t : Text) → (not (text_eq t []) ≡ true) ↔ (t ≢ [])
filled_iff t =
    let same = text_eq_iff t [] in
    (
      (λ e f. let u = same.1 f in ground arith),
      (λ n. elim (Bool-cases (text_eq t [])) [ inl u ↦ absurd (n (same.0 u)) | inr u ↦ rw u refl ]),
    )

referenced_iff :
    (bets : List BetRow) (t : Text)
    → (any (text_eq t) (referenced_contracts bets) ≡ true) ↔ (
        (bet : BetRow) × Among bet bets
        × (bet.contract_address ≢ [])
        × (t ≡ to_lower_case bet.contract_address))
unfolding chiliztv_com.Matches.Retention.referenced_contracts
referenced_iff bets t =
    let filled = λ (b : BetRow). not (text_eq b.contract_address []) in
    let lowered = λ (b : BetRow). to_lower_case b.contract_address in
    (
      (λ e.
          let (x, at, same) = any-some (text_eq t) (map lowered (filter filled bets)) e in
          let (bet, listed, f) = Among-map lowered (filter filled bets) x at in
          let (here, n) = (Among-filter filled bets bet).0 listed in
          (bet, here, (filled_iff bet.contract_address).0 n, (text_eq_iff t x).0 same ∙ f)),
      (λ (bet, here, n, e).
          any-Among (text_eq t) (map lowered (filter filled bets)) (lowered bet)
            (map-Among lowered (filter filled bets) bet
              ((Among-filter filled bets bet).1 (here, (filled_iff bet.contract_address).1 n)))
            ((text_eq_iff t (lowered bet)).1 e)),
    )

named_iff : (c : String) (q : Bool) → ((not (str_eq c "") && q) ≡ true) ↔ ((c ≢ "") × (q ≡ true))
named_iff c q =
    let same = eq_iff c "" in
    (
      (λ e. ((λ f. let u = same.1 f in ground arith), ground arith)),
      (λ (n, t). elim (Bool-cases (str_eq c "")) [
        | inl u ↦ absurd (n (same.0 u))
        | inr u ↦ rw (u, t) refl
      ]),
    )

by_contract_iff :
    (bets : List BetRow) (m : Match)
    → (by_contract (referenced_contracts bets) m.betting_contract_address ≡ true) ↔ BetOn bets m
by_contract_iff bets m = from m.betting_contract_address
  where
    from :
        (found : Option String)
        → (by_contract (referenced_contracts bets) found ≡ true) ↔ (
            (bet : BetRow) × (contract : String) × Among bet bets
            × (found ≡ some contract)
            × (contract ≢ "")
            × (bet.contract_address ≢ [])
            × (to_lower_case (codes contract) ≡ to_lower_case bet.contract_address))
    from none = ((λ e. absurd (ground arith)), (λ (_, _, _, e, _, _, _). absurd (ground arith)))
    from (some c) =
        let given =
          named_iff c (any (text_eq (to_lower_case (codes c))) (referenced_contracts bets)) in
        let listed = referenced_iff bets (to_lower_case (codes c)) in
        (
          (λ e.
              let (n, t) = given.0 e in
              let (bet, here, f, same) = listed.0 t in (bet, c, here, refl, n, f, same)),
          (λ (bet, c', here, e, n, f, same).
              let alike : c' ≡ c = ground arith in
              given.1 (
                (λ z. n (alike ∙ z)),
                listed.1 (bet, here, f, ap (λ x. to_lower_case (codes x)) (sym alike) ∙ same),
              )),
        )

matched_iff :
    (predictions : List Prediction) (n : ℕ)
    → (any (λ id. n == id) (referenced_matches predictions) ≡ true)
      ↔ ((prediction : Prediction) × Among prediction predictions × (prediction.match_id ≡ n))
unfolding chiliztv_com.Matches.Retention.referenced_matches
matched_iff predictions n = (
  (λ e.
      let (id, at, same) =
        any-some (λ id. n == id) (map (λ (p : Prediction). p.match_id) predictions) e in
      let (p, here, f) = Among-map (λ (p : Prediction). p.match_id) predictions id at in
      (p, here, sym f ∙ ground arith)),
  (λ (p, here, e).
      any-Among (λ id. n == id) (map (λ (q : Prediction). q.match_id) predictions) p.match_id
        (map-Among (λ (q : Prediction). q.match_id) predictions p here) (ground arith)),
)

three_iff :
    (date before : ℕ) (c p : Bool)
    → ((ltb date before && not c && not p) ≡ false) ↔ ((before ≤ date) ⊎ ((c ≡ true) ⊎ (p ≡ true)))
three_iff date before c p = ground arith

deletable_iff :
    (before : ℕ) (bets : List BetRow) (predictions : List Prediction) (m : Match)
    → (is_deletable before (referenced_contracts bets) (referenced_matches predictions) m ≡ false)
      ↔ ((before ≤ m.match_date) ⊎ (BetOn bets m ⊎ PredictedOn predictions m))
unfolding chiliztv_com.Matches.Retention.is_deletable
deletable_iff before bets predictions m =
    let three =
      three_iff m.match_date before
        (by_contract (referenced_contracts bets) m.betting_contract_address)
        (any (λ id. m.api_football_id == id) (referenced_matches predictions)) in
    let bet_on = by_contract_iff bets m in
    let predicted = matched_iff predictions m.api_football_id in
    (
      (λ e. elim (three.0 e) [
        | inl l ↦ inl l
        | inr r ↦ inr (elim r [ inl c ↦ inl (bet_on.0 c) | inr p ↦ inr (predicted.0 p) ])
      ]),
      (λ h. three.1 (elim h [
        | inl l ↦ inl l
        | inr r ↦ inr (elim r [ inl c ↦ inl (bet_on.1 c) | inr p ↦ inr (predicted.1 p) ])
      ])),
    )

-- A cleanup whose queries go through leaves a match in the table exactly when it is not older than the
-- bound, or a bet stands on its contract, in whatever case the two addresses are written, or a
-- prediction refers to it. The identifiers of the table are distinct.
pub cleanup_with-keeps :
    (before : ℕ) (bets : List BetRow) (predictions : List Prediction) (rows : List Match)
    (m : Match)
    → IsKeyed rows
    → Among m (cleanup_with true before (some bets) (some predictions) rows)
      ↔ (Among m rows × ((before ≤ m.match_date) ⊎ (BetOn bets m ⊎ PredictedOn predictions m)))
cleanup_with-keeps before bets predictions rows m keyed =
    let left =
      deletion_iff before (referenced_contracts bets) (referenced_matches predictions) rows m
        keyed in
    let spared = deletable_iff before bets predictions m in
    (
      (λ k. let (here, f) = left.0 k in (here, spared.0 f)),
      (λ (here, h). left.1 (here, spared.1 h)),
    )
