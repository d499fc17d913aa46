-- ===== src/Matches/Resolution/Runs.antt =====
-- Which calls a run of the resolution makes.
use chiliztv_com.Base.{
  ap, [], subst, Bool-cases, inr, ◌⊎◌, Among-filter, false, has, none, filter, inl, has_iff, codes,
  ◌∷◌, arith, to_lower_case, some, Among, List, ◌↔◌, true, String, ℕ, ◌≡◌, ◌&&◌, Option, Text, Bool,
  refl,
}
use chiliztv_com.Matches.Entity.{Match}
use chiliztv_com.Matches.Closing.{contract_of}
use chiliztv_com.Matches.Resolution.Score.{IsScoreOf, score_with_iff}
use chiliztv_com.Matches.Resolution.{
  Resolutions, finished_codes, ResolveResult, resolve_each, resolve_with, is_given, ScoreInput,
  is_known, to_resolve, resolve_finished,
}

-- The call that the contract, where it is there and free, and the score of the match make.
abbrev pub Called :
    (Text → Bool) → Match → Option String → Option ℕ → Option ℕ → String × ScoreInput → Type 0
Called busy m found home away call =
    (c : String) × (h : ℕ) × (a : ℕ) × (found ≡ some c)
    × (busy (to_lower_case (codes c)) ≡ false)
    × (home ≡ some h)
    × (away ≡ some a)
    × (call.0 ≡ c)
    × IsScoreOf m h a call.1

known_iff : (score : Option ℕ) → (is_known score ≡ true) ↔ ((n : ℕ) × (score ≡ some n))
known_iff none = ((λ e. absurd (ground arith)), (λ (n, e). absurd (ground arith)))
known_iff (some n) = ((λ e. (n, refl)), (λ e. refl))

given_iff : (found : Option String) → (is_given found ≡ true) ↔ ((c : String) × (found ≡ some c))
given_iff none = ((λ e. absurd (ground arith)), (λ (n, e). absurd (ground arith)))
given_iff (some n) = ((λ e. (n, refl)), (λ e. refl))

four_iff :
    (p q r s : Bool)
    → ((p && q && r && s) ≡ true) ↔ ((p ≡ true) × (q ≡ true) × (r ≡ true) × (s ≡ true))
four_iff p q r s = ground arith

module _ (busy : Text → Bool) (resolves : String → ScoreInput → Option ℕ) where
  resolve_with-calls :
      (m : Match) (found : Option String) (home away : Option ℕ)
      (state : ResolveResult × Resolutions) (call : String × ScoreInput)
      → Among call (resolve_with busy resolves m found home away state).1
        ↔ (Called busy m found home away call ⊎ Among call state.1)
  unfolding resolve_with
  resolve_with-calls m none home away state call = (
    (λ k. inr k),
    (λ k. elim k [ inl (c, h, a, e, _, _, _, _, _) ↦ absurd (ground arith) | inr n ↦ n ]),
  )
  resolve_with-calls m (some c) none away state call = (
    (λ k. inr k),
    (λ k. elim k [ inl (c', h, a, _, _, e, _, _, _) ↦ absurd (ground arith) | inr n ↦ n ]),
  )
  resolve_with-calls m (some c) (some h) none state call = (
    (λ k. inr k),
    (λ k. elim k [ inl (c', h, a, _, _, _, e, _, _) ↦ absurd (ground arith) | inr n ↦ n ]),
  )
  resolve_with-calls m (some c) (some h) (some a) (r, calls) call =
      elim (Bool-cases (busy (to_lower_case (codes c)))) [
        | inl b ↦ rw b (
          (λ k. inr k),
          (λ k. elim k [
            | inl (c', h', a', e, f, _, _, _, _) ↦
                let same : c' ≡ c = ground arith in
                absurd (cc (ap (λ x. busy (to_lower_case (codes x))) same, f, b))
            | inr n ↦ n
          ]),
        )
        | inr b ↦ rw b (
          (λ k. elim k [
            | inl e ↦ inl (
              c,
              h,
              a,
              refl,
              b,
              refl,
              refl,
              ap (λ (x : String × ScoreInput). x.0) e,
              (score_with_iff m h a call.1).0 (ap (λ (x : String × ScoreInput). x.1) e),
            )
            | inr n ↦ inr n
          ]),
          (λ k. elim k [
            | inl (c', h', a', e, f, p, q, at, r) ↦
                let same : c' ≡ c = ground arith in
                let same_h : h' ≡ h = ground arith in
                let same_a : a' ≡ a = ground arith in
                let scored = (score_with_iff m h' a' call.1).1 r in
                inl (cc (at, scored, same, same_h, same_a))
            | inr n ↦ inr n
          ]),
        )
      ]

  resolve_each-calls :
      (ms : List Match) (call : String × ScoreInput)
      → Among call (resolve_each busy resolves ms).1 ↔ (
          (m : Match) × Among m ms
          × Called busy m (contract_of m.betting_contract_address) m.home_score m.away_score call)
  unfolding resolve_each
  resolve_each-calls [] call = ((λ k. absurd k), (λ (m, k, _). absurd k))
  resolve_each-calls (m ∷ ms) call =
      let step =
        resolve_with-calls m (contract_of m.betting_contract_address) m.home_score m.away_score
          (resolve_each busy resolves ms) call in
      (
        (λ k. elim (step.0 k) [
          | inl r ↦ (m, inl refl, r)
          | inr n ↦ let (m', at, r) = (resolve_each-calls ms call).0 n in (m', inr at, r)
        ]),
        (λ (m', at, r). step.1 (elim at [
          | inl e ↦ inl (
              subst
                (λ x.
                  Called busy x (contract_of x.betting_contract_address) x.home_score x.away_score
                    call)
                e r)
          | inr n ↦ inr ((resolve_each-calls ms call).1 (m', n, r))
        ])),
      )

to_resolve-finished : (m : Match) → to_resolve m ≡ true → Among m.status finished_codes
unfolding to_resolve
to_resolve-finished m e =
    (has_iff finished_codes m.status).0
      ((four_iff (has finished_codes m.status) (is_known m.home_score) (is_known m.away_score)
          (is_given (contract_of m.betting_contract_address))).0
        e).0

finished-to_resolve :
    (busy : Text → Bool) (m : Match) (call : String × ScoreInput)
    → Among m.status finished_codes
    → Called busy m (contract_of m.betting_contract_address) m.home_score m.away_score call
    → to_resolve m ≡ true
unfolding to_resolve
finished-to_resolve busy m call s (c, h, a, e, _, p, q, _, _) =
    (four_iff (has finished_codes m.status) (is_known m.home_score) (is_known m.away_score)
        (is_given (contract_of m.betting_contract_address))).1
      ((has_iff finished_codes m.status).1 s, rw p refl, rw q refl, rw e refl)

-- A run resolves a contract with a score exactly when some match that ended in ninety minutes, after
-- the extra time or on penalties carries the contract, no other run is at work on it, both scores of
-- the match are known, and each field of the score is that of the match: the goals of the home and the
-- away team, those at the half time and after the extra time, and as winner of the shootout the side
-- with the greater score in it where the match went to penalties and both of those scores are known.
pub resolve_finished_calls :
    (busy : Text → Bool) (resolves : String → ScoreInput → Option ℕ) (ms : List Match)
    (call : String × ScoreInput)
    → Among call (resolve_finished busy resolves ms).1 ↔ (
        (m : Match) × Among m ms
        × Among m.status finished_codes
        × Called busy m (contract_of m.betting_contract_address) m.home_score m.away_score call)
unfolding resolve_finished
resolve_finished_calls busy resolves ms call =
    let each = resolve_each-calls busy resolves (filter to_resolve ms) call in
    (
      (λ k.
          let (m, at, r) = each.0 k in
          let (here, t) = (Among-filter to_resolve ms m).0 at in
          (m, here, to_resolve-finished m t, r)),
      (λ (m, at, s, r).
          each.1
            (m, (Among-filter to_resolve ms m).1 (at, finished-to_resolve busy m call s r), r)),
    )
