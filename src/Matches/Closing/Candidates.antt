-- ===== src/Matches/Closing/Candidates.antt =====
-- findOpenContractsCandidates of SupabaseMatchRepository, and the run of CloseLiveMatchesMarketsUseCase
-- on what it finds. The rows of one kickoff date stay in the order of the table.
use chiliztv_com.Matches.Closing.Calls.{close_live_calls}
use chiliztv_com.Base.{
  length, ◌≢◌, Among-filter, ℕ, refl, ◌+◌, ◌*◌, ◌≤◌, Bool, true, false, Option, none, some, List,
  [], ◌∷◌, ◌≡◌, ◌↔◌, ◌⊎◌, inl, inr, String, Among, filter, has, has_iff, leb, Bool-cases, ◌&&◌,
  ◌||◌, if◌then◌else◌, arith,
}
use chiliztv_com.Matches.Status.{live_statuses, blocked_statuses, upcoming_statuses}
use chiliztv_com.Matches.Entity.{Match}
use chiliztv_com.Matches.Closing.{
  leaves, plan_of, contract_of, Plan, Chain, CloseResult, Calls, close_live,
}

abbrev is_there : Option String → Bool
is_there none = false
is_there (some _) = true

-- `in` on the three lists of statuses, one after the other.
unfoldable pub eligible : String → Bool
eligible s = has live_statuses s || has blocked_statuses s || has upcoming_statuses s

abbrev pub lookback : ℕ
lookback = 6 * 60 * 60 * 1000

-- The filter of the query; `now - lookback` is moved to the other side.
unfoldable pub is_candidate : ℕ → ℕ → Match → Bool
is_candidate now buffer m =
    is_there m.betting_contract_address
    && eligible m.status
    && leb now (m.match_date + lookback)
    && leb m.match_date (now + buffer * 1000)

unfoldable pub insert_by_date : Match → List Match → List Match
insert_by_date m [] = m ∷ []
insert_by_date m (n ∷ ns) =
    let rest = insert_by_date m ns in if leb m.match_date n.match_date then m ∷ n ∷ ns else n ∷ rest

unfoldable pub by_date : List Match → List Match
by_date [] = []
by_date (m ∷ ms) = insert_by_date m (by_date ms)

unfoldable pub find_open_contracts_candidates : ℕ → ℕ → List Match → List Match
find_open_contracts_candidates now buffer table = by_date (filter (is_candidate now buffer) table)

-- `??`; `none` is a variable of the environment that is missing or not a number from zero on.
unfoldable pub buffer_sec : Option ℕ → ℕ
buffer_sec none = 120
buffer_sec (some buffer) = buffer

unfoldable pub close_live_matches_markets : Chain → Option ℕ → ℕ → List Match → CloseResult × Calls
close_live_matches_markets chain env now table =
    close_live chain now (buffer_sec env)
      (find_open_contracts_candidates now (buffer_sec env) table)

insert_by_date-Among :
    (m : Match) (ms : List Match) (x : Match) → Among x (insert_by_date m ms) ↔ Among x (m ∷ ms)
unfolding insert_by_date
insert_by_date-Among m [] x = ((λ a. a), (λ a. a))
insert_by_date-Among m (n ∷ ns) x =
    let rest = insert_by_date-Among m ns x in
    elim (Bool-cases (leb m.match_date n.match_date)) [
      | inl e ↦ rw e ((λ a. a), (λ a. a))
      | inr e ↦ rw e (
        (λ a. elim a [
          | inl at ↦ inr (inl at)
          | inr b ↦ elim (rest.0 b) [ inl at ↦ inl at | inr c ↦ inr (inr c) ]
        ]),
        (λ a. elim a [
          | inl at ↦ inr (rest.1 (inl at))
          | inr b ↦ elim b [ inl at ↦ inl at | inr c ↦ inr (rest.1 (inr c)) ]
        ]),
      )
    ]

pub by_date-Among : (ms : List Match) (x : Match) → Among x (by_date ms) ↔ Among x ms
unfolding by_date
by_date-Among [] x = ((λ a. a), (λ a. a))
by_date-Among (m ∷ ms) x =
    let step = insert_by_date-Among m (by_date ms) x in
    let rest = by_date-Among ms x in
    (
      (λ a. elim (step.0 a) [ inl at ↦ inl at | inr b ↦ inr (rest.0 b) ]),
      (λ a. elim a [ inl at ↦ step.1 (inl at) | inr b ↦ step.1 (inr (rest.1 b)) ]),
    )

-- What the query asks of a row.
abbrev pub Found : ℕ → ℕ → Match → Type 0
Found now buffer m =
    ((c : String) × (m.betting_contract_address ≡ some c))
    × (Among m.status live_statuses
        ⊎ Among m.status blocked_statuses
        ⊎ Among m.status upcoming_statuses)
    × (now ≤ m.match_date + lookback)
    × (m.match_date ≤ now + buffer * 1000)

is_there_iff : (o : Option String) → (is_there o ≡ true) ↔ ((c : String) × (o ≡ some c))
is_there_iff none = ((λ e. ground arith), (λ (c, e). ground arith))
is_there_iff (some c) = ((λ e. (c, refl)), (λ e. refl))

has_of_three :
    (xs ys zs : List String) (s : String)
    → ((has xs s || has ys s || has zs s) ≡ true) ↔ (Among s xs ⊎ Among s ys ⊎ Among s zs)
has_of_three xs ys zs s = ground (arith, has_iff xs s, has_iff ys s, has_iff zs s)

eligible_iff :
    (s : String)
    → (eligible s ≡ true)
      ↔ (Among s live_statuses ⊎ Among s blocked_statuses ⊎ Among s upcoming_statuses)
unfolding eligible
eligible_iff s = has_of_three live_statuses blocked_statuses upcoming_statuses s

is_candidate_iff :
    (now buffer : ℕ) (m : Match) → (is_candidate now buffer m ≡ true) ↔ Found now buffer m
unfolding is_candidate
is_candidate_iff now buffer m =
    ground (arith, is_there_iff m.betting_contract_address, eligible_iff m.status)

candidates-Found :
    (now buffer : ℕ) (table : List Match) (m : Match)
    → Among m (find_open_contracts_candidates now buffer table)
      ↔ (Among m table × Found now buffer m)
unfolding find_open_contracts_candidates
candidates-Found now buffer table m =
    let sorted = by_date-Among (filter (is_candidate now buffer) table) m in
    let kept = Among-filter (is_candidate now buffer) table m in
    let asked = is_candidate_iff now buffer m in
    (
      (λ a. let (at, t) = kept.0 (sorted.0 a) in (at, asked.0 t)),
      (λ (at, f). sorted.1 (kept.1 (at, asked.1 f))),
    )

-- A run calls the chain for a contract exactly when some row of the table carries it, has a live, a
-- blocked or an upcoming status, kicks off between six hours before now and the buffer after now, and
-- has a plan other than to be left alone; the call is the one of the plan, no answer or error of
-- another call matters, and each call counts as scanned. The buffer is two minutes if none is set.
pub close_live_matches_markets_iff :
    (chain : Chain) (env : Option ℕ) (now : ℕ) (table : List Match)
    → ((c : String) (p : Plan)
        → Among (c, p) (close_live_matches_markets chain env now table).1 ↔ (
            (m : Match) × Among m table
            × Found now (buffer_sec env) m
            × (contract_of m.betting_contract_address ≡ some c)
            × (plan_of now (buffer_sec env) m ≡ p)
            × (p ≢ leaves)))
      × ((close_live_matches_markets chain env now table).0.scanned
          ≡ length (close_live_matches_markets chain env now table).1)
unfolding close_live_matches_markets
close_live_matches_markets_iff chain env now table =
    let buffer = buffer_sec env in
    let rows = find_open_contracts_candidates now buffer table in
    let (calls, counted) = close_live_calls chain now buffer rows in
    (
      (λ c p. (
        (λ a.
            let (m, at, x, y, n) = (calls c p).0 a in
            let (row, f) = (candidates-Found now buffer table m).0 at in (m, row, f, x, y, n)),
        (λ (m, row, f, x, y, n).
            (calls c p).1 (m, (candidates-Found now buffer table m).1 (row, f), x, y, n)),
      )),
      counted,
    )
