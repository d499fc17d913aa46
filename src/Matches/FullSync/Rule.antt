-- ===== src/Matches/FullSync/Rule.antt =====
-- What holds of every row of a match stays so through a sync, if each kind of write keeps it.
use chiliztv_com.Base.{
  Among-take, Among-filter, All-of_Among, take, filter, Among-All, find?-Among, find?-nothing,
  find?, ◌≢◌, false, ap, sym, ◌∙◌, ◌++◌, Bool, Option, String, length, ◌&&◌, ◌==◌, ℕ, refl, inl,
  inr, ◌≡◌, true, All, any, All-carried, any-update_where, All-append, any-append, Bool-cases,
  arith, List, [], ◌∷◌, none, some,
}
use chiliztv_com.Matches.Entity.{Match}
use chiliztv_com.Matches.Closing.Candidates.{by_date, by_date-Among}
use chiliztv_com.Matches.LiveSync.{write_row, store_row, is_true}
use chiliztv_com.Matches.FullSync.{
  contract_repair_cap, sync_each, sync_matches, repair, repair_each, sync_one, is_contractless,
  new_match, updated_match, FetchedMatch, stored_one, after_deploy, counted_deploy, with_contract,
  deploy_and_seed, SyncState, SyncPorts,
}

-- The table has a row of the match, and each of its rows has the property.
abbrev pub Held : ℕ → (Match → Type 0) → List Match → Type 0
Held i Q rows =
    All (λ (r : Match). r.api_football_id ≡ i → Q r) rows
    × (any (λ (r : Match). r.api_football_id == i) rows ≡ true)

-- A row keeps the number of the match that is written.
write_row-number : (m row : Match) → (write_row m row).api_football_id ≡ m.api_football_id
unfolding chiliztv_com.Matches.LiveSync.write_row
write_row-number m row = refl

same_number :
    (i : ℕ) (m row : Match)
    → (row.api_football_id == m.api_football_id) ≡ true
    → ((write_row m row).api_football_id == i) ≡ (row.api_football_id == i)
same_number i m row t =
    let same : row.api_football_id ≡ m.api_football_id = ground arith in
    ap (λ n. n == i) (write_row-number m row ∙ sym same)

module _ (i : ℕ) where
  -- The number of the match that is written is the one that was looked for.
  number_of :
      (now : ℕ) (team_form : ℕ → Option String) (existing : Match) (f : FetchedMatch)
      → (existing.api_football_id == f.raw.api_football_id) ≡ true
      → (updated_match now team_form existing f).api_football_id ≡ i
      → existing.api_football_id ≡ i
  unfolding chiliztv_com.Matches.FullSync.updated_match
  number_of now team_form existing f t here = ground arith

  not_here :
      (now : ℕ) (team_form : ℕ → Option String) (id : ℕ) (f : FetchedMatch) (rows : List Match)
      → find? (λ (row : Match). row.api_football_id == f.raw.api_football_id) rows ≡ none
      → any (λ (r : Match). r.api_football_id == i) rows ≡ true
      → (new_match now team_form id f).api_football_id ≢ i
  unfolding chiliztv_com.Matches.FullSync.new_match
  not_here now team_form id f rows e some_row here =
      let nothing =
        find?-nothing (λ (row : Match). row.api_football_id == f.raw.api_football_id) rows e in
      cc (ap (λ n. any (λ (r : Match). r.api_football_id == n) rows) here, nothing, some_row)

module _ (i : ℕ) (Q : Match → Type 0) where
  store_row-Held :
      (m : Match) (rows : List Match)
      → ((row : Match) → m.api_football_id ≡ i → Q row → Q (write_row m row))
      → Held i Q rows
      → Held i Q (store_row m rows)
  unfolding chiliztv_com.Matches.LiveSync.store_row
  store_row-Held m rows keeps (each, some_row) = (
    All-carried (λ (r : Match). r.api_football_id ≡ i → Q r)
        (λ (r : Match). r.api_football_id ≡ i → Q r)
        (λ (row : Match). row.api_football_id == m.api_football_id) (write_row m) rows
        (λ r q. elim (Bool-cases (r.api_football_id == m.api_football_id)) [
          | inl t ↦ rw t (λ e.
              let here : m.api_football_id ≡ i = sym (write_row-number m r) ∙ e in
              let same : r.api_football_id ≡ m.api_football_id = ground arith in
              keeps r here (q (same ∙ here)))
          | inr t ↦ rw t q
        ])
        each,
    any-update_where (λ (r : Match). r.api_football_id == i)
          (λ (row : Match). row.api_football_id == m.api_football_id) (write_row m) rows
          (λ r. elim (Bool-cases (r.api_football_id == m.api_football_id)) [
            | inl t ↦ rw t (same_number i m r t)
            | inr t ↦ rw t refl
          ])
        ∙ some_row,
  )

  append-Held :
      (m : Match) (rows : List Match)
      → (m.api_football_id ≡ i → Q m)
      → Held i Q rows
      → Held i Q (rows ++ (m ∷ []))
  append-Held m rows q (each, some_row) = (
    All-append (λ (r : Match). r.api_football_id ≡ i → Q r) rows (m ∷ []) each (q, tt),
    any-append (λ (r : Match). r.api_football_id == i) rows (m ∷ []) some_row,
  )

  module _ (ports : SyncPorts) (now : ℕ) where
    after_deploy-Held :
        (m : Match) (answer : Option String) (s : SyncState)
        → ((row : Match) (c : String)
            → m.api_football_id ≡ i
            → Q row
            → Q (write_row (with_contract now c m) row))
        → Held i Q s.rows
        → Held i Q (after_deploy ports now m answer s).1.rows
    after_deploy-Held m none s keeps h = h
    after_deploy-Held m (some c) s keeps h =
        elim (Bool-cases
          (ports.seeds c (is_true m.knockout_flag) && ports.updates (with_contract now c m))) [
            | inl t ↦
                rw t (store_row-Held (with_contract now c m) s.rows (λ row e q. keeps row c e q) h)
            | inr t ↦ rw t h
          ]

    counted_deploy-rows : (r : Bool × SyncState) → (counted_deploy ports now r).rows ≡ r.1.rows
    counted_deploy-rows (true, s) = refl
    counted_deploy-rows (false, s) = refl

    deploy-Held :
        (m : Match) (s : SyncState)
        → ((row : Match) (c : String)
            → m.api_football_id ≡ i
            → Q row
            → Q (write_row (with_contract now c m) row))
        → Held i Q s.rows
        → Held i Q (counted_deploy ports now (deploy_and_seed ports now m s)).rows
    unfolding deploy_and_seed
    deploy-Held m s keeps h = rw (counted_deploy-rows (deploy_and_seed ports now m s)) (
        after_deploy-Held m (ports.deploys (length s.deployments) m)
          (record s { deployments = m ∷ s.deployments }) keeps h)

    module _
        (keeps : (existing row : Match) (f : FetchedMatch)
          → Q existing
          → Q row
          → Q (write_row (updated_match now ports.team_form existing f) row))
        (deployed : (m row : Match) (c : String)
          → is_contractless now m ≡ true
          → Q m
          → Q row
          → Q (write_row (with_contract now c m) row)) where
      sync_one-Held :
          (found : Option Match) (f : FetchedMatch) (s : SyncState)
          → find? (λ (row : Match). row.api_football_id == f.raw.api_football_id) s.rows ≡ found
          → Held i Q s.rows
          → Held i Q (sync_one ports now found f s).rows
      unfolding sync_one
      sync_one-Held (some existing) f s e (each, some_row) =
          elim (Bool-cases (ports.updates (updated_match now ports.team_form existing f))) [
            | inr t ↦ rw t (each, some_row)
            | inl t ↦
                let (m, same) =
                  find?-Among (λ (row : Match). row.api_football_id == f.raw.api_football_id) s.rows
                    existing e in
                rw t (
                  store_row-Held (updated_match now ports.team_form existing f) s.rows
                    (λ row here q.
                      keeps existing row f
                        (Among-All (λ (r : Match). r.api_football_id ≡ i → Q r) s.rows existing each
                          m (number_of i now ports.team_form existing f same here))
                        q)
                    (each, some_row))
          ]
      sync_one-Held none f s e (each, some_row) =
          elim (Bool-cases
            (ports.saves (new_match now ports.team_form (ports.fresh_id s.rows) f))) [
              | inr t ↦ rw t (each, some_row)
              | inl t ↦
                  let other =
                    not_here i now ports.team_form (ports.fresh_id s.rows) f s.rows e some_row in
                  let fresh = new_match now ports.team_form (ports.fresh_id s.rows) f in
                  rw t (
                    deploy-Held fresh
                      (stored_one ports now (record s { rows = s.rows ++ (fresh ∷ []) }))
                      (λ row c here q. absurd (other here))
                      (append-Held fresh s.rows (λ here. absurd (other here)) (each, some_row)))
            ]

      sync_each-Held :
          (fs : List FetchedMatch) (s : SyncState)
          → Held i Q s.rows
          → Held i Q (sync_each ports now fs s).rows
      unfolding sync_each
      sync_each-Held [] s h = h
      sync_each-Held (f ∷ fs) s h = sync_each-Held fs _ (
          sync_one-Held
            (find? (λ (row : Match). row.api_football_id == f.raw.api_football_id) s.rows) f s refl
            h)

      repair_each-Held :
          (ms : List Match) (s : SyncState)
          → All (λ (m : Match). (is_contractless now m ≡ true) × (m.api_football_id ≡ i → Q m)) ms
          → Held i Q s.rows
          → Held i Q (repair_each ports now ms s).rows
      unfolding repair_each
      repair_each-Held [] s each h = h
      repair_each-Held (m ∷ ms) s ((bare, q), each) h =
          repair_each-Held ms _ each
            (deploy-Held m s (λ row c here r. deployed m row c bare (q here) r) h)

      repair-Held : (s : SyncState) → Held i Q s.rows → Held i Q (repair ports now s).rows
      unfolding repair
      repair-Held s h =
          repair_each-Held
            (take contract_repair_cap (filter (is_contractless now) (by_date s.rows))) s
            (All-of_Among _ _ (λ m k.
              let (sorted, bare) = (Among-filter (is_contractless now) (by_date s.rows) m).0 (
                Among-take contract_repair_cap (filter (is_contractless now) (by_date s.rows)) m
                  k) in
              let here = (by_date-Among s.rows m).0 sorted in
              (bare, Among-All (λ (r : Match). r.api_football_id ≡ i → Q r) s.rows m h.0 here)))
            h

      pub sync_matches-Held :
          (fs : List FetchedMatch) (rows : List Match)
          → Held i Q rows
          → Held i Q (sync_matches ports now fs rows).rows
      unfolding sync_matches
      sync_matches-Held [] rows h = h
      sync_matches-Held (f ∷ fs) rows h = repair-Held _ (sync_each-Held (f ∷ fs) _ h)
