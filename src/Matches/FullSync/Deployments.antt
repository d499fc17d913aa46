-- ===== src/Matches/FullSync/Deployments.antt =====
-- How many deployments a sync sends.
use chiliztv_com.Base.{
  refl, ℕ, suc, ◌+◌, ◌≤◌, Bool, true, false, Option, none, some, List, [], ◌∷◌, ◌≡◌, inl, inr,
  arith, length, take, filter, Bool-cases, String, ◌&&◌, zero,
}
use chiliztv_com.Matches.Entity.{Match}
use chiliztv_com.Matches.LiveSync.{is_true}
use chiliztv_com.Matches.FullSync.{
  by_date, SyncPorts, SyncState, FetchedMatch, after_deploy, counted_deploy, deploy_and_seed,
  sync_one, sync_each, repair_each, repair, sync_matches, contract_repair_cap, is_contractless,
  with_contract, updated_match, new_match,
}

length-take : {A : Type 0} (n : ℕ) (xs : List A) → length (take n xs) ≤ n
length-take zero xs = omega arith
length-take (suc n) [] = omega arith
length-take (suc n) (x ∷ xs) = omega (arith, length-take n xs)

-- At most so many deployments were sent, and no more contracts are counted than that.
abbrev Within : ℕ → SyncState → Type 0
Within n s = (length s.deployments ≤ n) × (s.contracts_deployed ≤ length s.deployments)

module _ (ports : SyncPorts) (now : ℕ) where
  after_deploy-same :
      (m : Match) (answer : Option String) (s : SyncState)
      → ((after_deploy ports now m answer s).1.deployments ≡ s.deployments)
        × ((after_deploy ports now m answer s).1.contracts_deployed ≡ s.contracts_deployed)
  after_deploy-same m none s = (refl, refl)
  after_deploy-same m (some c) s =
      elim (Bool-cases
        (ports.seeds c (is_true m.knockout_flag) && ports.updates (with_contract now c m))) [
          | inl t ↦ rw t (refl, refl)
          | inr t ↦ rw t (refl, refl)
        ]

  counted-Within :
      (n : ℕ) (r : Bool × SyncState)
      → length r.1.deployments ≤ n
      → suc r.1.contracts_deployed ≤ length r.1.deployments
      → Within n (counted_deploy ports now r)
  counted-Within n (true, s) h k = (h, k)
  counted-Within n (false, s) h k = (h, omega (arith, k))

  deploy-Within :
      (n : ℕ) (m : Match) (s : SyncState)
      → Within n s
      → Within (suc n) (counted_deploy ports now (deploy_and_seed ports now m s))
  unfolding deploy_and_seed
  deploy-Within n m s (h, k) =
      let (d, c) =
        after_deploy-same m (ports.deploys (length s.deployments) m)
          (record s { deployments = m ∷ s.deployments }) in
      counted-Within (suc n) (deploy_and_seed ports now m s) (rw d (omega (arith, h)))
        (rw (d, c) (omega (arith, k)))

  sync_one-Within :
      (n : ℕ) (found : Option Match) (f : FetchedMatch) (s : SyncState)
      → Within n s
      → Within (suc n) (sync_one ports now found f s)
  unfolding sync_one
  sync_one-Within n (some existing) f s (h, k) =
      elim (Bool-cases (ports.updates (updated_match now ports.team_form existing f))) [
        | inl t ↦ rw t (omega (arith, h), k)
        | inr t ↦ rw t (omega (arith, h), k)
      ]
  sync_one-Within n none f s (h, k) =
      elim (Bool-cases (ports.saves (new_match now ports.team_form (ports.fresh_id s.rows) f))) [
        | inl t ↦ rw t (deploy-Within n _ _ (h, k))
        | inr t ↦ rw t (omega (arith, h), k)
      ]

  sync_each-Within :
      (n : ℕ) (fs : List FetchedMatch) (s : SyncState)
      → Within n s
      → Within (length fs + n) (sync_each ports now fs s)
  unfolding sync_each
  sync_each-Within n [] s (h, k) = (omega (arith, h), k)
  sync_each-Within n (f ∷ fs) s w =
      let (h, k) = sync_each-Within (suc n) fs _ (sync_one-Within n _ f s w) in
      (omega (arith, h), k)

  repair_each-Within :
      (n : ℕ) (ms : List Match) (s : SyncState)
      → Within n s
      → Within (length ms + n) (repair_each ports now ms s)
  unfolding repair_each
  repair_each-Within n [] s (h, k) = (omega (arith, h), k)
  repair_each-Within n (m ∷ ms) s w =
      let (h, k) = repair_each-Within (suc n) ms _ (deploy-Within n m s w) in (omega (arith, h), k)

-- A sync sends at most one deployment for each fetched match and five more for the repair, and counts no
-- more contracts as deployed than it sends deployments.
pub sync_matches-deployments :
    (ports : SyncPorts) (now : ℕ) (fs : List FetchedMatch) (rows : List Match)
    → (length (sync_matches ports now fs rows).deployments ≤ length fs + contract_repair_cap)
      × ((sync_matches ports now fs rows).contracts_deployed
          ≤ length (sync_matches ports now fs rows).deployments)
unfolding sync_matches repair
sync_matches-deployments ports now [] rows = (omega arith, omega arith)
sync_matches-deployments ports now (f ∷ fs) rows =
    let start : SyncState = record {
      rows = rows;
      deployments = [];
      matches_stored = 0;
      contracts_deployed = 0;
    } in
    let synced = sync_each ports now (f ∷ fs) start in
    let picked = take contract_repair_cap (filter (is_contractless now) (by_date synced.rows)) in
    let (h, k) =
      repair_each-Within ports now (length (f ∷ fs) + 0) picked synced
        (sync_each-Within ports now 0 (f ∷ fs) start (omega arith, omega arith)) in
    (
      omega (
        arith,
        h,
        length-take contract_repair_cap (filter (is_contractless now) (by_date synced.rows)),
      ),
      k,
    )
