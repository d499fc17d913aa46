-- ===== src/Locks/Waiting.antt =====
-- The wait for a lock ends.
use chiliztv_com.Base.{
  ℕ, zero, suc, ◌+◌, ◌*◌, ◌/◌, ◌≤◌, ◌<◌, ◌≡◌, Bool, true, false, Option, some, refl, arith, leb,
  if◌then◌else◌, Bool-cases, inl, inr,
}
use chiliztv_com.Locks.{wait_for, wait_poll_ms}

-- The round at `n`, from the answer of the rest.
round :
    (skips : Bool) (deadline time : ℕ) (won : Bool) (rest : Option Bool)
    → (time < deadline → (got : Bool) × (rest ≡ some got))
    → (got : Bool) × ((if won
          then some true
          else if skips
          then some false
          else if leb deadline time
          then some false
          else rest)
        ≡ some got)
round skips deadline time true rest h = (true, refl)
round true deadline time false rest h = (false, refl)
round false deadline time false rest h = elim (Bool-cases (leb deadline time)) [
  | inl e ↦ rw e (false, refl)
  | inr e ↦ rw e (h (ground arith))
]

wait_for_total :
    (fuel : ℕ) (skips : Bool) (deadline : ℕ) (tries : ℕ → Bool) (times : ℕ → ℕ) (n : ℕ)
    → ((k : ℕ) → times k + wait_poll_ms ≤ times (suc k))
    → deadline ≤ times n + wait_poll_ms * fuel
    → (got : Bool) × (wait_for (suc fuel) skips deadline tries times n ≡ some got)
unfolding wait_for
wait_for_total zero skips deadline tries times n later h =
    round skips deadline (times n) (tries n) _ (λ early. absurd (omega arith))
wait_for_total (suc fuel) skips deadline tries times n later h =
    round skips deadline (times n) (tries n) _ (λ early.
      wait_for_total fuel skips deadline tries times (suc n) later
        (let step = later n in omega arith))

-- However the attempts answer, the wait ends after at most one round for each poll of the longest wait,
-- and two more, if each sleep takes a poll or longer.
pub wait_for_ends :
    (max_wait now : ℕ) (skips : Bool) (tries : ℕ → Bool) (times : ℕ → ℕ)
    → now ≤ times 0
    → ((k : ℕ) → times k + wait_poll_ms ≤ times (suc k))
    → (got : Bool) × (wait_for (max_wait / wait_poll_ms + 2) skips (now + max_wait) tries times 0
        ≡ some got)
wait_for_ends max_wait now skips tries times started later =
    let rounds : max_wait / wait_poll_ms + 2 ≡ suc (max_wait / wait_poll_ms + 1) = omega arith in
    rw rounds (
      wait_for_total (max_wait / wait_poll_ms + 1) skips (now + max_wait) tries times 0 later
        (omega arith))
