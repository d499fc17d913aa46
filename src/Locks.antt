-- ===== src/Locks.antt =====
-- apps/backend/src/infrastructure/cache/RedisLockService.ts with the scripts of RedisClient.ts. The store
-- is a parameter: a key holds a value until a time, and what `SET ... PX ... NX`, `DEL` and `PEXPIRE` are
-- documented to do to it is assumed. A call that does not reach the store throws, and changes nothing.
pub mod Leases
pub mod Exclusion
pub mod Waiting
use chiliztv_com.Base.{
  ℕ, zero, suc, ◌+◌, ◌*◌, ◌<◌, ◌≡◌, Bool, true, false, Option, none, some, ltb, leb, Text, text_eq,
  if◌then◌else◌, ◌⊎◌,
}

-- The value at a time, from the entry with its deadline.
abbrev pub live : ℕ → Option (Text × ℕ) → Option Text
live now none = none
live now (some (value, deadline)) = if ltb now deadline then some value else none

pub record Redis : Type 1 where
  pub Store : Type 0
  pub entry : Text → Store → Option (Text × ℕ)
  pub set_nx : ℕ → Text → Text → ℕ → Store → Bool × Store
  pub del : Text → Store → Store
  pub pexpire : ℕ → Text → ℕ → Store → Store
  pub set_nx_taken :
      (now : ℕ) (key value held : Text) (ttl : ℕ) (store : Store)
      → live now (entry key store) ≡ some held
      → set_nx now key value ttl store ≡ (false, store)
  pub set_nx_free :
      (now : ℕ) (key value : Text) (ttl : ℕ) (store : Store)
      → live now (entry key store) ≡ none
      → ((set_nx now key value ttl store).0 ≡ true)
        × (entry key (set_nx now key value ttl store).1 ≡ some (value, now + ttl))
  pub pexpire_live :
      (now : ℕ) (key value : Text) (ttl : ℕ) (store : Store)
      → live now (entry key store) ≡ some value
      → entry key (pexpire now key ttl store) ≡ some (value, now + ttl)

pub data LockResult : Type 0 where
  acquired : Text → ℕ → LockResult
  taken : LockResult
  error : LockResult

module _ (redis : Redis) where
  open redis use {Store, entry, set_nx, del, pexpire}

  -- From whether the key was set; the deadline that the caller sees is by the clock of the process, which
  -- is read after the answer.
  abbrev pub lock_result : ℕ → ℕ → Text → Bool → LockResult
  lock_result clock ttl_seconds token true = acquired token (clock + ttl_seconds * 1000)
  lock_result clock ttl_seconds token false = taken

  -- The store is at `now` where it answers, the process at `clock` where it reads its own clock.
  unfoldable pub acquire : Bool → ℕ → ℕ → Text → ℕ → Text → Store → LockResult × Store
  acquire reached now clock key ttl_seconds token store =
      if reached
      then (
        lock_result clock ttl_seconds token (set_nx now key token (ttl_seconds * 1000) store).0,
        (set_nx now key token (ttl_seconds * 1000) store).1,
      )
      else (error, store)

  -- `redis.call("GET", KEYS[1]) == ARGV[1]`
  abbrev pub holds : ℕ → Text → Text → Store → Bool
  holds now key token store = elim (live now (entry key store)) [
    | none ↦ false
    | some value ↦ text_eq value token
  ]

  -- LUA_RELEASE_LOCK
  unfoldable pub release : Bool → ℕ → Text → Text → Store → Bool × Store
  release reached now key token store =
      if reached
      then (if holds now key token store then (true, del key store) else (false, store))
      else (false, store)

  -- LUA_RENEW_LOCK
  unfoldable pub renew : Bool → ℕ → Text → Text → ℕ → Store → Bool × Store
  renew reached now key token ttl_seconds store =
      if reached
      then (if holds now key token store
          then (true, pexpire now key (ttl_seconds * 1000) store)
          else (false, store))
      else (false, store)

abbrev pub wait_poll_ms : ℕ
wait_poll_ms = 200

-- The loop of `withLock` until the lock is acquired: the attempts answer in turn, the clock stands at a
-- time before each sleep and one poll or more later after it. `none` means that the fuel ran out, true
-- that the lock was acquired.
unfoldable pub wait_for : ℕ → Bool → ℕ → (ℕ → Bool) → (ℕ → ℕ) → ℕ → Option Bool
wait_for zero skips deadline tries times n = none
wait_for (suc fuel) skips deadline tries times n =
    let rest = wait_for fuel skips deadline tries times (suc n) in
    if tries n
    then some true
    else if skips
    then some false
    else if leb deadline (times n)
    then some false
    else rest
