-- ===== src/Locks/Leases.antt =====
-- The steps of the processes, and what a call tells a process of the entry in the store.
use chiliztv_com.Base.{
  text_eq_iff, Option, ◌↔◌, Bool-cases, refl, update_where, true, text_eq, false, ap, inr, not,
  filter, inl, Option-cases, ◌≤◌, arith, none, some, ◌⊎◌, ◌<◌, ℕ, ◌+◌, ◌*◌, ◌≡◌, ◌≢◌, Bool, List,
  ◌∷◌, Among, Text,
}
use chiliztv_com.Locks.{
  lock_result, holds, renew, release, error, live, taken, Redis, acquired, acquire,
}

-- The store with the time, and what the processes believe: the tokens that they hold, each with the end
-- of its lease.
pub record Holding : Type 0 where
  pub token : Text
  pub until : ℕ

module _ (redis : Redis) (key : Text) where
  open redis use {Store, entry}

  pub record System : Type 0 where
    pub store : Store
    pub now : ℕ
    pub holdings : List Holding

  abbrev IsFresh : Text → List Holding → Type 0
  IsFresh token holdings = (h : Holding) → Among h holdings → h.token ≢ token

  -- A new token is acquired, a token is given back or renewed, or time passes.
  pub data Step (s : System) : System → Type 0 where
    acquires :
        (reached : Bool) (clock ttl at : ℕ) (token : Text)
        → IsFresh token s.holdings
        → (acquire redis reached s.now clock key ttl token s.store).0 ≡ acquired token at
        → Step s (record s {
          store = (acquire redis reached s.now clock key ttl token s.store).1;
          holdings = record { token = token; until = s.now + ttl * 1000 } ∷ s.holdings;
        })
    attempts :
        (reached : Bool) (clock ttl : ℕ) (token : Text)
        → ((acquire redis reached s.now clock key ttl token s.store).0 ≡ taken)
          ⊎ ((acquire redis reached s.now clock key ttl token s.store).0 ≡ error)
        → Step s (record s { store = (acquire redis reached s.now clock key ttl token s.store).1 })
    releases :
        (reached : Bool) (token : Text)
        → Step s (record s {
          store = (release redis reached s.now key token s.store).1;
          holdings = filter (λ (h : Holding). not (text_eq h.token token)) s.holdings;
        })
    renews :
        (reached : Bool) (ttl : ℕ) (token : Text)
        → (renew redis reached s.now key token ttl s.store).0 ≡ true
        → Step s (record s {
          store = (renew redis reached s.now key token ttl s.store).1;
          holdings =
              update_where
                (λ (h : Holding). text_eq h.token token)
                (λ h. record h { until = s.now + ttl * 1000 })
                s.holdings;
        })
    loses :
        (reached : Bool) (ttl : ℕ) (token : Text)
        → (renew redis reached s.now key token ttl s.store).0 ≡ false
        → Step s (record s { store = (renew redis reached s.now key token ttl s.store).1 })
    passes : (time : ℕ) → Step s (record s { now = s.now + time })

  pub data Reach (start : System) : System → Type 0 where
    here : Reach start start
    next : {s t : System} → Reach start s → Step s t → Reach start t

  -- The entry backs each lease that is not over.
  abbrev pub Backs : Store → ℕ → Holding → Type 0
  Backs store now h =
      now < h.until
      → (deadline : ℕ) × (entry key store ≡ some (h.token, deadline)) × (h.until ≤ deadline)

  abbrev pub IsBacked : System → Type 0
  IsBacked s = (h : Holding) → Among h s.holdings → Backs s.store s.now h

  pub backed_live :
      (store : Store) (now : ℕ) (h : Holding)
      → Backs store now h
      → now < h.until
      → live now (entry key store) ≡ some h.token
  backed_live store now h b l = let (d, e, k) = b l in rw e (ground arith)

  lock_won :
      (clock ttl : ℕ) (token : Text) (at : ℕ) (b : Bool)
      → lock_result redis clock ttl token b ≡ acquired token at
      → b ≡ true
  lock_won clock ttl token at true e = refl
  lock_won clock ttl token at false e = absurd (ground arith)

  lock_lost :
      (clock ttl : ℕ) (token : Text) (b : Bool)
      → (lock_result redis clock ttl token b ≡ taken)
        ⊎ (lock_result redis clock ttl token b ≡ error)
      → b ≡ false
  lock_lost clock ttl token true e = absurd (ground arith)
  lock_lost clock ttl token false e = refl

  pub acquire-free :
      (reached : Bool) (now clock ttl at : ℕ) (token : Text) (store : Store)
      → (acquire redis reached now clock key ttl token store).0 ≡ acquired token at
      → (live now (entry key store) ≡ none)
        × (entry key (acquire redis reached now clock key ttl token store).1
            ≡ some (token, now + ttl * 1000))
  unfolding acquire
  acquire-free false now clock ttl at token store e = absurd (ground arith)
  acquire-free true now clock ttl at token store e =
      elim (Option-cases (live now (entry key store))) [
        | inl free ↦ (free, (redis.set_nx_free now key token (ttl * 1000) store free).1)
        | inr (held, h) ↦ absurd (
            cc (
              lock_won clock ttl token at (redis.set_nx now key token (ttl * 1000) store).0 e,
              ap (λ (x : Bool × Store). x.0)
                  (redis.set_nx_taken now key token held (ttl * 1000) store h),
            ))
      ]

  pub acquire-unchanged :
      (reached : Bool) (now clock ttl : ℕ) (token : Text) (store : Store)
      → ((acquire redis reached now clock key ttl token store).0 ≡ taken)
        ⊎ ((acquire redis reached now clock key ttl token store).0 ≡ error)
      → (acquire redis reached now clock key ttl token store).1 ≡ store
  unfolding acquire
  acquire-unchanged false now clock ttl token store e = refl
  acquire-unchanged true now clock ttl token store e =
      elim (Option-cases (live now (entry key store))) [
        | inl free ↦ absurd (
            cc (
              lock_lost clock ttl token (redis.set_nx now key token (ttl * 1000) store).0 e,
              (redis.set_nx_free now key token (ttl * 1000) store free).0,
            ))
        | inr (held, h) ↦
            ap (λ (x : Bool × Store). x.1)
              (redis.set_nx_taken now key token held (ttl * 1000) store h)
      ]

  holds_iff :
      (now : ℕ) (token : Text) (store : Store)
      → (holds redis now key token store ≡ true) ↔ (live now (entry key store) ≡ some token)
  holds_iff now token store = holds_value (live now (entry key store))
    where
      holds_value :
          (o : Option Text)
          → ((elim o [ none ↦ false | some value ↦ text_eq value token ]) ≡ true) ↔ (o ≡ some token)
      holds_value none = ((λ e. absurd (ground arith)), (λ e. absurd (ground arith)))
      holds_value (some value) = (
        (λ e. ap some ((text_eq_iff value token).0 e)),
        (λ e. (text_eq_iff value token).1 (ground arith)),
      )

  -- A release or a failed renewal leaves the store, or its token held the lock.
  pub release_cases :
      (reached : Bool) (now : ℕ) (token : Text) (store : Store)
      → ((release redis reached now key token store).1 ≡ store)
        ⊎ (live now (entry key store) ≡ some token)
  unfolding release
  release_cases false now token store = inl refl
  release_cases true now token store = elim (Bool-cases (holds redis now key token store)) [
    | inl e ↦ inr ((holds_iff now token store).0 e)
    | inr e ↦ inl (rw e refl)
  ]

  pub renew_lem :
      (reached : Bool) (now ttl : ℕ) (token : Text) (store : Store)
      → ((renew redis reached now key token ttl store).0 ≡ true
          → (live now (entry key store) ≡ some token)
            × (entry key (renew redis reached now key token ttl store).1
                ≡ some (token, now + ttl * 1000)))
        × ((renew redis reached now key token ttl store).0 ≡ false
            → (renew redis reached now key token ttl store).1 ≡ store)
  unfolding renew
  renew_lem false now ttl token store = ((λ e. absurd (ground arith)), (λ e. refl))
  renew_lem true now ttl token store = elim (Bool-cases (holds redis now key token store)) [
    | inl e ↦
        let held = (holds_iff now token store).0 e in
        rw e (
          (λ t. (held, redis.pexpire_live now key token (ttl * 1000) store held)),
          (λ f. absurd (ground arith)),
        )
    | inr e ↦ rw e ((λ t. absurd (ground arith)), (λ f. refl))
  ]

  pub same_token :
      (store : Store) (now : ℕ) (h : Holding) (token : Text)
      → Backs store now h
      → now < h.until
      → live now (entry key store) ≡ some token
      → h.token ≡ token
  same_token store now h token b l e = let own = backed_live store now h b l in ground arith
