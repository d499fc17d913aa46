-- ===== src/Locks/Exclusion.antt =====
-- No two processes hold a lock at once, whatever they do and in whatever order.
use chiliztv_com.Base.{
  sym, ◌∙◌, Among-update_where, [], Among-filter, if◌then◌else◌, text_eq_iff, Bool-cases,
  update_where, text_eq, ap, inr, not, filter, inl, arith, none, some, ◌⊎◌, ◌<◌, ℕ, ◌+◌, ◌*◌, ◌≡◌,
  ◌∷◌, Among, Text,
}
use chiliztv_com.Locks.{renew, release, live, Redis, acquire}
use chiliztv_com.Locks.Leases.{
  here, next, passes, loses, renews, releases, attempts, next, acquires, Step, Holding, Reach,
  System, Backs, IsBacked, backed_live, acquire-free, acquire-unchanged, release_cases, renew_lem,
  same_token,
}

module _ (redis : Redis) (key : Text) where
  open redis use {Store, entry}

  released-IsBacked :
      (s : System redis key) (token : Text) (store : Store)
      → (store ≡ s.store) ⊎ (live s.now (entry key s.store) ≡ some token)
      → IsBacked redis key s
      → IsBacked redis key (record s {
        store = store;
        holdings = filter (λ (h : Holding). not (text_eq h.token token)) s.holdings;
      })
  released-IsBacked s token store (inl e) b h m l =
      let (at, t) =
        (Among-filter (λ (x : Holding). not (text_eq x.token token)) s.holdings h).0 m in
      rw e (b h at l)
  released-IsBacked s token store (inr e) b h m l =
      let (at, t) =
        (Among-filter (λ (x : Holding). not (text_eq x.token token)) s.holdings h).0 m in
      absurd (
        cc (
          t,
          (text_eq_iff h.token token).1 (same_token redis key s.store s.now h token (b h at) l e),
        ))

  renewed-Backs :
      (s : System redis key) (token : Text) (ttl : ℕ) (store : Store)
      → live s.now (entry key s.store) ≡ some token
      → entry key store ≡ some (token, s.now + ttl * 1000)
      → (h : Holding) → Backs redis key s.store s.now h
      → Backs redis key store s.now
          (if text_eq h.token token then record h { until = s.now + ttl * 1000 } else h)
  renewed-Backs s token ttl store held e h b = elim (Bool-cases (text_eq h.token token)) [
    | inl t ↦ rw t (λ l. (
      s.now + ttl * 1000,
      e ∙ ap (λ x. some (x, s.now + ttl * 1000)) (sym ((text_eq_iff h.token token).0 t)),
      omega arith,
    ))
    | inr t ↦ rw t (λ l. absurd (
        cc
          (t, (text_eq_iff h.token token).1 (same_token redis key s.store s.now h token b l held))))
  ]

  acquired-IsBacked :
      (s : System redis key) (token : Text) (ttl : ℕ) (store : Store)
      → live s.now (entry key s.store) ≡ none
      → entry key store ≡ some (token, s.now + ttl * 1000)
      → IsBacked redis key s
      → IsBacked redis key (record s {
        store = store;
        holdings = record { token = token; until = s.now + ttl * 1000 } ∷ s.holdings;
      })
  acquired-IsBacked s token ttl store free e b h (inl m) =
      rw m (λ l. (s.now + ttl * 1000, e, omega arith))
  acquired-IsBacked s token ttl store free e b h (inr m) =
      λ l. absurd (cc (backed_live redis key s.store s.now h (b h m) l, free))

  renewed-IsBacked :
      (s : System redis key) (token : Text) (ttl : ℕ) (store : Store)
      → live s.now (entry key s.store) ≡ some token
      → entry key store ≡ some (token, s.now + ttl * 1000)
      → IsBacked redis key s
      → IsBacked redis key (record s {
        store = store;
        holdings =
            update_where
              (λ (h : Holding). text_eq h.token token)
              (λ h. record h { until = s.now + ttl * 1000 })
              s.holdings;
      })
  renewed-IsBacked s token ttl store held e b h m =
      let (old, n, same) =
        Among-update_where (λ (x : Holding). text_eq x.token token)
          (λ x. record x { until = s.now + ttl * 1000 }) s.holdings h m in
      rw same (renewed-Backs s token ttl store held e old (b old n))

  unchanged-IsBacked :
      (s : System redis key) (store : Store)
      → store ≡ s.store
      → IsBacked redis key s
      → IsBacked redis key (record s { store = store })
  unchanged-IsBacked s store e b h m = rw e (b h m)

  Step-IsBacked :
      {s t : System redis key} → Step redis key s t → IsBacked redis key s → IsBacked redis key t
  Step-IsBacked {s} (acquires reached clock ttl at token fresh e) b =
      let (free, stored) = acquire-free redis key reached s.now clock ttl at token s.store e in
      acquired-IsBacked s token ttl (acquire redis reached s.now clock key ttl token s.store).1 free
        stored b
  Step-IsBacked {s} (attempts reached clock ttl token e) b =
      unchanged-IsBacked s (acquire redis reached s.now clock key ttl token s.store).1
        (acquire-unchanged redis key reached s.now clock ttl token s.store e) b
  Step-IsBacked {s} (releases reached token) b =
      released-IsBacked s token (release redis reached s.now key token s.store).1
        (release_cases redis key reached s.now token s.store) b
  Step-IsBacked {s} (renews reached ttl token e) b =
      let (held, stored) = (renew_lem redis key reached s.now ttl token s.store).0 e in
      renewed-IsBacked s token ttl (renew redis reached s.now key token ttl s.store).1 held stored b
  Step-IsBacked {s} (loses reached ttl token e) b =
      unchanged-IsBacked s (renew redis reached s.now key token ttl s.store).1
        ((renew_lem redis key reached s.now ttl token s.store).1 e) b
  Step-IsBacked {s} (passes time) b = λ h m l. b h m (omega arith)

  Reach-IsBacked :
      {start s : System redis key}
      → Reach redis key start s
      → IsBacked redis key start
      → IsBacked redis key s
  Reach-IsBacked here b = b
  Reach-IsBacked (next r step) b = Step-IsBacked step (Reach-IsBacked r b)

-- From a state in which no process holds the lock, whatever processes acquire, renew and give back, in
-- whatever order, with calls that fail and time that passes, no two leases with different tokens are
-- running at once: a process whose lease is not over is alone. Each token is acquired once.
pub mutual_exclusion :
    (redis : Redis) (key : Text) (start s : System redis key)
    → start.holdings ≡ []
    → Reach redis key start s
    → (a b : Holding) → Among a s.holdings
    → Among b s.holdings
    → s.now < a.until
    → s.now < b.until
    → a.token ≡ b.token
mutual_exclusion redis key start s none_held r a b m n la lb =
    let backed = Reach-IsBacked redis key r (λ h k. absurd (rw none_held at k)) in
    let (d, e, _) = backed a m la in let (d', e', _) = backed b n lb in ground arith
