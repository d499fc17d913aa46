-- ===== src/Tests/Locks.antt =====
-- The lock at a store of one entry.
use chiliztv_com.Base.{
  ℕ, ◌+◌, ◌*◌, ◌≡◌, Bool, true, false, Option, none, some, [], ◌∷◌, refl, ap, inl, codes, Text,
  arith, leb,
}
use chiliztv_com.Locks.{Redis, live, acquire, wait_for}
use chiliztv_com.Locks.Leases.{System, Reach, here, next, acquires, attempts, passes}
use chiliztv_com.Locks.Exclusion.{mutual_exclusion}

abbrev set_slot : Text → ℕ → Option (Text × ℕ) → Option Text → Bool × Option (Text × ℕ)
set_slot value deadline slot none = (true, some (value, deadline))
set_slot value deadline slot (some held) = (false, slot)

slot_taken :
    (now : ℕ) (key value held : Text) (ttl : ℕ) (slot : Option (Text × ℕ))
    → live now slot ≡ some held
    → set_slot value (now + ttl) slot (live now slot) ≡ (false, slot)
slot_taken now key value held ttl slot e = ap (set_slot value (now + ttl) slot) e

slot_free :
    (now : ℕ) (key value : Text) (ttl : ℕ) (slot : Option (Text × ℕ))
    → live now slot ≡ none
    → ((set_slot value (now + ttl) slot (live now slot)).0 ≡ true)
      × ((set_slot value (now + ttl) slot (live now slot)).1 ≡ some (value, now + ttl))
slot_free now key value ttl slot e = (
  ap (λ o. (set_slot value (now + ttl) slot o).0) e,
  ap (λ o. (set_slot value (now + ttl) slot o).1) e,
)

abbrev extended : ℕ → Option Text → Option (Text × ℕ) → Option (Text × ℕ)
extended deadline none slot = slot
extended deadline (some value) slot = some (value, deadline)

slot_extended :
    (now : ℕ) (key value : Text) (ttl : ℕ) (slot : Option (Text × ℕ))
    → live now slot ≡ some value
    → extended (now + ttl) (live now slot) slot ≡ some (value, now + ttl)
slot_extended now key value ttl slot e = ap (λ o. extended (now + ttl) o slot) e

abbrev one_slot : Redis
one_slot = record {
  Store = Option (Text × ℕ);
  entry = λ key slot. slot;
  set_nx = λ now key value ttl slot. set_slot value (now + ttl) slot (live now slot);
  del = λ key slot. none;
  pexpire = λ now key ttl slot. extended (now + ttl) (live now slot) slot;
  set_nx_taken = slot_taken;
  set_nx_free = slot_free;
  pexpire_live = slot_extended;
}

abbrev key : Text
key = codes "job"

abbrev idle : System one_slot key
idle = record { store = none; now = 5; holdings = [] }

abbrev busy : System one_slot key
busy = record {
  store = some (codes "t1", 60005);
  now = 1005;
  holdings = record { token = codes "t1"; until = 60005 } ∷ [];
}

busy-Reach : Reach one_slot key idle busy
unfolding acquire
busy-Reach =
    next
      (next (next here (acquires true 7 60 60007 (codes "t1") (λ h m. absurd m) refl))
        (passes 1000))
      (attempts true 1009 60 (codes "t2") (inl refl))

mutual_exclusion_example : codes "t1" ≡ codes "t1"
mutual_exclusion_example =
    mutual_exclusion one_slot key idle busy refl busy-Reach
      (record { token = codes "t1"; until = 60005 }) (record { token = codes "t1"; until = 60005 })
      (inl refl) (inl refl) (omega arith) (omega arith)

wait-gives_up : wait_for 4 false 1500 (λ n. false) (λ n. 1000 + 250 * n) 0 ≡ some false
unfolding wait_for
wait-gives_up = refl

wait-wins : wait_for 4 false 1500 (λ n. leb 1 n) (λ n. 1000 + 250 * n) 0 ≡ some true
unfolding wait_for
wait-wins = refl
