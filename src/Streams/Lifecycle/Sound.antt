-- ===== src/Streams/Lifecycle/Sound.antt =====
-- What every row of the streams keeps, whichever calls come, in whatever order.
use chiliztv_com.Base.{
  ◌⊎◌, false, ℕ, Bool, true, Option, none, some, List, [], ◌∷◌, ◌≡◌, refl, inl, inr, filter, arith,
  str_eq, All, Among, Among-All, Among-filter, Result, ok, throws, Bool-cases, is_some,
}
use chiliztv_com.Moderation.Rows.{QueryError, maybe_single}
use chiliztv_com.Streams.Entity.{Stream, is_live, is_ended, start, end, heartbeat}
use chiliztv_com.Streams.Lifecycle.{update, to_row, written, on_found}

-- A live stream has a heartbeat, and an ended one the moment of its end.
abbrev pub IsSound : Stream → Type 0
IsSound s =
    ((is_live s.status ≡ false) ⊎ (is_some s.last_heartbeat_at ≡ true))
    × ((is_ended s.status ≡ false) ⊎ (is_some s.ended_at ≡ true))

pub single-Among : (xs : List Stream) (s : Stream) → maybe_single xs ≡ ok (some s) → Among s xs
single-Among [] s e = absurd (cc e)
single-Among (x ∷ []) s e = inl cc
single-Among (x ∷ y ∷ zs) s e = absurd (cc e)

pub found-Among :
    (p : Stream → Bool) (rows : List Stream) (s : Stream)
    → maybe_single (filter p rows) ≡ ok (some s)
    → Among s rows
found-Among p rows s e = ((Among-filter p rows s).0 (single-Among (filter p rows) s e)).0

pub found_test :
    (p : Stream → Bool) (rows : List Stream) (s : Stream)
    → maybe_single (filter p rows) ≡ ok (some s)
    → p s ≡ true
found_test p rows s e = ((Among-filter p rows s).0 (single-Among (filter p rows) s e)).1

-- What a call writes keeps the property.
abbrev pub Writes : {A : Type 0} → (Stream → Type 0) → A × Option Stream → Type 0
Writes P (a, none) = Unit {0}
Writes P (a, some s) = P (to_row s)

update-All :
    (P : Stream → Type 0) (s : Stream) (rows : List Stream)
    → P (to_row s)
    → All P rows
    → All P (update s rows)
unfolding update
update-All P s [] h t = tt
update-All P s (row ∷ rows) h (p, t) = elim (Bool-cases (str_eq row.id s.id)) [
  | inl e ↦ rw e (h, update-All P s rows h t)
  | inr e ↦ rw e (p, update-All P s rows h t)
]

pub written-All :
    {A : Type 0} (P : Stream → Type 0) (r : A × Option Stream) (rows : List Stream)
    → Writes P r
    → All P rows
    → All P (written r rows).1
unfolding written
written-All P (a, none) rows h t = t
written-All P (a, some s) rows h t = update-All P s rows h t

pub on_found-All :
    {A : Type 0} (P : Stream → Type 0) (missing : A) (f : Stream → A × Option Stream)
    (r : Result QueryError (Option Stream)) (rows : List Stream)
    → ((s : Stream) → r ≡ ok (some s) → Among s rows)
    → ((s : Stream) → P s → Writes P (f s))
    → All P rows
    → All P (on_found missing f r rows).1
unfolding on_found
on_found-All P missing f (throws q) rows m h t = t
on_found-All P missing f (ok none) rows m h t = t
on_found-All P missing f (ok (some s)) rows m h t =
    written-All P (f s) rows (h s (Among-All P rows s t (m s refl))) t

pub end-IsSound : (now : ℕ) (s : Stream) → IsSound s → IsSound (end now s)
unfolding end is_live is_ended
end-IsSound now s (h, k) = ground arith

pub heartbeat-IsSound : (now : ℕ) (s : Stream) → IsSound s → IsSound (heartbeat now s)
unfolding heartbeat
heartbeat-IsSound now s (h, k) = (inr refl, k)

pub start-IsSound : (now : ℕ) (s : Stream) → IsSound s → IsSound (heartbeat now (start s))
unfolding heartbeat start is_live is_ended
start-IsSound now s (h, k) = ground arith
