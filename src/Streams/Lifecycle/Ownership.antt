-- ===== src/Streams/Lifecycle/Ownership.antt =====
-- Who may keep a stream alive, or end it by beacon.
use chiliztv_com.Base.{
  ℕ, Bool, true, false, Option, none, some, List, ◌≡◌, ◌≢◌, refl, arith, String, str_eq, eq_iff,
  Among, Among-filter, Result, ok, throws,
}
use chiliztv_com.Moderation.Rows.{QueryError}
use chiliztv_com.Streams.Entity.{Stream}
use chiliztv_com.Streams.Lifecycle.{
  Answer, on_found, written, keep_alive, beacon, heartbeat_stream, end_stream_via_beacon,
  find_by_id,
}
use chiliztv_com.Streams.Lifecycle.Sound.{single-Among}

-- The call answers no, or fails, and writes nothing.
abbrev Denied : Answer Bool → List Stream → Type 0
Denied answer rows = (answer.0 ≢ ok true) × (answer.1 ≡ rows)

on_found-Denied :
    (f : Stream → Bool × Option Stream) (r : Result QueryError (Option Stream)) (rows : List Stream)
    → ((s : Stream) → r ≡ ok (some s) → f s ≡ (false, none))
    → Denied (on_found false f r rows) rows
unfolding on_found written
on_found-Denied f (throws q) rows h = ((λ e. cc e), refl)
on_found-Denied f (ok none) rows h = ((λ e. cc e), refl)
on_found-Denied f (ok (some s)) rows h = rw (h s refl) ((λ e. cc e), refl)

keep_alive-denied :
    (now : ℕ) (streamer : String) (s : Stream)
    → str_eq s.streamer_id streamer ≡ false
    → keep_alive now streamer s ≡ (false, none)
unfolding keep_alive
keep_alive-denied now streamer s o = rw o refl

beacon-denied :
    (now : ℕ) (streamer : String) (s : Stream)
    → str_eq s.streamer_id streamer ≡ false
    → beacon now streamer s ≡ (false, none)
unfolding beacon
beacon-denied now streamer s o = rw o refl

-- A heartbeat or a beacon from one who owns no stream of that id is denied and changes no row.
not_owner-Denied :
    (now : ℕ) (id streamer : String) (rows : List Stream)
    → ((s : Stream) → Among s rows → s.id ≡ id → s.streamer_id ≢ streamer)
    → Denied (heartbeat_stream now id streamer rows) rows
      × Denied (end_stream_via_beacon now id streamer rows) rows
unfolding heartbeat_stream end_stream_via_beacon
not_owner-Denied now id streamer rows h = (
  on_found-Denied (keep_alive now streamer) (find_by_id id rows) rows
      (λ s e. keep_alive-denied now streamer s (other s e)),
  on_found-Denied (beacon now streamer) (find_by_id id rows) rows
      (λ s e. beacon-denied now streamer s (other s e)),
)
  where
    other : (s : Stream) → find_by_id id rows ≡ ok (some s) → str_eq s.streamer_id streamer ≡ false
    other s e =
        let (m, i) = (Among-filter (λ r. str_eq r.id id) rows s).0 (single-Among _ s e) in
        ground (arith, h s m ((eq_iff s.id id).0 i), eq_iff s.streamer_id streamer)
