-- ===== src/Streams/Lifecycle/Finality.antt =====
-- A stream that ended stays as it ended, until its live input starts again.
use chiliztv_com.Base.{
  none, any, Option, Among-All, eq_iff, sym, refl, ◌⊎◌, ◌≢◌, ℕ, Bool, true, false, some, List, [],
  ◌∷◌, ◌≡◌, inl, inr, arith, String, str_eq, All, Result, ok, throws, Bool-cases,
}
use chiliztv_com.Moderation.Rows.{QueryError}
use chiliztv_com.Streams.Entity.{
  start, LiveInputResult, Stream, is_live, is_ended, is_created, end, heartbeat, attach_recording,
}
use chiliztv_com.Streams.Lifecycle.{
  find_by_cloudflare_input_uid, on_found, created_or_found, save, clashes, create_by, create_if,
  stream_of, StreamMeta, resume, resume_or_create, start_stream_by_live_input, Provider, end_live,
  keep_alive, beacon, record_on, end_orphan, end_if, check_and_end_if_disconnected,
  end_stream_by_live_input, heartbeat_stream, end_stream_via_beacon, attach_recording_to,
  end_stale_live, end_stale_created, end_stream, is_uid,
}
use chiliztv_com.Streams.Lifecycle.Sound.{
  found_test, written-All, Writes, found-Among, on_found-All,
}
use chiliztv_com.Streams.Lifecycle.Histories.{
  Call, starts, checks, disconnects, beats, beacons, records, retires_live, retires_created, ends,
  perform, run,
}

-- `s` is another stream than `id`, or it is ended, at the moment `at`, and has the live input `uid`.
abbrev pub EndedAt : String → String → ℕ → Stream → Type 0
EndedAt id uid at s =
    (s.id ≢ id)
    ⊎ ((is_ended s.status ≡ true) × (s.ended_at ≡ some at) × (s.cloudflare_input_uid ≡ some uid))

abbrev pub starts_input : String → Call → Bool
starts_input uid (starts _ u) = str_eq u uid
starts_input uid _ = false

-- The metadata of every other live input names another stream.
abbrev pub IsNamedBy : Provider → String → String → Type 0
IsNamedBy provider id uid =
    (u : String) (input : LiveInputResult) (meta : StreamMeta)
    → u ≢ uid
    → provider.details u ≡ ok (input, meta)
    → meta.stream_id ≢ id

module _ (id uid : String) (at : ℕ) (s : Stream) (k : EndedAt id uid at s) where
  end-EndedAt : (now : ℕ) → EndedAt id uid at (end now s)
  unfolding end is_ended
  end-EndedAt now = elim (Bool-cases (is_ended s.status)) [
    | inl l ↦ rw l k
    | inr l ↦ elim k [ inl other ↦ rw l (inl other) | inr (over, _, _) ↦ absurd (cc (l, over)) ]
  ]

  end_live-EndedAt : (now : ℕ) → Writes (EndedAt id uid at) (end_live now s)
  unfolding end_live
  end_live-EndedAt now = elim (Bool-cases (is_live s.status)) [
    | inl l ↦ rw l (end-EndedAt now)
    | inr l ↦ rw l tt
  ]

  -- A live stream is none that ended.
  live-EndedAt : (now : ℕ) → is_live s.status ≡ true → EndedAt id uid at (heartbeat now s)
  unfolding heartbeat is_live is_ended
  live-EndedAt now l = elim k [ inl other ↦ inl other | inr (over, _, _) ↦ absurd (ground arith) ]

  keep_alive-EndedAt :
      (now : ℕ) (streamer : String) → Writes (EndedAt id uid at) (keep_alive now streamer s)
  unfolding keep_alive
  keep_alive-EndedAt now streamer = elim (Bool-cases (str_eq s.streamer_id streamer)) [
    | inl o ↦ elim (Bool-cases (is_live s.status)) [
      | inl l ↦ rw (o, l) (live-EndedAt now l)
      | inr l ↦ rw (o, l) tt
    ]
    | inr o ↦ rw o tt
  ]

  beacon-EndedAt :
      (now : ℕ) (streamer : String) → Writes (EndedAt id uid at) (beacon now streamer s)
  unfolding beacon
  beacon-EndedAt now streamer = elim (Bool-cases (str_eq s.streamer_id streamer)) [
    | inl o ↦ elim (Bool-cases (is_live s.status)) [
      | inl l ↦ rw (o, l) (end-EndedAt now)
      | inr l ↦ rw (o, l) tt
    ]
    | inr o ↦ rw o tt
  ]

  record_on-EndedAt :
      (video hls : String) (ready : ℕ) → Writes (EndedAt id uid at) (record_on video hls ready s)
  unfolding record_on attach_recording
  record_on-EndedAt video hls ready = elim (Bool-cases (is_ended s.status)) [
    | inl l ↦ rw l (elim k [ inl other ↦ inl other | inr (_, then, input) ↦ inr (l, then, input) ])
    | inr l ↦ rw l tt
  ]

  end_orphan-EndedAt : (now : ℕ) → Writes (EndedAt id uid at) (end_orphan now s)
  unfolding end_orphan
  end_orphan-EndedAt now = elim (Bool-cases (is_created s.status)) [
    | inl l ↦ rw l (end-EndedAt now)
    | inr l ↦ rw l tt
  ]

module _ (id uid : String) (at : ℕ) (provider : Provider) (now : ℕ) (rows : List Stream)
    (t : All (EndedAt id uid at) rows) where
  disconnects-EndedAt :
      (u : String) → All (EndedAt id uid at) (end_stream_by_live_input now u rows).1
  unfolding end_stream_by_live_input
  disconnects-EndedAt u =
      on_found-All (EndedAt id uid at) tt _ _ rows
        (found-Among (λ s. is_uid u s.cloudflare_input_uid) rows)
        (λ s k. end_live-EndedAt id uid at s k now) t

  end_if-EndedAt :
      (u : String) (r : Result provider.Failure Bool)
      → All (EndedAt id uid at) (end_if provider now u rows r).1
  unfolding end_if
  end_if-EndedAt u (throws e) = t
  end_if-EndedAt u (ok true) = t
  end_if-EndedAt u (ok false) = disconnects-EndedAt u

  other_stream :
      (u : String) (r : Stream)
      → u ≢ uid
      → is_uid u r.cloudflare_input_uid ≡ true
      → EndedAt id uid at r
      → r.id ≢ id
  other_stream u r other found (inl o) = o
  other_stream u r other found (inr (_, _, input)) =
      let same : str_eq uid u ≡ true = rw input at found in λ e. other (sym ((eq_iff uid u).0 same))

  found-other :
      (u : String) (r : Stream)
      → u ≢ uid
      → find_by_cloudflare_input_uid u rows ≡ ok (some r)
      → r.id ≢ id
  found-other u r other e =
      other_stream u r other (found_test (λ s. is_uid u s.cloudflare_input_uid) rows r e) (
        Among-All (EndedAt id uid at) rows r t
          (found-Among (λ s. is_uid u s.cloudflare_input_uid) rows r e))

  beaten-EndedAt :
      (u : String) (r : Result QueryError (Option Stream))
      → u ≢ uid
      → find_by_cloudflare_input_uid u rows ≡ r
      → All
          (EndedAt id uid at)
          (on_found {A = Unit {0}} tt (λ s. (tt, some (heartbeat now s))) r rows).1
  unfolding on_found heartbeat
  beaten-EndedAt u (throws q) other e = t
  beaten-EndedAt u (ok none) other e = t
  beaten-EndedAt u (ok (some s)) other e =
      written-All (EndedAt id uid at) (tt, some (heartbeat now s)) rows
        (inl (found-other u s other e)) t

  created-EndedAt :
      (u : String) (s : Stream)
      → u ≢ uid
      → s.id ≢ id
      → All (EndedAt id uid at) (created_or_found now u rows (save s rows)).1
  unfolding created_or_found save
  created-EndedAt u s other named = elim (Bool-cases (any (clashes s) rows)) [
    | inl c ↦ rw c (beaten-EndedAt u (find_by_cloudflare_input_uid u rows) other refl)
    | inr c ↦ rw c (inl named, t)
  ]

  create_by-EndedAt :
      (u : String) (r : Result provider.Failure (LiveInputResult × StreamMeta))
      → IsNamedBy provider id uid
      → u ≢ uid
      → provider.details u ≡ r
      → All (EndedAt id uid at) (create_by provider now u rows r).1
  unfolding create_by heartbeat stream_of
  create_by-EndedAt u (throws e) named other from = t
  create_by-EndedAt u (ok (input, meta)) named other from =
      created-EndedAt u (heartbeat now (stream_of now u input meta)) other
        (named u input meta other from)

  create_if-EndedAt :
      (u : String) (r : Result provider.Failure Bool)
      → IsNamedBy provider id uid
      → u ≢ uid
      → All (EndedAt id uid at) (create_if provider now u rows r).1
  unfolding create_if
  create_if-EndedAt u (throws e) named other = t
  create_if-EndedAt u (ok false) named other = t
  create_if-EndedAt u (ok true) named other =
      create_by-EndedAt u (provider.details u) named other refl

  resumed-EndedAt : (s : Stream) → s.id ≢ id → Writes (EndedAt id uid at) (resume now s)
  unfolding resume heartbeat start
  resumed-EndedAt s other = elim (Bool-cases (is_live s.status)) [
    | inl l ↦ rw l (inl other)
    | inr l ↦ rw l (inl other)
  ]

  resume_or_create-EndedAt :
      (u : String) (r : Result QueryError (Option Stream))
      → IsNamedBy provider id uid
      → u ≢ uid
      → find_by_cloudflare_input_uid u rows ≡ r
      → All (EndedAt id uid at) (resume_or_create provider now u rows r).1
  unfolding resume_or_create
  resume_or_create-EndedAt u (throws q) named other e = t
  resume_or_create-EndedAt u (ok none) named other e =
      create_if-EndedAt u (provider.connected u) named other
  resume_or_create-EndedAt u (ok (some s)) named other e =
      written-All (EndedAt id uid at) (resume now s) rows
        (resumed-EndedAt s (found-other u s other e)) t

  starts-EndedAt :
      (in_flight : Bool) (u : String)
      → IsNamedBy provider id uid
      → u ≢ uid
      → All (EndedAt id uid at) (start_stream_by_live_input provider now in_flight u rows).1
  unfolding start_stream_by_live_input
  starts-EndedAt true u named other = t
  starts-EndedAt false u named other =
      resume_or_create-EndedAt u (find_by_cloudflare_input_uid u rows) named other refl

  perform-EndedAt :
      (call : Call)
      → IsNamedBy provider id uid
      → starts_input uid call ≡ false
      → All (EndedAt id uid at) (perform provider now call rows)
  unfolding perform heartbeat_stream end_stream_via_beacon attach_recording_to end_stale_live
      end_stale_created end_stream check_and_end_if_disconnected
  perform-EndedAt (starts b u) named h = starts-EndedAt b u named (λ e. cc ((eq_iff u uid).1 e, h))
  perform-EndedAt (checks u) named h = end_if-EndedAt u (provider.connected u)
  perform-EndedAt (disconnects u) named h = disconnects-EndedAt u
  perform-EndedAt (beats i streamer) named h =
      on_found-All (EndedAt id uid at) false _ _ rows (found-Among (λ s. str_eq s.id i) rows)
        (λ s k. keep_alive-EndedAt id uid at s k now streamer) t
  perform-EndedAt (beacons i streamer) named h =
      on_found-All (EndedAt id uid at) false _ _ rows (found-Among (λ s. str_eq s.id i) rows)
        (λ s k. beacon-EndedAt id uid at s k now streamer) t
  perform-EndedAt (records u video hls ready) named h =
      on_found-All (EndedAt id uid at) tt _ _ rows
        (found-Among (λ s. is_uid u s.cloudflare_input_uid) rows)
        (λ s k. record_on-EndedAt id uid at s k video hls ready) t
  perform-EndedAt (retires_live key) named h =
      on_found-All (EndedAt id uid at) tt _ _ rows (found-Among (λ s. str_eq s.stream_key key) rows)
        (λ s k. end_live-EndedAt id uid at s k now) t
  perform-EndedAt (retires_created key) named h =
      on_found-All (EndedAt id uid at) tt _ _ rows (found-Among (λ s. str_eq s.stream_key key) rows)
        (λ s k. end_orphan-EndedAt id uid at s k now) t
  perform-EndedAt (ends i) named h =
      on_found-All (EndedAt id uid at) tt _ _ rows (found-Among (λ s. str_eq s.id i) rows)
        (λ s k. end-EndedAt id uid at s k now) t

-- A stream that ended stays ended, with the moment of its first end, through all calls but the starts of
-- its own live input, where the metadata of every other live input names another stream: neither the
-- start of another stream, nor a disconnect that comes late, nor a beacon, nor a recording, nor the
-- clean-up, nor a moderator ends it a second time or brings it back.
pub run-EndedAt :
    (id uid : String) (at : ℕ) (provider : Provider) (calls : List (ℕ × Call)) (rows : List Stream)
    → IsNamedBy provider id uid
    → All (λ (c : ℕ × Call). starts_input uid c.1 ≡ false) calls
    → All (EndedAt id uid at) rows
    → All (EndedAt id uid at) (run provider calls rows)
unfolding run
run-EndedAt id uid at provider [] rows named h t = t
run-EndedAt id uid at provider ((now, call) ∷ calls) rows named (c, h) t =
    run-EndedAt id uid at provider calls (perform provider now call rows) named h
      (perform-EndedAt id uid at provider now rows t call named c)
