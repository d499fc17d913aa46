-- ===== src/Streams/Lifecycle/Histories.antt =====
-- Histories of the calls on the table of streams.
use chiliztv_com.Base.{
  Among-All, ℕ, Bool, true, false, Option, none, some, List, [], ◌∷◌, ◌≡◌, refl, inl, inr, String,
  str_eq, All, Among, Result, ok, throws, Bool-cases, any,
}
use chiliztv_com.Moderation.Rows.{QueryError}
use chiliztv_com.Streams.Entity.{
  Stream, is_live, is_ended, is_created, heartbeat, attach_recording, LiveInputResult,
}
use chiliztv_com.Streams.Lifecycle.{
  clashes, Provider, StreamMeta, to_row, save, stream_of, end_live, keep_alive, beacon, record_on,
  end_orphan, resume, created_or_found, create_by, create_if, resume_or_create,
  start_stream_by_live_input, end_if, check_and_end_if_disconnected, end_stream_by_live_input,
  heartbeat_stream, end_stream_via_beacon, attach_recording_to, end_stale_live, end_stale_created,
  end_stream, is_uid, find_by_cloudflare_input_uid,
}
use chiliztv_com.Streams.Lifecycle.Sound.{
  IsSound, Writes, found-Among, on_found-All, written-All, end-IsSound, heartbeat-IsSound,
  start-IsSound,
}

pub data Call : Type 0 where
  starts : Bool → String → Call
  checks : String → Call
  disconnects : String → Call
  beats : String → String → Call
  beacons : String → String → Call
  records : String → String → String → ℕ → Call
  retires_live : String → Call
  retires_created : String → Call
  ends : String → Call

module _ (provider : Provider) where
  -- The table after a call at a moment.
  unfoldable pub perform : ℕ → Call → List Stream → List Stream
  perform now (starts in_flight uid) rows =
      (start_stream_by_live_input provider now in_flight uid rows).1
  perform now (checks uid) rows = (check_and_end_if_disconnected provider now uid rows).1
  perform now (disconnects uid) rows = (end_stream_by_live_input now uid rows).1
  perform now (beats id streamer) rows = (heartbeat_stream now id streamer rows).1
  perform now (beacons id streamer) rows = (end_stream_via_beacon now id streamer rows).1
  perform now (records uid video hls ready_at) rows =
      (attach_recording_to uid video hls ready_at rows).1
  perform now (retires_live key) rows = (end_stale_live now key rows).1
  perform now (retires_created key) rows = (end_stale_created now key rows).1
  perform now (ends id) rows = (end_stream now id rows).1

  unfoldable pub run : List (ℕ × Call) → List Stream → List Stream
  run [] rows = rows
  run ((now, call) ∷ calls) rows = run calls (perform now call rows)

end_live-IsSound : (now : ℕ) (s : Stream) → IsSound s → Writes IsSound (end_live now s)
unfolding end_live
end_live-IsSound now s k = elim (Bool-cases (is_live s.status)) [
  | inl e ↦ rw e (end-IsSound now s k)
  | inr e ↦ rw e tt
]

keep_alive-IsSound :
    (now : ℕ) (streamer : String) (s : Stream)
    → IsSound s
    → Writes IsSound (keep_alive now streamer s)
unfolding keep_alive
keep_alive-IsSound now streamer s k = elim (Bool-cases (str_eq s.streamer_id streamer)) [
  | inl o ↦ elim (Bool-cases (is_live s.status)) [
    | inl e ↦ rw (o, e) (heartbeat-IsSound now s k)
    | inr e ↦ rw (o, e) tt
  ]
  | inr o ↦ rw o tt
]

beacon-IsSound :
    (now : ℕ) (streamer : String) (s : Stream) → IsSound s → Writes IsSound (beacon now streamer s)
unfolding beacon
beacon-IsSound now streamer s k = elim (Bool-cases (str_eq s.streamer_id streamer)) [
  | inl o ↦ elim (Bool-cases (is_live s.status)) [
    | inl e ↦ rw (o, e) (end-IsSound now s k)
    | inr e ↦ rw (o, e) tt
  ]
  | inr o ↦ rw o tt
]

record_on-IsSound :
    (video hls : String) (at : ℕ) (s : Stream)
    → IsSound s
    → Writes IsSound (record_on video hls at s)
unfolding record_on attach_recording
record_on-IsSound video hls at s k = elim (Bool-cases (is_ended s.status)) [
  | inl e ↦ rw e k
  | inr e ↦ rw e tt
]

end_orphan-IsSound : (now : ℕ) (s : Stream) → IsSound s → Writes IsSound (end_orphan now s)
unfolding end_orphan
end_orphan-IsSound now s k = elim (Bool-cases (is_created s.status)) [
  | inl e ↦ rw e (end-IsSound now s k)
  | inr e ↦ rw e tt
]

resume-IsSound : (now : ℕ) (s : Stream) → IsSound s → Writes IsSound (resume now s)
unfolding resume
resume-IsSound now s k = elim (Bool-cases (is_live s.status)) [
  | inl e ↦ rw e (heartbeat-IsSound now s k)
  | inr e ↦ rw e (start-IsSound now s k)
]

new-IsSound :
    (now : ℕ) (uid : String) (input : LiveInputResult) (meta : StreamMeta)
    → IsSound (to_row (heartbeat now (stream_of now uid input meta)))
unfolding heartbeat stream_of is_ended
new-IsSound now uid input meta = (inr refl, inl refl)

save-IsSound :
    (s : Stream) (rows after : List Stream)
    → save s rows ≡ some after
    → IsSound (to_row s)
    → All IsSound rows
    → All IsSound after
unfolding save
save-IsSound s rows after e k t = elim (Bool-cases (any (clashes s) rows)) [
  | inl c ↦ absurd (cc (rw c at e))
  | inr c ↦ rw (same (to_row s ∷ rows) after (rw c at e)) (k, t)
]
  where
    same : (xs ys : List Stream) → some xs ≡ some ys → ys ≡ xs
    same xs ys h = cc h

created-IsSound :
    (now : ℕ) (uid : String) (rows : List Stream) (o : Option (List Stream))
    → ((after : List Stream) → o ≡ some after → All IsSound after)
    → All IsSound rows
    → All IsSound (created_or_found now uid rows o).1
unfolding created_or_found
created-IsSound now uid rows (some after) h t = h after refl
created-IsSound now uid rows none h t =
    on_found-All IsSound tt _ (find_by_cloudflare_input_uid uid rows) rows
      (found-Among (λ s. is_uid uid s.cloudflare_input_uid) rows) (heartbeat-IsSound now) t

module _ (provider : Provider) (now : ℕ) (uid : String) (rows : List Stream)
    (t : All IsSound rows) where
  create_by-IsSound :
      (r : Result provider.Failure (LiveInputResult × StreamMeta))
      → All IsSound (create_by provider now uid rows r).1
  unfolding create_by
  create_by-IsSound (throws e) = t
  create_by-IsSound (ok (input, meta)) =
      created-IsSound now uid rows _
        (λ after e. save-IsSound _ rows after e (new-IsSound now uid input meta) t) t

  create_if-IsSound :
      (r : Result provider.Failure Bool) → All IsSound (create_if provider now uid rows r).1
  unfolding create_if
  create_if-IsSound (throws e) = t
  create_if-IsSound (ok false) = t
  create_if-IsSound (ok true) = create_by-IsSound (provider.details uid)

  resume_or_create-IsSound :
      (r : Result QueryError (Option Stream))
      → ((s : Stream) → r ≡ ok (some s) → Among s rows)
      → All IsSound (resume_or_create provider now uid rows r).1
  unfolding resume_or_create
  resume_or_create-IsSound (throws q) m = t
  resume_or_create-IsSound (ok none) m = create_if-IsSound (provider.connected uid)
  resume_or_create-IsSound (ok (some s)) m =
      written-All IsSound (resume now s) rows
        (resume-IsSound now s (Among-All IsSound rows s t (m s refl))) t

  starts-IsSound : (b : Bool) → All IsSound (start_stream_by_live_input provider now b uid rows).1
  unfolding start_stream_by_live_input
  starts-IsSound true = t
  starts-IsSound false =
      resume_or_create-IsSound (find_by_cloudflare_input_uid uid rows)
        (found-Among (λ s. is_uid uid s.cloudflare_input_uid) rows)

  disconnects-IsSound : All IsSound (end_stream_by_live_input now uid rows).1
  unfolding end_stream_by_live_input
  disconnects-IsSound =
      on_found-All IsSound tt _ _ rows (found-Among (λ s. is_uid uid s.cloudflare_input_uid) rows)
        (end_live-IsSound now) t

  end_if-IsSound :
      (r : Result provider.Failure Bool) → All IsSound (end_if provider now uid rows r).1
  unfolding end_if
  end_if-IsSound (throws e) = t
  end_if-IsSound (ok true) = t
  end_if-IsSound (ok false) = disconnects-IsSound

perform-IsSound :
    (provider : Provider) (now : ℕ) (call : Call) (rows : List Stream)
    → All IsSound rows
    → All IsSound (perform provider now call rows)
unfolding perform heartbeat_stream end_stream_via_beacon attach_recording_to end_stale_live
    end_stale_created end_stream check_and_end_if_disconnected
perform-IsSound provider now (starts b uid) rows t = starts-IsSound provider now uid rows t b
perform-IsSound provider now (checks uid) rows t =
    end_if-IsSound provider now uid rows t (provider.connected uid)
perform-IsSound provider now (disconnects uid) rows t = disconnects-IsSound provider now uid rows t
perform-IsSound provider now (beats id streamer) rows t =
    on_found-All IsSound false _ _ rows (found-Among (λ s. str_eq s.id id) rows)
      (keep_alive-IsSound now streamer) t
perform-IsSound provider now (beacons id streamer) rows t =
    on_found-All IsSound false _ _ rows (found-Among (λ s. str_eq s.id id) rows)
      (beacon-IsSound now streamer) t
perform-IsSound provider now (records uid video hls at) rows t =
    on_found-All IsSound tt _ _ rows (found-Among (λ s. is_uid uid s.cloudflare_input_uid) rows)
      (record_on-IsSound video hls at) t
perform-IsSound provider now (retires_live key) rows t =
    on_found-All IsSound tt _ _ rows (found-Among (λ s. str_eq s.stream_key key) rows)
      (end_live-IsSound now) t
perform-IsSound provider now (retires_created key) rows t =
    on_found-All IsSound tt _ _ rows (found-Among (λ s. str_eq s.stream_key key) rows)
      (end_orphan-IsSound now) t
perform-IsSound provider now (ends id) rows t =
    on_found-All IsSound tt _ _ rows (found-Among (λ s. str_eq s.id id) rows) (end-IsSound now) t

-- Whatever webhooks, polls, heartbeats, beacons, recordings, clean-ups and moderators come, in
-- whatever order and however the provider answers: each live stream has a heartbeat, and each ended
-- one the moment of its end.
pub run-IsSound :
    (provider : Provider) (calls : List (ℕ × Call)) (rows : List Stream)
    → All IsSound rows
    → All IsSound (run provider calls rows)
unfolding run
run-IsSound provider [] rows t = t
run-IsSound provider ((now, call) ∷ calls) rows t =
    run-IsSound provider calls (perform provider now call rows)
      (perform-IsSound provider now call rows t)
