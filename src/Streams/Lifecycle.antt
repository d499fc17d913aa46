-- ===== src/Streams/Lifecycle.antt =====
-- apps/backend/src/infrastructure/services/StreamLifecycleService.ts and EndStreamUseCase.ts of
-- application/streams/use-cases, on the rows of SupabaseStreamRepository. A call takes the table and
-- returns the table after it; where a lookup throws, the call throws and writes nothing.
pub mod Sound
pub mod Histories
pub mod Finality
pub mod Ownership
use chiliztv_com.Base.{
  ◌||◌, ℕ, Bool, true, false, not, Option, none, some, List, [], ◌∷◌, filter, any, update_where,
  map, String, str_eq, Text, to_lower_case, Result, ok, throws, if◌then◌else◌,
}
use chiliztv_com.Moderation.Rows.{QueryError, maybe_single}
use chiliztv_com.Streams.Entity.{
  Stream, StreamStatus, SourceType, live, LiveInputResult, is_live, is_ended, is_created, start,
  end, heartbeat, attach_recording,
}

-- `toRow` writes the wallet in lower case.
abbrev lowered : Option Text → Option Text
lowered none = none
lowered (some wallet) = some (to_lower_case wallet)

abbrev pub to_row : Stream → Stream
to_row s = record s { streamer_wallet_address = lowered s.streamer_wallet_address }

abbrev pub is_uid : String → Option String → Bool
is_uid uid none = false
is_uid uid (some other) = str_eq other uid

abbrev pub find_by_cloudflare_input_uid : String → List Stream → Result QueryError (Option Stream)
find_by_cloudflare_input_uid uid rows =
    maybe_single (filter (λ s. is_uid uid s.cloudflare_input_uid) rows)

abbrev pub find_by_id : String → List Stream → Result QueryError (Option Stream)
find_by_id id rows = maybe_single (filter (λ s. str_eq s.id id) rows)

abbrev find_by_stream_key : String → List Stream → Result QueryError (Option Stream)
find_by_stream_key key rows = maybe_single (filter (λ s. str_eq s.stream_key key) rows)

unfoldable pub update : Stream → List Stream → List Stream
update s rows = update_where (λ row. str_eq row.id s.id) (λ row. to_row s) rows

-- The insert violates the primary key, or the index on the uids of the live inputs.
abbrev pub clashes : Stream → Stream → Bool
clashes s row = str_eq s.id row.id || (elim s.cloudflare_input_uid [
  | none ↦ false
  | some uid ↦ is_uid uid row.cloudflare_input_uid
])

unfoldable pub save : Stream → List Stream → Option (List Stream)
save s rows = if any (clashes s) rows then none else some (to_row s ∷ rows)

-- The metadata that is embedded in a live input.
pub record StreamMeta : Type 0 where
  pub stream_id : String
  pub streamer_id : String
  pub streamer_name : String
  pub match_id : ℕ
  pub streamer_wallet_address : Option Text
  pub source_type : SourceType
  pub title : Option String

-- The streaming provider: whether a live input is connected, and its details; either may fail.
pub record Provider : Type 1 where
  pub Failure : Type 0
  pub connected : String → Result Failure Bool
  pub details : String → Result Failure (LiveInputResult × StreamMeta)

-- What a call answers, and the table.
abbrev pub Answer : Type 0 → Type 0
Answer A = Result QueryError A × List Stream

unfoldable pub stream_of : ℕ → String → LiveInputResult → StreamMeta → Stream
stream_of now uid input meta = record {
  id = meta.stream_id;
  match_id = meta.match_id;
  streamer_id = meta.streamer_id;
  streamer_name = meta.streamer_name;
  streamer_wallet_address = meta.streamer_wallet_address;
  stream_key = input.rtmps_stream_key;
  hls_url = some input.playback_hls_url;
  title = meta.title;
  thumbnail_url = none;
  status = live;
  source_type = meta.source_type;
  last_heartbeat_at = none;
  viewer_count = 0;
  ended_at = none;
  created_at = now;
  cloudflare_input_uid = some uid;
  cloudflare_rtmps_url = some input.rtmps_url;
  cloudflare_rtmps_stream_key = some input.rtmps_stream_key;
  cloudflare_playback_hls_url = some input.playback_hls_url;
  cloudflare_web_rtc_publish_url = some input.web_rtc_publish_url;
  recording_video_uid = none;
  recording_hls_url = none;
  recording_ready_at = none;
}

-- A call that finds its stream and then decides on its answer and on what to write.
unfoldable pub written : {A : Type 0} → A × Option Stream → List Stream → Answer A
written (a, none) rows = (ok a, rows)
written (a, some s) rows = (ok a, update s rows)

unfoldable pub on_found :
    {A : Type 0}
    → A
    → (Stream → A × Option Stream)
    → Result QueryError (Option Stream)
    → List Stream
    → Answer A
unfolding written
on_found missing f (throws q) rows = (throws q, rows)
on_found missing f (ok none) rows = (ok missing, rows)
on_found missing f (ok (some s)) rows = written (f s) rows

unfoldable pub end_live : ℕ → Stream → Unit {0} × Option Stream
end_live now s = if is_live s.status then (tt, some (end now s)) else (tt, none)

unfoldable pub end_stream_by_live_input : ℕ → String → List Stream → Answer (Unit {0})
end_stream_by_live_input now uid rows =
    on_found tt (end_live now) (find_by_cloudflare_input_uid uid rows) rows

unfoldable pub keep_alive : ℕ → String → Stream → Bool × Option Stream
keep_alive now streamer s =
    if not (str_eq s.streamer_id streamer)
    then (false, none)
    else if not (is_live s.status)
    then (false, none)
    else (true, some (heartbeat now s))

unfoldable pub heartbeat_stream : ℕ → String → String → List Stream → Answer Bool
heartbeat_stream now id streamer rows =
    on_found false (keep_alive now streamer) (find_by_id id rows) rows

unfoldable pub beacon : ℕ → String → Stream → Bool × Option Stream
beacon now streamer s =
    if not (str_eq s.streamer_id streamer)
    then (false, none)
    else if not (is_live s.status)
    then (true, none)
    else (true, some (end now s))

unfoldable pub end_stream_via_beacon : ℕ → String → String → List Stream → Answer Bool
end_stream_via_beacon now id streamer rows =
    on_found false (beacon now streamer) (find_by_id id rows) rows

unfoldable pub record_on : String → String → ℕ → Stream → Unit {0} × Option Stream
record_on video hls ready_at s =
    if not (is_ended s.status)
    then (tt, none)
    else (tt, some (attach_recording video hls ready_at s))

unfoldable pub attach_recording_to : String → String → String → ℕ → List Stream → Answer (Unit {0})
attach_recording_to uid video hls ready_at rows =
    on_found tt (record_on video hls ready_at) (find_by_cloudflare_input_uid uid rows) rows

unfoldable pub end_stale_live : ℕ → String → List Stream → Answer (Unit {0})
end_stale_live now key rows = on_found tt (end_live now) (find_by_stream_key key rows) rows

unfoldable pub end_orphan : ℕ → Stream → Unit {0} × Option Stream
end_orphan now s = if not (is_created s.status) then (tt, none) else (tt, some (end now s))

unfoldable pub end_stale_created : ℕ → String → List Stream → Answer (Unit {0})
end_stale_created now key rows = on_found tt (end_orphan now) (find_by_stream_key key rows) rows

-- `EndStreamUseCase.execute` with an id, up to the deletion of the live input.
unfoldable pub end_stream : ℕ → String → List Stream → Answer (Unit {0})
end_stream now id rows = on_found tt (λ s. (tt, some (end now s))) (find_by_id id rows) rows

-- The two branches on a stream that is found write alike: `start` does nothing to a live one.
unfoldable pub resume : ℕ → Stream → Unit {0} × Option Stream
resume now s =
    if is_live s.status then (tt, some (heartbeat now s)) else (tt, some (heartbeat now (start s)))

-- After the insert: on a failure the row that won the race gets the heartbeat.
unfoldable pub created_or_found :
    ℕ → String → List Stream → Option (List Stream) → Answer (Unit {0})
created_or_found now uid rows (some after) = (ok tt, after)
created_or_found now uid rows none =
    on_found tt (λ s. (tt, some (heartbeat now s))) (find_by_cloudflare_input_uid uid rows) rows

module _ (provider : Provider) where
  unfoldable pub create_by :
      ℕ
      → String
      → List Stream
      → Result provider.Failure (LiveInputResult × StreamMeta)
      → Answer (Unit {0})
  create_by now uid rows (throws e) = (ok tt, rows)
  create_by now uid rows (ok (input, meta)) =
      created_or_found now uid rows (save (heartbeat now (stream_of now uid input meta)) rows)

  unfoldable pub create_if :
      ℕ → String → List Stream → Result provider.Failure Bool → Answer (Unit {0})
  create_if now uid rows (throws e) = (ok tt, rows)
  create_if now uid rows (ok false) = (ok tt, rows)
  create_if now uid rows (ok true) = create_by now uid rows (provider.details uid)

  unfoldable pub resume_or_create :
      ℕ → String → List Stream → Result QueryError (Option Stream) → Answer (Unit {0})
  resume_or_create now uid rows (throws q) = (throws q, rows)
  resume_or_create now uid rows (ok (some s)) = written (resume now s) rows
  resume_or_create now uid rows (ok none) = create_if now uid rows (provider.connected uid)

  -- `in_flight`: a call on the same live input is under way in this process.
  unfoldable pub start_stream_by_live_input : ℕ → Bool → String → List Stream → Answer (Unit {0})
  start_stream_by_live_input now in_flight uid rows =
      if in_flight
      then (ok tt, rows)
      else resume_or_create now uid rows (find_by_cloudflare_input_uid uid rows)

  unfoldable pub end_if :
      ℕ → String → List Stream → Result provider.Failure Bool → Answer (Unit {0})
  end_if now uid rows (throws e) = (ok tt, rows)
  end_if now uid rows (ok true) = (ok tt, rows)
  end_if now uid rows (ok false) = end_stream_by_live_input now uid rows

  unfoldable pub check_and_end_if_disconnected : ℕ → String → List Stream → Answer (Unit {0})
  check_and_end_if_disconnected now uid rows = end_if now uid rows (provider.connected uid)
