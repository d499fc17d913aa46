-- ===== src/Tests/Streams.antt =====
-- Streams at concrete inputs.
use chiliztv_com.Base.{
  true, Result, ok, ◌∙◌, ap, sym, eq_iff, ℕ, false, none, some, List, [], ◌∷◌, ◌≡◌, ◌≢◌, refl, inl,
  inr, String, All, Among, throws,
}
use chiliztv_com.Streams.Entity.{LiveInputResult, Stream, live, ended, browser}
use chiliztv_com.Streams.Lifecycle.{StreamMeta, Provider}
use chiliztv_com.Streams.Lifecycle.Sound.{IsSound}
use chiliztv_com.Streams.Lifecycle.Histories.{
  Call, starts, beacons, disconnects, records, beats, ends, run,
}
use chiliztv_com.Streams.Lifecycle.Finality.{EndedAt, IsNamedBy, run-EndedAt}

abbrev show : Stream
show = record {
  id = "s1";
  match_id = 7;
  streamer_id = "u1";
  streamer_name = "ana";
  streamer_wallet_address = none;
  stream_key = "k1";
  hls_url = none;
  title = none;
  thumbnail_url = none;
  status = live;
  source_type = browser;
  last_heartbeat_at = some 10;
  viewer_count = 0;
  ended_at = none;
  created_at = 5;
  cloudflare_input_uid = some "c1";
  cloudflare_rtmps_url = none;
  cloudflare_rtmps_stream_key = none;
  cloudflare_playback_hls_url = none;
  cloudflare_web_rtc_publish_url = none;
  recording_video_uid = none;
  recording_hls_url = none;
  recording_ready_at = none;
}

abbrev over : Stream
over = record show { status = ended; ended_at = some 30 }

-- A provider that does not answer.
abbrev provider : Provider
provider = record {
  Failure = String;
  connected = λ uid. throws "timeout";
  details = λ uid. throws "timeout";
}

abbrev calls : List (ℕ × Call)
calls = (20, beats "s1" "u1") ∷ (30, beacons "s1" "u1") ∷ (40, starts false "c1") ∷ []

show-IsSound : IsSound show
unfolding chiliztv_com.Streams.Entity.is_ended
show-IsSound = (inr refl, inl refl)

abbrev late_calls : List (ℕ × Call)
late_calls =
    (35, starts false "c2")
    ∷ (40, disconnects "c1")
    ∷ (50, records "c1" "v1" "hls" 45)
    ∷ (60, ends "s1")
    ∷ []

over-EndedAt : EndedAt "s1" "c1" 30 over
unfolding chiliztv_com.Streams.Entity.is_ended
over-EndedAt = inr (refl, refl, refl)

-- A provider whose live inputs are those of the stream s2.
abbrev second : Provider
second = record {
  Failure = String;
  connected = λ uid. ok true;
  details = λ uid. ok (
    record {
      uid = uid;
      rtmps_url = "rtmps";
      rtmps_stream_key = "k2";
      playback_hls_url = "hls";
      web_rtc_publish_url = "rtc";
    },
    record {
      stream_id = "s2";
      streamer_id = "u2";
      streamer_name = "bea";
      match_id = 8;
      streamer_wallet_address = none;
      source_type = browser;
      title = none;
    },
  );
}

-- The name of the stream that an answer holds.
abbrev named_in : Result String (LiveInputResult × StreamMeta) → String
named_in (throws e) = ""
named_in (ok (input, meta)) = meta.stream_id

second-IsNamedBy : IsNamedBy second "s1" "c1"
second-IsNamedBy u input meta other e same = cc ((eq_iff "s2" "s1").1 (ap named_in e ∙ same))

run-EndedAt_example : All (EndedAt "s1" "c1" 30) (run second late_calls (over ∷ []))
run-EndedAt_example =
    run-EndedAt "s1" "c1" 30 second late_calls (over ∷ []) second-IsNamedBy
      (refl, (refl, (refl, (refl, tt)))) (over-EndedAt, tt)

stranger : (s : Stream) → Among s (show ∷ []) → s.id ≡ "s1" → s.streamer_id ≢ "u2"
stranger s (inl e) i o = cc ((eq_iff "u1" "u2").1 (sym (ap (λ (x : Stream). x.streamer_id) e) ∙ o))
stranger s (inr m) i o = absurd m
