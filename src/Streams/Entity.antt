-- ===== src/Streams/Entity.antt =====
-- packages/domain/src/streams/entities/Stream.ts and policies/wasInterrupted.ts.
use chiliztv_com.Base.{if◌then◌else◌, ℕ, Bool, true, false, Option, some, String, Text, ◌&&◌, not}

pub data StreamStatus : Type 0 where
  created live ended : StreamStatus

pub data SourceType : Type 0 where
  obs browser : SourceType

pub record Stream : Type 0 where
  pub id : String
  pub match_id : ℕ
  pub streamer_id : String
  pub streamer_name : String
  pub streamer_wallet_address : Option Text
  pub stream_key : String
  pub hls_url : Option String
  pub title : Option String
  pub thumbnail_url : Option String
  pub status : StreamStatus
  pub source_type : SourceType
  pub last_heartbeat_at : Option ℕ
  pub viewer_count : ℕ
  pub ended_at : Option ℕ
  pub created_at : ℕ
  pub cloudflare_input_uid : Option String
  pub cloudflare_rtmps_url : Option String
  pub cloudflare_rtmps_stream_key : Option String
  pub cloudflare_playback_hls_url : Option String
  pub cloudflare_web_rtc_publish_url : Option String
  pub recording_video_uid : Option String
  pub recording_hls_url : Option String
  pub recording_ready_at : Option ℕ

-- What the streaming provider returns for a live input.
pub record LiveInputResult : Type 0 where
  pub uid : String
  pub rtmps_url : String
  pub rtmps_stream_key : String
  pub web_rtc_publish_url : String
  pub playback_hls_url : String

unfoldable pub is_live : StreamStatus → Bool
is_live live = true
is_live _ = false

unfoldable pub is_ended : StreamStatus → Bool
is_ended ended = true
is_ended _ = false

unfoldable pub is_created : StreamStatus → Bool
is_created created = true
is_created _ = false

unfoldable pub start : Stream → Stream
unfolding is_live
start s = if is_live s.status then s else record s { status = live }

unfoldable pub end : ℕ → Stream → Stream
unfolding is_ended
end now s = if is_ended s.status then s else record s { status = ended; ended_at = some now }

unfoldable pub heartbeat : ℕ → Stream → Stream
heartbeat now s = record s { last_heartbeat_at = some now }

unfoldable attach_cloudflare_input : LiveInputResult → Stream → Stream
attach_cloudflare_input result s = record s {
  cloudflare_input_uid = some result.uid;
  cloudflare_rtmps_url = some result.rtmps_url;
  cloudflare_rtmps_stream_key = some result.rtmps_stream_key;
  cloudflare_playback_hls_url = some result.playback_hls_url;
  cloudflare_web_rtc_publish_url = some result.web_rtc_publish_url;
  hls_url = some result.playback_hls_url;
}

unfoldable pub attach_recording : String → String → ℕ → Stream → Stream
attach_recording video_uid hls_url ready_at s = record s {
  recording_video_uid = some video_uid;
  recording_hls_url = some hls_url;
  recording_ready_at = some ready_at;
}

unfoldable update_viewer_count : ℕ → Stream → Stream
update_viewer_count count s = record s { viewer_count = count }

abbrev is_browser : SourceType → Bool
is_browser browser = true
is_browser obs = false

unfoldable was_interrupted : StreamStatus → StreamStatus → SourceType → Bool → Bool
unfolding is_live is_ended
was_interrupted previous next source_type user_initiated =
    if not (is_browser source_type)
    then false
    else if user_initiated
    then false
    else is_live previous && is_ended next
