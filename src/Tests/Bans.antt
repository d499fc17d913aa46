-- ===== src/Tests/Bans.antt =====
-- The policies of moderation and the bans at concrete inputs.
use chiliztv_com.Base.{
  ℕ, suc, ◌+◌, ◌*◌, ◌≤◌, ◌<◌, Bool, true, false, Option, none, some, List, [], ◌∷◌, ◌≡◌, ◌≢◌, refl,
  sym, ◌↔◌, ◌⊎◌, inl, inr, arith, String, Text, codes, to_lower_case, text_eq, Among, All, Result,
  ok, throws, filter, count,
}
use chiliztv_com.Moderation.Policies.{
  ReportConfig, QuorumInput, snapshot, quorum, evaluate_quorum, triggered, below_threshold,
  threshold,
}
use chiliztv_com.Moderation.Bans.{
  save, lift_by_admin, lifted_by_admin, Ban, create, is_active_at, find_active_ban,
}
use chiliztv_com.Moderation.Bans.OneActive.{IsTable}
use chiliztv_com.Moderation.Bans.Enforcement.{find_active_ban_iff}
use chiliztv_com.Moderation.World.{World, Services, ActiveStream, conflict_error, stopped}
use chiliztv_com.Moderation.Banning.{BanAccountInput, ban_account, lift_expired, batch_size, issued}
use chiliztv_com.Moderation.Banning.Issued.{stale_row_blocks}
use chiliztv_com.Moderation.Banning.Cascade.{Owned, ban_account_stops}
use chiliztv_com.Moderation.Banning.Expiry.{is_stale, lift_expired_hygiene, lift_expired_complete}
use chiliztv_com.Moderation.Banning.Safety.{issues, expires, lifts, run, run-IsTable}

abbrev pub config : ReportConfig
config = record {
  quorum_pct = 20;
  floor_count = 2;
  min_presence_sec = 60;
  ban_first_hours = 24;
  ban_second_hours = 168;
  bypass_severity_threshold = 5;
}

abbrev calm : QuorumInput
calm = record {
  distinct_reports = 3;
  total_eligible = 20;
  max_severity = 2;
  config = config;
  now = 7;
}

calm-below : evaluate_quorum calm ≡ below_threshold
unfolding evaluate_quorum threshold
calm-below = refl

abbrev full : QuorumInput
full = record {
  distinct_reports = 4;
  total_eligible = 20;
  max_severity = 2;
  config = config;
  now = 7;
}

full-triggers : evaluate_quorum full ≡ triggered (snapshot quorum (some 20) full)
unfolding evaluate_quorum threshold
full-triggers = refl

full-acts : evaluate_quorum full ≢ below_threshold
full-acts e = cc (full-triggers, e)

abbrev pub wallet : Text
wallet = codes "0xab"

abbrev shouted : Text
shouted = codes "0xAB"

-- A ban that ends at 100.
abbrev ban : Ban
ban = create "b1" (record {
  wallet_address = shouted;
  triggered_by_report_id = none;
  triggering_live_match_id = none;
  quorum_snapshot = snapshot quorum (some 20) full;
  starts_at = 10;
  expires_at = some 100;
  escalation_index = 1;
})

ban-lowered : ban.wallet_address ≡ to_lower_case shouted
ban-lowered = refl

ban-IsTable : IsTable (ban ∷ [])
ban-IsTable = (tt, tt)

find_active_ban_iff_example :
    ((o : Option Ban) × (find_active_ban shouted 50 (ban ∷ []) ≡ ok o))
    × ((find_active_ban shouted 50 (ban ∷ []) ≡ ok (some ban)) ↔ (
        Among ban (ban ∷ [])
        × (ban.wallet_address ≡ to_lower_case shouted)
        × (is_active_at 50 ban ≡ true)))
find_active_ban_iff_example = find_active_ban_iff shouted 50 (ban ∷ []) ban ban-IsTable

abbrev live_stream : ActiveStream
live_stream = record { id = "s1"; streamer_wallet = some shouted }

abbrev pub services : Services
services = record {
  config = ok config;
  deletes = λ w. true;
  active_streams = ok (live_stream ∷ []);
  stops = λ s. true;
  audits = true;
}

abbrev empty_world : World
empty_world = record { bans = []; log = [] }

abbrev banned_world : World
banned_world = record { bans = ban ∷ []; log = [] }

abbrev ban_input : BanAccountInput
ban_input = record {
  wallet_address = shouted;
  quorum_snapshot = snapshot quorum (some 20) full;
  triggered_by_report_id = none;
  triggering_live_match_id = none;
  duration_hours_override = some (some 2);
}

abbrev new_ban : Ban
new_ban = issued "b2" 20 config ban_input []

new_ban-live : is_active_at 7200019 new_ban ≡ true
unfolding is_active_at chiliztv_com.Moderation.Banning.terms_of
new_ban-live = refl

ban_account_stops_example :
    Among (stopped "s1") (ban_account services "b2" 20 ban_input empty_world).1.log
    ↔ (Among (stopped "s1") [] ⊎ Owned services (to_lower_case shouted) (live_stream ∷ []) "s1")
ban_account_stops_example =
    ban_account_stops services config "b2" 20 ban_input empty_world (live_stream ∷ []) "s1" refl tt
      refl refl (λ s m o. refl)

ban-over : is_active_at 100 ban ≡ false
unfolding is_active_at
ban-over = refl

-- The row ended at 100 and binds nobody at 200, and still refuses a ban.
stale_row_blocks_example :
    ban_account services "b2" 200 ban_input banned_world ≡ (throws conflict_error, banned_world)
stale_row_blocks_example =
    stale_row_blocks services config "b2" 200 ban_input banned_world refl ban (inl refl) refl refl

lift_expired_hygiene_example :
    find_active_ban wallet 300 (lift_expired services 200 banned_world).1.bans
    ≡ find_active_ban wallet 300 (ban ∷ [])
lift_expired_hygiene_example =
    lift_expired_hygiene services 200 300 wallet banned_world ban-IsTable (omega arith)

one-stale : count (is_stale 200) (ban ∷ []) ≤ batch_size
one-stale = omega arith

lift_expired_complete_example :
    filter (is_stale 200) (lift_expired services 200 banned_world).1.bans ≡ []
lift_expired_complete_example = lift_expired_complete services 200 banned_world one-stale

run-IsTable_example :
    IsTable
      (run services
        (issues "b2" 20 ban_input ∷ expires 9000000 ∷ lifts "b2" wallet "appeal" 30 ∷ [])
        empty_world).bans
run-IsTable_example =
    run-IsTable services
      (issues "b2" 20 ban_input ∷ expires 9000000 ∷ lifts "b2" wallet "appeal" 30 ∷ []) empty_world
      tt

-- The ban once it is lifted.
abbrev lifted_ban : Ban
lifted_ban = record ban {
  status = lifted_by_admin;
  ended_at = some 30;
  lifted_by_wallet = some (codes "0xad");
  lift_note = some "appeal";
}

ban-saved : save ban [] ≡ ok (ban ∷ [])
unfolding save
ban-saved = refl

ban-lifted : (lift_by_admin "b1" (codes "0xad") "appeal" 30 (ban ∷ [])).0 ≡ some lifted_ban
unfolding lift_by_admin chiliztv_com.Base.lower
ban-lifted = refl
