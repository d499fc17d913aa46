-- ===== src/Tests/Reversal.antt =====
-- The reversal of actions at concrete inputs.
use chiliztv_com.Base.{true, some, none, [], ◌∷◌, ◌≡◌, refl, codes, inl, inr}
use chiliztv_com.Moderation.Reports.{message}
use chiliztv_com.Moderation.Actions.{
  soft_delete_message, ReportAction, MessageRow, soft_delete_message_row,
}
use chiliztv_com.Moderation.Reversal.{Docket, reverse_action}
use chiliztv_com.Moderation.Reversal.Undone.{Untouched, reverse_action_restores}
use chiliztv_com.Tests.Reports.{two_reporters}

abbrev removal : ReportAction
removal = record {
  id = "a1";
  kind = soft_delete_message;
  target_type = message;
  target_id = codes "m1";
  live_context_match_id = some 7;
  quorum_snapshot = two_reporters;
  reporter_wallets = [];
  triggered_at = 5;
  reversed_at = none;
  reversed_by_wallet = none;
  reverse_note = none;
  affected_message_id = some (codes "m1");
  affected_stream_id = none;
  affected_ban_id = none;
}

abbrev greeting : MessageRow
greeting = record { id = codes "m1"; match_id = 7; removed_at = none; removed_by_action_id = none }

abbrev docket : Docket
docket = record { actions = removal ∷ []; messages = greeting ∷ []; audited_ids = [] }

greeting-Untouched : Untouched (codes "m1") "a1" (greeting ∷ [])
greeting-Untouched row (inl e) t = rw e (refl, (λ _. refl))
greeting-Untouched row (inr m) t = absurd m

reverse_action_restores_example :
    (reverse_action true (codes "0xA") "a1" none 9 (record docket {
      messages = soft_delete_message_row (codes "m1") "a1" 6 docket.messages;
    })).1.messages
    ≡ docket.messages
reverse_action_restores_example =
    reverse_action_restores true (codes "0xA") "a1" none 9 6 b'm' (codes "1") removal [] docket refl
      refl refl greeting-Untouched
