-- ===== src/Tests/Values.antt =====
-- The laws of the domain at concrete drafts, whispers and states.
use secretmediabot.Base.{pos, negsuc, ◌≡◌, ◌<◌, ◌↔◌, refl, inl, some, none, true}
use secretmediabot.Domain.Status.{
  active, opening, opened, published, pending, can_transition_status, awaiting_media,
  ingesting_media, can_transition_draft,
}
use secretmediabot.Domain.Lifecycle.{
  ◌⟶◌, ◌⟶*◌, can_transition_status_iff, ⟶*-IsTerminal, ◌⇒◌, can_transition_draft_iff, PublishPath,
  published_final,
}
use secretmediabot.Domain.Content.{ContentReference, PayloadKind, validate_content}
use secretmediabot.Domain.Draft.{
  Draft, NewDraftParams, draft_of, new_draft, checked_draft, validate_draft, is_active_draft,
}
use secretmediabot.Domain.Draft.Laws as Drafts
use secretmediabot.Domain.Whisper.{
  Whisper, NewWhisperParams, whisper_of, new_whisper, checked_whisper, validate_state,
  validate_whisper,
}
use secretmediabot.Domain.Whisper.Laws as Whispers
use secretmediabot.Tests.Samples.{hash}

abbrev draft_params : NewDraftParams
draft_params = record {
  id = 2;
  compose_token_hash = hash;
  sender_id = pos 10;
  recipient_id = pos 20;
  source_chat_id = negsuc 99;
  source_thread_id = none;
  source_reply_message_id = none;
  source_command_message_id = none;
  created_at = 10;
  expires_at = 1000;
}

abbrev sample_draft : Draft
sample_draft = draft_of 2 10 1000 draft_params

validate_draft_iff_example : (validate_draft sample_draft ≡ none) ↔ Drafts.IsValid sample_draft
validate_draft_iff_example = Drafts.validate_draft_iff sample_draft

draft-made : new_draft 5 9 draft_params ≡ inl sample_draft
unfolding new_draft validate_draft checked_draft
draft-made = refl

new_draft-IsValid_example :
    Drafts.IsValid sample_draft
    × (sample_draft.state ≡ awaiting_media)
    × ((is_active_draft sample_draft 500 ≡ true) ↔ (500 < 1000))
new_draft-IsValid_example = Drafts.new_draft-IsValid 5 9 draft_params sample_draft 500 draft-made

abbrev text_reference : ContentReference
text_reference = record {
  kind = PayloadKind.text;
  text_blob_id = some 5;
  media = none;
  caption_blob_id = none;
}

abbrev whisper_params : NewWhisperParams
whisper_params = record {
  id = 1;
  draft_id = 2;
  open_token_hash = hash;
  sender_id = pos 10;
  recipient_id = pos 20;
  source_chat_id = negsuc 99;
  source_thread_id = none;
  content = text_reference;
  one_time = none;
  protect_content = none;
  created_at = 10;
  expires_at = 1000;
  content_retain_until = none;
  metadata_retain_until = none;
}

abbrev sample_whisper : Whisper
sample_whisper = whisper_of 1 10 1000 whisper_params

validate_whisper_iff_example :
    (validate_whisper sample_whisper ≡ none) ↔ Whispers.IsValid sample_whisper
validate_whisper_iff_example = Whispers.validate_whisper_iff sample_whisper

whisper-made : new_whisper 5 9 whisper_params ≡ inl sample_whisper
unfolding new_whisper validate_whisper validate_content checked_whisper validate_state
whisper-made = refl

new_whisper-IsValid_example :
    Whispers.IsValid sample_whisper
    × (sample_whisper.status ≡ active)
    × (sample_whisper.publish_state ≡ pending)
    × (sample_whisper.next_publish_attempt_at ≡ sample_whisper.created_at)
new_whisper-IsValid_example =
    Whispers.new_whisper-IsValid 5 9 whisper_params sample_whisper whisper-made

can_transition_status_iff_example :
    (can_transition_status active opening ≡ true) ↔ (active ⟶ opening)
can_transition_status_iff_example = can_transition_status_iff active opening

terminal_example : opened ≡ opened
terminal_example = ⟶*-IsTerminal ◌⟶*◌.here (inl refl)

can_transition_draft_iff_example :
    (can_transition_draft awaiting_media ingesting_media ≡ true)
    ↔ (awaiting_media ⇒ ingesting_media)
can_transition_draft_iff_example = can_transition_draft_iff awaiting_media ingesting_media

published_final_example : published ≡ published
published_final_example = published_final PublishPath.here refl
