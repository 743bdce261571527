-- ===== src/PainSaver/Tests.antt =====
-- The save at a concrete lead, in a table that holds another user's pain of another chat.
use lead_finder.Prelude.{◌≡◌, refl, true, false, none, some, [], ◌∷◌, inr, arith}
use lead_finder.Prelude.Text.{Text, text, text_eq, strip, lstrip_char}
use lead_finder.Json.{Json, Items, Fields, get}
use lead_finder.Models.{Pain}
use lead_finder.PainStore.{PainStore, has_key}
use lead_finder.Qualifier.Prompt.{MessageData, Candidate}
use lead_finder.PainSaver.{
  trim, pain_texts, extract_pain_texts, business_type_of, source_chat_of, save_pains_from_lead,
}
use lead_finder.PainSaver.Saved.{HasSaved, save_pains_from_lead-HasSaved}

abbrev message : MessageData
message = record {
  message_id = 31;
  text = text "no time";
  date = none;
  chat_username = some (text "shop");
  chat_id = 5;
  is_public = true;
  link = none;
  freshness = text "hot";
  age_display = text "today";
}

abbrev lead : Candidate
lead = record {
  user_id = 9;
  username = some (text "anna");
  first_name = none;
  last_name = none;
  bio = none;
  source_chat = text "@shop";
  source_chat_username = none;
  messages_in_chat = 1;
  messages_with_metadata = message ∷ [];
}

-- Two pains share the only message, so the second is skipped.
abbrev answer : Fields
answer =
    Fields.field (text "identified_pains")
      (Json.arr (
        Items.cons (Json.str (text " a ")) (
          Items.cons (Json.obj (Fields.field (text "text") (Json.str (text "b")) Fields.end))
            (Items.cons (Json.bool true) Items.nil))))
      Fields.end

abbrev other : Pain
other = record {
  id = 1;
  user_id = 4;
  program_id = 8;
  text = text "a";
  original_quote = text "no time";
  category = text "other";
  intensity = text "low";
  business_type = none;
  source_chat = text "office";
  source_message_id = 31;
  source_message_link = none;
  source_user_id = none;
  source_username = none;
  message_date = none;
  cluster_id = none;
  used_in_post = false;
}

abbrev table : PainStore
table = record { stored = other ∷ []; pending = []; next_id = 2 }

abbrev shown : Json → Text
shown v = text "?"

texts : extract_pain_texts shown answer ≡ some (text "a" ∷ text "b" ∷ [])
unfolding extract_pain_texts pain_texts get text_eq strip
texts = refl

business : business_type_of shown answer ≡ some none
unfolding business_type_of get text_eq
business = refl

chat : source_chat_of lead ≡ text "shop"
unfolding source_chat_of lstrip_char trim strip
chat = refl

save_pains_from_lead-HasSaved_example :
    HasSaved 2 8 lead table (save_pains_from_lead shown 2 8 lead answer table)
save_pains_from_lead-HasSaved_example =
    save_pains_from_lead-HasSaved shown 2 8 lead answer table texts business
      (inr (rw chat (λ e. ground arith)), tt) (unfold has_key in refl, tt) refl
