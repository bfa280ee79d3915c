-- ===== src/InMemory.antt =====
-- src/adapters/in-memory: both stores, over one record that holds what each object keeps.
-- The stores hand out the objects that they keep; the program only reads those, and serialises
-- them at once, so what is returned is a copy here.
pub mod Listing
pub mod Newest
pub mod Sorting
pub mod Tombstones
use jiffy_messaging.Base.{
  ℕ, ◌+◌, ◌-◌, String, Bool, true, false, Option, none, some, List, [], ◌∷◌, ◌++◌, map, find,
  keep_if, update_first, drop, length, is_some, ltb, leb, ◌==◌, if◌then◌else◌,
}
use Prim.Native.String
use jiffy_messaging.Errors.{other}
use jiffy_messaging.Exec.{Exec, pure, throw, ok, err}
use jiffy_messaging.Domain.{
  Instant, Message, ConversationParticipant, Conversation, is_user, is_participant,
}
use jiffy_messaging.Ports.{ConversationStore, MessageStore, NewMessage, ListMessagesOptions}
use jiffy_messaging.JsMap
use jiffy_messaging.JsMap.{JsMap}

-- The fields of the two stores, the reading of the clock, and how many ids were drawn.
pub record Memory : Type 0 where
  pub conversations : JsMap Conversation
  pub messages : List Message
  pub clock : Instant
  pub drawn : ℕ

abbrev pub fresh_participant : String → ConversationParticipant
fresh_participant user_id = record { user_id = user_id; last_read_at = none; cleared_at = none }

-- What `find` and an assignment to the participant that is found do to the conversation.
unfoldable pub set_participant :
    (ConversationParticipant → ConversationParticipant) → String → Conversation → Conversation
set_participant f user_id c = record c {
  participants = update_first (is_user user_id) f c.participants;
}

unfoldable pub in_conversation :
    (ConversationParticipant → ConversationParticipant) → String → String → Exec Memory (Unit {0})
unfolding set_participant
in_conversation f conversation_id user_id s = elim (JsMap.get s.conversations conversation_id) [
  | none ↦ (ok tt, s)
  | some conversation ↦ (
    ok tt,
    record s {
      conversations =
          JsMap.set s.conversations conversation_id (set_participant f user_id conversation);
    },
  )
]

-- `sort` by `createdAt`, which keeps the order of equal instants.
unfoldable pub insert_by_created_at : Message → List Message → List Message
insert_by_created_at m [] = m ∷ []
insert_by_created_at m (n ∷ ns) =
    if leb m.created_at n.created_at then m ∷ n ∷ ns else n ∷ insert_by_created_at m ns

unfoldable pub sort_by_created_at : List Message → List Message
unfolding insert_by_created_at
sort_by_created_at [] = []
sort_by_created_at (m ∷ ms) = insert_by_created_at m (sort_by_created_at ms)

-- `xs.slice(-n)`; at 0 it is `xs.slice(0)`, the whole array.
unfoldable pub slice_last {ℓ} : {A : Type ℓ} → ℕ → List A → List A
slice_last n xs = if leb n 0 then xs else drop (length xs - n) xs

abbrev pub is_before : Option Instant → Message → Bool
is_before none m = true
is_before (some before) m = ltb m.created_at before

abbrev pub is_after : Option Instant → Message → Bool
is_after none m = true
is_after (some after) m = ltb after m.created_at

abbrev pub limited {ℓ} : {A : Type ℓ} → Option ℕ → List A → List A
limited none xs = xs
limited (some n) xs = slice_last n xs

-- The body of `listByConversation` over the array.
unfoldable pub select_messages : String → ListMessagesOptions → List Message → List Message
select_messages conversation_id options messages =
    let found = keep_if (λ m. m.conversation_id == conversation_id) messages in
    let sorted = sort_by_created_at found in
    let before = keep_if (is_before options.before) sorted in
    let after = keep_if (is_after options.after) before in limited options.limit after

abbrev pub tombstone : Instant → Message → Message
tombstone at message = record message { body = ""; deleted_at = some at }

module _ (random_uuid : ℕ → String) where
  abbrev pub new_conversation : List String → Memory → Conversation
  new_conversation participant_ids s = record {
    id = random_uuid s.drawn;
    participants = map fresh_participant participant_ids;
    created_at = s.clock;
    last_message = none;
  }

  unfoldable pub create_conversation : List String → Exec Memory Conversation
  create_conversation participant_ids s = (
    ok (new_conversation participant_ids s),
    record s {
      conversations =
          JsMap.set s.conversations (random_uuid s.drawn) (new_conversation participant_ids s);
      drawn = s.drawn + 1;
    },
  )

  unfoldable pub create_message : NewMessage → Exec Memory Message
  create_message input s =
      let message : Message = record {
        id = random_uuid s.drawn;
        conversation_id = input.conversation_id;
        sender_id = input.sender_id;
        body = input.body;
        created_at = s.clock;
        deleted_at = none;
      } in
      (ok message, record s { messages = s.messages ++ message ∷ []; drawn = s.drawn + 1 })

unfoldable pub find_conversation : String → Exec Memory (Option Conversation)
find_conversation id s = (ok (JsMap.get s.conversations id), s)

unfoldable pub find_by_participant : String → Exec Memory (List Conversation)
find_by_participant user_id s =
    (ok (keep_if (λ c. is_participant c user_id) (JsMap.values s.conversations)), s)

unfoldable pub mark_read : String → String → Instant → Exec Memory (Unit {0})
mark_read conversation_id user_id at =
    in_conversation (λ p. record p { last_read_at = some at }) conversation_id user_id

unfoldable pub clear : String → String → Instant → Exec Memory (Unit {0})
clear conversation_id user_id at =
    in_conversation (λ p. record p { cleared_at = some at }) conversation_id user_id

abbrev pub has_id : String → Message → Bool
has_id id m = m.id == id

unfoldable pub find_message : String → Exec Memory (Option Message)
find_message id s = (ok (find (has_id id) s.messages), s)

unfoldable pub soft_delete : String → Instant → Exec Memory Message
soft_delete id at s = elim (find (has_id id) s.messages) [
  | none ↦ (err (other (String.◌++◌ "Message not found: " id)), s)
  | some message ↦ if is_some message.deleted_at then (ok message, s) else (
    ok (tombstone at message),
    record s { messages = update_first (has_id id) (tombstone at) s.messages },
  )
]

unfoldable pub list_by_conversation : String → ListMessagesOptions → Exec Memory (List Message)
unfolding select_messages
list_by_conversation conversation_id options s =
    (ok (select_messages conversation_id options s.messages), s)

module _ (random_uuid : ℕ → String) where
  abbrev pub conversation_store : ConversationStore Memory
  conversation_store = record {
    create = create_conversation random_uuid;
    find_by_id = find_conversation;
    find_by_participant = find_by_participant;
    mark_read = mark_read;
    clear = clear;
  }

  abbrev pub message_store : MessageStore Memory
  message_store = record {
    create = create_message random_uuid;
    find_by_id = find_message;
    list_by_conversation = list_by_conversation;
    soft_delete = soft_delete;
  }
