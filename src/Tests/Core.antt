-- ===== src/Tests/Core.antt =====
-- Instances of the theorems on src/core/messaging-service.ts.
use jiffy_messaging.Base.{◌≡◌, refl, none, some, [], ◌∷◌, All, find}
use jiffy_messaging.Errors.{not_a_participant, other}
use jiffy_messaging.Exec.{ok, err, throw, detached}
use jiffy_messaging.Ports.{no_options, MessageBus, MessageNotifier}
use jiffy_messaging.Domain.{
  Message, Conversation, ConversationParticipant, is_user, is_participant, participant_of,
}
use jiffy_messaging.JsMap
use jiffy_messaging.JsMap.{lookup}
use jiffy_messaging.InMemory
use jiffy_messaging.InMemory.{Memory}
use jiffy_messaging.InMemory.Listing.{message_store-ListsInOrder}
use jiffy_messaging.Ports.Listing.{IsOldestFirst}
use jiffy_messaging.Text
use jiffy_messaging.Text.{is_blank}
use jiffy_messaging.Core.{
  get_conversation, send_message, send_in, delete_message, delete_found, list_messages,
  list_conversations, preview, all_of, require_participant, cleared_at_of,
}
use jiffy_messaging.Core.Access.{outsider-refused}
use jiffy_messaging.Core.BestEffort.{delivery-irrelevant}
use jiffy_messaging.Core.Sending.{Sent, send_message-ok_iff}
use jiffy_messaging.Core.Deleting.{Deleted, delete_message-ok_iff}
use jiffy_messaging.Core.Reading.{
  IsFresh, IsShownTo, list_messages-IsShown, list_conversations-IsFresh,
}
use jiffy_messaging.Tests.Data.{
  uuid, service, chat, cleared_chat, memory, greeting, reply_input, reply, replied, tombstone_xx,
  deleted, cleared,
}

found_chat : service.conversations.find_by_id "x" memory ≡ (ok (some chat), memory)
unfolding InMemory.find_conversation JsMap.get lookup
found_chat = refl

found_none : service.conversations.find_by_id "y" memory ≡ (ok none, memory)
unfolding InMemory.find_conversation JsMap.get lookup
found_none = refl

outsider-refused_example :
    get_conversation service "x" "eve" memory ≡ (err (not_a_participant "x" "eve"), memory)
unfolding is_participant Text.is_white_space is_blank
outsider-refused_example =
    (outsider-refused service chat "x" "eve" "xx" "hi" no_options 9 memory memory found_chat refl
      refl).0

sent_reply : send_message service reply_input memory ≡ (ok reply, replied)
unfolding send_message send_in require_participant detached is_participant
    InMemory.find_conversation JsMap.get lookup InMemory.create_message Text.is_white_space
    Text.trim Text.trim_start Text.trim_end Text.is_empty uuid
sent_reply = refl

send_message-ok_iff_example : Sent service reply_input memory reply replied
send_message-ok_iff_example =
    (send_message-ok_iff service reply_input memory reply replied).0 sent_reply

deleted_greeting : delete_message service "x" "xx" "alice" memory ≡ (ok tombstone_xx, deleted)
unfolding delete_message delete_found require_participant detached is_participant
    InMemory.find_conversation JsMap.get lookup InMemory.find_message InMemory.soft_delete
deleted_greeting = refl

delete_message-ok_iff_example : Deleted service "x" "xx" "alice" memory tombstone_xx deleted
delete_message-ok_iff_example =
    (delete_message-ok_iff service "x" "xx" "alice" memory tombstone_xx deleted).0 deleted_greeting

abbrev failing_bus : MessageBus Memory
failing_bus = record { publish = λ m. throw (other "connection lost") }

abbrev failing_notifier : MessageNotifier Memory
failing_notifier = record { notify = λ m ids. throw (other "connection lost") }

delivery-irrelevant_example :
    (send_message
      (record service { message_bus = failing_bus; notifier = failing_notifier })
      reply_input
      memory).0
    ≡ (send_message service reply_input memory).0
delivery-irrelevant_example =
    (delivery-irrelevant service failing_bus failing_notifier reply_input "x" "xx" "alice" memory).0

-- Bob wrote after Alice had deleted the conversation for herself.
abbrev late_reply : Message
late_reply = record reply { created_at = 9 }

abbrev written_to : Memory
written_to = record cleared { messages = greeting ∷ late_reply ∷ [] }

abbrev reappeared : Conversation
reappeared = record cleared_chat { last_message = some (some late_reply) }

thread_for_alice :
    list_messages service "x" "alice" no_options written_to ≡ (ok (late_reply ∷ []), written_to)
unfolding list_messages require_participant is_participant InMemory.find_conversation JsMap.get
    lookup InMemory.list_by_conversation InMemory.select_messages InMemory.sort_by_created_at
    InMemory.insert_by_created_at cleared_at_of participant_of
thread_for_alice = refl

list_messages-IsShown_example :
    (c : Conversation) × (p : ConversationParticipant) × (looked_up : Memory)
    × (service.conversations.find_by_id "x" written_to ≡ (ok (some c), looked_up))
    × (find (is_user "alice") c.participants ≡ some p)
    × All (IsShownTo "x" no_options p) (late_reply ∷ [])
    × IsOldestFirst (late_reply ∷ [])
list_messages-IsShown_example =
    list_messages-IsShown service (message_store-ListsInOrder uuid) "x" "alice" no_options
      written_to written_to (late_reply ∷ []) thread_for_alice

listed_for_alice :
    list_conversations service "alice" written_to ≡ (ok (reappeared ∷ []), written_to)
unfolding list_conversations all_of preview is_participant InMemory.find_by_participant JsMap.values
    InMemory.list_by_conversation InMemory.select_messages InMemory.sort_by_created_at
    InMemory.insert_by_created_at InMemory.slice_last cleared_at_of participant_of
listed_for_alice = refl

list_conversations-IsFresh_example : All (IsFresh "alice") (reappeared ∷ [])
list_conversations-IsFresh_example =
    list_conversations-IsFresh service (message_store-ListsInOrder uuid) "alice" written_to
      written_to (reappeared ∷ []) listed_for_alice
