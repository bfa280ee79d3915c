-- ===== src/Tests/Embedded.antt =====
-- Instances of the theorems on the service of src/embedded.ts.
use jiffy_messaging.Base.{◌==◌, ◌≡◌, refl, ap, false, String, true, List, [], ◌∷◌, ◌≢◌, inl, arith}
use jiffy_messaging.Exec.{ok, detached}
use jiffy_messaging.Ports.{no_options}
use jiffy_messaging.Domain.{Conversation, is_participant, participant_of}
use jiffy_messaging.JsMap
use jiffy_messaging.JsMap.{lookup, store}
use jiffy_messaging.InMemory
use jiffy_messaging.Text
use jiffy_messaging.Core.{
  create_conversation, send_message, send_in, delete_message, delete_found, delete_conversation,
  list_messages, list_conversations, require_participant, cleared_at_of,
}
use jiffy_messaging.Embedded.Invariant.{IsWellFormed}
use jiffy_messaging.Embedded.History.{
  Rule, Call, creates, sends, passes, step, run, started, run-started-IsWellFormed,
}
use jiffy_messaging.Embedded.Clearing.{
  list_messages-delete_conversation, delete_conversation-private, list_messages-send_message,
}
use jiffy_messaging.Embedded.Lists.{IsListOf, list_conversations-IsListOf}
use jiffy_messaging.Tests.Data.{
  uuid, uuid-injective, open_verifier, everyone, service, chat, memory, greeting, reply_input,
  reply, replied, tombstone_xx, deleted, cleared,
}

abbrev history : List (Rule × Call)
history =
    (everyone, creates "alice" ("alice" ∷ "bob" ∷ []))
    ∷ (everyone, passes 1)
    ∷ (everyone, sends (record { conversation_id = "x"; sender_id = "alice"; body = "hello" }))
    ∷ (everyone, passes 1)
    ∷ []

run-started-IsWellFormed_example :
    IsWellFormed uuid (run uuid open_verifier (started uuid open_verifier 5) history)
run-started-IsWellFormed_example =
    run-started-IsWellFormed uuid open_verifier uuid-injective 5 history

run-history : run uuid open_verifier (started uuid open_verifier 5) history ≡ memory
unfolding run step create_conversation send_message send_in require_participant detached
    is_participant InMemory.find_conversation InMemory.create_conversation JsMap.get JsMap.set
    lookup store InMemory.create_message Text.is_white_space Text.trim Text.trim_start Text.trim_end
    Text.is_empty uuid
run-history = refl

memory-IsWellFormed : IsWellFormed uuid memory
memory-IsWellFormed = rw (← run-history) run-started-IsWellFormed_example

alice_clears : delete_conversation service "x" "alice" memory ≡ (ok tt, cleared)
unfolding delete_conversation require_participant is_participant InMemory.find_conversation
    InMemory.clear InMemory.in_conversation InMemory.set_participant JsMap.get JsMap.set lookup
    store
alice_clears = refl

list_messages-delete_conversation_example :
    list_messages service "x" "alice" no_options cleared ≡ (ok [], cleared)
list_messages-delete_conversation_example =
    list_messages-delete_conversation uuid open_verifier everyone "x" "alice" no_options memory
      cleared memory-IsWellFormed alice_clears

alice-ne-bob : ◌≢◌ {A = String} "alice" "bob"
alice-ne-bob h = let e : false ≡ true = ap (λ s. s == "bob") h in ground arith

delete_conversation-private_example :
    (list_messages service "x" "bob" no_options cleared).0
    ≡ (list_messages service "x" "bob" no_options memory).0
delete_conversation-private_example =
    delete_conversation-private uuid open_verifier everyone "x" "alice" "x" "bob" no_options memory
      cleared alice_clears (inl alice-ne-bob)

sent_reply : send_message service reply_input memory ≡ (ok reply, replied)
unfolding send_message send_in require_participant detached is_participant
    InMemory.find_conversation JsMap.get lookup InMemory.create_message Text.is_white_space
    Text.trim Text.trim_start Text.trim_end Text.is_empty uuid
sent_reply = refl

listed_for_bob : list_messages service "x" "bob" no_options memory ≡ (ok (greeting ∷ []), memory)
unfolding list_messages require_participant is_participant InMemory.find_conversation JsMap.get
    lookup InMemory.list_by_conversation InMemory.select_messages InMemory.sort_by_created_at
    InMemory.insert_by_created_at cleared_at_of participant_of
listed_for_bob = refl

list_messages-send_message_example :
    list_messages service "x" "bob" no_options replied ≡ (ok (greeting ∷ reply ∷ []), replied)
unfolding JsMap.get lookup cleared_at_of participant_of
list_messages-send_message_example =
    list_messages-send_message uuid open_verifier everyone reply_input memory replied reply "bob"
      chat (greeting ∷ []) memory-IsWellFormed sent_reply refl (λ at h. ground arith) listed_for_bob

deleted_greeting : delete_message service "x" "xx" "alice" memory ≡ (ok tombstone_xx, deleted)
unfolding delete_message delete_found require_participant detached is_participant
    InMemory.find_conversation JsMap.get lookup InMemory.find_message InMemory.soft_delete
deleted_greeting = refl

list_conversations-IsListOf_example :
    (cs : List Conversation) × (list_conversations service "bob" memory ≡ (ok cs, memory))
    × IsListOf "bob" memory.messages (JsMap.values memory.conversations) cs
list_conversations-IsListOf_example =
    list_conversations-IsListOf uuid open_verifier everyone "bob" memory
