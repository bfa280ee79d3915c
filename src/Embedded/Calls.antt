-- ===== src/Embedded/Calls.antt =====
-- What each method of the service can do to the in-memory stores.
use jiffy_messaging.Base.{ℕ, ◌≡◌, String, Bool, true, some, List, arith, Option-cases, inl, inr}
use jiffy_messaging.Exec.{detached}
use jiffy_messaging.Ports.{TokenVerifier, NewMessage}
use jiffy_messaging.Domain.{Instant, Conversation, is_participant}
use jiffy_messaging.JsMap
use jiffy_messaging.Core.{
  require_participant, create_conversation, send_message, delete_message, delete_conversation,
  mark_read,
}
use jiffy_messaging.InMemory
use jiffy_messaging.InMemory.{Memory, has_id}
use jiffy_messaging.Embedded.{in_memory_messaging}

module _ (random_uuid : ℕ → String) (verifier : TokenVerifier Memory)
    (rule : String → List String → Bool) (P : Memory → Type 0) (s : Memory) (same : P s) where
  pub create_cases :
      (requester : String) (ids : List String)
      → P (InMemory.create_conversation random_uuid ids s).1
      → P (create_conversation (in_memory_messaging random_uuid verifier rule) requester ids s).1
  unfolding create_conversation
  create_cases requester ids created = ground arith

  pub send_cases :
      (input : NewMessage)
      → ((c : Conversation)
          → JsMap.get s.conversations input.conversation_id ≡ some c
          → is_participant c input.sender_id ≡ true
          → P (InMemory.create_message random_uuid (record input { conversation_id = c.id }) s).1)
      → P (send_message (in_memory_messaging random_uuid verifier rule) input s).1
  unfolding send_message require_participant InMemory.find_conversation detached
  send_cases input sent = elim (Option-cases (JsMap.get s.conversations input.conversation_id)) [
    | inl missing ↦ ground arith
    | inr (c, found) ↦ ground (arith, sent c found)
  ]

  pub delete_message_cases :
      (cid message_id uid : String)
      → P (InMemory.soft_delete message_id s.clock s).1
      → P (delete_message (in_memory_messaging random_uuid verifier rule) cid message_id uid s).1
  unfolding delete_message require_participant InMemory.find_conversation InMemory.find_message
      detached
  delete_message_cases cid message_id uid deleted = ground arith

  pub delete_conversation_cases :
      (cid uid : String)
      → P (InMemory.clear cid uid s.clock s).1
      → P (delete_conversation (in_memory_messaging random_uuid verifier rule) cid uid s).1
  unfolding delete_conversation require_participant InMemory.find_conversation
  delete_conversation_cases cid uid cleared = ground arith

  pub mark_read_cases :
      (cid uid : String) (at : Instant)
      → P (InMemory.mark_read cid uid at s).1
      → P (mark_read (in_memory_messaging random_uuid verifier rule) cid uid at s).1
  unfolding mark_read require_participant InMemory.find_conversation
  mark_read_cases cid uid at marked = ground arith
