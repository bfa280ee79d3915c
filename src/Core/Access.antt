-- ===== src/Core/Access.antt =====
-- Who may do what through the methods of src/core/messaging-service.ts, whatever the ports do.
use jiffy_messaging.Base.{◌≡◌, String, true, false, none, some, arith}
use jiffy_messaging.Errors.{conversation_not_found, not_a_participant}
use jiffy_messaging.Exec.{ok, err}
use jiffy_messaging.Domain.{Instant, Conversation, is_participant}
use jiffy_messaging.Text.{is_blank, is_empty-trim}
use jiffy_messaging.Ports.{ListMessagesOptions}
use jiffy_messaging.Core.{
  MessagingService, require_participant, get_conversation, send_message, list_messages,
  delete_message, delete_conversation, mark_read,
}

module _ {S : Type 0} (service : MessagingService S) where
  -- Nobody outside of a conversation that the store finds reads it, writes to it or changes it:
  -- each method that names the conversation throws the same error, and touches nothing after it
  -- looked the conversation up. For a send this is said of a body that is not blank.
  pub outsider-refused :
      (conversation : Conversation) (cid uid message_id body : String)
      (options : ListMessagesOptions) (at : Instant) (s s' : S)
      → service.conversations.find_by_id cid s ≡ (ok (some conversation), s')
      → is_participant conversation uid ≡ false
      → is_blank body ≡ false
      → (get_conversation service cid uid s ≡ (err (not_a_participant cid uid), s'))
        × (send_message service (record { conversation_id = cid; sender_id = uid; body = body }) s
            ≡ (err (not_a_participant cid uid), s'))
        × (list_messages service cid uid options s ≡ (err (not_a_participant cid uid), s'))
        × (delete_message service cid message_id uid s ≡ (err (not_a_participant cid uid), s'))
        × (delete_conversation service cid uid s ≡ (err (not_a_participant cid uid), s'))
        × (mark_read service cid uid at s ≡ (err (not_a_participant cid uid), s'))
  unfolding get_conversation send_message list_messages delete_message delete_conversation mark_read
      require_participant
  outsider-refused conversation cid uid message_id body options at s s' found outside body_set = (
    ground arith,
    ground (arith, is_empty-trim body),
    ground arith,
    ground arith,
    ground arith,
    ground arith,
  )

  -- Where the store knows no conversation of the id, each method that names one throws the
  -- error that says so, and touches nothing after the look-up. For a send this is said of a
  -- body that is not blank.
  pub missing-reported :
      (cid uid message_id body : String) (options : ListMessagesOptions) (at : Instant) (s s' : S)
      → service.conversations.find_by_id cid s ≡ (ok none, s')
      → is_blank body ≡ false
      → (get_conversation service cid uid s ≡ (err (conversation_not_found cid), s'))
        × (send_message service (record { conversation_id = cid; sender_id = uid; body = body }) s
            ≡ (err (conversation_not_found cid), s'))
        × (list_messages service cid uid options s ≡ (err (conversation_not_found cid), s'))
        × (delete_message service cid message_id uid s ≡ (err (conversation_not_found cid), s'))
        × (delete_conversation service cid uid s ≡ (err (conversation_not_found cid), s'))
        × (mark_read service cid uid at s ≡ (err (conversation_not_found cid), s'))
  unfolding get_conversation send_message list_messages delete_message delete_conversation mark_read
      require_participant
  missing-reported cid uid message_id body options at s s' found body_set = (
    ground arith,
    ground (arith, is_empty-trim body),
    ground arith,
    ground arith,
    ground arith,
    ground arith,
  )

  pub require_participant-eq-ok :
      (cid uid : String) (s : S) {c : Conversation} {s' : S}
      → require_participant service cid uid s ≡ (ok c, s')
      → (service.conversations.find_by_id cid s ≡ (ok (some c), s')) × (is_participant c uid ≡ true)
  unfolding require_participant
  require_participant-eq-ok cid uid s h = ground arith
