-- ===== src/Core/Sending.antt =====
-- Exactly when `sendMessage` of src/core/messaging-service.ts succeeds, and what it then did.
use jiffy_messaging.Base.{◌≡◌, String, true, false, some, List, arith, not, keep_if, ◌==◌, ◌↔◌}
use jiffy_messaging.Exec.{ok, detached, ◌>>=◌}
use jiffy_messaging.Domain.{Message, Conversation, is_participant}
use jiffy_messaging.Text.{is_blank, is_empty-trim}
use jiffy_messaging.Core.{
  MessagingService, SendMessageInput, require_participant, send_message, send_in, user_ids,
}
use jiffy_messaging.Exec.Laws.{>>=-eq-ok}
use jiffy_messaging.Core.Access.{require_participant-eq-ok}

module _ {S : Type 0} (service : MessagingService S) where
  abbrev pub recipients : Conversation → String → List String
  recipients c sender_id = keep_if (λ id. not (id == sender_id)) (user_ids c)

  -- What a send that returned `message` in the state `s'` went through.
  pub record Sent (input : SendMessageInput) (s : S) (message : Message) (s' : S) : Type 0 where
    pub conversation : Conversation
    pub looked_up : S
    pub asked : S
    pub created : S
    pub not_blank : is_blank input.body ≡ false
    pub found :
        service.conversations.find_by_id input.conversation_id s
        ≡ (ok (some conversation), looked_up)
    pub member : is_participant conversation input.sender_id ≡ true
    pub allowed :
        service.gate.can_create_conversation input.sender_id (user_ids conversation) looked_up
        ≡ (ok true, asked)
    pub stored :
        service.messages.create (record input { conversation_id = conversation.id }) asked
        ≡ (ok message, created)
    pub delivered :
        s'
        ≡ (service.notifier.notify message
            (recipients conversation input.sender_id)
            (service.message_bus.publish message created).1).1

  -- The part of the send after the membership test.
  send_in-Sent :
      (input : SendMessageInput) (c : Conversation) (s s1 : S) (message : Message) (s' : S)
      → is_blank input.body ≡ false
      → service.conversations.find_by_id input.conversation_id s ≡ (ok (some c), s1)
      → is_participant c input.sender_id ≡ true
      → send_in service input c s1 ≡ (ok message, s')
      → Sent input s message s'
  unfolding send_in detached
  send_in-Sent input c s s1 message s' not_blank found member h = record {
    conversation = c;
    looked_up = s1;
    asked = (service.gate.can_create_conversation input.sender_id (user_ids c) s1).1;
    created =
        (service.messages.create (record input { conversation_id = c.id })
          (service.gate.can_create_conversation input.sender_id (user_ids c) s1).1).1;
    not_blank = not_blank;
    found = found;
    member = member;
    allowed = ground arith;
    stored = ground arith;
    delivered = ground arith;
  }

  send_message-Sent :
      (input : SendMessageInput) (s : S) (message : Message) (s' : S)
      → send_message service input s ≡ (ok message, s')
      → Sent input s message s'
  send_message-Sent input s message s' h =
      let (not_blank, rest) = past_blank input s message s' h in
      let (c, s1, required, sent) =
        >>=-eq-ok (require_participant service input.conversation_id input.sender_id)
          (send_in service input) s rest in
      let (found, member) =
        require_participant-eq-ok service input.conversation_id input.sender_id s required in
      send_in-Sent input c s s1 message s' not_blank found member sent
    where
      past_blank :
          (input : SendMessageInput) (s : S) (message : Message) (s' : S)
          → send_message service input s ≡ (ok message, s')
          → (is_blank input.body ≡ false)
            × ((require_participant service input.conversation_id input.sender_id
                    >>= send_in service input)
                  s
                ≡ (ok message, s'))
      past_blank input s message s' h =
          unfold send_message in ground (arith, is_empty-trim input.body)

  Sent-send_message :
      (input : SendMessageInput) (s : S) (message : Message) (s' : S)
      → Sent input s message s'
      → send_message service input s ≡ (ok message, s')
  unfolding send_message detached require_participant
  Sent-send_message input s message s' t = ground (arith, is_empty-trim input.body)

  -- A send succeeds exactly when the body is not blank, the sender is a participant, the gate says
  -- yes for the conversation's participants and the store takes the message; it then has published
  -- what the store returned and notified every participant but the sender of it, in this order.
  pub send_message-ok_iff :
      (input : SendMessageInput) (s : S) (message : Message) (s' : S)
      → (send_message service input s ≡ (ok message, s')) ↔ Sent input s message s'
  send_message-ok_iff input s message s' =
      (send_message-Sent input s message s', Sent-send_message input s message s')
