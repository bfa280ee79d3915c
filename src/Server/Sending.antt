-- ===== src/Server/Sending.antt =====
-- What `sendMessage` puts on the sockets in the server of src/server/create-server.ts, where messages
-- are delivered in the process.
use jiffy_messaging.Base.{
  ◌≡◌, refl, sym, ap, subst, ◌∙◌, String, Bool, Option, none, some, List, inl, inr, Bool-cases,
  Option-cases,
}
use jiffy_messaging.Text.{is_empty, trim}
use jiffy_messaging.Exec.{Result, ok, err, pure, detached, ◌>>=◌, ◌>>◌}
use jiffy_messaging.Exec.Laws.{continue_cases}
use jiffy_messaging.Domain.{Instant, Message, Conversation, is_participant}
use jiffy_messaging.Ports.{ConversationGate, MessageNotifier}
use jiffy_messaging.Server.Frames.{IsOnSockets, publish-IsOnSockets}
use jiffy_messaging.Core.Sending.{Sent}
use jiffy_messaging.Core.{
  SendMessageInput, send_message, send_in, require_participant, user_ids, MessagingService,
}
use jiffy_messaging.Websocket.Registry.{Socket}
use jiffy_messaging.Server.{
  Live, Process, CreateServerConfig, gate_or_default, notifier_or_default, messaging,
}

pub gate_or_default-live :
    {S : Type 0} (o : Option (ConversationGate S)) (requester : String) (ids : List String)
    (p : Process S)
    → ((gate_or_default o).can_create_conversation requester ids p).1.live ≡ p.live
gate_or_default-live none requester ids p = refl
gate_or_default-live (some gate) requester ids p = refl

notifier_or_default-live :
    {S : Type 0} (o : Option (MessageNotifier S)) (message : Message) (ids : List String)
    (p : Process S)
    → ((notifier_or_default o).notify message ids p).1.live ≡ p.live
notifier_or_default-live none message ids p = refl
notifier_or_default-live (some notifier) message ids p = refl

module _ {S : Type 0} (config : CreateServerConfig S) (is_open : Socket → Bool) where
  -- A send that fails has put nothing on the sockets.
  abbrev pub Outcome : Live → Result Message × Process S → Type 0
  Outcome before (ok message, p) = Unit
  Outcome before (err e, p) = p.live ≡ before

  module _ (now : S → Instant) where
    abbrev pub service : MessagingService (Process S)
    service = messaging config is_open now

    stored-Outcome :
        (input : SendMessageInput) (ids : List String) (before : Live) (p : Process S)
        → p.live ≡ before
        → Outcome before (
            (do
              message ← service.messages.create input
              detached (service.message_bus.publish message)
              detached (service.notifier.notify message ids)
              pure message)
              p)
    unfolding messaging detached
    stored-Outcome input ids before p same =
        continue_cases (Outcome before) _ (service.messages.create input p).0
          (service.messages.create input p).1 (λ message e. tt) (λ e h. same)

    send_in-Outcome :
        (input : SendMessageInput) (c : Conversation) (before : Live) (p : Process S)
        → p.live ≡ before
        → Outcome before (send_in service input c p)
    unfolding send_in messaging
    send_in-Outcome input c before p same =
        let asked = service.gate.can_create_conversation input.sender_id (user_ids c) p in
        let kept : asked.1.live ≡ before =
          gate_or_default-live config.conversation_gate input.sender_id (user_ids c) p ∙ same in
        continue_cases (Outcome before) _ asked.0 asked.1
          (λ allowed e. elim (Bool-cases allowed) [
            | inl said_yes ↦
                rw said_yes
                  (stored-Outcome (record input { conversation_id = c.id }) _ before asked.1 kept)
            | inr said_no ↦ rw said_no kept
          ])
          (λ e h. kept)

    require_participant-live :
        (id user_id : String) (p : Process S)
        → (require_participant service id user_id p).1.live ≡ p.live
    unfolding require_participant messaging
    require_participant-live id user_id p =
        continue_cases (λ q. q.1.live ≡ p.live) _ (service.conversations.find_by_id id p).0
          (service.conversations.find_by_id id p).1
          (λ found e. elim (Option-cases found) [
            | inl missing ↦ rw missing refl
            | inr (c, there) ↦ rw there (elim (Bool-cases (is_participant c user_id)) [
              | inl member ↦ rw member refl
              | inr outsider ↦ rw outsider refl
            ])
          ])
          (λ e h. refl)

    pub send_message-Outcome :
        (input : SendMessageInput) (p : Process S) → Outcome p.live (send_message service input p)
    unfolding send_message
    send_message-Outcome input p = elim (Bool-cases (is_empty (trim input.body))) [
      | inl blank ↦ rw blank refl
      | inr filled ↦ rw filled (
          continue_cases (Outcome p.live) _
            (require_participant service input.conversation_id input.sender_id p).0
            (require_participant service input.conversation_id input.sender_id p).1
            (λ c e.
              send_in-Outcome input c p.live _
                (require_participant-live input.conversation_id input.sender_id p))
            (λ e h. require_participant-live input.conversation_id input.sender_id p))
    ]

    -- The record of a send says what the bus of the process did with the message.
    pub Sent-IsOnSockets :
        (input : SendMessageInput) (p p' : Process S) (message : Message)
        → config.message_bus ≡ none
        → (sent : Sent service input p message p')
        → IsOnSockets config is_open message sent.created.outside p.live p'.live
    unfolding messaging
    Sent-IsOnSockets input p p' message in_process sent =
        let same : sent.created.live ≡ p.live =
          sym (ap (λ q. q.1.live) sent.stored)
          ∙ sym (ap (λ q. q.1.live) sent.allowed)
          ∙ gate_or_default-live config.conversation_gate input.sender_id
              (user_ids sent.conversation) sent.looked_up
          ∙ sym (ap (λ q. q.1.live) sent.found) in
        subst (IsOnSockets config is_open message sent.created.outside p.live)
          (sym (
            ap (λ (q : Process S). q.live) sent.delivered
            ∙ notifier_or_default-live config.message_notifier message _ _))
          (publish-IsOnSockets config is_open message sent.created p.live in_process same)
