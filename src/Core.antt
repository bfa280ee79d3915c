-- ===== src/Core.antt =====
-- src/core/messaging-service.ts: each method is an action over the state `S` of the ports.
pub mod Access
pub mod BestEffort
pub mod Sending
pub mod Deleting
pub mod Reading
use jiffy_messaging.Base.{
  String, Bool, true, Option, none, some, List, [], ◌∷◌, map, keep_if, head?, is_some, not, ◌||◌,
  ◌==◌, if◌then◌else◌,
}
use jiffy_messaging.Text.{is_empty, trim}
use jiffy_messaging.Errors.{
  conversation_not_found, not_a_participant, empty_message, conversation_not_allowed,
  message_not_found, not_message_author,
}
use jiffy_messaging.Exec.{Result, ok, err, Exec, pure, throw, ◌>>=◌, ◌>>◌, detached}
use jiffy_messaging.Domain.{
  Instant, Message, ConversationParticipant, Conversation, participant_of, is_participant,
}
use jiffy_messaging.Ports.{
  ConversationStore, NewMessage, ListMessagesOptions, no_options, MessageStore, MessageBus,
  ConversationGate, MessageNotifier,
}

-- `SendMessageInput` has the same three properties.
abbrev pub SendMessageInput : Type 0
SendMessageInput = NewMessage

module _ {S : Type 0} where
  abbrev pub noop_message_bus : MessageBus S
  noop_message_bus = record { publish = λ _. pure tt }

  abbrev pub allow_all_gate : ConversationGate S
  allow_all_gate = record { can_create_conversation = λ _ _. pure true }

  abbrev pub noop_message_notifier : MessageNotifier S
  noop_message_notifier = record { notify = λ _ _. pure tt }

-- The constructor's fields, and what `new Date()` reads in a state.
pub record MessagingService (S : Type 0) : Type 0 where
  pub conversations : ConversationStore S
  pub messages : MessageStore S
  pub message_bus : MessageBus S
  pub gate : ConversationGate S
  pub notifier : MessageNotifier S
  pub now : S → Instant

abbrev pub user_ids : Conversation → List String
user_ids conversation = map (λ p. p.user_id) conversation.participants

abbrev cleared_at_of_found : Option ConversationParticipant → Option Instant
cleared_at_of_found none = none
cleared_at_of_found (some p) = p.cleared_at

-- `participantOf(conversation, userId)?.clearedAt ?? null`
unfoldable pub cleared_at_of : Conversation → String → Option Instant
cleared_at_of conversation user_id = cleared_at_of_found (participant_of conversation user_id)

-- `{ ...options, ...(clearedAt ? { after: clearedAt } : {}) }`
abbrev pub with_after : ListMessagesOptions → Option Instant → ListMessagesOptions
with_after options none = options
with_after options (some at) = record options { after = some at }

pub record Preview : Type 0 where
  pub conversation : Conversation
  pub cleared_at : Option Instant
  pub last_message : Option Message

abbrev pub is_listed : Preview → Bool
is_listed p = not (is_some p.cleared_at) || is_some p.last_message

abbrev pub with_last_message : Preview → Conversation
with_last_message p = record p.conversation { last_message = some p.last_message }

combine {ℓ} : {A : Type ℓ} → Result A → Result (List A) → Result (List A)
combine (ok a) (ok as') = ok (a ∷ as')
combine (ok a) (err e) = err e
combine (err e) rest = err e

-- `Promise.all(xs.map(f))`: every call is made, and the first that fails is reported.
unfoldable pub all_of : {S A B : Type 0} → (A → Exec S B) → List A → Exec S (List B)
unfolding combine
all_of f [] s = (ok [], s)
all_of f (x ∷ xs) s = let (r, s') = f x s in let (rs, s'') = all_of f xs s' in (combine r rs, s'')

module _ {S : Type 0} (service : MessagingService S) where
  open service use {conversations, messages, message_bus, gate, notifier, now}

  unfoldable pub require_participant : String → String → Exec S Conversation
  require_participant conversation_id user_id = do
    found ← conversations.find_by_id conversation_id
    elim found [
      | none ↦ throw (conversation_not_found conversation_id)
      | some conversation ↦
          if is_participant conversation user_id
          then pure conversation
          else throw (not_a_participant conversation_id user_id)
    ]

  unfoldable pub create_conversation : String → List String → Exec S Conversation
  create_conversation requester_id participant_ids = do
    allowed ← gate.can_create_conversation requester_id participant_ids
    if allowed
        then conversations.create participant_ids
        else throw (conversation_not_allowed requester_id participant_ids)

  unfoldable pub get_conversation : String → String → Exec S Conversation
  get_conversation conversation_id requester_id = require_participant conversation_id requester_id

  unfoldable pub preview : String → Conversation → Exec S Preview
  preview user_id conversation = do
    let cleared_at = cleared_at_of conversation user_id
    last ←
        messages.list_by_conversation conversation.id
          (with_after (record no_options { limit = some 1 }) cleared_at)
    pure
        (record { conversation = conversation; cleared_at = cleared_at; last_message = head? last })

  unfoldable pub list_conversations : String → Exec S (List Conversation)
  list_conversations user_id = do
    found ← conversations.find_by_participant user_id
    with_previews ← all_of (preview user_id) found
    pure (map with_last_message (keep_if is_listed with_previews))

  -- The rest of `sendMessage`, once the sender is known to be a participant.
  unfoldable pub send_in : SendMessageInput → Conversation → Exec S Message
  send_in input conversation = do
    let participant_ids = user_ids conversation
    allowed ← gate.can_create_conversation input.sender_id participant_ids
    if allowed
        then (do
          message ← messages.create (record input { conversation_id = conversation.id })
          detached (message_bus.publish message)
          detached (
              notifier.notify message (keep_if (λ id. not (id == input.sender_id)) participant_ids))
          pure message)
        else throw (conversation_not_allowed input.sender_id participant_ids)

  unfoldable pub send_message : SendMessageInput → Exec S Message
  unfolding send_in
  send_message input = if is_empty (trim input.body) then throw empty_message else do
    conversation ← require_participant input.conversation_id input.sender_id
    send_in input conversation

  unfoldable pub list_messages : String → String → ListMessagesOptions → Exec S (List Message)
  list_messages conversation_id requester_id options = do
    conversation ← require_participant conversation_id requester_id
    messages.list_by_conversation conversation_id
        (with_after options (cleared_at_of conversation requester_id))

  -- The rest of `deleteMessage`, once the message is looked up.
  unfoldable pub delete_found : String → String → String → Option Message → Exec S Message
  delete_found conversation_id message_id requester_id none = throw (message_not_found message_id)
  delete_found conversation_id message_id requester_id (some message) =
      if not (message.conversation_id == conversation_id)
      then throw (message_not_found message_id)
      else if not (message.sender_id == requester_id)
      then throw (not_message_author message_id requester_id)
      else if is_some message.deleted_at
      then pure message
      else λ s.
          (do
            deleted ← messages.soft_delete message_id (now s)
            detached (message_bus.publish deleted)
            pure deleted)
            s

  unfoldable pub delete_message : String → String → String → Exec S Message
  unfolding delete_found
  delete_message conversation_id message_id requester_id = do
    require_participant conversation_id requester_id
    found ← messages.find_by_id message_id
    delete_found conversation_id message_id requester_id found

  unfoldable pub delete_conversation : String → String → Exec S (Unit {0})
  delete_conversation conversation_id requester_id = do
    require_participant conversation_id requester_id
    λ s. conversations.clear conversation_id requester_id (now s) s

  unfoldable pub mark_read : String → String → Instant → Exec S (Unit {0})
  mark_read conversation_id user_id at = do
    require_participant conversation_id user_id
    conversations.mark_read conversation_id user_id at
