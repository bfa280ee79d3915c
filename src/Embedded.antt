-- ===== src/Embedded.antt =====
-- src/embedded.ts, and the service that it makes of the two in-memory stores.
pub mod Calls
pub mod Invariant
pub mod History
pub mod Answers
pub mod Clearing
pub mod Lists
pub mod Deleting
use jiffy_messaging.Base.{ℕ, String, Bool, Option, none, some, List}
use jiffy_messaging.Exec.{Exec, pure}
use jiffy_messaging.Ports.{
  ConversationStore, MessageStore, TokenVerifier, ConversationGate, VerifiedIdentity,
}
use jiffy_messaging.Core.{MessagingService, noop_message_bus, allow_all_gate, noop_message_notifier}
use jiffy_messaging.Domain.{Instant}
use jiffy_messaging.InMemory.{Memory, conversation_store, message_store}

pub record EmbeddedMessagingConfig (S : Type 0) : Type 0 where
  pub conversations : ConversationStore S
  pub messages : MessageStore S
  pub token_verifier : TokenVerifier S
  pub conversation_gate : Option (ConversationGate S)

pub record EmbeddedMessaging (S : Type 0) : Type 0 where
  pub verify_token : String → Exec S VerifiedIdentity
  pub messaging : MessagingService S

-- A default parameter: it stands in for `undefined`.
abbrev pub or_default {ℓ} : {A : Type ℓ} → Option A → A → A
or_default none d = d
or_default (some a) d = a

-- `now` is the runtime's clock, which the source reads where it needs it.
abbrev pub create_embedded_messaging :
    {S : Type 0} → (S → Instant) → EmbeddedMessagingConfig S → EmbeddedMessaging S
create_embedded_messaging now config = record {
  verify_token = config.token_verifier.verify;
  messaging = record {
    conversations = config.conversations;
    messages = config.messages;
    message_bus = noop_message_bus;
    gate = or_default config.conversation_gate allow_all_gate;
    notifier = noop_message_notifier;
    now = now;
  };
}

module _ (random_uuid : ℕ → String) (verifier : TokenVerifier Memory) where
  -- The host's rule answers at once and leaves the stores alone.
  abbrev pub in_memory_config : (String → List String → Bool) → EmbeddedMessagingConfig Memory
  in_memory_config rule = record {
    conversations = conversation_store random_uuid;
    messages = message_store random_uuid;
    token_verifier = verifier;
    conversation_gate =
        some (record { can_create_conversation = λ requester ids. pure (rule requester ids) });
  }

  abbrev pub in_memory_messaging : (String → List String → Bool) → MessagingService Memory
  in_memory_messaging rule =
      (create_embedded_messaging (λ s. s.clock) (in_memory_config rule)).messaging
