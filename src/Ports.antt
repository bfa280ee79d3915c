-- ===== src/Ports.antt =====
-- src/ports: what the core asks of storage, delivery and the host, as records of methods over one
-- shared state `S`, which is whatever the adapters keep.
pub mod Listing
use jiffy_messaging.Base.{ℕ, String, Bool, Option, none, List}
use jiffy_messaging.Exec.{Exec}
use jiffy_messaging.Domain.{Instant, Message, Conversation}

pub record ConversationStore (S : Type 0) : Type 0 where
  pub create : List String → Exec S Conversation
  pub find_by_id : String → Exec S (Option Conversation)
  pub find_by_participant : String → Exec S (List Conversation)
  pub mark_read : String → String → Instant → Exec S (Unit {0})
  pub clear : String → String → Instant → Exec S (Unit {0})

pub record NewMessage : Type 0 where
  pub conversation_id : String
  pub sender_id : String
  pub body : String

-- A limit is a natural number here; the HTTP layer lets no other through.
pub record ListMessagesOptions : Type 0 where
  pub limit : Option ℕ
  pub before : Option Instant
  pub after : Option Instant

abbrev pub no_options : ListMessagesOptions
no_options = record { limit = none; before = none; after = none }

pub record MessageStore (S : Type 0) : Type 0 where
  pub create : NewMessage → Exec S Message
  pub find_by_id : String → Exec S (Option Message)
  pub list_by_conversation : String → ListMessagesOptions → Exec S (List Message)
  pub soft_delete : String → Instant → Exec S Message

-- The half of the port that the core calls; `onMessage` is the WebSocket layer's.
pub record MessageBus (S : Type 0) : Type 0 where
  pub publish : Message → Exec S (Unit {0})

pub record ConversationGate (S : Type 0) : Type 0 where
  pub can_create_conversation : String → List String → Exec S Bool

pub record MessageNotifier (S : Type 0) : Type 0 where
  pub notify : Message → List String → Exec S (Unit {0})

pub record VerifiedIdentity : Type 0 where
  pub user_id : String
  pub expires_at : Option Instant

pub record TokenVerifier (S : Type 0) : Type 0 where
  pub verify : String → Exec S VerifiedIdentity
