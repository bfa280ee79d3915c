-- ===== src/Tests/Data.antt =====
-- Test data: a service on the in-memory stores, in which Alice wrote to Bob.
use jiffy_messaging.Base.{
  ℕ, ◌+◌, ◌≡◌, refl, ap, String, Bool, true, none, some, List, [], ◌∷◌, arith,
}
use jiffy_messaging.Exec.{pure}
use jiffy_messaging.Ports.{TokenVerifier, NewMessage}
use jiffy_messaging.Domain.{Message, Conversation}
use jiffy_messaging.Core.{MessagingService}
use jiffy_messaging.InMemory.{Memory, fresh_participant, tombstone}
use jiffy_messaging.Embedded.{in_memory_messaging}

-- Ids that never repeat: x, xx, xxx and so on.
unfoldable pub uuid : ℕ → String
uuid ℕ.zero = "x"
uuid (ℕ.suc n) = String.◌∷◌ "x" (uuid n)

unfoldable pub width : String → ℕ
width String.[] = 0
width (String.◌∷◌ c s) = width s + 1

pub width-uuid : (n : ℕ) → width (uuid n) ≡ n + 1
unfolding uuid width
width-uuid ℕ.zero = refl
width-uuid (ℕ.suc n) = ground (arith, width-uuid n)

pub uuid-injective : (i j : ℕ) → uuid i ≡ uuid j → i ≡ j
uuid-injective i j h = ground (arith, width-uuid i, width-uuid j, ap width h)

abbrev pub open_verifier : TokenVerifier Memory
open_verifier = record { verify = λ token. pure (record { user_id = token; expires_at = none }) }

abbrev pub everyone : String → List String → Bool
everyone requester ids = true

abbrev pub service : MessagingService Memory
service = in_memory_messaging uuid open_verifier everyone

abbrev pub chat : Conversation
chat = record {
  id = "x";
  participants = fresh_participant "alice" ∷ fresh_participant "bob" ∷ [];
  created_at = 5;
  last_message = none;
}

abbrev pub greeting : Message
greeting = record {
  id = "xx";
  conversation_id = "x";
  sender_id = "alice";
  body = "hello";
  created_at = 6;
  deleted_at = none;
}

abbrev pub memory : Memory
memory = record {
  conversations = record { entries = ("x", chat) ∷ [] };
  messages = greeting ∷ [];
  clock = 7;
  drawn = 2;
}

abbrev pub reply_input : NewMessage
reply_input = record { conversation_id = "x"; sender_id = "bob"; body = "hi" }

abbrev pub reply : Message
reply = record {
  id = "xxx";
  conversation_id = "x";
  sender_id = "bob";
  body = "hi";
  created_at = 7;
  deleted_at = none;
}

abbrev pub replied : Memory
replied = record memory { messages = greeting ∷ reply ∷ []; drawn = 3 }

abbrev pub tombstone_xx : Message
tombstone_xx = tombstone 7 greeting

abbrev pub deleted : Memory
deleted = record memory { messages = tombstone_xx ∷ [] }

-- Alice deleted the conversation for herself.
abbrev pub cleared_chat : Conversation
cleared_chat = record chat {
  participants =
      record { user_id = "alice"; last_read_at = none; cleared_at = some 7 }
      ∷ fresh_participant "bob"
      ∷ [];
}

abbrev pub cleared : Memory
cleared = record memory { conversations = record { entries = ("x", cleared_chat) ∷ [] } }
