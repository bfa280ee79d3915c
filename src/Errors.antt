-- ===== src/Errors.antt =====
-- src/core/errors.ts and the error class of src/adapters/jwt/token-verifier.ts.
use Prim.Native.String
use jiffy_messaging.Base.{String, List, [], ◌∷◌, not, keep_if, ◌==◌}

-- A constructor for each class, with the arguments of the class's constructor; `other` stands for
-- any other `Error`, by its message.
pub data Error : Type 0 where
  conversation_not_found : (conversation_id : String) → Error
  not_a_participant : (conversation_id user_id : String) → Error
  empty_message : Error
  conversation_not_allowed : (requester_id : String) (participant_ids : List String) → Error
  message_not_found : (message_id : String) → Error
  not_message_author : (message_id user_id : String) → Error
  invalid_token : (reason : String) → Error
  other : (text : String) → Error

infixr 65 ◌+s◌
abbrev ◌+s◌ : String → String → String
s +s t = String.◌++◌ s t

-- `xs.join(separator)`
join : String → List String → String
join separator [] = ""
join separator (x ∷ []) = x
join separator (x ∷ y ∷ xs) = x +s separator +s join separator (y ∷ xs)

-- `error.message`
unfoldable pub message_of : Error → String
unfolding join
message_of (conversation_not_found id) = "Conversation not found: " +s id
message_of (not_a_participant id user) =
    "User " +s user +s " is not a participant in conversation " +s id
message_of empty_message = "Message body cannot be empty"
message_of (conversation_not_allowed requester ids) =
    "User "
    +s requester
    +s " is not allowed to be in a conversation with "
    +s join ", " (keep_if (λ id. not (id == requester)) ids)
message_of (message_not_found id) = "Message not found: " +s id
message_of (not_message_author id user) = "User " +s user +s " did not send message " +s id
message_of (invalid_token reason) = "Invalid token: " +s reason
message_of (other text) = text
