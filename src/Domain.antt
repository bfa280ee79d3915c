-- ===== src/Domain.antt =====
-- src/domain/message.ts and src/domain/conversation.ts.
pub mod Laws
use jiffy_messaging.Base.{
  ℕ, String, Bool, true, not, Option, none, some, List, find, any, keep_if, ltb, is_some, ◌==◌,
}

-- A `Date` that is valid, as the milliseconds since the earliest instant that a `Date` can hold
-- (8.64e15 ms before 1970), so that every such `Date` is a natural number and the order is theirs.
abbrev pub Instant : Type 0
Instant = ℕ

pub record Message : Type 0 where
  pub id : String
  pub conversation_id : String
  pub sender_id : String
  pub body : String
  pub created_at : Instant
  pub deleted_at : Option Instant

unfoldable pub is_deleted : Message → Bool
is_deleted message = is_some message.deleted_at

unfoldable pub is_unread : Message → Option Instant → Bool
is_unread message none = true
is_unread message (some last_read_at) = ltb last_read_at message.created_at

pub record ConversationParticipant : Type 0 where
  pub user_id : String
  pub last_read_at : Option Instant
  pub cleared_at : Option Instant

-- `lastMessage?: Message | null`: `none` is a property that is not there, `some none` is null.
pub record Conversation : Type 0 where
  pub id : String
  pub participants : List ConversationParticipant
  pub created_at : Instant
  pub last_message : Option (Option Message)

abbrev pub is_user : String → ConversationParticipant → Bool
is_user user_id p = p.user_id == user_id

unfoldable pub participant_of : Conversation → String → Option ConversationParticipant
participant_of conversation user_id = find (is_user user_id) conversation.participants

unfoldable pub is_participant : Conversation → String → Bool
is_participant conversation user_id = any (is_user user_id) conversation.participants

unfoldable pub other_participants : Conversation → String → List ConversationParticipant
other_participants conversation user_id =
    keep_if (λ p. not (is_user user_id p)) conversation.participants
