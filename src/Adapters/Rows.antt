-- ===== src/Adapters/Rows.antt =====
-- src/adapters/postgres/rows.ts, and the limit of src/adapters/postgres/message-store.ts.
pub mod Grouping
use jiffy_messaging.Base.{
  ℕ, ◌≤◌, ◌≡◌, refl, String, Option, none, some, List, [], ◌∷◌, ◌++◌, arith, min, max,
}
use jiffy_messaging.Errors.{other}
use jiffy_messaging.Exec.{Result, ok, err}
use jiffy_messaging.Domain.{Instant, Message, ConversationParticipant, Conversation}
use jiffy_messaging.JsMap
use jiffy_messaging.JsMap.{JsMap}

pub record ConversationParticipantRow : Type 0 where
  pub id : String
  pub created_at : Instant
  pub user_id : String
  pub last_read_at : Option Instant
  pub cleared_at : Option Instant

pub record MessageRow : Type 0 where
  pub id : String
  pub conversation_id : String
  pub sender_id : String
  pub body : String
  pub created_at : Instant
  pub deleted_at : Option Instant

unfoldable pub first_row {ℓ} : {T : Type ℓ} → List T → Result T
first_row [] = err (other "Expected at least one row, got none")
first_row (row ∷ rows) = ok row

unfoldable pub row_to_message : MessageRow → Message
row_to_message row = record {
  id = row.id;
  conversation_id = row.conversation_id;
  sender_id = row.sender_id;
  body = row.body;
  created_at = row.created_at;
  deleted_at = row.deleted_at;
}

abbrev pub row_participant : ConversationParticipantRow → ConversationParticipant
row_participant row = record {
  user_id = row.user_id;
  last_read_at = row.last_read_at;
  cleared_at = row.cleared_at;
}

-- The conversation that the map has for the row, or a new one.
abbrev pub found_or_new : Option Conversation → ConversationParticipantRow → Conversation
found_or_new none row = record {
  id = row.id;
  participants = [];
  created_at = row.created_at;
  last_message = none;
}
found_or_new (some c) row = c

abbrev pub pushed : Conversation → ConversationParticipant → Conversation
pushed c p = record c { participants = c.participants ++ p ∷ [] }

-- One round of the loop of `rowsToConversations`.
unfoldable pub add_row : JsMap Conversation → ConversationParticipantRow → JsMap Conversation
add_row by_id row =
    JsMap.set by_id row.id
      (pushed (found_or_new (JsMap.get by_id row.id) row) (row_participant row))

unfoldable pub add_rows : JsMap Conversation → List ConversationParticipantRow → JsMap Conversation
unfolding add_row
add_rows by_id [] = by_id
add_rows by_id (row ∷ rows) = add_rows (add_row by_id row) rows

unfoldable pub rows_to_conversations : List ConversationParticipantRow → List Conversation
unfolding add_rows
rows_to_conversations rows = JsMap.values (add_rows JsMap.new_map rows)

abbrev pub default_limit : ℕ
default_limit = 50

abbrev pub max_limit : ℕ
max_limit = 200

abbrev or_default_limit : Option ℕ → ℕ
or_default_limit none = default_limit
or_default_limit (some n) = n

-- `Math.min(Math.max(options.limit ?? DEFAULT_LIMIT, 1), MAX_LIMIT)`
unfoldable pub query_limit : Option ℕ → ℕ
query_limit limit = min (max (or_default_limit limit) 1) max_limit

-- Every query is for at least one row and at most 200, with and without a limit of the caller's; a
-- limit in that range is taken as it is.
pub query_limit_bounds :
    (limit : Option ℕ)
    → (1 ≤ query_limit limit)
      × (query_limit limit ≤ 200)
      × ((n : ℕ) → limit ≡ some n → 1 ≤ n → n ≤ 200 → query_limit limit ≡ n)
unfolding query_limit
query_limit_bounds none = (omega arith, omega arith, λ n h. ground arith)
query_limit_bounds (some m) = (omega arith, omega arith, λ n h p q. ground arith)
