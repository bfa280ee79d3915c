-- ===== src/Adapters/Postgres/Messages.antt =====
-- src/adapters/postgres/message-store.ts: the text of each statement and the values beside it.
use Prim.Native.String
use jiffy_messaging.Base.{ℕ, String, Option, none, some, List, [], ◌∷◌, ◌++◌, map, length}
use jiffy_messaging.Text.Decimal.{decimal}
use jiffy_messaging.Exec.{Exec, pure, ◌>>=◌}
use jiffy_messaging.Domain.{Instant, Message}
use jiffy_messaging.Ports.{NewMessage, ListMessagesOptions, MessageStore}
use jiffy_messaging.Adapters.Rows.{MessageRow, first_row, row_to_message, query_limit}
use jiffy_messaging.Adapters.Postgres.{Param, text, instant, number, Pool}

infixr 60 ◌+s◌
abbrev ◌+s◌ : String → String → String
s +s t = String.◌++◌ s t

abbrev pub columns : String
columns = "id, conversation_id, sender_id, body, created_at, deleted_at"

abbrev pub insert_text : String
insert_text =
    "INSERT INTO messages (conversation_id, sender_id, body)\n       VALUES ($1, $2, $3)\n       RETURNING "
    +s columns

abbrev pub select_text : String
select_text = "SELECT " +s columns +s " FROM messages WHERE id = $1"

abbrev pub update_text : String
update_text =
    "UPDATE messages SET body = '', deleted_at = $2\n       WHERE id = $1 AND deleted_at IS NULL\n       RETURNING "
    +s columns

-- What the method has put together of the `WHERE` clause and of the parameters.
pub record Where : Type 0 where
  pub params : List Param
  pub clause : String

-- `params.push(value)`, and the test against it with its number.
unfoldable pub and_where : String → Option Instant → Where → Where
and_where test none w = w
and_where test (some at) w =
    let params = w.params ++ instant at ∷ [] in
    record { params = params; clause = w.clause +s test +s decimal (length params) }

abbrev pub where_of : String → Option Instant → Option Instant → Where
where_of conversation_id before after = and_where " AND created_at > $" after (
    and_where " AND created_at < $" before
      (record { params = text conversation_id ∷ []; clause = "conversation_id = $1" }))

unfoldable pub list_text : String → ℕ → String
list_text clause limit_number =
    "\n      SELECT * FROM (\n        SELECT "
    +s columns
    +s " FROM messages WHERE "
    +s clause
    +s " ORDER BY created_at DESC LIMIT $"
    +s decimal limit_number
    +s "\n      ) recent\n      ORDER BY created_at ASC\n    "

module _ {S : Type 0} (pool : Pool S) where
  -- `rowToMessage(firstRow(rows))`
  abbrev pub first_message : List MessageRow → Exec S Message
  first_message rows = (λ s. (first_row rows, s)) >>= λ row. pure (row_to_message row)

  unfoldable pub create : NewMessage → Exec S Message
  create input = do
    rows ←
        pool.query_messages insert_text
          (text input.conversation_id ∷ text input.sender_id ∷ text input.body ∷ [])
    first_message rows

  abbrev row_or_null : List MessageRow → Option Message
  row_or_null [] = none
  row_or_null (row ∷ rows) = some (row_to_message row)

  unfoldable pub find_by_id : String → Exec S (Option Message)
  find_by_id id = do rows ← pool.query_messages select_text (text id ∷ []); pure (row_or_null rows)

  -- The rest of `softDelete`, from the rows that the update returned.
  abbrev pub updated_or_existing : String → List MessageRow → Exec S Message
  updated_or_existing id [] = do
    existing ← pool.query_messages select_text (text id ∷ [])
    first_message existing
  updated_or_existing id (row ∷ rows) = pure (row_to_message row)

  unfoldable pub soft_delete : String → Instant → Exec S Message
  soft_delete id at = do
    updated ← pool.query_messages update_text (text id ∷ instant at ∷ [])
    updated_or_existing id updated

  unfoldable pub list_by_conversation : String → ListMessagesOptions → Exec S (List Message)
  unfolding and_where list_text
  list_by_conversation conversation_id options = do
    let w = where_of conversation_id options.before options.after
    let params = w.params ++ number (query_limit options.limit) ∷ []
    rows ← pool.query_messages (list_text w.clause (length params)) params
    pure (map row_to_message rows)

  abbrev pub message_store : MessageStore S
  message_store = record {
    create = create;
    find_by_id = find_by_id;
    list_by_conversation = list_by_conversation;
    soft_delete = soft_delete;
  }
