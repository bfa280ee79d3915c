-- ===== src/Adapters/Postgres/Conversations.antt =====
-- src/adapters/postgres/conversation-store.ts.
use Prim.Native.String
use jiffy_messaging.Base.{String, Option, none, List, [], ◌∷◌, map, head?}
use jiffy_messaging.Errors.{Error}
use jiffy_messaging.Exec.{Result, ok, err, Exec, pure, ◌>>=◌, ◌>>◌}
use jiffy_messaging.Domain.{Instant, Conversation}
use jiffy_messaging.Ports.{ConversationStore}
use jiffy_messaging.InMemory.{fresh_participant}
use jiffy_messaging.Adapters.Rows.{first_row, rows_to_conversations}
use jiffy_messaging.Adapters.Postgres.{text, instant, texts, InsertedRow, Client, Pool}

infixr 60 ◌+s◌
abbrev ◌+s◌ : String → String → String
s +s t = String.◌++◌ s t

abbrev select_with_participants : String
select_with_participants =
    "\n  SELECT c.id, c.created_at, p.user_id, p.last_read_at, p.cleared_at\n  FROM conversations c\n  JOIN conversation_participants p ON p.conversation_id = c.id\n"

abbrev pub find_by_id_text : String
find_by_id_text = select_with_participants +s " WHERE c.id = $1"

abbrev pub find_by_participant_text : String
find_by_participant_text =
    select_with_participants
    +s "\n       WHERE c.id IN (SELECT conversation_id FROM conversation_participants WHERE user_id = $1)\n       ORDER BY c.created_at ASC"

abbrev pub insert_text : String
insert_text = "INSERT INTO conversations DEFAULT VALUES RETURNING id, created_at"

abbrev pub insert_participants_text : String
insert_participants_text =
    "INSERT INTO conversation_participants (conversation_id, user_id)\n           SELECT $1, unnest($2::text[])"

abbrev pub mark_read_text : String
mark_read_text =
    "UPDATE conversation_participants SET last_read_at = $1 WHERE conversation_id = $2 AND user_id = $3"

abbrev pub clear_text : String
clear_text =
    "UPDATE conversation_participants SET cleared_at = $1 WHERE conversation_id = $2 AND user_id = $3"

-- The object that `create` returns.
abbrev pub created : InsertedRow → List String → Conversation
created row participant_ids = record {
  id = row.id;
  participants = map fresh_participant participant_ids;
  created_at = row.created_at;
  last_message = none;
}

module _ {S : Type 0} (client : Client S) where
  -- No statement for an empty list.
  abbrev pub insert_participants : String → List String → Exec S (Unit {0})
  insert_participants id [] = pure tt
  insert_participants id (p ∷ ps) =
      client.execute insert_participants_text (text id ∷ texts (p ∷ ps) ∷ [])

  -- What the `try` of `create` runs.
  unfoldable pub create_body : List String → Exec S Conversation
  create_body participant_ids = do
    client.execute "BEGIN" []
    rows ← client.query_inserted insert_text []
    row ← λ s. (first_row rows, s)
    insert_participants row.id participant_ids
    client.execute "COMMIT" []
    pure (created row participant_ids)

  abbrev pub rethrown : {A : Type 0} → Error → Result (Unit {0}) × S → Result A × S
  rethrown e (ok _, s) = (err e, client.release s)
  rethrown e (err f, s) = (err f, client.release s)

  -- The `catch`, which itself may throw, and the `finally`.
  abbrev pub settled : {A : Type 0} → Result A × S → Result A × S
  settled (ok a, s) = (ok a, client.release s)
  settled (err e, s) = rethrown e (client.execute "ROLLBACK" [] s)

module _ {S : Type 0} (pool : Pool S) where
  unfoldable pub create : List String → Exec S Conversation
  unfolding create_body
  create participant_ids = do
    client ← pool.connect
    λ s. settled client (create_body client participant_ids s)

  unfoldable pub find_by_id : String → Exec S (Option Conversation)
  find_by_id id = do
    rows ← pool.query_participants find_by_id_text (text id ∷ [])
    pure (head? (rows_to_conversations rows))

  unfoldable pub find_by_participant : String → Exec S (List Conversation)
  find_by_participant user_id = do
    rows ← pool.query_participants find_by_participant_text (text user_id ∷ [])
    pure (rows_to_conversations rows)

  unfoldable pub mark_read : String → String → Instant → Exec S (Unit {0})
  mark_read conversation_id user_id at =
      pool.execute mark_read_text (instant at ∷ text conversation_id ∷ text user_id ∷ [])

  unfoldable pub clear : String → String → Instant → Exec S (Unit {0})
  clear conversation_id user_id at =
      pool.execute clear_text (instant at ∷ text conversation_id ∷ text user_id ∷ [])

  abbrev pub conversation_store : ConversationStore S
  conversation_store = record {
    create = create;
    find_by_id = find_by_id;
    find_by_participant = find_by_participant;
    mark_read = mark_read;
    clear = clear;
  }
