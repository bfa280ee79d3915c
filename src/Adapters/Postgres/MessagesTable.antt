-- ===== src/Adapters/Postgres/MessagesTable.antt =====
-- What the stores rely on of PostgreSQL for the table `messages` of
-- src/adapters/postgres/schema.sql: what each statement of message-store.ts answers and does, by its
-- text. The table keeps microseconds, and the package pg gives out dates of whole milliseconds.
use Prim.Native.Nat.{◌/◌}
use jiffy_messaging.Base.{
  ℕ, ◌*◌, ◌≤◌, ◌≡◌, String, Bool, true, Option, none, some, List, [], ◌∷◌, ◌++◌, map, keep_if, take,
  is_some, not, ltb, ◌&&◌, ◌==◌, All, if◌then◌else◌, Rearranged,
}
use jiffy_messaging.Exec.{ok}
use jiffy_messaging.Domain.{Instant, Message}
use jiffy_messaging.Adapters.Rows.{MessageRow}
use jiffy_messaging.Adapters.Postgres.{Param, text, instant, number, Pool}

pub record StoredMessage : Type 0 where
  pub id : String
  pub conversation_id : String
  pub sender_id : String
  pub body : String
  pub created_us : ℕ
  pub deleted_us : Option ℕ

abbrev pub us_of : Instant → ℕ
us_of at = at * 1000

abbrev pub date_of : ℕ → Instant
date_of us = us / 1000

abbrev date_or_null : Option ℕ → Option Instant
date_or_null none = none
date_or_null (some us) = some (date_of us)

-- The row that pg makes of a stored one.
abbrev pub row_of : StoredMessage → MessageRow
row_of r = record {
  id = r.id;
  conversation_id = r.conversation_id;
  sender_id = r.sender_id;
  body = r.body;
  created_at = date_of r.created_us;
  deleted_at = date_or_null r.deleted_us;
}

abbrev pub message_of : StoredMessage → Message
message_of r = record {
  id = r.id;
  conversation_id = r.conversation_id;
  sender_id = r.sender_id;
  body = r.body;
  created_at = date_of r.created_us;
  deleted_at = date_or_null r.deleted_us;
}

-- `id = $1`, and `id = $1 AND deleted_at IS NULL`
abbrev pub has_id : String → StoredMessage → Bool
has_id id r = r.id == id

abbrev pub is_standing : String → StoredMessage → Bool
is_standing id r = r.id == id && not (is_some r.deleted_us)

abbrev pub marked : Instant → StoredMessage → StoredMessage
marked at r = record r { body = ""; deleted_us = some (us_of at) }

-- `created_at < $2` and `created_at > $2`, where they stand in the clause.
abbrev pub is_before_us : Option Instant → StoredMessage → Bool
is_before_us none r = true
is_before_us (some before) r = ltb r.created_us (us_of before)

abbrev pub is_after_us : Option Instant → StoredMessage → Bool
is_after_us none r = true
is_after_us (some after) r = ltb (us_of after) r.created_us

abbrev pub is_match : String → Option Instant → Option Instant → StoredMessage → Bool
is_match cid before after r =
    ((r.conversation_id == cid) && is_before_us before r) && is_after_us after r

-- `ORDER BY created_at DESC` and `ASC`; equal instants stand in any order.
abbrev pub IsNewestFirst : List StoredMessage → Type 0
IsNewestFirst [] = Unit
IsNewestFirst (r ∷ rs) = All (λ q. q.created_us ≤ r.created_us) rs × IsNewestFirst rs

abbrev pub IsAscending : List StoredMessage → Type 0
IsAscending [] = Unit
IsAscending (r ∷ rs) = All (λ q. r.created_us ≤ q.created_us) rs × IsAscending rs

-- The four texts that a listing may have.
abbrev pub listing_text : Option Instant → Option Instant → String
listing_text none none =
    "\n      SELECT * FROM (\n        SELECT id, conversation_id, sender_id, body, created_at, deleted_at FROM messages WHERE conversation_id = $1 ORDER BY created_at DESC LIMIT $2\n      ) recent\n      ORDER BY created_at ASC\n    "
listing_text (some before) none =
    "\n      SELECT * FROM (\n        SELECT id, conversation_id, sender_id, body, created_at, deleted_at FROM messages WHERE conversation_id = $1 AND created_at < $2 ORDER BY created_at DESC LIMIT $3\n      ) recent\n      ORDER BY created_at ASC\n    "
listing_text none (some after) =
    "\n      SELECT * FROM (\n        SELECT id, conversation_id, sender_id, body, created_at, deleted_at FROM messages WHERE conversation_id = $1 AND created_at > $2 ORDER BY created_at DESC LIMIT $3\n      ) recent\n      ORDER BY created_at ASC\n    "
listing_text (some before) (some after) =
    "\n      SELECT * FROM (\n        SELECT id, conversation_id, sender_id, body, created_at, deleted_at FROM messages WHERE conversation_id = $1 AND created_at < $2 AND created_at > $3 ORDER BY created_at DESC LIMIT $4\n      ) recent\n      ORDER BY created_at ASC\n    "

abbrev pub listing_params : String → Option Instant → Option Instant → ℕ → List Param
listing_params cid none none limit = text cid ∷ number limit ∷ []
listing_params cid (some before) none limit = text cid ∷ instant before ∷ number limit ∷ []
listing_params cid none (some after) limit = text cid ∷ instant after ∷ number limit ∷ []
listing_params cid (some before) (some after) limit =
    text cid ∷ instant before ∷ instant after ∷ number limit ∷ []

-- The inner query sorts what matches and keeps the first `limit`; the outer one sorts those again.
pub record Listed (cid : String) (before after : Option Instant) (limit : ℕ)
    (stored : List StoredMessage) (rows : List MessageRow) : Type 0 where
  pub inner : List StoredMessage
  pub inner_order : IsNewestFirst inner
  pub inner_rows : Rearranged inner (keep_if (is_match cid before after) stored)
  pub outer : List StoredMessage
  pub outer_order : IsAscending outer
  pub outer_rows : Rearranged outer (take limit inner)
  pub answered : rows ≡ map row_of outer

-- `id` and `conversation_id` are columns of type UUID. PostgreSQL reads a UUID in several spellings
-- (upper case, in braces, without hyphens), compares the values, and gives out the one spelling that
-- `canonical` stands for. A text that is no UUID makes the statement fail, and nothing is said of it.
pub record MessagesTable {S : Type 0} (pool : Pool S) : Type 0 where
  pub stored : S → List StoredMessage
  pub canonical : String → String
  pub selects :
      (id : String) (s s' : S) (rows : List MessageRow)
      → pool.query_messages
          "SELECT id, conversation_id, sender_id, body, created_at, deleted_at FROM messages WHERE id = $1"
          (text id ∷ [])
          s
        ≡ (ok rows, s')
      → (rows ≡ map row_of (keep_if (has_id (canonical id)) (stored s))) × (stored s' ≡ stored s)
  pub updates :
      (id : String) (at : Instant) (s s' : S) (rows : List MessageRow)
      → pool.query_messages
          "UPDATE messages SET body = '', deleted_at = $2\n       WHERE id = $1 AND deleted_at IS NULL\n       RETURNING id, conversation_id, sender_id, body, created_at, deleted_at"
          (text id ∷ instant at ∷ [])
          s
        ≡ (ok rows, s')
      → (rows ≡ map row_of (map (marked at) (keep_if (is_standing (canonical id)) (stored s))))
        × (stored s'
            ≡ map (λ r. if is_standing (canonical id) r then marked at r else r) (stored s))
  pub inserts :
      (cid sender body : String) (s s' : S) (rows : List MessageRow)
      → pool.query_messages
          "INSERT INTO messages (conversation_id, sender_id, body)\n       VALUES ($1, $2, $3)\n       RETURNING id, conversation_id, sender_id, body, created_at, deleted_at"
          (text cid ∷ text sender ∷ text body ∷ [])
          s
        ≡ (ok rows, s')
      → (r : StoredMessage) × (rows ≡ row_of r ∷ [])
        × (stored s' ≡ stored s ++ r ∷ [])
        × (r.conversation_id ≡ canonical cid)
        × (r.sender_id ≡ sender)
        × (r.body ≡ body)
        × (r.deleted_us ≡ none)
  pub lists :
      (cid : String) (before after : Option Instant) (limit : ℕ) (s s' : S) (rows : List MessageRow)
      → pool.query_messages (listing_text before after) (listing_params cid before after limit) s
        ≡ (ok rows, s')
      → Listed (canonical cid) before after limit (stored s) rows × (stored s' ≡ stored s)
