-- ===== src/Adapters/Redis.antt =====
-- The payload of src/adapters/redis/message-bus.ts. `JSON.stringify` writes a `Date` as its ISO
-- text, and `parseMessage` turns the text under the key `createdAt` back into a `Date`. The ISO form
-- is the runtime's: two functions, with what is documented of them as a hypothesis.
use jiffy_messaging.Base.{◌≡◌, ap, ◌↔◌, String, Option, none, some, arith}
use jiffy_messaging.Domain.{Instant, Message}

-- What a property that is declared `Date | null` holds when the program runs.
pub data Value : Type 0 where
  null : Value
  date : Instant → Value
  text : String → Value

-- A message as JavaScript sees it.
pub record MessageObject : Type 0 where
  pub id : String
  pub conversation_id : String
  pub sender_id : String
  pub body : String
  pub created_at : Value
  pub deleted_at : Value

abbrev date_or_null : Option Instant → Value
date_or_null none = null
date_or_null (some at) = date at

abbrev pub object_of : Message → MessageObject
object_of m = record {
  id = m.id;
  conversation_id = m.conversation_id;
  sender_id = m.sender_id;
  body = m.body;
  created_at = date m.created_at;
  deleted_at = date_or_null m.deleted_at;
}

module _ (to_iso : Instant → String) (from_iso : String → Instant) where
  abbrev written : Value → Value
  written null = null
  written (date at) = text (to_iso at)
  written (text t) = text t

  -- `JSON.stringify`, up to the layout of the text: every value is text or null.
  unfoldable pub stringify : MessageObject → MessageObject
  stringify m = record m { created_at = written m.created_at; deleted_at = written m.deleted_at }

  abbrev revived : Value → Value
  revived (text t) = date (from_iso t)
  revived null = date 0
  revived (date at) = date at

  -- `parseMessage`: the reviver looks at the key `createdAt` alone.
  unfoldable pub parse_message : MessageObject → MessageObject
  parse_message payload = record payload { created_at = revived payload.created_at }

  module _ (iso_inverse : (at : Instant) → from_iso (to_iso at) ≡ at) where
    -- If reading the ISO form of an instant gives that instant back: what arrives is what was
    -- published exactly when the message is not deleted; and of a tombstone `deletedAt`
    -- arrives as text. Either way, what arrived is written as JSON again just as it was when
    -- it was published.
    pub parse_message-stringify :
        (m : Message)
        → ((parse_message (stringify (object_of m)) ≡ object_of m) ↔ (m.deleted_at ≡ none))
          × ((at : Instant)
              → m.deleted_at ≡ some at
              → (parse_message (stringify (object_of m))).deleted_at ≡ text (to_iso at))
          × (stringify (parse_message (stringify (object_of m))) ≡ stringify (object_of m))
    unfolding parse_message stringify
    parse_message-stringify m = (
      (
        λ h. ground (arith, iso_inverse m.created_at, ap (λ (o : MessageObject). o.deleted_at) h),
        λ h. ground (arith, iso_inverse m.created_at),
      ),
      λ at h. ground arith,
      ground (arith, iso_inverse m.created_at),
    )
