-- ===== src/Adapters/Postgres/Contract.antt =====
-- How far src/adapters/postgres/message-store.ts keeps the promise of src/ports/message-store.ts.
use jiffy_messaging.Base.{
  ◌≤◌, ◌≡◌, sym, subst, String, true, Option, none, some, List, [], ◌∷◌, map, arith, keep_if, All,
  All-left, All-Rearranged, Rearranged-sym, All-keep_if_of, eq_iff,
}
use jiffy_messaging.Exec.{ok}
use jiffy_messaging.Domain.{Instant, Message}
use jiffy_messaging.Ports.{ListMessagesOptions}
use jiffy_messaging.Ports.Listing.{IsBefore, IsOldestFirst}
use jiffy_messaging.Adapters.Postgres.{Pool}
use jiffy_messaging.Adapters.Postgres.Messages.{list_by_conversation}
use jiffy_messaging.Adapters.Postgres.MessagesTable.{
  StoredMessage, MessagesTable, message_of, is_match, is_before_us, is_after_us,
}
use jiffy_messaging.Adapters.Postgres.Newest.{list_by_conversation-Newest}

-- Not created before the instant.
abbrev pub IsFrom : Option Instant → Message → Type 0
IsFrom none m = Unit
IsFrom (some after) m = after ≤ m.created_at

is_before_us-IsBefore :
    (o : Option Instant) (r : StoredMessage) → is_before_us o r ≡ true → IsBefore o (message_of r)
is_before_us-IsBefore none r h = tt
is_before_us-IsBefore (some before) r h = ground arith

is_after_us-IsFrom :
    (o : Option Instant) (r : StoredMessage) → is_after_us o r ≡ true → IsFrom o (message_of r)
is_after_us-IsFrom none r h = tt
is_after_us-IsFrom (some after) r h = ground arith

-- A message of the conversation, created before the one bound and not before the other.
abbrev pub IsWithin : String → ListMessagesOptions → Message → Type 0
IsWithin cid options m =
    (m.conversation_id ≡ cid) × IsBefore options.before m × IsFrom options.after m

is_match-IsWithin :
    (cid : String) (options : ListMessagesOptions) (r : StoredMessage)
    → is_match cid options.before options.after r ≡ true
    → IsWithin cid options (message_of r)
is_match-IsWithin cid options r h = (
  ground (arith, eq_iff r.conversation_id cid),
  is_before_us-IsBefore options.before r (ground arith),
  is_after_us-IsFrom options.after r (ground arith),
)

All-message_of :
    (P : Message → Type 0) (rs : List StoredMessage)
    → All (λ r. P (message_of r)) rs
    → All P (map message_of rs)
All-message_of P [] h = tt
All-message_of P (r ∷ rs) (p, h) = (p, All-message_of P rs h)

module _ {S : Type 0} (pool : Pool S) (table : MessagesTable pool) where
  -- If the database does with the statements what MessagesTable says: a listing of the Postgres
  -- store that succeeds returns, oldest first, only messages of the conversation whose id is the
  -- canonical spelling of the one asked for, each created before `before` and not before
  -- `after`, where these are given. A message of the very millisecond of `after` may be there.
  pub list_by_conversation-IsWithin :
      (cid : String) (options : ListMessagesOptions) (s s' : S) (ms : List Message)
      → list_by_conversation pool cid options s ≡ (ok ms, s')
      → All (IsWithin (table.canonical cid) options) ms × IsOldestFirst ms
  list_by_conversation-IsWithin cid options s s' ms h =
      let (limit, is_limit, n, kept) =
        list_by_conversation-Newest pool table cid options s s' ms h in
      let id = table.canonical cid in
      let matching : All (λ r. IsWithin id options (message_of r))
          (keep_if (is_match id options.before options.after) (table.stored s)) =
        All-keep_if_of _ _ (is_match-IsWithin id options) (table.stored s) in
      let shown : All (λ r. IsWithin id options (message_of r)) n.shown =
        All-left _ n.shown n.left_out (All-Rearranged _ (Rearranged-sym n.all_there) matching) in
      (
        subst (All (IsWithin id options)) (sym n.messages)
            (All-message_of (IsWithin id options) n.shown shown),
        n.order,
      )
