-- ===== src/Tests/Postgres.antt =====
-- Instances of the theorems on src/adapters/postgres/message-store.ts, with a table that holds one
-- message at most.
use jiffy_messaging.Base.{
  ℕ, ◌≡◌, ◌==◌, refl, sym, ap, ◌∙◌, ◌++◌, String, Bool, if◌then◌else◌, Option, none, some, List, [],
  ◌∷◌, map, arith, All, keep_if, take, Bool-cases, inl, inr, Rearranged-refl,
}
use jiffy_messaging.Errors.{other}
use jiffy_messaging.Exec.{Result, ok, err}
use jiffy_messaging.Exec.Laws.{pure-eq-ok}
use jiffy_messaging.Domain.{Message, Instant}
use jiffy_messaging.Ports.{ListMessagesOptions}
use jiffy_messaging.Ports.Listing.{IsOldestFirst}
use jiffy_messaging.JsMap
use jiffy_messaging.Text.Decimal.{decimal}
use jiffy_messaging.InMemory
use jiffy_messaging.InMemory.{Memory, tombstone}
use jiffy_messaging.Adapters.Rows.{MessageRow, query_limit, row_to_message}
use jiffy_messaging.Adapters.Postgres.{Param, text, instant, number, Pool}
use jiffy_messaging.Adapters.Postgres.Messages.{
  insert_text, select_text, update_text, list_by_conversation, soft_delete,
}
use jiffy_messaging.Adapters.Postgres.MessagesTable.{
  StoredMessage, MessagesTable, Listed, us_of, row_of, has_id, is_standing, marked, is_match,
  IsNewestFirst, IsAscending, listing_text, listing_params,
}
use jiffy_messaging.Adapters.Postgres.Newest.{Newest, IsLimit, list_by_conversation-Newest}
use jiffy_messaging.Adapters.Postgres.Contract.{IsWithin, list_by_conversation-IsWithin}
use jiffy_messaging.Adapters.Postgres.Tombstones.{soft_delete-refines}

-- The spellings that the instances use.
abbrev canonical : String → String
canonical id = if id == "M1" then "m1" else if id == "C1" then "c1" else id

abbrev us_or_null : Option Instant → Option ℕ
us_or_null none = none
us_or_null (some at) = some (us_of at)

abbrev stored_message : Message → StoredMessage
stored_message m = record {
  id = m.id;
  conversation_id = m.conversation_id;
  sender_id = m.sender_id;
  body = m.body;
  created_us = us_of m.created_at;
  deleted_us = us_or_null m.deleted_at;
}

abbrev stored : Option Message → List StoredMessage
stored none = []
stored (some m) = stored_message m ∷ []

abbrev Answer : Type 0
Answer = Option Message → Result (List MessageRow) × Option Message

abbrev refused : Answer
refused s = (err (other "refused"), s)

abbrev select : List Param → Answer
select (text id ∷ []) s = (ok (map row_of (keep_if (has_id (canonical id)) (stored s))), s)
select params s = refused s

abbrev deleted : String → Instant → Option Message → Option Message
deleted id at none = none
deleted id at (some m) = some (if is_standing id (stored_message m) then tombstone at m else m)

abbrev update : List Param → Answer
update (text id ∷ instant at ∷ []) s = (
  ok (map row_of (map (marked at) (keep_if (is_standing (canonical id)) (stored s)))),
  deleted (canonical id) at s,
)
update params s = refused s

abbrev pub new_message : String → String → String → Message
new_message cid sender body = record {
  id = "m1";
  conversation_id = cid;
  sender_id = sender;
  body = body;
  created_at = 5;
  deleted_at = none;
}

abbrev insert : List Param → Answer
insert (text cid ∷ text sender ∷ text body ∷ []) none = (
  ok (row_of (stored_message (new_message (canonical cid) sender body)) ∷ []),
  some (new_message (canonical cid) sender body),
)
insert params s = refused s

abbrev listing : String → Option Instant → Option Instant → ℕ → Answer
listing cid before after limit s =
    (ok (map row_of (take limit (keep_if (is_match cid before after) (stored s)))), s)

abbrev list : Bool → Bool → List Param → Answer
list is_before is_after (text cid ∷ number limit ∷ []) s = listing (canonical cid) none none limit s
list is_before is_after (text cid ∷ instant at ∷ number limit ∷ []) s =
    if is_before
    then listing (canonical cid) (some at) none limit s
    else listing (canonical cid) none (some at) limit s
list is_before is_after (text cid ∷ instant before ∷ instant after ∷ number limit ∷ []) s =
    listing (canonical cid) (some before) (some after) limit s
list is_before is_after params s = refused s

abbrev query : String → List Param → Answer
query t params s =
    if t == select_text
    then select params s
    else if t == update_text
    then update params s
    else if t == insert_text
    then insert params s
    else list (t == listing_text (some 0) none) (t == listing_text none (some 0)) params s

abbrev pub one_message : Pool (Option Message)
one_message = record {
  query_messages = query;
  query_participants = λ t params s. (err (other "refused"), s);
  execute = λ t params s. (err (other "refused"), s);
  connect = λ s. (err (other "refused"), s);
}

stored-deleted :
    (id : String) (at : Instant) (s : Option Message)
    → stored (deleted id at s) ≡ map (λ r. if is_standing id r then marked at r else r) (stored s)
stored-deleted id at none = refl
stored-deleted id at (some m) = ground arith

keep_if-IsNewestFirst :
    (p : StoredMessage → Bool) (s : Option Message) → IsNewestFirst (keep_if p (stored s))
keep_if-IsNewestFirst p none = tt
keep_if-IsNewestFirst p (some m) = ground arith

take_none : (n : ℕ) → IsAscending (take n [])
take_none ℕ.zero = tt
take_none (ℕ.suc n) = tt

take-IsAscending :
    (n : ℕ) (p : StoredMessage → Bool) (s : Option Message)
    → IsAscending (take n (keep_if p (stored s)))
take-IsAscending n p none = take_none n
take-IsAscending n p (some m) = elim (Bool-cases (p (stored_message m))) [
  | inl kept ↦ rw kept (take_one n (stored_message m))
  | inr left_out ↦ rw left_out (take_none n)
]
  where
    take_one : (n : ℕ) (r : StoredMessage) → IsAscending (take n (r ∷ []))
    take_one ℕ.zero r = tt
    take_one (ℕ.suc ℕ.zero) r = (tt, tt)
    take_one (ℕ.suc (ℕ.suc n)) r = (tt, tt)

listing-Listed :
    (cid : String) (before after : Option Instant) (limit : ℕ) (s s' : Option Message)
    (rows : List MessageRow)
    → listing cid before after limit s ≡ (ok rows, s')
    → Listed cid before after limit (stored s) rows × (stored s' ≡ stored s)
listing-Listed cid before after limit s s' rows h =
    let (same, kept) = pure-eq-ok _ rows s s' h in
    (
      record {
        inner = keep_if (is_match cid before after) (stored s);
        inner_order = keep_if-IsNewestFirst (is_match cid before after) s;
        inner_rows = Rearranged-refl _;
        outer = take limit (keep_if (is_match cid before after) (stored s));
        outer_order = take-IsAscending limit (is_match cid before after) s;
        outer_rows = Rearranged-refl _;
        answered = sym same;
      },
      ap stored (sym kept),
    )

insert-row :
    (cid sender body : String) (s s' : Option Message) (rows : List MessageRow)
    → insert (text cid ∷ text sender ∷ text body ∷ []) s ≡ (ok rows, s')
    → (r : StoredMessage) × (rows ≡ row_of r ∷ [])
      × (stored s' ≡ stored s ++ r ∷ [])
      × (r.conversation_id ≡ canonical cid)
      × (r.sender_id ≡ sender)
      × (r.body ≡ body)
      × (r.deleted_us ≡ none)
insert-row cid sender body (some m) s' rows h = absurd (ground arith)
insert-row cid sender body none s' rows h =
    let (same, kept) = pure-eq-ok _ rows _ s' h in
    (
      stored_message (new_message (canonical cid) sender body),
      sym same,
      ap stored (sym kept),
      refl,
      refl,
      refl,
      refl,
    )

abbrev one_message_table : MessagesTable one_message
one_message_table = record {
  stored = stored;
  canonical = canonical;
  selects = λ id s s' rows h.
      let (same, kept) = pure-eq-ok _ rows s s' h in (sym same, ap stored (sym kept));
  updates = λ id at s s' rows h.
      let (same, kept) = pure-eq-ok _ rows _ s' h in
      (sym same, ap stored (sym kept) ∙ stored-deleted (canonical id) at s);
  inserts = insert-row;
  lists = λ cid before after limit s s' rows h. listed cid before after limit s s' rows h;
}
  where
    listed :
        (cid : String) (before after : Option Instant) (limit : ℕ) (s s' : Option Message)
        (rows : List MessageRow)
        → query (listing_text before after) (listing_params cid before after limit) s
          ≡ (ok rows, s')
        → Listed (canonical cid) before after limit (stored s) rows × (stored s' ≡ stored s)
    listed cid none none limit s s' rows h =
        listing-Listed (canonical cid) none none limit s s' rows h
    listed cid (some b) none limit s s' rows h =
        listing-Listed (canonical cid) (some b) none limit s s' rows h
    listed cid none (some a) limit s s' rows h =
        listing-Listed (canonical cid) none (some a) limit s s' rows h
    listed cid (some b) (some a) limit s s' rows h =
        listing-Listed (canonical cid) (some b) (some a) limit s s' rows h

abbrev hello : Message
hello = new_message "c1" "alice" "hi"

abbrev any_time : ListMessagesOptions
any_time = record { before = none; after = some 3; limit = some 10 }

listed_hello :
    list_by_conversation one_message "C1" any_time (some hello) ≡ (ok (hello ∷ []), some hello)
unfolding list_by_conversation row_to_message query_limit decimal
listed_hello = refl

list_by_conversation-Newest_example :
    (limit : ℕ) × IsLimit (some 10) limit
    × Newest (keep_if (is_match "c1" none (some 3)) (stored (some hello))) limit (hello ∷ [])
    × (stored (some hello) ≡ stored (some hello))
list_by_conversation-Newest_example =
    list_by_conversation-Newest one_message one_message_table "C1" any_time (some hello)
      (some hello) (hello ∷ []) listed_hello

list_by_conversation-IsWithin_example :
    All (IsWithin "c1" any_time) (hello ∷ []) × IsOldestFirst (hello ∷ [])
list_by_conversation-IsWithin_example =
    list_by_conversation-IsWithin one_message one_message_table "C1" any_time (some hello)
      (some hello) (hello ∷ []) listed_hello

abbrev memory : Memory
memory = record { conversations = JsMap.new_map; messages = hello ∷ []; clock = 9; drawn = 1 }

soft_delete-refines_example :
    InMemory.soft_delete "m1" 9 memory
    ≡ (ok (tombstone 9 hello), record memory { messages = tombstone 9 hello ∷ [] })
soft_delete-refines_example =
    soft_delete-refines one_message one_message_table "M1" 9 (some hello) (some (tombstone 9 hello))
      (tombstone 9 hello) memory (refl, tt) refl (unfold soft_delete row_to_message in refl)
