-- ===== src/Adapters/Postgres/Newest.antt =====
-- What `listByConversation` of src/adapters/postgres/message-store.ts returns.
use jiffy_messaging.Base.{
  ℕ, ◌≤◌, ◌<◌, ◌≡◌, refl, sym, ap, ◌∙◌, subst, String, Option, none, some, List, [], ◌∷◌, ◌++◌, map,
  arith, keep_if, take, drop, take-append-drop, length, min, All, All-map, length-take, length-map,
  length-Rearranged, All-Rearranged, All-right, Rearranged, Rearranged-sym, Rearranged-append,
}
use jiffy_messaging.Exec.{ok, pure}
use jiffy_messaging.Exec.Laws.{>>=-eq-ok, pure-eq-ok}
use jiffy_messaging.Domain.{Instant, Message}
use jiffy_messaging.Ports.{ListMessagesOptions}
use jiffy_messaging.Ports.Listing.{IsOldestFirst}
use jiffy_messaging.Adapters.Rows.{MessageRow, row_to_message, query_limit}
use jiffy_messaging.Adapters.Postgres.{number, Pool}
use jiffy_messaging.Adapters.Postgres.Messages.{
  where_of, list_text, and_where, list_by_conversation,
}
use jiffy_messaging.Adapters.Postgres.MessagesTable.{
  StoredMessage, MessagesTable, Listed, listing_text, listing_params, message_of, row_of, is_match,
  IsNewestFirst, IsAscending,
}
use jiffy_messaging.Text.Decimal.{decimal}

list_text-by_case :
    (cid : String) (before after : Option Instant) (limit : ℕ)
    → (list_text
          (where_of cid before after).clause
          (length ((where_of cid before after).params ++ number limit ∷ []))
        ≡ listing_text before after)
      × ((where_of cid before after).params ++ number limit ∷ []
          ≡ listing_params cid before after limit)
unfolding and_where list_text decimal
list_text-by_case cid none none limit = (refl, refl)
list_text-by_case cid (some b) none limit = (refl, refl)
list_text-by_case cid none (some a) limit = (refl, refl)
list_text-by_case cid (some b) (some a) limit = (refl, refl)

newest-older :
    (xs ys : List StoredMessage)
    → IsNewestFirst (xs ++ ys)
    → All (λ r. All (λ q. r.created_us ≤ q.created_us) xs) ys
newest-older [] ys h = all_tt ys
  where
    all_tt :
        (ys : List StoredMessage)
        → All (λ r. All (λ (q : StoredMessage). r.created_us ≤ q.created_us) []) ys
    all_tt [] = tt
    all_tt (y ∷ ys) = (tt, all_tt ys)
newest-older (x ∷ xs) ys (first, h) =
    both ys (All-right (λ q. q.created_us ≤ x.created_us) xs ys first) (newest-older xs ys h)
  where
    both :
        (ys : List StoredMessage)
        → All (λ q. q.created_us ≤ x.created_us) ys
        → All (λ r. All (λ q. r.created_us ≤ q.created_us) xs) ys
        → All (λ r. All (λ q. r.created_us ≤ q.created_us) (x ∷ xs)) ys
    both [] a b = tt
    both (y ∷ ys) (p, a) (q, b) = ((p, q), both ys a b)

from_date :
    (r : StoredMessage) (rs : List StoredMessage)
    → All (λ q. r.created_us ≤ q.created_us) rs
    → All (λ m. (message_of r).created_at ≤ m.created_at) (map message_of rs)
from_date r [] h = tt
from_date r (q ∷ qs) (p, h) = (omega arith, from_date r qs h)

ascending-IsOldestFirst :
    (rs : List StoredMessage) → IsAscending rs → IsOldestFirst (map message_of rs)
ascending-IsOldestFirst [] h = tt
ascending-IsOldestFirst (r ∷ rs) (p, h) = (from_date r rs p, ascending-IsOldestFirst rs h)

map-row_to_message :
    (rs : List StoredMessage) → map row_to_message (map row_of rs) ≡ map message_of rs
unfolding row_to_message
map-row_to_message [] = refl
map-row_to_message (r ∷ rs) = ap (◌∷◌ (message_of r)) (map-row_to_message rs)

-- What a listing returned, in terms of the stored messages.
pub record Newest (matching : List StoredMessage) (limit : ℕ) (ms : List Message) : Type 0 where
  pub shown : List StoredMessage
  pub left_out : List StoredMessage
  pub messages : ms ≡ map message_of shown
  pub all_there : Rearranged (shown ++ left_out) matching
  pub count : length ms ≡ min limit (length matching)
  pub newer : All (λ r. All (λ q. r.created_us ≤ q.created_us) shown) left_out
  pub order : IsOldestFirst ms

pub Listed-Newest :
    (cid : String) (before after : Option Instant) (limit : ℕ) (stored : List StoredMessage)
    (rows : List MessageRow)
    → Listed cid before after limit stored rows
    → Newest (keep_if (is_match cid before after) stored) limit (map row_to_message rows)
Listed-Newest cid before after limit stored rows l =
    let e : map row_to_message rows ≡ map message_of l.outer =
      ap (map row_to_message) l.answered ∙ map-row_to_message l.outer in
    let cut : take limit l.inner ++ drop limit l.inner ≡ l.inner = take-append-drop limit l.inner in
    record {
      shown = l.outer;
      left_out = drop limit l.inner;
      messages = e;
      all_there = Rearranged.trans (Rearranged-append (drop limit l.inner) l.outer_rows) (
          subst (λ xs. Rearranged xs (keep_if (is_match cid before after) stored)) (sym cut)
            l.inner_rows);
      count = omega (
        arith,
        ap length e,
        length-map message_of l.outer,
        length-Rearranged l.outer_rows,
        length-take limit l.inner,
        length-Rearranged l.inner_rows,
      );
      newer =
          All-map _ _
            (λ r h.
              All-Rearranged (λ q. r.created_us ≤ q.created_us) (Rearranged-sym l.outer_rows) h)
            (drop limit l.inner)
            (newest-older (take limit l.inner) (drop limit l.inner)
              (subst IsNewestFirst (sym cut) l.inner_order));
      order = subst IsOldestFirst (sym e) (ascending-IsOldestFirst l.outer l.outer_order);
    }

-- How many a listing asks for: fifty where nothing is said, and otherwise what is asked for, but one
-- at least and two hundred at most.
abbrev pub IsLimit : Option ℕ → ℕ → Type 0
IsLimit none n = n ≡ 50
IsLimit (some asked) n =
    (asked ≡ 0 → n ≡ 1) × (1 ≤ asked → asked ≤ 200 → n ≡ asked) × (200 < asked → n ≡ 200)

query_limit-IsLimit : (o : Option ℕ) → IsLimit o (query_limit o)
unfolding query_limit
query_limit-IsLimit none = refl
query_limit-IsLimit (some n) = (λ h. ground arith, λ h k. ground arith, λ h. ground arith)

module _ {S : Type 0} (pool : Pool S) (table : MessagesTable pool) where
  pub list_by_conversation-Listed :
      (cid : String) (options : ListMessagesOptions) (s s' : S) (ms : List Message)
      → list_by_conversation pool cid options s ≡ (ok ms, s')
      → (rows : List MessageRow) × Listed
          (table.canonical cid)
          options.before
          options.after
          (query_limit options.limit)
          (table.stored s)
          rows
        × (table.stored s' ≡ table.stored s)
        × (ms ≡ map row_to_message rows)
  unfolding list_by_conversation
  list_by_conversation-Listed cid options s s' ms h =
      let (same_text, same_params) =
        list_text-by_case cid options.before options.after (query_limit options.limit) in
      let (rows, s1, answered, last) =
        >>=-eq-ok (pool.query_messages _ _) (λ rows. pure (map row_to_message rows)) s h in
      let (listed, kept) =
        table.lists cid options.before options.after (query_limit options.limit) s s1 rows
          (rw (← same_text, ← same_params) answered) in
      let (same_ms, same_s) = pure-eq-ok (map row_to_message rows) ms s1 s' last in
      (rows, listed, ap table.stored (sym same_s) ∙ kept, sym same_ms)

  -- If the database does with the statements what MessagesTable says: a listing of the Postgres
  -- store that succeeds returns, oldest first, as dates of whole milliseconds, as many as the
  -- limit allows of the stored messages within the bounds of the conversation whose id is the
  -- canonical spelling of the one asked for; none that it leaves out was created after one that
  -- it returns. The limit is the one asked for, but 1 at least and 200 at most, and 50 where
  -- none is. The table is as before.
  pub list_by_conversation-Newest :
      (cid : String) (options : ListMessagesOptions) (s s' : S) (ms : List Message)
      → list_by_conversation pool cid options s ≡ (ok ms, s')
      → (limit : ℕ) × IsLimit options.limit limit
        × Newest
            (keep_if (is_match (table.canonical cid) options.before options.after) (table.stored s))
            limit
            ms
        × (table.stored s' ≡ table.stored s)
  list_by_conversation-Newest cid options s s' ms h =
      let (rows, listed, kept, e) = list_by_conversation-Listed cid options s s' ms h in
      (
        query_limit options.limit,
        query_limit-IsLimit options.limit,
        subst
            (Newest
              (keep_if (is_match (table.canonical cid) options.before options.after)
                (table.stored s))
              (query_limit options.limit))
            (sym e)
            (Listed-Newest (table.canonical cid) options.before options.after
              (query_limit options.limit) (table.stored s) rows listed),
        kept,
      )
