-- ===== src/InMemory/Listing.antt =====
-- What `listByConversation` of src/adapters/in-memory/message-store.ts returns: which messages, in
-- which order, and which of them a limit leaves.
use mathlib.Core.List.{Perm}
use jiffy_messaging.Base.{
  subst, ℕ, ◌-◌, ◌≤◌, ◌<◌, ◌≡◌, refl, String, Bool, true, Option, none, some, List, [], ◌∷◌, ◌++◌,
  arith, keep_if, length, ◌==◌, eq_iff, ◌&&◌, min, All, All-drop, All-keep_if, All-keep_if_of,
  length-drop, false, All-map, keep_if-keep_if, take, take-append-drop,
}
use jiffy_messaging.Domain.{Instant, Message}
use jiffy_messaging.Ports.{ListMessagesOptions}
use jiffy_messaging.Ports.Listing.{ListsInOrder, IsOldestFirst, IsBefore, IsAfter, IsShown}
use jiffy_messaging.InMemory.{
  message_store, list_by_conversation, insert_by_created_at, sort_by_created_at, slice_last,
  is_before, is_after, limited, select_messages,
}
use jiffy_messaging.InMemory.Sorting.{
  sort-IsOldestFirst, drop-IsOldestFirst, sort-perm, keep_if-sort, sort-append_newest,
  keep_if-append_kept, keep_if-none,
}

-- The three tests of the listing as one.
abbrev pub is_shown : String → ListMessagesOptions → Message → Bool
is_shown cid options m =
    ((m.conversation_id == cid) && is_before options.before m) && is_after options.after m

-- One pass of filtering and one stable sort say what the four steps of the source compute.
pub select_messages-eq-sort :
    (cid : String) (options : ListMessagesOptions) (ms : List Message)
    → select_messages cid options ms
      ≡ limited options.limit (sort_by_created_at (keep_if (is_shown cid options) ms))
unfolding select_messages
select_messages-eq-sort cid options ms = simp (keep_if-sort, keep_if-keep_if)

is_before-IsBefore : (o : Option Instant) (m : Message) → is_before o m ≡ true → IsBefore o m
is_before-IsBefore none m h = tt
is_before-IsBefore (some before) m h = ground arith

is_after-IsAfter : (o : Option Instant) (m : Message) → is_after o m ≡ true → IsAfter o m
is_after-IsAfter none m h = tt
is_after-IsAfter (some after) m h = ground arith

is_shown-IsShown :
    (cid : String) (options : ListMessagesOptions) (m : Message)
    → is_shown cid options m ≡ true
    → IsShown cid options m
is_shown-IsShown cid options m h = (
  ground (arith, eq_iff m.conversation_id cid),
  is_before-IsBefore options.before m (ground arith),
  is_after-IsAfter options.after m (ground arith),
)

limited-IsOldestFirst :
    (limit : Option ℕ) (ms : List Message) → IsOldestFirst ms → IsOldestFirst (limited limit ms)
unfolding slice_last
limited-IsOldestFirst none ms h = h
limited-IsOldestFirst (some n) ms h = ground (arith, drop-IsOldestFirst (length ms - n) ms h)

module _ (P : Message → Type 0) where
  limited-All : (limit : Option ℕ) (ms : List Message) → All P ms → All P (limited limit ms)
  unfolding slice_last
  limited-All none ms h = h
  limited-All (some n) ms h = ground (arith, All-drop P (length ms - n) ms h)

  insert-All :
      (m : Message) (ms : List Message) → P m → All P ms → All P (insert_by_created_at m ms)
  unfolding insert_by_created_at
  insert-All m [] p h = (p, tt)
  insert-All m (n ∷ ns) p (q, h) = ground (arith, insert-All m ns p h)

  pub sort-All : (ms : List Message) → All P ms → All P (sort_by_created_at ms)
  unfolding sort_by_created_at
  sort-All [] h = tt
  sort-All (m ∷ ms) (p, h) = insert-All m (sort_by_created_at ms) p (sort-All ms h)

-- A listing shows only messages of the conversation that were created strictly before `before` and
-- strictly after `after`, where these are given, in the order of their creation.
pub select_messages-IsShown :
    (cid : String) (options : ListMessagesOptions) (ms : List Message)
    → All (IsShown cid options) (select_messages cid options ms)
      × IsOldestFirst (select_messages cid options ms)
select_messages-IsShown cid options ms = rw (select_messages-eq-sort cid options ms) (
  limited-All (IsShown cid options) options.limit _ (
      sort-All (IsShown cid options) _ (
        All-keep_if_of (IsShown cid options) (is_shown cid options) (is_shown-IsShown cid options)
          ms)),
  limited-IsOldestFirst options.limit _ (sort-IsOldestFirst _),
)

-- With no limit nothing that may be shown is left out, and nothing is shown more often than it is
-- stored.
pub select_messages-perm :
    (cid : String) (options : ListMessagesOptions) (ms : List Message)
    → options.limit ≡ none
    → Perm (select_messages cid options ms) (keep_if (is_shown cid options) ms)
select_messages-perm cid options ms h = rw (select_messages-eq-sort cid options ms, h) (sort-perm _)

slice_last-splits :
    (n : ℕ) (xs : List Message)
    → 0 < n
    → (older : List Message) × (older ++ slice_last n xs ≡ xs)
      × (length (slice_last n xs) ≡ min n (length xs))
unfolding slice_last
slice_last-splits n xs h = (
  take (length xs - n) xs,
  ground (arith, take-append-drop (length xs - n) xs),
  ground (arith, length-drop (length xs - n) xs),
)

-- A positive limit cuts off the older end of the listing without it, and leaves as many messages as
-- the limit says, if there are so many.
pub select_messages-limit :
    (cid : String) (n : ℕ) (options : ListMessagesOptions) (ms : List Message)
    → 0 < n
    → (older : List Message) × (older ++ select_messages cid (record options { limit = some n }) ms
        ≡ select_messages cid (record options { limit = none }) ms)
      × (length (select_messages cid (record options { limit = some n }) ms)
          ≡ min n (length (select_messages cid (record options { limit = none }) ms)))
select_messages-limit cid n options ms h =
    rw
      (
        select_messages-eq-sort cid (record options { limit = some n }) ms,
        select_messages-eq-sort cid (record options { limit = none }) ms,
      )
      (slice_last-splits n _ h)

-- Without a limit, a new message that may be shown and is not older than any other goes to the
-- end of the listing.
pub select_messages-append :
    (cid : String) (options : ListMessagesOptions) (ms : List Message) (m : Message)
    → options.limit ≡ none
    → All (λ n. n.created_at ≤ m.created_at) ms
    → is_shown cid options m ≡ true
    → select_messages cid options (ms ++ m ∷ []) ≡ select_messages cid options ms ++ m ∷ []
select_messages-append cid options ms m unlimited newest shown =
    rw
      (
        select_messages-eq-sort cid options (ms ++ m ∷ []),
        select_messages-eq-sort cid options ms,
        unlimited,
        keep_if-append_kept (is_shown cid options) m shown ms,
      )
      (sort-append_newest m (keep_if (is_shown cid options) ms)
        (All-keep_if (λ n. n.created_at ≤ m.created_at) (is_shown cid options) ms newest))

is_shown_old :
    (cid : String) (options : ListMessagesOptions) (at : Instant)
    → options.after ≡ some at
    → (m : Message) → m.created_at ≤ at
    → is_shown cid options m ≡ false
is_shown_old cid options at after m old = ground arith

limited-nil : (limit : Option ℕ) → limited {A = Message} limit (sort_by_created_at []) ≡ []
unfolding slice_last sort_by_created_at
limited-nil none = refl
limited-nil (some ℕ.zero) = refl
limited-nil (some (ℕ.suc n)) = ground arith

-- Nothing is shown of what is not newer than `after`.
pub select_messages-empty :
    (cid : String) (options : ListMessagesOptions) (ms : List Message) (at : Instant)
    → options.after ≡ some at
    → All (λ n. n.created_at ≤ at) ms
    → select_messages cid options ms ≡ []
select_messages-empty cid options ms at after old =
    rw
      (
        select_messages-eq-sort cid options ms,
        keep_if-none (is_shown cid options) ms (
            All-map _ (λ m. is_shown cid options m ≡ false) (is_shown_old cid options at after) ms
              old),
      )
      (limited-nil options.limit)

-- The in-memory store keeps what the port promises of listings: only messages of the conversation
-- within the bounds of `before` and `after`, oldest first.
pub message_store-ListsInOrder :
    (random_uuid : ℕ → String) → ListsInOrder (message_store random_uuid)
unfolding list_by_conversation
message_store-ListsInOrder random_uuid = record {
  shown = λ cid options s s' ms h.
      let e : select_messages cid options s.messages ≡ ms = ground arith in
      subst (λ ms. All (IsShown cid options) ms × IsOldestFirst ms) e
        (select_messages-IsShown cid options s.messages);
}
