-- ===== src/Ports/Listing.antt =====
-- What the core may rely on of `listByConversation` of src/ports/message-store.ts.
use jiffy_messaging.Base.{◌≤◌, ◌<◌, ◌≡◌, String, Option, none, some, List, [], ◌∷◌, All}
use jiffy_messaging.Exec.{ok}
use jiffy_messaging.Domain.{Instant, Message}
use jiffy_messaging.Ports.{ListMessagesOptions, MessageStore}

abbrev pub IsOldestFirst : List Message → Type 0
IsOldestFirst [] = Unit
IsOldestFirst (m ∷ ms) = All (λ n. m.created_at ≤ n.created_at) ms × IsOldestFirst ms

abbrev pub IsBefore : Option Instant → Message → Type 0
IsBefore none m = Unit
IsBefore (some before) m = m.created_at < before

abbrev pub IsAfter : Option Instant → Message → Type 0
IsAfter none m = Unit
IsAfter (some after) m = after < m.created_at

-- What a listing for `cid` under `options` may show.
abbrev pub IsShown : String → ListMessagesOptions → Message → Type 0
IsShown cid options m =
    (m.conversation_id ≡ cid) × IsBefore options.before m × IsAfter options.after m

-- A listing shows what it may show, oldest first.
pub record ListsInOrder {S : Type 0} (store : MessageStore S) : Type 0 where
  pub shown :
      (cid : String) (options : ListMessagesOptions) (s s' : S) (ms : List Message)
      → store.list_by_conversation cid options s ≡ (ok ms, s')
      → All (IsShown cid options) ms × IsOldestFirst ms
