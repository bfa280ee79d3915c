-- ===== src/InMemory/Tombstones.antt =====
-- `softDelete` of src/adapters/in-memory/message-store.ts, and deletions through the service.
use jiffy_messaging.Base.{
  ◌≡◌, String, none, some, List, [], ◌∷◌, arith, find, update_first, eq_iff, ◌==◌, if◌then◌else◌,
  Option-cases, inl, inr,
}
use jiffy_messaging.Exec.{ok}
use jiffy_messaging.Domain.{Instant, Message}
use jiffy_messaging.InMemory.{Memory, has_id, tombstone, soft_delete, find_message}

pub find-update_first :
    (id j : String) (at : Instant) (ms : List Message) (m : Message)
    → find (has_id id) ms ≡ some m
    → find (has_id j) (update_first (has_id id) (tombstone at) ms)
      ≡ (if id == j then some (tombstone at m) else find (has_id j) ms)
find-update_first id j at [] m h = ground arith
find-update_first id j at (n ∷ ns) m h =
    ground (arith, find-update_first id j at ns m, eq_iff n.id id, eq_iff n.id j, eq_iff id j)

-- After a deletion that succeeds, a second one of the same message, at whatever time, returns the
-- tombstone of the first and writes nothing.
pub soft_delete-repeat :
    (id : String) (at later : Instant) (s s' : Memory) (m : Message)
    → soft_delete id at s ≡ (ok m, s')
    → soft_delete id later s' ≡ (ok m, s')
unfolding soft_delete
soft_delete-repeat id at later s s' m h = elim (Option-cases (find (has_id id) s.messages)) [
  | inl missing ↦ absurd (ground arith)
  | inr (n, found) ↦ ground (arith, find-update_first id id at s.messages n found, eq_iff id id)
]

-- After a deletion that succeeds, of a message that was found and was no tombstone, what was
-- returned is that message with an empty body and the time of the deletion; under its id this is
-- found, and under every other id what was found before.
pub find_message-soft_delete :
    (id j : String) (at : Instant) (s s' : Memory) (m n : Message)
    → find (has_id id) s.messages ≡ some n
    → n.deleted_at ≡ none
    → soft_delete id at s ≡ (ok m, s')
    → (m ≡ record n { body = ""; deleted_at = some at })
      × (find_message j s' ≡ (ok (if id == j then some m else find (has_id j) s.messages), s'))
unfolding soft_delete find_message
find_message-soft_delete id j at s s' m n found standing h =
    (ground arith, ground (arith, find-update_first id j at s.messages n found))
