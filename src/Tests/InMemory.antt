-- ===== src/Tests/InMemory.antt =====
-- Instances of the theorems on src/adapters/in-memory.
use jiffy_messaging.Base.{◌≡◌, refl, List, [], ◌∷◌}
use jiffy_messaging.Exec.{ok}
use jiffy_messaging.Ports.Listing.{ListsInOrder}
use jiffy_messaging.Domain.{Message}
use jiffy_messaging.InMemory.{message_store, soft_delete}
use jiffy_messaging.InMemory.Listing.{message_store-ListsInOrder}
use jiffy_messaging.Tests.Data.{uuid, memory, greeting, tombstone_xx, deleted}

abbrev thread : List Message
thread = greeting ∷ []

message_store-ListsInOrder_example : ListsInOrder (message_store uuid)
message_store-ListsInOrder_example = message_store-ListsInOrder uuid

soft_delete_greeting : soft_delete "xx" 7 memory ≡ (ok tombstone_xx, deleted)
unfolding soft_delete
soft_delete_greeting = refl
