-- ===== src/Embedded/Deleting.antt =====
-- Deleting a message through the embedded service.
use jiffy_messaging.Base.{
  ℕ, ◌≡◌, refl, String, Bool, true, some, List, arith, find, eq_iff, inl, inr, is_some,
}
use jiffy_messaging.Exec.{ok}
use jiffy_messaging.Ports.{TokenVerifier}
use jiffy_messaging.Domain.{Instant, Message}
use jiffy_messaging.JsMap
use jiffy_messaging.Core.{delete_message}
use jiffy_messaging.Core.Deleting.{Deleted, delete_message-ok_iff}
use jiffy_messaging.InMemory
use jiffy_messaging.InMemory.{Memory, has_id}
use jiffy_messaging.InMemory.Tombstones.{find-update_first}
use jiffy_messaging.Embedded.{in_memory_messaging}

module _ (random_uuid : ℕ → String) (verifier : TokenVerifier Memory)
    (rule rule' : String → List String → Bool) where
  -- What a deletion that succeeds leaves in the stores.
  Deleted-state :
      (cid message_id uid : String) (s s' : Memory) (m : Message)
      → Deleted (in_memory_messaging random_uuid verifier rule) cid message_id uid s m s'
      → (s'.conversations ≡ s.conversations)
        × (find (has_id message_id) s'.messages ≡ some m)
        × (m.conversation_id ≡ cid)
        × (m.sender_id ≡ uid)
        × (is_some m.deleted_at ≡ true)
  unfolding InMemory.find_conversation InMemory.find_message InMemory.soft_delete
  Deleted-state cid message_id uid s s' m d = elim d.outcome [
    | inl (already, same, kept) ↦
        (ground arith, ground arith, ground arith, ground arith, ground arith)
    | inr (standing, marked, kept) ↦ (
      ground arith,
      ground (
        arith,
        find-update_first message_id message_id s.clock s.messages d.original,
        eq_iff message_id message_id,
      ),
      ground arith,
      ground arith,
      ground arith,
    )
  ]

  conversation-found :
      (cid message_id uid : String) (s s' : Memory) (m : Message)
      (d : Deleted (in_memory_messaging random_uuid verifier rule) cid message_id uid s m s')
      → JsMap.get s.conversations cid ≡ some d.conversation
  unfolding InMemory.find_conversation
  conversation-found cid message_id uid s s' m d = let found = d.found in ground arith

  -- After a deletion of a message that succeeds, asking again for the same one at any later
  -- reading of the clock, under whatever rule of the gate then, returns the same tombstone,
  -- deletion time included, and writes nothing.
  pub delete_message-repeat :
      (cid message_id uid : String) (later : Instant) (s s' : Memory) (m : Message)
      → delete_message (in_memory_messaging random_uuid verifier rule) cid message_id uid s
        ≡ (ok m, s')
      → delete_message
          (in_memory_messaging random_uuid verifier rule')
          cid
          message_id
          uid
          (record s' { clock = later })
        ≡ (ok m, record s' { clock = later })
  delete_message-repeat cid message_id uid later s s' m h =
      let d =
        (delete_message-ok_iff (in_memory_messaging random_uuid verifier rule) cid message_id uid s
            m s').0
          h in
      let (convs, found, of_it, author, gone) = Deleted-state cid message_id uid s s' m d in
      (delete_message-ok_iff (in_memory_messaging random_uuid verifier rule') cid message_id uid
          (record s' { clock = later }) m (record s' { clock = later })).1
        (record {
          conversation = d.conversation;
          looked_up = record s' { clock = later };
          original = m;
          read = record s' { clock = later };
          found =
              unfold InMemory.find_conversation in
              ground (arith, conversation-found cid message_id uid s s' m d);
          member = d.member;
          found_message = unfold InMemory.find_message in ground arith;
          belongs = of_it;
          author = author;
          outcome = inl (gone, refl, refl);
        })
