-- ===== src/Core/Deleting.antt =====
-- Exactly when `deleteMessage` of src/core/messaging-service.ts succeeds, and what it then did.
use jiffy_messaging.Base.{
  ◌≡◌, String, true, none, some, arith, ◌↔◌, inl, inr, ◌⊎◌, is_some, eq_iff, Option-cases, Option,
}
use jiffy_messaging.Exec.{ok, detached, ◌>>=◌, Exec}
use jiffy_messaging.Domain.{Message, Conversation, is_participant}
use jiffy_messaging.Core.{MessagingService, require_participant, delete_message, delete_found}
use jiffy_messaging.Exec.Laws.{>>=-eq-ok}
use jiffy_messaging.Core.Access.{require_participant-eq-ok}

module _ {S : Type 0} (service : MessagingService S) (cid message_id requester_id : String) where
  -- The message was a tombstone already and comes back as it is, or the store was told to make it
  -- one, at the time read before, and what it returned was published.
  abbrev pub Outcome : Message → S → Message → S → Type 0
  Outcome original read message s' =
      ((is_some original.deleted_at ≡ true) × (message ≡ original) × (s' ≡ read))
      ⊎ ((original.deleted_at ≡ none)
          × (service.messages.soft_delete message_id (service.now read) read
              ≡ (ok message, (service.messages.soft_delete message_id (service.now read) read).1))
          × (s'
              ≡ (service.message_bus.publish message
                  (service.messages.soft_delete message_id (service.now read) read).1).1))

  pub record Deleted (s : S) (message : Message) (s' : S) : Type 0 where
    pub conversation : Conversation
    pub looked_up : S
    pub original : Message
    pub read : S
    pub found : service.conversations.find_by_id cid s ≡ (ok (some conversation), looked_up)
    pub member : is_participant conversation requester_id ≡ true
    pub found_message :
        service.messages.find_by_id message_id looked_up ≡ (ok (some original), read)
    pub belongs : original.conversation_id ≡ cid
    pub author : original.sender_id ≡ requester_id
    pub outcome : Outcome original read message s'

  delete_found-Outcome :
      (original message : Message) (read s' : S)
      → delete_found service cid message_id requester_id (some original) read ≡ (ok message, s')
      → (original.conversation_id ≡ cid)
        × (original.sender_id ≡ requester_id)
        × Outcome original read message s'
  unfolding delete_found detached
  delete_found-Outcome original message read s' h = (
    ground (arith, eq_iff original.conversation_id cid),
    ground (arith, eq_iff original.sender_id requester_id),
    (elim (Option-cases original.deleted_at) [
      | inl e ↦ inr (e, ground arith, ground arith)
      | inr (at, e) ↦ inl (ground arith, ground arith, ground arith)
    ]),
  )

  Outcome-delete_found :
      (original message : Message) (read s' : S)
      → original.conversation_id ≡ cid
      → original.sender_id ≡ requester_id
      → Outcome original read message s'
      → delete_found service cid message_id requester_id (some original) read ≡ (ok message, s')
  unfolding delete_found detached
  Outcome-delete_found original message read s' belongs author (inl (a, b, c)) =
      ground (arith, eq_iff original.conversation_id cid, eq_iff original.sender_id requester_id)
  Outcome-delete_found original message read s' belongs author (inr (a, b, c)) =
      ground (arith, eq_iff original.conversation_id cid, eq_iff original.sender_id requester_id)

  delete_after-Deleted :
      (c : Conversation) (found : Option Message) (s s1 s2 s' : S) (message : Message)
      → service.conversations.find_by_id cid s ≡ (ok (some c), s1)
      → is_participant c requester_id ≡ true
      → service.messages.find_by_id message_id s1 ≡ (ok found, s2)
      → delete_found service cid message_id requester_id found s2 ≡ (ok message, s')
      → Deleted s message s'
  delete_after-Deleted c none s s1 s2 s' message e member f h =
      absurd (unfold delete_found in ground arith)
  delete_after-Deleted c (some original) s s1 s2 s' message e member f h =
      let (belongs, author, outcome) = delete_found-Outcome original message s2 s' h in
      record {
        conversation = c;
        looked_up = s1;
        original = original;
        read = s2;
        found = e;
        member = member;
        found_message = f;
        belongs = belongs;
        author = author;
        outcome = outcome;
      }

  -- The rest of the method after the membership test.
  abbrev delete_rest : Conversation → Exec S Message
  delete_rest _ =
      service.messages.find_by_id message_id >>= delete_found service cid message_id requester_id

  delete_message-Deleted :
      (s : S) (message : Message) (s' : S)
      → delete_message service cid message_id requester_id s ≡ (ok message, s')
      → Deleted s message s'
  unfolding delete_message
  delete_message-Deleted s message s' h =
      let (c, s1, required, rest) =
        >>=-eq-ok (require_participant service cid requester_id) delete_rest s h in
      let (e, member) = require_participant-eq-ok service cid requester_id s required in
      let (found, s2, f, deleted) =
        >>=-eq-ok (service.messages.find_by_id message_id)
          (delete_found service cid message_id requester_id) s1 rest in
      delete_after-Deleted c found s s1 s2 s' message e member f deleted

  Deleted-delete_message :
      (s : S) (message : Message) (s' : S)
      → Deleted s message s'
      → delete_message service cid message_id requester_id s ≡ (ok message, s')
  unfolding delete_message require_participant
  Deleted-delete_message s message s' d =
      ground (arith, Outcome-delete_found d.original message d.read s' d.belongs d.author d.outcome)

  -- A deletion succeeds exactly when the requester is a participant of the conversation and the
  -- sender of the message, and the message is one of that conversation's. A message that was deleted
  -- before comes back as it was, with nothing written or published; otherwise the store marks it with
  -- the present time and what the store returned is published.
  pub delete_message-ok_iff :
      (s : S) (message : Message) (s' : S)
      → (delete_message service cid message_id requester_id s ≡ (ok message, s'))
        ↔ Deleted s message s'
  delete_message-ok_iff s message s' =
      (delete_message-Deleted s message s', Deleted-delete_message s message s')
