-- ===== src/Embedded/Clearing.antt =====
-- What deleting a conversation for oneself means, and what a send shows to the others.
use jiffy_messaging.Base.{
  ℕ, ◌<◌, ◌≡◌, refl, ◌∙◌, ap, String, Bool, some, List, [], ◌∷◌, ◌++◌, arith, ◌⊎◌, ◌≢◌, eq_refl,
}
use jiffy_messaging.Exec.{ok}
use jiffy_messaging.Ports.{TokenVerifier, NewMessage, ListMessagesOptions, no_options}
use jiffy_messaging.Domain.{Instant, Message, Conversation}
use jiffy_messaging.JsMap
use jiffy_messaging.JsMap.Laws.{get-set}
use jiffy_messaging.Core.{send_message, list_messages, delete_conversation, cleared_at_of}
use jiffy_messaging.InMemory.{Memory, set_participant}
use jiffy_messaging.Embedded.{in_memory_messaging}
use jiffy_messaging.Embedded.Invariant.{IsWellFormed}
use jiffy_messaging.Embedded.Answers.{
  answer, answer-cleared, answer-append, list_messages-answer, answer-set, cleared-state,
  sent-state,
}

module _ (random_uuid : ℕ → String) (verifier : TokenVerifier Memory)
    (rule : String → List String → Bool) where
  -- In well-formed stores, who deletes a conversation for themselves with success has an empty
  -- thread in it, under all options, when they list it next.
  pub list_messages-delete_conversation :
      (cid uid : String) (options : ListMessagesOptions) (s s' : Memory)
      → IsWellFormed random_uuid s
      → delete_conversation (in_memory_messaging random_uuid verifier rule) cid uid s ≡ (ok tt, s')
      → list_messages (in_memory_messaging random_uuid verifier rule) cid uid options s'
        ≡ (ok [], s')
  list_messages-delete_conversation cid uid options s s' w h =
      let (c, found, member, e) = cleared-state random_uuid verifier rule cid uid s s' h in
      rw (list_messages-answer random_uuid verifier rule cid uid options s') (
        ap (λ r. (r, s'))
          (rw
            (
              e,
              get-set s.conversations cid cid
                  (set_participant (λ p. record p { cleared_at = some s.clock }) uid c),
              eq_refl cid,
            )
            (answer-cleared cid uid options s.messages c s.clock member w.past)))

  -- After a deletion of a conversation for oneself that succeeds, nobody else notices: whoever
  -- asks for a thread, other than that user for that conversation, gets the answer that they
  -- would have got before, an error or the messages.
  pub delete_conversation-private :
      (cid uid other_cid other : String) (options : ListMessagesOptions) (s s' : Memory)
      → delete_conversation (in_memory_messaging random_uuid verifier rule) cid uid s ≡ (ok tt, s')
      → (uid ≢ other) ⊎ (cid ≢ other_cid)
      → (list_messages (in_memory_messaging random_uuid verifier rule) other_cid other options s').0
        ≡ (list_messages
            (in_memory_messaging random_uuid verifier rule)
            other_cid
            other
            options
            s).0
  delete_conversation-private cid uid other_cid other options s s' h apart =
      let (c, found, member, e) = cleared-state random_uuid verifier rule cid uid s s' h in
      rw
        (
          list_messages-answer random_uuid verifier rule other_cid other options s',
          list_messages-answer random_uuid verifier rule other_cid other options s,
          e,
        )
        (answer-set (λ p. record p { cleared_at = some s.clock }) (λ p. refl) cid uid other_cid
          other options s.messages s.conversations c found apart)

  -- In well-formed stores, a message whose send succeeds shows up at the end of the thread of
  -- everyone who could list it without options before, with what they saw then in front of it;
  -- for one who deleted the conversation this is said if that was at an earlier instant of the
  -- clock.
  pub list_messages-send_message :
      (input : NewMessage) (s s' : Memory) (m : Message) (uid : String) (c : Conversation)
      (shown : List Message)
      → IsWellFormed random_uuid s
      → send_message (in_memory_messaging random_uuid verifier rule) input s ≡ (ok m, s')
      → JsMap.get s.conversations input.conversation_id ≡ some c
      → ((at : Instant) → cleared_at_of c uid ≡ some at → at < s.clock)
      → list_messages
          (in_memory_messaging random_uuid verifier rule)
          input.conversation_id
          uid
          no_options
          s
        ≡ (ok shown, s)
      → list_messages
          (in_memory_messaging random_uuid verifier rule)
          input.conversation_id
          uid
          no_options
          s'
        ≡ (ok (shown ++ m ∷ []), s')
  list_messages-send_message input s s' m uid c shown w sent found later before =
      let (d, found', named, now, e) = sent-state random_uuid verifier rule input s s' m sent in
      let same : d ≡ c = ground arith in
      let old : answer input.conversation_id uid no_options s.messages (some c) ≡ ok shown =
        ground (
          arith,
          list_messages-answer random_uuid verifier rule input.conversation_id uid no_options s,
        ) in
      rw (list_messages-answer random_uuid verifier rule input.conversation_id uid no_options s') (
        ap (λ r. (r, s'))
          (rw (e, found)
            (answer-append input.conversation_id uid c s.messages shown m (rw now w.past)
              (named ∙ (w.keyed input.conversation_id d found').0) (λ at h. rw now (later at h))
              old)))
