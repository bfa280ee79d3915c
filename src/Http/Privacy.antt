-- ===== src/Http/Privacy.antt =====
-- What the other participants can tell over HTTP of a deletion for oneself, with the in-memory stores.
use jiffy_messaging.Base.{
  ℕ, ◌≡◌, refl, ap, ◌≢◌, String, Bool, Option, none, some, List, arith, eq_iff, inl,
}
use jiffy_messaging.Exec.{Result, ok, err}
use jiffy_messaging.Ports.{TokenVerifier, ListMessagesOptions}
use jiffy_messaging.Domain.{Instant, Conversation}
use jiffy_messaging.JsMap
use jiffy_messaging.JsMap.{JsMap, lookup, store}
use jiffy_messaging.Core.{get_conversation, require_participant, delete_conversation, list_messages}
use jiffy_messaging.InMemory
use jiffy_messaging.InMemory.{Memory, set_participant}
use jiffy_messaging.Embedded.{in_memory_messaging}
use jiffy_messaging.Embedded.Answers.{cleared-state}
use jiffy_messaging.Embedded.Clearing.{delete_conversation-private}
use jiffy_messaging.Embedded.Lists.{list_conversations-stored}
use jiffy_messaging.Http.Responses.{Response, reply, respond, conversations_json, messages_json}
use jiffy_messaging.Http.Router.{
  handle, get_conversations, get_conversation_by_id, get_messages, JsNumber, checked_limit,
  checked_before, list_checked,
}
use jiffy_messaging.Http.Clearing.{
  clear_at, rows, rows-clear, conversation_response, conversation_response-clear,
}

respond_congr :
    {S A : Type 0} (send : A → Response) (r : Result A) (s : S) (p : Result A × S)
    → p.0 ≡ r
    → (respond send p).0 ≡ (respond send (r, s)).0
unfolding respond
respond_congr send (ok a) s p h = ground arith
respond_congr send (err e) s p h = ground arith

module _ (random_uuid : ℕ → String) (verifier : TokenVerifier Memory)
    (rule : String → List String → Bool) (count_published : Memory → Memory) where
  get_conversation-response :
      (k v : String) (s : Memory)
      → (handle
          (in_memory_messaging random_uuid verifier rule)
          count_published
          v
          (get_conversation_by_id k)
          s).0
        ≡ conversation_response k v (JsMap.get s.conversations k)
  unfolding handle get_conversation require_participant InMemory.find_conversation
  get_conversation-response k v s = ground arith

  get_conversations-response :
      (v : String) (s : Memory)
      → (handle
          (in_memory_messaging random_uuid verifier rule)
          count_published
          v
          get_conversations
          s).0
        ≡ reply 200 (conversations_json (rows v s.messages (JsMap.values s.conversations)))
  unfolding handle
  get_conversations-response v s = rw (list_conversations-stored random_uuid verifier rule v s)

  get_messages-response :
      (k v : String) (limit : Option JsNumber) (before : Option (Option Instant)) (s s' : Memory)
      → ((options : ListMessagesOptions)
          → (list_messages (in_memory_messaging random_uuid verifier rule) k v options s').0
            ≡ (list_messages (in_memory_messaging random_uuid verifier rule) k v options s).0)
      → (handle
          (in_memory_messaging random_uuid verifier rule)
          count_published
          v
          (get_messages k limit before)
          s').0
        ≡ (handle
            (in_memory_messaging random_uuid verifier rule)
            count_published
            v
            (get_messages k limit before)
            s).0
  unfolding handle
  get_messages-response k v limit before s s' same =
      checked (checked_limit limit) (checked_before before)
    where
      checked :
          (l : Option (Option ℕ)) (b : Option (Option Instant))
          → (list_checked
              (in_memory_messaging random_uuid verifier rule)
              count_published
              v
              k
              l
              b
              s').0
            ≡ (list_checked
                (in_memory_messaging random_uuid verifier rule)
                count_published
                v
                k
                l
                b
                s).0
      checked none b = refl
      checked (some l) none = refl
      checked (some l) (some b) =
          respond_congr (λ ms. reply 200 (messages_json ms)) _ _ _
            (same (record { limit = l; before = b; after = none }))

  -- On the in-memory stores, after a participant deleted a conversation for themselves with
  -- success, every GET of every other user is answered as before: the list of conversations,
  -- each conversation, and each thread.
  pub delete_conversation-unseen :
      (cid uid v : String) (s s' : Memory)
      → delete_conversation (in_memory_messaging random_uuid verifier rule) cid uid s ≡ (ok tt, s')
      → uid ≢ v
      → ((handle
            (in_memory_messaging random_uuid verifier rule)
            count_published
            v
            get_conversations
            s').0
          ≡ (handle
              (in_memory_messaging random_uuid verifier rule)
              count_published
              v
              get_conversations
              s).0)
        × ((k : String)
            → (handle
                (in_memory_messaging random_uuid verifier rule)
                count_published
                v
                (get_conversation_by_id k)
                s').0
              ≡ (handle
                  (in_memory_messaging random_uuid verifier rule)
                  count_published
                  v
                  (get_conversation_by_id k)
                  s).0)
        × ((k : String) (limit : Option JsNumber) (before : Option (Option Instant))
            → (handle
                (in_memory_messaging random_uuid verifier rule)
                count_published
                v
                (get_messages k limit before)
                s').0
              ≡ (handle
                  (in_memory_messaging random_uuid verifier rule)
                  count_published
                  v
                  (get_messages k limit before)
                  s).0)
  delete_conversation-unseen cid uid v s s' h apart =
      let (c, found, member, e) = cleared-state random_uuid verifier rule cid uid s s' h in
      (
        rw (get_conversations-response v s', get_conversations-response v s, e)
            (ap (λ rs. reply 200 (conversations_json rs)) (rows-set cid uid v s c found apart)),
        λ k.
            rw (get_conversation-response k v s', get_conversation-response k v s, e)
              (conversation_response-clear s.clock uid v cid k s.conversations c found),
        λ k limit before. get_messages-response k v limit before s s' (λ options.
            delete_conversation-private random_uuid verifier rule cid uid k v options s s' h
              (inl apart)),
      )
    where
      rows-set :
          (cid uid v : String) (s : Memory) (c : Conversation)
          → JsMap.get s.conversations cid ≡ some c
          → uid ≢ v
          → rows v s.messages (
              JsMap.values
                (JsMap.set s.conversations cid (set_participant (clear_at s.clock) uid c)))
            ≡ rows v s.messages (JsMap.values s.conversations)
      rows-set cid uid v s c found apart =
          unfold JsMap.get JsMap.set JsMap.values in
          rows-clear s.clock uid v (ground (arith, eq_iff uid v)) s.messages cid c
            s.conversations.entries (unfold JsMap.get in found)
