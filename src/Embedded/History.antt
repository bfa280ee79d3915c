-- ===== src/Embedded/History.antt =====
-- Histories of calls of the embedded service, and that its stores stay well-formed in all of them.
use jiffy_messaging.Base.{ℕ, ◌+◌, ◌≤◌, ◌≡◌, refl, String, Bool, List, [], ◌∷◌, arith, All, All-map}
use jiffy_messaging.Ports.{TokenVerifier, NewMessage}
use jiffy_messaging.Domain.{Instant, Message}
use jiffy_messaging.JsMap
use jiffy_messaging.JsMap.{JsMap}
use jiffy_messaging.Core.{
  create_conversation, send_message, delete_message, delete_conversation, mark_read,
}
use jiffy_messaging.InMemory
use jiffy_messaging.InMemory.{Memory, set_participant, in_conversation, tombstone, has_id}
use jiffy_messaging.Embedded.{in_memory_messaging}
use jiffy_messaging.Embedded.Calls.{
  create_cases, send_cases, delete_message_cases, delete_conversation_cases, mark_read_cases,
}
use jiffy_messaging.Embedded.Invariant.{
  IsWellFormed, soft_delete-IsWellFormed, create_message-IsWellFormed,
  create_conversation-IsWellFormed, in_conversation-IsWellFormed,
}

-- Calls of the service that may write, and time that passes; each call comes with the rule by which
-- the host's gate answers at that moment.
pub data Call : Type 0 where
  creates : (requester : String) (ids : List String) → Call
  sends : NewMessage → Call
  deletes_message : (cid message_id uid : String) → Call
  deletes_conversation : (cid uid : String) → Call
  reads : (cid uid : String) (at : Instant) → Call
  passes : ℕ → Call

abbrev pub Rule : Type 0
Rule = String → List String → Bool

module _ (random_uuid : ℕ → String) (verifier : TokenVerifier Memory) where
  -- The stores after one call, whether it returned or threw.
  unfoldable pub step : Memory → Rule × Call → Memory
  step s (rule, creates requester ids) =
      (create_conversation (in_memory_messaging random_uuid verifier rule) requester ids s).1
  step s (rule, sends input) =
      (send_message (in_memory_messaging random_uuid verifier rule) input s).1
  step s (rule, deletes_message cid message_id uid) =
      (delete_message (in_memory_messaging random_uuid verifier rule) cid message_id uid s).1
  step s (rule, deletes_conversation cid uid) =
      (delete_conversation (in_memory_messaging random_uuid verifier rule) cid uid s).1
  step s (rule, reads cid uid at) =
      (mark_read (in_memory_messaging random_uuid verifier rule) cid uid at s).1
  step s (rule, passes ms) = record s { clock = s.clock + ms }

  unfoldable pub run : Memory → List (Rule × Call) → Memory
  run s [] = s
  run s (c ∷ cs) = run (step s c) cs

  abbrev pub started : Instant → Memory
  started clock = record { conversations = JsMap.new_map; messages = []; clock = clock; drawn = 0 }

  later-past :
      (clock ms : ℕ) (messages : List Message)
      → All (λ m. m.created_at ≤ clock) messages
      → All (λ m. m.created_at ≤ clock + ms) messages
  later-past clock ms messages h = All-map _ _ (λ m p. omega arith) messages h

  module _ (uuid_injective : (i j : ℕ) → random_uuid i ≡ random_uuid j → i ≡ j) where
    step-IsWellFormed :
        (s : Memory) (c : Rule × Call)
        → IsWellFormed random_uuid s
        → IsWellFormed random_uuid (step s c)
    unfolding step
    step-IsWellFormed s (rule, creates requester ids) w =
        create_cases random_uuid verifier rule (IsWellFormed random_uuid) s w requester ids
          (create_conversation-IsWellFormed random_uuid uuid_injective ids s w)
    step-IsWellFormed s (rule, sends input) w =
        send_cases random_uuid verifier rule (IsWellFormed random_uuid) s w input
          (λ c found member. create_message-IsWellFormed random_uuid input c s w found member)
    step-IsWellFormed s (rule, deletes_message cid message_id uid) w =
        delete_message_cases random_uuid verifier rule (IsWellFormed random_uuid) s w cid message_id
          uid (soft_delete-IsWellFormed random_uuid message_id s.clock s w)
    step-IsWellFormed s (rule, deletes_conversation cid uid) w =
        delete_conversation_cases random_uuid verifier rule (IsWellFormed random_uuid) s w cid uid (
          unfold InMemory.clear in
          in_conversation-IsWellFormed _ (λ p. refl) random_uuid cid uid s w)
    step-IsWellFormed s (rule, reads cid uid at) w =
        mark_read_cases random_uuid verifier rule (IsWellFormed random_uuid) s w cid uid at (
          unfold InMemory.mark_read in
          in_conversation-IsWellFormed _ (λ p. refl) random_uuid cid uid s w)
    step-IsWellFormed s (rule, passes ms) w = record {
      blank = w.blank;
      authored = w.authored;
      past = later-past s.clock ms s.messages w.past;
      keyed = w.keyed;
    }

    run-IsWellFormed :
        (s : Memory) (cs : List (Rule × Call))
        → IsWellFormed random_uuid s
        → IsWellFormed random_uuid (run s cs)
    unfolding run
    run-IsWellFormed s [] w = w
    run-IsWellFormed s (c ∷ cs) w = run-IsWellFormed (step s c) cs (step-IsWellFormed s c w)

    -- If the runtime draws no id twice, then after any history of calls, failed ones included, that
    -- starts from empty stores: every tombstone has an empty body, every message was written by a
    -- participant of a conversation that exists, no message is from the future, and every conversation
    -- stands under its own id, one of those drawn.
    pub run-started-IsWellFormed :
        (clock : Instant) (cs : List (Rule × Call))
        → IsWellFormed random_uuid (run (started clock) cs)
    unfolding JsMap.get
    run-started-IsWellFormed clock cs =
        run-IsWellFormed (started clock) cs
          (record { blank = tt; authored = tt; past = tt; keyed = λ k c h. cc })
