-- ===== src/Embedded/Answers.antt =====
-- The answers of the embedded service over the in-memory stores, in terms of what these hold.
use jiffy_messaging.Base.{
  ℕ, ◌+◌, ◌<◌, ◌≤◌, ◌≡◌, refl, sym, ◌∙◌, ap, String, Bool, true, false, Option, none, some, List,
  [], ◌∷◌, ◌++◌, arith, find, update_first, Option-cases, Bool-cases, inl, inr, ◌⊎◌, ◌≢◌, ◌==◌,
  eq_iff, All, if◌then◌else◌,
}
use jiffy_messaging.Errors.{conversation_not_found, not_a_participant}
use jiffy_messaging.Exec.{Result, ok, err, detached}
use jiffy_messaging.Ports.{TokenVerifier, NewMessage, ListMessagesOptions, no_options}
use jiffy_messaging.Domain.{
  Instant, Message, ConversationParticipant, Conversation, is_user, is_participant, participant_of,
}
use jiffy_messaging.Domain.Laws.{is_participant-participant_of}
use jiffy_messaging.JsMap
use jiffy_messaging.JsMap.Laws.{get-set}
use jiffy_messaging.Core.{
  require_participant, send_message, list_messages, delete_conversation, with_after, cleared_at_of,
}
use jiffy_messaging.InMemory
use jiffy_messaging.InMemory.{Memory, select_messages, set_participant, has_id}
use jiffy_messaging.InMemory.Listing.{select_messages-append, select_messages-empty}
use jiffy_messaging.Embedded.{in_memory_messaging}
use jiffy_messaging.Embedded.Invariant.{is_participant-set_participant}

-- What `listMessages` answers, from the conversation that the store finds.
abbrev pub answer :
    String
    → String
    → ListMessagesOptions
    → List Message
    → Option Conversation
    → Result (List Message)
answer cid uid options ms none = err (conversation_not_found cid)
answer cid uid options ms (some c) =
    if is_participant c uid
    then ok (select_messages cid (with_after options (cleared_at_of c uid)) ms)
    else err (not_a_participant cid uid)

find-update_other :
    (f : ConversationParticipant → ConversationParticipant)
    → ((p : ConversationParticipant) → (f p).user_id ≡ p.user_id)
    → (u v : String) → (u == v) ≡ false
    → (ps : List ConversationParticipant)
    → find (is_user v) (update_first (is_user u) f ps) ≡ find (is_user v) ps
find-update_other f keeps_id u v other [] = refl
find-update_other f keeps_id u v other (p ∷ ps) = ground (
  arith,
  keeps_id p,
  find-update_other f keeps_id u v other ps,
  eq_iff p.user_id u,
  eq_iff p.user_id v,
  eq_iff u v,
)

pub participant_of-set_participant :
    (f : ConversationParticipant → ConversationParticipant)
    → ((p : ConversationParticipant) → (f p).user_id ≡ p.user_id)
    → (u v : String) → (u == v) ≡ false
    → (c : Conversation) → participant_of (set_participant f u c) v ≡ participant_of c v
unfolding participant_of set_participant
participant_of-set_participant f keeps_id u v other c =
    find-update_other f keeps_id u v other c.participants

find-update_self :
    (at : Instant) (u : String) (ps : List ConversationParticipant) (p : ConversationParticipant)
    → find (is_user u) ps ≡ some p
    → find (is_user u) (update_first (is_user u) (λ q. record q { cleared_at = some at }) ps)
      ≡ some (record p { cleared_at = some at })
find-update_self at u [] p h = ground arith
find-update_self at u (q ∷ ps) p h = ground (arith, find-update_self at u ps p)

-- A participant who just deleted the conversation has that instant on record.
pub cleared_at_of-clear :
    (at : Instant) (u : String) (c : Conversation)
    → is_participant c u ≡ true
    → cleared_at_of (set_participant (λ q. record q { cleared_at = some at }) u c) u ≡ some at
unfolding cleared_at_of participant_of set_participant
cleared_at_of-clear at u c member = elim (Option-cases (find (is_user u) c.participants)) [
  | inl e ↦ absurd (unfold participant_of in ground (arith, is_participant-participant_of c u))
  | inr (p, e) ↦ rw (find-update_self at u c.participants p e)
]

-- The answer depends on the asking user's own entry alone.
answer_congr :
    (cid uid : String) (options : ListMessagesOptions) (ms : List Message) (c d : Conversation)
    → participant_of c uid ≡ participant_of d uid
    → answer cid uid options ms (some c) ≡ answer cid uid options ms (some d)
unfolding cleared_at_of
answer_congr cid uid options ms c d same =
    ground (arith, is_participant-participant_of c uid, is_participant-participant_of d uid)

module _ (f : ConversationParticipant → ConversationParticipant)
    (keeps_id : (p : ConversationParticipant) → (f p).user_id ≡ p.user_id) (cid u ocid v : String)
    (options : ListMessagesOptions) (ms : List Message) (convs : JsMap.JsMap Conversation)
    (c : Conversation) (found : JsMap.get convs cid ≡ some c) where
  answer-set_same :
      cid ≡ ocid
      → (u == v) ≡ false
      → answer ocid v options ms (some (set_participant f u c))
        ≡ answer ocid v options ms (JsMap.get convs ocid)
  unfolding set_participant
  answer-set_same same other =
      answer_congr ocid v options ms (set_participant f u c) c
        (unfold participant_of in find-update_other f keeps_id u v other c.participants)
      ∙ ap (answer ocid v options ms) (sym found ∙ ap (JsMap.get convs) same)

  -- A change of one participant of one conversation changes no answer to others, or for others.
  pub answer-set :
      (u ≢ v) ⊎ (cid ≢ ocid)
      → answer ocid v options ms (JsMap.get (JsMap.set convs cid (set_participant f u c)) ocid)
        ≡ answer ocid v options ms (JsMap.get convs ocid)
  answer-set apart = elim (Bool-cases (cid == ocid)) [
    | inl same ↦
        rw (get-set convs cid ocid (set_participant f u c), same)
          (answer-set_same ((eq_iff cid ocid).0 same) (ground (arith, eq_iff u v, eq_iff cid ocid)))
    | inr other ↦ rw (get-set convs cid ocid (set_participant f u c), other)
  ]

-- To a user who deleted the conversation at `at` nothing up to then is shown.
pub answer-cleared :
    (cid uid : String) (options : ListMessagesOptions) (ms : List Message) (c : Conversation)
    (at : Instant)
    → is_participant c uid ≡ true
    → All (λ m. m.created_at ≤ at) ms
    → answer cid uid options ms
        (some (set_participant (λ p. record p { cleared_at = some at }) uid c))
      ≡ ok []
answer-cleared cid uid options ms c at member old =
    rw
      (
        is_participant-set_participant (λ p. record p { cleared_at = some at }) (λ p. refl) uid uid
            c,
        member,
        cleared_at_of-clear at uid c member,
      )
      (ap ok (select_messages-empty cid (with_after options (some at)) ms at refl old))

append-shown :
    (cid : String) (cleared : Option Instant) (ms : List Message) (m : Message)
    → All (λ n. n.created_at ≤ m.created_at) ms
    → m.conversation_id ≡ cid
    → ((at : Instant) → cleared ≡ some at → at < m.created_at)
    → select_messages cid (with_after no_options cleared) (ms ++ m ∷ [])
      ≡ select_messages cid (with_after no_options cleared) ms ++ m ∷ []
append-shown cid none ms m newest of_it later =
    select_messages-append cid no_options ms m refl newest
      (ground (arith, eq_iff m.conversation_id cid))
append-shown cid (some at) ms m newest of_it later =
    select_messages-append cid (with_after no_options (some at)) ms m refl newest
      (ground (arith, eq_iff m.conversation_id cid, later at refl))

-- A message that is sent now goes to the end of the answer to everyone who has not just deleted the
-- conversation.
pub answer-append :
    (cid uid : String) (c : Conversation) (ms shown : List Message) (m : Message)
    → All (λ n. n.created_at ≤ m.created_at) ms
    → m.conversation_id ≡ cid
    → ((at : Instant) → cleared_at_of c uid ≡ some at → at < m.created_at)
    → answer cid uid no_options ms (some c) ≡ ok shown
    → answer cid uid no_options (ms ++ m ∷ []) (some c) ≡ ok (shown ++ m ∷ [])
answer-append cid uid c ms shown m newest of_it later h =
    ground (arith, append-shown cid (cleared_at_of c uid) ms m newest of_it later)

module _ (random_uuid : ℕ → String) (verifier : TokenVerifier Memory)
    (rule : String → List String → Bool) where
  pub list_messages-answer :
      (cid uid : String) (options : ListMessagesOptions) (s : Memory)
      → list_messages (in_memory_messaging random_uuid verifier rule) cid uid options s
        ≡ (answer cid uid options s.messages (JsMap.get s.conversations cid), s)
  unfolding list_messages require_participant InMemory.find_conversation
      InMemory.list_by_conversation
  list_messages-answer cid uid options s = ground arith

  -- What a deletion for oneself leaves in the stores.
  pub cleared-state :
      (cid uid : String) (s s' : Memory)
      → delete_conversation (in_memory_messaging random_uuid verifier rule) cid uid s ≡ (ok tt, s')
      → (c : Conversation) × (JsMap.get s.conversations cid ≡ some c)
        × (is_participant c uid ≡ true)
        × (s' ≡ record s {
          conversations =
              JsMap.set s.conversations cid
                (set_participant (λ p. record p { cleared_at = some s.clock }) uid c);
        })
  unfolding delete_conversation require_participant InMemory.find_conversation InMemory.clear
      InMemory.in_conversation
  cleared-state cid uid s s' h = elim (Option-cases (JsMap.get s.conversations cid)) [
    | inl missing ↦ absurd (ground arith)
    | inr (c, found) ↦ (c, found, ground arith, ground arith)
  ]

  -- What a send that succeeds leaves in the stores.
  pub sent-state :
      (input : NewMessage) (s s' : Memory) (m : Message)
      → send_message (in_memory_messaging random_uuid verifier rule) input s ≡ (ok m, s')
      → (c : Conversation) × (JsMap.get s.conversations input.conversation_id ≡ some c)
        × (m.conversation_id ≡ c.id)
        × (m.created_at ≡ s.clock)
        × (s' ≡ record s { messages = s.messages ++ m ∷ []; drawn = s.drawn + 1 })
  unfolding send_message require_participant InMemory.find_conversation InMemory.create_message
      detached
  sent-state input s s' m h =
      elim (Option-cases (JsMap.get s.conversations input.conversation_id)) [
        | inl missing ↦ absurd (ground arith)
        | inr (c, found) ↦ (c, found, ground arith, ground arith, ground arith)
      ]
