-- ===== src/Http/Clearing.antt =====
-- What clearing a conversation for one user leaves of the JSON that src/http sends to the others.
use jiffy_messaging.Base.{
  ◌≡◌, refl, String, false, Option, none, some, List, [], ◌∷◌, ◌++◌, arith, map, update_first,
  if◌then◌else◌, ◌==◌, eq_iff, Bool-cases, inl, inr,
}
use jiffy_messaging.Errors.{conversation_not_found, not_a_participant}
use jiffy_messaging.Domain.{
  Instant, Message, ConversationParticipant, Conversation, is_user, is_participant,
}
use jiffy_messaging.JsMap
use jiffy_messaging.JsMap.{JsMap, lookup, store}
use jiffy_messaging.JsMap.Laws.{get-set}
use jiffy_messaging.Core.{cleared_at_of, is_listed, with_last_message}
use jiffy_messaging.InMemory.{set_participant}
use jiffy_messaging.Embedded.Invariant.{is_participant-set_participant}
use jiffy_messaging.Embedded.Answers.{participant_of-set_participant}
use jiffy_messaging.Embedded.Lists.{stored_list, stored_preview}
use jiffy_messaging.Http.Responses.{
  Response, ConversationResponse, reply, error_handler, conversation_json, to_conversation_response,
  to_participant_response,
}

abbrev pub clear_at : Instant → ConversationParticipant → ConversationParticipant
clear_at at p = record p { cleared_at = some at }

map-update_first :
    (at : Instant) (u : String) (ps : List ConversationParticipant)
    → map to_participant_response (update_first (is_user u) (clear_at at) ps)
      ≡ map to_participant_response ps
unfolding to_participant_response
map-update_first at u [] = refl
map-update_first at u (p ∷ ps) = ground (arith, map-update_first at u ps)

-- The response of a conversation does not show who deleted it.
to_conversation_response-clear :
    (at : Instant) (u : String) (c : Conversation)
    → to_conversation_response (set_participant (clear_at at) u c) ≡ to_conversation_response c
unfolding to_conversation_response set_participant
to_conversation_response-clear at u c = ground (arith, map-update_first at u c.participants)

-- What one conversation adds to the response of the list.
abbrev row : String → List Message → Conversation → List ConversationResponse
row user_id ms c =
    if is_participant c user_id
    then (if is_listed (stored_preview user_id ms c)
        then to_conversation_response (with_last_message (stored_preview user_id ms c)) ∷ []
        else [])
    else []

abbrev pub rows : String → List Message → List Conversation → List ConversationResponse
rows user_id ms cs = map to_conversation_response (stored_list user_id ms cs)

rows-cons :
    (user_id : String) (ms : List Message) (c : Conversation) (cs : List Conversation)
    → rows user_id ms (c ∷ cs) ≡ row user_id ms c ++ rows user_id ms cs
rows-cons user_id ms c cs = ground arith

module _ (at : Instant) (u v : String) (other : (u == v) ≡ false) (ms : List Message) where
  cleared_at_of-other :
      (c : Conversation) → cleared_at_of (set_participant (clear_at at) u c) v ≡ cleared_at_of c v
  unfolding cleared_at_of
  cleared_at_of-other c = rw (participant_of-set_participant (clear_at at) (λ p. refl) u v other c)

  row-clear : (c : Conversation) → row v ms (set_participant (clear_at at) u c) ≡ row v ms c
  unfolding set_participant
  row-clear c =
      rw (is_participant-set_participant (clear_at at) (λ p. refl) u v c, cleared_at_of-other c)
        (rw (to_conversation_response-clear at u (with_last_message (stored_preview v ms c))) refl)

  pub rows-clear :
      (cid : String) (c : Conversation) (es : List (String × Conversation))
      → lookup cid es ≡ some c
      → rows v ms (map (λ e. e.1) (store cid (set_participant (clear_at at) u c) es))
        ≡ rows v ms (map (λ e. e.1) es)
  unfolding lookup store
  rows-clear cid c [] h = ground arith
  rows-clear cid c ((k, d) ∷ es) h = elim (Bool-cases (k == cid)) [
    | inl same ↦
        let e : d ≡ c = ground arith in
        rw (
          same,
          e,
          rows-cons v ms (set_participant (clear_at at) u c) (map (λ e. e.1) es),
          rows-cons v ms c (map (λ e. e.1) es),
          row-clear c,
        )
    | inr other_key ↦ rw (
      other_key,
      rows-cons v ms d (map (λ e. e.1) (store cid (set_participant (clear_at at) u c) es)),
      rows-cons v ms d (map (λ e. e.1) es),
      rows-clear cid c es (ground arith),
    )
  ]

-- What `GET /conversations/:id` answers, from the conversation that the store finds.
abbrev pub conversation_response : String → String → Option Conversation → Response
conversation_response k v none = error_handler (conversation_not_found k)
conversation_response k v (some c) =
    if is_participant c v
    then reply 200 (conversation_json (to_conversation_response c))
    else error_handler (not_a_participant k v)

pub conversation_response-clear :
    (at : Instant) (u v : String) (cid k : String) (convs : JsMap Conversation) (c : Conversation)
    → JsMap.get convs cid ≡ some c
    → conversation_response k v
        (JsMap.get (JsMap.set convs cid (set_participant (clear_at at) u c)) k)
      ≡ conversation_response k v (JsMap.get convs k)
conversation_response-clear at u v cid k convs c found = elim (Bool-cases (cid == k)) [
  | inl same ↦
      let e : cid ≡ k = (eq_iff cid k).0 same in
      rw (
        get-set convs cid k (set_participant (clear_at at) u c),
        same,
        ← e,
        found,
        is_participant-set_participant (clear_at at) (λ p. refl) u v c,
        to_conversation_response-clear at u c,
      )
  | inr other_key ↦ rw (get-set convs cid k (set_participant (clear_at at) u c), other_key)
]
