-- ===== src/Http/Responses.antt =====
-- src/http/error-handler.ts, and the responses that the routes send.
use jiffy_messaging.Base.{ℕ, ◌≡◌, ◌⊎◌, refl, String, Option, List, map, arith, inl, inr}
use jiffy_messaging.Errors.{
  Error, conversation_not_found, not_a_participant, empty_message, conversation_not_allowed,
  message_not_found, not_message_author, invalid_token, other, message_of,
}
use jiffy_messaging.Exec.{Result, ok, err}
use jiffy_messaging.Domain.{Instant, Message, ConversationParticipant, Conversation}

pub record ParticipantResponse : Type 0 where
  pub user_id : String
  pub last_read_at : Option Instant

pub record ConversationResponse : Type 0 where
  pub id : String
  pub participants : List ParticipantResponse
  pub created_at : Instant
  pub last_message : Option (Option Message)

-- `toConversationResponse` of the conversations router.
unfoldable pub to_participant_response : ConversationParticipant → ParticipantResponse
to_participant_response p = record { user_id = p.user_id; last_read_at = p.last_read_at }

unfoldable pub to_conversation_response : Conversation → ConversationResponse
unfolding to_participant_response
to_conversation_response c = record {
  id = c.id;
  participants = map to_participant_response c.participants;
  created_at = c.created_at;
  last_message = c.last_message;
}

pub data Payload : Type 0 where
  error_text : String → Payload
  conversation_json : ConversationResponse → Payload
  conversations_json : List ConversationResponse → Payload
  message_json : Message → Payload
  messages_json : List Message → Payload
  status_text : String → Payload
  metrics_text : Payload
  no_content : Payload

pub record Response : Type 0 where
  pub status : ℕ
  pub payload : Payload

abbrev pub reply : ℕ → Payload → Response
reply status payload = record { status = status; payload = payload }

abbrev pub failure : ℕ → String → Response
failure status text = reply status (error_text text)

unfoldable pub error_handler : Error → Response
error_handler (conversation_not_found id) = failure 404 (message_of (conversation_not_found id))
error_handler (message_not_found id) = failure 404 (message_of (message_not_found id))
error_handler (not_message_author id user) = failure 403 (message_of (not_message_author id user))
error_handler (not_a_participant id user) = failure 403 (message_of (not_a_participant id user))
error_handler (conversation_not_allowed requester ids) =
    failure 403 (message_of (conversation_not_allowed requester ids))
error_handler empty_message = failure 400 (message_of empty_message)
error_handler (invalid_token reason) = failure 500 "Internal server error"
error_handler (other text) = failure 500 "Internal server error"

-- `try { res…(await action) } catch (error) { next(error) }`, with the error handler behind it.
unfoldable pub respond : {S A : Type 0} → (A → Response) → Result A × S → Response × S
respond send (ok a, s) = (send a, s)
respond send (err e, s) = (error_handler e, s)

-- The error is one that the core throws on purpose.
abbrev pub IsOfCore : Error → Type 0
IsOfCore (invalid_token reason) = ⊥
IsOfCore (other text) = ⊥
IsOfCore e = Unit

-- Every error of the core is answered in its own words, with a status under 500; every other error is
-- answered by one and the same response, which says nothing of it.
pub error_handler_lem :
    (e : Error)
    → (IsOfCore e
        × ((error_handler e).payload ≡ error_text (message_of e))
        × (((error_handler e).status ≡ 400)
            ⊎ ((error_handler e).status ≡ 403)
            ⊎ ((error_handler e).status ≡ 404)))
      ⊎ ((IsOfCore e → ⊥) × (error_handler e ≡ failure 500 "Internal server error"))
unfolding error_handler
error_handler_lem (conversation_not_found id) = inl (tt, refl, ground arith)
error_handler_lem (not_a_participant id user) = inl (tt, refl, ground arith)
error_handler_lem empty_message = inl (tt, refl, ground arith)
error_handler_lem (conversation_not_allowed requester ids) = inl (tt, refl, ground arith)
error_handler_lem (message_not_found id) = inl (tt, refl, ground arith)
error_handler_lem (not_message_author id user) = inl (tt, refl, ground arith)
error_handler_lem (invalid_token reason) = inr ((λ h. h), refl)
error_handler_lem (other text) = inr ((λ h. h), refl)
