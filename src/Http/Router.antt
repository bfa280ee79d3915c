-- ===== src/Http/Router.antt =====
-- src/http/conversations-router.ts: a handler for each route, for a request whose user is known.
use jiffy_messaging.Base.{
  ℕ, String, Bool, Option, none, some, List, [], ◌∷◌, map, any, length, leb, not, ◌==◌,
  if◌then◌else◌,
}
use jiffy_messaging.Exec.{Result, ok, err}
use jiffy_messaging.Domain.{Instant, Message}
use jiffy_messaging.Core.{
  MessagingService, create_conversation, list_conversations, get_conversation, send_message,
  list_messages, mark_read, delete_message, delete_conversation,
}
use jiffy_messaging.Http.Responses.{
  Response, reply, failure, respond, error_handler, to_conversation_response, conversation_json,
  conversations_json, message_json, messages_json, no_content,
}

-- A property of the request's body, as far as the handlers tell values apart. An entry of an array
-- that is not a string is `none`.
pub data JsonField : Type 0 where
  text : String → JsonField
  array : List (Option String) → JsonField
  something_else : JsonField

-- `Number(x)`: a natural number, or another number, or NaN.
pub data JsNumber : Type 0 where
  natural : ℕ → JsNumber
  not_natural : JsNumber

-- What Express matched, with what it parsed of the path, the query and the body. `limit` is
-- `Number(rawLimit)` and `before` is `new Date(String(rawBefore))`, `some none` if that is invalid.
pub data Call : Type 0 where
  post_conversation : (participant_ids : JsonField) → Call
  get_conversations : Call
  get_conversation_by_id : (id : String) → Call
  post_message : (id : String) (body : JsonField) → Call
  get_messages : (id : String) (limit : Option JsNumber) (before : Option (Option Instant)) → Call
  post_read : (id : String) → Call
  delete_message_by_id : (id message_id : String) → Call
  delete_conversation_by_id : (id : String) → Call

abbrev pub max_participants : ℕ
max_participants = 50

abbrev combine_texts : Option String → Option (List String) → Option (List String)
combine_texts none rest = none
combine_texts (some t) none = none
combine_texts (some t) (some ts) = some (t ∷ ts)

-- The array, if all its entries are strings.
unfoldable pub all_texts : List (Option String) → Option (List String)
all_texts [] = some []
all_texts (t ∷ ts) = combine_texts t (all_texts ts)

unfoldable pub texts_of : JsonField → Option (List String)
unfolding all_texts
texts_of (array ts) = all_texts ts
texts_of (text t) = none
texts_of something_else = none

abbrev pub text_of : JsonField → Option String
text_of (text t) = some t
text_of (array ts) = none
text_of something_else = none

abbrev pub includes : List String → String → Bool
includes ids id = any (λ x. x == id) ids

-- The check of `limit`; `none` is the answer 400.
unfoldable pub checked_limit : Option JsNumber → Option (Option ℕ)
checked_limit none = some none
checked_limit (some (natural n)) = if leb n 0 then none else some (some n)
checked_limit (some not_natural) = none

unfoldable pub checked_before : Option (Option Instant) → Option (Option Instant)
checked_before none = some none
checked_before (some none) = none
checked_before (some (some at)) = some (some at)

-- `count_published` is `messagesPublishedTotal.inc()`.
module _ {S : Type 0} (service : MessagingService S) (count_published : S → S)
    (user_id : String) where
  abbrev pub post_checked : Option (List String) → S → Response × S
  post_checked none s = (failure 400 "participantIds must be an array of strings", s)
  post_checked (some ids) s =
      if not (leb (length ids) max_participants)
      then (failure 400 "participantIds cannot exceed 50 entries", s)
      else if not (includes ids user_id)
      then (failure 403 "Cannot create a conversation you are not part of", s)
      else respond (λ c. reply 201 (conversation_json (to_conversation_response c)))
          (create_conversation service user_id ids s)

  abbrev pub counted : Result Message × S → Response × S
  counted (ok m, s) = (reply 201 (message_json m), count_published s)
  counted (err e, s) = (error_handler e, s)

  abbrev send_checked : String → Option String → S → Response × S
  send_checked id none s = (failure 400 "body must be a string", s)
  send_checked id (some body) s =
      counted
        (send_message service (record { conversation_id = id; sender_id = user_id; body = body }) s)

  abbrev pub list_checked : String → Option (Option ℕ) → Option (Option Instant) → S → Response × S
  list_checked id none before s = (failure 400 "limit must be a positive integer", s)
  list_checked id (some limit) none s = (failure 400 "before must be a valid date", s)
  list_checked id (some limit) (some before) s =
      respond (λ ms. reply 200 (messages_json ms))
        (list_messages service id user_id (record { limit = limit; before = before; after = none })
          s)

  -- The routes; `now` is `new Date()`.
  unfoldable pub handle : Call → S → Response × S
  unfolding respond
  handle (post_conversation participant_ids) s = post_checked (texts_of participant_ids) s
  handle get_conversations s =
      respond (λ cs. reply 200 (conversations_json (map to_conversation_response cs)))
        (list_conversations service user_id s)
  handle (get_conversation_by_id id) s =
      respond (λ c. reply 200 (conversation_json (to_conversation_response c)))
        (get_conversation service id user_id s)
  handle (post_message id body) s = send_checked id (text_of body) s
  handle (get_messages id limit before) s =
      list_checked id (checked_limit limit) (checked_before before) s
  handle (post_read id) s =
      respond (λ _. reply 204 no_content) (mark_read service id user_id (service.now s) s)
  handle (delete_message_by_id id message_id) s =
      respond (λ m. reply 200 (message_json m)) (delete_message service id message_id user_id s)
  handle (delete_conversation_by_id id) s =
      respond (λ _. reply 204 no_content) (delete_conversation service id user_id s)
