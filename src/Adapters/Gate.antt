-- ===== src/Adapters/Gate.antt =====
-- src/adapters/conversation-gate/http-conversation-gate.ts. What `fetch` comes to is a parameter.
use jiffy_messaging.Base.{◌≡◌, ◌↔◌, String, Bool, true, false, List, arith, if◌then◌else◌}
use jiffy_messaging.Errors.{Error, other}
use jiffy_messaging.Exec.{Result, ok, err}

-- The body of a response, as far as the gate tells bodies apart: not JSON, the JSON value null, a
-- value whose property `allowed` is true, and any other value.
pub data GateResponseBody : Type 0 where
  not_json null_value allowed_true anything_else : GateResponseBody

-- `fetch` rejected (no connection, a timeout), or it came to a response.
pub data Fetched : Type 0 where
  unreachable : Fetched
  response : (is_ok : Bool) → GateResponseBody → Fetched

-- Of the value null no property can be read.
abbrev pub null_read : Error
null_read = other "Cannot read properties of null (reading 'allowed')"

-- `return body.allowed === true`, behind the `try` around `response.json()`.
abbrev read_allowed : GateResponseBody → Result Bool
read_allowed not_json = ok false
read_allowed null_value = err null_read
read_allowed allowed_true = ok true
read_allowed anything_else = ok false

abbrev from_response : Fetched → Result Bool
from_response unreachable = ok false
from_response (response is_ok body) = if is_ok then read_allowed body else ok false

module _ (fetch : String → List String → Fetched) where
  unfoldable pub can_create_conversation : String → List String → Result Bool
  can_create_conversation requester_id participant_ids =
      from_response (fetch requester_id participant_ids)

  from_response_lem :
      (f : Fetched)
      → ((from_response f ≡ ok true) ↔ (f ≡ response true allowed_true))
        × ((e : Error)
            → (from_response f ≡ err e)
            → (f ≡ response true null_value) × (e ≡ null_read))
        × (f ≡ response true null_value → from_response f ≡ err null_read)
  from_response_lem unreachable =
      ((λ h. ground arith, λ h. ground arith), (λ e h. ground arith), λ h. ground arith)
  from_response_lem (response is_ok body) = (
    (λ h. ground arith, λ h. ground arith),
    (λ e h. (ground arith, ground arith)),
    λ h. ground arith,
  )

  -- The gate says yes exactly to a response with an ok status whose body has `allowed: true`. It throws
  -- exactly where the body of such a response is the JSON value null. In all other cases it says no.
  pub can_create_conversation_lem :
      (requester_id : String) (participant_ids : List String)
      → ((can_create_conversation requester_id participant_ids ≡ ok true)
          ↔ (fetch requester_id participant_ids ≡ response true allowed_true))
        × ((e : Error)
            → can_create_conversation requester_id participant_ids ≡ err e
            → (fetch requester_id participant_ids ≡ response true null_value) × (e ≡ null_read))
        × (fetch requester_id participant_ids ≡ response true null_value
            → can_create_conversation requester_id participant_ids ≡ err null_read)
  unfolding can_create_conversation
  can_create_conversation_lem requester_id participant_ids =
      from_response_lem (fetch requester_id participant_ids)
