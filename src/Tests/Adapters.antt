-- ===== src/Tests/Adapters.antt =====
-- Instances of the theorems on src/adapters.
use jiffy_messaging.Base.{
  ◌+◌, ◌*◌, false, ◌-◌, if◌then◌else◌, Bool, ℕ, ◌≡◌, ◌==◌, refl, sym, String, true, none, some,
  List, [], ◌∷◌, arith, ap,
}
use jiffy_messaging.Errors.{other}
use jiffy_messaging.Exec.{Result, ok, err}
use jiffy_messaging.Domain.{Instant}
use jiffy_messaging.Adapters.Buses.{RedisMessageBus}
use jiffy_messaging.Adapters.Redis.{object_of, parse_message, stringify, parse_message-stringify}
use jiffy_messaging.Ports.{VerifiedIdentity}
use jiffy_messaging.Text.{is_empty}
use jiffy_messaging.Adapters.Jwt.{
  unix_epoch, verify_payload, expires_at_of, user_id_claim_of, Claim, missing, number, text,
  JwtPayload, JwtTokenVerifierOptions, JwtVerifyOptions, verify, asked, verify_lem,
}
use jiffy_messaging.Adapters.Gate.{
  Fetched, response, allowed_true, can_create_conversation, can_create_conversation_lem,
}
use jiffy_messaging.Adapters.Notifier.{Notification}
use jiffy_messaging.Adapters.Rows.{ConversationParticipantRow}
use jiffy_messaging.Tests.Data.{uuid, width, width-uuid, greeting}

-- A text form of instants, and its inverse.
abbrev from_text : String → Instant
from_text t = width t - 1

from_text-uuid : (at : Instant) → from_text (uuid at) ≡ at
from_text-uuid at = ground (arith, width-uuid at)

parse_message-stringify_example :
    parse_message uuid from_text (stringify uuid from_text (object_of greeting))
    ≡ object_of greeting
parse_message-stringify_example =
    (parse_message-stringify uuid from_text from_text-uuid greeting).0.1 refl

abbrev options : JwtTokenVerifierOptions
options = record { issuer = none; audience = none; user_id_claim = none }

abbrev payload : JwtPayload
payload claim =
    if claim == "sub" then text "alice" else if claim == "exp" then number 3 else missing

abbrev jwt_verify : String → JwtVerifyOptions → Result JwtPayload
jwt_verify token asked_for =
    if token == "secret" then ok payload else err (other "signature verification failed")

abbrev exp_of : Result JwtPayload → Claim
exp_of (ok p) = p "exp"
exp_of (err e) = missing

exp_required :
    (p : JwtPayload)
    → jwt_verify "secret" (asked options) ≡ ok p
    → (seconds : ℕ) × (p "exp" ≡ number seconds)
exp_required p h = (3, ap exp_of (sym h))

abbrev alice : VerifiedIdentity
alice = record { user_id = "alice"; expires_at = some (unix_epoch + 3000) }

verified_alice : verify jwt_verify options "secret" ≡ ok alice
unfolding verify verify_payload expires_at_of is_empty
verified_alice = refl

verify_lem_example :
    (p : JwtPayload) × (seconds : ℕ) × (jwt_verify "secret" (asked options) ≡ ok p)
    × (p (user_id_claim_of options) ≡ text "alice")
    × (is_empty "alice" ≡ false)
    × (p "exp" ≡ number seconds)
    × (alice.expires_at ≡ some (unix_epoch + seconds * 1000))
verify_lem_example = (verify_lem jwt_verify options "secret" exp_required).0 alice verified_alice

abbrev host : String → List String → Fetched
host requester_id participant_ids = response true allowed_true

can_create_conversation_lem_example : can_create_conversation host "alice" [] ≡ ok true
can_create_conversation_lem_example = (can_create_conversation_lem host "alice" []).0.1 refl

abbrev push_service : Notification → Result Bool
push_service n = err (other "connection refused")

abbrev row : String → String → ConversationParticipantRow
row id user_id = record {
  id = id;
  created_at = 5;
  user_id = user_id;
  last_read_at = none;
  cleared_at = none;
}

abbrev joined : List ConversationParticipantRow
joined = row "x" "alice" ∷ row "y" "alice" ∷ row "x" "bob" ∷ []

abbrev redis_bus : RedisMessageBus
redis_bus = record { local_handlers = 1 ∷ 2 ∷ []; subscribed = true; subscribe_commands = 1 }
