-- ===== src/Tests/Env.antt =====
-- Instances of the theorems on src/main.ts.
use jiffy_messaging.Base.{
  ◌==◌, ◌≡◌, ◌<◌, refl, String, false, none, some, [], ◌∷◌, All, length, if◌then◌else◌,
}
use jiffy_messaging.Exec.{ok}
use jiffy_messaging.Text
use jiffy_messaging.Text.{is_empty}
use jiffy_messaging.Http.Router.{JsNumber, natural}
use jiffy_messaging.Env.{
  ProcessEnv, ParsedEnv, with_secret, filled, number_of_port, parse_env, split_commas,
  read_conversation_gate_env, read_message_notify_env, read_cors_origin_env,
}
use jiffy_messaging.Env.Parsing.{IsEndpoint, IsJwtOf, parse_env-ok}

-- A shared secret, no port, and two origins.
abbrev pub env : ProcessEnv
env name =
    if name == "DATABASE_URL"
    then some "postgres://db"
    else if name == "JWT_SECRET"
    then some "key"
    else if name == "CORS_ORIGIN"
    then some "https://a.io, https://b.io,"
    else none

abbrev pub to_number : String → JsNumber
to_number text = natural 0

abbrev pub parsed : ParsedEnv
parsed = record {
  database_url = "postgres://db";
  port = 8080;
  jwt = with_secret "key" none none none;
  redis_url = none;
  conversation_gate = none;
  message_notify = none;
  cors_origins = "https://a.io" ∷ "https://b.io" ∷ [];
}

accepted : parse_env to_number env ≡ ok parsed
unfolding parse_env read_conversation_gate_env read_message_notify_env read_cors_origin_env
    split_commas is_empty Text.trim Text.trim_start Text.trim_end Text.is_white_space
accepted = refl

parse_env-ok_example :
    (filled (env "DATABASE_URL") ≡ some "postgres://db")
    × (0 < 8080)
    × (number_of_port to_number (env "PORT") ≡ natural 8080)
    × IsEndpoint (env "CONVERSATION_GATE_URL") (env "CONVERSATION_GATE_SECRET") none
    × IsEndpoint (env "MESSAGE_NOTIFY_URL") (env "MESSAGE_NOTIFY_SECRET") none
    × IsJwtOf env (with_secret "key" none none none)
    × All (λ o. is_empty o ≡ false) ("https://a.io" ∷ "https://b.io" ∷ [])
    × (0 < length {A = String} ("https://a.io" ∷ "https://b.io" ∷ []))
parse_env-ok_example = parse_env-ok to_number env parsed accepted
