-- ===== src/Env.antt =====
-- src/main.ts: what it reads of the environment. `Number` is a parameter.
pub mod Parsing
pub mod Running
use Prim.Native.Char.{Char, code}
use Prim.Native.String
use jiffy_messaging.Base.{
  ℕ, String, Bool, true, Option, none, some, List, [], ◌∷◌, ◌++◌, map, keep_if, leb, not, ◌&&◌,
  if◌then◌else◌,
}
use jiffy_messaging.Errors.{Error, other}
use jiffy_messaging.Exec.{Result, ok, err}
use jiffy_messaging.Text.{is_empty, trim}
use jiffy_messaging.Http.Router.{JsNumber, natural, not_natural}

abbrev pub ProcessEnv : Type 0
ProcessEnv = String → Option String

pub data JwtEnvConfig : Type 0 where
  with_secret : (key : String) (issuer audience user_id_claim : Option String) → JwtEnvConfig
  with_jwks : (uri : String) (issuer audience user_id_claim : Option String) → JwtEnvConfig

-- `ConversationGateEnvConfig` and `MessageNotifyEnvConfig` have the same two properties.
pub record HostEndpoint : Type 0 where
  pub url : String
  pub secret : String

pub record ParsedEnv : Type 0 where
  pub database_url : String
  pub port : ℕ
  pub jwt : JwtEnvConfig
  pub redis_url : Option String
  pub conversation_gate : Option HostEndpoint
  pub message_notify : Option HostEndpoint
  pub cors_origins : List String

-- A value that is set and not empty.
abbrev pub filled : Option String → Option String
filled none = none
filled (some text) = if is_empty text then none else some text

is_comma : Char → Bool
is_comma c = leb 44 (code c) && leb (code c) 44

abbrev add_char : Char → List String → List String
add_char c [] = String.◌∷◌ c String.[] ∷ []
add_char c (s ∷ ss) = String.◌∷◌ c s ∷ ss

-- `raw.split(',')`
unfoldable pub split_commas : String → List String
unfolding is_comma
split_commas String.[] = String.[] ∷ []
split_commas (String.◌∷◌ c s) =
    let rest = split_commas s in if is_comma c then String.[] ∷ rest else add_char c rest

abbrev pub some_origins : List String → Result (List String)
some_origins [] = err (other "CORS_ORIGIN is set but contains no valid origins")
some_origins (o ∷ os) = ok (o ∷ os)

abbrev pub origins_of : Option String → Result (List String)
origins_of none = err (
    other
      "Missing required environment variable: CORS_ORIGIN (comma-separated list of allowed browser origins, e.g. https://www.goalslot.io)")
origins_of (some raw) = some_origins (keep_if (λ o. not (is_empty o)) (map trim (split_commas raw)))

unfoldable pub read_cors_origin_env : ProcessEnv → Result (List String)
read_cors_origin_env env = origins_of (filled (env "CORS_ORIGIN"))

abbrev pub both_or_neither : String → Option String → Option String → Result (Option HostEndpoint)
both_or_neither text none none = ok none
both_or_neither text (some url) (some secret) = ok (some (record { url = url; secret = secret }))
both_or_neither text none (some secret) = err (other text)
both_or_neither text (some url) none = err (other text)

unfoldable pub read_conversation_gate_env : ProcessEnv → Result (Option HostEndpoint)
read_conversation_gate_env env =
    both_or_neither
      "CONVERSATION_GATE_URL and CONVERSATION_GATE_SECRET must both be set, or neither"
      (filled (env "CONVERSATION_GATE_URL")) (filled (env "CONVERSATION_GATE_SECRET"))

unfoldable pub read_message_notify_env : ProcessEnv → Result (Option HostEndpoint)
read_message_notify_env env =
    both_or_neither "MESSAGE_NOTIFY_URL and MESSAGE_NOTIFY_SECRET must both be set, or neither"
      (filled (env "MESSAGE_NOTIFY_URL")) (filled (env "MESSAGE_NOTIFY_SECRET"))

abbrev invalid_port : Option String → Error
invalid_port none = other "Invalid PORT: undefined"
invalid_port (some text) = other (String.◌++◌ "Invalid PORT: " text)

abbrev pub checked_port : Option String → JsNumber → Result ℕ
checked_port raw (natural n) = if leb n 0 then err (invalid_port raw) else ok n
checked_port raw not_natural = err (invalid_port raw)

abbrev pub jwt_of : ProcessEnv → Option String → Option String → Result JwtEnvConfig
jwt_of env (some uri) key =
    ok (with_jwks uri (env "JWT_ISSUER") (env "JWT_AUDIENCE") (env "JWT_USER_ID_CLAIM"))
jwt_of env none (some key) =
    ok (with_secret key (env "JWT_ISSUER") (env "JWT_AUDIENCE") (env "JWT_USER_ID_CLAIM"))
jwt_of env none none = err (other "Set either JWT_JWKS_URI or JWT_SECRET")

abbrev pub database_url_of : Option String → Result String
database_url_of none = err (other "Missing required environment variable: DATABASE_URL")
database_url_of (some url) = ok url

infixr 2 ◌>>=◌
abbrev pub ◌>>=◌ : {A B : Type 0} → Result A → (A → Result B) → Result B
ok a >>= next = next a
err e >>= next = err e

module _ (to_number : String → JsNumber) where
  abbrev pub number_of_port : Option String → JsNumber
  number_of_port none = natural 8080
  number_of_port (some text) = to_number text

  unfoldable pub parse_env : ProcessEnv → Result ParsedEnv
  parse_env env = do
    database_url ← database_url_of (filled (env "DATABASE_URL"))
    port ← checked_port (env "PORT") (number_of_port (env "PORT"))
    conversation_gate ← read_conversation_gate_env env
    message_notify ← read_message_notify_env env
    jwt ← jwt_of env (filled (env "JWT_JWKS_URI")) (filled (env "JWT_SECRET"))
    cors_origins ← read_cors_origin_env env
    ok (record {
      database_url = database_url;
      port = port;
      jwt = jwt;
      redis_url = env "REDIS_URL";
      conversation_gate = conversation_gate;
      message_notify = message_notify;
      cors_origins = cors_origins;
    })

abbrev pub claims_missing : Option String → Option String → List String
claims_missing none none = "JWT_ISSUER" ∷ "JWT_AUDIENCE" ∷ []
claims_missing none (some audience) = "JWT_ISSUER" ∷ []
claims_missing (some issuer) none = "JWT_AUDIENCE" ∷ []
claims_missing (some issuer) (some audience) = []

unfoldable pub missing_jwt_claim_checks : JwtEnvConfig → List String
missing_jwt_claim_checks (with_secret key issuer audience user_id_claim) =
    claims_missing (filled issuer) (filled audience)
missing_jwt_claim_checks (with_jwks uri issuer audience user_id_claim) =
    claims_missing (filled issuer) (filled audience)
