-- ===== src/Env/Running.antt =====
-- src/main.ts: the adapters that it builds from the environment, and with them the server.
pub mod Gated
pub mod Verified
use jiffy_messaging.Base.{ℕ, String, Bool, Option, none, some, List, [], ◌∷◌}
use jiffy_messaging.Exec.{Result, ok, err, Exec}
use jiffy_messaging.Domain.{Instant, Message}
use jiffy_messaging.Ports.{TokenVerifier, MessageBus, ConversationGate, MessageNotifier}
use jiffy_messaging.Http.Router.{JsNumber}
use jiffy_messaging.Adapters.Jwt.{
  JwtTokenVerifierOptions, JwtVerifyOptions, JwtPayload, asked, verify,
}
use jiffy_messaging.Adapters.Gate.{Fetched, can_create_conversation}
use jiffy_messaging.Adapters.Notifier.{Notification, notification, notify}
use jiffy_messaging.Adapters.Redis.{MessageObject, object_of, stringify}
use jiffy_messaging.Adapters.Buses.{channel}
use jiffy_messaging.Adapters.Postgres.{Pool}
use jiffy_messaging.Server.{CreateServerConfig}
use jiffy_messaging.Env.{
  ProcessEnv, ParsedEnv, HostEndpoint, JwtEnvConfig, with_secret, with_jwks, filled, parse_env,
  ◌>>=◌, missing_jwt_claim_checks,
}

-- What `run` uses of the packages pg, jose and ioredis, and of the runtime. `new URL(uri)` may throw,
-- so a remote key set is a result.
pub record World (S Key : Type 0) : Type 0 where
  pub new_pool : String → Pool S
  pub text_key : String → Key
  pub remote_key_set : String → Result Key
  pub jwt_verify : Key → String → JwtVerifyOptions → Exec S JwtPayload
  pub fetch_gate : HostEndpoint → String → List String → S → Fetched × S
  pub fetch_notify : HostEndpoint → Notification → Exec S Bool
  pub redis_publish : String → String → MessageObject → Exec S (Unit {0})
  pub to_iso : Instant → String
  pub from_iso : String → Instant
  pub to_number : String → JsNumber

-- What `run` listens with, and the warning that it logs first, if it names any variable.
pub record Running (S : Type 0) : Type 0 where
  pub port : ℕ
  pub cors_origins : List String
  pub warned : List String
  pub config : CreateServerConfig S

module _ {S Key : Type 0} (world : World S Key) where
  -- `new JwtTokenVerifier(key, options)`: one call of `jwtVerify` for each token.
  unfoldable pub jwt_token_verifier : Key → JwtTokenVerifierOptions → TokenVerifier S
  jwt_token_verifier key options = record {
    verify = λ token s. (
      verify (λ t o. (world.jwt_verify key t o s).0) options token,
      (world.jwt_verify key token (asked options) s).1,
    );
  }

  abbrev pub options_of : Option String → Option String → Option String → JwtTokenVerifierOptions
  options_of issuer audience user_id_claim = record {
    issuer = issuer;
    audience = audience;
    user_id_claim = user_id_claim;
  }

  unfoldable pub build_token_verifier : JwtEnvConfig → Result (TokenVerifier S)
  unfolding jwt_token_verifier
  build_token_verifier (with_jwks uri issuer audience user_id_claim) =
      world.remote_key_set uri >>= λ key.
      ok (jwt_token_verifier key (options_of issuer audience user_id_claim))
  build_token_verifier (with_secret secret issuer audience user_id_claim) =
      ok (jwt_token_verifier (world.text_key secret) (options_of issuer audience user_id_claim))

  unfoldable pub build_conversation_gate : Option HostEndpoint → Option (ConversationGate S)
  build_conversation_gate none = none
  build_conversation_gate (some endpoint) = some (record {
    can_create_conversation = λ requester ids s. (
      can_create_conversation (λ r us. (world.fetch_gate endpoint r us s).0) requester ids,
      (world.fetch_gate endpoint requester ids s).1,
    );
  })

  -- No request where there is no recipient.
  abbrev after_notify : HostEndpoint → Message → List String → S → S
  after_notify endpoint message [] s = s
  after_notify endpoint message (r ∷ rs) s =
      (world.fetch_notify endpoint (notification message (r ∷ rs)) s).1

  unfoldable pub build_message_notifier : Option HostEndpoint → Option (MessageNotifier S)
  build_message_notifier none = none
  build_message_notifier (some endpoint) = some (record {
    notify = λ message ids s. (
      (notify (λ n. (world.fetch_notify endpoint n s).0) message ids).result,
      after_notify endpoint message ids s,
    );
  })

  -- `config.redisUrl ? … : undefined`, from the URL where it is set and not empty.
  abbrev pub message_bus_of : Option String → Option (MessageBus S)
  message_bus_of none = none
  message_bus_of (some url) = some (record {
    publish = λ message.
        world.redis_publish url channel (stringify world.to_iso world.from_iso (object_of message));
  })

  abbrev pub running_of : ParsedEnv → TokenVerifier S → Running S
  running_of env verifier = record {
    port = env.port;
    cors_origins = env.cors_origins;
    warned = missing_jwt_claim_checks env.jwt;
    config = record {
      pool = world.new_pool env.database_url;
      token_verifier = verifier;
      message_bus = message_bus_of (filled env.redis_url);
      conversation_gate = build_conversation_gate env.conversation_gate;
      message_notifier = build_message_notifier env.message_notify;
    };
  }

  -- What the process listens with, or the error that ends it.
  unfoldable pub run : ProcessEnv → Result (Running S)
  unfolding build_token_verifier build_conversation_gate build_message_notifier
  run env = do
    config ← parse_env world.to_number env
    verifier ← build_token_verifier config.jwt
    ok (running_of config verifier)
