-- ===== src/Server.antt =====
-- src/server/create-server.ts, with the constructor calls of src/http/app.ts: the Postgres stores,
-- the HTTP app and the WebSocket server in one process.
pub mod Frames
pub mod Sending
pub mod Posting
pub mod Quiet
pub mod Deleting
use jiffy_messaging.Base.{ℕ, String, Bool, true, Option, none, some, List, [], ◌∷◌, ◌++◌, map}
use jiffy_messaging.Errors.{Error}
use jiffy_messaging.Exec.{Result, ok, err, Exec, pure, ◌>>◌}
use jiffy_messaging.Domain.{Instant, Message, Conversation}
use jiffy_messaging.Ports.{
  ConversationStore, MessageStore, MessageBus, ConversationGate, MessageNotifier, TokenVerifier,
  VerifiedIdentity,
}
use jiffy_messaging.Core.{MessagingService, allow_all_gate, noop_message_notifier}
use jiffy_messaging.Http.Responses.{Response}
use jiffy_messaging.Http.App.{Packages, Request, serve}
use jiffy_messaging.Websocket.Registry.{Socket}
use jiffy_messaging.Websocket.Server
use jiffy_messaging.Websocket.Server.{deliver_to_participants}
use jiffy_messaging.Adapters.Buses.{InProcessMessageBus, Handler, on_message, publish}
use jiffy_messaging.Adapters.Postgres.{Pool}
use jiffy_messaging.Adapters.Postgres.Conversations.{conversation_store, find_by_id}
use jiffy_messaging.Adapters.Postgres.Messages.{message_store}

-- What the process keeps itself: the WebSocket server, the frames that were sent, in their order, and
-- the rejections that nothing handles, at the first of which Node ends the process.
pub record Live : Type 0 where
  pub websocket : Server.Server
  pub sent : List (Socket × Message)
  pub unhandled : List Error

-- `outside` is all that the adapters act on: the database, the host, Redis, the packages.
pub record Process (S : Type 0) : Type 0 where
  pub outside : S
  pub live : Live

pub record CreateServerConfig (S : Type 0) : Type 0 where
  pub pool : Pool S
  pub token_verifier : TokenVerifier S
  pub message_bus : Option (MessageBus S)
  pub conversation_gate : Option (ConversationGate S)
  pub message_notifier : Option (MessageNotifier S)

-- An adapter's call, in the process.
abbrev pub lifted : {S A : Type 0} → Exec S A → Exec (Process S) A
lifted m p = ((m p.outside).0, record p { outside = (m p.outside).1 })

abbrev pub lifted_conversations : {S : Type 0} → ConversationStore S → ConversationStore (Process S)
lifted_conversations store = record {
  create = λ ids. lifted (store.create ids);
  find_by_id = λ id. lifted (store.find_by_id id);
  find_by_participant = λ user_id. lifted (store.find_by_participant user_id);
  mark_read = λ id user_id at. lifted (store.mark_read id user_id at);
  clear = λ id user_id at. lifted (store.clear id user_id at);
}

abbrev pub lifted_messages : {S : Type 0} → MessageStore S → MessageStore (Process S)
lifted_messages store = record {
  create = λ input. lifted (store.create input);
  find_by_id = λ id. lifted (store.find_by_id id);
  list_by_conversation = λ id options. lifted (store.list_by_conversation id options);
  soft_delete = λ id at. lifted (store.soft_delete id at);
}

abbrev pub gate_or_default :
    {S : Type 0} → Option (ConversationGate S) → ConversationGate (Process S)
gate_or_default none = allow_all_gate
gate_or_default (some gate) = record {
  can_create_conversation = λ requester ids. lifted (gate.can_create_conversation requester ids);
}

abbrev pub notifier_or_default :
    {S : Type 0} → Option (MessageNotifier S) → MessageNotifier (Process S)
notifier_or_default none = noop_message_notifier
notifier_or_default (some notifier) = record {
  notify = λ message ids. lifted (notifier.notify message ids);
}

abbrev pub lifted_packages : {S : Type 0} → Packages S → Packages (Process S)
lifted_packages packages = record {
  cors_response = packages.cors_response;
  ip_limit = λ ip p. (
    (packages.ip_limit ip p.outside).0,
    record p { outside = (packages.ip_limit ip p.outside).1 },
  );
  user_limit = λ user_id p. (
    (packages.user_limit user_id p.outside).0,
    record p { outside = (packages.user_limit user_id p.outside).1 },
  );
  limited_response = packages.limited_response;
  not_found_response = packages.not_found_response;
}

-- The end of `deliverToParticipants`, from what the look-up of the conversation answered.
unfoldable pub delivered : (Socket → Bool) → Message → Result (Option Conversation) → Live → Live
delivered is_open message (ok found) live = record live {
  sent =
      live.sent
      ++ map (λ s. (s, message)) (deliver_to_participants is_open found live.websocket.registry);
}
delivered is_open message (err e) live = record live { unhandled = live.unhandled ++ e ∷ [] }

-- The handler that `attachWebSocketServer` registers with the bus.
abbrev pub delivery : Handler
delivery = 0

-- `is_open` is the sockets' `readyState`.
module _ {S : Type 0} (config : CreateServerConfig S) (is_open : Socket → Bool) where
  -- `void deliverToParticipants(message, config.conversations, registry)`, which is taken to run at
  -- once.
  unfoldable pub deliver : Message → Process S → Process S
  unfolding delivered
  deliver message p = record {
    outside = (find_by_id config.pool message.conversation_id p.outside).1;
    live =
        delivered is_open message (find_by_id config.pool message.conversation_id p.outside).0
          p.live;
  }

  unfoldable pub deliver_all : List (Handler × Message) → Process S → Process S
  unfolding deliver
  deliver_all [] p = p
  deliver_all ((handler, message) ∷ rest) p = deliver_all rest (deliver message p)

  abbrev in_process_message_bus : InProcessMessageBus
  in_process_message_bus = on_message (record { handlers = [] }) delivery

  -- `config.messageBus ?? new InProcessMessageBus()`, with the handler that is registered.
  unfoldable pub message_bus_or_default : Option (MessageBus S) → MessageBus (Process S)
  unfolding deliver_all on_message publish
  message_bus_or_default none = record {
    publish = λ message p. (ok tt, deliver_all (publish in_process_message_bus message) p);
  }
  message_bus_or_default (some bus) = record { publish = λ message. lifted (bus.publish message) }

  -- `now` is the clock.
  unfoldable pub messaging : (S → Instant) → MessagingService (Process S)
  unfolding message_bus_or_default
  messaging now = record {
    conversations = lifted_conversations (conversation_store config.pool);
    messages = lifted_messages (message_store config.pool);
    message_bus = message_bus_or_default config.message_bus;
    gate = gate_or_default config.conversation_gate;
    notifier = notifier_or_default config.message_notifier;
    now = λ p. now p.outside;
  }

  -- `readinessCheck`
  abbrev pub readiness_check : Exec S Bool
  readiness_check = config.pool.execute "SELECT 1" [] >> pure true

  -- A request to the server.
  unfoldable pub request :
      (S → Instant) → Packages S → (S → S) → Request → Process S → Response × Process S
  unfolding messaging
  request now packages count_published =
      serve (lifted_packages packages) (messaging now)
        (λ p. record p { outside = count_published p.outside })
        (λ token. lifted (config.token_verifier.verify token)) (some (lifted readiness_check))

-- The process when `createServer` has returned.
abbrev pub started : {S : Type 0} → S → Process S
started s = record {
  outside = s;
  live = record { websocket = Server.attach_web_socket_server none; sent = []; unhandled = [] };
}
