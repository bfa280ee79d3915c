-- ===== src/Tests/Server.antt =====
-- Instances of the theorems on src/server/create-server.ts.
use jiffy_messaging.Base.{◌≡◌, ◌⊎◌, refl, Bool, true, Option, none, some, [], ◌∷◌}
use jiffy_messaging.Exec.{ok, detached}
use jiffy_messaging.Domain.{Message, Instant, is_participant}
use jiffy_messaging.Ports.{TokenVerifier}
use jiffy_messaging.Http.Responses.{reply, failure, no_content}
use jiffy_messaging.Http.Router.{text, post_message, handle}
use jiffy_messaging.Http.App.{Packages, api, serve, authenticate, bearer_token, after_prefix}
use jiffy_messaging.JsMap
use jiffy_messaging.Text.{is_empty, trim, trim_end, trim_start, is_white_space}
use jiffy_messaging.Core.{send_message, send_in, require_participant}
use jiffy_messaging.Adapters.Rows.{
  rows_to_conversations, add_rows, add_row, first_row, row_to_message,
}
use jiffy_messaging.Adapters.Buses.{on_message, publish}
use jiffy_messaging.Adapters.Postgres.Messages.{create}
use jiffy_messaging.Websocket.Server.{deliver_to_participants, deliver_to}
use jiffy_messaging.Websocket.Registry
use jiffy_messaging.Websocket.Registry.{new_registry, Socket}
use jiffy_messaging.Adapters.Postgres.{Pool}
use jiffy_messaging.Adapters.Postgres.Conversations.{find_by_id}
use jiffy_messaging.Server.{
  CreateServerConfig, Process, started, request, messaging, message_bus_or_default, deliver_all,
  deliver, delivered,
}
use jiffy_messaging.Server.Posting
use jiffy_messaging.Server.Deleting
use jiffy_messaging.Server.Quiet.{request-quiet}
use jiffy_messaging.Server.Deleting.{IsDeleted, request-Deleted}
use jiffy_messaging.Http.Router.{get_conversations, delete_message_by_id}
use jiffy_messaging.Server.Posting.{IsPosted, request-Posted}
use jiffy_messaging.Tests.Postgres.{one_message, new_message}
use jiffy_messaging.Tests.Transactions.{joined_query, joined}

-- A database with the conversations of the test data that can take one message.
abbrev pub pool : Pool (Option Message)
pool = record one_message {
  query_participants = λ t params s. ((joined_query t params joined).0, s);
}

abbrev token_is_user : TokenVerifier (Option Message)
token_is_user = record {
  verify = λ token s. (ok (record { user_id = token; expires_at = none }), s);
}

abbrev config : CreateServerConfig (Option Message)
config = record {
  pool = pool;
  token_verifier = token_is_user;
  message_bus = none;
  conversation_gate = none;
  message_notifier = none;
}

abbrev packages : Packages (Option Message)
packages = record {
  cors_response = reply 204 no_content;
  ip_limit = λ ip s. (true, s);
  user_limit = λ user_id s. (true, s);
  limited_response = failure 429 "Too many requests";
  not_found_response = failure 404 "Not found";
}

abbrev pub all_open : Socket → Bool
all_open s = true

abbrev pub clock : Option Message → Instant
clock s = 5

-- Bob is connected.
abbrev unused : Process (Option Message)
unused = started none

abbrev pub process : Process (Option Message)
process = record unused {
  live = record unused.live {
    websocket = record unused.live.websocket { registry = Registry.add new_registry "bob" 3 };
  };
}

request-Posted_example :
    IsPosted config all_open refl clock packages "127.0.0.1"
      (some "Bearer alice")
      "c1"
      (text "hi")
      process
      (request config all_open clock packages
        (λ s. s)
        (record {
          ip = "127.0.0.1";
          authorization = some "Bearer alice";
          target = api (post_message "c1" (text "hi"));
        })
        process)
    ⊎ Posting.IsRefused config all_open refl clock process.live (
        request config all_open clock packages
          (λ s. s)
          (record {
            ip = "127.0.0.1";
            authorization = some "Bearer alice";
            target = api (post_message "c1" (text "hi"));
          })
          process)
request-Posted_example =
    request-Posted config all_open refl clock packages "127.0.0.1" (some "Bearer alice") (λ s. s)
      "c1" (text "hi") process refl

bob_gets_it :
    (request config all_open clock packages
      (λ s. s)
      (record {
        ip = "127.0.0.1";
        authorization = some "Bearer alice";
        target = api (post_message "c1" (text "hi"));
      })
      process).1.live.sent
    ≡ (3, new_message "c1" "alice" "hi") ∷ []
unfolding request messaging serve authenticate bearer_token after_prefix handle send_message
    is_empty trim trim_end trim_start is_white_space require_participant send_in find_by_id
    rows_to_conversations add_rows add_row JsMap.values JsMap.set JsMap.get JsMap.lookup JsMap.store
    is_participant create first_row row_to_message detached message_bus_or_default deliver_all
    deliver delivered on_message publish deliver_to_participants deliver_to Registry.get
    Registry.add
bob_gets_it = refl

request-quiet_example :
    (request config all_open clock packages
      (λ s. s)
      (record {
        ip = "127.0.0.1";
        authorization = some "Bearer alice";
        target = api get_conversations;
      })
      process).1.live
    ≡ process.live
request-quiet_example =
    request-quiet config all_open clock packages (λ s. s) "127.0.0.1" (some "Bearer alice")
      get_conversations process tt

-- Alice has sent a message.
abbrev with_message : Process (Option Message)
with_message = record process { outside = some (new_message "c1" "alice" "hi") }

request-Deleted_example :
    IsDeleted config all_open refl clock packages "127.0.0.1"
      (some "Bearer alice")
      "c1"
      "m1"
      with_message
      (request config all_open clock packages
        (λ s. s)
        (record {
          ip = "127.0.0.1";
          authorization = some "Bearer alice";
          target = api (delete_message_by_id "c1" "m1");
        })
        with_message)
    ⊎ Deleting.IsRefused config all_open refl clock with_message.live (
        request config all_open clock packages
          (λ s. s)
          (record {
            ip = "127.0.0.1";
            authorization = some "Bearer alice";
            target = api (delete_message_by_id "c1" "m1");
          })
          with_message)
request-Deleted_example =
    request-Deleted config all_open refl clock packages "127.0.0.1" (some "Bearer alice") (λ s. s)
      "c1" "m1" with_message refl
