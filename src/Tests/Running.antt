-- ===== src/Tests/Running.antt =====
-- Instances of the theorems on `run` of src/main.ts.
use jiffy_messaging.Base.{
  ◌+◌, ◌*◌, ◌==◌, ◌≡◌, refl, String, true, false, Option, none, some, map, if◌then◌else◌,
}
use jiffy_messaging.JsMap
use jiffy_messaging.Exec.{ok, detached}
use jiffy_messaging.Text.{is_empty, trim, trim_end, trim_start, is_white_space}
use jiffy_messaging.Domain.{Message, Conversation, is_participant}
use jiffy_messaging.Ports.{NewMessage}
use jiffy_messaging.Core.{send_message, send_in, require_participant}
use jiffy_messaging.Adapters.Gate.{response, allowed_true, can_create_conversation}
use jiffy_messaging.Adapters.Jwt.{
  JwtPayload, missing, text, number, asked, user_id_claim_of, expires_at_of, verify, verify_payload,
  unix_epoch,
}
use jiffy_messaging.Adapters.Rows.{
  rows_to_conversations, add_rows, add_row, first_row, row_to_message,
}
use jiffy_messaging.Adapters.Postgres.Conversations.{find_by_id}
use jiffy_messaging.Adapters.Postgres.Messages.{create}
use jiffy_messaging.Server.{Process, messaging}
use jiffy_messaging.Env.{
  ProcessEnv, parse_env, split_commas, read_conversation_gate_env, read_message_notify_env,
  read_cors_origin_env,
}
use jiffy_messaging.Env.Running
use jiffy_messaging.Env.Running.{
  World, run, running_of, options_of, jwt_token_verifier, build_token_verifier,
  build_conversation_gate, build_message_notifier,
}
use jiffy_messaging.Env.Running.Gated.{run-gated}
use jiffy_messaging.Env.Running.Verified.{IsKeyOf, options_in, run-verified}
use jiffy_messaging.Tests.Postgres.{new_message}
use jiffy_messaging.Tests.Server.{pool, process, all_open, clock}
use jiffy_messaging.Tests.Env.{env, to_number, parsed}

-- A host that allows everything, and tokens that are the names of their users.
abbrev payload : String → JwtPayload
payload token claim =
    if claim == "sub" then text token else if claim == "exp" then number 9 else missing

abbrev world : World (Option Message) String
world = record {
  new_pool = λ url. pool;
  text_key = λ secret. secret;
  remote_key_set = λ uri. ok uri;
  jwt_verify = λ key token options s. (ok (payload token), s);
  fetch_gate = λ endpoint requester ids s. (response true allowed_true, s);
  fetch_notify = λ endpoint n s. (ok true, s);
  redis_publish = λ url channel payload s. (ok tt, s);
  to_iso = λ at. "2026-01-01T00:00:00.000Z";
  from_iso = λ t. 0;
  to_number = to_number;
}

abbrev gated_env : ProcessEnv
gated_env name =
    if name == "CONVERSATION_GATE_URL"
    then some "https://host/gate"
    else if name == "CONVERSATION_GATE_SECRET"
    then some "hush"
    else env name

abbrev running : Running.Running (Option Message)
running =
    running_of world
      (record parsed {
        conversation_gate = some (record { url = "https://host/gate"; secret = "hush" });
      })
      (jwt_token_verifier world "key" (options_of world none none none))

runs : run world gated_env ≡ ok running
unfolding run build_token_verifier parse_env read_conversation_gate_env read_message_notify_env
    read_cors_origin_env split_commas is_empty trim trim_start trim_end is_white_space
runs = refl

abbrev hi : NewMessage
hi = record { conversation_id = "c1"; sender_id = "alice"; body = "hi" }

abbrev after_hi : Process (Option Message)
after_hi = (send_message (messaging running.config all_open clock) hi process).1

sends :
    send_message (messaging running.config all_open clock) hi process
    ≡ (ok (new_message "c1" "alice" "hi"), after_hi)
unfolding send_message messaging is_empty trim trim_end trim_start is_white_space
    require_participant send_in find_by_id rows_to_conversations add_rows add_row JsMap.values
    JsMap.set JsMap.get JsMap.lookup JsMap.store is_participant create first_row row_to_message
    detached build_conversation_gate can_create_conversation
sends = refl

run-gated_example :
    (c : Conversation) × (s : Option Message) × (find_by_id pool "c1" process.outside
      ≡ (ok (some c), s))
    × (is_participant c "alice" ≡ true)
    × ((world.fetch_gate
          (record { url = "https://host/gate"; secret = "hush" })
          "alice"
          (map (λ m. m.user_id) c.participants)
          s).0
        ≡ response true allowed_true)
run-gated_example =
    run-gated world gated_env running "https://host/gate" "hush" all_open clock hi process after_hi
      (new_message "c1" "alice" "hi") runs (unfold is_empty in refl) (unfold is_empty in refl) sends

run-verified_example :
    (key : String) × (p : JwtPayload) × IsKeyOf world gated_env key
    × (world.jwt_verify key "alice" (asked (options_in world gated_env)) none ≡ (ok p, none))
    × (p (user_id_claim_of (options_in world gated_env)) ≡ text "alice")
    × (is_empty "alice" ≡ false)
    × (some (unix_epoch + 9 * 1000) ≡ expires_at_of (p "exp"))
run-verified_example =
    run-verified world gated_env running "alice"
      (record { user_id = "alice"; expires_at = some (unix_epoch + 9 * 1000) }) none none runs
      (unfold jwt_token_verifier verify verify_payload is_empty expires_at_of in refl)
