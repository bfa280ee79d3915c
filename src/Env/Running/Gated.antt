-- ===== src/Env/Running/Gated.antt =====
-- That the host's gate is asked by the server that `run` of src/main.ts starts.
use jiffy_messaging.Base.{
  ◌≡◌, sym, ap, ◌∙◌, subst, String, Bool, true, Option, none, some, List, map, arith,
}
use jiffy_messaging.Exec.{ok}
use jiffy_messaging.Domain.{Instant, Message, Conversation, is_participant}
use jiffy_messaging.Ports.{ConversationGate}
use jiffy_messaging.Core.{SendMessageInput, send_message, user_ids}
use jiffy_messaging.Core.Sending.{send_message-ok_iff}
use jiffy_messaging.Websocket.Registry.{Socket}
use jiffy_messaging.Adapters.Gate.{response, allowed_true, can_create_conversation_lem}
use jiffy_messaging.Adapters.Postgres.Conversations.{find_by_id}
use jiffy_messaging.Server.{Process, messaging, gate_or_default}
use jiffy_messaging.Env.{ProcessEnv, HostEndpoint, filled}
use jiffy_messaging.Env.Parsing.{IsEndpoint, parse_env-ok, bind-ok}
use jiffy_messaging.Env.Running.{
  World, Running, running_of, build_token_verifier, build_conversation_gate, run,
}

endpoint_of :
    (url key : Option String) (u k : String) (o : Option HostEndpoint)
    → IsEndpoint url key o
    → filled url ≡ some u
    → filled key ≡ some k
    → o ≡ some (record { url = u; secret = k })
endpoint_of url key u k none (no_url, no_key) a b = absurd (ground arith)
endpoint_of url key u k (some e) (same_url, same_key) a b = ground arith

module _ {S Key : Type 0} (world : World S Key) where
  run-endpoint :
      (env : ProcessEnv) (r : Running S) (url secret : String)
      → run world env ≡ ok r
      → filled (env "CONVERSATION_GATE_URL") ≡ some url
      → filled (env "CONVERSATION_GATE_SECRET") ≡ some secret
      → r.config.conversation_gate
        ≡ build_conversation_gate world (some (record { url = url; secret = secret }))
  unfolding run
  run-endpoint env r url secret h a b =
      let (c, parsed, rest) = bind-ok _ _ r h in
      let (verifier, built, last) = bind-ok (build_token_verifier world c.jwt) _ r rest in
      let (_, _, _, endpoint, _, _, _, _) = parse_env-ok world.to_number env c parsed in
      let same : running_of world c verifier ≡ r = ground arith in
      ap (λ (x : Running S). x.config.conversation_gate) (sym same)
      ∙ ap (build_conversation_gate world)
          (endpoint_of _ _ url secret c.conversation_gate endpoint a b)

  -- What the gate said yes to, the host did.
  gate-allowed :
      (o : Option (ConversationGate S)) (endpoint : HostEndpoint) (p asked : Process S)
      (requester : String) (ids : List String)
      → o ≡ build_conversation_gate world (some endpoint)
      → (gate_or_default o).can_create_conversation requester ids p ≡ (ok true, asked)
      → (world.fetch_gate endpoint requester ids p.outside).0 ≡ response true allowed_true
  unfolding build_conversation_gate
  gate-allowed o endpoint p asked requester ids e h =
      (can_create_conversation_lem (λ r us. (world.fetch_gate endpoint r us p.outside).0) requester
          ids).0.0
        (ap (λ q. q.0)
          (subst
            (λ o. (gate_or_default o).can_create_conversation requester ids p ≡ (ok true, asked)) e
            h))

  -- If CONVERSATION_GATE_URL and CONVERSATION_GATE_SECRET are set and not empty, then in the
  -- process that `run` starts no message is sent with success unless the conversation was found that
  -- the request names, the sender takes part in it, and right after that look-up the host answered, at
  -- that URL and with that secret, for the sender and the ids of all of its participants, an ok status
  -- with `allowed: true`.
  pub run-gated :
      (env : ProcessEnv) (r : Running S) (url secret : String) (is_open : Socket → Bool)
      (now : S → Instant) (input : SendMessageInput) (p p' : Process S) (message : Message)
      → run world env ≡ ok r
      → filled (env "CONVERSATION_GATE_URL") ≡ some url
      → filled (env "CONVERSATION_GATE_SECRET") ≡ some secret
      → send_message (messaging r.config is_open now) input p ≡ (ok message, p')
      → (c : Conversation) × (s : S) × (find_by_id r.config.pool input.conversation_id p.outside
          ≡ (ok (some c), s))
        × (is_participant c input.sender_id ≡ true)
        × ((world.fetch_gate
              (record { url = url; secret = secret })
              input.sender_id
              (map (λ m. m.user_id) c.participants)
              s).0
            ≡ response true allowed_true)
  unfolding messaging
  run-gated env r url secret is_open now input p p' message started a b h =
      let sent = (send_message-ok_iff (messaging r.config is_open now) input p message p').0 h in
      (
        sent.conversation,
        sent.looked_up.outside,
        ap (λ q. (q.0, q.1.outside)) sent.found,
        sent.member,
        gate-allowed r.config.conversation_gate (record { url = url; secret = secret })
            sent.looked_up sent.asked input.sender_id (user_ids sent.conversation)
            (run-endpoint env r url secret started a b) sent.allowed,
      )
