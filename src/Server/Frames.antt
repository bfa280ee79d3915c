-- ===== src/Server/Frames.antt =====
-- What a message that is published puts on the sockets of the server of src/server/create-server.ts,
-- where messages are delivered in the process.
use mathlib.Core.List.{flat_map}
use jiffy_messaging.Base.{
  ◌≡◌, refl, sym, ap, subst, ◌∙◌, Bool, Option, none, some, List, [], ◌∷◌, ◌++◌, map, ◌⊎◌, inl, inr,
  arith, keep_if,
}
use jiffy_messaging.Errors.{Error}
use jiffy_messaging.Exec.{Result, ok, err}
use jiffy_messaging.Domain.{Message, Conversation, ConversationParticipant}
use jiffy_messaging.Ports.{MessageBus}
use jiffy_messaging.Websocket.Registry
use jiffy_messaging.Websocket.Registry.{Socket, ConnectionRegistry}
use jiffy_messaging.Websocket.Server.{deliver_to, deliver_to_participants}
use jiffy_messaging.Adapters.Buses.{on_message, publish}
use jiffy_messaging.Adapters.Postgres.Conversations.{find_by_id}
use jiffy_messaging.Server.{
  Live, Process, CreateServerConfig, delivered, deliver, message_bus_or_default, deliver_all,
}

keep_if-append :
    (p : Socket → Bool) (xs ys : List Socket) → keep_if p (xs ++ ys) ≡ keep_if p xs ++ keep_if p ys
keep_if-append p [] ys = refl
keep_if-append p (x ∷ xs) ys = ground (arith, keep_if-append p xs ys)

-- The open ones of all the sockets that are registered for these participants, in their order.
abbrev pub sockets_of :
    (Socket → Bool) → ConnectionRegistry → List ConversationParticipant → List Socket
sockets_of is_open registry ps =
    keep_if is_open (flat_map (λ p. Registry.get registry p.user_id) ps)

deliver_to-sockets_of :
    (is_open : Socket → Bool) (registry : ConnectionRegistry) (ps : List ConversationParticipant)
    → deliver_to is_open registry (map (λ p. p.user_id) ps) ≡ sockets_of is_open registry ps
unfolding deliver_to flat_map
deliver_to-sockets_of is_open registry [] = refl
deliver_to-sockets_of is_open registry (p ∷ ps) =
    ap (λ ts. keep_if is_open (Registry.get registry p.user_id) ++ ts)
      (deliver_to-sockets_of is_open registry ps)
    ∙ sym (
        keep_if-append is_open (Registry.get registry p.user_id)
          (flat_map (λ p. Registry.get registry p.user_id) ps))

-- The frames of a message, for the conversation that was found.
abbrev pub frames :
    (Socket → Bool) → ConnectionRegistry → Message → Option Conversation → List (Socket × Message)
frames is_open registry message none = []
frames is_open registry message (some c) =
    map (λ t. (t, message)) (sockets_of is_open registry c.participants)

module _ {S : Type 0} (config : CreateServerConfig S) (is_open : Socket → Bool) where
  -- The message went to each open socket that is registered for a participant of its conversation,
  -- as the store found it at `s`, participant by participant, and to no other; or that look-up failed, nothing
  -- went out, and nothing handles the failure. No connection was opened or closed.
  abbrev pub IsOnSockets : Message → S → Live → Live → Type 0
  IsOnSockets message s before after =
      ((found : Option Conversation) × ((find_by_id config.pool message.conversation_id s).0
          ≡ ok found)
        × (after.sent ≡ before.sent ++ frames is_open before.websocket.registry message found)
        × (after.unhandled ≡ before.unhandled)
        × (after.websocket ≡ before.websocket))
      ⊎ ((e : Error) × ((find_by_id config.pool message.conversation_id s).0 ≡ err e)
          × (after.sent ≡ before.sent)
          × (after.unhandled ≡ before.unhandled ++ e ∷ [])
          × (after.websocket ≡ before.websocket))

  delivered-IsOnSockets :
      (message : Message) (s : S) (r : Result (Option Conversation)) (live : Live)
      → (find_by_id config.pool message.conversation_id s).0 ≡ r
      → IsOnSockets message s live (delivered is_open message r live)
  unfolding delivered deliver_to_participants
  delivered-IsOnSockets message s (err e) live h = inr (e, h, refl, refl, refl)
  delivered-IsOnSockets message s (ok none) live h = inl (none, h, refl, refl, refl)
  delivered-IsOnSockets message s (ok (some c)) live h = inl (
    some c,
    h,
    ap (λ ts. live.sent ++ map (λ t. (t, message)) ts)
        (deliver_to-sockets_of is_open live.websocket.registry c.participants),
    refl,
    refl,
  )

  publish-deliver :
      (o : Option (MessageBus S)) (message : Message) (p : Process S)
      → o ≡ none
      → ((message_bus_or_default config is_open o).publish message p).1
        ≡ deliver config is_open message p
  unfolding message_bus_or_default deliver_all on_message publish
  publish-deliver none message p e = refl
  publish-deliver (some bus) message p e = absurd (ground arith)

  -- With the bus of the process, what is published goes to the sockets.
  pub publish-IsOnSockets :
      (message : Message) (p : Process S) (before : Live)
      → config.message_bus ≡ none
      → p.live ≡ before
      → IsOnSockets message p.outside before
          ((message_bus_or_default config is_open config.message_bus).publish message p).1.live
  unfolding deliver
  publish-IsOnSockets message p before in_process same =
      subst
        (λ live.
          IsOnSockets message p.outside live
            ((message_bus_or_default config is_open config.message_bus).publish message p).1.live)
        same
        (subst (λ q. IsOnSockets message p.outside p.live q.live)
          (sym (publish-deliver config.message_bus message p in_process))
          (delivered-IsOnSockets message p.outside
            (find_by_id config.pool message.conversation_id p.outside).0 p.live refl))
