-- ===== src/Adapters/Buses.antt =====
-- src/adapters/in-process/message-bus.ts, and the subscription of src/adapters/redis/message-bus.ts.
-- A handler is a number: the identity of the function. Node's `EventEmitter` calls the handlers in
-- the order in which they were added.
pub mod Unsubscribing
use mathlib.Core.List.{append-nil, append_assoc}
use jiffy_messaging.Base.{
  ℕ, ◌+◌, ◌≡◌, refl, String, Bool, true, false, List, [], ◌∷◌, ◌++◌, map, leb, any, ◌&&◌,
  if◌then◌else◌, ◌==◌, arith, sym, ◌∙◌,
}

abbrev pub Handler : Type 0
Handler = ℕ

abbrev pub is_same : Handler → Handler → Bool
is_same a b = leb a b && leb b a

-- `emitter.emit`: which handler gets what.
abbrev pub emit {ℓ} : {M : Type ℓ} → List Handler → M → List (Handler × M)
emit handlers message = map (λ h. (h, message)) handlers

-- `InProcessMessageBus`.
pub record InProcessMessageBus : Type 0 where
  pub handlers : List Handler

unfoldable pub publish : {M : Type 0} → InProcessMessageBus → M → List (Handler × M)
publish bus message = emit bus.handlers message

unfoldable pub on_message : InProcessMessageBus → Handler → InProcessMessageBus
on_message bus handler = record { handlers = bus.handlers ++ handler ∷ [] }

abbrev pub has_handler : Handler → List Handler → Bool
has_handler h handlers = any (is_same h) handlers

-- `emitter.off`: the handler's last registration goes, if there is one.
unfoldable pub off : Handler → List Handler → List Handler
off h [] = []
off h (x ∷ xs) =
    let rest = off h xs in if has_handler h xs then x ∷ rest else if is_same h x then xs else x ∷ xs

-- The function that `onMessage` returned for the handler, called later.
unfoldable pub unsubscribe : InProcessMessageBus → Handler → InProcessMessageBus
unfolding off
unsubscribe bus handler = record { handlers = off handler bus.handlers }

-- `RedisMessageBus`: the local emitter, the flag, and how often `subscribe` was sent.
pub record RedisMessageBus : Type 0 where
  pub local_handlers : List Handler
  pub subscribed : Bool
  pub subscribe_commands : ℕ

abbrev pub new_redis_bus : RedisMessageBus
new_redis_bus = record { local_handlers = []; subscribed = false; subscribe_commands = 0 }

unfoldable pub subscribe_handler : RedisMessageBus → Handler → RedisMessageBus
subscribe_handler bus handler = record {
  local_handlers = bus.local_handlers ++ handler ∷ [];
  subscribed = true;
  subscribe_commands =
      if bus.subscribed then bus.subscribe_commands else bus.subscribe_commands + 1;
}

-- Unsubscribing leaves the connection subscribed.
unfoldable pub unsubscribe_handler : RedisMessageBus → Handler → RedisMessageBus
unfolding off
unsubscribe_handler bus handler = record bus { local_handlers = off handler bus.local_handlers }

abbrev pub channel : String
channel = "jiffy-messaging:messages"

-- The subscriber's `message` event.
unfoldable pub on_payload : {M : Type 0} → RedisMessageBus → String → M → List (Handler × M)
on_payload bus from message = if from == channel then emit bus.local_handlers message else []

unfoldable pub subscribe_all : RedisMessageBus → List Handler → RedisMessageBus
subscribe_all bus [] = bus
subscribe_all bus (h ∷ hs) = subscribe_all (subscribe_handler bus h) hs

subscribe_all_lem :
    (bus : RedisMessageBus) (hs : List Handler)
    → bus.subscribed ≡ true
    → (subscribe_all bus hs).subscribe_commands ≡ bus.subscribe_commands
unfolding subscribe_all subscribe_handler
subscribe_all_lem bus [] h = refl
subscribe_all_lem bus (x ∷ xs) h = ground (arith, subscribe_all_lem (subscribe_handler bus x) xs)

local_handlers-subscribe_all :
    (bus : RedisMessageBus) (hs : List Handler)
    → (subscribe_all bus hs).local_handlers ≡ bus.local_handlers ++ hs
unfolding subscribe_all subscribe_handler
local_handlers-subscribe_all bus [] = sym (append-nil bus.local_handlers)
local_handlers-subscribe_all bus (x ∷ xs) =
    local_handlers-subscribe_all (subscribe_handler bus x) xs
    ∙ append_assoc bus.local_handlers (x ∷ []) xs

subscribe_all_commands :
    (h : Handler) (hs : List Handler)
    → (subscribe_all new_redis_bus (h ∷ hs)).subscribe_commands ≡ 1
unfolding subscribe_all subscribe_handler
subscribe_all_commands h hs = subscribe_all_lem (subscribe_handler new_redis_bus h) hs refl

-- However many handlers register with a new bus, at least one, a single command subscribes it;
-- and each payload on the channel, and none on another, goes to all of them, once for each
-- registration and in their order.
pub subscribe_all-once :
    {M : Type 0} (h : Handler) (hs : List Handler) (message : M)
    → ((subscribe_all new_redis_bus (h ∷ hs)).subscribe_commands ≡ 1)
      × (on_payload (subscribe_all new_redis_bus (h ∷ hs)) channel message ≡ emit (h ∷ hs) message)
      × ((from : String)
          → (from == channel) ≡ false
          → on_payload (subscribe_all new_redis_bus (h ∷ hs)) from message ≡ [])
unfolding on_payload
subscribe_all-once h hs message = (
  subscribe_all_commands h hs,
  rw (local_handlers-subscribe_all new_redis_bus (h ∷ hs)),
  λ from elsewhere. rw elsewhere,
)
