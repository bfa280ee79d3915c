-- ===== src/Websocket/Server.antt =====
-- src/websocket/websocket-server.ts: the handlers of the upgrade, of a socket that opens, closes or
-- outlives its token, and of a message from the bus.
pub mod Delivery
pub mod Gauge
pub mod Timers
pub mod Counting
use jiffy_messaging.Base.{
  ℕ, ◌+◌, ◌-◌, String, Bool, true, false, Option, none, some, List, [], ◌∷◌, ◌++◌, if◌then◌else◌,
  map, keep_if, leb, ◌&&◌,
}
use jiffy_messaging.Errors.{Error}
use jiffy_messaging.Exec.{Result, ok, err}
use jiffy_messaging.Domain.{Instant, Message, Conversation}
use jiffy_messaging.Ports.{VerifiedIdentity}
use jiffy_messaging.Text.{is_empty}
use jiffy_messaging.Websocket.RateLimiter
use jiffy_messaging.Websocket.RateLimiter.{ConnectionRateLimiter}
use jiffy_messaging.Websocket.Registry
use jiffy_messaging.Websocket.Registry.{ConnectionRegistry, Socket}

-- What the closure of `attachWebSocketServer` holds, and the gauge of open connections.
pub record Server : Type 0 where
  pub rate_limiter : ConnectionRateLimiter
  pub registry : ConnectionRegistry
  pub websocket_connections_active : ℕ

-- Without a limiter of its own the configuration gets 20 attempts in a minute.
unfoldable pub attach_web_socket_server : Option ConnectionRateLimiter → Server
attach_web_socket_server none = record {
  rate_limiter = RateLimiter.new_limiter 20 60000 none;
  registry = Registry.new_registry;
  websocket_connections_active = 0;
}
attach_web_socket_server (some limiter) = record {
  rate_limiter = limiter;
  registry = Registry.new_registry;
  websocket_connections_active = 0;
}

-- The request as the handler reads it: the peer's address, and what `extractToken` returns for its
-- URL, or what `new URL` throws where that is none, such as `//`.
pub record UpgradeRequest : Type 0 where
  pub remote_address : Option String
  pub token : Result (Option String)

-- The status line that is written before the socket is destroyed, the call of `handleUpgrade`, or a
-- promise that is rejected and that nobody handles.
pub data Admission : Type 0 where
  too_many_requests : Admission
  unauthorized : Admission
  handle_upgrade : VerifiedIdentity → Admission
  unhandled : Error → Admission

abbrev pub source_of : UpgradeRequest → String
source_of req = address req.remote_address
  where
    address : Option String → String
    address none = "unknown"
    address (some ip) = ip

abbrev verified : Result VerifiedIdentity → Admission
verified (ok identity) = handle_upgrade identity
verified (err e) = unauthorized

-- `!token` is true of the empty string too.
abbrev authenticate : (String → Result VerifiedIdentity) → Result (Option String) → Admission
authenticate verify (err e) = unhandled e
authenticate verify (ok none) = unauthorized
authenticate verify (ok (some token)) =
    if is_empty token then unauthorized else verified (verify token)

-- The handler of `upgrade`; `verify` is what the token verifier answers at that moment.
unfoldable pub on_upgrade :
    (String → Result VerifiedIdentity) → UpgradeRequest → Instant → Server → Admission × Server
on_upgrade verify req now server =
    let (let_in, limiter) = RateLimiter.allow server.rate_limiter (source_of req) now in
    let server' : Server = record server { rate_limiter = limiter } in
    (if let_in then authenticate verify req.token else too_many_requests, server')

-- Node's `setTimeout`: a delay over 2147483647 ms, or under 1, is set to 1.
unfoldable pub timeout_delay : ℕ → ℕ
timeout_delay ms = if leb 1 ms && leb ms 2147483647 then ms else 1

-- After how many milliseconds the timer, if one is set, closes the socket.
unfoldable pub expiry_timer : Option Instant → Instant → Option ℕ
unfolding timeout_delay
expiry_timer none now = none
expiry_timer (some expires_at) now = some (timeout_delay (expires_at - now))

-- The callback of `handleUpgrade`: the socket is open.
unfoldable pub on_open : VerifiedIdentity → Socket → Instant → Server → Option ℕ × Server
on_open identity socket now server = (
  expiry_timer identity.expires_at now,
  record server {
    registry = Registry.add server.registry identity.user_id socket;
    websocket_connections_active = server.websocket_connections_active + 1;
  },
)

-- The handler of `close`.
unfoldable pub on_close : String → Socket → Server → Server
on_close user_id socket server = record server {
  registry = Registry.remove server.registry user_id socket;
  websocket_connections_active = server.websocket_connections_active - 1;
}

-- The sockets that get the payload, in the order of the sends. `is_open` is their `readyState`.
unfoldable pub deliver_to : (Socket → Bool) → ConnectionRegistry → List String → List Socket
deliver_to is_open registry [] = []
deliver_to is_open registry (user_id ∷ user_ids) =
    keep_if is_open (Registry.get registry user_id) ++ deliver_to is_open registry user_ids

-- `deliverToParticipants`, from what the conversation store finds.
unfoldable pub deliver_to_participants :
    (Socket → Bool) → Option Conversation → ConnectionRegistry → List Socket
unfolding deliver_to
deliver_to_participants is_open none registry = []
deliver_to_participants is_open (some conversation) registry =
    deliver_to is_open registry (map (λ p. p.user_id) conversation.participants)
