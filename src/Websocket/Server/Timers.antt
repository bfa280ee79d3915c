-- ===== src/Websocket/Server/Timers.antt =====
-- src/websocket/websocket-server.ts: what the callback of `handleUpgrade` keeps for each connection,
-- with the timer that closes the socket when its token expires.
pub mod Outliving
use jiffy_messaging.Base.{
  ℕ, ◌+◌, String, Bool, true, false, Option, none, some, List, [], ◌∷◌, ◌++◌, map, keep_if, any,
  not, leb, ◌&&◌, ◌==◌, ◌≡◌, if◌then◌else◌,
}
use jiffy_messaging.Domain.{Instant}
use jiffy_messaging.Ports.{VerifiedIdentity}
use jiffy_messaging.Websocket.RateLimiter.{ConnectionRateLimiter}
use jiffy_messaging.Websocket.Registry.{Socket, is_same}
use jiffy_messaging.Websocket.Server.{Server, attach_web_socket_server, on_open, on_close}

-- `expiryTimer`; `fired` is that `ws.close(4401, 'token expired')` was called.
pub data Timer : Type 0 where
  unset : Timer
  pending : (due : Instant) → Timer
  fired : Timer

-- The variables of the callback, and when it ran.
pub record Connection : Type 0 where
  pub user_id : String
  pub socket : Socket
  pub expires_at : Option Instant
  pub opened_at : Instant
  pub expiry_timer : Timer

pub record Connected : Type 0 where
  pub server : Server
  pub connections : List Connection

abbrev pub is_of : String → Socket → Connection → Bool
is_of user_id socket c = c.user_id == user_id && is_same socket c.socket

abbrev pub timer_of : Instant → Option ℕ → Timer
timer_of now none = unset
timer_of now (some delay) = pending (now + delay)

abbrev pub connection_of : VerifiedIdentity → Socket → Instant → Option ℕ → Connection
connection_of identity socket now delay = record {
  user_id = identity.user_id;
  socket = socket;
  expires_at = identity.expires_at;
  opened_at = now;
  expiry_timer = timer_of now delay;
}

-- The callback runs.
unfoldable pub connect : VerifiedIdentity → Socket → Instant → Connected → Connected
connect identity socket now s = record {
  server = (on_open identity socket now s.server).1;
  connections =
      s.connections
      ++ connection_of identity socket now (on_open identity socket now s.server).0 ∷ [];
}

-- The handler of `close`, with `clearTimeout`.
unfoldable pub disconnect : String → Socket → Connected → Connected
disconnect user_id socket s = record {
  server = on_close user_id socket s.server;
  connections = keep_if (λ c. not (is_of user_id socket c)) s.connections;
}

abbrev pub fired_if_due : Instant → Timer → Timer
fired_if_due now unset = unset
fired_if_due now fired = fired
fired_if_due now (pending due) = if leb due now then fired else pending due

abbrev pub with_timer_fired : String → Socket → Instant → Connection → Connection
with_timer_fired user_id socket now c =
    if is_of user_id socket c
    then record c { expiry_timer = fired_if_due now c.expiry_timer }
    else c

-- The timer of a connection, if it is due. The socket closes later, if at all, with an event of its
-- own.
unfoldable pub fire : String → Socket → Instant → Connected → Connected
fire user_id socket now s = record s {
  connections = map (with_timer_fired user_id socket now) s.connections;
}

abbrev pub attached : Option ConnectionRateLimiter → Connected
attached limiter = record { server = attach_web_socket_server limiter; connections = [] }

-- What may happen to the connections. A socket that opens is a new object, and only a connection that
-- is there closes.
pub data Step (s : Connected) : Connected → Type 0 where
  opens :
      (identity : VerifiedIdentity) (socket : Socket) (now : Instant)
      → any (is_of identity.user_id socket) s.connections ≡ false
      → Step s (connect identity socket now s)
  closes :
      (user_id : String) (socket : Socket)
      → any (is_of user_id socket) s.connections ≡ true
      → Step s (disconnect user_id socket s)
  fires : (user_id : String) (socket : Socket) (now : Instant) → Step s (fire user_id socket now s)

pub data Reach (start : Connected) : Connected → Type 0 where
  here : Reach start start
  next : {s t : Connected} → Reach start s → Step s t → Reach start t
