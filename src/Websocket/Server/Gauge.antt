-- ===== src/Websocket/Server/Gauge.antt =====
-- The gauge of src/observability/metrics.ts counts the sockets in the registry.
use jiffy_messaging.Base.{
  ◌+◌, ◌-◌, ◌≡◌, refl, ap, String, true, false, Option, none, some, [], ◌∷◌, ◌++◌, arith,
  Bool-cases, Option-cases, inl, inr, length, length-append, All, subst, leb→le,
}
use jiffy_messaging.Exec.{Result}
use jiffy_messaging.Domain.{Instant}
use jiffy_messaging.Ports.{VerifiedIdentity}
use jiffy_messaging.JsMap
use jiffy_messaging.JsMap.{JsMap, lookup, store, without, has_key, HasDistinctKeys}
use jiffy_messaging.JsMap.Laws.{set-HasDistinctKeys, delete-HasDistinctKeys}
use jiffy_messaging.Websocket.RateLimiter.{ConnectionRateLimiter, sweep}
use jiffy_messaging.Websocket.Registry
use jiffy_messaging.Websocket.Registry.{
  ConnectionRegistry, Socket, SocketSet, has_socket, is_same, is_nil, or_empty, add_socket,
  delete_socket, remove_from,
}
use jiffy_messaging.Websocket.Server.{
  Server, UpgradeRequest, attach_web_socket_server, on_upgrade, on_open, on_close,
}
use jiffy_messaging.Websocket.Server.Counting.{
  total, total-store, total-without, IsSocketSet, delete-IsSocketSet, length-delete_socket,
  add-IsSocketSet, IsKept, store-IsKept, without-IsKept, lookup-IsKept,
}

-- No user stands twice in the registry, no socket twice in a set, no set is empty, and the gauge is
-- the number of sockets.
pub record IsCounted (server : Server) : Type 0 where
  pub keys : HasDistinctKeys server.registry.connections.entries
  pub sets : All IsKept server.registry.connections.entries
  pub counted : server.websocket_connections_active ≡ total server.registry.connections.entries

length-snoc : (s : Socket) (sockets : SocketSet) → length (sockets ++ s ∷ []) ≡ length sockets + 1
length-snoc s sockets = omega (arith, length-append sockets (s ∷ []))

on_open-IsCounted :
    (identity : VerifiedIdentity) (socket : Socket) (now : Instant) (server : Server)
    → IsCounted server
    → has_socket socket (Registry.get server.registry identity.user_id) ≡ false
    → IsCounted (on_open identity socket now server).1
unfolding on_open Registry.add Registry.get JsMap.set JsMap.get
on_open-IsCounted identity socket now server w new =
    let es = server.registry.connections.entries in
    let u = identity.user_id in
    let old = or_empty (lookup u es) in
    rw new record {
      keys = set-HasDistinctKeys u (old ++ socket ∷ []) es w.keys;
      sets =
          store-IsKept u (old ++ socket ∷ []) es
            (
              add-IsSocketSet socket old (lookup-IsKept u es w.sets) new,
              omega (arith, length-snoc socket old),
            )
            w.sets;
      counted =
          omega (arith, w.counted, total-store u (old ++ socket ∷ []) es, length-snoc socket old);
    }

-- The sockets that `remove` leaves, from the set that the map has for the user.
module _ (user_id : String) (socket : Socket) (server : Server) (w : IsCounted server)
    (sockets : SocketSet)
    (found : lookup user_id server.registry.connections.entries ≡ some sockets)
    (held : has_socket socket sockets ≡ true) where
  abbrev removed : Server
  removed = record server {
    registry = remove_from (some sockets) server.registry user_id socket;
    websocket_connections_active = server.websocket_connections_active - 1;
  }

  one_less : length (delete_socket socket sockets) + 1 ≡ length sockets
  one_less =
      length-delete_socket socket sockets
        (subst (λ o. IsSocketSet (or_empty o)) found
          (lookup-IsKept user_id server.registry.connections.entries w.sets))
        held

  removed-IsCounted : IsCounted removed
  unfolding remove_from JsMap.set JsMap.delete
  removed-IsCounted = elim (Bool-cases (is_nil (delete_socket socket sockets))) [
    | inl last ↦
        rw (last, remove_from)
          record {
            keys = delete-HasDistinctKeys user_id server.registry.connections.entries w.keys;
            sets = without-IsKept user_id server.registry.connections.entries w.sets;
            counted = omega (
              arith,
              w.counted,
              one_less,
              leb→le (length (delete_socket socket sockets)) 0 last,
              total-without user_id server.registry.connections.entries w.keys,
              ap (λ o. length (or_empty o)) found,
            );
          }
    | inr more ↦
        rw (more, remove_from)
          record {
            keys =
                set-HasDistinctKeys user_id (delete_socket socket sockets)
                  server.registry.connections.entries w.keys;
            sets =
                store-IsKept user_id (delete_socket socket sockets)
                  server.registry.connections.entries
                  (
                    delete-IsSocketSet socket sockets (
                        subst (λ o. IsSocketSet (or_empty o)) found
                          (lookup-IsKept user_id server.registry.connections.entries w.sets)),
                    ground arith,
                  )
                  w.sets;
            counted = omega (
              arith,
              w.counted,
              one_less,
              total-store user_id (delete_socket socket sockets)
                  server.registry.connections.entries,
              ap (λ o. length (or_empty o)) found,
            );
          }
  ]

on_close-IsCounted :
    (user_id : String) (socket : Socket) (server : Server)
    → IsCounted server
    → has_socket socket (Registry.get server.registry user_id) ≡ true
    → IsCounted (on_close user_id socket server)
unfolding on_close Registry.remove Registry.get JsMap.get
on_close-IsCounted user_id socket server w held =
    elim (Option-cases (lookup user_id server.registry.connections.entries)) [
      | inl missing ↦ absurd (ground arith)
      | inr (sockets, found) ↦
          rw found (removed-IsCounted user_id socket server w sockets found (ground arith))
    ]

-- What may happen to the server: an upgrade is answered, a socket that is not registered yet opens,
-- a registered one closes, the limiter is swept.
pub data Step (server : Server) : Server → Type 0 where
  upgrades :
      (verify : String → Result VerifiedIdentity) (req : UpgradeRequest) (now : Instant)
      → Step server (on_upgrade verify req now server).1
  opens :
      (identity : VerifiedIdentity) (socket : Socket) (now : Instant)
      → has_socket socket (Registry.get server.registry identity.user_id) ≡ false
      → Step server (on_open identity socket now server).1
  closes :
      (user_id : String) (socket : Socket)
      → has_socket socket (Registry.get server.registry user_id) ≡ true
      → Step server (on_close user_id socket server)
  sweeps :
      (now : Instant) → Step server (record server { rate_limiter = sweep server.rate_limiter now })

pub data Reach (start : Server) : Server → Type 0 where
  here : Reach start start
  next : {s t : Server} → Reach start s → Step s t → Reach start t

Step-IsCounted : {s t : Server} → Step s t → IsCounted s → IsCounted t
unfolding on_upgrade
Step-IsCounted (upgrades verify req now) w = record {
  keys = w.keys;
  sets = w.sets;
  counted = w.counted;
}
Step-IsCounted {s} (opens identity socket now new) w = on_open-IsCounted identity socket now s w new
Step-IsCounted {s} (closes user_id socket held) w = on_close-IsCounted user_id socket s w held
Step-IsCounted (sweeps now) w = record { keys = w.keys; sets = w.sets; counted = w.counted }

attached-IsCounted :
    (limiter : Option ConnectionRateLimiter) → IsCounted (attach_web_socket_server limiter)
unfolding attach_web_socket_server total
attached-IsCounted none = record { keys = tt; sets = tt; counted = refl }
attached-IsCounted (some limiter) = record { keys = tt; sets = tt; counted = refl }

-- From a server that was just attached, whatever upgrades are answered, in whatever order sockets
-- open and close and whenever the limiter is swept, as long as a socket opens only for a user for
-- whom it is not registered and closes only where it is: the gauge is the number of sockets in
-- the registry, which holds no user twice, no socket twice for a user, and no user without a
-- socket.
pub Reach-IsCounted :
    (limiter : Option ConnectionRateLimiter) {server : Server}
    → Reach (attach_web_socket_server limiter) server
    → IsCounted server
Reach-IsCounted limiter here = attached-IsCounted limiter
Reach-IsCounted limiter (next r st) = Step-IsCounted st (Reach-IsCounted limiter r)
