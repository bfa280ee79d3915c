-- ===== src/Tests/Websocket.antt =====
-- Instances of the theorems on src/websocket.
use jiffy_messaging.Base.{
  any, ◌+◌, ◌⊎◌, ℕ, ◌≡◌, ◌≤◌, ◌<◌, ◌↔◌, ◌==◌, refl, if◌then◌else◌, String, Bool, true, false, some,
  List, [], ◌∷◌, arith, min, All,
}
use jiffy_messaging.Errors.{other}
use jiffy_messaging.Exec.{Result, ok, err}
use jiffy_messaging.Domain.{is_participant, Instant}
use jiffy_messaging.Ports.{VerifiedIdentity}
use jiffy_messaging.JsMap
use jiffy_messaging.JsMap.{lookup, store}
use jiffy_messaging.Text.{is_empty}
use jiffy_messaging.Websocket.RateLimiter
use jiffy_messaging.Websocket.RateLimiter.{ConnectionRateLimiter, Window, allow, sweep, new_limiter}
use jiffy_messaging.Websocket.RateLimiter.Bounds.{allowed_for, attempts_of, allowed_for-window}
use jiffy_messaging.Websocket.RateLimiter.{allow_in}
use jiffy_messaging.Websocket.RateLimiter.Memory
use jiffy_messaging.Websocket.RateLimiter.Memory.{window_end}
use jiffy_messaging.Websocket.RateLimiter.Recovery.{after, allow-after}
use jiffy_messaging.Websocket.RateLimiter.Sweeping.{allow-sweep, HasDistinctSources}
use jiffy_messaging.Websocket.Registry
use jiffy_messaging.Websocket.Registry.{
  ConnectionRegistry, has_socket, is_same, new_registry, add_socket,
}
use jiffy_messaging.Websocket.Server.{
  Server, attach_web_socket_server, on_open, on_close, on_upgrade, handle_upgrade, unhandled,
  UpgradeRequest, expiry_timer, deliver_to_participants, source_of,
}
use jiffy_messaging.Websocket.Server.Delivery.{
  deliver_to_participants_iff, on_upgrade-handle_upgrade_iff,
}
use jiffy_messaging.Websocket.Server.Gauge.{here, next, opens, closes, IsCounted, Reach-IsCounted}
use jiffy_messaging.Websocket.Server.{timeout_delay}
use jiffy_messaging.Websocket.Server.Timers
use jiffy_messaging.Websocket.Server.Timers.{connect, attached, is_of, fired, pending}
use jiffy_messaging.Websocket.Server.Timers.Outliving.{IsServed, IsGood, Reach-IsGood}
use jiffy_messaging.Tests.Data.{chat}

-- Two attempts in a second.
abbrev limiter : ConnectionRateLimiter
limiter = record { limit = 2; window_ms = 1000; windows = JsMap.new_map; sweep_timer = some 1000 }

abbrev attempts : List (String × Instant)
attempts = ("ip", 10) ∷ ("other", 11) ∷ ("ip", 12) ∷ []

allowed_for-window_example :
    allowed_for "ip" limiter (("ip", 5) ∷ attempts)
    ≡ min (attempts_of "ip" (("ip", 5) ∷ attempts)) 2
unfolding JsMap.get lookup
allowed_for-window_example =
    allowed_for-window "ip" 5 attempts limiter (omega arith) (λ w h. ground arith)
      (omega arith, (omega arith, (omega arith, tt)))

abbrev used : ConnectionRateLimiter
used = record limiter {
  windows = record { entries = ("ip", record { count = 2; window_start = 0 }) ∷ [] };
}

allow-sweep_example : (allow (sweep used 500) "ip" 600).0 ≡ (allow used "ip" 600).0
allow-sweep_example = (allow-sweep used "ip" 500 600 (refl, tt) (omega arith)).0

abbrev alice : VerifiedIdentity
alice = record { user_id = "alice"; expires_at = some 90000 }

abbrev all_open : ℕ → Bool
all_open s = true

deliver_to_participants_iff_example :
    (has_socket 3
        (deliver_to_participants all_open (some chat) (Registry.add new_registry "alice" 3))
      ≡ true)
    ↔ ((all_open 3 ≡ true)
        × ((u : String) × (is_participant chat u ≡ true)
            × (has_socket 3 (Registry.get (Registry.add new_registry "alice" 3) u) ≡ true)))
deliver_to_participants_iff_example =
    deliver_to_participants_iff all_open (Registry.add new_registry "alice" 3) 3 chat

abbrev start : Server
start = attach_web_socket_server (some limiter)

abbrev request : UpgradeRequest
request = record { remote_address = some "ip"; token = ok (some "secret") }

abbrev check_token : String → Result VerifiedIdentity
check_token token = if token == "secret" then ok alice else err (other "no such token")

on_upgrade-handle_upgrade_iff_example :
    (((on_upgrade check_token request 7 start).0 ≡ handle_upgrade alice) ↔ (
      ((RateLimiter.allow start.rate_limiter (source_of request) 7).0 ≡ true)
      × ((token : String) × (request.token ≡ ok (some token))
          × (is_empty token ≡ false)
          × (check_token token ≡ ok alice))))
    × (((on_upgrade check_token request 7 start).0 ≡ unhandled (other "Invalid URL")) ↔ (
        ((RateLimiter.allow start.rate_limiter (source_of request) 7).0 ≡ true)
        × (request.token ≡ err (other "Invalid URL"))))
    × ((on_upgrade check_token request 7 start).1.registry ≡ start.registry)
    × ((on_upgrade check_token request 7 start).1.websocket_connections_active
        ≡ start.websocket_connections_active)
on_upgrade-handle_upgrade_iff_example =
    on_upgrade-handle_upgrade_iff check_token request 7 start alice (other "Invalid URL")

nobody_yet : has_socket 3 (Registry.get start.registry "alice") ≡ false
unfolding attach_web_socket_server Registry.get JsMap.get lookup
nobody_yet = refl

registered : has_socket 3 (Registry.get (on_open alice 3 7 start).1.registry "alice") ≡ true
unfolding on_open attach_web_socket_server Registry.get Registry.add add_socket JsMap.get JsMap.set
    lookup store
registered = refl

Reach-IsCounted_example : IsCounted (on_close "alice" 3 (on_open alice 3 7 start).1)
Reach-IsCounted_example =
    Reach-IsCounted (some limiter)
      (next (next here (opens alice 3 7 nobody_yet)) (closes "alice" 3 registered))

allow-after_example :
    (w : Window) × (JsMap.get used.windows "ip" ≡ some w)
    × (500 < w.window_start + 1000)
    × ((between : List (String × Instant)) (later : Instant)
        → All (λ a. a.1 < w.window_start + 1000) between
        → w.window_start + 1000 ≤ later
        → (allow (after (allow used "ip" 500).1 between) "ip" later).0 ≡ true)
allow-after_example = allow-after used "ip" 500 (unfold allow allow_in JsMap.get lookup in refl)

abbrev alice_connected : Timers.Connected
alice_connected = connect alice 3 7 (attached (some limiter))

Reach-IsGood_example :
    ((u : String) (t : ℕ)
      → has_socket t (Registry.get alice_connected.server.registry u)
        ≡ any (is_of u t) alice_connected.connections)
    × All
        (λ c. (c.expiry_timer ≡ fired) ⊎ IsGood 80000 c.expires_at c.opened_at)
        alice_connected.connections
unfolding connect on_open expiry_timer timeout_delay
Reach-IsGood_example =
    Reach-IsGood (some limiter) 80000 (Timers.next Timers.here (Timers.opens alice 3 7 refl)) served
  where
    served : All (IsServed 80000) alice_connected.connections
    served = (λ due h. ground arith, tt)

window_end_example :
    (10 < 10 + 1000 + 500) × HasDistinctSources (allow (new_limiter 2 1000 (some 500)) "ip" 10).1
window_end_example =
    window_end 2 1000 500 0 "ip" (record { count = 1; window_start = 10 }) (omega arith)
      (Memory.next Memory.here (Memory.attempts "ip" 10 (omega arith))) (omega arith)
      (unfold new_limiter allow allow_in JsMap.get JsMap.set lookup store in refl)
