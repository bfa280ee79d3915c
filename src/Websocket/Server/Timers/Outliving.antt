-- ===== src/Websocket/Server/Timers/Outliving.antt =====
-- That no connection outlives its token unnoticed, and that the registry holds the connections.
use jiffy_messaging.Base.{
  ◌+◌, ◌≤◌, ◌<◌, ◌≡◌, refl, sym, ap, ◌∙◌, String, Bool, Option, none, some, List, [], ◌∷◌, ◌++◌,
  map, keep_if, any, not, leb, ◌-◌, max, arith, All, All-keep_if, ◌⊎◌, inl, inr, ◌&&◌, ◌||◌, ◌==◌,
  Bool-cases, eq_iff,
}
use jiffy_messaging.Domain.{Instant}
use jiffy_messaging.JsMap
use jiffy_messaging.JsMap.{lookup}
use jiffy_messaging.Websocket.RateLimiter.{ConnectionRateLimiter}
use jiffy_messaging.Websocket.Registry
use jiffy_messaging.Websocket.Registry.{Socket, is_same, has_socket}
use jiffy_messaging.Websocket.Registry.Laws.{has_socket-add-remove}
use jiffy_messaging.Websocket.Server.{
  attach_web_socket_server, on_open, on_close, expiry_timer, timeout_delay,
}
use jiffy_messaging.Websocket.Server.Timers.{
  Timer, unset, pending, fired, Connection, Connected, is_of, timer_of, connection_of, connect,
  disconnect, with_timer_fired, fired_if_due, fire, attached, Step, opens, closes, fires, Reach,
  here, next,
}

-- The timer was called, or stands for the end of the token, or for the next millisecond if that is
-- later.
abbrev pub IsWatchedUntil : Option Instant → Instant → Timer → Type 0
IsWatchedUntil none opened_at timer = timer ≡ unset
IsWatchedUntil (some expires_at) opened_at timer =
    (timer ≡ fired)
    ⊎ ((due : Instant) × (timer ≡ pending due) × (due ≤ max expires_at (opened_at + 1)))

abbrev pub IsWatched : Connection → Type 0
IsWatched c = IsWatchedUntil c.expires_at c.opened_at c.expiry_timer

-- The registry holds exactly the connections, and each is watched.
pub record IsConsistent (s : Connected) : Type 0 where
  pub watched : All IsWatched s.connections
  pub registered :
      (u : String) (t : Socket)
      → has_socket t (Registry.get s.server.registry u) ≡ any (is_of u t) s.connections

All-snoc :
    (P : Connection → Type 0) (xs : List Connection) (x : Connection)
    → All P xs
    → P x
    → All P (xs ++ x ∷ [])
All-snoc P [] x h p = (p, tt)
All-snoc P (y ∷ ys) x (q, h) p = (q, All-snoc P ys x h p)

any-snoc :
    (p : Connection → Bool) (cs : List Connection) (c : Connection)
    → any p (cs ++ c ∷ []) ≡ (any p cs || p c)
any-snoc p [] c = ground arith
any-snoc p (d ∷ ds) c = ground (arith, any-snoc p ds c)

watched_connection :
    (expires_at : Option Instant) (now : Instant)
    → IsWatchedUntil expires_at now (timer_of now (expiry_timer expires_at now))
unfolding expiry_timer timeout_delay
watched_connection none now = refl
watched_connection (some expires_at) now =
    inr (now + timeout_delay (expires_at - now), refl, ground arith)

any-left :
    (user_id u : String) (socket t : Socket) (cs : List Connection)
    → any (is_of u t) (keep_if (λ c. not (is_of user_id socket c)) cs)
      ≡ (not (user_id == u && is_same socket t) && any (is_of u t) cs)
any-left user_id u socket t [] = ground arith
any-left user_id u socket t (c ∷ cs) = ground (
  arith,
  any-left user_id u socket t cs,
  eq_iff c.user_id u,
  eq_iff c.user_id user_id,
  eq_iff user_id u,
)

any-fired :
    (user_id u : String) (socket t : Socket) (now : Instant) (cs : List Connection)
    → any (is_of u t) (map (with_timer_fired user_id socket now) cs) ≡ any (is_of u t) cs
any-fired user_id u socket t now [] = refl
any-fired user_id u socket t now (c ∷ cs) = ground (arith, any-fired user_id u socket t now cs)

fired_if_due-IsWatchedUntil :
    (expires_at : Option Instant) (opened_at now : Instant) (timer : Timer)
    → IsWatchedUntil expires_at opened_at timer
    → IsWatchedUntil expires_at opened_at (fired_if_due now timer)
fired_if_due-IsWatchedUntil none opened_at now timer h = ap (fired_if_due now) h
fired_if_due-IsWatchedUntil (some e) opened_at now timer (inl called) =
    inl (ap (fired_if_due now) called)
fired_if_due-IsWatchedUntil (some e) opened_at now timer (inr (due, stands, bound)) =
    elim (Bool-cases (leb due now)) [
      | inl over ↦ inl (ap (fired_if_due now) stands ∙ ground arith)
      | inr ahead ↦ inr (due, ap (fired_if_due now) stands ∙ ground arith, bound)
    ]

All-fired :
    (user_id : String) (socket : Socket) (now : Instant) (cs : List Connection)
    → All IsWatched cs
    → All IsWatched (map (with_timer_fired user_id socket now) cs)
All-fired user_id socket now [] h = tt
All-fired user_id socket now (c ∷ cs) (w, h) = elim (Bool-cases (is_of user_id socket c)) [
  | inl own ↦ rw own (
    fired_if_due-IsWatchedUntil c.expires_at c.opened_at now c.expiry_timer w,
    All-fired user_id socket now cs h,
  )
  | inr other ↦ rw other (w, All-fired user_id socket now cs h)
]

Step-IsConsistent : {s t : Connected} → Step s t → IsConsistent s → IsConsistent t
unfolding connect disconnect fire on_open on_close
Step-IsConsistent {s} (opens identity socket now new) w = record {
  watched =
      All-snoc IsWatched s.connections _ w.watched (watched_connection identity.expires_at now);
  registered = λ u t.
      (has_socket-add-remove s.server.registry identity.user_id u socket t).0
      ∙ ground (
        arith,
        w.registered u t,
        any-snoc (is_of u t) s.connections
            (connection_of identity socket now (expiry_timer identity.expires_at now)),
      );
}
Step-IsConsistent {s} (closes user_id socket held) w = record {
  watched = All-keep_if IsWatched (λ c. not (is_of user_id socket c)) s.connections w.watched;
  registered = λ u t.
      (has_socket-add-remove s.server.registry user_id u socket t).1
      ∙ ap (λ b. not (user_id == u && is_same socket t) && b) (w.registered u t)
      ∙ sym (any-left user_id u socket t s.connections);
}
Step-IsConsistent {s} (fires user_id socket now) w = record {
  watched = All-fired user_id socket now s.connections w.watched;
  registered = λ u t. w.registered u t ∙ sym (any-fired user_id u socket t now s.connections);
}

attached-IsConsistent : (limiter : Option ConnectionRateLimiter) → IsConsistent (attached limiter)
unfolding attach_web_socket_server Registry.get JsMap.get lookup
attached-IsConsistent none = record { watched = tt; registered = λ u t. refl }
attached-IsConsistent (some limiter) = record { watched = tt; registered = λ u t. refl }

Reach-IsConsistent :
    (limiter : Option ConnectionRateLimiter) {s : Connected}
    → Reach (attached limiter) s
    → IsConsistent s
Reach-IsConsistent limiter here = attached-IsConsistent limiter
Reach-IsConsistent limiter (next r st) = Step-IsConsistent st (Reach-IsConsistent limiter r)

-- No timer that stands is due at `now`: the runtime has called all that are.
abbrev pub IsServed : Instant → Connection → Type 0
IsServed now c = (due : Instant) → c.expiry_timer ≡ pending due → now < due

-- The token has no end, or has not come to it; it counts as good in the millisecond of opening.
abbrev pub IsGood : Instant → Option Instant → Instant → Type 0
IsGood now none opened_at = Unit
IsGood now (some expires_at) opened_at = now < max expires_at (opened_at + 1)

served-IsGood :
    (now : Instant) (expires_at : Option Instant) (opened_at : Instant) (timer : Timer)
    → IsWatchedUntil expires_at opened_at timer
    → ((due : Instant) → timer ≡ pending due → now < due)
    → (timer ≡ fired) ⊎ IsGood now expires_at opened_at
served-IsGood now none opened_at timer w h = inr tt
served-IsGood now (some e) opened_at timer (inl called) h = inl called
served-IsGood now (some e) opened_at timer (inr (due, stands, bound)) h =
    let ahead : now < due = h due stands in inr (omega arith)

All-served :
    (now : Instant) (cs : List Connection)
    → All IsWatched cs
    → All (IsServed now) cs
    → All (λ c. (c.expiry_timer ≡ fired) ⊎ IsGood now c.expires_at c.opened_at) cs
All-served now [] w h = tt
All-served now (c ∷ cs) (p, w) (q, h) =
    (served-IsGood now c.expires_at c.opened_at c.expiry_timer p q, All-served now cs w h)

-- From a server that was just attached, in whatever order connections open and close and timers are
-- called, as long as a socket opens only for a user who has no connection with it and only a
-- connection that is there closes: the registry holds exactly the connections; and at a time at
-- which no timer that is due still waits, each connection has a token that is good, or was told to
-- close.
pub Reach-IsGood :
    (limiter : Option ConnectionRateLimiter) {s : Connected} (now : Instant)
    → Reach (attached limiter) s
    → All (IsServed now) s.connections
    → ((u : String) (t : Socket)
        → has_socket t (Registry.get s.server.registry u) ≡ any (is_of u t) s.connections)
      × All (λ c. (c.expiry_timer ≡ fired) ⊎ IsGood now c.expires_at c.opened_at) s.connections
Reach-IsGood limiter {s} now r served =
    let w = Reach-IsConsistent limiter r in
    (w.registered, All-served now s.connections w.watched served)
