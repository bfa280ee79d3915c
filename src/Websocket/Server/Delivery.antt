-- ===== src/Websocket/Server/Delivery.antt =====
-- Who gets a message over a socket, who gets a socket, and for how long.
use jiffy_messaging.Base.{
  ◌-◌, ◌≤◌, ◌<◌, ◌≡◌, refl, ap, String, Bool, true, false, Option, none, some, List, [], ◌∷◌, ◌++◌,
  ◌↔◌, arith, any, map, keep_if, ◌&&◌, ◌||◌, eq_iff, eq_refl, Bool-cases, inl, inr, max,
}
use jiffy_messaging.Errors.{Error}
use jiffy_messaging.Exec.{Result, ok, err}
use jiffy_messaging.Exec.Laws.{Result-cases}
use jiffy_messaging.Text.{is_empty}
use jiffy_messaging.Domain.{Instant, ConversationParticipant, Conversation, is_user, is_participant}
use jiffy_messaging.Ports.{VerifiedIdentity}
use jiffy_messaging.Websocket.RateLimiter
use jiffy_messaging.Websocket.Registry
use jiffy_messaging.Websocket.Registry.{ConnectionRegistry, Socket, SocketSet, has_socket, is_same}
use jiffy_messaging.Websocket.Server.{
  Server, UpgradeRequest, handle_upgrade, unhandled, authenticate, source_of, on_upgrade,
  expiry_timer, deliver_to, deliver_to_participants,
}

has_socket-keep_if :
    (p : Socket → Bool) (t : Socket) (sockets : SocketSet)
    → has_socket t (keep_if p sockets) ≡ (p t && has_socket t sockets)
has_socket-keep_if p t [] = ground arith
has_socket-keep_if p t (x ∷ xs) = elim (Bool-cases (is_same t x)) [
  | inl same ↦ let e : t ≡ x = ground arith in ground (arith, ap p e, has_socket-keep_if p t xs)
  | inr other ↦ ground (arith, has_socket-keep_if p t xs)
]

has_socket-append :
    (t : Socket) (xs ys : SocketSet)
    → has_socket t (xs ++ ys) ≡ (has_socket t xs || has_socket t ys)
has_socket-append t [] ys = refl
has_socket-append t (x ∷ xs) ys = ground (arith, has_socket-append t xs ys)

module _ (is_open : Socket → Bool) (registry : ConnectionRegistry) (t : Socket) where
  has_socket-deliver_to :
      (ps : List ConversationParticipant)
      → has_socket t (deliver_to is_open registry (map (λ p. p.user_id) ps))
        ≡ (is_open t && any (λ p. has_socket t (Registry.get registry p.user_id)) ps)
  unfolding deliver_to
  has_socket-deliver_to [] = ground arith
  has_socket-deliver_to (p ∷ ps) = ground (
    arith,
    has_socket-append t (keep_if is_open (Registry.get registry p.user_id))
        (deliver_to is_open registry (map (λ p. p.user_id) ps)),
    has_socket-keep_if is_open t (Registry.get registry p.user_id),
    has_socket-deliver_to ps,
  )

  abbrev pub HoldsSocket : List ConversationParticipant → Type 0
  HoldsSocket ps =
      (u : String) × (any (is_user u) ps ≡ true) × (has_socket t (Registry.get registry u) ≡ true)

  any-HoldsSocket :
      (ps : List ConversationParticipant)
      → any (λ p. has_socket t (Registry.get registry p.user_id)) ps ≡ true
      → HoldsSocket ps
  any-HoldsSocket [] h = ground arith
  any-HoldsSocket (p ∷ ps) h = elim (Bool-cases (has_socket t (Registry.get registry p.user_id))) [
    | inl here ↦ (p.user_id, ground (arith, eq_refl p.user_id), here)
    | inr there ↦
        let (u, member, held) = any-HoldsSocket ps (ground arith) in (u, ground arith, held)
  ]

  HoldsSocket-any :
      (ps : List ConversationParticipant) (u : String)
      → any (is_user u) ps ≡ true
      → has_socket t (Registry.get registry u) ≡ true
      → any (λ p. has_socket t (Registry.get registry p.user_id)) ps ≡ true
  HoldsSocket-any [] u member held = ground arith
  HoldsSocket-any (p ∷ ps) u member held = ground (arith, HoldsSocket-any ps u, eq_iff p.user_id u)

  -- A message of a conversation that is found goes out on exactly the open sockets that are
  -- registered for a participant of it.
  pub deliver_to_participants_iff :
      (c : Conversation)
      → (has_socket t (deliver_to_participants is_open (some c) registry) ≡ true) ↔ (
          (is_open t ≡ true)
          × ((u : String) × (is_participant c u ≡ true)
              × (has_socket t (Registry.get registry u) ≡ true)))
  unfolding deliver_to_participants is_participant
  deliver_to_participants_iff c = (
    λ h. (
      ground (arith, has_socket-deliver_to c.participants),
      any-HoldsSocket c.participants (ground (arith, has_socket-deliver_to c.participants)),
    ),
    λ (open_now, (u, member, held)).
        ground (
          arith,
          has_socket-deliver_to c.participants,
          HoldsSocket-any c.participants u member held,
        ),
  )

authenticate-handle_upgrade :
    (verify : String → Result VerifiedIdentity) (o : Result (Option String))
    (identity : VerifiedIdentity)
    → authenticate verify o ≡ handle_upgrade identity
    → (token : String) × (o ≡ ok (some token))
      × (is_empty token ≡ false)
      × (verify token ≡ ok identity)
authenticate-handle_upgrade verify (err e) identity h = ground arith
authenticate-handle_upgrade verify (ok none) identity h = ground arith
authenticate-handle_upgrade verify (ok (some token)) identity h =
    (token, refl, ground arith, ground arith)

authenticate-unhandled :
    (verify : String → Result VerifiedIdentity) (o : Result (Option String)) (e : Error)
    → authenticate verify o ≡ unhandled e
    → o ≡ err e
authenticate-unhandled verify (err f) e h = ground arith
authenticate-unhandled verify (ok none) e h = ground arith
authenticate-unhandled verify (ok (some token)) e h = elim (Bool-cases (is_empty token)) [
  | inl empty ↦ absurd (ground arith)
  | inr filled ↦ (elim (Result-cases (verify token)) [
    | inl (identity, accepted) ↦ absurd (ground arith)
    | inr (f, refused) ↦ absurd (ground arith)
  ])
]

-- A handshake goes on to `handleUpgrade` of ws exactly when the limiter lets the source in and the request carries a
-- token, not empty, that the verifier accepts, with the identity that the verifier reports. The
-- handler leaves a rejected promise that nobody handles exactly when the limiter lets the source in
-- and the URL of the request does not parse. The registry and the gauge are as before in every case.
pub on_upgrade-handle_upgrade_iff :
    (verify : String → Result VerifiedIdentity) (req : UpgradeRequest) (now : Instant)
    (server : Server) (identity : VerifiedIdentity) (e : Error)
    → (((on_upgrade verify req now server).0 ≡ handle_upgrade identity) ↔ (
        ((RateLimiter.allow server.rate_limiter (source_of req) now).0 ≡ true)
        × ((token : String) × (req.token ≡ ok (some token))
            × (is_empty token ≡ false)
            × (verify token ≡ ok identity))))
      × (((on_upgrade verify req now server).0 ≡ unhandled e) ↔ (
          ((RateLimiter.allow server.rate_limiter (source_of req) now).0 ≡ true)
          × (req.token ≡ err e)))
      × ((on_upgrade verify req now server).1.registry ≡ server.registry)
      × ((on_upgrade verify req now server).1.websocket_connections_active
          ≡ server.websocket_connections_active)
unfolding on_upgrade
on_upgrade-handle_upgrade_iff verify req now server identity e = (
  (
    λ h. (ground arith, authenticate-handle_upgrade verify req.token identity (ground arith)),
    λ (let_in, (token, given, filled, accepted)). ground arith,
  ),
  (
    λ h. (ground arith, authenticate-unhandled verify req.token e (ground arith)),
    λ (let_in, broken). ground arith,
  ),
  refl,
  refl,
)

-- If at most 2147483647 ms are left until the token expires, the timer is set to what is left, or
-- to one millisecond if nothing is; if more is left, it is set to one millisecond.
pub expiry_timer_lem :
    (expires_at now : Instant)
    → ((expires_at - now ≤ 2147483647)
        → expiry_timer (some expires_at) now ≡ some (max (expires_at - now) 1))
      × ((2147483647 < expires_at - now) → expiry_timer (some expires_at) now ≡ some 1)
unfolding expiry_timer
expiry_timer_lem expires_at now = (λ h. ground arith, λ h. ground arith)
