-- ===== src/Adapters/Buses/Unsubscribing.antt =====
-- What calling the function that `onMessage` of the two buses returned takes back.
use jiffy_messaging.Base.{
  ℕ, ◌+◌, ◌-◌, ◌≡◌, ◌<◌, refl, ap, true, false, List, [], ◌∷◌, ◌++◌, arith, if◌then◌else◌,
  Bool-cases, inl, inr,
}
use jiffy_messaging.Adapters.Buses.{
  Handler, is_same, has_handler, off, InProcessMessageBus, on_message, unsubscribe, publish,
  RedisMessageBus, subscribe_handler, unsubscribe_handler, on_payload, channel, emit,
}

-- How often a message reaches the handler.
pub times : {M : Type 0} → Handler → List (Handler × M) → ℕ
times h [] = 0
times h ((x, m) ∷ ds) = let rest = times h ds in if is_same h x then rest + 1 else rest

has_handler-snoc : (h : Handler) (hs : List Handler) → has_handler h (hs ++ h ∷ []) ≡ true
has_handler-snoc h [] = ground arith
has_handler-snoc h (x ∷ xs) = ground (arith, has_handler-snoc h xs)

off-snoc : (h : Handler) (hs : List Handler) → off h (hs ++ h ∷ []) ≡ hs
unfolding off
off-snoc h [] = ground arith
off-snoc h (x ∷ xs) = ground (arith, has_handler-snoc h xs, off-snoc h xs)

times-missing :
    {M : Type 0} (h : Handler) (hs : List Handler) (m : M)
    → has_handler h hs ≡ false
    → times h (emit hs m) ≡ 0
unfolding times
times-missing h [] m e = refl
times-missing h (x ∷ xs) m e = ground (arith, times-missing h xs m)

times-held :
    {M : Type 0} (h : Handler) (hs : List Handler) (m : M)
    → has_handler h hs ≡ true
    → 0 < times h (emit hs m)
unfolding times
times-held h [] m e = ground arith
times-held h (x ∷ xs) m e = ground (arith, times-held h xs m)

times-off :
    {M : Type 0} (h j : Handler) (hs : List Handler) (m : M)
    → times j (emit (off h hs) m)
      ≡ (if is_same h j then times j (emit hs m) - 1 else times j (emit hs m))
unfolding off times
times-off h j [] m = ground arith
times-off h j (x ∷ xs) m = elim (Bool-cases (is_same h j)) [
  | inl same ↦
      let e : h ≡ j = ground arith in
      ground (
        arith,
        times-off h j xs m,
        times-held j xs m,
        times-missing j xs m,
        ap (λ k. has_handler k xs) e,
      )
  | inr other ↦ ground (arith, times-off h j xs m)
]

-- On both buses, unsubscribing a handler right after it was registered leaves the handlers
-- as they were before; and whenever a handler is unsubscribed, each message reaches it
-- once less from then on, if it reached it at all, and every other handler as often as before.
pub unsubscribe_lem :
    {M : Type 0} (bus : InProcessMessageBus) (redis : RedisMessageBus) (h j : Handler) (message : M)
    → (unsubscribe (on_message bus h) h ≡ bus)
      × ((unsubscribe_handler (subscribe_handler redis h) h).local_handlers ≡ redis.local_handlers)
      × (times j (publish (unsubscribe bus h) message) ≡ (
          if is_same h j then times j (publish bus message) - 1 else times j (publish bus message)))
      × (times j (on_payload (unsubscribe_handler redis h) channel message) ≡ (
          if is_same h j
          then times j (on_payload redis channel message) - 1
          else times j (on_payload redis channel message)))
unfolding on_message unsubscribe subscribe_handler unsubscribe_handler publish on_payload
unsubscribe_lem bus redis h j message = (
  ap (λ hs. record { handlers = hs }) (off-snoc h bus.handlers),
  off-snoc h redis.local_handlers,
  times-off h j bus.handlers message,
  times-off h j redis.local_handlers message,
)
