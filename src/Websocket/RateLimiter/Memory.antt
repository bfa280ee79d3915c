-- ===== src/Websocket/RateLimiter/Memory.antt =====
-- How long src/websocket/connection-rate-limiter.ts remembers a source, with its interval running.
use jiffy_messaging.Base.{
  ℕ, ◌+◌, ◌≤◌, ◌<◌, ◌≡◌, refl, sym, ap, ◌∙◌, String, Option, none, some, arith, ◌⊎◌, inl, inr, ◌==◌,
  eq_iff, Bool-cases, leb,
}
use jiffy_messaging.Domain.{Instant}
use jiffy_messaging.JsMap
use jiffy_messaging.JsMap.{JsMap, lookup}
use jiffy_messaging.JsMap.Laws.{get-set_self, get-set_other}
use jiffy_messaging.Websocket.RateLimiter.{
  Window, ConnectionRateLimiter, is_over, allow, allow_in, sweep, sweep_if_set, new_limiter,
  on_interval,
}
use jiffy_messaging.Websocket.RateLimiter.Bounds.{allow-keeps}
use jiffy_messaging.Websocket.RateLimiter.Sweeping.{
  HasDistinctSources, allow-sweep, allow-HasDistinctSources, sweep-HasDistinctSources,
}

-- The limiter, when its interval was last up, and the time.
pub record Timed : Type 0 where
  pub limiter : ConnectionRateLimiter
  pub last_sweep : Instant
  pub clock : Instant

abbrev pub started : ConnectionRateLimiter → Instant → Timed
started limiter now = record { limiter = limiter; last_sweep = now; clock = now }

-- Time does not run backwards.
pub data Step (t : Timed) : Timed → Type 0 where
  attempts :
      (source : String) (now : Instant)
      → t.clock ≤ now
      → Step t (record t { limiter = (allow t.limiter source now).1; clock = now })
  ticks :
      (now : Instant)
      → t.clock ≤ now
      → Step t (record { limiter = on_interval t.limiter now; last_sweep = now; clock = now })

pub data Reach (start : Timed) : Timed → Type 0 where
  here : Reach start start
  next : {s t : Timed} → Reach start s → Step s t → Reach start t

-- Every window that is remembered was current when the interval was last up, or opened since.
record IsSwept (window_ms : ℕ) (interval : ℕ) (t : Timed) : Type 0 where
  running : t.limiter.sweep_timer ≡ some interval
  span : t.limiter.window_ms ≡ window_ms
  distinct : HasDistinctSources t.limiter
  ordered : t.last_sweep ≤ t.clock
  recent :
      (k : String) (w : Window)
      → JsMap.get t.limiter.windows k ≡ some w
      → t.last_sweep < w.window_start + window_ms

from_set :
    (m : JsMap Window) (source k : String) (x w : Window)
    → JsMap.get (JsMap.set m source x) k ≡ some w
    → ((source ≡ k) × (x ≡ w)) ⊎ (JsMap.get m k ≡ some w)
from_set m source k x w h = elim (Bool-cases (source == k)) [
  | inl own ↦
      let e : source ≡ k = (eq_iff source k).0 own in
      inl (
        e,
        some_injective
            (sym (get-set_self m source x) ∙ ap (JsMap.get (JsMap.set m source x)) e ∙ h),
      )
  | inr other ↦ inr (sym (get-set_other m source k x other) ∙ h)
]
  where
    some_injective : {a b : Window} → some a ≡ some b → a ≡ b
    some_injective h = ground arith

-- The window of a source after an attempt was opened by it, or was there with the same start.
window_after :
    (o : Option Window) (r : ConnectionRateLimiter) (source k : String) (now : Instant) (w : Window)
    → JsMap.get r.windows source ≡ o
    → JsMap.get (allow_in o r source now).1.windows k ≡ some w
    → (w.window_start ≡ now)
      ⊎ ((v : Window) × (JsMap.get r.windows k ≡ some v) × (v.window_start ≡ w.window_start))
unfolding allow_in
window_after none r source k now w found h = elim (from_set r.windows source k _ w h) [
  | inl (e, same) ↦ inl (ap (λ (x : Window). x.window_start) (sym same))
  | inr kept ↦ inr (w, kept, refl)
]
window_after (some v) r source k now w found h = elim (Bool-cases (is_over r.window_ms now v)) [
  | inl over ↦
      elim (from_set r.windows source k (record { count = 1; window_start = now }) w
        (ground arith)) [
          | inl (e, same) ↦ inl (ap (λ (x : Window). x.window_start) (sym same))
          | inr kept ↦ inr (w, kept, refl)
        ]
  | inr current ↦ elim (Bool-cases (leb r.limit v.count)) [
    | inl full ↦ inr (w, ground arith, refl)
    | inr room ↦
        elim (from_set r.windows source k (record v { count = v.count + 1 }) w (ground arith)) [
          | inl (e, same) ↦ inr (
            v,
            ap (JsMap.get r.windows) (sym e) ∙ found,
            ap (λ (x : Window). x.window_start) same,
          )
          | inr kept ↦ inr (w, kept, refl)
        ]
  ]
]

allow-sweep_timer :
    (r : ConnectionRateLimiter) (source : String) (now : Instant)
    → (allow r source now).1.sweep_timer ≡ r.sweep_timer
unfolding allow
allow-sweep_timer r source now = ground arith

ticked :
    (window_ms interval : ℕ) (s : Timed) (now : Instant) (o : Option ℕ)
    → IsSwept window_ms interval s
    → o ≡ some interval
    → IsSwept window_ms interval
        (record { limiter = sweep_if_set o s.limiter now; last_sweep = now; clock = now })
unfolding sweep
ticked window_ms interval s now none i e = absurd (ground arith)
ticked window_ms interval s now (some j) i e = record {
  running = i.running;
  span = i.span;
  distinct = sweep-HasDistinctSources s.limiter now i.distinct;
  ordered = omega arith;
  recent = λ k w h.
      let (_, current) = (allow-sweep s.limiter k now now i.distinct (omega arith)).1 k w h in
      let span = i.span in omega (arith, current, span);
}

Step-IsSwept :
    (window_ms interval : ℕ) {s t : Timed}
    → 0 < window_ms
    → Step s t
    → IsSwept window_ms interval s
    → IsSwept window_ms interval t
unfolding allow on_interval
Step-IsSwept window_ms interval {s} positive (attempts source now later) i = record {
  running = allow-sweep_timer s.limiter source now ∙ i.running;
  span = (allow-keeps s.limiter source now).1 ∙ i.span;
  distinct = allow-HasDistinctSources s.limiter source now i.distinct;
  ordered = omega (arith, i.ordered);
  recent = λ k w h.
      elim (window_after (JsMap.get s.limiter.windows source) s.limiter source k now w refl h) [
        | inl opened ↦ omega (arith, i.ordered)
        | inr (v, found, same) ↦ let before = i.recent k v found in omega (arith, before)
      ];
}
Step-IsSwept window_ms interval {s} positive (ticks now later) i =
    ticked window_ms interval s now s.limiter.sweep_timer i i.running

new_limiter-IsSwept :
    (limit window_ms interval : ℕ) (now : Instant)
    → IsSwept window_ms interval (started (new_limiter limit window_ms (some interval)) now)
unfolding new_limiter JsMap.get lookup
new_limiter-IsSwept limit window_ms interval now = record {
  running = refl;
  span = refl;
  distinct = tt;
  ordered = omega arith;
  recent = λ k w h. absurd (ground arith);
}

Reach-IsSwept :
    (limit window_ms interval : ℕ) (start : Instant) {t : Timed}
    → 0 < window_ms
    → Reach (started (new_limiter limit window_ms (some interval)) start) t
    → IsSwept window_ms interval t
Reach-IsSwept limit window_ms interval start positive here =
    new_limiter-IsSwept limit window_ms interval start
Reach-IsSwept limit window_ms interval start positive (next r st) =
    Step-IsSwept window_ms interval positive st
      (Reach-IsSwept limit window_ms interval start positive r)

-- With a window that is not empty, whatever attempts were made of whatever sources: at a time at
-- which the interval was last up no longer ago than it is long, each window that the limiter
-- remembers, the only one of its source, ended less than one interval ago, if at all.
pub window_end :
    (limit window_ms interval : ℕ) (start : Instant) {t : Timed} (k : String) (w : Window)
    → 0 < window_ms
    → Reach (started (new_limiter limit window_ms (some interval)) start) t
    → t.clock ≤ t.last_sweep + interval
    → JsMap.get t.limiter.windows k ≡ some w
    → (t.clock < w.window_start + window_ms + interval) × HasDistinctSources t.limiter
window_end limit window_ms interval start {t} k w positive r punctual found =
    let i = Reach-IsSwept limit window_ms interval start positive r in
    let recent = i.recent k w found in (omega (arith, recent), i.distinct)
