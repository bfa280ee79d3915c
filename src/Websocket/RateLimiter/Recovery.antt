-- ===== src/Websocket/RateLimiter/Recovery.antt =====
-- That nobody whom src/websocket/connection-rate-limiter.ts refuses is locked out for good.
use jiffy_messaging.Base.{
  ℕ, ◌+◌, ◌≤◌, ◌<◌, ◌≡◌, refl, sym, ap, ◌∙◌, String, true, false, Option, none, some, List, [], ◌∷◌,
  arith, All, eq_iff, ◌==◌, Bool-cases, inl, inr,
}
use mathlib.Core.Bool.{false≢true}
use jiffy_messaging.Domain.{Instant}
use jiffy_messaging.JsMap
use jiffy_messaging.Websocket.RateLimiter.{ConnectionRateLimiter, Window, allow, allow_in}
use jiffy_messaging.Websocket.RateLimiter.Bounds.{
  allow_current, allow_fresh, allow-keeps, get-allow_other,
}

-- The limiter after these attempts, each with its source and time.
pub after : ConnectionRateLimiter → List (String × Instant) → ConnectionRateLimiter
after r [] = r
after r ((source, now) ∷ later) = after (allow r source now).1 later

-- Attempts within a window neither open another for the source nor change the limits.
after-window :
    (key : String) (as' : List (String × Instant)) (r : ConnectionRateLimiter) (w : Window)
    → JsMap.get r.windows key ≡ some w
    → All (λ a. a.1 < w.window_start + r.window_ms) as'
    → (v : Window) × (JsMap.get (after r as').windows key ≡ some v)
      × (v.window_start ≡ w.window_start)
      × ((after r as').window_ms ≡ r.window_ms)
unfolding after
after-window key [] r w found within = (w, found, refl, refl)
after-window key ((source, now) ∷ later) r w found (now_in, within) =
    let (same_limit, same_span) = allow-keeps r source now in
    elim (Bool-cases (source == key)) [
      | inl own ↦
          let e : source ≡ key = (eq_iff source key).0 own in
          (elim (allow_current r source now w (ap (JsMap.get r.windows) e ∙ found) now_in) [
            | inl (refused, full, kept) ↦
                let (v, a, b, c) =
                  after-window key later (allow r source now).1 w
                    (ap (JsMap.get (allow r source now).1.windows) (sym e) ∙ kept)
                    (rw same_span within) in
                (v, a, b, c ∙ same_span)
            | inr (let_in, room, counted) ↦
                let (v, a, b, c) =
                  after-window key later (allow r source now).1 (record w { count = w.count + 1 })
                    (ap (JsMap.get (allow r source now).1.windows) (sym e) ∙ counted)
                    (rw same_span within) in
                (v, a, b, c ∙ same_span)
          ])
      | inr other ↦
          let (v, a, b, c) =
            after-window key later (allow r source now).1 w
              (get-allow_other r source key now other ∙ found) (rw same_span within) in
          (v, a, b, c ∙ same_span)
    ]

-- A source that is refused has a window that is current then.
refused-window :
    (r : ConnectionRateLimiter) (key : String) (now : Instant) (o : Option Window)
    → (allow_in o r key now).0 ≡ false
    → (w : Window) × (o ≡ some w) × (now < w.window_start + r.window_ms)
unfolding allow_in
refused-window r key now none h = absurd (ground arith)
refused-window r key now (some w) h = (w, refl, ground arith)

-- A source that is refused has a window that is not over, and it is let in again from the instant
-- on that is `window_ms` after the start of that window, however often it or anybody else tries in
-- between: attempts that are refused do not prolong the window.
pub allow-after :
    (r : ConnectionRateLimiter) (key : String) (now : Instant)
    → (allow r key now).0 ≡ false
    → (w : Window) × (JsMap.get r.windows key ≡ some w)
      × (now < w.window_start + r.window_ms)
      × ((between : List (String × Instant)) (later : Instant)
          → All (λ a. a.1 < w.window_start + r.window_ms) between
          → w.window_start + r.window_ms ≤ later
          → (allow (after (allow r key now).1 between) key later).0 ≡ true)
unfolding allow
allow-after r key now refused =
    let (w, found, current) = refused-window r key now (JsMap.get r.windows key) refused in
    (
      w,
      found,
      current,
      λ between later within over.
          let (same_limit, same_span) = allow-keeps r key now in
          let (v, kept, same_start, span) =
            after-window key between (allow r key now).1 w (current_kept w found current)
              (rw same_span within) in
          (allow_fresh (after (allow r key now).1 between) key later (
            opening (JsMap.get (after (allow r key now).1 between).windows key) v w later kept
              same_start (span ∙ same_span) over)).0,
    )
  where
    current_kept :
        (w : Window)
        → JsMap.get r.windows key ≡ some w
        → now < w.window_start + r.window_ms
        → JsMap.get (allow r key now).1.windows key ≡ some w
    current_kept w found current = elim (allow_current r key now w found current) [
      | inl (answer, full, kept) ↦ kept
      | inr (let_in, room, counted) ↦ absurd (false≢true (sym refused ∙ let_in))
    ]

    opening :
        {span : ℕ} (o : Option Window) (v w : Window) (later : Instant)
        → o ≡ some v
        → v.window_start ≡ w.window_start
        → span ≡ r.window_ms
        → w.window_start + r.window_ms ≤ later
        → (x : Window) → o ≡ some x
        → x.window_start + span ≤ later
    opening o v w later kept same_start same over x found = ground arith
