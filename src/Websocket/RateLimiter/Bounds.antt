-- ===== src/Websocket/RateLimiter/Bounds.antt =====
-- How many attempts src/websocket/connection-rate-limiter.ts lets through.
use jiffy_messaging.Base.{
  ℕ, suc, ◌+◌, ◌-◌, ◌≤◌, ◌<◌, ◌≡◌, String, true, false, Option, none, some, List, [], ◌∷◌, arith,
  leb, if◌then◌else◌, min, All, ◌==◌, eq_iff, Bool-cases, inl, inr, ap, ◌∙◌, sym, ◌&&◌, ◌⊎◌,
  Option-cases, eq_refl,
}
use jiffy_messaging.Domain.{Instant}
use jiffy_messaging.JsMap
use jiffy_messaging.JsMap.Laws.{get-set_self, get-set_other}
use jiffy_messaging.Websocket.RateLimiter.{Window, ConnectionRateLimiter, allow, allow_in}

-- How many attempts of `key` among attempts from all sources are let through.
pub allowed_for : String → ConnectionRateLimiter → List (String × Instant) → ℕ
allowed_for key r [] = 0
allowed_for key r ((source, now) ∷ later) =
    let (answer, r') = allow r source now in
    let rest = allowed_for key r' later in if source == key && answer then suc rest else rest

pub attempts_of : String → List (String × Instant) → ℕ
attempts_of key [] = 0
attempts_of key ((source, now) ∷ later) =
    let rest = attempts_of key later in if source == key then suc rest else rest

-- The source has no window that is current at `now`.
abbrev pub IsOpening : ConnectionRateLimiter → String → Instant → Type 0
IsOpening r key now =
    (w : Window) → JsMap.get r.windows key ≡ some w → w.window_start + r.window_ms ≤ now

get-allow_in_other :
    (o : Option Window) (r : ConnectionRateLimiter) (source key : String) (now : Instant)
    → (source == key) ≡ false
    → JsMap.get (allow_in o r source now).1.windows key ≡ JsMap.get r.windows key
unfolding allow_in
get-allow_in_other none r source key now other = get-set_other r.windows source key _ other
get-allow_in_other (some w) r source key now other = ground (
  arith,
  get-set_other r.windows source key (record { count = 1; window_start = now }) other,
  get-set_other r.windows source key (record w { count = w.count + 1 }) other,
)

-- An attempt from one source leaves the windows of the others alone.
pub get-allow_other :
    (r : ConnectionRateLimiter) (source key : String) (now : Instant)
    → (source == key) ≡ false
    → JsMap.get (allow r source now).1.windows key ≡ JsMap.get r.windows key
unfolding allow
get-allow_other r source key now other =
    get-allow_in_other (JsMap.get r.windows source) r source key now other

pub allow-keeps :
    (r : ConnectionRateLimiter) (source : String) (now : Instant)
    → ((allow r source now).1.limit ≡ r.limit) × ((allow r source now).1.window_ms ≡ r.window_ms)
unfolding allow
allow-keeps r source now = (ground arith, ground arith)

-- The attempt of a source in its current window.
pub allow_current :
    (r : ConnectionRateLimiter) (key : String) (now : Instant) (w : Window)
    → JsMap.get r.windows key ≡ some w
    → now < w.window_start + r.window_ms
    → (((allow r key now).0 ≡ false)
        × (r.limit ≤ w.count)
        × (JsMap.get (allow r key now).1.windows key ≡ some w))
      ⊎ (((allow r key now).0 ≡ true)
          × (w.count < r.limit)
          × (JsMap.get (allow r key now).1.windows key ≡ some (record w { count = w.count + 1 })))
unfolding allow
allow_current r key now w found within = elim (Bool-cases (leb r.limit w.count)) [
  | inl full ↦ inl (ground arith, ground arith, ground arith)
  | inr room ↦ inr (
    ground arith,
    ground arith,
    ground (arith, get-set_self r.windows key (record w { count = w.count + 1 })),
  )
]

-- In a window that is current for `key`, with the attempts of all sources mixed in any order, as
-- many attempts of `key` are let through as there are places left, and no more.
pub allowed_for_current :
    (key : String) (as' : List (String × Instant)) (r : ConnectionRateLimiter) (w : Window)
    → JsMap.get r.windows key ≡ some w
    → All (λ a. a.1 < w.window_start + r.window_ms) as'
    → allowed_for key r as' ≡ min (attempts_of key as') (r.limit - w.count)
unfolding allowed_for attempts_of
allowed_for_current key [] r w found within = omega arith
allowed_for_current key ((source, now) ∷ later) r w found (now_in, within) =
    let (same_limit, same_span) = allow-keeps r source now in
    elim (Bool-cases (source == key)) [
      | inl own ↦
          let e : source ≡ key = (eq_iff source key).0 own in
          (elim (allow_current r source now w (ap (JsMap.get r.windows) e ∙ found) now_in) [
            | inl (refused, full, kept) ↦
                let ih =
                  allowed_for_current key later (allow r source now).1 w
                    (ap (JsMap.get (allow r source now).1.windows) (sym e) ∙ kept)
                    (rw same_span within) in
                rw (own, refused) (omega (arith, ih, same_limit))
            | inr (let_in, room, counted) ↦
                let ih =
                  allowed_for_current key later (allow r source now).1
                    (record w { count = w.count + 1 })
                    (ap (JsMap.get (allow r source now).1.windows) (sym e) ∙ counted)
                    (rw same_span within) in
                rw (own, let_in) (omega (arith, ih, same_limit))
          ])
      | inr other ↦
          let ih =
            allowed_for_current key later (allow r source now).1 w
              (get-allow_other r source key now other ∙ found) (rw same_span within) in
          rw other (omega (arith, ih, same_limit))
    ]

-- The first attempt of a source whose window is over, or that has none, opens one.
pub allow_fresh :
    (r : ConnectionRateLimiter) (key : String) (now : Instant)
    → IsOpening r key now
    → ((allow r key now).0 ≡ true)
      × (JsMap.get (allow r key now).1.windows key
          ≡ some (record { count = 1; window_start = now }))
unfolding allow
allow_fresh r key now h = elim (Option-cases (JsMap.get r.windows key)) [
  | inl none_yet ↦ (
    ground arith,
    ground (arith, get-set_self r.windows key (record { count = 1; window_start = now })),
  )
  | inr (w, found) ↦ (
    ground (arith, h w found),
    ground
        (arith, h w found, get-set_self r.windows key (record { count = 1; window_start = now })),
  )
]

-- With a positive limit: from the attempt that opens a window of a source, which has no current
-- one, up to the end of that window, with the attempts of all sources mixed in any order, the
-- number of attempts of the source that are let through is the number that it makes, up to the
-- limit.
pub allowed_for-window :
    (key : String) (now : Instant) (later : List (String × Instant)) (r : ConnectionRateLimiter)
    → 0 < r.limit
    → IsOpening r key now
    → All (λ a. a.1 < now + r.window_ms) later
    → allowed_for key r ((key, now) ∷ later) ≡ min (attempts_of key ((key, now) ∷ later)) r.limit
unfolding allowed_for attempts_of
allowed_for-window key now later r positive opening within =
    let (let_in, opened) = allow_fresh r key now opening in
    let (same_limit, same_span) = allow-keeps r key now in
    let rest =
      allowed_for_current key later (allow r key now).1 (record { count = 1; window_start = now })
        opened (rw same_span within) in
    rw (eq_refl key, let_in) (omega (arith, rest, same_limit))
