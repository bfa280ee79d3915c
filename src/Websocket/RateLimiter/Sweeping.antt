-- ===== src/Websocket/RateLimiter/Sweeping.antt =====
-- `sweep` of src/websocket/connection-rate-limiter.ts drops what no later attempt would count.
use jiffy_messaging.Base.{
  ℕ, ◌+◌, ◌≤◌, ◌<◌, ◌≡◌, refl, String, Bool, false, Option, none, some, List, [], ◌∷◌, arith,
  if◌then◌else◌, eq_iff, ◌∙◌, sym, true,
}
use jiffy_messaging.Domain.{Instant}
use jiffy_messaging.JsMap
use jiffy_messaging.JsMap.{JsMap, HasDistinctKeys, has_key, lookup}
use jiffy_messaging.JsMap.Laws.{get-delete, set-HasDistinctKeys, delete-HasDistinctKeys}
use jiffy_messaging.Websocket.RateLimiter.{
  Window, ConnectionRateLimiter, is_over, allow, allow_in, sweep, sweep_entries,
}

abbrev pub HasDistinctSources : ConnectionRateLimiter → Type 0
HasDistinctSources r = HasDistinctKeys r.windows.entries

abbrev current : ℕ → Instant → Option Window → Option Window
current window_ms now none = none
current window_ms now (some w) = if is_over window_ms now w then none else some w

abbrev is_stale : ℕ → Instant → Option Window → Bool
is_stale window_ms now none = false
is_stale window_ms now (some w) = is_over window_ms now w

lookup-none : (k : String) (es : List (String × Window)) → has_key k es ≡ false → lookup k es ≡ none
unfolding lookup
lookup-none k [] h = refl
lookup-none k ((j, w) ∷ es) h = ground (arith, lookup-none k es)

get-sweep_entries :
    (window_ms : ℕ) (now : Instant) (es : List (String × Window)) (m : JsMap Window) (k : String)
    → HasDistinctKeys es
    → JsMap.get (sweep_entries window_ms now es m) k
      ≡ (if is_stale window_ms now (lookup k es) then none else JsMap.get m k)
unfolding sweep_entries lookup
get-sweep_entries window_ms now [] m k d = refl
get-sweep_entries window_ms now ((j, w) ∷ es) m k (alone, d) = ground (
  arith,
  get-sweep_entries window_ms now es (if is_over window_ms now w then JsMap.delete m j else m) k d,
  get-delete m j k,
  lookup-none k es,
  eq_iff j k,
)

get-lookup : (m : JsMap Window) (k : String) → JsMap.get m k ≡ lookup k m.entries
unfolding JsMap.get
get-lookup m k = refl

-- After a sweep a source has the window that it had, if that is current, and none otherwise.
get-sweep :
    (r : ConnectionRateLimiter) (now : Instant) (k : String)
    → HasDistinctSources r
    → JsMap.get (sweep r now).windows k ≡ current r.window_ms now (JsMap.get r.windows k)
unfolding sweep
get-sweep r now k d = ground (
  arith,
  get-sweep_entries r.window_ms now r.windows.entries r.windows k d,
  get-lookup r.windows k,
)

-- What an attempt is told depends on the source's window, the limit and the length of the window.
allow_congr :
    (a b : ConnectionRateLimiter) (oa ob : Option Window) (key : String) (now later : Instant)
    → a.limit ≡ b.limit
    → a.window_ms ≡ b.window_ms
    → now ≤ later
    → oa ≡ current b.window_ms now ob
    → (allow_in oa a key later).0 ≡ (allow_in ob b key later).0
unfolding allow_in
allow_congr a b oa none key now later p q le e = ground arith
allow_congr a b oa (some w) key now later p q le e = ground arith

-- If no source has two windows, sweeping changes no later answer: an attempt at or after the time
-- of the sweep is told what it would have been told without it. What the sweep leaves was there
-- before and is current.
pub allow-sweep :
    (r : ConnectionRateLimiter) (key : String) (now later : Instant)
    → HasDistinctSources r
    → now ≤ later
    → ((allow (sweep r now) key later).0 ≡ (allow r key later).0)
      × ((k : String) (w : Window)
          → JsMap.get (sweep r now).windows k ≡ some w
          → (JsMap.get r.windows k ≡ some w) × (now < w.window_start + r.window_ms))
unfolding allow
allow-sweep r key now later d le = (
  allow_congr (sweep r now) r (JsMap.get (sweep r now).windows key) (JsMap.get r.windows key) key
      now later (unfold sweep in refl) (unfold sweep in refl) le (get-sweep r now key d),
  λ k w left. left_current k w (JsMap.get r.windows k) (sym (get-sweep r now k d) ∙ left),
)
  where
    left_current :
        (k : String) (w : Window) (o : Option Window)
        → current r.window_ms now o ≡ some w
        → (o ≡ some w) × (now < w.window_start + r.window_ms)
    left_current k w none h = ground arith
    left_current k w (some v) h = ground arith

allow_in_cases :
    (P : ConnectionRateLimiter → Type 0) (o : Option Window) (r : ConnectionRateLimiter)
    (key : String) (now : Instant)
    → P r
    → ((w : Window) → P (record r { windows = JsMap.set r.windows key w }))
    → P (allow_in o r key now).1
unfolding allow_in
allow_in_cases P none r key now same put = put _
allow_in_cases P (some w) r key now same put =
    ground (
      arith,
      put (record { count = 1; window_start = now }),
      put (record w { count = w.count + 1 }),
    )

-- No source ever has two windows.
pub allow-HasDistinctSources :
    (r : ConnectionRateLimiter) (key : String) (now : Instant)
    → HasDistinctSources r
    → HasDistinctSources (allow r key now).1
unfolding allow JsMap.set
allow-HasDistinctSources r key now d =
    allow_in_cases HasDistinctSources (JsMap.get r.windows key) r key now d
      (λ w. set-HasDistinctKeys key w r.windows.entries d)

sweep_entries-HasDistinctKeys :
    (window_ms : ℕ) (now : Instant) (es : List (String × Window)) (m : JsMap Window)
    → HasDistinctKeys m.entries
    → HasDistinctKeys (sweep_entries window_ms now es m).entries
unfolding sweep_entries JsMap.delete
sweep_entries-HasDistinctKeys window_ms now [] m d = d
sweep_entries-HasDistinctKeys window_ms now ((key, w) ∷ es) m d =
    sweep_entries-HasDistinctKeys window_ms now es _ (either (is_over window_ms now w))
  where
    either : (b : Bool) → HasDistinctKeys (if b then JsMap.delete m key else m).entries
    either true = delete-HasDistinctKeys key m.entries d
    either false = d

pub sweep-HasDistinctSources :
    (r : ConnectionRateLimiter) (now : Instant)
    → HasDistinctSources r
    → HasDistinctSources (sweep r now)
unfolding sweep
sweep-HasDistinctSources r now d =
    sweep_entries-HasDistinctKeys r.window_ms now r.windows.entries r.windows d
