-- ===== src/Websocket/RateLimiter.antt =====
-- src/websocket/connection-rate-limiter.ts. Time is an argument of each call.
pub mod Bounds
pub mod Sweeping
pub mod Recovery
pub mod Memory
use jiffy_messaging.Base.{
  ℕ, ◌+◌, String, Bool, true, false, Option, none, some, List, [], ◌∷◌, leb, if◌then◌else◌,
}
use jiffy_messaging.Domain.{Instant}
use jiffy_messaging.JsMap
use jiffy_messaging.JsMap.{JsMap}

pub record Window : Type 0 where
  pub count : ℕ
  pub window_start : Instant

pub record ConnectionRateLimiter : Type 0 where
  pub limit : ℕ
  pub window_ms : ℕ
  pub windows : JsMap Window
  pub sweep_timer : Option ℕ

abbrev or_window_ms : Option ℕ → ℕ → ℕ
or_window_ms none window_ms = window_ms
or_window_ms (some sweep_interval_ms) window_ms = sweep_interval_ms

-- The constructor, with `options.sweepIntervalMs`. The field `sweep_timer` is the interval of the
-- timer, until it is cleared.
unfoldable pub new_limiter : ℕ → ℕ → Option ℕ → ConnectionRateLimiter
new_limiter limit window_ms sweep_interval_ms = record {
  limit = limit;
  window_ms = window_ms;
  windows = JsMap.new_map;
  sweep_timer = some (or_window_ms sweep_interval_ms window_ms);
}

-- `now - window.windowStart >= this.windowMs`, over integers.
abbrev pub is_over : ℕ → Instant → Window → Bool
is_over window_ms now w = leb (w.window_start + window_ms) now

abbrev put_window : ConnectionRateLimiter → String → Window → ConnectionRateLimiter
put_window r key w = record r { windows = JsMap.set r.windows key w }

-- `allow`, from the window that the map has for the key.
unfoldable pub allow_in :
    Option Window → ConnectionRateLimiter → String → Instant → Bool × ConnectionRateLimiter
allow_in none r key now = (true, put_window r key (record { count = 1; window_start = now }))
allow_in (some w) r key now =
    if is_over r.window_ms now w
    then (true, put_window r key (record { count = 1; window_start = now }))
    else if leb r.limit w.count
    then (false, r)
    else (true, put_window r key (record w { count = w.count + 1 }))

unfoldable pub allow : ConnectionRateLimiter → String → Instant → Bool × ConnectionRateLimiter
unfolding allow_in
allow r key now = allow_in (JsMap.get r.windows key) r key now

-- The loop of `sweep` over the entries that the map had.
unfoldable pub sweep_entries : ℕ → Instant → List (String × Window) → JsMap Window → JsMap Window
sweep_entries window_ms now [] m = m
sweep_entries window_ms now ((key, w) ∷ es) m =
    sweep_entries window_ms now es (if is_over window_ms now w then JsMap.delete m key else m)

unfoldable pub sweep : ConnectionRateLimiter → Instant → ConnectionRateLimiter
unfolding sweep_entries
sweep r now = record r { windows = sweep_entries r.window_ms now r.windows.entries r.windows }

unfoldable pub size : ConnectionRateLimiter → ℕ
size r = JsMap.size r.windows

unfoldable pub stop : ConnectionRateLimiter → ConnectionRateLimiter
stop r = record r { sweep_timer = none }

abbrev pub sweep_if_set : Option ℕ → ConnectionRateLimiter → Instant → ConnectionRateLimiter
sweep_if_set none r now = r
sweep_if_set (some sweep_interval_ms) r now = sweep r now

-- What the interval comes to at a time at which it is up.
unfoldable pub on_interval : ConnectionRateLimiter → Instant → ConnectionRateLimiter
on_interval r now = sweep_if_set r.sweep_timer r now
