-- ===== src/Throttle.antt =====
-- internal/relay/handler/api/throttle.go: failed registrations are limited per client address in a
-- window of time. Times and durations are nanoseconds; the clock's reading is an argument.
pub mod Burst
mod Tests
use agent_tunnel.Base.{
  ℕ, ◌+◌, ◌-◌, ◌≤◌, Bool, true, false, Option, none, some, [], ◌∷◌, ltb, leb, if◌then◌else◌, suc,
}
use agent_tunnel.Base.Int.{ℤ, positive_or}
use agent_tunnel.Base.Text.{Text, is_empty, text_eq}
use agent_tunnel.Base.Dict.{Dict, lookup, insert, delete}

-- throttleWindow
pub record Window : Type 0 where
  pub start : ℕ
  pub failures : ℕ

-- RegisterThrottle
pub record Throttle : Type 0 where
  pub limit : ℕ
  pub window : ℕ
  pub clients : Dict Text Window

abbrev pub ten_minutes : ℕ
ten_minutes = 600_000_000_000

unfoldable pub new : ℤ → ℤ → Throttle
new limit window = record {
  limit = positive_or 5 limit;
  window = positive_or ten_minutes window;
  clients = [];
}

-- `now.Sub(w.start) >= t.window`
abbrev pub is_over : Throttle → Window → ℕ → Bool
is_over t w now = leb (w.start + t.window) now

-- The answer for a client that has a window.
allow_window : Throttle → Text → ℕ → Window → Throttle × Bool × ℕ
allow_window t ip now w =
    let retry_after = w.start + t.window - now in
    if is_over t w now
    then (record t { clients = delete ip t.clients }, true, 0)
    else if ltb w.failures t.limit
    then (t, true, 0)
    else (t, false, retry_after)

-- A nil throttle is `none`.
unfoldable pub allow : Option Throttle → Text → ℕ → Option Throttle × Bool × ℕ
unfolding allow_window
allow none ip now = (none, true, 0)
allow (some t) ip now = if is_empty ip then (some t, true, 0) else elim (lookup ip t.clients) [
  | none ↦ (some t, true, 0)
  | some w ↦ let (t', ok, retry) = allow_window t ip now w in (some t', ok, retry)
]

-- currentWindowLocked: the window that `now` falls in, a new one where there is none.
current_window : Throttle → Text → ℕ → Window
current_window t ip now = elim (lookup ip t.clients) [
  | none ↦ record { start = now; failures = 0 }
  | some w ↦ if is_over t w now then record { start = now; failures = 0 } else w
]

unfoldable pub record_failure : Option Throttle → Text → ℕ → Option Throttle
unfolding current_window
record_failure none ip now = none
record_failure (some t) ip now =
    if is_empty ip
    then some t
    else (let w = current_window t ip now in
        some (record t { clients = insert ip (record w { failures = suc w.failures }) t.clients }))

unfoldable pub reset : Option Throttle → Text → Option Throttle
reset none ip = none
reset (some t) ip =
    if is_empty ip then some t else some (record t { clients = delete ip t.clients })
