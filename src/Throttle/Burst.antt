-- ===== src/Throttle/Burst.antt =====
-- What Allow says after a burst of failures, and to other clients.
use agent_tunnel.Base.{
  ℕ, suc, ◌+◌, ◌-◌, ◌≤◌, ◌<◌, ◌≡◌, ◌≢◌, refl, ◌∙◌, Bool, true, false, Option, none, some, List, [],
  ◌∷◌, arith, ltb, leb, if◌then◌else◌, length, All, Bool-cases, inl, inr,
}
use agent_tunnel.Base.Text.{Text, is_empty, text_eq}
use agent_tunnel.Base.Dict.{lookup, insert, lookup-insert, lookup-delete}
use agent_tunnel.Throttle.{
  Throttle, Window, is_over, allow, allow_window, record_failure, current_window, reset,
}

-- The verdict and the time to wait.
abbrev pub answer : Option Throttle × Bool × ℕ → Bool × ℕ
answer (t, ok, retry) = (ok, retry)

abbrev pub record_all : Option Throttle → Text → List ℕ → Option Throttle
record_all t ip [] = t
record_all t ip (now ∷ times) = record_all (record_failure t ip now) ip times

-- What a throttle that holds window `w` for the client tells it.
abbrev pub verdict : Throttle → Window → ℕ → Bool × ℕ
verdict t w now =
    if is_over t w now
    then (true, 0)
    else if ltb w.failures t.limit
    then (true, 0)
    else (false, w.start + t.window - now)

-- `o` is `t` but for the windows, and its window for `ip` is `w`.
abbrev Holds : Option Throttle → Throttle → Text → Window → Type 0
Holds o t ip w =
    (t' : Throttle) × (o ≡ some t')
    × (t'.limit ≡ t.limit)
    × (t'.window ≡ t.window)
    × (lookup ip t'.clients ≡ some w)

answer-Holds :
    (o : Option Throttle) (t : Throttle) (ip : Text) (w : Window) (now : ℕ)
    → is_empty ip ≡ false
    → Holds o t ip w
    → answer (allow o ip now) ≡ verdict t w now
unfolding allow allow_window
answer-Holds o t ip w now e (t', same, limit, window, found) = rw same (ground arith)

record_failure-Holds :
    (o : Option Throttle) (t : Throttle) (ip : Text) (w : Window) (now : ℕ)
    → is_empty ip ≡ false
    → Holds o t ip w
    → now < w.start + t.window
    → Holds (record_failure o ip now) t ip (record w { failures = suc w.failures })
unfolding record_failure current_window
record_failure-Holds o t ip w now e (t', same, limit, window, found) h = rw same (
  record t' { clients = insert ip (record w { failures = suc w.failures }) t'.clients },
  ground arith,
  limit,
  window,
  ground (arith, lookup-insert ip ip (record w { failures = suc w.failures }) t'.clients),
)

record_all-Holds :
    (o : Option Throttle) (t : Throttle) (ip : Text) (w : Window) (times : List ℕ)
    → is_empty ip ≡ false
    → Holds o t ip w
    → All (λ now. now < w.start + t.window) times
    → Holds (record_all o ip times) t ip (record w { failures = w.failures + length times })
record_all-Holds o t ip w [] e h inside =
    let zero_more : w.failures + 0 ≡ w.failures = omega arith in rw zero_more h
record_all-Holds o t ip w (now ∷ times) e h inside =
    let moved : w.failures + suc (length times) ≡ suc w.failures + length times = omega arith in
    rw moved (
      record_all-Holds (record_failure o ip now) t ip (record w { failures = suc w.failures }) times
        e (record_failure-Holds o t ip w now e h inside.0) inside.1)

first_failure-Holds :
    (t : Throttle) (ip : Text) (start : ℕ)
    → is_empty ip ≡ false
    → lookup ip t.clients ≡ none
    → Holds (record_failure (some t) ip start) t ip (record { start = start; failures = 1 })
unfolding record_failure current_window
first_failure-Holds t ip start e h = (
  record t { clients = insert ip (record { start = start; failures = 1 }) t.clients },
  ground arith,
  refl,
  refl,
  ground (arith, lookup-insert ip ip (record { start = start; failures = 1 }) t.clients),
)

-- After a first failure at `start` of a client that the throttle does not know, and further ones in
-- its window, the client is refused exactly when the failures reach the limit and the window is not
-- over; the time to wait is what is left of the window.
pub allow-record_all :
    (t : Throttle) (ip : Text) (start : ℕ) (times : List ℕ) (now : ℕ)
    → is_empty ip ≡ false
    → lookup ip t.clients ≡ none
    → All (λ later. later < start + t.window) times
    → answer (allow (record_all (record_failure (some t) ip start) ip times) ip now) ≡ (
        if leb (start + t.window) now
        then (true, 0)
        else if ltb (suc (length times)) t.limit
        then (true, 0)
        else (false, start + t.window - now))
allow-record_all t ip start times now e h inside =
    let w : Window = record { start = start; failures = 1 + length times } in
    let counted : 1 + length times ≡ suc (length times) = omega arith in
    answer-Holds _ t ip w now e (
      record_all-Holds _ t ip (record { start = start; failures = 1 }) times e
        (first_failure-Holds t ip start e h) inside)
    ∙ rw counted refl

answer-insert_other :
    (t : Throttle) (ip other : Text) (w : Window) (now : ℕ)
    → ip ≢ other
    → answer (allow (some (record t { clients = insert ip w t.clients })) other now)
      ≡ answer (allow (some t) other now)
unfolding allow allow_window
answer-insert_other t ip other w now h = ground (arith, lookup-insert ip other w t.clients)

-- A failure of one client changes no answer to another.
pub allow-record_failure_other :
    (t : Option Throttle) (ip other : Text) (at now : ℕ)
    → ip ≢ other
    → answer (allow (record_failure t ip at) other now) ≡ answer (allow t other now)
unfolding record_failure
allow-record_failure_other none ip other at now h = refl
allow-record_failure_other (some t) ip other at now h = elim (Bool-cases (is_empty ip)) [
  | inl e ↦ rw e refl
  | inr e ↦ rw e (answer-insert_other t ip other _ now h)
]

-- Asking changes no later answer, if the clock does not run backwards.
pub allow-allow :
    (t : Option Throttle) (ip other : Text) (before now : ℕ)
    → before ≤ now
    → answer (allow (allow t ip before).0 other now) ≡ answer (allow t other now)
unfolding allow allow_window
allow-allow none ip other before now h = refl
allow-allow (some t) ip other before now h = ground (arith, lookup-delete ip other t.clients)

-- After a reset the client is let in.
pub allow-reset :
    (t : Option Throttle) (ip : Text) (now : ℕ) → answer (allow (reset t ip) ip now) ≡ (true, 0)
unfolding allow reset allow_window
allow-reset none ip now = refl
allow-reset (some t) ip now = ground (arith, lookup-delete ip ip t.clients)
