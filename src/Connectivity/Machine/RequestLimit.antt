-- ===== src/Connectivity/Machine/RequestLimit.antt =====
-- How many of the tunnels that a user asks for are granted within a minute, over any steps.
use agent_tunnel.Base.{
  ℕ, ◌+◌, ◌≤◌, ◌<◌, ◌≡◌, refl, ◌≢◌, sym, ap, subst, Bool, ◌&&◌, none, List, [], ◌∷◌, arith, ◌==◌,
  nat_eq, ltb, if◌then◌else◌, length, keep, inl, inr, Bool-cases,
}
use agent_tunnel.Base.Dict.{Dict, lookup}
use agent_tunnel.Connectivity.{Registry}
use agent_tunnel.Connectivity.Limits.{recent_requests}
use agent_tunnel.Connectivity.Limits.Window.{
  Tracks, after, later-Tracks, prune-Tracks, record-Tracks, Tracks-ten,
}
use agent_tunnel.Connectivity.Requests.{TunnelRequest, Env}
use agent_tunnel.Connectivity.Tunnels.{begin_relay_tunnel}
use agent_tunnel.Connectivity.Machine.{Op, step, tunnel_begun}
use agent_tunnel.Connectivity.Machine.Books.{Accounts, accounts}
use agent_tunnel.Connectivity.Machine.Books.Daemons.{
  disconnect_session-books, disconnect_user-books,
}
use agent_tunnel.Connectivity.Machine.Books.Tunnels.{HasNoted, begin-HasNoted, is_ok}
use agent_tunnel.Connectivity.Machine.Books.Steps.{
  Writes, by_request, by_session, by_user, step-books,
}

-- The times at which tunnels were granted to a user, the latest first, with one more step.
abbrev pub noted : Registry → ℕ → Op → List ℕ → List ℕ
noted r user (tunnel_begun q env) earlier =
    if is_ok (begin_relay_tunnel r q env).1 && q.owner.user_id == user
    then env.now ∷ earlier
    else earlier
noted r user op earlier = earlier

unfoldable pub granted : Registry → ℕ → List Op → List ℕ → List ℕ
granted r user [] earlier = earlier
granted r user (op ∷ ops) earlier = granted (step r op) user ops (noted r user op earlier)

abbrev pub one_minute : ℕ
one_minute = 60_000_000_000

-- Whenever one was granted, no more than ten were within the minute that ends there.
abbrev pub IsLimited : List ℕ → Type 0
IsLimited [] = Unit
IsLimited (now ∷ earlier) =
    (length (keep (λ at. ltb now (at + one_minute)) (now ∷ earlier)) ≤ 10) × IsLimited earlier

-- The clock does not run backwards from a request to a later one, of whatever users.
abbrev pub IsAscending : ℕ → List Op → Type 0
IsAscending last [] = Unit
IsAscending last (tunnel_begun q env ∷ ops) = (last ≤ env.now) × IsAscending env.now ops
IsAscending last (op ∷ ops) = IsAscending last ops

-- The log of the user counts what was granted, and the limit has been kept.
record Keeps (r : Registry) (user : ℕ) (earlier : List ℕ) (last : ℕ) : Type 0 where
  tracks : Tracks r.tunnel_requests user earlier last
  limited : IsLimited earlier

after-IsLimited :
    (d : Dict ℕ (List ℕ)) (asker user now : ℕ) (earlier : List ℕ)
    → Tracks d user earlier now
    → IsLimited earlier
    → length (recent_requests d asker now).1 < 10
    → IsLimited (after earlier asker user now)
after-IsLimited d asker user now earlier tracks limited few = elim (Bool-cases (asker == user)) [
  | inl e ↦
      let same : asker ≡ user = ground (arith, e) in
      rw e (Tracks-ten d user now earlier tracks (rw same at few), limited)
  | inr e ↦ rw e limited
]

noted-Tracks :
    (b c : Accounts) (asker user now last : ℕ) (earlier : List ℕ) (accepted : Bool)
    → last ≤ now
    → Tracks b.0.2 user earlier last
    → IsLimited earlier
    → HasNoted b asker now c accepted
    → let more = if accepted && asker == user then now ∷ earlier else earlier in
      Tracks c.0.2 user more now × IsLimited more
noted-Tracks b c asker user now last earlier accepted before tracks limited (inl (refused, inl e)) =
    rw refused (
      subst (λ d. Tracks d user earlier now) (sym (ap (λ a. a.0.2) e))
          (later-Tracks b.0.2 user last now earlier before tracks),
      limited,
    )
noted-Tracks b c asker user now last earlier accepted before tracks limited (inl (refused, inr e)) =
    rw refused (
      subst (λ d. Tracks d user earlier now) (sym (ap (λ a. a.0.2) e))
          (prune-Tracks b.0.2 asker user now last earlier before tracks),
      limited,
    )
noted-Tracks b c asker user now last earlier accepted before tracks limited
      (inr (allowed, few, e)) =
    rw allowed (
      subst (λ d. Tracks d user (after earlier asker user now) now) (sym (ap (λ a. a.0.2) e))
          (record-Tracks (recent_requests b.0.2 asker now).0 asker user now earlier
            (prune-Tracks b.0.2 asker user now last earlier before tracks)),
      after-IsLimited b.0.2 asker user now earlier
          (later-Tracks b.0.2 user last now earlier before tracks) limited few,
    )

unnoted-Keeps :
    (r s : Registry) (user : ℕ) (earlier : List ℕ) (last : ℕ)
    → s.tunnel_requests ≡ r.tunnel_requests
    → Keeps r user earlier last
    → Keeps s user earlier last
unnoted-Keeps r s user earlier last e k = record {
  tracks = subst (λ d. Tracks d user earlier last) (sym e) k.tracks;
  limited = k.limited;
}

request-Keeps :
    (r : Registry) (q : TunnelRequest) (env : Env) (user last : ℕ) (earlier : List ℕ)
    → last ≤ env.now
    → Keeps r user earlier last
    → Keeps (begin_relay_tunnel r q env).0 user (noted r user (tunnel_begun q env) earlier) env.now
request-Keeps r q env user last earlier before k =
    let (tracks, limited) =
      noted-Tracks (accounts r) (accounts (begin_relay_tunnel r q env).0) q.owner.user_id user
        env.now last earlier _ before k.tracks k.limited (begin-HasNoted r q env) in
    record { tracks = tracks; limited = limited }

-- A step that is no request of a tunnel.
unasked :
    (r : Registry) (op : Op)
    → ((q : TunnelRequest) (env : Env) → op ≢ tunnel_begun q env)
    → (step r op).tunnel_requests ≡ r.tunnel_requests
unfolding step
unasked r op other = elim (step-books r op) [
  | inl e ↦ ap (λ b. b.2) e
  | inr w ↦ written r op other w
]
  where
    written :
        (r : Registry) (op : Op)
        → ((q : TunnelRequest) (env : Env) → op ≢ tunnel_begun q env)
        → Writes op
        → (step r op).tunnel_requests ≡ r.tunnel_requests
    written r _ other (by_request q env) = absurd (other q env refl)
    written r _ other (by_session session_id) =
        ap (λ b. b.2) (disconnect_session-books r session_id)
    written r _ other (by_user id now) = ap (λ b. b.2) (disconnect_user-books r id now)

run-IsLimited :
    (ops : List Op) (r : Registry) (user last : ℕ) (earlier : List ℕ)
    → IsAscending last ops
    → Keeps r user earlier last
    → IsLimited (granted r user ops earlier)
unfolding granted step
run-IsLimited [] r user last earlier ascending k = k.limited
run-IsLimited (tunnel_begun q env ∷ ops) r user last earlier (before, ascending) k =
    run-IsLimited ops (begin_relay_tunnel r q env).0 user env.now _ ascending
      (request-Keeps r q env user last earlier before k)
run-IsLimited (op ∷ ops) r user last earlier ascending k =
    run-IsLimited ops (step r op) user last earlier ascending
      (unnoted-Keeps r (step r op) user earlier last (unasked r op (λ q env e. cc e)) k)

-- From a registry without requests of the user, and where the clock does not run backwards between the
-- requests for tunnels: whatever steps the relay takes, at no time at which the user is granted a
-- tunnel have more than ten been granted to the user within the minute that ends there.
pub granted-IsLimited :
    (r : Registry) (user last : ℕ) (ops : List Op)
    → lookup user r.tunnel_requests ≡ none
    → IsAscending last ops
    → IsLimited (granted r user ops [])
granted-IsLimited r user last ops unknown ascending =
    run-IsLimited ops r user last [] ascending
      (record { tracks = λ now h. ground arith; limited = tt })
