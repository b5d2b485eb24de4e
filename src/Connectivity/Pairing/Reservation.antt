-- ===== src/Connectivity/Pairing/Reservation.antt =====
-- ReservePairing and forwardPairingResponse, one after the other.
use agent_tunnel.Base.{
  ℕ, ◌+◌, ◌≡◌, ◌<◌, refl, sym, ap, ◌∙◌, true, Option, none, some, [], arith, nat_eq,
}
use agent_tunnel.Base.Int.{ℤ, positive_or}
use agent_tunnel.Base.Text.{Text, text_eq, trim}
use agent_tunnel.Base.Peer.{Peer, nil, peer_eq}
use agent_tunnel.Base.Dict.{lookup, lookup-insert, lookup-delete}
use agent_tunnel.Connectivity.{
  Registry, ok, err, correlation_not_found, DaemonOwner, PairCorrelation, LiveDaemon,
}
use agent_tunnel.Connectivity.Keys.{daemon_map_key, pair_correlation_key}
use agent_tunnel.Connectivity.Removal.{sweep_expired_pair_correlations}
use agent_tunnel.Connectivity.Pairing.{
  Answer, reserve_pairing, store_correlation, begin_forward, finish_forward,
  forward_pairing_response, answer_key,
}

abbrev five : ℕ
five = 300_000_000_000

-- A correlation is stored under its key.
store_correlation-stored :
    (r : Registry) (key : Text) (owner : DaemonOwner) (peer : Peer) (id : Text) (expires_at : ℕ)
    (live : Option LiveDaemon)
    → (store_correlation r key owner peer id expires_at live).1 ≡ true
    → lookup
        (pair_correlation_key owner.user_id id)
        (store_correlation r key owner peer id expires_at live).0.correlations
      ≡ some
          (record { id = id; owner = owner; device_id = key; peer = peer; expires_at = expires_at })
unfolding store_correlation
store_correlation-stored r key owner peer id expires_at none h = cc
store_correlation-stored r key owner peer id expires_at (some live) h = ground (
  arith,
  lookup-insert (pair_correlation_key owner.user_id id) (pair_correlation_key owner.user_id id)
      (record { id = id; owner = owner; device_id = key; peer = peer; expires_at = expires_at })
      r.correlations,
)

reserve-stored :
    (r : Registry) (device_id : Text) (owner : DaemonOwner) (peer : Peer) (id : Text) (ttl : ℤ)
    (swept_at now : ℕ)
    → (reserve_pairing r device_id owner peer id ttl swept_at now).1 ≡ true
    → lookup
        (pair_correlation_key owner.user_id (trim id))
        (reserve_pairing r device_id owner peer id ttl swept_at now).0.correlations
      ≡ some (record {
        id = trim id;
        owner = owner;
        device_id = daemon_map_key owner.user_id device_id;
        peer = peer;
        expires_at = now + positive_or five ttl;
      })
unfolding reserve_pairing
reserve-stored r device_id owner peer id ttl swept_at now h =
    let swept = (sweep_expired_pair_correlations r swept_at).0 in
    let key = daemon_map_key owner.user_id device_id in
    ground (
      arith,
      store_correlation-stored swept key owner peer (trim id) (now + positive_or five ttl)
          (lookup key swept.daemons),
    )

-- An answer without an app, as ForwardPairingResponse has it.
abbrev pub IsAnswerTo : Answer → DaemonOwner → Text → Type 0
IsAnswerTo a owner id =
    (a.user_id ≡ owner.user_id)
    × (trim a.correlation_id ≡ trim id)
    × (a.owner.app_session_id ≡ [])
    × (a.app_peer ≡ nil)

-- A reservation that is accepted is found until it expires by an answer without an app of the same
-- user with its id, if nothing else happens in between: the answer goes to the connection that
-- reserved it.
pub begin_forward-reserve :
    (r : Registry) (device_id : Text) (owner : DaemonOwner) (peer : Peer) (id : Text) (ttl : ℤ)
    (swept_at now later : ℕ) (a : Answer)
    → (reserve_pairing r device_id owner peer id ttl swept_at now).1 ≡ true
    → IsAnswerTo a owner id
    → later < now + positive_or 300_000_000_000 ttl
    → (begin_forward (reserve_pairing r device_id owner peer id ttl swept_at now).0 a later).1
      ≡ ok peer
unfolding begin_forward
begin_forward-reserve r device_id owner peer id ttl swept_at now later a reserved
      (user, named, app, connection) live =
    let stored = reserve-stored r device_id owner peer id ttl swept_at now reserved in
    let key : answer_key a ≡ pair_correlation_key owner.user_id (trim id) = rw (user, named) refl in
    rw (app, connection, key, stored) (ground arith)

-- A delivered answer uses up what is stored for it.
forward-used_up :
    (r : Registry) (a : Answer) (later : ℕ) (c : PairCorrelation)
    → a.owner.app_session_id ≡ []
    → a.app_peer ≡ nil
    → lookup (answer_key a) r.correlations ≡ some c
    → later < c.expires_at
    → c.owner.user_id ≡ a.user_id
    → lookup (answer_key a) (forward_pairing_response r a later true).0.correlations ≡ none
unfolding forward_pairing_response begin_forward finish_forward
forward-used_up r a later c app connection found live user =
    rw (app, connection, found)
      (ground (arith, lookup-delete (answer_key a) (answer_key a) r.correlations))

-- Once an answer without an app has been delivered in time, the next answer to the same reservation
-- is refused, whoever gives it, if nothing else happens in between.
pub begin_forward-forward :
    (r : Registry) (device_id : Text) (owner : DaemonOwner) (peer : Peer) (id : Text) (ttl : ℤ)
    (swept_at now later again : ℕ) (a b : Answer)
    → (reserve_pairing r device_id owner peer id ttl swept_at now).1 ≡ true
    → IsAnswerTo a owner id
    → later < now + positive_or 300_000_000_000 ttl
    → (b.user_id ≡ owner.user_id) × (trim b.correlation_id ≡ trim id)
    → (begin_forward
        (forward_pairing_response
          (reserve_pairing r device_id owner peer id ttl swept_at now).0
          a
          later
          true).0
        b
        again).1
      ≡ err correlation_not_found
unfolding begin_forward
begin_forward-forward r device_id owner peer id ttl swept_at now later again a b reserved
      (user, named, app, connection) live (user', named') =
    let stored = reserve-stored r device_id owner peer id ttl swept_at now reserved in
    let key : answer_key a ≡ pair_correlation_key owner.user_id (trim id) = rw (user, named) refl in
    let key' : answer_key b ≡ answer_key a = rw (user, named, user', named') refl in
    let reservation = (reserve_pairing r device_id owner peer id ttl swept_at now).0 in
    let gone =
      forward-used_up reservation a later _ app connection
        (ap (λ k. lookup k reservation.correlations) key ∙ stored) live (sym user) in
    let none_left =
      ap (λ k. lookup k (forward_pairing_response reservation a later true).0.correlations) key'
      ∙ gone in
    rw none_left (ground arith)
