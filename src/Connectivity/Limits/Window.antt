-- ===== src/Connectivity/Limits/Window.antt =====
-- The times of the requests of a user (allowRelayTunnelRequestLocked and
-- recordRelayTunnelRequestLocked), and what they count.
use agent_tunnel.Base.{
  ◌<◌, ℕ, ◌≤◌, ◌≡◌, refl, ◌∙◌, none, some, List, [], ◌∷◌, ◌++◌, arith, ◌==◌, nat_eq, if◌then◌else◌,
  length, keep, Option-cases, inl, inr,
}
use agent_tunnel.Base.Dict.{Dict, lookup, lookup-insert, lookup-delete}
use agent_tunnel.Connectivity.Limits.{is_recent, recent_requests, record_request, prune, store}

abbrev pub log : Dict ℕ (List ℕ) → ℕ → List ℕ
log d user = elim (lookup user d) [ none ↦ [] | some requests ↦ requests ]

abbrev pub recent_count : ℕ → List ℕ → ℕ
recent_count now l = length (keep (is_recent now) l)

recent_count-keep :
    (t now : ℕ) (l : List ℕ)
    → t ≤ now
    → recent_count now (keep (is_recent t) l) ≡ recent_count now l
recent_count-keep t now [] h = refl
recent_count-keep t now (x ∷ l) h = ground (arith, recent_count-keep t now l h)

recent_count-concat :
    (now t : ℕ) (l : List ℕ) → recent_count now (l ++ (t ∷ [])) ≡ recent_count now (t ∷ l)
recent_count-concat now t [] = refl
recent_count-concat now t (x ∷ l) = ground (arith, recent_count-concat now t l)

-- What is stored for the user, and for any other.
store-log :
    (d : Dict ℕ (List ℕ)) (user other : ℕ) (kept : List ℕ)
    → (log (store d user kept).0 other ≡ (if user == other then kept else log d other))
      × ((store d user kept).1 ≡ kept)
unfolding store
store-log d user other [] = (ground (arith, lookup-delete user other d), refl)
store-log d user other (t ∷ kept) = (ground (arith, lookup-insert user other (t ∷ kept) d), refl)

prune-log :
    (d : Dict ℕ (List ℕ)) (user other now : ℕ) (requests : List ℕ)
    → lookup user d ≡ some requests
    → let kept = keep (is_recent now) requests in
      (log (prune d user now requests).0 other ≡ (if user == other then kept else log d other))
      × ((prune d user now requests).1 ≡ kept)
unfolding prune
prune-log d user other now [] h = (ground arith, refl)
prune-log d user other now (t ∷ requests) h =
    store-log d user other (keep (is_recent now) (t ∷ requests))

recent-log :
    (d : Dict ℕ (List ℕ)) (user other now : ℕ)
    → let kept = keep (is_recent now) (log d user) in
      (log (recent_requests d user now).0 other ≡ (if user == other then kept else log d other))
      × ((recent_requests d user now).1 ≡ kept)
unfolding recent_requests
recent-log d user other now = elim (Option-cases (lookup user d)) [
  | inl e ↦ ground arith
  | inr (requests, e) ↦ ground (arith, prune-log d user other now requests e)
]

record-log :
    (d : Dict ℕ (List ℕ)) (user other now : ℕ)
    → log (record_request d user now) other
      ≡ (if user == other then keep (is_recent now) (log d user) ++ (now ∷ []) else log d other)
unfolding record_request
record-log d user other now =
    let recent = recent_requests d user now in
    ground (
      arith,
      recent-log d user other now,
      lookup-insert user other (recent.1 ++ (now ∷ [])) recent.0,
    )

-- From now on the log of the user counts as all that has got through.
abbrev pub Tracks : Dict ℕ (List ℕ) → ℕ → List ℕ → ℕ → Type 0
Tracks d user earlier last =
    (now : ℕ) → last ≤ now → recent_count now (log d user) ≡ recent_count now earlier

-- What has got through with one more request of a user at a time.
abbrev pub after : List ℕ → ℕ → ℕ → ℕ → List ℕ
after earlier asker user now = if asker == user then now ∷ earlier else earlier

pub later-Tracks :
    (d : Dict ℕ (List ℕ)) (user last now : ℕ) (earlier : List ℕ)
    → last ≤ now
    → Tracks d user earlier last
    → Tracks d user earlier now
later-Tracks d user last now earlier before tracks later h = tracks later (omega arith)

pub prune-Tracks :
    (d : Dict ℕ (List ℕ)) (asker user now last : ℕ) (earlier : List ℕ)
    → last ≤ now
    → Tracks d user earlier last
    → Tracks (recent_requests d asker now).0 user earlier now
prune-Tracks d asker user now last earlier before tracks later h =
    let whole = recent_count-keep now later (log d user) h in
    let same = tracks later (omega arith) in ground (arith, recent-log d asker user now)

recent_count-cons :
    (now t : ℕ) (l m : List ℕ)
    → recent_count now l ≡ recent_count now m
    → recent_count now (t ∷ l) ≡ recent_count now (t ∷ m)
recent_count-cons now t l m h = ground arith

pub record-Tracks :
    (d : Dict ℕ (List ℕ)) (asker user now : ℕ) (earlier : List ℕ)
    → Tracks d user earlier now
    → Tracks (record_request d asker now) user (after earlier asker user now) now
record-Tracks d asker user now earlier tracks later h =
    let l = log d user in
    let whole = recent_count-keep now later l h in
    let same = tracks later h in
    ground (
      arith,
      record-log d asker user now,
      recent_count-concat later now (keep (is_recent now) l),
      recent_count-cons later now (keep (is_recent now) l) earlier (whole ∙ same),
    )

-- Fewer than ten recent requests in the log: with the next one there are no more than ten.
pub Tracks-ten :
    (d : Dict ℕ (List ℕ)) (user now : ℕ) (earlier : List ℕ)
    → Tracks d user earlier now
    → length (recent_requests d user now).1 < 10
    → recent_count now (now ∷ earlier) ≤ 10
Tracks-ten d user now earlier tracks few =
    let same = tracks now (omega arith) in ground (arith, recent-log d user user now)
