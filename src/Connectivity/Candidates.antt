-- ===== src/Connectivity/Candidates.antt =====
-- The addresses that the two sides of a rendezvous tell one another.
use agent_tunnel.Base.{
  ℕ, ◌≤◌, Bool, true, ◌&&◌, List, [], ◌∷◌, ◌==◌, if◌then◌else◌, arith, length, take, length-take,
}
use agent_tunnel.Base.Text.{Text, text_eq, trim, is_empty, text_ltb}

abbrev pub rendezvous_candidate_limit : ℕ
rendezvous_candidate_limit = 8

-- The set `seen`, kept in the order of `sort.Strings`.
insert_sorted : Text → List Text → List Text
insert_sorted a [] = a ∷ []
insert_sorted a (b ∷ rest) =
    let behind = insert_sorted a rest in
    if a == b then b ∷ rest else if text_ltb a b then a ∷ b ∷ rest else b ∷ behind

collect : List Text → List Text
collect [] = []
collect (raw ∷ rest) =
    let seen = collect rest in if is_empty (trim raw) then seen else insert_sorted (trim raw) seen

unfoldable pub normalize_candidate_list : List Text → List Text
unfolding insert_sorted collect
normalize_candidate_list addrs = take rendezvous_candidate_limit (collect addrs)

all_valid : (Text → Bool) → List Text → Bool
all_valid valid [] = true
all_valid valid (addr ∷ rest) = valid addr && all_valid valid rest

-- `valid` is validUDPAddr.
unfoldable pub valid_candidate_payload : (Text → Bool) → Text → List Text → Bool
unfolding all_valid
valid_candidate_payload valid public private = valid public && all_valid valid private

-- At most eight addresses are passed on.
pub length-normalize_candidate_list :
    (addrs : List Text) → length (normalize_candidate_list addrs) ≤ rendezvous_candidate_limit
unfolding normalize_candidate_list
length-normalize_candidate_list addrs = omega (arith, length-take 8 (collect addrs))
