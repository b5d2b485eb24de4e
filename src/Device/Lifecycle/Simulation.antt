-- ===== src/Device/Lifecycle/Simulation.antt =====
-- The registry refines the abstract machine of a launch.
use agent_tunnel.Base.{
  ◌≡◌, refl, sym, ap, ◌∙◌, subst, Bool, true, not, ◌&&◌, ◌||◌, none, some, Option, ◌==◌, nat_eq,
  if◌then◌else◌, Bool-cases, Option-cases, inl, inr, arith,
}
use agent_tunnel.Base.Text.{Text, text_eq}
use agent_tunnel.Base.Peer.{Peer, peer_eq}
use agent_tunnel.Base.Dict.{Dict, lookup}
use agent_tunnel.Device.{Registry, LaunchRequest}
use agent_tunnel.Device.Requests.{clear_request}
use agent_tunnel.Device.Launch.{send_launch, expire_launch, timeout_launch_request}
use agent_tunnel.Device.Machine.{Op, launch_sent, launch_expired}
use agent_tunnel.Device.Takeover.{requests-clear_request}
use agent_tunnel.Device.Lifecycle.{
  Phase, absent, waiting, accepted, overdue, phase, Event, ignored, gives_up, advance, Allowed,
  unrelated, unsent, expired, lost, is_disruptive,
}
use agent_tunnel.Device.Lifecycle.Kept.{Kept, same, given_up}
use agent_tunnel.Device.Lifecycle.Resolved.{without}

-- A step from one entry to another is an event of the abstract machine, and an allowed one.
abbrev pub Simulated : Op → Text → Option LaunchRequest → Option LaunchRequest → Type 0
Simulated op id before after =
    (event : Event) × Allowed before op id event × (phase after ≡ advance (phase before) event)

pub gives_up-absent : (p : Phase) → absent ≡ advance p gives_up
gives_up-absent absent = refl
gives_up-absent (waiting s) = refl
gives_up-absent accepted = refl
gives_up-absent overdue = refl

ignored-same : (p : Phase) → p ≡ advance p ignored
ignored-same absent = refl
ignored-same (waiting s) = refl
ignored-same accepted = refl
ignored-same overdue = refl

pub idle : (op : Op) (id : Text) (m n : Option LaunchRequest) → n ≡ m → Simulated op id m n
idle op id m n e = (ignored, unrelated m op id, ap phase e ∙ ignored-same (phase m))

pub disruption :
    (op : Op) (id : Text) (m n : Dict Text LaunchRequest)
    → is_disruptive op ≡ true
    → Kept id m n
    → Simulated op id (lookup id m) (lookup id n)
disruption op id m n d (same e) = idle op id _ _ e
disruption op id m n d (given_up q found early gone) =
    subst (λ o. Simulated op id o (lookup id n)) (sym found)
      (gives_up, lost q op id early d, ap phase gone ∙ gives_up-absent (phase (some q)))

-- A request that is taken back.
withdrawal :
    (op : Op) (k id : Text) (o : Option LaunchRequest)
    → ((q : LaunchRequest) → Allowed (some q) op k gives_up)
    → Simulated op id o (without k id o)
withdrawal op k id none allowed = idle op id _ _ (ground arith)
withdrawal op k id (some q) allowed = elim (Bool-cases (k == id)) [
  | inl e ↦ rw e (
    gives_up,
    subst (λ i. Allowed (some q) op i gives_up) (ground (arith, e)) (allowed q),
    gives_up-absent (phase (some q)),
  )
  | inr e ↦ idle op id _ _ (rw e refl)
]

requests-send :
    (r : Registry) (k id : Text) (peer : Peer) (late delivered : Bool) (command cwd label : Text)
    → lookup id (send_launch r k peer late delivered command cwd label).0.requests ≡ (
        if late || not delivered then without k id (lookup id r.requests) else lookup id r.requests)
unfolding send_launch
requests-send r k id peer late delivered command cwd label =
    ground (arith, requests-clear_request r k id)

pub sending :
    (r : Registry) (k id : Text) (peer : Peer) (late delivered : Bool) (command cwd label : Text)
    → Simulated
        (launch_sent k peer late delivered command cwd label)
        id
        (lookup id r.requests)
        (lookup id (send_launch r k peer late delivered command cwd label).0.requests)
sending r k id peer late delivered command cwd label =
    let op = launch_sent k peer late delivered command cwd label in
    let e = requests-send r k id peer late delivered command cwd label in
    elim (Bool-cases (late || not delivered)) [
      | inl failed ↦ subst (Simulated op id (lookup id r.requests)) (sym (e ∙ (rw failed refl))) (
          withdrawal op k id (lookup id r.requests)
            (λ q. unsent q k peer late delivered command cwd label))
      | inr sent ↦ idle op id _ _ (e ∙ (rw sent refl))
    ]

requests-expire :
    (r : Registry) (k id : Text)
    → lookup id (expire_launch r k).0.requests ≡ without k id (lookup id r.requests)
unfolding expire_launch timeout_launch_request
requests-expire r k id = elim (Option-cases (clear_request r k).1) [
  | inl e ↦ ground (arith, requests-clear_request r k id)
  | inr (q, e) ↦ ground (arith, requests-clear_request r k id)
]

pub expiry :
    (r : Registry) (k id : Text)
    → Simulated
        (launch_expired k)
        id
        (lookup id r.requests)
        (lookup id (expire_launch r k).0.requests)
expiry r k id =
    subst (Simulated (launch_expired k) id (lookup id r.requests)) (sym (requests-expire r k id))
      (withdrawal (launch_expired k) k id (lookup id r.requests) (λ q. expired q k))

-- A step that changes the entry of one key, where a test passes.
pub at_key :
    (op : Op) (k id : Text) (test : Bool) (q : LaunchRequest) (entry : Option LaunchRequest)
    (m n : Dict Text LaunchRequest)
    → lookup k m ≡ some q
    → lookup id n ≡ (if k == id && test then entry else lookup id m)
    → (test ≡ true → Simulated op k (some q) entry)
    → Simulated op id (lookup id m) (lookup id n)
at_key op k id test q entry m n at result simulated = elim (Bool-cases (k == id && test)) [
  | inl e ↦
      let same_key : k ≡ id = ground (arith, e) in
      let before : some q ≡ lookup id m = sym at ∙ ap (λ i. lookup i m) same_key in
      let after : entry ≡ lookup id n = sym (result ∙ rw e refl) in
      subst (Simulated op id (lookup id m)) after (
        subst (λ o. Simulated op id o entry) before
          (subst (λ i. Simulated op i (some q) entry) same_key (simulated (ground (arith, e)))))
  | inr e ↦ idle op id _ _ (result ∙ rw e refl)
]
