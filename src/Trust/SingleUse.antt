-- ===== src/Trust/SingleUse.antt =====
-- internal/tunnel/daemon/pairing_state.go: an invitation is used once, whatever happens to the file
-- in between.
use agent_tunnel.Base.{
  ℕ, ◌≡◌, refl, sym, subst, Bool, true, false, not, Option, none, some, ◌==◌, arith, Bool-cases,
  inl, inr, ◌⊎◌,
}
use agent_tunnel.Base.Text.{Text, text_eq, trim}
use agent_tunnel.Base.Int.{int_eq}
use agent_tunnel.Pairing.{Crypto}
use agent_tunnel.Pairing.Invitation.{AndroidResponse, VerifiedPairing}
use agent_tunnel.Trust.{
  PairingState, Error, sas_mismatch, Result, ok, err, attempt, File, absent, broken, saved, Env,
  load_pairing_state, save_pairing_state, seconds, time_or, known,
}
use agent_tunnel.Trust.Operations.{usable}
use agent_tunnel.Trust.Completion.{
  check_response, complete_verified, complete_loaded, complete_pairing_response,
}
use agent_tunnel.Trust.Spent.{
  spent, single, in_file, spent-consume_first_self, usable-spent, refusal,
}
use agent_tunnel.Trust.{Identity, identity_unavailable, ◌>>=◌}
use agent_tunnel.Trust.Operations.{from_protocol, find_invitation}
use agent_tunnel.Trust.Completion.{verify_pairing_response_for_record}
use agent_tunnel.Pairing
use agent_tunnel.Trust.Keeping.{IsSpent, loaded-spent}
use agent_tunnel.Trust.Steps.{Run, Run-IsSpent}

abbrev pub is_mismatch : Error → Bool
is_mismatch sas_mismatch = true
is_mismatch e = false

-- The answer was verified and the file was written, whether the digits were right or not.
abbrev pub is_answered {ℓ} : {A : Type ℓ} → Result A → Bool
is_answered (ok a) = true
is_answered (err e) = is_mismatch e

-- The checks before do not end in this error.
abbrev is_check {ℓ} : {A : Type ℓ} → Result A → Bool
is_check (ok a) = true
is_check (err e) = not (is_mismatch e)

attempt-Spends {ℓ κ} :
    {A : Type ℓ} {B : Type κ} (id : Text) (file : File) (r : Result A) (next : A → File × Result B)
    → is_check r ≡ true
    → ((a : A) → r ≡ ok a → is_answered (next a).1 ≡ true → IsSpent id (next a).0)
    → is_answered (attempt file r next).1 ≡ true
    → IsSpent id (attempt file r next).0
unfolding attempt
attempt-Spends id file (ok a) next h spends done = spends a refl done
attempt-Spends id file (err e) next h spends done = absurd (ground (arith, h, done))

save-Spends {ℓ} :
    {A : Type ℓ} (id : Text) (file : File) (writable : Bool) (state : PairingState)
    (result : Result A)
    → spent id state.invitations ≡ true
    → is_answered (save_pairing_state file writable state result).1 ≡ true
    → IsSpent id (save_pairing_state file writable state result).0
unfolding save_pairing_state
save-Spends id file true state result s done = s
save-Spends id file false state result s done = absurd (ground (arith, done))

load-is_check : (file : File) → is_check (load_pairing_state file) ≡ true
unfolding load_pairing_state
load-is_check absent = refl
load-is_check broken = refl
load-is_check (saved state) = ground arith

usable-is_check :
    (id : Text) (state : PairingState) (now : ℕ) → is_check (usable id state now) ≡ true
unfolding usable
usable-is_check id state now = ground arith

bind-is_check {ℓ κ} :
    {A : Type ℓ} {B : Type κ} (r : Result A) (f : A → Result B)
    → is_check r ≡ true
    → ((a : A) → is_check (f a) ≡ true)
    → is_check (r >>= f) ≡ true
bind-is_check (ok a) f h k = k a
bind-is_check (err e) f h k = h

known-is_check {ℓ} :
    {A : Type ℓ} (e : Error) (o : Option A) → is_mismatch e ≡ false → is_check (known e o) ≡ true
known-is_check e none h = ground (arith, h)
known-is_check e (some a) h = refl

from_protocol-is_check {ℓ} : {A : Type ℓ} (r : Pairing.Result A) → is_check (from_protocol r) ≡ true
from_protocol-is_check (Pairing.ok a) = refl
from_protocol-is_check (Pairing.err e) = refl

loaded-single :
    (id : Text) (file : File) (state : PairingState)
    → in_file (single id) file ≡ true
    → load_pairing_state file ≡ ok state
    → single id state.invitations ≡ true
unfolding load_pairing_state single
loaded-single id absent state h e = ground (arith, e)
loaded-single id broken state h e = ground (arith, e)
loaded-single id (saved s) state h e = ground (arith, e)

Result-cases {ℓ} :
    {A : Type ℓ} (r : Result A) → ((a : A) × (r ≡ ok a)) ⊎ ((e : Error) × (r ≡ err e))
Result-cases (ok a) = inl (a, refl)
Result-cases (err e) = inr (e, refl)

-- The operation fails and leaves the file.
abbrev pub Refused {ℓ} : {A : Type ℓ} → File → File × Result A → Type ℓ
Refused file out = (e : Error) × (out ≡ (file, err e))

module _ (c : Crypto) where
  check-is_check :
      (state : PairingState) (identity : Option Identity) (response : AndroidResponse) (now : ℕ)
      → is_check (check_response c state identity response now) ≡ true
  unfolding check_response
  check-is_check state identity response now =
      bind-is_check (known identity_unavailable identity) _ (known-is_check _ identity refl) (λ own.
        bind-is_check (usable response.invitation_id state now) _
          (usable-is_check response.invitation_id state now)
          (λ i.
            bind-is_check (from_protocol (verify_pairing_response_for_record c i own response now))
              _ (from_protocol-is_check (verify_pairing_response_for_record c i own response now))
              (λ verified. refl)))

  verified-Spends :
      (file : File) (env : Env) (state : PairingState) (response : AndroidResponse)
      (expected : Text) (now : ℕ) (verified : VerifiedPairing)
      → single response.invitation_id state.invitations ≡ true
      → is_answered (complete_verified c file env state response expected now verified).1 ≡ true
      → IsSpent response.invitation_id
          (complete_verified c file env state response expected now verified).0
  unfolding complete_verified
  verified-Spends file env state response expected now verified one =
      let k = spent-consume_first_self response.invitation_id (seconds now) state.invitations one in
      elim (Bool-cases (trim expected == verified.sas)) [
        | inl e ↦ rw e (save-Spends response.invitation_id file env.writable _ _ k)
        | inr e ↦ rw e (save-Spends response.invitation_id file env.writable _ _ k)
      ]

  complete-Spends :
      (file : File) (env : Env) (response : AndroidResponse) (expected : Text) (at : Option ℕ)
      → in_file (single response.invitation_id) file ≡ true
      → is_answered (complete_pairing_response c file env response expected at).1 ≡ true
      → IsSpent response.invitation_id (complete_pairing_response c file env response expected at).0
  unfolding complete_pairing_response complete_loaded
  complete-Spends file env response expected at one =
      attempt-Spends response.invitation_id file (load_pairing_state file) _ (load-is_check file)
        (λ state loaded.
          attempt-Spends response.invitation_id file
            (check_response c state env.identity response (time_or env.clock at)) _
            (check-is_check state env.identity response _)
            (λ p _.
              verified-Spends file env state response expected _ p.1
                (loaded-single response.invitation_id file state one loaded)))

  check-spent :
      (state : PairingState) (identity : Option Identity) (response : AndroidResponse) (now : ℕ)
      → spent response.invitation_id state.invitations ≡ true
      → (e : Error) × (check_response c state identity response now ≡ err e)
  unfolding check_response
  check-spent state none response now s = (identity_unavailable, refl)
  check-spent state (some own) response now s =
      let e = usable-spent response.invitation_id state now s in
      (refusal (find_invitation response.invitation_id state.invitations), rw e refl)

  complete-spent :
      (file : File) (env : Env) (response : AndroidResponse) (expected : Text) (at : Option ℕ)
      → IsSpent response.invitation_id file
      → Refused file (complete_pairing_response c file env response expected at)
  unfolding complete_pairing_response complete_loaded attempt
  complete-spent file env response expected at h = elim (Result-cases (load_pairing_state file)) [
    | inl (state, l) ↦
        let (e, refused) =
          check-spent state env.identity response (time_or env.clock at)
            (loaded-spent response.invitation_id file state h l) in
        (e, rw l (rw refused refl))
    | inr (e, l) ↦ (e, rw l refl)
  ]

  -- Once an answer to an invitation was verified and the file was written, even if the digits were
  -- wrong, no answer to that invitation is completed, whatever operations change the file in between,
  -- as long as none of them makes another invitation of the same random id; at most one invitation of
  -- the id is in the file at first.
  pub complete_pairing_response-Run :
      (file later : File) (env : Env) (response : AndroidResponse) (expected : Text) (at : Option ℕ)
      → in_file (single response.invitation_id) file ≡ true
      → is_answered (complete_pairing_response c file env response expected at).1 ≡ true
      → Run c response.invitation_id
          (complete_pairing_response c file env response expected at).0
          later
      → (env' : Env) (response' : AndroidResponse) (expected' : Text) (at' : Option ℕ)
      → response'.invitation_id ≡ response.invitation_id
      → Refused later (complete_pairing_response c later env' response' expected' at')
  complete_pairing_response-Run file later env response expected at one answered run env' response'
        expected' at' same =
      complete-spent later env' response' expected' at' (
        subst (λ id. IsSpent id later) (sym same)
          (Run-IsSpent c response.invitation_id _ later run
            (complete-Spends file env response expected at one answered)))
