-- ===== src/Device/Ids.antt =====
-- The ids of launches: which device an id is for can be read off it.
use agent_tunnel.Base.{
  ℕ, zero, suc, ◌≡◌, refl, sym, ap, ◌∙◌, List, [], ◌∷◌, ◌++◌, length, length-append, arith,
}
use agent_tunnel.Base.Decimal.{digits}
use agent_tunnel.Base.Text.{Text, codes}
use agent_tunnel.Device.Clock.{time_of_day, launch_request_id}

length-digits : (width n : ℕ) → length (digits width n) ≡ width
unfolding digits
length-digits zero n = refl
length-digits (suc width) n = omega (arith, length-digits width n)

length-time_of_day : (now : ℕ) → length (time_of_day now) ≡ 16
unfolding time_of_day digits
length-time_of_day now = refl

append-same_length {ℓ} :
    {A : Type ℓ} (a b s t : List A) → length s ≡ length t → a ++ s ≡ b ++ t → a ≡ b
append-same_length [] [] s t l e = refl
append-same_length [] (b ∷ bs) s t l e = absurd (omega (arith, l, ap length e, length-append bs t))
append-same_length (a ∷ xs) [] s t l e = absurd (omega (arith, l, ap length e, length-append xs s))
append-same_length (a ∷ xs) (b ∷ bs) s t l e =
    let rest : xs ≡ bs = append-same_length xs bs s t l (cc e) in cc (e, rest)

-- The id of a launch names its device.
pub launch_request_id-device :
    (a b : Text) (m n : ℕ) → launch_request_id a m ≡ launch_request_id b n → a ≡ b
unfolding launch_request_id
launch_request_id-device a b m n e = append-same_length a b (codes "-") (codes "-") refl (
    append-same_length (a ++ codes "-") (b ++ codes "-") (time_of_day m) (time_of_day n)
      (length-time_of_day m ∙ sym (length-time_of_day n)) e)
