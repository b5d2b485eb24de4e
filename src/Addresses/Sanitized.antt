-- ===== src/Addresses/Sanitized.antt =====
-- Which addresses SanitizePrivateUDPAddrs gives.
use agent_tunnel.Base.{
  ℕ, zero, suc, ◌≤◌, ◌<◌, ◌≡◌, refl, sym, ap, subst, true, false, Option, List, [], ◌∷◌, ◌==◌,
  length, take, any, All, All-map, Any, here, there, arith, Bool-cases, inl, inr,
}
use agent_tunnel.Base.Text.{Text, text_eq, text_ltb, is_empty}
use agent_tunnel.Base.Sort.{sort-All, sort-Any}
use agent_tunnel.Addresses.{
  UdpAddr, PrivateAddressOptions, limit_of, is_allowed, normalize_udp_addr, see, see_addr, see_all,
  sanitize_private_udp_addrs,
}

-- The text is that of an address that is allowed.
abbrev pub IsCandidate : PrivateAddressOptions → List (Option UdpAddr) → Text → Type 0
IsCandidate opts addrs s =
    Any (λ addr. (is_allowed opts addr ≡ true) × (normalize_udp_addr addr ≡ s)) addrs

take-All {ℓ κ} : {A : Type ℓ} (P : A → Type κ) (n : ℕ) (xs : List A) → All P xs → All P (take n xs)
take-All P zero xs h = tt
take-All P (suc n) [] h = tt
take-All P (suc n) (x ∷ xs) (p, h) = (p, take-All P n xs h)

length-take_le {ℓ} : {A : Type ℓ} (n : ℕ) (xs : List A) → length (take n xs) ≤ n
length-take_le zero xs = omega arith
length-take_le (suc n) [] = omega arith
length-take_le (suc n) (x ∷ xs) = omega (arith, length-take_le n xs)

see-All : (Q : Text → Type 0) (s : Text) (seen : List Text) → Q s → All Q seen → All Q (see s seen)
unfolding see
see-All Q s seen q h = elim (Bool-cases (any (λ t. t == s) seen)) [
  | inl e ↦ rw e h
  | inr e ↦ rw e (q, h)
]

see_addr-All :
    (Q : Text → Type 0) (opts : PrivateAddressOptions) (addr : Option UdpAddr) (seen : List Text)
    → (is_allowed opts addr ≡ true → Q (normalize_udp_addr addr))
    → All Q seen
    → All Q (see_addr opts addr seen)
unfolding see_addr
see_addr-All Q opts addr seen q h = elim (Bool-cases (is_allowed opts addr)) [
  | inr e ↦ rw e h
  | inl e ↦ elim (Bool-cases (is_empty (normalize_udp_addr addr))) [
    | inl f ↦ rw e (rw f h)
    | inr f ↦ rw e (rw f (see-All Q (normalize_udp_addr addr) seen (q e) h))
  ]
]

see_all-All :
    (Q : Text → Type 0) (opts : PrivateAddressOptions) (addrs : List (Option UdpAddr))
    (seen : List Text)
    → All (λ addr. is_allowed opts addr ≡ true → Q (normalize_udp_addr addr)) addrs
    → All Q seen
    → All Q (see_all opts addrs seen)
unfolding see_all
see_all-All Q opts [] seen q h = h
see_all-All Q opts (addr ∷ addrs) seen (q, qs) h =
    see_all-All Q opts addrs (see_addr opts addr seen) qs (see_addr-All Q opts addr seen q h)

own-IsCandidate :
    (opts : PrivateAddressOptions) (addrs : List (Option UdpAddr))
    → All
        (λ addr. is_allowed opts addr ≡ true → IsCandidate opts addrs (normalize_udp_addr addr))
        addrs
own-IsCandidate opts [] = tt
own-IsCandidate opts (addr ∷ addrs) = (
  λ e. here addr addrs (e, refl),
  All-map _ _ (λ a f e. there addr addrs (f e)) addrs (own-IsCandidate opts addrs),
)

-- Every address that is given is that of an allowed one, and there are no more than the limit.
pub sanitize-IsCandidate :
    (opts : PrivateAddressOptions) (addrs : List (Option UdpAddr))
    → All (IsCandidate opts addrs) (sanitize_private_udp_addrs addrs opts)
      × (length (sanitize_private_udp_addrs addrs opts) ≤ limit_of opts)
unfolding sanitize_private_udp_addrs
sanitize-IsCandidate opts addrs = (
  take-All (IsCandidate opts addrs) (limit_of opts) _ (
      sort-All text_ltb (IsCandidate opts addrs) _
        (see_all-All (IsCandidate opts addrs) opts addrs [] (own-IsCandidate opts addrs) tt)),
  length-take_le (limit_of opts) _,
)

see-Any : (s : Text) (seen : List Text) → Any (λ t. t ≡ s) (see s seen)
unfolding see
see-Any s seen = elim (Bool-cases (any (λ t. t == s) seen)) [
  | inl e ↦ rw e (any-Any s seen e)
  | inr e ↦ rw e (here s seen refl)
]
  where
    any-Any : (s : Text) (seen : List Text) → any (λ t. t == s) seen ≡ true → Any (λ t. t ≡ s) seen
    any-Any s [] e = absurd (ground (arith, e))
    any-Any s (t ∷ seen) e = elim (Bool-cases (t == s)) [
      | inl f ↦ here t seen (ground (arith, f))
      | inr f ↦ there t seen (any-Any s seen (ground (arith, e, f)))
    ]

see-kept : (P : Text → Type 0) (s : Text) (seen : List Text) → Any P seen → Any P (see s seen)
unfolding see
see-kept P s seen h = elim (Bool-cases (any (λ t. t == s) seen)) [
  | inl e ↦ rw e h
  | inr e ↦ rw e (there s seen h)
]

see_addr-kept :
    (P : Text → Type 0) (opts : PrivateAddressOptions) (addr : Option UdpAddr) (seen : List Text)
    → Any P seen
    → Any P (see_addr opts addr seen)
unfolding see_addr
see_addr-kept P opts addr seen h = elim (Bool-cases (is_allowed opts addr)) [
  | inr e ↦ rw e h
  | inl e ↦ elim (Bool-cases (is_empty (normalize_udp_addr addr))) [
    | inl f ↦ rw e (rw f h)
    | inr f ↦ rw e (rw f (see-kept P (normalize_udp_addr addr) seen h))
  ]
]

see_all-kept :
    (P : Text → Type 0) (opts : PrivateAddressOptions) (addrs : List (Option UdpAddr))
    (seen : List Text)
    → Any P seen
    → Any P (see_all opts addrs seen)
unfolding see_all
see_all-kept P opts [] seen h = h
see_all-kept P opts (addr ∷ addrs) seen h =
    see_all-kept P opts addrs (see_addr opts addr seen) (see_addr-kept P opts addr seen h)

see_addr-Any :
    (opts : PrivateAddressOptions) (addr : Option UdpAddr) (seen : List Text) (s : Text)
    → is_allowed opts addr ≡ true
    → normalize_udp_addr addr ≡ s
    → is_empty s ≡ false
    → Any (λ t. t ≡ s) (see_addr opts addr seen)
unfolding see_addr
see_addr-Any opts addr seen s e f g = rw (e, f) (rw g (see-Any s seen))

see_all-Any :
    (opts : PrivateAddressOptions) (s : Text)
    → is_empty s ≡ false
    → (addrs : List (Option UdpAddr)) (seen : List Text) → IsCandidate opts addrs s
    → Any (λ t. t ≡ s) (see_all opts addrs seen)
unfolding see_all
see_all-Any opts s g _ seen (here addr addrs (e, f)) =
    see_all-kept (λ t. t ≡ s) opts addrs (see_addr opts addr seen)
      (see_addr-Any opts addr seen s e f g)
see_all-Any opts s g _ seen (there addr addrs h) =
    see_all-Any opts s g addrs (see_addr opts addr seen) h

take_short {ℓ} : {A : Type ℓ} (n : ℕ) (xs : List A) → length (take n xs) < n → take n xs ≡ xs
take_short zero xs h = absurd (omega arith)
take_short (suc n) [] h = refl
take_short (suc n) (x ∷ xs) h = ap (◌∷◌ x) (take_short n xs (omega arith))

-- Where fewer addresses than the limit are given, every allowed address that can be written is among
-- them.
pub sanitize-Any :
    (opts : PrivateAddressOptions) (addrs : List (Option UdpAddr)) (s : Text)
    → IsCandidate opts addrs s
    → is_empty s ≡ false
    → length (sanitize_private_udp_addrs addrs opts) < limit_of opts
    → Any (λ t. t ≡ s) (sanitize_private_udp_addrs addrs opts)
unfolding sanitize_private_udp_addrs
sanitize-Any opts addrs s h g short =
    subst (Any (λ t. t ≡ s)) (sym (take_short (limit_of opts) _ short))
      (sort-Any text_ltb (λ t. t ≡ s) _ (see_all-Any opts s g addrs [] h))
