-- ===== src/Ethernet/Kinds.antt =====
-- Which addresses the predicates of src/wpa_ctrl/common.h tell.
use wpa_supplicant_ex.Shared.{ℕ, ◌<◌, ◌≡◌, ◌↔◌, refl, true, [], ◌∷◌, ==_iff, bit_and, bit_or, arith}
use wpa_supplicant_ex.Shared.Bits.{bit_or-above, bit_and-below}
use wpa_supplicant_ex.Ethernet.{is_zero_ether_addr, is_broadcast_ether_addr}

-- `is_zero_ether_addr` tells the address of six zeros, and no other.
pub is_zero_ether_addr_iff :
    (a b c d e f : ℕ)
    → (is_zero_ether_addr (a ∷ b ∷ c ∷ d ∷ e ∷ f ∷ []) ≡ true)
      ↔ ((a ≡ 0) × (b ≡ 0) × (c ≡ 0) × (d ≡ 0) × (e ≡ 0) × (f ≡ 0))
unfolding is_zero_ether_addr
is_zero_ether_addr_iff a b c d e f = (
  (λ h.
      let all = (==_iff (bit_or (bit_or (bit_or (bit_or (bit_or a b) c) d) e) f) 0).0 h in
      let s1 = bit_or-above a b in
      let s2 = bit_or-above (bit_or a b) c in
      let s3 = bit_or-above (bit_or (bit_or a b) c) d in
      let s4 = bit_or-above (bit_or (bit_or (bit_or a b) c) d) e in
      let s5 = bit_or-above (bit_or (bit_or (bit_or (bit_or a b) c) d) e) f in
      (omega arith, omega arith, omega arith, omega arith, omega arith, omega arith)),
  λ (p, q, r, s, t, u). rw (p, q, r, s, t, u) refl,
)

-- Of addresses of bytes, `is_broadcast_ether_addr` tells the one of six 255s, and no other.
pub is_broadcast_ether_addr_iff :
    (a b c d e f : ℕ)
    → a < 256
    → b < 256
    → c < 256
    → d < 256
    → e < 256
    → f < 256
    → (is_broadcast_ether_addr (a ∷ b ∷ c ∷ d ∷ e ∷ f ∷ []) ≡ true)
      ↔ ((a ≡ 255) × (b ≡ 255) × (c ≡ 255) × (d ≡ 255) × (e ≡ 255) × (f ≡ 255))
unfolding is_broadcast_ether_addr
is_broadcast_ether_addr_iff a b c d e f ha hb hc hd he hf = (
  (λ h.
      let all = (==_iff (bit_and (bit_and (bit_and (bit_and (bit_and a b) c) d) e) f) 255).0 h in
      let s1 = bit_and-below a b in
      let s2 = bit_and-below (bit_and a b) c in
      let s3 = bit_and-below (bit_and (bit_and a b) c) d in
      let s4 = bit_and-below (bit_and (bit_and (bit_and a b) c) d) e in
      let s5 = bit_and-below (bit_and (bit_and (bit_and (bit_and a b) c) d) e) f in
      (omega arith, omega arith, omega arith, omega arith, omega arith, omega arith)),
  λ (p, q, r, s, t, u). rw (p, q, r, s, t, u) refl,
)
