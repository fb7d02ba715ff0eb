-- ===== src/Ethernet.antt =====
-- The predicates on Ethernet addresses of src/wpa_ctrl/common.h; an address is its six bytes.
pub mod Kinds
use wpa_supplicant_ex.Shared.{ℕ, Bool, List, [], ◌∷◌, ◌==◌, get_or, bit_and, bit_or}

unfoldable pub is_zero_ether_addr : List ℕ → Bool
is_zero_ether_addr a =
    bit_or
      (bit_or (bit_or (bit_or (bit_or (get_or a 0 0) (get_or a 1 0)) (get_or a 2 0)) (get_or a 3 0))
        (get_or a 4 0))
      (get_or a 5 0)
    == 0

unfoldable pub is_broadcast_ether_addr : List ℕ → Bool
is_broadcast_ether_addr a =
    bit_and
      (bit_and
        (bit_and (bit_and (bit_and (get_or a 0 0) (get_or a 1 0)) (get_or a 2 0)) (get_or a 3 0))
        (get_or a 4 0))
      (get_or a 5 0)
    == 255

abbrev pub broadcast_ether_addr : List ℕ
broadcast_ether_addr = 255 ∷ 255 ∷ 255 ∷ 255 ∷ 255 ∷ 255 ∷ []
