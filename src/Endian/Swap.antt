-- ===== src/Endian/Swap.antt =====
-- The byte swaps of src/wpa_ctrl/common.h, and the conversions between the host's order and a fixed one.
use wpa_supplicant_ex.Shared.{
  ℕ, ◌+◌, ◌*◌, ◌/◌, ◌%◌, ◌^◌, ◌<◌, ◌≡◌, sym, ap, ap₂, ◌∙◌, Bool, true, false, [], ◌∷◌, bit_or,
  bit_and, if◌then◌else◌, arith,
}
use wpa_supplicant_ex.Shared.Bits.{bit_and-field, bit_and-ones, bit_or-sum}
use wpa_supplicant_ex.Endian.{◌<<<◌, ◌>>>◌, wpa_get_be16, wpa_get_le16, wpa_get_be32, wpa_get_le32}
use wpa_supplicant_ex.Endian.Narrow.{
  wpa_get_be16-value, wpa_get_le16-value, wpa_get_be32-value, wpa_get_le32-value,
}

-- `wpa_swap_16`, and `bswap_16` on Apple's systems, of an `unsigned short`.
pub wpa_swap_16 : ℕ → ℕ
wpa_swap_16 v = (bit_or (bit_and v 0xff <<< 8) (v >>> 8)) % 2 ^ 16

-- `wpa_swap_32`, and `bswap_32` on Apple's systems, of an `unsigned int`.
pub wpa_swap_32 : ℕ → ℕ
wpa_swap_32 v =
    bit_or
      (bit_or (bit_or ((bit_and v 0xff <<< 24) % 2 ^ 32) ((bit_and v 0xff00 <<< 8) % 2 ^ 32))
        (bit_and v 0xff0000 >>> 8))
      (v >>> 24)

-- The macros for systems without them.
pub bswap_16 : ℕ → ℕ
bswap_16 a = bit_or (bit_and ((a % 2 ^ 16) <<< 8) 0xff00) (bit_and ((a % 2 ^ 16) >>> 8) 0xff)

pub bswap_32 : ℕ → ℕ
bswap_32 a =
    let v = a % 2 ^ 32 in
    bit_or
      (bit_or
        (bit_or (bit_and ((v <<< 24) % 2 ^ 32) 0xff000000) (bit_and ((v <<< 8) % 2 ^ 32) 0xff0000))
        (bit_and (v >>> 8) 0xff00))
      (bit_and (v >>> 24) 0xff)

-- `be_to_host16`, `host_to_be16` and the like, on a machine of big (`true`) or little endian order.
pub be_to_host16 : Bool → ℕ → ℕ
unfolding bswap_16
be_to_host16 big n = if big then n else bswap_16 n

pub le_to_host16 : Bool → ℕ → ℕ
unfolding bswap_16
le_to_host16 big n = if big then bswap_16 n else n

pub be_to_host32 : Bool → ℕ → ℕ
unfolding bswap_32
be_to_host32 big n = if big then n else bswap_32 n

pub le_to_host32 : Bool → ℕ → ℕ
unfolding bswap_32
le_to_host32 big n = if big then bswap_32 n else n

-- A word of bytes, each below 256, the highest first.
abbrev pub word_16 : ℕ → ℕ → ℕ
word_16 a b = a * 2 ^ 8 + b

abbrev pub word_32 : ℕ → ℕ → ℕ → ℕ → ℕ
word_32 a b c d = a * 2 ^ 24 + b * 2 ^ 16 + c * 2 ^ 8 + d

wpa_swap_16-word : (a b : ℕ) → a < 256 → b < 256 → wpa_swap_16 (word_16 a b) ≡ word_16 b a
unfolding wpa_swap_16
wpa_swap_16-word a b ha hb =
    ap (λ t. (bit_or (t <<< 8) (word_16 a b >>> 8)) % 2 ^ 16) (bit_and-ones 8 (word_16 a b))
    ∙ ap (λ t. t % 2 ^ 16)
        (bit_or-sum 8 ((word_16 a b % 2 ^ 8) <<< 8) b (word_16 a b >>> 8) (omega arith)
          (omega arith))
    ∙ omega arith

bswap_16-word : (a b : ℕ) → a < 256 → b < 256 → bswap_16 (word_16 a b) ≡ word_16 b a
unfolding bswap_16
bswap_16-word a b ha hb =
    let v = word_16 a b % 2 ^ 16 in
    ap₂ bit_or (bit_and-field 8 8 (v <<< 8)) (bit_and-ones 8 (v >>> 8))
    ∙ bit_or-sum 8 ((v <<< 8) / 2 ^ 8 % 2 ^ 8 * 2 ^ 8) b ((v >>> 8) % 2 ^ 8) (omega arith)
        (omega arith)
    ∙ omega arith

-- Four fields, put together from the highest.
fields :
    (a b c d w x y z : ℕ)
    → w ≡ d * 2 ^ 24
    → x ≡ c * 2 ^ 16
    → y ≡ b * 2 ^ 8
    → z ≡ a
    → a < 256
    → b < 256
    → c < 256
    → d < 256
    → bit_or (bit_or (bit_or w x) y) z ≡ word_32 d c b a
fields a b c d w x y z ew ex ey ez ha hb hc hd =
    ap₂ bit_or (ap₂ bit_or (ap₂ bit_or ew ex) ey) ez
    ∙ ap (λ t. bit_or (bit_or t (b * 2 ^ 8)) a)
        (bit_or-sum 24 (d * 2 ^ 24) d (c * 2 ^ 16) (omega arith) (omega arith))
    ∙ ap (λ t. bit_or t a)
        (bit_or-sum 16 (d * 2 ^ 24 + c * 2 ^ 16) (d * 2 ^ 8 + c) (b * 2 ^ 8) (omega arith)
          (omega arith))
    ∙ bit_or-sum 8 (d * 2 ^ 24 + c * 2 ^ 16 + b * 2 ^ 8) (d * 2 ^ 16 + c * 2 ^ 8 + b) a
        (omega arith) (omega arith)

wpa_swap_32-word :
    (a b c d : ℕ)
    → a < 256
    → b < 256
    → c < 256
    → d < 256
    → wpa_swap_32 (word_32 a b c d) ≡ word_32 d c b a
unfolding wpa_swap_32
wpa_swap_32-word a b c d ha hb hc hd =
    let v = word_32 a b c d in
    fields a b c d _ _ _ _ (omega (arith, bit_and-ones 8 v)) (omega (arith, bit_and-field 8 8 v))
      (omega (arith, bit_and-field 16 8 v)) (omega arith) ha hb hc hd

bswap_32-word :
    (a b c d : ℕ)
    → a < 256
    → b < 256
    → c < 256
    → d < 256
    → bswap_32 (word_32 a b c d) ≡ word_32 d c b a
unfolding bswap_32
bswap_32-word a b c d ha hb hc hd =
    let v = word_32 a b c d % 2 ^ 32 in
    fields a b c d _ _ _ _ (omega (arith, bit_and-field 24 8 ((v <<< 24) % 2 ^ 32)))
      (omega (arith, bit_and-field 16 8 ((v <<< 8) % 2 ^ 32)))
      (omega (arith, bit_and-field 8 8 (v >>> 8))) (omega (arith, bit_and-ones 8 (v >>> 24))) ha hb
      hc hd

-- The two forms of each swap agree on every word, and swapping twice gives the word back.
pub swaps_agree :
    (a b c d : ℕ)
    → a < 256
    → b < 256
    → c < 256
    → d < 256
    → (wpa_swap_16 (word_16 a b) ≡ bswap_16 (word_16 a b))
      × (bswap_16 (bswap_16 (word_16 a b)) ≡ word_16 a b)
      × (wpa_swap_32 (word_32 a b c d) ≡ bswap_32 (word_32 a b c d))
      × (bswap_32 (bswap_32 (word_32 a b c d)) ≡ word_32 a b c d)
swaps_agree a b c d ha hb hc hd = (
  wpa_swap_16-word a b ha hb ∙ sym (bswap_16-word a b ha hb),
  ap bswap_16 (bswap_16-word a b ha hb) ∙ bswap_16-word b a hb ha,
  wpa_swap_32-word a b c d ha hb hc hd ∙ sym (bswap_32-word a b c d ha hb hc hd),
  ap bswap_32 (bswap_32-word a b c d ha hb hc hd) ∙ bswap_32-word d c b a hd hc hb ha,
)

-- What a machine of the order reads from memory as one word.
abbrev pub host_16 : Bool → ℕ → ℕ → ℕ
host_16 big a b = if big then word_16 a b else word_16 b a

abbrev pub host_32 : Bool → ℕ → ℕ → ℕ → ℕ → ℕ
host_32 big a b c d = if big then word_32 a b c d else word_32 d c b a

-- On machines of either order, a word that is read from memory whole and then converted is the word
-- that the byte-wise accessors read there, for big and little endian data of 16 and 32 bits.
pub to_host-wpa_get :
    (big : Bool) (a b c d : ℕ)
    → a < 256
    → b < 256
    → c < 256
    → d < 256
    → (be_to_host16 big (host_16 big a b) ≡ wpa_get_be16 (a ∷ b ∷ []))
      × (le_to_host16 big (host_16 big a b) ≡ wpa_get_le16 (a ∷ b ∷ []))
      × (be_to_host32 big (host_32 big a b c d) ≡ wpa_get_be32 (a ∷ b ∷ c ∷ d ∷ []))
      × (le_to_host32 big (host_32 big a b c d) ≡ wpa_get_le32 (a ∷ b ∷ c ∷ d ∷ []))
unfolding be_to_host16 le_to_host16 be_to_host32 le_to_host32
to_host-wpa_get true a b c d ha hb hc hd = (
  sym (wpa_get_be16-value a b [] ha hb),
  bswap_16-word a b ha hb ∙ sym (wpa_get_le16-value a b [] ha hb),
  sym (wpa_get_be32-value a b c d [] ha hb hc hd),
  bswap_32-word a b c d ha hb hc hd ∙ sym (wpa_get_le32-value a b c d [] ha hb hc hd),
)
to_host-wpa_get false a b c d ha hb hc hd = (
  bswap_16-word b a hb ha ∙ sym (wpa_get_be16-value a b [] ha hb),
  sym (wpa_get_le16-value a b [] ha hb),
  bswap_32-word d c b a hd hc hb ha ∙ sym (wpa_get_be32-value a b c d [] ha hb hc hd),
  sym (wpa_get_le32-value a b c d [] ha hb hc hd),
)
