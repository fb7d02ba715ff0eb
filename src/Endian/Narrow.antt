-- ===== src/Endian/Narrow.antt =====
-- What the accesses of 16, 24 and 32 bits of `Endian` read and store, byte by byte.
use wpa_supplicant_ex.Shared.{
  ℕ, ◌+◌, ◌*◌, ◌/◌, ◌%◌, ◌^◌, ◌<◌, ◌≡◌, ap, ◌∙◌, List, ◌∷◌, bit_and, arith,
}
use wpa_supplicant_ex.Shared.Bits.{bit_or-sum, bit_and-ones}
use wpa_supplicant_ex.Endian.{
  wpa_get_be16, wpa_put_be16, wpa_get_le16, wpa_put_le16, wpa_get_be24, wpa_put_be24, wpa_get_be32,
  wpa_put_be32, wpa_get_le32, wpa_put_le32,
}

-- `v & 0xff` cut to a byte.
pub low_byte : (v : ℕ) → bit_and v 0xff % 256 ≡ v % 256
low_byte v = omega (arith, bit_and-ones 8 v)

pub wpa_get_be16-value :
    (b0 b1 : ℕ) (rest : List ℕ)
    → b0 < 256
    → b1 < 256
    → wpa_get_be16 (b0 ∷ b1 ∷ rest) ≡ b0 * 2 ^ 8 + b1
unfolding wpa_get_be16
wpa_get_be16-value b0 b1 rest h0 h1 =
    rw (bit_or-sum 8 (b0 * 2 ^ 8) (b0) (b1) (omega arith) (omega arith)) (omega arith)

pub wpa_put_be16-bytes :
    (b0 b1 : ℕ) (rest : List ℕ) (val : ℕ)
    → wpa_put_be16 (b0 ∷ b1 ∷ rest) val ≡ (val / 2 ^ 8 % 256) ∷ (val % 256) ∷ rest
unfolding wpa_put_be16
wpa_put_be16-bytes b0 b1 rest val = rw (low_byte val)

pub wpa_get_be16-wpa_put_be16 :
    (b0 b1 : ℕ) (rest : List ℕ) (val : ℕ)
    → wpa_get_be16 (wpa_put_be16 (b0 ∷ b1 ∷ rest) val) ≡ val % 2 ^ 16
wpa_get_be16-wpa_put_be16 b0 b1 rest val =
    ap wpa_get_be16 (wpa_put_be16-bytes b0 b1 rest val)
    ∙ wpa_get_be16-value (val / 2 ^ 8 % 256) (val % 256) rest (omega arith) (omega arith)
    ∙ omega arith

pub wpa_get_le16-value :
    (b0 b1 : ℕ) (rest : List ℕ)
    → b0 < 256
    → b1 < 256
    → wpa_get_le16 (b0 ∷ b1 ∷ rest) ≡ b1 * 2 ^ 8 + b0
unfolding wpa_get_le16
wpa_get_le16-value b0 b1 rest h0 h1 =
    rw (bit_or-sum 8 (b1 * 2 ^ 8) (b1) (b0) (omega arith) (omega arith)) (omega arith)

pub wpa_put_le16-bytes :
    (b0 b1 : ℕ) (rest : List ℕ) (val : ℕ)
    → wpa_put_le16 (b0 ∷ b1 ∷ rest) val ≡ (val % 256) ∷ (val / 2 ^ 8 % 256) ∷ rest
unfolding wpa_put_le16
wpa_put_le16-bytes b0 b1 rest val = rw (low_byte val)

pub wpa_get_le16-wpa_put_le16 :
    (b0 b1 : ℕ) (rest : List ℕ) (val : ℕ)
    → wpa_get_le16 (wpa_put_le16 (b0 ∷ b1 ∷ rest) val) ≡ val % 2 ^ 16
wpa_get_le16-wpa_put_le16 b0 b1 rest val =
    ap wpa_get_le16 (wpa_put_le16-bytes b0 b1 rest val)
    ∙ wpa_get_le16-value (val % 256) (val / 2 ^ 8 % 256) rest (omega arith) (omega arith)
    ∙ omega arith

wpa_get_be24-value :
    (b0 b1 b2 : ℕ) (rest : List ℕ)
    → b0 < 256
    → b1 < 256
    → b2 < 256
    → wpa_get_be24 (b0 ∷ b1 ∷ b2 ∷ rest) ≡ b0 * 2 ^ 16 + b1 * 2 ^ 8 + b2
unfolding wpa_get_be24
wpa_get_be24-value b0 b1 b2 rest h0 h1 h2 =
    rw
      (
        bit_or-sum 16 (b0 * 2 ^ 16) (b0) (b1 * 2 ^ 8) (omega arith) (omega arith),
        bit_or-sum 8 (b0 * 2 ^ 16 + b1 * 2 ^ 8) (b0 * 2 ^ 8 + b1) (b2) (omega arith) (omega arith),
      )
      (omega arith)

pub wpa_put_be24-bytes :
    (b0 b1 b2 : ℕ) (rest : List ℕ) (val : ℕ)
    → wpa_put_be24 (b0 ∷ b1 ∷ b2 ∷ rest) val
      ≡ (val / 2 ^ 16 % 256) ∷ (val / 2 ^ 8 % 256) ∷ (val % 256) ∷ rest
unfolding wpa_put_be24
wpa_put_be24-bytes b0 b1 b2 rest val =
    rw (low_byte (val / 2 ^ 16), low_byte (val / 2 ^ 8), low_byte val)

pub wpa_get_be24-wpa_put_be24 :
    (b0 b1 b2 : ℕ) (rest : List ℕ) (val : ℕ)
    → wpa_get_be24 (wpa_put_be24 (b0 ∷ b1 ∷ b2 ∷ rest) val) ≡ val % 2 ^ 24
wpa_get_be24-wpa_put_be24 b0 b1 b2 rest val =
    ap wpa_get_be24 (wpa_put_be24-bytes b0 b1 b2 rest val)
    ∙ wpa_get_be24-value (val / 2 ^ 16 % 256) (val / 2 ^ 8 % 256) (val % 256) rest (omega arith)
        (omega arith) (omega arith)
    ∙ omega arith

pub wpa_get_be32-value :
    (b0 b1 b2 b3 : ℕ) (rest : List ℕ)
    → b0 < 256
    → b1 < 256
    → b2 < 256
    → b3 < 256
    → wpa_get_be32 (b0 ∷ b1 ∷ b2 ∷ b3 ∷ rest) ≡ b0 * 2 ^ 24 + b1 * 2 ^ 16 + b2 * 2 ^ 8 + b3
unfolding wpa_get_be32
wpa_get_be32-value b0 b1 b2 b3 rest h0 h1 h2 h3 =
    rw
      (
        bit_or-sum 24 (b0 * 2 ^ 24) (b0) (b1 * 2 ^ 16) (omega arith) (omega arith),
        bit_or-sum 16 (b0 * 2 ^ 24 + b1 * 2 ^ 16) (b0 * 2 ^ 8 + b1) (b2 * 2 ^ 8) (omega arith)
            (omega arith),
        bit_or-sum 8 (b0 * 2 ^ 24 + b1 * 2 ^ 16 + b2 * 2 ^ 8) (b0 * 2 ^ 16 + b1 * 2 ^ 8 + b2) (b3)
            (omega arith) (omega arith),
      )
      (omega arith)

pub wpa_put_be32-bytes :
    (b0 b1 b2 b3 : ℕ) (rest : List ℕ) (val : ℕ)
    → wpa_put_be32 (b0 ∷ b1 ∷ b2 ∷ b3 ∷ rest) val
      ≡ (val / 2 ^ 24 % 256) ∷ (val / 2 ^ 16 % 256) ∷ (val / 2 ^ 8 % 256) ∷ (val % 256) ∷ rest
unfolding wpa_put_be32
wpa_put_be32-bytes b0 b1 b2 b3 rest val =
    rw (low_byte (val / 2 ^ 24), low_byte (val / 2 ^ 16), low_byte (val / 2 ^ 8), low_byte val)

pub wpa_get_be32-wpa_put_be32 :
    (b0 b1 b2 b3 : ℕ) (rest : List ℕ) (val : ℕ)
    → wpa_get_be32 (wpa_put_be32 (b0 ∷ b1 ∷ b2 ∷ b3 ∷ rest) val) ≡ val % 2 ^ 32
wpa_get_be32-wpa_put_be32 b0 b1 b2 b3 rest val =
    ap wpa_get_be32 (wpa_put_be32-bytes b0 b1 b2 b3 rest val)
    ∙ wpa_get_be32-value (val / 2 ^ 24 % 256) (val / 2 ^ 16 % 256) (val / 2 ^ 8 % 256) (val % 256)
        rest (omega arith) (omega arith) (omega arith) (omega arith)
    ∙ omega arith

pub wpa_get_le32-value :
    (b0 b1 b2 b3 : ℕ) (rest : List ℕ)
    → b0 < 256
    → b1 < 256
    → b2 < 256
    → b3 < 256
    → wpa_get_le32 (b0 ∷ b1 ∷ b2 ∷ b3 ∷ rest) ≡ b3 * 2 ^ 24 + b2 * 2 ^ 16 + b1 * 2 ^ 8 + b0
unfolding wpa_get_le32
wpa_get_le32-value b0 b1 b2 b3 rest h0 h1 h2 h3 =
    rw
      (
        bit_or-sum 24 (b3 * 2 ^ 24) (b3) (b2 * 2 ^ 16) (omega arith) (omega arith),
        bit_or-sum 16 (b3 * 2 ^ 24 + b2 * 2 ^ 16) (b3 * 2 ^ 8 + b2) (b1 * 2 ^ 8) (omega arith)
            (omega arith),
        bit_or-sum 8 (b3 * 2 ^ 24 + b2 * 2 ^ 16 + b1 * 2 ^ 8) (b3 * 2 ^ 16 + b2 * 2 ^ 8 + b1) (b0)
            (omega arith) (omega arith),
      )
      (omega arith)

pub wpa_put_le32-bytes :
    (b0 b1 b2 b3 : ℕ) (rest : List ℕ) (val : ℕ)
    → wpa_put_le32 (b0 ∷ b1 ∷ b2 ∷ b3 ∷ rest) val
      ≡ (val % 256) ∷ (val / 2 ^ 8 % 256) ∷ (val / 2 ^ 16 % 256) ∷ (val / 2 ^ 24 % 256) ∷ rest
unfolding wpa_put_le32
wpa_put_le32-bytes b0 b1 b2 b3 rest val =
    rw (low_byte (val / 2 ^ 24), low_byte (val / 2 ^ 16), low_byte (val / 2 ^ 8), low_byte val)

pub wpa_get_le32-wpa_put_le32 :
    (b0 b1 b2 b3 : ℕ) (rest : List ℕ) (val : ℕ)
    → wpa_get_le32 (wpa_put_le32 (b0 ∷ b1 ∷ b2 ∷ b3 ∷ rest) val) ≡ val % 2 ^ 32
wpa_get_le32-wpa_put_le32 b0 b1 b2 b3 rest val =
    ap wpa_get_le32 (wpa_put_le32-bytes b0 b1 b2 b3 rest val)
    ∙ wpa_get_le32-value (val % 256) (val / 2 ^ 8 % 256) (val / 2 ^ 16 % 256) (val / 2 ^ 24 % 256)
        rest (omega arith) (omega arith) (omega arith) (omega arith)
    ∙ omega arith
