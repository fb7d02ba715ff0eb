-- ===== src/Endian/Wide.antt =====
-- What the accesses of 64 bits of `Endian` read and store, byte by byte.
use wpa_supplicant_ex.Shared.{ℕ, ◌+◌, ◌*◌, ◌/◌, ◌%◌, ◌^◌, ◌<◌, ◌≡◌, ap, ◌∙◌, List, ◌∷◌, arith}
use wpa_supplicant_ex.Shared.Bits.{bit_or-sum}
use wpa_supplicant_ex.Endian.{wpa_get_be64, wpa_put_be64, wpa_get_le64, wpa_put_le64}
use wpa_supplicant_ex.Endian.Narrow.{low_byte}

wpa_get_be64-value :
    (b0 b1 b2 b3 b4 b5 b6 b7 : ℕ) (rest : List ℕ)
    → b0 < 256
    → b1 < 256
    → b2 < 256
    → b3 < 256
    → b4 < 256
    → b5 < 256
    → b6 < 256
    → b7 < 256
    → wpa_get_be64 (b0 ∷ b1 ∷ b2 ∷ b3 ∷ b4 ∷ b5 ∷ b6 ∷ b7 ∷ rest)
      ≡ b0 * 2 ^ 56
        + b1 * 2 ^ 48
        + b2 * 2 ^ 40
        + b3 * 2 ^ 32
        + b4 * 2 ^ 24
        + b5 * 2 ^ 16
        + b6 * 2 ^ 8
        + b7
unfolding wpa_get_be64
wpa_get_be64-value b0 b1 b2 b3 b4 b5 b6 b7 rest h0 h1 h2 h3 h4 h5 h6 h7 =
    rw
      (
        bit_or-sum 56 (b0 * 2 ^ 56) (b0) (b1 * 2 ^ 48) (omega arith) (omega arith),
        bit_or-sum 48 (b0 * 2 ^ 56 + b1 * 2 ^ 48) (b0 * 2 ^ 8 + b1) (b2 * 2 ^ 40) (omega arith)
            (omega arith),
        bit_or-sum 40 (b0 * 2 ^ 56 + b1 * 2 ^ 48 + b2 * 2 ^ 40) (b0 * 2 ^ 16 + b1 * 2 ^ 8 + b2)
            (b3 * 2 ^ 32) (omega arith) (omega arith),
        bit_or-sum 32 (b0 * 2 ^ 56 + b1 * 2 ^ 48 + b2 * 2 ^ 40 + b3 * 2 ^ 32)
            (b0 * 2 ^ 24 + b1 * 2 ^ 16 + b2 * 2 ^ 8 + b3) (b4 * 2 ^ 24) (omega arith) (omega arith),
        bit_or-sum 24 (b0 * 2 ^ 56 + b1 * 2 ^ 48 + b2 * 2 ^ 40 + b3 * 2 ^ 32 + b4 * 2 ^ 24)
            (b0 * 2 ^ 32 + b1 * 2 ^ 24 + b2 * 2 ^ 16 + b3 * 2 ^ 8 + b4) (b5 * 2 ^ 16) (omega arith)
            (omega arith),
        bit_or-sum 16
            (b0 * 2 ^ 56 + b1 * 2 ^ 48 + b2 * 2 ^ 40 + b3 * 2 ^ 32 + b4 * 2 ^ 24 + b5 * 2 ^ 16)
            (b0 * 2 ^ 40 + b1 * 2 ^ 32 + b2 * 2 ^ 24 + b3 * 2 ^ 16 + b4 * 2 ^ 8 + b5) (b6 * 2 ^ 8)
            (omega arith) (omega arith),
        bit_or-sum 8
            (b0 * 2 ^ 56
              + b1 * 2 ^ 48
              + b2 * 2 ^ 40
              + b3 * 2 ^ 32
              + b4 * 2 ^ 24
              + b5 * 2 ^ 16
              + b6 * 2 ^ 8)
            (b0 * 2 ^ 48 + b1 * 2 ^ 40 + b2 * 2 ^ 32 + b3 * 2 ^ 24 + b4 * 2 ^ 16 + b5 * 2 ^ 8 + b6)
            (b7) (omega arith) (omega arith),
      )
      (omega arith)

pub wpa_put_be64-bytes :
    (b0 b1 b2 b3 b4 b5 b6 b7 : ℕ) (rest : List ℕ) (val : ℕ)
    → wpa_put_be64 (b0 ∷ b1 ∷ b2 ∷ b3 ∷ b4 ∷ b5 ∷ b6 ∷ b7 ∷ rest) val
      ≡ (val / 2 ^ 56 % 256)
        ∷ (val / 2 ^ 48 % 256)
        ∷ (val / 2 ^ 40 % 256)
        ∷ (val / 2 ^ 32 % 256)
        ∷ (val / 2 ^ 24 % 256)
        ∷ (val / 2 ^ 16 % 256)
        ∷ (val / 2 ^ 8 % 256)
        ∷ (val % 256)
        ∷ rest
unfolding wpa_put_be64
wpa_put_be64-bytes b0 b1 b2 b3 b4 b5 b6 b7 rest val = rw (low_byte val)

pub wpa_get_be64-wpa_put_be64 :
    (b0 b1 b2 b3 b4 b5 b6 b7 : ℕ) (rest : List ℕ) (val : ℕ)
    → wpa_get_be64 (wpa_put_be64 (b0 ∷ b1 ∷ b2 ∷ b3 ∷ b4 ∷ b5 ∷ b6 ∷ b7 ∷ rest) val) ≡ val % 2 ^ 64
wpa_get_be64-wpa_put_be64 b0 b1 b2 b3 b4 b5 b6 b7 rest val =
    ap wpa_get_be64 (wpa_put_be64-bytes b0 b1 b2 b3 b4 b5 b6 b7 rest val)
    ∙ wpa_get_be64-value (val / 2 ^ 56 % 256) (val / 2 ^ 48 % 256) (val / 2 ^ 40 % 256)
        (val / 2 ^ 32 % 256) (val / 2 ^ 24 % 256) (val / 2 ^ 16 % 256) (val / 2 ^ 8 % 256)
        (val % 256) rest (omega arith) (omega arith) (omega arith) (omega arith) (omega arith)
        (omega arith) (omega arith) (omega arith)
    ∙ omega arith

wpa_get_le64-value :
    (b0 b1 b2 b3 b4 b5 b6 b7 : ℕ) (rest : List ℕ)
    → b0 < 256
    → b1 < 256
    → b2 < 256
    → b3 < 256
    → b4 < 256
    → b5 < 256
    → b6 < 256
    → b7 < 256
    → wpa_get_le64 (b0 ∷ b1 ∷ b2 ∷ b3 ∷ b4 ∷ b5 ∷ b6 ∷ b7 ∷ rest)
      ≡ b7 * 2 ^ 56
        + b6 * 2 ^ 48
        + b5 * 2 ^ 40
        + b4 * 2 ^ 32
        + b3 * 2 ^ 24
        + b2 * 2 ^ 16
        + b1 * 2 ^ 8
        + b0
unfolding wpa_get_le64
wpa_get_le64-value b0 b1 b2 b3 b4 b5 b6 b7 rest h0 h1 h2 h3 h4 h5 h6 h7 =
    rw
      (
        bit_or-sum 56 (b7 * 2 ^ 56) (b7) (b6 * 2 ^ 48) (omega arith) (omega arith),
        bit_or-sum 48 (b7 * 2 ^ 56 + b6 * 2 ^ 48) (b7 * 2 ^ 8 + b6) (b5 * 2 ^ 40) (omega arith)
            (omega arith),
        bit_or-sum 40 (b7 * 2 ^ 56 + b6 * 2 ^ 48 + b5 * 2 ^ 40) (b7 * 2 ^ 16 + b6 * 2 ^ 8 + b5)
            (b4 * 2 ^ 32) (omega arith) (omega arith),
        bit_or-sum 32 (b7 * 2 ^ 56 + b6 * 2 ^ 48 + b5 * 2 ^ 40 + b4 * 2 ^ 32)
            (b7 * 2 ^ 24 + b6 * 2 ^ 16 + b5 * 2 ^ 8 + b4) (b3 * 2 ^ 24) (omega arith) (omega arith),
        bit_or-sum 24 (b7 * 2 ^ 56 + b6 * 2 ^ 48 + b5 * 2 ^ 40 + b4 * 2 ^ 32 + b3 * 2 ^ 24)
            (b7 * 2 ^ 32 + b6 * 2 ^ 24 + b5 * 2 ^ 16 + b4 * 2 ^ 8 + b3) (b2 * 2 ^ 16) (omega arith)
            (omega arith),
        bit_or-sum 16
            (b7 * 2 ^ 56 + b6 * 2 ^ 48 + b5 * 2 ^ 40 + b4 * 2 ^ 32 + b3 * 2 ^ 24 + b2 * 2 ^ 16)
            (b7 * 2 ^ 40 + b6 * 2 ^ 32 + b5 * 2 ^ 24 + b4 * 2 ^ 16 + b3 * 2 ^ 8 + b2) (b1 * 2 ^ 8)
            (omega arith) (omega arith),
        bit_or-sum 8
            (b7 * 2 ^ 56
              + b6 * 2 ^ 48
              + b5 * 2 ^ 40
              + b4 * 2 ^ 32
              + b3 * 2 ^ 24
              + b2 * 2 ^ 16
              + b1 * 2 ^ 8)
            (b7 * 2 ^ 48 + b6 * 2 ^ 40 + b5 * 2 ^ 32 + b4 * 2 ^ 24 + b3 * 2 ^ 16 + b2 * 2 ^ 8 + b1)
            (b0) (omega arith) (omega arith),
      )
      (omega arith)

pub wpa_put_le64-bytes :
    (b0 b1 b2 b3 b4 b5 b6 b7 : ℕ) (rest : List ℕ) (val : ℕ)
    → wpa_put_le64 (b0 ∷ b1 ∷ b2 ∷ b3 ∷ b4 ∷ b5 ∷ b6 ∷ b7 ∷ rest) val
      ≡ (val % 256)
        ∷ (val / 2 ^ 8 % 256)
        ∷ (val / 2 ^ 16 % 256)
        ∷ (val / 2 ^ 24 % 256)
        ∷ (val / 2 ^ 32 % 256)
        ∷ (val / 2 ^ 40 % 256)
        ∷ (val / 2 ^ 48 % 256)
        ∷ (val / 2 ^ 56 % 256)
        ∷ rest
unfolding wpa_put_le64
wpa_put_le64-bytes b0 b1 b2 b3 b4 b5 b6 b7 rest val = rw (low_byte val)

pub wpa_get_le64-wpa_put_le64 :
    (b0 b1 b2 b3 b4 b5 b6 b7 : ℕ) (rest : List ℕ) (val : ℕ)
    → wpa_get_le64 (wpa_put_le64 (b0 ∷ b1 ∷ b2 ∷ b3 ∷ b4 ∷ b5 ∷ b6 ∷ b7 ∷ rest) val) ≡ val % 2 ^ 64
wpa_get_le64-wpa_put_le64 b0 b1 b2 b3 b4 b5 b6 b7 rest val =
    ap wpa_get_le64 (wpa_put_le64-bytes b0 b1 b2 b3 b4 b5 b6 b7 rest val)
    ∙ wpa_get_le64-value (val % 256) (val / 2 ^ 8 % 256) (val / 2 ^ 16 % 256) (val / 2 ^ 24 % 256)
        (val / 2 ^ 32 % 256) (val / 2 ^ 40 % 256) (val / 2 ^ 48 % 256) (val / 2 ^ 56 % 256) rest
        (omega arith) (omega arith) (omega arith) (omega arith) (omega arith) (omega arith)
        (omega arith) (omega arith)
    ∙ omega arith
