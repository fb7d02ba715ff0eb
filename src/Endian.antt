-- ===== src/Endian.antt =====
-- The unaligned accesses of src/wpa_ctrl/common.h: words in big and little endian order in an array
-- of bytes. A store cuts to a byte, a result to its width; a shift into the sign bit of `int`, which
-- the source relies on in the 32-bit reads, is the shift of the unsigned number.
pub mod Narrow
pub mod Wide
pub mod RoundTrip
pub mod Swap
use wpa_supplicant_ex.Shared.{ℕ, ◌+◌, ◌*◌, ◌/◌, ◌%◌, ◌^◌, List, bit_or, bit_and, get_or, set}

infixl 75 ◌<<<◌ ◌>>>◌
abbrev pub ◌<<<◌ : ℕ → ℕ → ℕ
x <<< k = x * 2 ^ k

abbrev pub ◌>>>◌ : ℕ → ℕ → ℕ
x >>> k = x / 2 ^ k

-- `a[i]`
abbrev pub byte : List ℕ → ℕ → ℕ
byte a i = get_or a i 0

-- `a[i] = v`
abbrev pub store : List ℕ → ℕ → ℕ → List ℕ
store a i v = set a i (v % 2 ^ 8)

pub wpa_get_be16 : List ℕ → ℕ
wpa_get_be16 a = (bit_or (byte a 0 <<< 8) (byte a 1)) % 2 ^ 16

pub wpa_put_be16 : List ℕ → ℕ → List ℕ
wpa_put_be16 a val = store (store a 0 (val >>> 8)) 1 (bit_and val 0xff)

pub wpa_get_le16 : List ℕ → ℕ
wpa_get_le16 a = (bit_or (byte a 1 <<< 8) (byte a 0)) % 2 ^ 16

pub wpa_put_le16 : List ℕ → ℕ → List ℕ
wpa_put_le16 a val = store (store a 1 (val >>> 8)) 0 (bit_and val 0xff)

pub wpa_get_be24 : List ℕ → ℕ
wpa_get_be24 a = (bit_or (bit_or (byte a 0 <<< 16) (byte a 1 <<< 8)) (byte a 2)) % 2 ^ 32

pub wpa_put_be24 : List ℕ → ℕ → List ℕ
wpa_put_be24 a val =
    store (store (store a 0 (bit_and (val >>> 16) 0xff)) 1 (bit_and (val >>> 8) 0xff)) 2
      (bit_and val 0xff)

pub wpa_get_be32 : List ℕ → ℕ
wpa_get_be32 a =
    (bit_or (bit_or (bit_or (byte a 0 <<< 24) (byte a 1 <<< 16)) (byte a 2 <<< 8)) (byte a 3))
    % 2 ^ 32

pub wpa_put_be32 : List ℕ → ℕ → List ℕ
wpa_put_be32 a val =
    store
      (store (store (store a 0 (bit_and (val >>> 24) 0xff)) 1 (bit_and (val >>> 16) 0xff)) 2
        (bit_and (val >>> 8) 0xff))
      3 (bit_and val 0xff)

pub wpa_get_le32 : List ℕ → ℕ
wpa_get_le32 a =
    (bit_or (bit_or (bit_or (byte a 3 <<< 24) (byte a 2 <<< 16)) (byte a 1 <<< 8)) (byte a 0))
    % 2 ^ 32

pub wpa_put_le32 : List ℕ → ℕ → List ℕ
wpa_put_le32 a val =
    store
      (store (store (store a 3 (bit_and (val >>> 24) 0xff)) 2 (bit_and (val >>> 16) 0xff)) 1
        (bit_and (val >>> 8) 0xff))
      0 (bit_and val 0xff)

pub wpa_get_be64 : List ℕ → ℕ
wpa_get_be64 a =
    (bit_or
      (bit_or
        (bit_or
          (bit_or
            (bit_or (bit_or (bit_or (byte a 0 <<< 56) (byte a 1 <<< 48)) (byte a 2 <<< 40))
              (byte a 3 <<< 32))
            (byte a 4 <<< 24))
          (byte a 5 <<< 16))
        (byte a 6 <<< 8))
      (byte a 7))
    % 2 ^ 64

pub wpa_put_be64 : List ℕ → ℕ → List ℕ
wpa_put_be64 a val =
    store
      (store
        (store
          (store
            (store (store (store (store a 0 (val >>> 56)) 1 (val >>> 48)) 2 (val >>> 40)) 3
              (val >>> 32))
            4 (val >>> 24))
          5 (val >>> 16))
        6 (val >>> 8))
      7 (bit_and val 0xff)

pub wpa_get_le64 : List ℕ → ℕ
wpa_get_le64 a =
    (bit_or
      (bit_or
        (bit_or
          (bit_or
            (bit_or (bit_or (bit_or (byte a 7 <<< 56) (byte a 6 <<< 48)) (byte a 5 <<< 40))
              (byte a 4 <<< 32))
            (byte a 3 <<< 24))
          (byte a 2 <<< 16))
        (byte a 1 <<< 8))
      (byte a 0))
    % 2 ^ 64

pub wpa_put_le64 : List ℕ → ℕ → List ℕ
wpa_put_le64 a val =
    store
      (store
        (store
          (store
            (store (store (store (store a 7 (val >>> 56)) 6 (val >>> 48)) 5 (val >>> 40)) 4
              (val >>> 32))
            3 (val >>> 24))
          2 (val >>> 16))
        1 (val >>> 8))
      0 (bit_and val 0xff)
