-- ===== src/Buffer.antt =====
-- The inline helpers of src/wpa_ctrl/wpabuf.h. `wpabuf_put`, which the repository declares only, is a
-- parameter: it gives the place for `len` more bytes and the buffer with them in use, or ends the
-- process.
pub mod Appending
pub mod Words
use wpa_supplicant_ex.Shared.{
  ℕ, ◌+◌, ◌-◌, leb, if◌then◌else◌, ◌%◌, ◌^◌, List, [], ◌∷◌, ◌++◌, Option, none, some, length, set,
  take, drop, put_at,
}
use wpa_supplicant_ex.Endian.{wpa_put_le16, wpa_put_le32, wpa_put_be16, wpa_put_be24, wpa_put_be32}

-- `struct wpabuf`; `buf` is the array that its pointer is the head of.
pub record Wpabuf : Type 0 where
  pub size : ℕ
  pub used : ℕ
  pub buf : List ℕ
  pub flags : ℕ

-- BIT(0)
abbrev pub wpabuf_flag_ext_data : ℕ
wpabuf_flag_ext_data = 1

abbrev pub wpabuf_size : Wpabuf → ℕ
wpabuf_size b = b.size

abbrev pub wpabuf_len : Wpabuf → ℕ
wpabuf_len b = b.used

-- The difference of two `size_t` of 64 bits.
unfoldable pub wpabuf_tailroom : Wpabuf → ℕ
wpabuf_tailroom b = if leb b.used b.size then b.size - b.used else 2 ^ 64 + b.size - b.used

abbrev pub wpabuf_head : Wpabuf → List ℕ
wpabuf_head b = b.buf

abbrev pub wpabuf_head_u8 : Wpabuf → List ℕ
wpabuf_head_u8 b = wpabuf_head b

abbrev pub wpabuf_mhead : Wpabuf → List ℕ
wpabuf_mhead b = b.buf

abbrev pub wpabuf_mhead_u8 : Wpabuf → List ℕ
wpabuf_mhead_u8 b = wpabuf_mhead b

unfoldable pub wpabuf_set : Wpabuf → List ℕ → ℕ → Wpabuf
wpabuf_set b bytes len = record b {
  buf = bytes;
  flags = wpabuf_flag_ext_data;
  size = len;
  used = len;
}

abbrev pub Putting : Type 0
Putting = Wpabuf → ℕ → Option (ℕ × Wpabuf)

-- A store through the pointer that `wpabuf_put` gave.
unfoldable pub store_at : Option (ℕ × Wpabuf) → (List ℕ → List ℕ) → Option Wpabuf
store_at none f = none
store_at (some (pos, b)) f = some (record b { buf = take pos b.buf ++ f (drop pos b.buf) })

module _ (wpabuf_put : Putting) where
  unfoldable pub wpabuf_put_u8 : Wpabuf → ℕ → Option Wpabuf
  unfolding store_at
  wpabuf_put_u8 b val = store_at (wpabuf_put b 1) (λ a. set a 0 (val % 2 ^ 8))

  unfoldable pub wpabuf_put_le16 : Wpabuf → ℕ → Option Wpabuf
  unfolding store_at
  wpabuf_put_le16 b val = store_at (wpabuf_put b 2) (λ a. wpa_put_le16 a (val % 2 ^ 16))

  unfoldable pub wpabuf_put_le32 : Wpabuf → ℕ → Option Wpabuf
  unfolding store_at
  wpabuf_put_le32 b val = store_at (wpabuf_put b 4) (λ a. wpa_put_le32 a (val % 2 ^ 32))

  unfoldable pub wpabuf_put_be16 : Wpabuf → ℕ → Option Wpabuf
  unfolding store_at
  wpabuf_put_be16 b val = store_at (wpabuf_put b 2) (λ a. wpa_put_be16 a (val % 2 ^ 16))

  unfoldable pub wpabuf_put_be24 : Wpabuf → ℕ → Option Wpabuf
  unfolding store_at
  wpabuf_put_be24 b val = store_at (wpabuf_put b 3) (λ a. wpa_put_be24 a (val % 2 ^ 32))

  unfoldable pub wpabuf_put_be32 : Wpabuf → ℕ → Option Wpabuf
  unfolding store_at
  wpabuf_put_be32 b val = store_at (wpabuf_put b 4) (λ a. wpa_put_be32 a (val % 2 ^ 32))

  -- `none` is a NULL pointer to the data.
  unfoldable pub wpabuf_put_data : Wpabuf → Option (List ℕ) → Option Wpabuf
  unfolding store_at
  wpabuf_put_data b none = some b
  wpabuf_put_data b (some bytes) = store_at (wpabuf_put b (length bytes)) (λ a. put_at 0 bytes a)

  unfoldable pub wpabuf_put_buf : Wpabuf → Wpabuf → Option Wpabuf
  unfolding wpabuf_put_data
  wpabuf_put_buf dst src = wpabuf_put_data dst (some (take (wpabuf_len src) (wpabuf_head src)))

  unfoldable pub wpabuf_put_str : Wpabuf → List ℕ → Option Wpabuf
  unfolding wpabuf_put_data
  wpabuf_put_str dst str = wpabuf_put_data dst (some str)
