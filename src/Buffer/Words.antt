-- ===== src/Buffer/Words.antt =====
-- Putting a word into a `struct wpabuf` (src/wpa_ctrl/wpabuf.h) appends its bytes.
use wpa_supplicant_ex.Shared.{
  ℕ, ◌/◌, ◌%◌, ◌^◌, ◌≤◌, ◌≡◌, refl, ap₂, ◌∙◌, List, [], ◌∷◌, arith, length, drop, set,
}
use wpa_supplicant_ex.Endian.{wpa_put_le16, wpa_put_le32, wpa_put_be16, wpa_put_be24, wpa_put_be32}
use wpa_supplicant_ex.Endian.Narrow.{
  wpa_put_le16-bytes, wpa_put_le32-bytes, wpa_put_be16-bytes, wpa_put_be24-bytes,
  wpa_put_be32-bytes,
}
use wpa_supplicant_ex.Buffer.{
  Wpabuf, Putting, wpabuf_put_u8, wpabuf_put_be16, wpabuf_put_le16, wpabuf_put_be24,
  wpabuf_put_be32, wpabuf_put_le32, wpabuf_tailroom,
}
use wpa_supplicant_ex.Buffer.Appending.{IsWithin, Reserves, Appended, store_at-Appended}

be16_front :
    (val : ℕ) (a : List ℕ)
    → 2 ≤ length a
    → wpa_put_be16 a (val % 2 ^ 16) ≡ (val / 2 ^ 8 % 256) ∷ (val % 256) ∷ drop 2 a
be16_front val [] h = absurd (omega arith)
be16_front val (a0 ∷ []) h = absurd (omega arith)
be16_front val (a0 ∷ a1 ∷ a) h =
    wpa_put_be16-bytes a0 a1 a (val % 2 ^ 16) ∙ ap₂ ◌∷◌ (omega arith) (ap₂ ◌∷◌ (omega arith) refl)

le16_front :
    (val : ℕ) (a : List ℕ)
    → 2 ≤ length a
    → wpa_put_le16 a (val % 2 ^ 16) ≡ (val % 256) ∷ (val / 2 ^ 8 % 256) ∷ drop 2 a
le16_front val [] h = absurd (omega arith)
le16_front val (a0 ∷ []) h = absurd (omega arith)
le16_front val (a0 ∷ a1 ∷ a) h =
    wpa_put_le16-bytes a0 a1 a (val % 2 ^ 16) ∙ ap₂ ◌∷◌ (omega arith) (ap₂ ◌∷◌ (omega arith) refl)

be24_front :
    (val : ℕ) (a : List ℕ)
    → 3 ≤ length a
    → wpa_put_be24 a (val % 2 ^ 32)
      ≡ (val / 2 ^ 16 % 256) ∷ (val / 2 ^ 8 % 256) ∷ (val % 256) ∷ drop 3 a
be24_front val [] h = absurd (omega arith)
be24_front val (a0 ∷ []) h = absurd (omega arith)
be24_front val (a0 ∷ a1 ∷ []) h = absurd (omega arith)
be24_front val (a0 ∷ a1 ∷ a2 ∷ a) h =
    wpa_put_be24-bytes a0 a1 a2 a (val % 2 ^ 32)
    ∙ ap₂ ◌∷◌ (omega arith) (ap₂ ◌∷◌ (omega arith) (ap₂ ◌∷◌ (omega arith) refl))

be32_front :
    (val : ℕ) (a : List ℕ)
    → 4 ≤ length a
    → wpa_put_be32 a (val % 2 ^ 32)
      ≡ (val / 2 ^ 24 % 256) ∷ (val / 2 ^ 16 % 256) ∷ (val / 2 ^ 8 % 256) ∷ (val % 256) ∷ drop 4 a
be32_front val [] h = absurd (omega arith)
be32_front val (a0 ∷ []) h = absurd (omega arith)
be32_front val (a0 ∷ a1 ∷ []) h = absurd (omega arith)
be32_front val (a0 ∷ a1 ∷ a2 ∷ []) h = absurd (omega arith)
be32_front val (a0 ∷ a1 ∷ a2 ∷ a3 ∷ a) h =
    wpa_put_be32-bytes a0 a1 a2 a3 a (val % 2 ^ 32)
    ∙ ap₂ ◌∷◌ (omega arith)
        (ap₂ ◌∷◌ (omega arith) (ap₂ ◌∷◌ (omega arith) (ap₂ ◌∷◌ (omega arith) refl)))

le32_front :
    (val : ℕ) (a : List ℕ)
    → 4 ≤ length a
    → wpa_put_le32 a (val % 2 ^ 32)
      ≡ (val % 256) ∷ (val / 2 ^ 8 % 256) ∷ (val / 2 ^ 16 % 256) ∷ (val / 2 ^ 24 % 256) ∷ drop 4 a
le32_front val [] h = absurd (omega arith)
le32_front val (a0 ∷ []) h = absurd (omega arith)
le32_front val (a0 ∷ a1 ∷ []) h = absurd (omega arith)
le32_front val (a0 ∷ a1 ∷ a2 ∷ []) h = absurd (omega arith)
le32_front val (a0 ∷ a1 ∷ a2 ∷ a3 ∷ a) h =
    wpa_put_le32-bytes a0 a1 a2 a3 a (val % 2 ^ 32)
    ∙ ap₂ ◌∷◌ (omega arith)
        (ap₂ ◌∷◌ (omega arith) (ap₂ ◌∷◌ (omega arith) (ap₂ ◌∷◌ (omega arith) refl)))

u8_front : (val : ℕ) (a : List ℕ) → 1 ≤ length a → set a 0 (val % 2 ^ 8) ≡ (val % 256) ∷ drop 1 a
u8_front val [] h = absurd (omega arith)
u8_front val (y ∷ a) h = refl

module _ (put : Putting) (reserves : Reserves put) (b : Wpabuf) (v : IsWithin b) where
  -- With room for four bytes, each of the six helpers appends the bytes of its word, cut to its width,
  -- in the order that its name says.
  pub wpabuf_put_words-Appended :
      (val : ℕ)
      → 4 ≤ wpabuf_tailroom b
      → Appended b ((val % 256) ∷ []) (wpabuf_put_u8 put b val)
        × Appended b ((val / 2 ^ 8 % 256) ∷ (val % 256) ∷ []) (wpabuf_put_be16 put b val)
        × Appended b ((val % 256) ∷ (val / 2 ^ 8 % 256) ∷ []) (wpabuf_put_le16 put b val)
        × Appended b
            ((val / 2 ^ 16 % 256) ∷ (val / 2 ^ 8 % 256) ∷ (val % 256) ∷ [])
            (wpabuf_put_be24 put b val)
        × Appended b
            ((val / 2 ^ 24 % 256) ∷ (val / 2 ^ 16 % 256) ∷ (val / 2 ^ 8 % 256) ∷ (val % 256) ∷ [])
            (wpabuf_put_be32 put b val)
        × Appended b
            ((val % 256) ∷ (val / 2 ^ 8 % 256) ∷ (val / 2 ^ 16 % 256) ∷ (val / 2 ^ 24 % 256) ∷ [])
            (wpabuf_put_le32 put b val)
  unfolding wpabuf_put_u8 wpabuf_put_be16 wpabuf_put_le16 wpabuf_put_be24 wpabuf_put_be32
      wpabuf_put_le32
  wpabuf_put_words-Appended val room = (
    store_at-Appended put reserves b v _ (λ a. set a 0 (val % 2 ^ 8)) (omega arith) (u8_front val),
    store_at-Appended put reserves b v _ (λ a. wpa_put_be16 a (val % 2 ^ 16)) (omega arith)
        (be16_front val),
    store_at-Appended put reserves b v _ (λ a. wpa_put_le16 a (val % 2 ^ 16)) (omega arith)
        (le16_front val),
    store_at-Appended put reserves b v _ (λ a. wpa_put_be24 a (val % 2 ^ 32)) (omega arith)
        (be24_front val),
    store_at-Appended put reserves b v _ (λ a. wpa_put_be32 a (val % 2 ^ 32)) (omega arith)
        (be32_front val),
    store_at-Appended put reserves b v _ (λ a. wpa_put_le32 a (val % 2 ^ 32)) (omega arith)
        (le32_front val),
  )
