-- ===== src/Endian/RoundTrip.antt =====
-- Reading back what was stored at each width of `Endian`, and the two orders side by side.
use wpa_supplicant_ex.Shared.{ℕ, ◌%◌, ◌^◌, ◌≡◌, sym, ap, ◌∙◌, List, [], ◌∷◌}
use mathlib.Core.List.{reverse}
use wpa_supplicant_ex.Endian.{
  wpa_get_be16, wpa_put_be16, wpa_get_le16, wpa_put_le16, wpa_get_be24, wpa_put_be24, wpa_get_be32,
  wpa_put_be32, wpa_get_le32, wpa_put_le32, wpa_get_be64, wpa_put_be64, wpa_get_le64, wpa_put_le64,
}
use wpa_supplicant_ex.Endian.Narrow.{
  wpa_put_be16-bytes, wpa_put_le16-bytes, wpa_put_be32-bytes, wpa_put_le32-bytes,
  wpa_get_be16-wpa_put_be16, wpa_get_le16-wpa_put_le16, wpa_get_be24-wpa_put_be24,
  wpa_get_be32-wpa_put_be32, wpa_get_le32-wpa_put_le32,
}
use wpa_supplicant_ex.Endian.Wide.{
  wpa_put_be64-bytes, wpa_put_le64-bytes, wpa_get_be64-wpa_put_be64, wpa_get_le64-wpa_put_le64,
}

-- A word stored in big endian order is read back, cut to its width of 16, 24, 32 or 64 bits.
pub big_endian_round_trip :
    (a b c d e f g h : ℕ) (rest : List ℕ) (val : ℕ)
    → (wpa_get_be16 (wpa_put_be16 (a ∷ b ∷ rest) val) ≡ val % 2 ^ 16)
      × (wpa_get_be24 (wpa_put_be24 (a ∷ b ∷ c ∷ rest) val) ≡ val % 2 ^ 24)
      × (wpa_get_be32 (wpa_put_be32 (a ∷ b ∷ c ∷ d ∷ rest) val) ≡ val % 2 ^ 32)
      × (wpa_get_be64 (wpa_put_be64 (a ∷ b ∷ c ∷ d ∷ e ∷ f ∷ g ∷ h ∷ rest) val) ≡ val % 2 ^ 64)
big_endian_round_trip a b c d e f g h rest val = (
  wpa_get_be16-wpa_put_be16 a b rest val,
  wpa_get_be24-wpa_put_be24 a b c rest val,
  wpa_get_be32-wpa_put_be32 a b c d rest val,
  wpa_get_be64-wpa_put_be64 a b c d e f g h rest val,
)

-- A word stored in little endian order is read back, cut to its width of 16, 32 or 64 bits.
pub little_endian_round_trip :
    (a b c d e f g h : ℕ) (rest : List ℕ) (val : ℕ)
    → (wpa_get_le16 (wpa_put_le16 (a ∷ b ∷ rest) val) ≡ val % 2 ^ 16)
      × (wpa_get_le32 (wpa_put_le32 (a ∷ b ∷ c ∷ d ∷ rest) val) ≡ val % 2 ^ 32)
      × (wpa_get_le64 (wpa_put_le64 (a ∷ b ∷ c ∷ d ∷ e ∷ f ∷ g ∷ h ∷ rest) val) ≡ val % 2 ^ 64)
little_endian_round_trip a b c d e f g h rest val = (
  wpa_get_le16-wpa_put_le16 a b rest val,
  wpa_get_le32-wpa_put_le32 a b c d rest val,
  wpa_get_le64-wpa_put_le64 a b c d e f g h rest val,
)

-- The bytes of a word stored in little endian order are those in big endian order, back to front.
pub endian_mirror :
    (a b c d e f g h val : ℕ)
    → (wpa_put_le16 (a ∷ b ∷ []) val ≡ reverse (wpa_put_be16 (a ∷ b ∷ []) val))
      × (wpa_put_le32 (a ∷ b ∷ c ∷ d ∷ []) val ≡ reverse (wpa_put_be32 (a ∷ b ∷ c ∷ d ∷ []) val))
      × (wpa_put_le64 (a ∷ b ∷ c ∷ d ∷ e ∷ f ∷ g ∷ h ∷ []) val
          ≡ reverse (wpa_put_be64 (a ∷ b ∷ c ∷ d ∷ e ∷ f ∷ g ∷ h ∷ []) val))
endian_mirror a b c d e f g h val = (
  wpa_put_le16-bytes a b [] val ∙ ap reverse (sym (wpa_put_be16-bytes a b [] val)),
  wpa_put_le32-bytes a b c d [] val ∙ ap reverse (sym (wpa_put_be32-bytes a b c d [] val)),
  wpa_put_le64-bytes a b c d e f g h [] val
      ∙ ap reverse (sym (wpa_put_be64-bytes a b c d e f g h [] val)),
)

-- A word stored in big endian order is read back, cut to its width of 16, 24, 32 or 64 bits, and so is
-- one stored in little endian order, at 16, 32 or 64 bits.
pub words_round_trip :
    (a b c d e f g h : ℕ) (rest : List ℕ) (val : ℕ)
    → ((wpa_get_be16 (wpa_put_be16 (a ∷ b ∷ rest) val) ≡ val % 2 ^ 16)
        × (wpa_get_be24 (wpa_put_be24 (a ∷ b ∷ c ∷ rest) val) ≡ val % 2 ^ 24)
        × (wpa_get_be32 (wpa_put_be32 (a ∷ b ∷ c ∷ d ∷ rest) val) ≡ val % 2 ^ 32)
        × (wpa_get_be64 (wpa_put_be64 (a ∷ b ∷ c ∷ d ∷ e ∷ f ∷ g ∷ h ∷ rest) val) ≡ val % 2 ^ 64))
      × ((wpa_get_le16 (wpa_put_le16 (a ∷ b ∷ rest) val) ≡ val % 2 ^ 16)
          × (wpa_get_le32 (wpa_put_le32 (a ∷ b ∷ c ∷ d ∷ rest) val) ≡ val % 2 ^ 32)
          × (wpa_get_le64 (wpa_put_le64 (a ∷ b ∷ c ∷ d ∷ e ∷ f ∷ g ∷ h ∷ rest) val) ≡ val % 2 ^ 64))
words_round_trip a b c d e f g h rest val = (
  big_endian_round_trip a b c d e f g h rest val,
  little_endian_round_trip a b c d e f g h rest val,
)
