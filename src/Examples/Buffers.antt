-- ===== src/Examples/Buffers.antt =====
-- The theorems on `struct wpabuf`, applied.
use wpa_supplicant_ex.Shared.{
  ◌+◌, ◌/◌, ◌%◌, ◌^◌, refl, [], ◌∷◌, none, some, arith, leb, if◌then◌else◌, replicate,
}
use wpa_supplicant_ex.Buffer.{
  Wpabuf, Putting, wpabuf_tailroom, wpabuf_put_data, wpabuf_put_u8, wpabuf_put_be16,
  wpabuf_put_le16, wpabuf_put_be24, wpabuf_put_be32, wpabuf_put_le32,
}
use wpa_supplicant_ex.Buffer.Words.{wpabuf_put_words-Appended}
use wpa_supplicant_ex.Buffer.Appending.{IsWithin, Reserves, Appended, wpabuf_put_data-Appended}

-- Takes bytes into use while there is room.
abbrev put : Putting
put b n = if leb n (wpabuf_tailroom b) then some (b.used, record b { used = b.used + n }) else none

put-Reserves : Reserves put
put-Reserves b n v room = ground arith

-- Eight bytes, two of them in use.
abbrev begun : Wpabuf
begun = record { size = 8; used = 2; buf = 1 ∷ 2 ∷ replicate 6 0; flags = 0 }

begun-IsWithin : IsWithin begun
begun-IsWithin = record { sized = refl; below = omega arith }

wpabuf_put_data-Appended_example :
    Appended begun (3 ∷ 4 ∷ 5 ∷ []) (wpabuf_put_data put begun (some (3 ∷ 4 ∷ 5 ∷ [])))
unfolding wpabuf_tailroom
wpabuf_put_data-Appended_example =
    wpabuf_put_data-Appended put put-Reserves begun begun-IsWithin (3 ∷ 4 ∷ 5 ∷ []) (omega arith)

wpabuf_put_words-Appended_example :
    Appended begun ((1000 % 256) ∷ []) (wpabuf_put_u8 put begun 1000)
    × Appended begun ((1000 / 2 ^ 8 % 256) ∷ (1000 % 256) ∷ []) (wpabuf_put_be16 put begun 1000)
    × Appended begun ((1000 % 256) ∷ (1000 / 2 ^ 8 % 256) ∷ []) (wpabuf_put_le16 put begun 1000)
    × Appended begun
        ((1000 / 2 ^ 16 % 256) ∷ (1000 / 2 ^ 8 % 256) ∷ (1000 % 256) ∷ [])
        (wpabuf_put_be24 put begun 1000)
    × Appended begun
        ((1000 / 2 ^ 24 % 256) ∷ (1000 / 2 ^ 16 % 256) ∷ (1000 / 2 ^ 8 % 256) ∷ (1000 % 256) ∷ [])
        (wpabuf_put_be32 put begun 1000)
    × Appended begun
        ((1000 % 256) ∷ (1000 / 2 ^ 8 % 256) ∷ (1000 / 2 ^ 16 % 256) ∷ (1000 / 2 ^ 24 % 256) ∷ [])
        (wpabuf_put_le32 put begun 1000)
unfolding wpabuf_tailroom
wpabuf_put_words-Appended_example =
    wpabuf_put_words-Appended put put-Reserves begun begun-IsWithin 1000 (omega arith)
