-- ===== src/Examples/Values.antt =====
-- The theorems on times, words and strings, applied.
use wpa_supplicant_ex.Shared.{
  ℕ, ◌+◌, ◌*◌, ◌%◌, ◌^◌, ◌<◌, ◌≡◌, ◌↔◌, refl, true, [], ◌∷◌, ◌++◌, some, arith, put_at,
}
use wpa_supplicant_ex.Shared.Int.{pos}
use wpa_supplicant_ex.Time.{os_reltime_expired}
use wpa_supplicant_ex.Time.Order.{IsNormal, ahead, behind, os_reltime_expired_iff}
use wpa_supplicant_ex.Endian.{
  wpa_get_be16, wpa_get_be24, wpa_get_be32, wpa_get_be64, wpa_put_be16, wpa_put_be24, wpa_put_be32,
  wpa_put_be64, wpa_get_le16, wpa_get_le32, wpa_get_le64, wpa_put_le16, wpa_put_le32, wpa_put_le64,
}
use wpa_supplicant_ex.Endian.RoundTrip.{words_round_trip}
use wpa_supplicant_ex.Strings.{os_strlcpy, os_rel2abs_path}
use wpa_supplicant_ex.Strings.Absolute.{shows, os_rel2abs_path-joins}
use wpa_supplicant_ex.Endian.Swap.{
  be_to_host16, le_to_host16, be_to_host32, le_to_host32, host_16, host_32, to_host-wpa_get,
}
use wpa_supplicant_ex.Strings.Copy.{os_strlcpy_lem}
use wpa_supplicant_ex.Examples.{at}

normal : (s u : ℕ) → u < 1000000 → IsNormal (at s u)
normal s u h = (refl, h)

os_reltime_expired_example :
    (os_reltime_expired (at 12 6) (at 7 5) (pos 5) ≡ true)
    ↔ (5 * 1000000 + ahead (at 7 5) + behind (at 12 6) < ahead (at 12 6) + behind (at 7 5))
os_reltime_expired_example =
    os_reltime_expired_iff (at 12 6) (at 7 5) 5 (normal 12 6 (omega arith))
      (normal 7 5 (omega arith))

words_round_trip_example :
    ((wpa_get_be16 (wpa_put_be16 (0 ∷ 0 ∷ []) 66051) ≡ 66051 % 2 ^ 16)
      × (wpa_get_be24 (wpa_put_be24 (0 ∷ 0 ∷ 0 ∷ []) 66051) ≡ 66051 % 2 ^ 24)
      × (wpa_get_be32 (wpa_put_be32 (0 ∷ 0 ∷ 0 ∷ 0 ∷ []) 66051) ≡ 66051 % 2 ^ 32)
      × (wpa_get_be64 (wpa_put_be64 (0 ∷ 0 ∷ 0 ∷ 0 ∷ 0 ∷ 0 ∷ 0 ∷ 0 ∷ []) 66051) ≡ 66051 % 2 ^ 64))
    × ((wpa_get_le16 (wpa_put_le16 (0 ∷ 0 ∷ []) 66051) ≡ 66051 % 2 ^ 16)
        × (wpa_get_le32 (wpa_put_le32 (0 ∷ 0 ∷ 0 ∷ 0 ∷ []) 66051) ≡ 66051 % 2 ^ 32)
        × (wpa_get_le64 (wpa_put_le64 (0 ∷ 0 ∷ 0 ∷ 0 ∷ 0 ∷ 0 ∷ 0 ∷ 0 ∷ []) 66051) ≡ 66051 % 2 ^ 64))
words_round_trip_example = words_round_trip 0 0 0 0 0 0 0 0 [] 66051

-- Three bytes for a string of four.
os_strlcpy_example :
    os_strlcpy (9 ∷ 9 ∷ 9 ∷ 9 ∷ []) (1 ∷ 2 ∷ 3 ∷ 4 ∷ []) 3
    ≡ (put_at 0 (1 ∷ 2 ∷ 0 ∷ []) (9 ∷ 9 ∷ 9 ∷ 9 ∷ []), 4)
os_strlcpy_example = os_strlcpy_lem (9 ∷ 9 ∷ 9 ∷ 9 ∷ []) (1 ∷ 2 ∷ 3 ∷ 4 ∷ []) 3

os_rel2abs_path-joins_example :
    os_rel2abs_path (λ _. true) (shows (b'/' ∷ b'h' ∷ [])) (some (b'x' ∷ []))
    ≡ some ((b'/' ∷ b'h' ∷ []) ++ (b'/' ∷ ((b'x' ∷ []) ++ (0 ∷ []))))
os_rel2abs_path-joins_example =
    os_rel2abs_path-joins (b'/' ∷ b'h' ∷ []) (b'x' ∷ []) (λ e. absurd (omega arith)) (omega arith)

to_host-wpa_get_example :
    (be_to_host16 true (host_16 true 1 2) ≡ wpa_get_be16 (1 ∷ 2 ∷ []))
    × (le_to_host16 true (host_16 true 1 2) ≡ wpa_get_le16 (1 ∷ 2 ∷ []))
    × (be_to_host32 true (host_32 true 1 2 3 4) ≡ wpa_get_be32 (1 ∷ 2 ∷ 3 ∷ 4 ∷ []))
    × (le_to_host32 true (host_32 true 1 2 3 4) ≡ wpa_get_le32 (1 ∷ 2 ∷ 3 ∷ 4 ∷ []))
to_host-wpa_get_example =
    to_host-wpa_get true 1 2 3 4 (omega arith) (omega arith) (omega arith) (omega arith)
