-- ===== src/Examples/Delivering.antt =====
-- The theorems on the stream from Erlang, applied.
use wpa_supplicant_ex.Shared.{ℕ, List, [], ◌∷◌, refl, inl, arith}
use wpa_supplicant_ex.Ctrl.{unix}
use wpa_supplicant_ex.Port.{fresh_port}
use wpa_supplicant_ex.Port.Frames.{Parse, stop, next, incomplete, AllFit, encode}
use wpa_supplicant_ex.Port.Dispatch.{Refines, serve, HasRoom}
use wpa_supplicant_ex.Port.Delivery.{Delivered, nothing, piece, receive_all, stream-serve}
use wpa_supplicant_ex.Examples.{ping, answering}

abbrev framed_ping : List ℕ
framed_ping = 0 ∷ 1 ∷ b'P' ∷ []

abbrev pieces : List (List ℕ)
pieces = (0 ∷ []) ∷ (1 ∷ b'P' ∷ []) ∷ []

ping-Parse : Parse framed_ping (ping ∷ []) (incomplete [])
ping-Parse = next ping (omega arith) refl (stop (inl (omega arith)))

pieces-Delivered : Delivered [] pieces (ping ∷ []) []
pieces-Delivered =
    piece (0 ∷ []) (omega arith) (stop (inl (omega arith)))
      (piece (1 ∷ b'P' ∷ []) (omega arith) ping-Parse nothing refl) refl

fresh_port-HasRoom : HasRoom fresh_port
fresh_port-HasRoom = record { sized = refl; below = omega arith }

stream-serve_example :
    Refines
      (receive_all unix pieces fresh_port answering)
      (serve unix (ping ∷ []) (incomplete []) fresh_port.wpa_buffer answering)
unfolding mathlib.Core.List.flatten
stream-serve_example =
    stream-serve unix (ping ∷ []) answering pieces-Delivered (unfold AllFit in (omega arith, tt))
      (unfold encode in refl)
