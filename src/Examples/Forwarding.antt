-- ===== src/Examples/Forwarding.antt =====
-- The theorems on what goes to Erlang, applied.
use wpa_supplicant_ex.Shared.{ℕ, List, [], ◌∷◌, ◌++◌, ◌≡◌, refl, arith, length, map}
use wpa_supplicant_ex.Kernel.{
  World, returned, exited, exit_failure, sent, ready, idle, select_failed, datagram, recv_failed,
  eintr, wrote, write_failed,
}
use wpa_supplicant_ex.Ctrl.{unix}
use wpa_supplicant_ex.Port.{process_wpa, fresh_port, buffer_size, do_wpa_request}
use wpa_supplicant_ex.Port.Frames.{encode}
use wpa_supplicant_ex.Port.Forward.{
  do_wpa_request-forwards, event_text, reply_text, readies, arrivals, all_written,
}
use wpa_supplicant_ex.Port.Events.{
  process_wpa-forwards, process_wpa-interrupted, drained, all_taken,
}
use wpa_supplicant_ex.Examples.{ping, quiet, event, ok_reply}

-- An event comes before the reply.
abbrev eventful : World
eventful = record quiet {
  sends = sent ∷ [];
  selects = ready ∷ ready ∷ [];
  recvs = datagram event ∷ datagram ok_reply ∷ [];
  writes = wrote 6 ∷ wrote 5 ∷ [];
}

do_wpa_request-forwards_example :
    (buf' : List ℕ) × (do_wpa_request unix ping fresh_port.wpa_buffer eventful
      ≡ returned buf' (record quiet {
        commands = ping ∷ [];
        stdout = [] ++ encode (map event_text (event ∷ []) ++ (reply_text ok_reply ∷ []));
      }))
    × (length buf' ≡ buffer_size)
do_wpa_request-forwards_example =
    do_wpa_request-forwards ok_reply (λ h. ground arith) [] [] [] (event ∷ []) ping
      fresh_port.wpa_buffer [] eventful refl ((omega arith, refl), tt) refl (unfold readies in refl)
      (unfold arrivals in refl) (unfold all_written in refl)

-- An event, and then nothing more.
abbrev noticed : World
noticed = record quiet {
  selects = ready ∷ idle ∷ [];
  recvs = datagram event ∷ [];
  writes = wrote 6 ∷ [];
}

process_wpa-forwards_example :
    (buf' : List ℕ) × (length buf' ≡ buffer_size)
    × (process_wpa unix fresh_port noticed
        ≡ returned
            (record fresh_port { wpa_buffer = buf' })
            (record quiet { stdout = [] ++ encode (map reply_text (event ∷ [])) }))
process_wpa-forwards_example =
    process_wpa-forwards [] [] [] fresh_port (event ∷ []) noticed refl (unfold drained in refl)
      (unfold arrivals in refl) (unfold all_taken in refl)

abbrev interrupted : World
interrupted = record quiet { selects = select_failed ∷ []; recvs = recv_failed eintr ∷ [] }

process_wpa-interrupted_example :
    process_wpa unix fresh_port interrupted ≡ exited (exit_failure "wpa_ctrl_recv") quiet
process_wpa-interrupted_example =
    process_wpa-interrupted fresh_port eintr [] [] interrupted refl refl

-- A signal interrupts the first try to write.
abbrev signalled : World
signalled = record quiet { writes = write_failed eintr ∷ wrote 3 ∷ [] }

-- The pipe takes two bytes of three.
abbrev clogged : World
clogged = record quiet { writes = wrote 2 ∷ [] }
