-- ===== src/Examples/Sockets.antt =====
-- The theorems on the control socket, applied.
use wpa_supplicant_ex.Shared.{
  ℕ, ◌≡◌, ◌↔◌, refl, Bool, true, false, List, [], ◌∷◌, ◌++◌, none, some, arith, replicate,
  if◌then◌else◌,
}
use wpa_supplicant_ex.Kernel.{World, returned, sent, send_failed, eagain, ready, datagram}
use wpa_supplicant_ex.Api.{error}
use wpa_supplicant_ex.Ctrl.{send_command, wpa_ctrl_attach_helper, attach_command}
use wpa_supplicant_ex.Ctrl.Patience.{send_command-gives-up, send_command-persists}
use wpa_supplicant_ex.Ctrl.Attach.{wpa_ctrl_attach_helper_lem, ok_text}
use wpa_supplicant_ex.Session.{starts_with, wpa_ctrl_open, bind_path}
use wpa_supplicant_ex.Session.Release.{wpa_ctrl_open-leaves-file, held, nothing_held, stale}
use wpa_supplicant_ex.Examples.{quiet, at, ping, event, ok_reply, working}

-- The socket would block at 7 s and at 9 s, and then takes the command.
abbrev busy : World
busy = record quiet {
  sends = send_failed eagain ∷ send_failed eagain ∷ sent ∷ [];
  clocks = at 7 0 ∷ at 9 0 ∷ [];
}

-- It would block at 7 s and still at 13 s.
abbrev stuck : World
stuck = record quiet {
  sends = send_failed eagain ∷ send_failed eagain ∷ [];
  clocks = at 7 0 ∷ at 13 0 ∷ [];
}

send_command-gives-up_example :
    send_command ping stuck ≡ returned false (record quiet { slept = 1 })
send_command-gives-up_example =
    send_command-gives-up ping (at 7 0) refl (refl, omega arith) [] [] (at 13 0) [] stuck tt
      (refl, omega arith) (omega arith) refl refl

send_command-persists_example :
    send_command ping busy ≡ returned true (record quiet { commands = ping ∷ []; slept = 2 })
send_command-persists_example =
    send_command-persists ping (at 7 0) refl (refl, omega arith) (at 9 0 ∷ []) [] [] busy
      ((refl, omega arith), omega arith, tt) refl refl

-- A request that is answered at once.
abbrev asked : World
asked = record quiet { sends = sent ∷ []; selects = ready ∷ []; recvs = datagram ok_reply ∷ [] }

-- The answer to `ATTACH`, behind an event.
abbrev attaching : World
attaching = record quiet {
  sends = sent ∷ [];
  selects = ready ∷ ready ∷ [];
  recvs = datagram event ∷ datagram ok_reply ∷ [];
}

wpa_ctrl_attach_helper_example :
    (accepted : Bool) × (wpa_ctrl_attach_helper (replicate 10 0) true attaching
      ≡ returned
          (if accepted then none else some error)
          (record quiet { commands = attach_command true ∷ [] }))
    × ((accepted ≡ true) ↔ (ok_reply ≡ ok_text))
wpa_ctrl_attach_helper_example =
    wpa_ctrl_attach_helper_lem true ok_reply (λ h. ground arith) (event ∷ []) (replicate 10 0) [] []
      [] attaching refl ((omega arith, refl), tt) refl refl refl

abbrev long_path : List ℕ
long_path = replicate 9 b'/'

wpa_ctrl_open-leaves-file_example :
    let o = wpa_ctrl_open working 0 (some long_path) in
    (text : List ℕ) × (working.snprintf 1 ≡ some text)
    × (o.ctrl ≡ none)
    × (held o.log ≡ nothing_held (stale working text ++ (bind_path text ∷ [])))
unfolding starts_with
wpa_ctrl_open-leaves-file_example =
    wpa_ctrl_open-leaves-file working 0 long_path refl refl refl refl refl (omega arith)
