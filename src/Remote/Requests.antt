-- ===== src/Remote/Requests.antt =====
-- Requests over UDP (src/wpa_ctrl/wpa_ctrl.c), by those of the socket.
use wpa_supplicant_ex.Shared.{ℕ, Bool, true, false, List, Option, none, some, if◌then◌else◌}
use wpa_supplicant_ex.Kernel.{World, K, return}
use wpa_supplicant_ex.Kernel.Post.{Ends}
use wpa_supplicant_ex.Api.{Reply, failed, error, Callback}
use wpa_supplicant_ex.Ctrl.{wpa_ctrl_request}
use wpa_supplicant_ex.Ctrl.Within.{quiet_request-Ends}
use wpa_supplicant_ex.Remote.{UdpCtrl, with_cookie, request_udp}

-- A request is the one of the socket for the command behind the cookie, or fails at once.
pub request_udp-cases :
    (P : K Reply → Type 0) (malloc : Bool) (ctrl : UdpCtrl) (cmd buf : List ℕ) (limit : ℕ)
    (f : Callback)
    → P (wpa_ctrl_request (with_cookie ctrl.cookie cmd) buf limit f)
    → P (return (failed error))
    → P (request_udp malloc ctrl cmd buf limit f)
unfolding request_udp with_cookie
request_udp-cases P malloc ctrl cmd buf limit f asked refused = go malloc ctrl.cookie asked
  where
    go :
        (m : Bool) (c : Option (List ℕ))
        → P (wpa_ctrl_request (with_cookie c cmd) buf limit f)
        → P (elim c as (λ x. K Reply) [
          | none ↦ wpa_ctrl_request cmd buf limit f
          | some cookie ↦
              if m
              then wpa_ctrl_request (with_cookie (some cookie) cmd) buf limit f
              else return (failed error)
        ])
    go m none h = h
    go true (some cookie) h = h
    go false (some cookie) h = refused

pub request_udp-Ends :
    (malloc : Bool) (ctrl : UdpCtrl) (cmd buf : List ℕ) (limit : ℕ) (w : World)
    → Ends (request_udp malloc ctrl cmd buf limit none w)
request_udp-Ends malloc ctrl cmd buf limit w =
    request_udp-cases (λ m. Ends (m w)) malloc ctrl cmd buf limit none
      (quiet_request-Ends (with_cookie ctrl.cookie cmd) buf limit w) tt
