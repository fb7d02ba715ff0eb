-- ===== src/Ctrl/Within.antt =====
-- The control interface over a UNIX domain socket (src/wpa_ctrl/wpa_ctrl.c) keeps the laws that its
-- clients rely on.
use wpa_supplicant_ex.Shared.{
  ℕ, ◌<◌, ◌≡◌, refl, ap, ◌∙◌, Bool, true, false, List, [], ◌∷◌, none, some, arith, inl, inr,
  Bool-cases, length, overwrite, length-set, length-overwrite, if◌then◌else◌,
}
use wpa_supplicant_ex.Shared.Int.{pos, eqb_ℤ}
use wpa_supplicant_ex.Time.{Timestamp, os_reltime_expired}
use wpa_supplicant_ex.Kernel.{
  World, K, Outcome, ◌>>=◌, return, is_again, SendAnswer, sent, send_failed, SelectAnswer,
  select_failed, ready, idle, RecvAnswer, datagram, recv_failed,
}
use wpa_supplicant_ex.Kernel.Post.{Post, Ends, Post->>=}
use wpa_supplicant_ex.Kernel.Calls
use wpa_supplicant_ex.Kernel.Calls.{get_reltime, sleep, select}
use wpa_supplicant_ex.Kernel.Within.{FitsIn, get_reltime-Ends, select-uses, recv-FitsIn}
use wpa_supplicant_ex.Api.{Reply, failed, error}
use wpa_supplicant_ex.Api.Laws.{IsReplyIn, CtrlLaws}
use wpa_supplicant_ex.Ctrl.{
  send_loop, send_command, accept_send, refuse_send, unset, reply_loop, after_recv, deliver,
  is_unsolicited, await_reply, wpa_ctrl_request, wpa_ctrl_attach_helper, wpa_ctrl_attach,
  wpa_ctrl_recv, received, wpa_ctrl_pending, unix, attach_command, ten_bytes,
}

-- What follows a reading of the clock and a sleep.
after_clock :
    (k : Timestamp → K Bool) (w : World)
    → ((t : Timestamp) (u : World) → Ends (k t u))
    → Ends ((get_reltime >>= k) w)
after_clock k w go =
    Post->>= (λ t u. Unit) (λ a u. Unit) get_reltime k w (get_reltime-Ends w) (λ t u h. go t u)

send_loop-Ends :
    (cmd : List ℕ) (t0 : Timestamp) (later : List SendAnswer) (w : World)
    → Ends (send_loop cmd t0 later w)
unfolding send_loop accept_send refuse_send sleep
send_loop-Ends cmd t0 [] w = tt
send_loop-Ends cmd t0 (sent ∷ later) w = tt
send_loop-Ends cmd t0 (send_failed e ∷ later) w = elim (Bool-cases (is_again e)) [
  | inr fatal ↦ rw fatal tt
  | inl again ↦ elim (Bool-cases (eqb_ℤ t0.sec (pos 0))) [
    | inl first ↦ rw (again, first) (after_clock _ w (λ t u. send_loop-Ends cmd t later _))
    | inr started ↦
        rw (again, started)
          (after_clock _ w (λ t u. elim (Bool-cases (os_reltime_expired t t0 (pos 5))) [
            | inl over ↦ rw over tt
            | inr within ↦ rw within (send_loop-Ends cmd t0 later _)
          ]))
  ]
]

-- A callback leaves the length of the buffer as it is.
deliver-sized :
    (f : List ℕ → K (Unit {0})) (reply : List ℕ) (res limit : ℕ) (w : World)
    → ((msg : List ℕ) (u : World) → Ends (f msg u))
    → Post (λ b u. length b ≡ length reply) (deliver (some f) reply res limit w)
unfolding deliver
deliver-sized f reply res limit w ends =
    Post->>= (λ t u. Unit) (λ b u. length b ≡ length reply) (f _) _ w (ends _ w)
      (λ t u h. length-set reply _ 0)

module _ (f : List ℕ → K (Unit {0})) (ends : (msg : List ℕ) (u : World) → Ends (f msg u))
    (size limit : ℕ) where
  abbrev Within : Outcome Reply → Type 0
  Within = Post (λ r v. IsReplyIn size limit r)

  after_recv-IsReplyIn :
      (reply : List ℕ) (continue : List ℕ → K Reply) (a : RecvAnswer) (w : World)
      → length reply ≡ size
      → FitsIn limit a
      → ((b : List ℕ) (u : World) → length b ≡ size → Within (continue b u))
      → Within (after_recv (some f) limit reply continue a w)
  unfolding after_recv
  after_recv-IsReplyIn reply continue (recv_failed e) w sized fits go = tt
  after_recv-IsReplyIn reply continue (datagram d) w sized fits go =
      elim (Bool-cases (is_unsolicited (overwrite d reply) (length d))) [
        | inl event ↦ rw event (
            Post->>= (λ b u. length b ≡ length (overwrite d reply)) (λ r v. IsReplyIn size limit r)
              (deliver (some f) (overwrite d reply) (length d) limit) continue w
              (deliver-sized f (overwrite d reply) (length d) limit w ends)
              (λ b u e. go b u (e ∙ length-overwrite d reply ∙ sized)))
        | inr answer ↦ rw answer (length-overwrite d reply ∙ sized, fits)
      ]

  reply_loop-IsReplyIn :
      (reply : List ℕ) (later : List SelectAnswer) (w : World)
      → length reply ≡ size
      → Within (reply_loop (some f) limit reply later w)
  unfolding reply_loop
  reply_loop-IsReplyIn reply [] w sized = tt
  reply_loop-IsReplyIn reply (select_failed ∷ later) w sized = tt
  reply_loop-IsReplyIn reply (idle ∷ later) w sized = tt
  reply_loop-IsReplyIn reply (ready ∷ later) w sized =
      Post->>= (λ a u. FitsIn limit a × (u.selects ≡ later)) (λ r v. IsReplyIn size limit r)
        (Calls.recv limit) _ _ (recv-FitsIn limit (record w { selects = later }))
        (λ a u h.
          after_recv-IsReplyIn reply _ a u sized h.0 (λ b v e. reply_loop-IsReplyIn b later v e))

  request-IsReplyIn :
      (cmd reply : List ℕ) (w : World)
      → length reply ≡ size
      → Within (wpa_ctrl_request cmd reply limit (some f) w)
  unfolding wpa_ctrl_request send_command await_reply
  request-IsReplyIn cmd reply w sized =
      Post->>= (λ ok u. Unit) (λ r v. IsReplyIn size limit r) (send_command cmd) _ w
        (send_loop-Ends cmd unset w.sends w) (λ ok u h. go ok u)
    where
      go :
          (ok : Bool) (u : World)
          → Within ((if ok then await_reply (some f) limit reply else return (failed error)) u)
      go true u = reply_loop-IsReplyIn reply u.selects u sized
      go false u = tt

-- The loop without a callback, as attaching runs it.
quiet_loop-Ends :
    (limit : ℕ) (reply : List ℕ) (later : List SelectAnswer) (w : World)
    → Ends (reply_loop none limit reply later w)
unfolding reply_loop after_recv deliver
quiet_loop-Ends limit reply [] w = tt
quiet_loop-Ends limit reply (select_failed ∷ later) w = tt
quiet_loop-Ends limit reply (idle ∷ later) w = tt
quiet_loop-Ends limit reply (ready ∷ later) w =
    Post->>= (λ a u. FitsIn limit a × (u.selects ≡ later)) (λ r v. Unit) (Calls.recv limit) _ _
      (recv-FitsIn limit (record w { selects = later }))
      (λ a u h. go (λ b v. quiet_loop-Ends limit b later v) a u)
  where
    go :
        ((b : List ℕ) (v : World) → Ends (reply_loop none limit b later v))
        → (a : RecvAnswer) (u : World)
        → Ends (after_recv none limit reply (λ r w'. reply_loop none limit r later w') a u)
    go again (recv_failed e) u = tt
    go again (datagram d) u = elim (Bool-cases (is_unsolicited (overwrite d reply) (length d))) [
      | inl event ↦ rw event (again (overwrite d reply) u)
      | inr answer ↦ rw answer tt
    ]

pub quiet_request-Ends :
    (cmd buf : List ℕ) (limit : ℕ) (w : World) → Ends (wpa_ctrl_request cmd buf limit none w)
unfolding wpa_ctrl_request send_command await_reply
quiet_request-Ends cmd buf limit w =
    Post->>= (λ ok u. Unit) (λ r v. Unit) (send_command cmd) _ w
      (send_loop-Ends cmd unset w.sends w) (λ ok u h. go ok u)
  where
    go :
        (ok : Bool) (u : World)
        → Ends ((if ok then await_reply none limit buf else return (failed error)) u)
    go true u = quiet_loop-Ends limit buf u.selects u
    go false u = tt

attach-Ends :
    (buf : List ℕ) (attach : Bool) (w : World) → Ends (wpa_ctrl_attach_helper buf attach w)
unfolding wpa_ctrl_attach_helper
attach-Ends buf attach w =
    Post->>= (λ r u. Unit) (λ a u. Unit) (wpa_ctrl_request (attach_command attach) buf 10 none) _ w
      (quiet_request-Ends (attach_command attach) buf 10 w) (λ r u h. tt)

received-IsReplyIn :
    (reply : List ℕ) (limit : ℕ) (a : RecvAnswer)
    → FitsIn limit a
    → IsReplyIn (length reply) limit (received reply a)
unfolding received
received-IsReplyIn reply limit (recv_failed e) h = tt
received-IsReplyIn reply limit (datagram d) h = (length-overwrite d reply, h)

-- The UNIX domain socket keeps the laws of a control interface. Whatever the kernel answers, no loop
-- runs out of fuel in a request whose callback ends, in receiving, in polling or in attaching; the reply of a
-- request or of receiving leaves the caller's buffer at its size and is no longer than its limit; receiving uses
-- up no answer of `select`, and a message is pending only where one is used up.
pub unix_laws : CtrlLaws unix
unfolding wpa_ctrl_recv wpa_ctrl_pending wpa_ctrl_attach
unix_laws = record {
  request_within =
      λ cmd buf limit f w ends. request-IsReplyIn f ends (length buf) limit cmd buf w refl;
  recv_within = λ buf limit w.
      Post->>= (λ a u. FitsIn limit a × (u.selects ≡ w.selects)) _ (Calls.recv limit) _ w
        (recv-FitsIn limit w)
        (λ a u h. (received-IsReplyIn buf limit a h.0, omega (arith, ap length h.1)));
  pending_polls = λ w.
      Post->>= (λ a u. length u.selects < length w.selects) _ select _ w (select-uses w)
        (λ a u h. λ more. h);
  attach_ends = λ w. attach-Ends ten_bytes true w;
}
