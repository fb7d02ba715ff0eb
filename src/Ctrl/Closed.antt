-- ===== src/Ctrl/Closed.antt =====
-- A property of computations that the system calls have, over the control interface of a UNIX domain
-- socket (src/wpa_ctrl/wpa_ctrl.c).
use wpa_supplicant_ex.Shared.{
  ℕ, Bool, true, false, List, [], ◌∷◌, none, some, Option, overwrite, length, if◌then◌else◌,
}
use wpa_supplicant_ex.Shared.Int.{pos, eqb_ℤ}
use wpa_supplicant_ex.Time.{Timestamp, os_reltime_expired}
use wpa_supplicant_ex.Kernel.{
  ◌>>=◌, K, return, is_again, SendAnswer, sent, send_failed, SelectAnswer, select_failed, ready,
  idle, RecvAnswer, datagram, recv_failed,
}
use wpa_supplicant_ex.Kernel.Calls
use wpa_supplicant_ex.Kernel.Calls.{get_reltime, sleep, select}
use wpa_supplicant_ex.Kernel.Closed.{IsClosed, closed-if}
use wpa_supplicant_ex.Api.{Reply, failed, error, timeout, Failure, Callback}
use wpa_supplicant_ex.Api.Closed.{CtrlKeeps}
use wpa_supplicant_ex.Ctrl.{
  send_loop, send_command, accept_send, refuse_send, unset, reply_loop, after_recv, deliver,
  is_unsolicited, await_reply, wpa_ctrl_request, wpa_ctrl_attach_helper, wpa_ctrl_attach,
  wpa_ctrl_recv, wpa_ctrl_pending, unix, attach_command, ten_bytes,
}
use wpa_supplicant_ex.Ctrl.Waiting.{called}

module _ (P : (A : Type 0) → K A → Type 0) (closed : IsClosed P) where
  send_loop-closed :
      (cmd : List ℕ) (t0 : Timestamp) (later : List SendAnswer) → P Bool (send_loop cmd t0 later)
  unfolding send_loop accept_send refuse_send
  send_loop-closed cmd t0 [] = closed.waits_send Bool
  send_loop-closed cmd t0 (sent ∷ later) = closed.sends_command cmd later
  send_loop-closed cmd t0 (send_failed e ∷ later) =
      closed-if P Bool (is_again e) _ _
        (closed-if P Bool (eqb_ℤ t0.sec (pos 0)) _ _
          (closed.binds Timestamp Bool get_reltime _ closed.clocks
            (λ t. slept t (send_loop-closed cmd t later)))
          (closed.binds Timestamp Bool get_reltime _ closed.clocks (λ n.
            closed-if P Bool (os_reltime_expired n t0 (pos 5)) _ _ refused
              (slept t0 (send_loop-closed cmd t0 later)))))
        refused
    where
      refused : P Bool (refuse_send later)
      refused =
          unfold refuse_send in
          closed.put_sends Bool later (return false) (closed.returns Bool false)

      slept :
          (t : Timestamp)
          → P Bool (send_loop cmd t later)
          → P Bool (sleep 1 >>= λ x. send_loop cmd t later)
      slept t rest = closed.binds (Unit {0}) Bool (sleep 1) _ (closed.sleeps 1) (λ x. rest)

  module _ (f : Callback) (shown : (msg : List ℕ) → P (Unit {0}) (called f msg)) (limit : ℕ) where
    deliver-closed : (buf : List ℕ) (res : ℕ) → P (List ℕ) (deliver f buf res limit)
    deliver-closed buf res = go f shown
      where
        go :
            (g : Callback)
            → ((msg : List ℕ) → P (Unit {0}) (called g msg))
            → P (List ℕ) (deliver g buf res limit)
        go none c = unfold deliver in closed.returns (List ℕ) buf
        go (some g) c =
            unfold deliver in
            closed.binds (Unit {0}) (List ℕ) (g _) _ (c _) (λ x. closed.returns (List ℕ) _)

    after_recv-closed :
        (buf : List ℕ) (continue : List ℕ → K Reply) (a : RecvAnswer)
        → ((b : List ℕ) → P Reply (continue b))
        → P Reply (after_recv f limit buf continue a)
    after_recv-closed buf continue (recv_failed e) go =
        unfold after_recv in closed.returns Reply (failed error)
    after_recv-closed buf continue (datagram d) go =
        unfold after_recv in
        closed-if P Reply (is_unsolicited (overwrite d buf) (length d)) _ _
          (closed.binds (List ℕ) Reply (deliver f (overwrite d buf) (length d) limit) continue
            (deliver-closed (overwrite d buf) (length d)) go)
          (closed.returns Reply _)

    reply_loop-closed :
        (buf : List ℕ) (later : List SelectAnswer) → P Reply (reply_loop f limit buf later)
    unfolding reply_loop
    reply_loop-closed buf [] = closed.waits_select Reply
    reply_loop-closed buf (select_failed ∷ later) =
        closed.put_selects Reply later (return (failed error)) (closed.returns Reply (failed error))
    reply_loop-closed buf (idle ∷ later) =
        closed.put_selects Reply later (return (failed timeout))
          (closed.returns Reply (failed timeout))
    reply_loop-closed buf (ready ∷ later) = closed.put_selects Reply later _ (
        closed.binds RecvAnswer Reply (Calls.recv limit) _ (closed.receives limit)
          (λ a. after_recv-closed buf _ a (λ b. reply_loop-closed b later)))

    pub request-closed : (cmd buf : List ℕ) → P Reply (wpa_ctrl_request cmd buf limit f)
    unfolding wpa_ctrl_request send_command await_reply
    request-closed cmd buf =
        closed.binds Bool Reply (send_command cmd) _
          (closed.by_sends Bool (send_loop cmd unset) (send_loop-closed cmd unset)) go
      where
        go : (ok : Bool) → P Reply (if ok then await_reply f limit buf else return (failed error))
        go true = closed.by_selects Reply (reply_loop f limit buf) (reply_loop-closed buf)
        go false = closed.returns Reply (failed error)

  -- The whole interface.
  pub unix-closed : CtrlKeeps P unix
  unfolding wpa_ctrl_recv wpa_ctrl_pending wpa_ctrl_attach wpa_ctrl_attach_helper
  unix-closed = record {
    request_keeps = λ cmd buf limit f c. request-closed (some f) c limit cmd buf;
    recv_keeps = λ buf limit.
        closed.binds RecvAnswer Reply (Calls.recv limit) _ (closed.receives limit)
          (λ a. closed.returns Reply _);
    pending_keeps =
        closed.binds SelectAnswer Bool select _ closed.selects (λ a. closed.returns Bool _);
    attach_keeps =
        closed.binds Reply (Option Failure)
          (wpa_ctrl_request (attach_command true) ten_bytes 10 none) _
          (request-closed none (λ msg. closed.returns (Unit {0}) tt) 10 (attach_command true)
            ten_bytes)
          (λ r. closed.returns (Option Failure) _);
  }
