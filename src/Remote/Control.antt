-- ===== src/Remote/Control.antt =====
-- The port over the control interface over UDP (src/wpa_ctrl/wpa_ctrl.c): what it relies on holds there too.
use wpa_supplicant_ex.Shared.{ℕ, Bool, true, List, Option, none, some, length}
use wpa_supplicant_ex.Kernel.{World, K}
use wpa_supplicant_ex.Kernel.Post.{Post, Ends, Post->>=}
use wpa_supplicant_ex.Kernel.Traffic.{traffic, stream, Leaves}
use wpa_supplicant_ex.Kernel.Signals.{IsCalm, IsCalm-closed}
use wpa_supplicant_ex.Api.{Reply, failed, error, Failure}
use wpa_supplicant_ex.Api.Laws.{CtrlLaws, IsReplyIn}
use wpa_supplicant_ex.Api.Effects.{CtrlEffects, IsAnswer, IsUntouched}
use wpa_supplicant_ex.Api.Closed.{CtrlKeeps}
use wpa_supplicant_ex.Ctrl.{attach_command, ten_bytes}
use wpa_supplicant_ex.Ctrl.Attach.{ok_text}
use wpa_supplicant_ex.Ctrl.Within.{unix_laws, quiet_request-Ends}
use wpa_supplicant_ex.Ctrl.Effects.{
  unix_effects, AttachAnswer, untouched, attach_request-effects, attaching-effects,
}
use wpa_supplicant_ex.Ctrl.Closed.{unix-closed, request-closed}
use wpa_supplicant_ex.Kernel.Closed.{IsClosed}
use wpa_supplicant_ex.Port.{main}
use wpa_supplicant_ex.Port.Signals.{main-IsCalm}
use wpa_supplicant_ex.Port.Frames.{AllBytes}
use wpa_supplicant_ex.Port.Always.{KeepsAccount, main-KeepsAccount}
use wpa_supplicant_ex.Remote.{UdpCtrl, with_cookie, request_udp, attach_udp, udp}
use wpa_supplicant_ex.Remote.Requests.{request_udp-cases}

module _ (malloc : List ℕ → Bool) (ctrl : UdpCtrl) where
  pub udp_laws : CtrlLaws (udp malloc ctrl)
  unfolding attach_udp
  udp_laws = record {
    request_within = λ cmd buf limit f w ends.
        request_udp-cases (λ m. Post (λ r u. IsReplyIn (length buf) limit r) (m w)) (malloc cmd)
          ctrl cmd buf limit (some f)
          (unix_laws.request_within (with_cookie ctrl.cookie cmd) buf limit f w ends) tt;
    recv_within = unix_laws.recv_within;
    pending_polls = unix_laws.pending_polls;
    attach_ends = λ w.
        Post->>= (λ r u. Unit) (λ a u. Unit)
          (request_udp (malloc (attach_command true)) ctrl (attach_command true) ten_bytes 10 none)
          _ w
          (request_udp-cases (λ m. Ends (m w)) (malloc (attach_command true)) ctrl
            (attach_command true) ten_bytes 10 none
            (quiet_request-Ends (with_cookie ctrl.cookie (attach_command true)) ten_bytes 10 w) tt)
          (λ r u h. tt);
  }

  -- What goes out for a command.
  abbrev pub wire : List ℕ → List ℕ
  wire cmd = with_cookie ctrl.cookie cmd

  pub udp_effects : CtrlEffects (udp malloc ctrl) wire (wire (attach_command true)) ok_text
  unfolding attach_udp
  udp_effects = record {
    request_effects = λ I E cmd buf limit f w positive sized stops e i shows.
        request_udp-cases (λ m. Leaves (IsAnswer I E limit) E (m w)) (malloc cmd) ctrl cmd buf limit
          (some f)
          (unix_effects.request_effects I E (wire cmd) buf limit f w positive sized stops e i shows)
          e;
    recv_effects = unix_effects.recv_effects;
    pending_effects = unix_effects.pending_effects;
    attach_effects = λ w.
        attaching-effects (wire (attach_command true)) w
          (request_udp (malloc (attach_command true)) ctrl (attach_command true) ten_bytes 10 none)
          (request_udp-cases
            (λ m.
              Leaves (AttachAnswer (wire (attach_command true)) w)
                (IsUntouched (wire (attach_command true)) (traffic w)) (m w))
            (malloc (attach_command true)) ctrl (attach_command true) ten_bytes 10 none
            (attach_request-effects (wire (attach_command true)) w)
            (untouched (wire (attach_command true)) w));
  }

  -- A property of computations that the system calls have.
  pub udp-closed : (P : (A : Type 0) → K A → Type 0) → IsClosed P → CtrlKeeps P (udp malloc ctrl)
  unfolding attach_udp
  udp-closed P closed = record {
    request_keeps = λ cmd buf limit f c.
        request_udp-cases (P Reply) (malloc cmd) ctrl cmd buf limit (some f)
          ((unix-closed P closed).request_keeps (wire cmd) buf limit f c)
          (closed.returns Reply (failed error));
    recv_keeps = (unix-closed P closed).recv_keeps;
    pending_keeps = (unix-closed P closed).pending_keeps;
    attach_keeps =
        closed.binds Reply (Option Failure)
          (request_udp (malloc (attach_command true)) ctrl (attach_command true) ten_bytes 10 none)
          _
          (request_udp-cases (P Reply) (malloc (attach_command true)) ctrl (attach_command true)
            ten_bytes 10 none
            (request-closed P closed none (λ msg. closed.returns (Unit {0}) tt) 10
              (wire (attach_command true)) ten_bytes)
            (closed.returns Reply (failed error)))
          (λ r. closed.returns (Option Failure) _);
  }

  -- The port over UDP from an open connection on, with any arguments, whatever memory there is for commands and whatever the
  -- kernel, the supplicant and Erlang do, if what Erlang sends are bytes: it never returns from `main`,
  -- it exits or waits for the kernel. Wherever that is, either nothing has been read or written, and
  -- nothing but `ATTACH` behind the cookie, if there is one, can have gone out; or that has gone out and
  -- `OK` has come back behind some events. From there on the commands that have gone out, each behind
  -- the cookie, are the first messages of the stream from Erlang, each once and in order; and Erlang has
  -- got each datagram that was taken from the socket, in order, cut to the buffers and in a frame of its
  -- own, of which at most the last is not complete, and nothing else. After an exit with success the
  -- last frame is complete too, and what has been read of the stream behind those messages is at most
  -- the beginning of another.
  pub main-udp-KeepsAccount :
      {Ctrl : Type 0} (argc : ℕ) (opened : Option Ctrl) (w : World)
      → AllBytes (stream w.reads)
      → KeepsAccount wire
          (wire (attach_command true))
          ok_text
          (traffic w)
          (main (udp malloc ctrl) argc opened w)
  main-udp-KeepsAccount argc opened w all =
      main-KeepsAccount (udp malloc ctrl) udp_effects udp_laws argc opened w all

  -- Signals that interrupt `writev` or `poll` change nothing there either.
  pub main-udp-IsCalm :
      {Ctrl : Type 0} (argc : ℕ) (opened : Option Ctrl)
      → IsCalm (main (udp malloc ctrl) argc opened)
  main-udp-IsCalm argc opened =
      main-IsCalm (udp malloc ctrl) (udp-closed (λ A m. IsCalm m) IsCalm-closed) argc opened
