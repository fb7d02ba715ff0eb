-- ===== src/Api.antt =====
-- The control interface as its clients see it (src/wpa_ctrl/wpa_ctrl.h): the port program takes
-- these operations as a parameter, and `Ctrl` gives the ones over a UNIX domain socket.
pub mod Laws
pub mod Effects
pub mod Closed
use wpa_supplicant_ex.Shared.{ℕ, Bool, List, Option}
use wpa_supplicant_ex.Kernel.{K}

-- The negative results, -1 and -2.
pub data Failure : Type 0 where
  error timeout : Failure

-- A call that fills a reply buffer: the buffer with the length written to `*reply_len`, or the
-- negative result. (No caller looks at the buffer after a failure.)
pub data Reply : Type 0 where
  replied : List ℕ → ℕ → Reply
  failed : Failure → Reply

-- `void (*msg_cb)(char *msg, size_t len)`, which may be NULL; the list is `msg[0..len)`.
abbrev pub Callback : Type 0
Callback = Option (List ℕ → K (Unit {0}))

pub record CtrlApi : Type 0 where
  -- the command, the reply buffer, `*reply_len`, `msg_cb`
  pub request : List ℕ → List ℕ → ℕ → Callback → K Reply
  -- the reply buffer and `*reply_len`
  pub recv : List ℕ → ℕ → K Reply
  pub pending : K Bool
  -- `none` is the result 0
  pub attach : K (Option Failure)
