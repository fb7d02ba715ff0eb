-- ===== src/Ctrl.antt =====
-- src/wpa_ctrl/wpa_ctrl.c over a UNIX domain socket: requests, attaching, receiving. The socket
-- itself is the kernel's side of `World`.
pub mod Exchange
pub mod Sending
pub mod Attach
pub mod Within
pub mod Waiting
pub mod Quiet
pub mod Patience
pub mod Effects
pub mod Closed
use wpa_supplicant_ex.Shared.{
  ℕ, zero, suc, ◌+◌, ◌-◌, Bool, true, false, ◌&&◌, List, [], ◌∷◌, ◌++◌, Option, none, some, ltb,
  ◌==◌, if◌then◌else◌, length, get_or, set, take, overwrite, replicate,
}
use wpa_supplicant_ex.Shared.Int.{ℤ, pos, eqb_ℤ}
use wpa_supplicant_ex.Time.{Timestamp, os_reltime_expired}
use wpa_supplicant_ex.Kernel.{
  World, K, Outcome, returned, exited, waiting, spent, ◌>>=◌, ◌>>◌, return, is_again, Errno,
  SendAnswer, sent, send_failed, SelectAnswer, select_failed, ready, idle, RecvAnswer, datagram,
  recv_failed,
}
use wpa_supplicant_ex.Kernel.Calls
use wpa_supplicant_ex.Kernel.Calls.{select, get_reltime, sleep}
use wpa_supplicant_ex.Api.{Failure, error, timeout, Reply, replied, failed, Callback, CtrlApi}

-- `send` went through.
pub accept_send : List ℕ → List SendAnswer → K Bool
accept_send cmd later w =
    returned true (record w { sends = later; commands = w.commands ++ (cmd ∷ []) })

-- `send_err`
pub refuse_send : List SendAnswer → K Bool
refuse_send later w = returned false (record w { sends = later })

abbrev pub unset : Timestamp
unset = record { sec = pos 0; usec = pos 0 }

-- From `retry_send` on: `true` when the datagram went out. `started_at` is 0 until the first
-- refusal.
pub send_loop : List ℕ → Timestamp → List SendAnswer → K Bool
send_loop cmd started_at [] w = waiting (record w { sends = [] })
send_loop cmd started_at (sent ∷ later) w = accept_send cmd later w
send_loop cmd started_at (send_failed e ∷ later) w =
    let start = get_reltime >>= λ t. sleep 1 >>= λ _. send_loop cmd t later in
    let again = get_reltime >>= λ n.
    if os_reltime_expired n started_at (pos 5)
    then refuse_send later
    else (sleep 1 >>= λ _. send_loop cmd started_at later) in
    (if is_again e
        then (if eqb_ℤ started_at.sec (pos 0) then start else again)
        else refuse_send later)
      w

pub send_command : List ℕ → K Bool
unfolding send_loop accept_send refuse_send is_again get_reltime sleep os_reltime_expired
send_command cmd w = send_loop cmd unset w.sends w

-- `msg_cb(reply, res)` with its guards, for a message of `res` bytes in a buffer of `reply_len`.
-- The first value is the buffer after the terminating NUL.
pub deliver : Callback → List ℕ → ℕ → ℕ → K (List ℕ)
deliver none reply res reply_len = return reply
deliver (some msg_cb) reply res reply_len =
    let res' : ℕ = if res == reply_len then reply_len - 1 else res in
    let reply' : List ℕ = set reply res' 0 in msg_cb (take res' reply') >>= λ _. return reply'

-- `res > 0 && reply[0] == '<'`
pub is_unsolicited : List ℕ → ℕ → Bool
is_unsolicited reply res = ltb 0 res && (get_or reply 0 0 == b'<')

-- The loop's body after `recv`, with `continue` as its next round.
pub after_recv : Callback → ℕ → List ℕ → (List ℕ → K Reply) → RecvAnswer → K Reply
after_recv msg_cb reply_len reply continue (recv_failed e) = return (failed error)
after_recv msg_cb reply_len reply continue (datagram xs) =
    let res = length xs in
    let reply' = overwrite xs reply in
    if is_unsolicited reply' res
    then (deliver msg_cb reply' res reply_len >>= continue)
    else return (replied reply' res)

-- The `for (;;)`, a round for each answer of `select`; `reply` is the caller's buffer.
pub reply_loop : Callback → ℕ → List ℕ → List SelectAnswer → K Reply
reply_loop msg_cb reply_len reply [] w = waiting (record w { selects = [] })
reply_loop msg_cb reply_len reply (select_failed ∷ later) w =
    returned (failed error) (record w { selects = later })
reply_loop msg_cb reply_len reply (idle ∷ later) w =
    returned (failed timeout) (record w { selects = later })
reply_loop msg_cb reply_len reply (ready ∷ later) w =
    let continue = λ (r : List ℕ). λ (w' : World). reply_loop msg_cb reply_len r later w' in
    (Calls.recv reply_len >>= after_recv msg_cb reply_len reply continue)
      (record w { selects = later })

pub await_reply : Callback → ℕ → List ℕ → K Reply
unfolding reply_loop after_recv is_unsolicited deliver Calls.recv
await_reply msg_cb reply_len reply w = reply_loop msg_cb reply_len reply w.selects w

unfoldable pub wpa_ctrl_request : List ℕ → List ℕ → ℕ → Callback → K Reply
unfolding send_command await_reply
wpa_ctrl_request cmd reply reply_len msg_cb = send_command cmd >>= λ ok.
    if ok then await_reply msg_cb reply_len reply else return (failed error)

abbrev pub attach_command : Bool → List ℕ
attach_command true = b'A' ∷ b'T' ∷ b'T' ∷ b'A' ∷ b'C' ∷ b'H' ∷ []
attach_command false = b'D' ∷ b'E' ∷ b'T' ∷ b'A' ∷ b'C' ∷ b'H' ∷ []

-- `len == 3 && os_memcmp(buf, "OK\n", 3) == 0`
pub is_ok : List ℕ → ℕ → Bool
is_ok buf len =
    (len == 3) && ((get_or buf 0 0 == b'O') && ((get_or buf 1 0 == b'K') && (get_or buf 2 0 == 10)))

pub attach_result : Reply → Option Failure
unfolding is_ok
attach_result (failed e) = some e
attach_result (replied buf len) = if is_ok buf len then none else some error

-- `buf` is uninitialised in the source: any ten bytes.
pub wpa_ctrl_attach_helper : List ℕ → Bool → K (Option Failure)
unfolding wpa_ctrl_request attach_result
wpa_ctrl_attach_helper buf attach =
    wpa_ctrl_request (attach_command attach) buf 10 none >>= λ r. return (attach_result r)

abbrev pub ten_bytes : List ℕ
ten_bytes = replicate 10 0

unfoldable pub wpa_ctrl_attach : K (Option Failure)
unfolding wpa_ctrl_attach_helper
wpa_ctrl_attach = wpa_ctrl_attach_helper ten_bytes true

unfoldable pub wpa_ctrl_detach : K (Option Failure)
unfolding wpa_ctrl_attach_helper
wpa_ctrl_detach = wpa_ctrl_attach_helper ten_bytes false

received : List ℕ → RecvAnswer → Reply
received reply (recv_failed e) = failed error
received reply (datagram xs) = replied (overwrite xs reply) (length xs)

unfoldable pub wpa_ctrl_recv : List ℕ → ℕ → K Reply
unfolding Calls.recv received
wpa_ctrl_recv reply reply_len = Calls.recv reply_len >>= λ r. return (received reply r)

-- An `fd_set`, as far as it is about the connection's descriptor.
abbrev pub FdSet : Type 0
FdSet = Bool

abbrev pub fd_zero : FdSet
fd_zero = false

-- `FD_SET` and `FD_ISSET` of the descriptor.
abbrev pub fd_set : FdSet → FdSet
fd_set rfds = true

abbrev pub fd_isset : FdSet → Bool
fd_isset rfds = rfds

-- What `select` makes of the set, as POSIX has it: a descriptor without a message is taken out, and on
-- an error the set is left as it was.
abbrev pub select_fds : SelectAnswer → FdSet → FdSet
select_fds ready rfds = rfds
select_fds idle rfds = fd_zero
select_fds select_failed rfds = rfds

-- The set that `wpa_ctrl_pending` makes, behind its `select`.
pub is_set : SelectAnswer → Bool
is_set a = fd_isset (select_fds a (fd_set fd_zero))

unfoldable pub wpa_ctrl_pending : K Bool
unfolding select is_set
wpa_ctrl_pending = select >>= λ a. return (is_set a)

abbrev pub unix : CtrlApi
unix = record {
  request = wpa_ctrl_request;
  recv = wpa_ctrl_recv;
  pending = wpa_ctrl_pending;
  attach = wpa_ctrl_attach;
}
