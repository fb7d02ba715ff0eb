-- ===== src/Port.antt =====
-- src/wpa_ex.c: the port program between Erlang (standard input and output, two-byte length
-- prefixes) and the control interface, which is the parameter `api`. The process's statics
-- `erl_buffer`, `erl_buffer_ix` and `wpa_buffer` are the record `Port`.
pub mod Frames
pub mod Dispatch
pub mod Serving
pub mod Delivery
pub mod Output
pub mod Forward
pub mod Events
pub mod Bounds
pub mod Total
pub mod Reach
pub mod Script
pub mod Serial
pub mod Rounds
pub mod EndToEnd
pub mod Whole
pub mod Account
pub mod Always
pub mod Closed
pub mod Signals
pub mod Asking
use Prim.Native.String.{String}
use wpa_supplicant_ex.Shared.{
  ℕ, zero, suc, ◌+◌, ◌-◌, ◌*◌, ◌/◌, ◌%◌, ◌^◌, Bool, true, false, ◌||◌, List, [], ◌∷◌, ◌++◌, Option,
  none, some, ltb, leb, ◌==◌, if◌then◌else◌, length, get_or, take, drop, put_at, replicate,
}
use wpa_supplicant_ex.Kernel.{
  World, K, Outcome, returned, exited, waiting, spent, ◌>>=◌, ◌>>◌, return, exit_with, exit_success,
  exit_failure, Errno, is_eintr, ReadAnswer, bytes, read_failed, WriteAnswer, wrote, write_failed,
  PollAnswer, polled, poll_failed, Revents,
}
use wpa_supplicant_ex.Kernel.Calls
use wpa_supplicant_ex.Api.{Reply, replied, failed, CtrlApi}

abbrev pub buffer_size : ℕ
buffer_size = 2048

pub record Port : Type 0 where
  pub erl_buffer_ix : ℕ
  pub erl_buffer : List ℕ
  pub wpa_buffer : List ℕ

-- The statics at the start.
abbrev pub fresh_port : Port
fresh_port = record {
  erl_buffer_ix = 0;
  erl_buffer = replicate buffer_size 0;
  wpa_buffer = replicate buffer_size 0;
}

-- The bytes of `htons(len)`, of which `uint16_t` keeps the low sixteen bits.
abbrev pub be_len : ℕ → List ℕ
be_len len = len % 2 ^ 16 / 256 ∷ len % 256 ∷ []

-- `ntohs` of the first two bytes.
abbrev pub msglen : List ℕ → ℕ
msglen buf = get_or buf 0 0 * 256 + get_or buf 1 0

-- The two buffers of `writev`, one behind the other.
abbrev pub frame : List ℕ → List ℕ
frame msg = be_len (length msg) ++ msg

pub write_loop : List ℕ → List WriteAnswer → K (Unit {0})
write_loop msg [] w = waiting (record w { writes = [] })
write_loop msg (write_failed e ∷ later) w =
    if is_eintr e
    then write_loop msg later w
    else exited (exit_failure "writev") (record w { writes = later })
write_loop msg (wrote amount ∷ later) w =
    let w' = record w { writes = later; stdout = w.stdout ++ take amount (frame msg) } in
    if amount == length msg + 2
    then returned tt w'
    else exited (exit_failure "not enough bytes written") w'

pub send_to_erl : List ℕ → K (Unit {0})
unfolding write_loop is_eintr
send_to_erl msg w = write_loop msg w.writes w

-- `memmove(erl_buffer, &erl_buffer[n], erl_buffer_ix - n)` with `erl_buffer_ix -= n`.
pub shift : ℕ → Port → Port
shift n p = record p {
  erl_buffer_ix = p.erl_buffer_ix - n;
  erl_buffer = put_at 0 (take (p.erl_buffer_ix - n) (drop n p.erl_buffer)) p.erl_buffer;
}

-- The loop's three cases for the number of bytes processed.
pub after_dispatch : (Port → K Port) → ℕ × Port → K Port
unfolding shift
after_dispatch again (n, p) =
    if n == 0
    then return p
    else (if ltb n p.erl_buffer_ix
        then again (shift n p)
        else return (record p { erl_buffer_ix = 0 }))

-- Every round with a successor takes two bytes at least.
abbrev pub dispatch_fuel : ℕ
dispatch_fuel = 1025

module _ (api : CtrlApi) where
  -- The buffer afterwards is the first value.
  pub forward_reply : Reply → K (List ℕ)
  forward_reply (failed e) = exit_with (exit_failure "wpa_ctrl_request")
  forward_reply (replied buf reply_len) = send_to_erl (take reply_len buf) >>= λ _. return buf

  pub do_wpa_request : List ℕ → List ℕ → K (List ℕ)
  unfolding forward_reply send_to_erl
  do_wpa_request cmd wpa_buffer =
      api.request cmd wpa_buffer buffer_size (some send_to_erl) >>= forward_reply

  -- The number of bytes processed, and the statics afterwards.
  pub try_dispatch : Port → K (ℕ × Port)
  unfolding do_wpa_request
  try_dispatch p =
      if ltb p.erl_buffer_ix 2
      then return (0, p)
      else (let n = msglen p.erl_buffer in
          if ltb buffer_size (n + 2)
          then exit_with (exit_failure "Message too long")
          else (if ltb p.erl_buffer_ix (n + 2)
              then return (0, p)
              else (do_wpa_request (take n (drop 2 p.erl_buffer)) p.wpa_buffer >>= λ buf.
                  return (n + 2, record p { wpa_buffer = buf }))))

  -- The `for (;;)` of `process_erl`, a round for each unit of fuel.
  pub dispatch_loop : ℕ → Port → K Port
  dispatch_loop zero p w = spent
  dispatch_loop (suc fuel) p w =
      let again = λ (p' : Port) (w' : World). dispatch_loop fuel p' w' in
      (try_dispatch p >>= after_dispatch again) w

  -- `erl_buffer_ix += amount_read` behind a `read` to that place, and the loop.
  pub receive : Port → List ℕ → K Port
  unfolding dispatch_loop try_dispatch after_dispatch
  receive p xs = dispatch_loop dispatch_fuel (record p {
    erl_buffer_ix = p.erl_buffer_ix + length xs;
    erl_buffer = put_at p.erl_buffer_ix xs p.erl_buffer;
  })

  pub after_read : Port → ReadAnswer → K Port
  after_read p (read_failed e) = if is_eintr e then return p else exit_with (exit_failure "read")
  after_read p (bytes []) = exit_with exit_success
  after_read p (bytes (x ∷ xs)) = receive p (x ∷ xs)

  pub process_erl : Port → K Port
  unfolding after_read receive is_eintr
  process_erl p = Calls.read (buffer_size - p.erl_buffer_ix) >>= after_read p

  pub forward_event : Reply → K (List ℕ)
  forward_event (failed e) = exit_with (exit_failure "wpa_ctrl_recv")
  forward_event (replied buf reply_len) = send_to_erl (take reply_len buf) >>= λ _. return buf

  -- `while (wpa_ctrl_pending(ctrl))`
  pub pending_loop : ℕ → List ℕ → K (List ℕ)
  pending_loop zero wpa_buffer w = spent
  pending_loop (suc fuel) wpa_buffer w =
      (api.pending >>= λ more.
      if more
      then (api.recv wpa_buffer buffer_size >>= forward_event >>= λ buf.
          λ w'. pending_loop fuel buf w')
      else return wpa_buffer)
        w

  -- Every round takes an answer of `select`.
  pub process_wpa : Port → K Port
  unfolding pending_loop forward_event send_to_erl
  process_wpa p w =
      (pending_loop (suc (length w.selects)) p.wpa_buffer >>= λ buf.
      return (record p { wpa_buffer = buf }))
        w

  -- What the main loop does for one answer of `poll`.
  unfoldable pub poll_round : PollAnswer → Port → K Port
  unfolding process_erl process_wpa
  poll_round (poll_failed e) p = if is_eintr e then return p else exit_with (exit_failure "poll")
  poll_round (polled erl wpa) p =
      (if erl.pollin || erl.pollhup then process_erl p else return p) >>= λ p'.
      if wpa.pollin then process_wpa p' else return p'

  -- The `for (;;)` of `main`.
  pub main_loop : List PollAnswer → Port → K (Unit {0})
  unfolding poll_round
  main_loop [] p w = waiting (record w { polls = [] })
  main_loop (a ∷ later) p w =
      (poll_round a p >>= λ p'. λ w'. main_loop later p' w') (record w { polls = later })

  -- `main` once `wpa_ctrl_open` has given `ctrl`.
  pub main_attached : K (Unit {0})
  unfolding main_loop
  main_attached = api.attach >>= λ r. elim r [
    | some e ↦ exit_with (exit_failure "wpa_ctrl_attach")
    | none ↦ λ w. main_loop w.polls fresh_port w
  ]

  -- `main` for the result of `wpa_ctrl_open(argv[1])`.
  pub main {ℓ} : {Ctrl : Type ℓ} → ℕ → Option Ctrl → K (Unit {0})
  unfolding main_attached
  main argc ctrl =
      if argc == 2
      then (elim ctrl [ none ↦ exit_with (exit_failure "Couldn't open") | some c ↦ main_attached ])
      else exit_with (exit_failure "<path to supplicant control pipe>")
