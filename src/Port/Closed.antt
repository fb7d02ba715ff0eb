-- ===== src/Port/Closed.antt =====
-- A property of computations that the system calls and the control interface have, and that `send_to_erl`
-- has, holds of everything that a round of src/wpa_ex.c does.
use wpa_supplicant_ex.Shared.{
  ℕ, zero, suc, ◌+◌, ◌-◌, ◌==◌, ltb, ◌||◌, List, [], ◌∷◌, some, if◌then◌else◌, length, take, drop,
  put_at,
}
use wpa_supplicant_ex.Kernel.{
  K, ◌>>=◌, return, exit_success, exit_failure, is_eintr, ReadAnswer, bytes, read_failed,
  PollAnswer, polled, poll_failed,
}
use wpa_supplicant_ex.Kernel.Calls
use wpa_supplicant_ex.Kernel.Closed.{IsClosed, closed-if}
use wpa_supplicant_ex.Api.{CtrlApi, Reply, replied, failed}
use wpa_supplicant_ex.Api.Closed.{CtrlKeeps}
use wpa_supplicant_ex.Port.{
  Port, buffer_size, msglen, send_to_erl, forward_reply, do_wpa_request, try_dispatch, shift,
  after_dispatch, dispatch_loop, dispatch_fuel, receive, after_read, process_erl, forward_event,
  pending_loop, process_wpa, poll_round,
}

module _ (P : (A : Type 0) → K A → Type 0) (closed : IsClosed P) (api : CtrlApi)
    (calls : CtrlKeeps P api) (sends : (msg : List ℕ) → P (Unit {0}) (send_to_erl msg)) where
  passes : (b : List ℕ) (n : ℕ) → P (List ℕ) (send_to_erl (take n b) >>= λ x. return b)
  passes b n =
      closed.binds (Unit {0}) (List ℕ) (send_to_erl (take n b)) _ (sends (take n b))
        (λ x. closed.returns (List ℕ) b)

  do_wpa_request-closed : (cmd buf : List ℕ) → P (List ℕ) (do_wpa_request api cmd buf)
  unfolding do_wpa_request
  do_wpa_request-closed cmd buf =
      closed.binds Reply (List ℕ) (api.request cmd buf buffer_size (some send_to_erl))
        (forward_reply api) (calls.request_keeps cmd buf buffer_size send_to_erl sends) forward
    where
      forward : (r : Reply) → P (List ℕ) (forward_reply api r)
      forward (failed e) = unfold forward_reply in closed.exits (List ℕ) _
      forward (replied b n) = unfold forward_reply in passes b n

  try_dispatch-closed : (p : Port) → P (ℕ × Port) (try_dispatch api p)
  unfolding try_dispatch
  try_dispatch-closed p =
      closed-if P (ℕ × Port) (ltb p.erl_buffer_ix 2) _ _ (closed.returns (ℕ × Port) (0, p)) (
        closed-if P (ℕ × Port) (ltb buffer_size (msglen p.erl_buffer + 2)) _ _
          (closed.exits (ℕ × Port) (exit_failure "Message too long"))
          (closed-if P (ℕ × Port) (ltb p.erl_buffer_ix (msglen p.erl_buffer + 2)) _ _
            (closed.returns (ℕ × Port) (0, p))
            (closed.binds (List ℕ) (ℕ × Port)
              (do_wpa_request api (take (msglen p.erl_buffer) (drop 2 p.erl_buffer)) p.wpa_buffer) _
              (do_wpa_request-closed _ _) (λ b. closed.returns (ℕ × Port) _))))

  after_dispatch-closed :
      (again : Port → K Port) (r : ℕ × Port)
      → ((p : Port) → P Port (again p))
      → P Port (after_dispatch again r)
  unfolding after_dispatch
  after_dispatch-closed again (n, p) c =
      closed-if P Port (n == 0) _ _ (closed.returns Port p)
        (closed-if P Port (ltb n p.erl_buffer_ix) _ _ (c (shift n p)) (closed.returns Port _))

  dispatch_loop-closed : (fuel : ℕ) (p : Port) → P Port (dispatch_loop api fuel p)
  unfolding dispatch_loop
  dispatch_loop-closed zero p = closed.spends Port
  dispatch_loop-closed (suc fuel) p =
      closed.binds (ℕ × Port) Port (try_dispatch api p) _ (try_dispatch-closed p)
        (λ r. after_dispatch-closed _ r (λ q. dispatch_loop-closed fuel q))

  after_read-closed : (p : Port) (a : ReadAnswer) → P Port (after_read api p a)
  unfolding after_read receive
  after_read-closed p (read_failed e) =
      closed-if P Port (is_eintr e) _ _ (closed.returns Port p)
        (closed.exits Port (exit_failure "read"))
  after_read-closed p (bytes []) = closed.exits Port exit_success
  after_read-closed p (bytes (x ∷ xs)) = dispatch_loop-closed dispatch_fuel (record p {
    erl_buffer_ix = p.erl_buffer_ix + length (x ∷ xs);
    erl_buffer = put_at p.erl_buffer_ix (x ∷ xs) p.erl_buffer;
  })

  process_erl-closed : (p : Port) → P Port (process_erl api p)
  unfolding process_erl
  process_erl-closed p =
      closed.binds ReadAnswer Port (Calls.read (buffer_size - p.erl_buffer_ix)) (after_read api p)
        (closed.reads (buffer_size - p.erl_buffer_ix)) (after_read-closed p)

  forward_event-closed : (r : Reply) → P (List ℕ) (forward_event api r)
  unfolding forward_event
  forward_event-closed (failed e) = closed.exits (List ℕ) (exit_failure "wpa_ctrl_recv")
  forward_event-closed (replied b n) = passes b n

  pending_loop-closed : (fuel : ℕ) (buf : List ℕ) → P (List ℕ) (pending_loop api fuel buf)
  unfolding pending_loop
  pending_loop-closed zero buf = closed.spends (List ℕ)
  pending_loop-closed (suc fuel) buf =
      closed.binds _ (List ℕ) api.pending _ calls.pending_keeps (λ more.
        closed-if P (List ℕ) more _ _
          (closed.binds (List ℕ) (List ℕ) (api.recv buf buffer_size >>= forward_event api) _
            (closed.binds Reply (List ℕ) (api.recv buf buffer_size) (forward_event api)
              (calls.recv_keeps buf buffer_size) forward_event-closed)
            (λ b. pending_loop-closed fuel b))
          (closed.returns (List ℕ) buf))

  process_wpa-closed : (p : Port) → P Port (process_wpa api p)
  unfolding process_wpa
  process_wpa-closed p =
      closed.by_selects Port
        (λ s. pending_loop api (suc (length s)) p.wpa_buffer >>= λ buf.
          return (record p { wpa_buffer = buf }))
        (λ s.
          closed.binds (List ℕ) Port (pending_loop api (suc (length s)) p.wpa_buffer) _
            (pending_loop-closed (suc (length s)) p.wpa_buffer)
            (λ buf. closed.returns Port (record p { wpa_buffer = buf })))

  pub poll_round-closed : (a : PollAnswer) (p : Port) → P Port (poll_round api a p)
  unfolding poll_round
  poll_round-closed (poll_failed e) p =
      closed-if P Port (is_eintr e) _ _ (closed.returns Port p)
        (closed.exits Port (exit_failure "poll"))
  poll_round-closed (polled erl wpa) p =
      closed.binds Port Port (if erl.pollin || erl.pollhup then process_erl api p else return p) _
        (closed-if P Port (erl.pollin || erl.pollhup) _ _ (process_erl-closed p)
          (closed.returns Port p))
        (λ q. closed-if P Port wpa.pollin _ _ (process_wpa-closed q) (closed.returns Port q))
