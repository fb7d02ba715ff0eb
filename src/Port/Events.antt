-- ===== src/Port/Events.antt =====
-- `process_wpa` over the socket (src/wpa_ex.c with src/wpa_ctrl/wpa_ctrl.c): what the supplicant sends
-- by itself goes to Erlang.
use wpa_supplicant_ex.Shared.{
  ℕ, zero, suc, ◌<◌, ◌≡◌, refl, sym, ap, ap₂, ◌∙◌, List, [], ◌∷◌, ◌++◌, map, arith, length, take,
  overwrite, append_assoc, append-nil, length-take, length-overwrite, take-overwrite,
}
use wpa_supplicant_ex.Kernel.{
  World, returned, exited, ◌>>=◌, return, bind-at, exit_failure, WriteAnswer, SelectAnswer, ready,
  idle, select_failed, RecvAnswer, datagram, recv_failed, Errno,
}
use wpa_supplicant_ex.Kernel.Calls
use wpa_supplicant_ex.Ctrl.{unix, wpa_ctrl_pending, wpa_ctrl_recv}
use wpa_supplicant_ex.Ctrl.Attach.{pending-ready, pending-idle, pending-failed}
use wpa_supplicant_ex.Port.{
  Port, buffer_size, frame, send_to_erl, pending_loop, forward_event, process_wpa,
}
use wpa_supplicant_ex.Port.Frames.{encode}
use wpa_supplicant_ex.Port.Output.{send_to_erl-sends}
use wpa_supplicant_ex.Port.Forward.{reply_text, written, arrivals}

-- The socket is ready for each datagram, and then `select` finds nothing.
unfoldable pub drained : List (List ℕ) → List SelectAnswer → List SelectAnswer
drained [] later = idle ∷ later
drained (d ∷ ds) later = ready ∷ drained ds later

unfoldable pub all_taken : List (List ℕ) → List WriteAnswer → List WriteAnswer
all_taken [] later = later
all_taken (d ∷ ds) later = written (reply_text d) ∷ all_taken ds later

length-drained :
    (ds : List (List ℕ)) (sel : List SelectAnswer) → length ds < length (drained ds sel)
unfolding drained
length-drained [] sel = omega arith
length-drained (d ∷ ds) sel = omega (arith, length-drained ds sel)

module _ (buf d : List ℕ) (sized : length buf ≡ buffer_size) where
  shown : take (length (reply_text d)) (overwrite (reply_text d) buf) ≡ reply_text d
  shown = take-overwrite (reply_text d) buf _ refl (omega (arith, length-take buffer_size d, sized))

  -- Receiving a datagram and passing it on.
  forwarded :
      (rl : List RecvAnswer) (wl : List WriteAnswer) (w : World)
      → w.recvs ≡ datagram d ∷ rl
      → w.writes ≡ written (reply_text d) ∷ wl
      → (wpa_ctrl_recv buf buffer_size >>= forward_event unix) w
        ≡ returned
            (overwrite (reply_text d) buf)
            (record w { recvs = rl; writes = wl; stdout = w.stdout ++ frame (reply_text d) })
  unfolding forward_event wpa_ctrl_recv
  forwarded rl wl w recvs writes =
      bind-at (wpa_ctrl_recv buf buffer_size) (forward_event unix) w
        (bind-at (Calls.recv buffer_size) _ w (Calls.recv-datagram buffer_size d rl w recvs))
      ∙ ap
          (λ m.
            (send_to_erl m >>= λ _. return (overwrite (reply_text d) buf))
              (record w { recvs = rl }))
          shown
      ∙ bind-at (send_to_erl (reply_text d)) _ (record w { recvs = rl })
          (send_to_erl-sends 0 (reply_text d) wl (record w { recvs = rl }) writes)

  -- One round that finds a datagram.
  pending_loop-datagram :
      (fuel : ℕ) (sel : List SelectAnswer) (rl : List RecvAnswer) (wl : List WriteAnswer)
      (w : World)
      → w.selects ≡ ready ∷ sel
      → w.recvs ≡ datagram d ∷ rl
      → w.writes ≡ written (reply_text d) ∷ wl
      → pending_loop unix (suc fuel) buf w
        ≡ pending_loop unix fuel (overwrite (reply_text d) buf) (record w {
          selects = sel;
          recvs = rl;
          writes = wl;
          stdout = w.stdout ++ frame (reply_text d);
        })
  unfolding pending_loop
  pending_loop-datagram fuel sel rl wl w selects recvs writes =
      bind-at wpa_ctrl_pending _ w (pending-ready sel w selects)
      ∙ bind-at (wpa_ctrl_recv buf buffer_size >>= forward_event unix) _
          (record w { selects = sel }) (forwarded rl wl (record w { selects = sel }) recvs writes)

module _ (sel : List SelectAnswer) (rl : List RecvAnswer) (wl : List WriteAnswer) where
  pending_loop-forwards :
      (fuel : ℕ) (ds : List (List ℕ)) (buf : List ℕ) (w : World)
      → length ds < fuel
      → length buf ≡ buffer_size
      → w.selects ≡ drained ds sel
      → w.recvs ≡ arrivals ds rl
      → w.writes ≡ all_taken ds wl
      → (buf' : List ℕ) × (length buf' ≡ buffer_size)
        × (pending_loop unix fuel buf w
            ≡ returned buf' (record w {
              selects = sel;
              recvs = rl;
              writes = wl;
              stdout = w.stdout ++ encode (map reply_text ds);
            }))
  unfolding drained all_taken arrivals encode pending_loop
  pending_loop-forwards zero ds buf w enough sized selects recvs writes = absurd (omega arith)
  pending_loop-forwards (suc fuel) [] buf w enough sized selects recvs writes = (
    buf,
    sized,
    bind-at wpa_ctrl_pending _ w (pending-idle sel w selects)
        ∙ ap₂ (λ rs ws. returned buf (record w { selects = sel; recvs = rs; writes = ws })) recvs
            writes
        ∙ ap
            (λ out.
              returned buf (record w { selects = sel; recvs = rl; writes = wl; stdout = out }))
            (sym (append-nil w.stdout)),
  )
  pending_loop-forwards (suc fuel) (d ∷ ds) buf w enough sized selects recvs writes =
      let rest =
        pending_loop-forwards fuel ds (overwrite (reply_text d) buf)
          (record w {
            selects = drained ds sel;
            recvs = arrivals ds rl;
            writes = all_taken ds wl;
            stdout = w.stdout ++ frame (reply_text d);
          })
          (omega arith) (length-overwrite (reply_text d) buf ∙ sized) refl refl refl in
      (
        rest.0,
        rest.1,
        pending_loop-datagram buf d sized fuel (drained ds sel) (arrivals ds rl) (all_taken ds wl) w
              selects recvs writes
            ∙ rest.2
            ∙ ap
                (λ out.
                  returned rest.0
                    (record w { selects = sel; recvs = rl; writes = wl; stdout = out }))
                (append_assoc w.stdout (frame (reply_text d)) (encode (map reply_text ds))),
      )

  -- While standard output takes all it is given, `process_wpa` returns once the socket is drained, and
  -- every datagram that was there has gone to Erlang in order, cut to the buffer and in a frame of its
  -- own; the bytes pending from Erlang are as before.
  pub process_wpa-forwards :
      (p : Port) (ds : List (List ℕ)) (w : World)
      → length p.wpa_buffer ≡ buffer_size
      → w.selects ≡ drained ds sel
      → w.recvs ≡ arrivals ds rl
      → w.writes ≡ all_taken ds wl
      → (buf' : List ℕ) × (length buf' ≡ buffer_size)
        × (process_wpa unix p w
            ≡ returned
                (record p { wpa_buffer = buf' })
                (record w {
                  selects = sel;
                  recvs = rl;
                  writes = wl;
                  stdout = w.stdout ++ encode (map reply_text ds);
                }))
  unfolding process_wpa
  process_wpa-forwards p ds w sized selects recvs writes =
      let loop =
        pending_loop-forwards (suc (length w.selects)) ds p.wpa_buffer w
          (omega (arith, ap length selects, length-drained ds sel)) sized selects recvs writes in
      (loop.0, loop.1, bind-at (pending_loop unix (suc (length w.selects)) p.wpa_buffer) _ w loop.2)

-- A `select` that fails is taken for a message: if then nothing can be received, the process exits.
pub process_wpa-interrupted :
    (p : Port) (e : Errno) (sel : List SelectAnswer) (rl : List RecvAnswer) (w : World)
    → w.selects ≡ select_failed ∷ sel
    → w.recvs ≡ recv_failed e ∷ rl
    → process_wpa unix p w
      ≡ exited (exit_failure "wpa_ctrl_recv") (record w { selects = sel; recvs = rl })
unfolding process_wpa pending_loop wpa_ctrl_recv forward_event
process_wpa-interrupted p e sel rl w selects recvs =
    bind-at (pending_loop unix (suc (length w.selects)) p.wpa_buffer) _ w (
      bind-at wpa_ctrl_pending _ w (pending-failed sel w selects)
      ∙ bind-at (wpa_ctrl_recv p.wpa_buffer buffer_size >>= forward_event unix) _ asked (
          bind-at (wpa_ctrl_recv p.wpa_buffer buffer_size) (forward_event unix) asked (
            bind-at (Calls.recv buffer_size) _ asked
              (Calls.recv-failed buffer_size e rl asked recvs))))
  where
    asked : World
    asked = record w { selects = sel }
