-- ===== src/Port/Output.antt =====
-- `send_to_erl` (src/wpa_ex.c): what goes to standard output.
use wpa_supplicant_ex.Shared.{
  ℕ, zero, suc, ◌+◌, ◌≡◌, ◌≢◌, refl, ap, ◌∙◌, List, [], ◌∷◌, ◌++◌, arith, ==-ne, ==_iff, length,
  take, take-all, replicate,
}
use wpa_supplicant_ex.Kernel.{
  World, returned, exited, exit_failure, eintr, is_eintr, WriteAnswer, wrote, write_failed,
}
use wpa_supplicant_ex.Port.{frame, write_loop, send_to_erl}

take-frame : (msg : List ℕ) → take (length msg + 2) (frame msg) ≡ frame msg
take-frame msg = take-all (length msg + 2) (frame msg) (omega arith)

-- A signal that interrupts `writev` before anything is written.
abbrev pub interruptions : ℕ → List WriteAnswer
interruptions k = replicate k (write_failed eintr)

write_loop-sends :
    (k : ℕ) (msg : List ℕ) (later : List WriteAnswer) (w : World)
    → write_loop msg (interruptions k ++ wrote (length msg + 2) ∷ later) w
      ≡ returned tt (record w { writes = later; stdout = w.stdout ++ frame msg })
unfolding write_loop is_eintr
write_loop-sends zero msg later w =
    rw ((==_iff (length msg + 2) (length msg + 2)).1 refl, take-frame msg)
write_loop-sends (suc k) msg later w = write_loop-sends k msg later w

-- However often signals interrupt it, `send_to_erl` writes the message behind its length, once.
pub send_to_erl-sends :
    (k : ℕ) (msg : List ℕ) (later : List WriteAnswer) (w : World)
    → w.writes ≡ interruptions k ++ wrote (length msg + 2) ∷ later
    → send_to_erl msg w ≡ returned tt (record w { writes = later; stdout = w.stdout ++ frame msg })
unfolding send_to_erl
send_to_erl-sends k msg later w e =
    ap (λ ws. write_loop msg ws w) e ∙ write_loop-sends k msg later w

write_loop-stdout :
    (msg : List ℕ) (later : List WriteAnswer) (w w' : World)
    → write_loop msg later w ≡ returned tt w'
    → w'.stdout ≡ w.stdout ++ frame msg
unfolding write_loop is_eintr
write_loop-stdout msg [] w w' h = cc
write_loop-stdout msg (write_failed e ∷ later) w w' h =
    ground (arith, write_loop-stdout msg later w w')
write_loop-stdout msg (wrote n ∷ later) w w' h = ground (arith, take-frame msg)

-- When `send_to_erl` returns, exactly the frame has gone out.
pub send_to_erl-stdout :
    (msg : List ℕ) (w w' : World)
    → send_to_erl msg w ≡ returned tt w'
    → w'.stdout ≡ w.stdout ++ frame msg
unfolding send_to_erl
send_to_erl-stdout msg w w' h = write_loop-stdout msg w.writes w w' h

-- A short write ends the process.
pub send_to_erl-short :
    (k : ℕ) (msg : List ℕ) (n : ℕ) (later : List WriteAnswer) (w : World)
    → w.writes ≡ interruptions k ++ wrote n ∷ later
    → n ≢ length msg + 2
    → send_to_erl msg w
      ≡ exited
          (exit_failure "not enough bytes written")
          (record w { writes = later; stdout = w.stdout ++ take n (frame msg) })
unfolding send_to_erl
send_to_erl-short k msg n later w e ne = ap (λ ws. write_loop msg ws w) e ∙ short k
  where
    short :
        (k : ℕ)
        → write_loop msg (interruptions k ++ wrote n ∷ later) w
          ≡ exited
              (exit_failure "not enough bytes written")
              (record w { writes = later; stdout = w.stdout ++ take n (frame msg) })
    short zero = unfold write_loop is_eintr in rw (==-ne n (length msg + 2) ne)
    short (suc k) = unfold write_loop is_eintr in short k
