-- ===== src/Ctrl/Sending.antt =====
-- Sending a command (`retry_send` to `send_err` of src/wpa_ctrl/wpa_ctrl.c), and what `wpa_ctrl_request`
-- takes for a reply.
use wpa_supplicant_ex.Shared.{
  ℕ, ◌+◌, ◌≤◌, ◌≡◌, refl, ap, ap₂, ◌∙◌, Bool, true, false, List, [], ◌∷◌, ◌++◌, arith,
  if◌then◌else◌, length,
}
use wpa_supplicant_ex.Shared.Int.{pos, eqb_ℤ}
use wpa_supplicant_ex.Time.{Timestamp, os_reltime_expired}
use wpa_supplicant_ex.Kernel.{
  World, returned, bind-at, eagain, is_again, SendAnswer, sent, send_failed,
}
use wpa_supplicant_ex.Kernel.Calls.{get_reltime, get_reltime-tick, sleep}
use wpa_supplicant_ex.Kernel.Calls
use wpa_supplicant_ex.Api.{Reply, replied, failed}
use wpa_supplicant_ex.Ctrl.{
  send_loop, send_command, accept_send, refuse_send, unset, is_unsolicited,
}

-- A socket that would block, once for each reading of the clock.
abbrev pub refusals : List Timestamp → List SendAnswer → List SendAnswer
refusals [] later = later
refusals (t ∷ ts) later = send_failed eagain ∷ refusals ts later

abbrev pub AllWithin : Timestamp → List Timestamp → Type 0
AllWithin t0 [] = Unit {0}
AllWithin t0 (t ∷ ts) = (os_reltime_expired t t0 (pos 5) ≡ false) × AllWithin t0 ts

abbrev pub clock_append : List Timestamp → List Timestamp → List Timestamp
clock_append [] later = later
clock_append (t ∷ ts) later = t ∷ clock_append ts later

module _ (cmd : List ℕ) (t0 : Timestamp) (started : eqb_ℤ t0.sec (pos 0) ≡ false) where
  send_loop-patient :
      (ts later : List Timestamp) (sl : List SendAnswer) (w : World)
      → AllWithin t0 ts
      → w.clocks ≡ clock_append ts later
      → send_loop cmd t0 (refusals ts (sent ∷ sl)) w
        ≡ returned true (record w {
          sends = sl;
          clocks = later;
          commands = w.commands ++ (cmd ∷ []);
          slept = w.slept + length ts;
        })
  unfolding send_loop accept_send is_again sleep
  send_loop-patient [] later sl w h e =
      ap₂
        (λ c n.
          returned true
            (record w { sends = sl; clocks = c; commands = w.commands ++ (cmd ∷ []); slept = n }))
        e (omega arith)
  send_loop-patient (t ∷ ts) later sl w h e = rw started (
      bind-at get_reltime _ w (get_reltime-tick t (clock_append ts later) w e)
      ∙ rw (h.0) (
          send_loop-patient ts later sl
            (record w { clocks = clock_append ts later; slept = w.slept + 1 }) h.1 refl
          ∙ ap
              (λ n. returned true (record w {
                sends = sl;
                clocks = later;
                commands = w.commands ++ (cmd ∷ []);
                slept = n;
              }))
              (omega arith)))

  send_loop-impatient :
      (ts later : List Timestamp) (last : Timestamp) (sl : List SendAnswer) (w : World)
      → AllWithin t0 ts
      → os_reltime_expired last t0 (pos 5) ≡ true
      → w.clocks ≡ clock_append ts (last ∷ later)
      → send_loop cmd t0 (refusals ts (send_failed eagain ∷ sl)) w
        ≡ returned false (record w { sends = sl; clocks = later; slept = w.slept + length ts })
  unfolding send_loop refuse_send is_again sleep
  send_loop-impatient [] later last sl w h x e = rw started (
      bind-at get_reltime _ w (get_reltime-tick last later w e)
      ∙ rw x (
          ap (λ n. returned false (record w { sends = sl; clocks = later; slept = n }))
            (omega arith)))
  send_loop-impatient (t ∷ ts) later last sl w h x e = rw started (
      bind-at get_reltime _ w (get_reltime-tick t (clock_append ts (last ∷ later)) w e)
      ∙ rw (h.0) (
          send_loop-impatient ts later last sl
            (record w { clocks = clock_append ts (last ∷ later); slept = w.slept + 1 }) h.1 x refl
          ∙ ap (λ n. returned false (record w { sends = sl; clocks = later; slept = n }))
              (omega arith)))

  -- A socket that would block first at `t0`, which is not 0 s, and takes the command while none of the
  -- refusals is more than five seconds behind: the command is tried again after a second's sleep each
  -- time, and goes out once.
  pub send_command-retries :
      (ts later : List Timestamp) (sl : List SendAnswer) (w : World)
      → AllWithin t0 ts
      → w.sends ≡ send_failed eagain ∷ refusals ts (sent ∷ sl)
      → w.clocks ≡ t0 ∷ clock_append ts later
      → send_command cmd w
        ≡ returned true (record w {
          sends = sl;
          clocks = later;
          commands = w.commands ++ (cmd ∷ []);
          slept = w.slept + 1 + length ts;
        })
  unfolding send_command send_loop
  send_command-retries ts later sl w h sends clocks =
      ap (λ s. send_loop cmd unset s w) sends
      ∙ bind-at get_reltime _ w (get_reltime-tick t0 (clock_append ts later) w clocks)
      ∙ send_loop-patient ts later sl
          (record w { clocks = clock_append ts later; slept = w.slept + 1 }) h refl

  -- A socket that would block first at `t0`, which is not 0 s, and still at `last`, more than five
  -- seconds behind: the command is given up then, and has not gone out.
  pub send_command-impatient :
      (ts later : List Timestamp) (last : Timestamp) (sl : List SendAnswer) (w : World)
      → AllWithin t0 ts
      → os_reltime_expired last t0 (pos 5) ≡ true
      → w.sends ≡ send_failed eagain ∷ refusals ts (send_failed eagain ∷ sl)
      → w.clocks ≡ t0 ∷ clock_append ts (last ∷ later)
      → send_command cmd w
        ≡ returned false (record w { sends = sl; clocks = later; slept = w.slept + 1 + length ts })
  unfolding send_command send_loop
  send_command-impatient ts later last sl w h x sends clocks =
      ap (λ s. send_loop cmd unset s w) sends
      ∙ bind-at get_reltime _ w (get_reltime-tick t0 (clock_append ts (last ∷ later)) w clocks)
      ∙ send_loop-impatient ts later last sl
          (record w { clocks = clock_append ts (last ∷ later); slept = w.slept + 1 }) h x refl

abbrev SentOnce : List ℕ → World → Bool → World → Type 0
SentOnce cmd w ok w' = w'.commands ≡ (if ok then w.commands ++ (cmd ∷ []) else w.commands)

IsReply : ℕ → Reply → Type 0
IsReply limit (replied b n) = (is_unsolicited b n ≡ false) × (n ≤ limit)
IsReply limit (failed e) = Unit
