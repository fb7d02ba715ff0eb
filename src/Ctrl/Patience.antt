-- ===== src/Ctrl/Patience.antt =====
-- How long `wpa_ctrl_request` of src/wpa_ctrl/wpa_ctrl.c tries to send, in microseconds of the clock.
use wpa_supplicant_ex.Shared.{
  ℕ, ◌+◌, ◌≤◌, ◌<◌, ◌≡◌, true, false, List, [], ◌∷◌, ◌++◌, arith, length, inl, inr, Bool-cases,
}
use wpa_supplicant_ex.Shared.Int.{pos, eqb_ℤ}
use wpa_supplicant_ex.Time.{Timestamp, os_reltime_expired}
use wpa_supplicant_ex.Time.Order.{IsNormal, ahead, behind, os_reltime_expired_iff}
use wpa_supplicant_ex.Kernel.{World, returned, eagain, SendAnswer, sent, send_failed}
use wpa_supplicant_ex.Ctrl.{send_command}
use wpa_supplicant_ex.Ctrl.Sending.{
  refusals, AllWithin, clock_append, send_command-retries, send_command-impatient,
}

-- `t` is at most five million microseconds behind `t0`, and more.
abbrev pub IsTimely : Timestamp → Timestamp → Type 0
IsTimely t0 t = ahead t + behind t0 ≤ 5000000 + ahead t0 + behind t

abbrev pub IsLate : Timestamp → Timestamp → Type 0
IsLate t0 t = 5000000 + ahead t0 + behind t < ahead t + behind t0

-- All these readings are normal and timely.
abbrev pub AllTimely : Timestamp → List Timestamp → Type 0
AllTimely t0 [] = Unit {0}
AllTimely t0 (t ∷ ts) = IsNormal t × IsTimely t0 t × AllTimely t0 ts

timely-AllWithin :
    (t0 : Timestamp) (ts : List Timestamp) → IsNormal t0 → AllTimely t0 ts → AllWithin t0 ts
timely-AllWithin t0 [] n h = tt
timely-AllWithin t0 (t ∷ ts) n (normal, timely, rest) = (
  elim (Bool-cases (os_reltime_expired t t0 (pos 5))) [
    | inr within ↦ within
    | inl over ↦ absurd (omega (arith, (os_reltime_expired_iff t t0 5 normal n).0 over, timely))
  ],
  timely-AllWithin t0 ts n rest,
)

module _ (cmd : List ℕ) (t0 : Timestamp) (started : eqb_ℤ t0.sec (pos 0) ≡ false)
    (normal : IsNormal t0) where
  -- When the clock gives normal times, the first of them not in second 0: a socket that would block first
  -- at `t0`, then at readings of any number, none of them more than five million microseconds behind
  -- it, and still at `last`, more than five million microseconds behind: the command is given up
  -- there, not before, behind a second's sleep for each refusal but the last, and has not gone out.
  pub send_command-gives-up :
      (ts later : List Timestamp) (last : Timestamp) (sl : List SendAnswer) (w : World)
      → AllTimely t0 ts
      → IsNormal last
      → IsLate t0 last
      → w.sends ≡ send_failed eagain ∷ refusals ts (send_failed eagain ∷ sl)
      → w.clocks ≡ t0 ∷ clock_append ts (last ∷ later)
      → send_command cmd w
        ≡ returned false (record w { sends = sl; clocks = later; slept = w.slept + 1 + length ts })
  send_command-gives-up ts later last sl w timely n late sends clocks =
      send_command-impatient cmd t0 started ts later last sl w
        (timely-AllWithin t0 ts normal timely) ((os_reltime_expired_iff last t0 5 n normal).1 late)
        sends clocks

  -- When the clock gives normal times, the first of them not in second 0: a socket that would block first
  -- at `t0`, then at readings of any number, none of them more than five million microseconds behind
  -- it, and then takes the command: it goes out once, behind a second's sleep for each refusal.
  pub send_command-persists :
      (ts later : List Timestamp) (sl : List SendAnswer) (w : World)
      → AllTimely t0 ts
      → w.sends ≡ send_failed eagain ∷ refusals ts (sent ∷ sl)
      → w.clocks ≡ t0 ∷ clock_append ts later
      → send_command cmd w
        ≡ returned true (record w {
          sends = sl;
          clocks = later;
          commands = w.commands ++ (cmd ∷ []);
          slept = w.slept + 1 + length ts;
        })
  send_command-persists ts later sl w timely sends clocks =
      send_command-retries cmd t0 started ts later sl w (timely-AllWithin t0 ts normal timely) sends
        clocks
