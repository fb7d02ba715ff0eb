-- ===== src/Kernel/Closed.antt =====
-- Properties of computations that hold of a program when they hold of its system calls.
use wpa_supplicant_ex.Shared.{ℕ, Bool, true, false, if◌then◌else◌, List, [], ◌∷◌, ◌++◌}
use wpa_supplicant_ex.Kernel.{
  K, spent, ◌>>=◌, return, exit_with, Exit, SelectAnswer, SendAnswer, RecvAnswer, returned, waiting,
}
use wpa_supplicant_ex.Time.{Timestamp}
use wpa_supplicant_ex.Kernel.Calls

-- `P` is kept by every way to build a computation.
pub record IsClosed (P : (A : Type 0) → K A → Type 0) : Type 1 where
  pub returns : (A : Type 0) (a : A) → P A (return a)
  pub exits : (A : Type 0) (e : Exit) → P A (exit_with e)
  pub spends : (A : Type 0) → P A (λ w. spent)
  pub binds : (A B : Type 0) (m : K A) (k : A → K B) → P A m → ((a : A) → P B (k a)) → P B (m >>= k)
  pub reads : (n : ℕ) → P _ (Calls.read n)
  -- a computation that looks at the answers of `select`
  pub by_selects :
      (A : Type 0) (m : List SelectAnswer → K A)
      → ((s : List SelectAnswer) → P A (m s))
      → P A (λ w. m w.selects w)
  -- the calls of the control interface, and changes of what is left of their answers
  pub receives : (n : ℕ) → P RecvAnswer (Calls.recv n)
  pub selects : P SelectAnswer Calls.select
  pub clocks : P Timestamp Calls.get_reltime
  pub sleeps : (n : ℕ) → P (Unit {0}) (Calls.sleep n)
  pub by_sends :
      (A : Type 0) (m : List SendAnswer → K A)
      → ((s : List SendAnswer) → P A (m s))
      → P A (λ w. m w.sends w)
  pub put_sends :
      (A : Type 0) (s : List SendAnswer) (m : K A) → P A m → P A (λ w. m (record w { sends = s }))
  pub put_selects :
      (A : Type 0) (s : List SelectAnswer) (m : K A)
      → P A m
      → P A (λ w. m (record w { selects = s }))
  pub sends_command :
      (cmd : List ℕ) (s : List SendAnswer)
      → P Bool (λ w. returned true (record w { sends = s; commands = w.commands ++ (cmd ∷ []) }))
  pub waits_send : (A : Type 0) → P A (λ w. waiting (record w { sends = [] }))
  pub waits_select : (A : Type 0) → P A (λ w. waiting (record w { selects = [] }))

pub closed-if :
    (P : (A : Type 0) → K A → Type 0) (A : Type 0) (b : Bool) (m n : K A)
    → P A m
    → P A n
    → P A (if b then m else n)
closed-if P A true m n c d = c
closed-if P A false m n c d = d
