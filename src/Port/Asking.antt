-- ===== src/Port/Asking.antt =====
-- Where a run of src/wpa_ex.c can wait.
use wpa_supplicant_ex.Shared.{
  ℕ, ◌+◌, refl, ◌==◌, List, [], ◌∷◌, Option, none, some, inl, inr, Bool-cases, length,
}
use wpa_supplicant_ex.Kernel.{
  World, K, exit_with, exit_failure, is_eintr, WriteAnswer, wrote, write_failed, PollAnswer,
}
use wpa_supplicant_ex.Kernel.Closed.{closed-if}
use wpa_supplicant_ex.Port.Closed.{poll_round-closed}
use wpa_supplicant_ex.Kernel.Asking.{
  IsAsking-closed, WaitsForAnswer, IsAsking, IsAsking->>=, in_writev, in_poll,
}
use wpa_supplicant_ex.Api.{CtrlApi, Failure}
use wpa_supplicant_ex.Api.Closed.{CtrlKeeps}
use wpa_supplicant_ex.Port.{
  Port, write_loop, send_to_erl, poll_round, main_loop, main_attached, main, fresh_port,
}

write_loop-asks :
    (msg : List ℕ) (later : List WriteAnswer) (w : World) → WaitsForAnswer (write_loop msg later w)
unfolding write_loop
write_loop-asks msg [] w = in_writev refl
write_loop-asks msg (write_failed e ∷ later) w = elim (Bool-cases (is_eintr e)) [
  | inl again ↦ rw again (write_loop-asks msg later w)
  | inr fatal ↦ rw fatal tt
]
write_loop-asks msg (wrote n ∷ later) w = elim (Bool-cases (n == length msg + 2)) [
  | inl all ↦ rw all tt
  | inr short ↦ rw short tt
]

send_to_erl-IsAsking : (msg : List ℕ) → IsAsking (send_to_erl msg)
unfolding send_to_erl
send_to_erl-IsAsking msg = λ w. write_loop-asks msg w.writes w

module _ (api : CtrlApi) (asking : CtrlKeeps (λ A m. IsAsking m) api) where
  poll_round-IsAsking : (a : PollAnswer) (p : Port) → IsAsking (poll_round api a p)
  poll_round-IsAsking =
      poll_round-closed (λ A m. IsAsking m) IsAsking-closed api asking send_to_erl-IsAsking

  main_loop-asks :
      (polls : List PollAnswer) (p : Port) (w : World) → WaitsForAnswer (main_loop api polls p w)
  unfolding main_loop
  main_loop-asks [] p w = in_poll refl
  main_loop-asks (a ∷ polls) p w =
      IsAsking->>= (poll_round api a p) _ (poll_round-IsAsking a p)
        (λ q u. main_loop-asks polls q u) (record w { polls = polls })

  -- The whole program waits only for the kernel.
  pub main-IsAsking :
      {Ctrl : Type 0} (argc : ℕ) (ctrl : Option Ctrl) → IsAsking (main api argc ctrl)
  unfolding main main_attached
  main-IsAsking argc ctrl =
      closed-if (λ A m. IsAsking m) (Unit {0}) (argc == 2) _ _ (opened ctrl) (λ w. tt)
    where
      begun :
          (r : Option Failure)
          → IsAsking (elim r as (λ x. K (Unit {0})) [
            | some e ↦ exit_with (exit_failure "wpa_ctrl_attach")
            | none ↦ λ v. main_loop api v.polls fresh_port v
          ])
      begun none = λ u. main_loop-asks u.polls fresh_port u
      begun (some e) = λ u. tt

      opened :
          {C : Type 0} (c : Option C)
          → IsAsking (elim c as (λ x. K (Unit {0})) [
            | none ↦ exit_with (exit_failure "Couldn't open")
            | some d ↦ main_attached api
          ])
      opened none = λ w. tt
      opened (some d) = IsAsking->>= api.attach _ asking.attach_keeps begun
