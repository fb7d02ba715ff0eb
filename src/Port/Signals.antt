-- ===== src/Port/Signals.antt =====
-- Signals that interrupt `writev` and `poll` of src/wpa_ex.c, against the same run without them.
use wpa_supplicant_ex.Shared.{
  ℕ, ◌+◌, ◌≡◌, refl, sym, ◌∙◌, ◌==◌, List, [], ◌∷◌, Option, none, some, inl, inr, Bool-cases,
  length,
}
use wpa_supplicant_ex.Kernel.{
  World, K, exit_with, exit_failure, is_eintr, WriteAnswer, wrote, write_failed, PollAnswer, polled,
  poll_failed,
}
use wpa_supplicant_ex.Kernel.Closed.{closed-if}
use wpa_supplicant_ex.Port.Closed.{poll_round-closed}
use wpa_supplicant_ex.Kernel.Signals.{
  IsCalm-closed, calm, calm_end, calm_writes, calm_polls, IsCalm, calm->>=, IsCalm->>=,
}
use wpa_supplicant_ex.Api.{CtrlApi, Failure}
use wpa_supplicant_ex.Api.Closed.{CtrlKeeps}
use wpa_supplicant_ex.Port.{
  Port, write_loop, send_to_erl, poll_round, main_loop, main_attached, main, fresh_port,
}

write_loop-calm :
    (msg : List ℕ) (later : List WriteAnswer) (w : World)
    → write_loop msg (calm_writes later) (calm w) ≡ calm_end (write_loop msg later w)
unfolding write_loop
write_loop-calm msg [] w = refl
write_loop-calm msg (write_failed e ∷ later) w = elim (Bool-cases (is_eintr e)) [
  | inl again ↦ rw again (write_loop-calm msg later w)
  | inr fatal ↦ rw fatal (rw fatal refl)
]
write_loop-calm msg (wrote n ∷ later) w = elim (Bool-cases (n == length msg + 2)) [
  | inl all ↦ rw all refl
  | inr short ↦ rw short refl
]

send_to_erl-IsCalm : (msg : List ℕ) → IsCalm (send_to_erl msg)
unfolding send_to_erl
send_to_erl-IsCalm msg = λ w. write_loop-calm msg w.writes w

module _ (api : CtrlApi) (signals : CtrlKeeps (λ A m. IsCalm m) api) where
  poll_round-IsCalm : (a : PollAnswer) (p : Port) → IsCalm (poll_round api a p)
  poll_round-IsCalm =
      poll_round-closed (λ A m. IsCalm m) IsCalm-closed api signals send_to_erl-IsCalm

  -- The loop does not look at the polls that the world has left.
  main_loop-polls :
      (polls left : List PollAnswer) (p : Port) (w : World)
      → main_loop api polls p (record w { polls = left }) ≡ main_loop api polls p w
  unfolding main_loop
  main_loop-polls [] left p w = refl
  main_loop-polls (a ∷ polls) left p w = refl

  main_loop-calm :
      (polls : List PollAnswer) (p : Port) (w : World)
      → main_loop api (calm_polls polls) p (calm w) ≡ calm_end (main_loop api polls p w)
  unfolding main_loop
  main_loop-calm [] p w = refl
  main_loop-calm (polled erl wpa ∷ polls) p w =
      calm->>= (poll_round api (polled erl wpa) p) _ _ (record w { polls = polls })
        (poll_round-IsCalm (polled erl wpa) p (record w { polls = polls }))
        (λ q u. main_loop-calm polls q u)
  main_loop-calm (poll_failed e ∷ polls) p w = elim (Bool-cases (is_eintr e)) [
    | inr fatal ↦ unfold poll_round in rw fatal (rw fatal refl)
    | inl again ↦
        unfold poll_round in
        rw again (
          sym (main_loop-polls (calm_polls polls) (calm_polls polls) p (calm w))
          ∙ main_loop-calm polls p (record w { polls = polls }))
  ]

  -- A signal that interrupts `writev` or `poll` changes nothing, for a control interface that calls
  -- neither.
  pub main-IsCalm : {Ctrl : Type 0} (argc : ℕ) (ctrl : Option Ctrl) → IsCalm (main api argc ctrl)
  unfolding main main_attached
  main-IsCalm argc ctrl =
      closed-if (λ A m. IsCalm m) (Unit {0}) (argc == 2) _ _ (opened ctrl) (λ w. refl)
    where
      begun :
          (r : Option Failure)
          → IsCalm (elim r as (λ x. K (Unit {0})) [
            | some e ↦ exit_with (exit_failure "wpa_ctrl_attach")
            | none ↦ λ v. main_loop api v.polls fresh_port v
          ])
      begun none = λ u. main_loop-calm u.polls fresh_port u
      begun (some e) = λ u. refl

      opened :
          {C : Type 0} (c : Option C)
          → IsCalm (elim c as (λ x. K (Unit {0})) [
            | none ↦ exit_with (exit_failure "Couldn't open")
            | some d ↦ main_attached api
          ])
      opened none = λ w. refl
      opened (some d) = IsCalm->>= api.attach _ signals.attach_keeps begun
