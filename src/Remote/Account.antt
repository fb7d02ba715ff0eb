-- ===== src/Remote/Account.antt =====
-- The program of src/wpa_ex.c with the control interface over UDP (src/wpa_ctrl/wpa_ctrl.c), from opening on.
use wpa_supplicant_ex.Shared.{ℕ, ◌⊎◌, List, Bool, true}
use wpa_supplicant_ex.Kernel.{Outcome, returned, exited, waiting, spent, exit_success, exit_failure}
use wpa_supplicant_ex.Kernel.Traffic.{Traffic, traffic}
use wpa_supplicant_ex.Ctrl.{attach_command}
use wpa_supplicant_ex.Ctrl.Attach.{ok_text}
use wpa_supplicant_ex.Port.Always.{IsCompleteRun, IsAccounted}
use wpa_supplicant_ex.Remote.{UdpCtrl}
use wpa_supplicant_ex.Remote.Asking.{IsOpening, IsLeft}
use wpa_supplicant_ex.Remote.Control.{wire}

module _ (malloc : List ℕ → Bool) (t : Traffic) where
  -- Opening has given a connection with `s` as the traffic from there on.
  abbrev Opened : (UdpCtrl → Traffic → Type 0) → Type 0
  Opened P = (c : UdpCtrl) × (s : Traffic) × IsOpening c.cookie t s × P c s

  abbrev IsLeftOrAccounted : Traffic → Type 0
  IsLeftOrAccounted u =
      IsLeft t u
      ⊎ Opened
          (λ c s. IsAccounted (wire malloc c) (wire malloc c (attach_command true)) ok_text s u)

  -- How a run ends that starts with the traffic `t`.
  abbrev pub KeepsAccountUdp : Outcome (Unit {0}) → Type 0
  KeepsAccountUdp (returned x w) = ⊥
  KeepsAccountUdp (exited exit_success w) = Opened (λ c s.
      IsCompleteRun (wire malloc c) (wire malloc c (attach_command true)) ok_text s (traffic w))
  KeepsAccountUdp (exited (exit_failure m) w) = IsLeftOrAccounted (traffic w)
  KeepsAccountUdp (waiting w) = IsLeftOrAccounted (traffic w)
  KeepsAccountUdp spent = ⊥
