-- ===== src/Api/Closed.antt =====
-- A control interface (src/wpa_ctrl/wpa_ctrl.h) whose calls have a property of computations, where the
-- callback has it.
use wpa_supplicant_ex.Shared.{ℕ, Bool, List, Option, some}
use wpa_supplicant_ex.Kernel.{K}
use wpa_supplicant_ex.Api.{CtrlApi, Reply, Failure}

pub record CtrlKeeps (P : (A : Type 0) → K A → Type 0) (api : CtrlApi) : Type 0 where
  pub request_keeps :
      (cmd buf : List ℕ) (limit : ℕ) (f : List ℕ → K (Unit {0}))
      → ((msg : List ℕ) → P (Unit {0}) (f msg))
      → P Reply (api.request cmd buf limit (some f))
  pub recv_keeps : (buf : List ℕ) (limit : ℕ) → P Reply (api.recv buf limit)
  pub pending_keeps : P Bool api.pending
  pub attach_keeps : P (Option Failure) api.attach
