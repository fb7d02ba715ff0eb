-- ===== src/Examples/Pipes.antt =====
-- The theorems on named pipes, on Android and on daemons, applied.
use wpa_supplicant_ex.Shared.{
  ℕ, zero, suc, ◌==◌, length-replicate, ◌≤◌, ◌<◌, ◌≡◌, ◌↔◌, ◌⊎◌, true, false, [], ◌∷◌, ◌++◌, none,
  some, if◌then◌else◌, length, replicate, arith,
}
use wpa_supplicant_ex.Pipe.{
  CreateAnswer, valid, busy, PipeSystem, pipe_name, create_tries, open_pipe, close_pipe,
}
use wpa_supplicant_ex.Pipe.Opening.{Succeeds, open_pipe-opens}
use wpa_supplicant_ex.Pipe.Holding.{open_pipe-held, held_from, holding}
use wpa_supplicant_ex.Android.{path_max, open_dir, close_dir, wpa_ctrl_cleanup}
use wpa_supplicant_ex.Android.Cleanup.{removals, wpa_ctrl_cleanup-removals}
use wpa_supplicant_ex.Daemon.{DaemonSystem, os_daemon}
use wpa_supplicant_ex.Daemon.Descriptors.{left_open, os_daemon-left_open}

-- The pipe is busy once.
abbrev second_try : ℕ → CreateAnswer
second_try zero = busy
second_try (suc n) = valid

abbrev piped : PipeSystem
piped = record { malloc = true; create = second_try; set_state = true }

open_pipe-opens_example : ((open_pipe piped none).0 ≡ true) ↔ (
    (true ≡ true)
    × (length (pipe_name none) < 256)
    × (true ≡ true)
    × Succeeds second_try 0 create_tries)
open_pipe-opens_example = open_pipe-opens piped none

open_pipe-held_example :
    (n : ℕ) × (n ≤ 10)
    × (((open_pipe piped none).0 ≡ false)
          × (held_from (holding 0 0 0) (open_pipe piped none).1 ≡ holding 0 0 n)
        ⊎ ((open_pipe piped none).0 ≡ true)
          × (held_from (holding 0 0 0) (open_pipe piped none).1 ≡ holding 1 1 n)
          × (held_from (holding 0 0 0) ((open_pipe piped none).1 ++ close_pipe) ≡ holding 0 0 n))
open_pipe-held_example = open_pipe-held piped none

-- The directory `/t`, with one file.
wpa_ctrl_cleanup-removals_example :
    wpa_ctrl_cleanup (b'/' ∷ b't' ∷ []) (replicate path_max 0) (some ((b'a' ∷ []) ∷ []))
    ≡ open_dir (b'/' ∷ b't' ∷ [])
      ∷ (removals ((b'/' ∷ b't' ∷ []) ++ (b'/' ∷ [])) ((b'a' ∷ []) ∷ []) ++ (close_dir ∷ []))
wpa_ctrl_cleanup-removals_example =
    wpa_ctrl_cleanup-removals (b'/' ∷ b't' ∷ []) (replicate path_max 0) ((b'a' ∷ []) ∷ [])
      ((λ e. absurd (omega arith)), ((λ e. absurd (omega arith)), tt))
      (((λ e. absurd (omega arith)), tt), tt) (length-replicate {A = ℕ} path_max 0) (omega arith)

-- The third `dup2` fails.
abbrev no_stderr : DaemonSystem
no_stderr = record {
  chdir = true;
  open_dev_null = true;
  dup2 = λ n. if n == 2 then false else true;
}

os_daemon-left_open_example :
    (((os_daemon no_stderr).0 ≡ true)
      ↔ ((true ≡ true) × (true ≡ true) × (true ≡ true) × (true ≡ true) × (false ≡ true)))
    × (left_open 0 (os_daemon no_stderr).1 ≡ (if (os_daemon no_stderr).0 then 1 else 0))
os_daemon-left_open_example = os_daemon-left_open no_stderr
