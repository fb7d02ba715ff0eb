-- ===== src/Daemon.antt =====
-- Detaching from the terminal (src/wpa_ctrl/os_unix.c): `os_daemonize`, with the `os_daemon` of Apple's
-- systems, over the system's answers.
pub mod Descriptors
use wpa_supplicant_ex.Shared.{
  ℕ, zero, suc, ◌+◌, Bool, true, false, List, [], ◌∷◌, ◌++◌, Option, none, some, if◌then◌else◌,
}

pub data DaemonEffect : Type 0 where
  -- chdir("/") and dup2(devnull, n)
  change_dir close_null : DaemonEffect
  open_null : DaemonEffect
  duplicate_null : ℕ → DaemonEffect
  -- perror, the file with its text, and unlink
  complain : DaemonEffect
  write_pid : List ℕ → List ℕ → DaemonEffect
  unlink_pid : List ℕ → DaemonEffect

pub record DaemonSystem : Type 0 where
  pub chdir : Bool
  pub open_dev_null : Bool
  -- whether `dup2` to the descriptor works
  pub dup2 : ℕ → Bool

-- `if (dup2(devnull, n) < 0) { close(devnull); return -1; }`, and then the rest.
pub dup_or_close : DaemonSystem → ℕ → Bool × List DaemonEffect → Bool × List DaemonEffect
dup_or_close sys n rest =
    if sys.dup2 n then (rest.0, duplicate_null n ∷ rest.1) else (false, close_null ∷ [])

-- Whether `os_daemon` gives 0, and the log. The standard descriptors are 0, 1 and 2.
pub os_daemon : DaemonSystem → Bool × List DaemonEffect
unfolding dup_or_close
os_daemon sys =
    if sys.chdir
    then (if sys.open_dev_null
        then (let rest = dup_or_close sys 0 (dup_or_close sys 1 (dup_or_close sys 2 (true, []))) in
            (rest.0, change_dir ∷ open_null ∷ rest.1))
        else (false, change_dir ∷ []))
    else (false, [])

-- `os_daemonize` behind a call of `os_daemon` with this result and log, where `pid_text` is what
-- `fprintf` makes of the process's number, and `fopen` says whether the file can be opened.
pub os_daemonize :
    Bool × List DaemonEffect → Bool → List ℕ → Option (List ℕ) → Bool × List DaemonEffect
os_daemonize (false, log) fopen pid_text pid_file = (false, log ++ (complain ∷ []))
os_daemonize (true, log) fopen pid_text none = (true, log)
os_daemonize (true, log) fopen pid_text (some pid_file) =
    (true, if fopen then log ++ (write_pid pid_file pid_text ∷ []) else log)

pub os_daemonize_terminate : Option (List ℕ) → List DaemonEffect
os_daemonize_terminate none = []
os_daemonize_terminate (some pid_file) = unlink_pid pid_file ∷ []
