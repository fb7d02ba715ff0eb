-- ===== src/Program.antt =====
-- The program as the Makefile builds it: `main` of src/wpa_ex.c with `wpa_ctrl_open` of
-- src/wpa_ctrl/wpa_ctrl.c over the UNIX domain socket.
pub mod Runs
use wpa_supplicant_ex.Shared.{
  ℕ, ◌+◌, ◌≡◌, ap, ◌∙◌, subst, Bool, true, false, ◌||◌, ◌&&◌, List, [], ◌∷◌, ◌++◌, Option, none,
  some,
}
use wpa_supplicant_ex.Kernel.{
  World, K, Outcome, returned, waiting, spent, Exit, exited, exit_failure, SendAnswer, sent,
  SelectAnswer, ready, RecvAnswer, datagram, WriteAnswer, ReadAnswer, bytes, PollAnswer, polled,
  Revents,
}
use wpa_supplicant_ex.Ctrl.{unix, attach_command}
use wpa_supplicant_ex.Ctrl.Attach.{ok_text}
use wpa_supplicant_ex.Ctrl.Within.{unix_laws}
use wpa_supplicant_ex.Kernel.Traffic.{stream, traffic}
use wpa_supplicant_ex.Session.{System, WpaCtrl, wpa_ctrl_open}
use wpa_supplicant_ex.Session.Release.{
  is_some, can_bind, has_local, has_dest, wpa_ctrl_open-succeeds,
}
use wpa_supplicant_ex.Port.{main}
use wpa_supplicant_ex.Port.Frames.{encode, AllBytes}
use wpa_supplicant_ex.Port.Rounds.{
  Round, Goes, polls_script, reads_script, sends_script, selects_script, recvs_script,
  writes_script, all_commands, all_texts,
}
use wpa_supplicant_ex.Port.EndToEnd.{Delivers}
use wpa_supplicant_ex.Port.Whole.{main-Delivers, main-unopened}

-- The whole program for the static `counter`, `argc` and `argv[1]`.
unfoldable pub program : System → ℕ → ℕ → Option (List ℕ) → K (Unit {0})
program sys counter argc ctrl_path = main unix argc (wpa_ctrl_open sys counter ctrl_path).ctrl

-- What opening the connection needs of the system.
abbrev pub can_open : System → ℕ → List ℕ → Bool
can_open sys counter ctrl_path =
    sys.malloc
    && (sys.socket
        && ((has_local sys (counter + 1) && can_bind sys)
            && (has_dest sys ctrl_path && sys.connect)))

-- The end of a run with a connection (`true`), and of one without.
abbrev pub Concludes : Bool → Outcome (Unit {0}) → List ℕ → List (List ℕ) → World → Type 0
Concludes true o out cs w = Delivers o out cs
Concludes false o out cs w = o ≡ exited (exit_failure "Couldn't open") w

-- The program with one argument, over a script of rounds. The supplicant takes `ATTACH` and says `OK`.
-- Then rounds of any number follow, each behind any number of signals that interrupt `poll`: the pipe
-- from Erlang brings a piece that fits the rest of the buffer, cut anywhere, or nothing; the supplicant
-- answers every command that the piece completes, with events ahead of the reply, which is no event,
-- and may send messages by itself; and the pipe to Erlang takes every write whole. Then the stream from
-- Erlang ends. If there are memory and a socket, the local path fits and can be bound to, the path asked
-- for can be represented and `connect` works, then the process ends with success; the supplicant got
-- `ATTACH` and then each command that was completed, once and in order; and Erlang got each event,
-- reply and message, cut to the buffers, framed, once and in order. Else the process ends with "Couldn't
-- open" and has read, sent and written nothing.
pub program-Delivers :
    {rs : List Round} {s : List ℕ} (sys : System) (counter : ℕ) (ctrl_path : List ℕ)
    (rd : List ReadAnswer) (sl : List SendAnswer) (sel : List SelectAnswer) (rl : List RecvAnswer)
    (wl : List WriteAnswer) (erl wpa : Revents) (pl : List PollAnswer) (w : World)
    → (erl.pollin || erl.pollhup) ≡ true
    → Goes [] rs s
    → w.polls ≡ polls_script rs (polled erl wpa ∷ pl)
    → w.reads ≡ reads_script rs (bytes [] ∷ rd)
    → w.sends ≡ sent ∷ sends_script rs sl
    → w.selects ≡ ready ∷ selects_script rs sel
    → w.recvs ≡ datagram ok_text ∷ recvs_script rs rl
    → w.writes ≡ writes_script rs wl
    → Concludes
        (can_open sys counter ctrl_path)
        (program sys counter 2 (some ctrl_path) w)
        (w.stdout ++ encode (all_texts rs))
        (w.commands ++ (attach_command true ∷ all_commands rs))
        w
unfolding program
program-Delivers {rs = rs} sys counter ctrl_path rd sl sel rl wl erl wpa pl w ended goes polls reads
      sends selects recvs writes =
    subst
      (λ b.
        Concludes b (program sys counter 2 (some ctrl_path) w) (w.stdout ++ encode (all_texts rs))
          (w.commands ++ (attach_command true ∷ all_commands rs)) w)
      (wpa_ctrl_open-succeeds sys counter ctrl_path)
      (go (wpa_ctrl_open sys counter (some ctrl_path)).ctrl)
  where
    go :
        (c : Option WpaCtrl)
        → Concludes
            (is_some c)
            (main unix 2 c w)
            (w.stdout ++ encode (all_texts rs))
            (w.commands ++ (attach_command true ∷ all_commands rs))
            w
    go none = main-unopened WpaCtrl unix w
    go (some c) =
        main-Delivers c rd sl sel rl wl erl wpa pl w ended goes polls reads sends selects recvs
          writes
