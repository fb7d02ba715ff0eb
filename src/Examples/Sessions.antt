-- ===== src/Examples/Sessions.antt =====
-- The theorems on whole runs, applied.
use wpa_supplicant_ex.Shared.{
  ◌≡◌, ℕ, List, [], ◌∷◌, ◌++◌, refl, arith, none, some, inl, true, false,
}
use wpa_supplicant_ex.Kernel.{
  World, sent, ready, datagram, bytes, polled, poll_failed, eintr, is_eintr, write_failed,
}
use wpa_supplicant_ex.Ctrl.{unix, attach_command}
use wpa_supplicant_ex.Ctrl.Attach.{ok_text}
use wpa_supplicant_ex.Port.{poll_round, fresh_port}
use wpa_supplicant_ex.Port.Frames.{AllBytes, encode, stop, next}
use wpa_supplicant_ex.Port.Always.{Reached-IsCaughtUp, KeepsAccount}
use wpa_supplicant_ex.Port.Account.Requests.{IsCaughtUp}
use wpa_supplicant_ex.Api.Effects.{IsAttached, as_is}
use wpa_supplicant_ex.Kernel.Signals.{calm, calm_end}
use wpa_supplicant_ex.Kernel.Traffic.{Traffic, traffic, stream}
use wpa_supplicant_ex.Ctrl.Effects.{unix_effects}
use wpa_supplicant_ex.Port.Reach.{Reached, started, polling}
use wpa_supplicant_ex.Port.Script.{sends_of, selects_of, recvs_of, writes_of, Exchange, commands}
use wpa_supplicant_ex.Session.{dest_path}
use wpa_supplicant_ex.Strings.{os_strlcpy}
use wpa_supplicant_ex.Port.Forward.{all_written}
use wpa_supplicant_ex.Port.Events.{all_taken}
use wpa_supplicant_ex.Port.Rounds.{
  Round, Goes, ends, quiet, fed, polls_script, reads_script, sends_script, selects_script,
  recvs_script, writes_script, interrupted, all_commands, all_texts,
}
use wpa_supplicant_ex.Port.EndToEnd.{Delivers}
use wpa_supplicant_ex.Port.Whole.{attach-accepted}
use wpa_supplicant_ex.Program.{program, can_open, Concludes, program-Delivers}
use wpa_supplicant_ex.Program.Runs.{
  program-KeepsAccount, program-IsCalm, program-Delivers_signals, EndsOrAsks, program-EndsOrAsks,
}
use wpa_supplicant_ex.Examples
use wpa_supplicant_ex.Examples.{ok_reply, event, ping, answering, working, short_path}

-- An event comes ahead of the reply to the command.
abbrev exchange : Exchange
exchange = record { command = ping; events = event ∷ []; reply = ok_reply }

-- The command comes in two pieces; in the end the supplicant sends an event by itself.
abbrev rounds : List Round
rounds =
    record { interrupts = 0; piece = 0 ∷ []; exchanges = []; notices = none }
    ∷ record { interrupts = 0; piece = 1 ∷ b'P' ∷ []; exchanges = exchange ∷ []; notices = none }
    ∷ record { interrupts = 1; piece = []; exchanges = []; notices = some (event ∷ []) }
    ∷ []

abbrev descriptor : ℕ
descriptor = 3

abbrev session : World
session = record Examples.quiet {
  reads = reads_script rounds (bytes [] ∷ []);
  sends = sent ∷ sends_script rounds [];
  selects = ready ∷ selects_script rounds [];
  recvs = datagram ok_text ∷ recvs_script rounds [];
  writes = writes_script rounds [];
  polls = polls_script rounds (
      polled (record { pollin = false; pollhup = true })
        (record { pollin = false; pollhup = false })
      ∷ []);
}

rounds-Goes : Goes [] rounds []
unfolding commands
rounds-Goes = fed 0 0 [] [] none (omega arith) (stop (inl (omega arith))) tt (
    fed 0 1 (b'P' ∷ []) (exchange ∷ []) none (omega arith)
      (next ping (omega arith) refl (stop (inl (omega arith))))
      ((((omega arith, refl), tt), λ h. ground arith), tt) (quiet 1 (some (event ∷ [])) ends))

program-Delivers_example :
    Concludes
      (can_open working 0 short_path)
      (program working 0 2 (some short_path) session)
      ([] ++ encode (all_texts rounds))
      ([] ++ (attach_command true ∷ all_commands rounds))
      session
program-Delivers_example =
    program-Delivers working 0 short_path [] [] [] [] [] (record { pollin = false; pollhup = true })
      (record { pollin = false; pollhup = false }) [] session refl rounds-Goes refl refl refl refl
      refl refl

program-EndsOrAsks_example : EndsOrAsks (program working 0 2 (some short_path) session)
program-EndsOrAsks_example = program-EndsOrAsks working 0 2 (some short_path) session

-- A signal interrupts the first `poll`.
abbrev started_world : World
started_world = record session {
  sends = sends_script rounds [];
  selects = selects_script rounds [];
  recvs = recvs_script rounds [];
  commands = attach_command true ∷ [];
}

interrupted-Reached : Reached unix session fresh_port (record started_world { polls = [] })
unfolding poll_round
interrupted-Reached =
    polling {p = fresh_port} {w = started_world} (poll_failed eintr) []
      (started (
        attach-accepted (sends_script rounds []) (selects_script rounds []) (recvs_script rounds [])
          session refl refl refl))
      refl

session-AllBytes : AllBytes (stream session.reads)
unfolding AllBytes reads_script
session-AllBytes = (omega arith, (omega arith, (omega arith, tt)))

Reached-IsCaughtUp_example :
    (s : Traffic) × IsAttached (attach_command true) ok_text (traffic session) s
    × IsCaughtUp as_is s fresh_port (traffic (record started_world { polls = [] }))
Reached-IsCaughtUp_example =
    Reached-IsCaughtUp unix unix_effects session-AllBytes interrupted-Reached

program-KeepsAccount_example :
    KeepsAccount as_is
      (attach_command true)
      ok_text
      (traffic session)
      (program working 0 2 (some short_path) session)
program-KeepsAccount_example =
    program-KeepsAccount working 0 2 (some short_path) session session-AllBytes

program-IsCalm_example :
    program working 0 2 (some short_path) (calm session)
    ≡ calm_end (program working 0 2 (some short_path) session)
program-IsCalm_example = program-IsCalm working 0 2 (some short_path) session

-- The rounds without interrupted polls.
abbrev steady_rounds : List Round
steady_rounds =
    record { interrupts = 0; piece = 0 ∷ []; exchanges = []; notices = none }
    ∷ record { interrupts = 0; piece = 1 ∷ b'P' ∷ []; exchanges = exchange ∷ []; notices = none }
    ∷ record { interrupts = 0; piece = []; exchanges = []; notices = some (event ∷ []) }
    ∷ []

steady_rounds-Goes : Goes [] steady_rounds []
unfolding commands
steady_rounds-Goes = fed 0 0 [] [] none (omega arith) (stop (inl (omega arith))) tt (
    fed 0 1 (b'P' ∷ []) (exchange ∷ []) none (omega arith)
      (next ping (omega arith) refl (stop (inl (omega arith))))
      ((((omega arith, refl), tt), λ h. ground arith), tt) (quiet 0 (some (event ∷ [])) ends))

-- A signal interrupts the first `writev`, and another the first `poll`.
abbrev shaken : World
shaken = record session {
  writes = write_failed eintr ∷ session.writes;
  polls = poll_failed eintr ∷ session.polls;
}

working-opens : can_open working 0 short_path ≡ true
unfolding dest_path os_strlcpy
working-opens = refl

program-Delivers_signals_example :
    Delivers
      (program working 0 2 (some short_path) shaken)
      ([] ++ encode (all_texts steady_rounds))
      ([] ++ (attach_command true ∷ all_commands steady_rounds))
unfolding polls_script interrupted reads_script sends_script selects_script recvs_script
    writes_script sends_of selects_of recvs_of writes_of all_written all_taken is_eintr
program-Delivers_signals_example =
    program-Delivers_signals working 0 short_path [] [] [] [] []
      (record { pollin = false; pollhup = true }) (record { pollin = false; pollhup = false }) []
      shaken working-opens refl steady_rounds-Goes refl refl refl refl refl refl
