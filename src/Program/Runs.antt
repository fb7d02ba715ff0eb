-- ===== src/Program/Runs.antt =====
-- Any run of the program over the UNIX domain socket (src/wpa_ex.c, src/wpa_ctrl/wpa_ctrl.c).
use wpa_supplicant_ex.Shared.{ℕ, ◌≡◌, ap, ◌∙◌, subst, true, ◌||◌, List, [], ◌∷◌, ◌++◌, Option, some}
use wpa_supplicant_ex.Kernel.{
  World, Outcome, returned, waiting, spent, Exit, exited, SendAnswer, sent, SelectAnswer, ready,
  RecvAnswer, datagram, WriteAnswer, ReadAnswer, bytes, PollAnswer, polled, Revents,
}
use wpa_supplicant_ex.Ctrl.{unix, attach_command}
use wpa_supplicant_ex.Ctrl.Attach.{ok_text}
use wpa_supplicant_ex.Ctrl.Within.{unix_laws}
use wpa_supplicant_ex.Api.Effects.{as_is}
use wpa_supplicant_ex.Ctrl.Effects.{unix_effects}
use wpa_supplicant_ex.Kernel.Signals.{
  IsCalm, IsCalm-closed, calm, calm_end, calm_writes, calm_polls,
}
use wpa_supplicant_ex.Ctrl.Closed.{unix-closed}
use wpa_supplicant_ex.Port.Signals.{main-IsCalm}
use wpa_supplicant_ex.Kernel.Traffic.{stream, traffic}
use wpa_supplicant_ex.Port.Always.{KeepsAccount, main-KeepsAccount}
use wpa_supplicant_ex.Session.{System, wpa_ctrl_open}
use wpa_supplicant_ex.Port.{main}
use wpa_supplicant_ex.Port.Frames.{encode, AllBytes}
use wpa_supplicant_ex.Port.Rounds.{
  Round, Goes, polls_script, reads_script, sends_script, selects_script, recvs_script,
  writes_script, all_commands, all_texts,
}
use wpa_supplicant_ex.Port.EndToEnd.{Delivers}
use wpa_supplicant_ex.Program.{program, can_open, Concludes, program-Delivers}
use wpa_supplicant_ex.Kernel.Post.{Post}
use wpa_supplicant_ex.Kernel.Asking.{IsAsking, IsAsking-closed, Asks, WaitsForAnswer}
use wpa_supplicant_ex.Port.Asking.{main-IsAsking}
use wpa_supplicant_ex.Port.Total.{main-never-returns}

-- The program over the UNIX domain socket, with any arguments, whatever the kernel, the supplicant and
-- Erlang do, if what Erlang sends are bytes: it never returns from `main`, it exits or waits for the
-- kernel. Wherever that is, either nothing has been read or written, and nothing but `ATTACH` can
-- have gone out; or `ATTACH` has gone out, and `OK` has come back behind some events. From there on
-- the commands that have gone out are the first messages of the stream from Erlang, each once,
-- whole, within the buffer and in order; and Erlang has got each datagram that was taken from the
-- socket, in order, cut to the buffers and in a frame of its own, of which at most the last is not
-- complete, and nothing else. After an exit with success the last frame is complete too, and what
-- has been read of the stream behind those messages is at most the beginning of another.
pub program-KeepsAccount :
    (sys : System) (counter argc : ℕ) (ctrl_path : Option (List ℕ)) (w : World)
    → AllBytes (stream w.reads)
    → KeepsAccount as_is
        (attach_command true)
        ok_text
        (traffic w)
        (program sys counter argc ctrl_path w)
unfolding program
program-KeepsAccount sys counter argc ctrl_path w all =
    main-KeepsAccount unix unix_effects unix_laws argc (wpa_ctrl_open sys counter ctrl_path).ctrl w
      all

-- A signal that interrupts `writev` or `poll` changes nothing: with any arguments and whatever the
-- kernel, the supplicant and Erlang do, the program has the same end, with the same output, the same
-- commands and the same answers left but for the signals, as where no signal interrupts them.
pub program-IsCalm :
    (sys : System) (counter argc : ℕ) (ctrl_path : Option (List ℕ)) (w : World)
    → program sys counter argc ctrl_path (calm w) ≡ calm_end (program sys counter argc ctrl_path w)
unfolding program
program-IsCalm sys counter argc ctrl_path w =
    main-IsCalm unix (unix-closed (λ A m. IsCalm m) IsCalm-closed) argc
      (wpa_ctrl_open sys counter ctrl_path).ctrl w

exited-injective :
    {x y : Exit} {w u : World}
    → ◌≡◌ {A = Outcome (Unit {0})} (exited x w) (exited y u)
    → (x ≡ y) × (w ≡ u)
exited-injective h = (cc, cc)

Delivers-calm :
    (o : Outcome (Unit {0})) (out : List ℕ) (cs : List (List ℕ))
    → Delivers (calm_end o) out cs
    → Delivers o out cs
Delivers-calm (returned x w) out cs (u, e, a, b) = absurd cc
Delivers-calm (exited x w) out cs (u, e, a, b) =
    let (same, now) = exited-injective e in
    (w, ap (λ y. exited y w) same, ap (λ v. v.stdout) now ∙ a, ap (λ v. v.commands) now ∙ b)
Delivers-calm (waiting w) out cs (u, e, a, b) = absurd cc
Delivers-calm spent out cs (u, e, a, b) = absurd cc

-- The program with one argument, when it can open its connection, and the supplicant and the kernel
-- follow a script of rounds as `program-Delivers` has it, but that signals interrupt `writev` and
-- `poll` as often and wherever they like: it ends with success when the stream from Erlang ends, and
-- every command, event, reply and message has been delivered, once and in order.
pub program-Delivers_signals :
    {rs : List Round} {s : List ℕ} (sys : System) (counter : ℕ) (ctrl_path : List ℕ)
    (rd : List ReadAnswer) (sl : List SendAnswer) (sel : List SelectAnswer) (rl : List RecvAnswer)
    (wl : List WriteAnswer) (erl wpa : Revents) (pl : List PollAnswer) (w : World)
    → can_open sys counter ctrl_path ≡ true
    → (erl.pollin || erl.pollhup) ≡ true
    → Goes [] rs s
    → calm_polls w.polls ≡ polls_script rs (polled erl wpa ∷ pl)
    → w.reads ≡ reads_script rs (bytes [] ∷ rd)
    → w.sends ≡ sent ∷ sends_script rs sl
    → w.selects ≡ ready ∷ selects_script rs sel
    → w.recvs ≡ datagram ok_text ∷ recvs_script rs rl
    → calm_writes w.writes ≡ writes_script rs wl
    → Delivers
        (program sys counter 2 (some ctrl_path) w)
        (w.stdout ++ encode (all_texts rs))
        (w.commands ++ (attach_command true ∷ all_commands rs))
program-Delivers_signals {rs = rs} sys counter ctrl_path rd sl sel rl wl erl wpa pl w opens ended
      goes polls reads sends selects recvs writes =
    Delivers-calm (program sys counter 2 (some ctrl_path) w) _ _ (
      subst
        (λ o.
          Delivers o (w.stdout ++ encode (all_texts rs))
            (w.commands ++ (attach_command true ∷ all_commands rs)))
        (program-IsCalm sys counter 2 (some ctrl_path) w)
        (subst
          (λ b.
            Concludes b (program sys counter 2 (some ctrl_path) (calm w))
              (w.stdout ++ encode (all_texts rs))
              (w.commands ++ (attach_command true ∷ all_commands rs)) (calm w))
          opens
          (program-Delivers sys counter ctrl_path rd sl sel rl wl erl wpa pl (calm w) ended goes
            polls reads sends selects recvs writes)))

-- The end of a run that exits, or that waits in a call to which there is no answer.
abbrev pub EndsOrAsks : Outcome (Unit {0}) → Type 0
EndsOrAsks (returned x w) = ⊥
EndsOrAsks (exited e w) = Unit
EndsOrAsks (waiting w) = Asks w
EndsOrAsks spent = ⊥

-- With any arguments and whatever the kernel, the supplicant and Erlang do, the program never comes to
-- the end of `main`, and no loop in it runs out of fuel: it exits, or it waits in a call to which the
-- kernel has no answer left.
pub program-EndsOrAsks :
    (sys : System) (counter argc : ℕ) (ctrl_path : Option (List ℕ)) (w : World)
    → EndsOrAsks (program sys counter argc ctrl_path w)
unfolding program
program-EndsOrAsks sys counter argc ctrl_path w =
    both (main unix argc (wpa_ctrl_open sys counter ctrl_path).ctrl w)
      (main-never-returns unix unix_laws argc (wpa_ctrl_open sys counter ctrl_path).ctrl w)
      (main-IsAsking unix (unix-closed (λ A m. IsAsking m) IsAsking-closed) argc
        (wpa_ctrl_open sys counter ctrl_path).ctrl w)
  where
    both : (o : Outcome (Unit {0})) → Post (λ x u. ⊥) o → WaitsForAnswer o → EndsOrAsks o
    both (returned x u) ends asks = ends
    both (exited e u) ends asks = tt
    both (waiting u) ends asks = asks
    both spent ends asks = ends
