-- ===== src/Port/Whole.antt =====
-- `main` of src/wpa_ex.c over the UNIX domain socket, from its start to its exit.
use wpa_supplicant_ex.Shared.{
  ℕ, ◌≡◌, refl, ap, ◌∙◌, subst, true, ◌||◌, if◌then◌else◌, List, [], ◌∷◌, ◌++◌, none, some,
  append_assoc, arith,
}
use wpa_supplicant_ex.Kernel.{
  World, exited, exit_failure, returned, bind-at, SendAnswer, sent, SelectAnswer, ready, RecvAnswer,
  datagram, WriteAnswer, ReadAnswer, bytes, PollAnswer, polled, Revents,
}
use wpa_supplicant_ex.Ctrl.{unix, wpa_ctrl_attach, ten_bytes, attach_command}
use wpa_supplicant_ex.Ctrl.Attach.{ok_text, wpa_ctrl_attach_helper_lem}
use wpa_supplicant_ex.Api.{CtrlApi, error}
use wpa_supplicant_ex.Port.{fresh_port, main_loop, main_attached, main}
use wpa_supplicant_ex.Port.Frames.{encode}
use wpa_supplicant_ex.Port.Serial.{Rests}
use wpa_supplicant_ex.Port.Rounds.{
  Round, Goes, polls_script, reads_script, sends_script, selects_script, recvs_script,
  writes_script, all_commands, all_texts,
}
use wpa_supplicant_ex.Port.EndToEnd.{Delivers, rounds-Delivers}

-- Attaching, when the supplicant takes the command and says `OK`.
pub attach-accepted :
    (sl : List SendAnswer) (sel : List SelectAnswer) (rl : List RecvAnswer) (w : World)
    → w.sends ≡ sent ∷ sl
    → w.selects ≡ ready ∷ sel
    → w.recvs ≡ datagram ok_text ∷ rl
    → wpa_ctrl_attach w
      ≡ returned none (record w {
        sends = sl;
        selects = sel;
        recvs = rl;
        commands = w.commands ++ (attach_command true ∷ []);
      })
unfolding wpa_ctrl_attach
attach-accepted sl sel rl w sends selects recvs =
    let h =
      wpa_ctrl_attach_helper_lem true ok_text (λ h. ground arith) [] ten_bytes sl sel rl w refl tt
        sends selects recvs in
    subst
      (λ b.
        wpa_ctrl_attach w
        ≡ returned (if b then none else some error) (record w {
          sends = sl;
          selects = sel;
          recvs = rl;
          commands = w.commands ++ (attach_command true ∷ []);
        }))
      (h.2.1 refl) h.1

-- The whole program over the UNIX domain socket. The supplicant takes `ATTACH` and says `OK`.
-- Then rounds of any number follow, each behind any number of signals that interrupt `poll`: the
-- pipe from Erlang brings a piece that fits the rest of the buffer, cut anywhere, or nothing; the
-- supplicant answers every command that the piece completes, with events ahead of the reply,
-- which is no event, and may send messages by itself; and the pipe to Erlang takes every write
-- whole. Then the stream from Erlang ends. The process ends with success; the supplicant got
-- `ATTACH` and then each command that was completed, once and in order; and Erlang got each
-- event, reply and message, cut to the buffers, framed, once and in order.
pub main-Delivers {ℓ} :
    {Ctrl : Type ℓ} {rs : List Round} {s : List ℕ} (c : Ctrl) (rd : List ReadAnswer)
    (sl : List SendAnswer) (sel : List SelectAnswer) (rl : List RecvAnswer) (wl : List WriteAnswer)
    (erl wpa : Revents) (pl : List PollAnswer) (w : World)
    → (erl.pollin || erl.pollhup) ≡ true
    → Goes [] rs s
    → w.polls ≡ polls_script rs (polled erl wpa ∷ pl)
    → w.reads ≡ reads_script rs (bytes [] ∷ rd)
    → w.sends ≡ sent ∷ sends_script rs sl
    → w.selects ≡ ready ∷ selects_script rs sel
    → w.recvs ≡ datagram ok_text ∷ recvs_script rs rl
    → w.writes ≡ writes_script rs wl
    → Delivers
        (main unix 2 (some c) w)
        (w.stdout ++ encode (all_texts rs))
        (w.commands ++ (attach_command true ∷ all_commands rs))
unfolding main main_attached
main-Delivers {rs = rs} c rd sl sel rl wl erl wpa pl w ended goes polls reads sends selects recvs
      writes =
    let attached =
      attach-accepted (sends_script rs sl) (selects_script rs sel) (recvs_script rs rl) w sends
        selects recvs in
    let now = record w {
      sends = sends_script rs sl;
      selects = selects_script rs sel;
      recvs = recvs_script rs rl;
      commands = w.commands ++ (attach_command true ∷ []);
    } in
    let fresh : Rests [] fresh_port = record {
      room = record { sized = refl; below = omega arith };
      sized = refl;
      pending = refl;
    } in
    let (u, runs, out, cs) =
      rounds-Delivers rd sl sel rl wl erl wpa ended pl fresh_port now goes fresh
        (record { reads = reads; sends = refl; selects = refl; recvs = refl; writes = writes }) in
    (
      u,
      bind-at wpa_ctrl_attach _ w attached ∙ ap (λ l. main_loop unix l fresh_port now) polls ∙ runs,
      out,
      cs ∙ append_assoc w.commands (attach_command true ∷ []) (all_commands rs),
    )

-- Without a connection.
pub main-unopened :
    (Ctrl : Type 0) (api : CtrlApi) (w : World)
    → main api {Ctrl = Ctrl} 2 none w ≡ exited (exit_failure "Couldn't open") w
unfolding main
main-unopened Ctrl api w = refl
