-- ===== src/Port/EndToEnd.antt =====
-- The main loop of src/wpa_ex.c over the UNIX domain socket, round after round until the stream from
-- Erlang ends.
use wpa_supplicant_ex.Shared.{
  ℕ, zero, suc, ◌-◌, ◌≡◌, refl, sym, ap, ◌∙◌, true, ◌||◌, if◌then◌else◌, List, [], ◌∷◌, ◌++◌,
  Option, none, some, map, append_assoc, append-nil, arith,
}
use wpa_supplicant_ex.Kernel.{
  World, Outcome, returned, exited, return, bind-at, exit_success, SendAnswer, SelectAnswer,
  RecvAnswer, WriteAnswer, ReadAnswer, bytes, PollAnswer, polled, Revents,
}
use wpa_supplicant_ex.Kernel.Calls
use wpa_supplicant_ex.Kernel.Calls.{unread}
use wpa_supplicant_ex.Ctrl.{unix}
use wpa_supplicant_ex.Port.{
  Port, buffer_size, after_read, process_erl, process_wpa, poll_round, main_loop,
}
use wpa_supplicant_ex.Port.Frames.{encode, encode-append}
use wpa_supplicant_ex.Port.Dispatch.{HasRoom}
use wpa_supplicant_ex.Port.Forward.{reply_text, arrivals}
use wpa_supplicant_ex.Port.Events.{all_taken, process_wpa-forwards}
use wpa_supplicant_ex.Port.Script.{commands, all_answers, sends_of, selects_of, recvs_of, writes_of}
use wpa_supplicant_ex.Port.Serial.{Rests, process_erl-forwards}
use wpa_supplicant_ex.Port.Rounds.{
  interrupted, Round, Goes, ends, quiet, fed, is_noticed, poll_of, polls_script, reads_script,
  sends_script, notice_selects, selects_script, notice_texts, recvs_script, writes_script,
  all_commands, all_texts,
}

-- What the supplicant has sent by itself goes to Erlang.
notices-forward :
    (n : Option (List (List ℕ))) (sel : List SelectAnswer) (rl : List RecvAnswer)
    (wl : List WriteAnswer) {s : List ℕ} (q : Port) (u : World)
    → Rests s q
    → u.selects ≡ notice_selects n sel
    → u.recvs ≡ arrivals (notice_texts n) rl
    → u.writes ≡ all_taken (notice_texts n) wl
    → (q' : Port) × Rests s q'
      × ((if is_noticed n then process_wpa unix q else return q) u
          ≡ returned q' (record u {
            selects = sel;
            recvs = rl;
            writes = wl;
            stdout = u.stdout ++ encode (map reply_text (notice_texts n));
          }))
unfolding arrivals all_taken encode
notices-forward none sel rl wl q u rests selects recvs writes =
    (q, rests, ground (arith, append-nil u.stdout))
notices-forward (some ds) sel rl wl q u rests selects recvs writes =
    let f = process_wpa-forwards sel rl wl q ds u rests.sized selects recvs writes in
    (
      record q { wpa_buffer = f.0 },
      record {
        room = record { sized = rests.room.sized; below = rests.room.below };
        sized = f.1;
        pending = rests.pending;
      },
      f.2,
    )

process_erl-ended :
    (p : Port) (rd : List ReadAnswer) (w : World)
    → HasRoom p
    → w.reads ≡ bytes [] ∷ rd
    → process_erl unix p w ≡ exited exit_success (record w { reads = rd })
unfolding process_erl after_read
process_erl-ended p rd w room reads =
    bind-at (Calls.read (buffer_size - p.erl_buffer_ix)) (after_read unix p) w
      (Calls.read-end (buffer_size - p.erl_buffer_ix) rd w (omega (arith, room.below)) reads)

-- The loop does not see what `poll` has said before.
main_loop-fresh :
    (l earlier : List PollAnswer) (p : Port) (w : World)
    → main_loop unix l p (record w { polls = earlier }) ≡ main_loop unix l p w
unfolding main_loop
main_loop-fresh [] earlier p w = refl
main_loop-fresh (a ∷ l) earlier p w = refl

-- A signal that interrupts `poll` leaves everything as it is.
interrupted-skips :
    (n : ℕ) (l : List PollAnswer) (p : Port) (w : World)
    → main_loop unix (interrupted n l) p w ≡ main_loop unix l p w
unfolding main_loop poll_round interrupted
interrupted-skips zero l p w = refl
interrupted-skips (suc n) l p w =
    main_loop-fresh (interrupted n l) (interrupted n l) p w ∙ interrupted-skips n l p w

-- Three stretches of messages, written one after the other.
three :
    (out : List ℕ) (a b c : List (List ℕ))
    → ((out ++ encode a) ++ encode b) ++ encode c ≡ out ++ encode (a ++ (b ++ c))
three out a b c =
    append_assoc (out ++ encode a) (encode b) (encode c)
    ∙ append_assoc out (encode a) (encode b ++ encode c)
    ∙ ap (λ t. out ++ t)
        (ap (λ t. encode a ++ t) (sym (encode-append b c)) ∙ sym (encode-append a (b ++ c)))

-- A world that answers as the rounds need, and then says that the stream from Erlang has ended.
pub record Scripted (rd : List ReadAnswer) (sl : List SendAnswer) (sel : List SelectAnswer)
    (rl : List RecvAnswer) (wl : List WriteAnswer) (rs : List Round) (w : World) : Type 0 where
  pub reads : w.reads ≡ reads_script rs (bytes [] ∷ rd)
  pub sends : w.sends ≡ sends_script rs sl
  pub selects : w.selects ≡ selects_script rs sel
  pub recvs : w.recvs ≡ recvs_script rs rl
  pub writes : w.writes ≡ writes_script rs wl

-- The run ends with success, and these are the bytes on standard output and the commands sent.
abbrev pub Delivers : Outcome (Unit {0}) → List ℕ → List (List ℕ) → Type 0
Delivers o out cs = (u : World) × (o ≡ exited exit_success u) × (u.stdout ≡ out) × (u.commands ≡ cs)

module _ (rd : List ReadAnswer) (sl : List SendAnswer) (sel : List SelectAnswer)
    (rl : List RecvAnswer) (wl : List WriteAnswer) (erl wpa : Revents)
    (ended : (erl.pollin || erl.pollhup) ≡ true) (pl : List PollAnswer) where
  pub rounds-Delivers :
      {r s : List ℕ} {rs : List Round} (p : Port) (w : World)
      → Goes r rs s
      → Rests r p
      → Scripted rd sl sel rl wl rs w
      → Delivers
          (main_loop unix (polls_script rs (polled erl wpa ∷ pl)) p w)
          (w.stdout ++ encode (all_texts rs))
          (w.commands ++ all_commands rs)
  unfolding main_loop poll_round polls_script reads_script sends_script selects_script recvs_script
      writes_script all_commands all_texts encode sends_of selects_of recvs_of writes_of commands
      all_answers
  rounds-Delivers p w ends rests sc = (
    record w { reads = rd; polls = pl },
    bind-at (poll_round unix (polled erl wpa) p) _ now (
        bind-at (if erl.pollin || erl.pollhup then process_erl unix p else return p) _ now (
          ap (λ b. (if b then process_erl unix p else return p) now) ended
          ∙ process_erl-ended p rd now rests.room sc.reads)),
    sym (append-nil w.stdout),
    sym (append-nil w.commands),
  )
    where
      now : World
      now = record w { polls = pl }
  rounds-Delivers p w (quiet {rs = rs} n notices rest) rests sc =
      let now = record w { polls = polls_script rs (polled erl wpa ∷ pl) } in
      let f =
        notices-forward notices (selects_script rs sel) (recvs_script rs rl) (writes_script rs wl) p
          now rests sc.selects sc.recvs sc.writes in
      let (u, runs, out, cs) = rounds-Delivers f.0 _ rest f.1 (record {
        reads = sc.reads;
        sends = sc.sends;
        selects = refl;
        recvs = refl;
        writes = refl;
      }) in
      (
        u,
        interrupted-skips n _ p w
            ∙ bind-at (if is_noticed notices then process_wpa unix p else return p) _ now f.2
            ∙ runs,
        out
            ∙ append_assoc w.stdout (encode (map reply_text (notice_texts notices)))
                (encode (all_texts rs))
            ∙ ap (λ t. w.stdout ++ t)
                (sym (encode-append (map reply_text (notice_texts notices)) (all_texts rs))),
        cs,
      )
  rounds-Delivers p w (fed {rs = rs} n x c xs notices fits parse ok rest) rests sc =
      let now = record w { polls = polls_script rs (polled erl wpa ∷ pl) } in
      let g =
        process_erl-forwards (sends_script rs sl) (notice_selects notices (selects_script rs sel))
          (arrivals (notice_texts notices) (recvs_script rs rl))
          (all_taken (notice_texts notices) (writes_script rs wl)) p x c
          (reads_script rs (bytes [] ∷ rd)) xs now rests fits parse ok sc.reads sc.sends sc.selects
          sc.recvs sc.writes in
      let f =
        notices-forward notices (selects_script rs sel) (recvs_script rs rl) (writes_script rs wl)
          g.0 _ g.1 refl refl refl in
      let (u, runs, out, cs) =
        rounds-Delivers f.0 _ rest f.1
          (record { reads = refl; sends = refl; selects = refl; recvs = refl; writes = refl }) in
      (
        u,
        interrupted-skips n _ p w
            ∙ bind-at
                (poll_round unix
                  (poll_of
                    (record { interrupts = n; piece = x ∷ c; exchanges = xs; notices = notices }))
                  p)
                _ now (bind-at (process_erl unix p) _ now g.2 ∙ f.2)
            ∙ runs,
        out
            ∙ three w.stdout (all_answers xs) (map reply_text (notice_texts notices))
                (all_texts rs),
        cs ∙ append_assoc w.commands (commands xs) (all_commands rs),
      )
