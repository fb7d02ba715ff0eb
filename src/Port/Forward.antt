-- ===== src/Port/Forward.antt =====
-- A request of the port program over the socket (src/wpa_ex.c with src/wpa_ctrl/wpa_ctrl.c): events
-- that come before the reply, and the reply, all go to Erlang.
use wpa_supplicant_ex.Shared.{
  ℕ, ◌+◌, ◌≤◌, ◌≡◌, refl, sym, ap, ap₂, ◌∙◌, List, [], ◌∷◌, ◌++◌, map, arith, some, length, take,
  overwrite, append_assoc, append-nil, length-take, length-overwrite, take-overwrite,
}
use wpa_supplicant_ex.Kernel.{
  World, returned, ◌>>=◌, return, bind-at, WriteAnswer, wrote, SelectAnswer, ready, RecvAnswer,
  datagram, SendAnswer, sent,
}
use wpa_supplicant_ex.Api.{replied}
use wpa_supplicant_ex.Ctrl.{reply_loop, unix, wpa_ctrl_request}
use wpa_supplicant_ex.Ctrl.Exchange.{
  IsEvent, cut, noted, length-noted, reply_loop-event, reply_loop-reply, wpa_ctrl_request-sent,
}
use wpa_supplicant_ex.Port.{buffer_size, frame, send_to_erl, do_wpa_request, forward_reply}
use wpa_supplicant_ex.Port.Frames.{encode, encode-snoc}
use wpa_supplicant_ex.Port.Output.{send_to_erl-sends}

abbrev pub AllEvents : List (List ℕ) → Type 0
AllEvents [] = Unit {0}
AllEvents (d ∷ ds) = IsEvent d × AllEvents ds

-- The kernel writes all that it is given.
abbrev pub written : List ℕ → WriteAnswer
written msg = wrote (length msg + 2)

-- An event loses its last byte if it fills the buffer; the NUL takes its place.
abbrev pub event_text : List ℕ → List ℕ
event_text = take 2047

abbrev pub reply_text : List ℕ → List ℕ
reply_text = take buffer_size

unfoldable pub readies : List (List ℕ) → List SelectAnswer → List SelectAnswer
readies [] later = later
readies (d ∷ ds) later = ready ∷ readies ds later

unfoldable pub arrivals : List (List ℕ) → List RecvAnswer → List RecvAnswer
arrivals [] later = later
arrivals (d ∷ ds) later = datagram d ∷ arrivals ds later

unfoldable pub all_written : List (List ℕ) → List WriteAnswer → List WriteAnswer
all_written [] later = later
all_written (d ∷ ds) later = written (event_text d) ∷ all_written ds later

module _ (d : List ℕ) (reply : ¬ IsEvent d) (sel : List SelectAnswer) (rl : List RecvAnswer) where
  reply_loop-forwards :
      (wl : List WriteAnswer) (ds : List (List ℕ)) (buf : List ℕ) (w : World)
      → length buf ≡ buffer_size
      → AllEvents ds
      → w.recvs ≡ arrivals ds (datagram d ∷ rl)
      → w.writes ≡ all_written ds wl
      → (buf' : List ℕ) × (n : ℕ) × (reply_loop
            (some send_to_erl)
            buffer_size
            buf
            (readies ds (ready ∷ sel))
            w
          ≡ returned (replied buf' n) (record w {
            selects = sel;
            recvs = rl;
            writes = wl;
            stdout = w.stdout ++ encode (map event_text ds);
          }))
        × (take n buf' ≡ reply_text d)
        × (length buf' ≡ buffer_size)
  unfolding readies arrivals all_written encode cut
  reply_loop-forwards wl [] buf w sized ev recvs writes = (
    overwrite (take buffer_size d) buf,
    length (take buffer_size d),
    reply_loop-reply buffer_size buf d (omega arith) (omega (arith, sized)) (some send_to_erl) sel
          rl w reply recvs
        ∙ ap₂
            (λ ws out.
              returned (replied (overwrite (take buffer_size d) buf) (length (take buffer_size d)))
                (record w { selects = sel; recvs = rl; writes = ws; stdout = out }))
            writes (sym (append-nil w.stdout)),
    take-overwrite (take buffer_size d) buf _ refl
        (omega (arith, length-take buffer_size d, sized)),
    length-overwrite (take buffer_size d) buf ∙ sized,
  )
  reply_loop-forwards wl (x ∷ ds) buf w sized ev recvs writes =
      let fits : buffer_size ≤ length buf = omega (arith, sized) in
      let buf1 = noted buffer_size buf x (omega arith) fits in
      let w1 = record w {
        selects = readies ds (ready ∷ sel);
        recvs = arrivals ds (datagram d ∷ rl);
      } in
      let w2 = record w1 {
        writes = all_written ds wl;
        stdout = w.stdout ++ frame (event_text x);
      } in
      let rest =
        reply_loop-forwards wl ds buf1 w2
          (length-noted buffer_size buf x (omega arith) fits ∙ sized) ev.1 refl refl in
      (
        rest.0,
        rest.1,
        reply_loop-event buffer_size buf x (omega arith) fits send_to_erl (readies ds (ready ∷ sel))
              (arrivals ds (datagram d ∷ rl)) w ev.0 recvs
            ∙ bind-at (send_to_erl (event_text x)) _ w1
                (send_to_erl-sends 0 (event_text x) (all_written ds wl) w1 writes)
            ∙ rest.2
            ∙ ap
                (λ out.
                  returned (replied rest.0 rest.1)
                    (record w { selects = sel; recvs = rl; writes = wl; stdout = out }))
                (append_assoc w.stdout (frame (event_text x)) (encode (map event_text ds))),
        rest.3,
        rest.4,
      )

  -- While the supplicant accepts the command, sends the events `ds` and then the reply `d`, and
  -- standard output takes all it is given, a request returns; the command went out once, and the
  -- events and the reply went to Erlang in the order of their arrival, each in a frame of its own.
  pub do_wpa_request-forwards :
      (wl : List WriteAnswer) (ds : List (List ℕ)) (cmd buf : List ℕ) (sl : List SendAnswer)
      (w : World)
      → length buf ≡ buffer_size
      → AllEvents ds
      → w.sends ≡ sent ∷ sl
      → w.selects ≡ readies ds (ready ∷ sel)
      → w.recvs ≡ arrivals ds (datagram d ∷ rl)
      → w.writes ≡ all_written ds (wrote (length (reply_text d) + 2) ∷ wl)
      → (buf' : List ℕ) × (do_wpa_request unix cmd buf w
          ≡ returned buf' (record w {
            sends = sl;
            selects = sel;
            recvs = rl;
            writes = wl;
            commands = w.commands ++ (cmd ∷ []);
            stdout = w.stdout ++ encode (map event_text ds ++ (reply_text d ∷ []));
          }))
        × (length buf' ≡ buffer_size)
  unfolding do_wpa_request
  do_wpa_request-forwards wl ds cmd buf sl w sized ev sends selects recvs writes =
      (loop.0, runs, loop.4)
    where
      asked : World
      asked = record w { sends = sl; commands = w.commands ++ (cmd ∷ []) }

      text : List ℕ
      text = reply_text d

      answered : World
      answered = record asked {
        selects = sel;
        recvs = rl;
        writes = written text ∷ wl;
        stdout = w.stdout ++ encode (map event_text ds);
      }

      loop :
          (buf' : List ℕ) × (n : ℕ) × (reply_loop
              (some send_to_erl)
              buffer_size
              buf
              (readies ds (ready ∷ sel))
              asked
            ≡ returned (replied buf' n) answered)
          × (take n buf' ≡ text)
          × (length buf' ≡ buffer_size)
      loop = reply_loop-forwards (written text ∷ wl) ds buf asked sized ev recvs writes

      out : List ℕ → World
      out so = record asked { selects = sel; recvs = rl; writes = wl; stdout = so }

      runs :
          do_wpa_request unix cmd buf w
          ≡ returned loop.0 (out (w.stdout ++ encode (map event_text ds ++ (text ∷ []))))
      runs =
          bind-at (wpa_ctrl_request cmd buf buffer_size (some send_to_erl)) (forward_reply unix) w
            (wpa_ctrl_request-sent cmd buf buffer_size _ sl _ w sends selects ∙ loop.2)
          ∙ ap (λ m. (send_to_erl m >>= λ _. return loop.0) answered) loop.3
          ∙ bind-at (send_to_erl text) _ answered (send_to_erl-sends 0 text wl answered refl)
          ∙ ap (λ so. returned loop.0 (out so))
              (append_assoc w.stdout (encode (map event_text ds)) (frame text)
                ∙ ap (λ s. w.stdout ++ s) (sym (encode-snoc (map event_text ds) text)))
