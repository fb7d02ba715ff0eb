-- ===== src/Port/Script.antt =====
-- A scripted outside for src/wpa_ex.c: what the supplicant answers to the commands of a session, and
-- the requests of the port program against it.
use wpa_supplicant_ex.Shared.{
  ℕ, ◌+◌, ◌≡◌, refl, sym, ap, ap₂, ◌∙◌, List, [], ◌∷◌, ◌++◌, map, append_assoc, append-nil, length,
  arith,
}
use wpa_supplicant_ex.Kernel.{
  World, returned, bind-at, SendAnswer, sent, SelectAnswer, ready, RecvAnswer, datagram,
  WriteAnswer, wrote,
}
use wpa_supplicant_ex.Ctrl.{unix}
use wpa_supplicant_ex.Ctrl.Exchange.{IsEvent}
use wpa_supplicant_ex.Port.{buffer_size, do_wpa_request}
use wpa_supplicant_ex.Port.Frames.{encode, encode-append}
use wpa_supplicant_ex.Port.Dispatch.{run_all}
use wpa_supplicant_ex.Port.Forward.{
  AllEvents, event_text, reply_text, readies, arrivals, all_written, do_wpa_request-forwards,
}

-- A command, the events that come before its reply, and the reply.
pub record Exchange : Type 0 where
  pub command : List ℕ
  pub events : List (List ℕ)
  pub reply : List ℕ

abbrev pub IsExchange : Exchange → Type 0
IsExchange x = AllEvents x.events × ¬ IsEvent x.reply

abbrev pub AllExchanges : List Exchange → Type 0
AllExchanges [] = Unit {0}
AllExchanges (x ∷ xs) = IsExchange x × AllExchanges xs

unfoldable pub commands : List Exchange → List (List ℕ)
commands [] = []
commands (x ∷ xs) = x.command ∷ commands xs

-- The texts that an exchange sends to Erlang.
abbrev pub answers : Exchange → List (List ℕ)
answers x = map event_text x.events ++ (reply_text x.reply ∷ [])

unfoldable pub all_answers : List Exchange → List (List ℕ)
all_answers [] = []
all_answers (x ∷ xs) = answers x ++ all_answers xs

-- The kernel's answers while the exchanges go on, and then the later ones.
unfoldable pub sends_of : List Exchange → List SendAnswer → List SendAnswer
sends_of [] later = later
sends_of (x ∷ xs) later = sent ∷ sends_of xs later

unfoldable pub selects_of : List Exchange → List SelectAnswer → List SelectAnswer
selects_of [] later = later
selects_of (x ∷ xs) later = readies x.events (ready ∷ selects_of xs later)

unfoldable pub recvs_of : List Exchange → List RecvAnswer → List RecvAnswer
recvs_of [] later = later
recvs_of (x ∷ xs) later = arrivals x.events (datagram x.reply ∷ recvs_of xs later)

unfoldable pub writes_of : List Exchange → List WriteAnswer → List WriteAnswer
writes_of [] later = later
writes_of (x ∷ xs) later =
    all_written x.events (wrote (length (reply_text x.reply) + 2) ∷ writes_of xs later)

module _ (sl : List SendAnswer) (sel : List SelectAnswer) (rl : List RecvAnswer)
    (wl : List WriteAnswer) where
  -- The world behind some exchanges.
  abbrev pub served_world : World → List (List ℕ) → List (List ℕ) → World
  served_world w cs texts = record w {
    sends = sl;
    selects = sel;
    recvs = rl;
    writes = wl;
    commands = w.commands ++ cs;
    stdout = w.stdout ++ encode texts;
  }

  pub run_all-forwards :
      (xs : List Exchange) (buf : List ℕ) (w : World)
      → length buf ≡ buffer_size
      → AllExchanges xs
      → w.sends ≡ sends_of xs sl
      → w.selects ≡ selects_of xs sel
      → w.recvs ≡ recvs_of xs rl
      → w.writes ≡ writes_of xs wl
      → (buf' : List ℕ) × (length buf' ≡ buffer_size)
        × (run_all unix (commands xs) buf w
            ≡ returned buf' (served_world w (commands xs) (all_answers xs)))
  unfolding run_all commands all_answers sends_of selects_of recvs_of writes_of encode
  run_all-forwards [] buf w sized ok sends selects recvs writes =
      (buf, sized, ground (arith, append-nil w.commands, append-nil w.stdout))
  run_all-forwards (x ∷ xs) buf w sized ok sends selects recvs writes =
      let one =
        do_wpa_request-forwards x.reply ok.0.1 (selects_of xs sel) (recvs_of xs rl)
          (writes_of xs wl) x.events x.command buf (sends_of xs sl) w sized ok.0.0 sends selects
          recvs writes in
      let rest = run_all-forwards xs one.0 _ one.2 ok.1 refl refl refl refl in
      (
        rest.0,
        rest.1,
        bind-at (do_wpa_request unix x.command buf) (run_all unix (commands xs)) w one.1
            ∙ rest.2
            ∙ ap₂
                (λ cs so. returned rest.0 (record w {
                  sends = sl;
                  selects = sel;
                  recvs = rl;
                  writes = wl;
                  commands = cs;
                  stdout = so;
                }))
                (append_assoc w.commands (x.command ∷ []) (commands xs))
                (append_assoc w.stdout (encode (answers x)) (encode (all_answers xs))
                  ∙ ap (λ t. w.stdout ++ t) (sym (encode-append (answers x) (all_answers xs)))),
      )
