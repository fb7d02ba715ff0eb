-- ===== src/Ctrl/Attach.antt =====
-- Attaching, polling and receiving (src/wpa_ctrl/wpa_ctrl.c).
use wpa_supplicant_ex.Shared.{
  ℕ, ◌≤◌, ◌≡◌, ◌↔◌, refl, ◌∙◌, Bool, true, false, List, [], ◌∷◌, ◌++◌, none, some, arith,
  if◌then◌else◌, length, overwrite, take, length-overwrite,
}
use wpa_supplicant_ex.Kernel.{
  World, returned, bind-at, SendAnswer, sent, SelectAnswer, ready, idle, select_failed, RecvAnswer,
  datagram,
}
use wpa_supplicant_ex.Kernel.Calls
use wpa_supplicant_ex.Api.{replied, error}
use wpa_supplicant_ex.Ctrl.{
  reply_loop, after_recv, deliver, is_ok, attach_result, attach_command, wpa_ctrl_attach_helper,
  wpa_ctrl_pending, wpa_ctrl_request, is_set,
}
use wpa_supplicant_ex.Ctrl.Exchange.{
  IsEvent, cut, is_unsolicited-event, reply_loop-reply, wpa_ctrl_request-sent,
}

pending-asked :
    (a : SelectAnswer) (later : List SelectAnswer) (w : World)
    → w.selects ≡ a ∷ later
    → wpa_ctrl_pending w ≡ returned (is_set a) (record w { selects = later })
unfolding wpa_ctrl_pending
pending-asked a later w e = bind-at Calls.select _ w (Calls.select-answer a later w e)

pub pending-ready :
    (later : List SelectAnswer) (w : World)
    → w.selects ≡ ready ∷ later
    → wpa_ctrl_pending w ≡ returned true (record w { selects = later })
unfolding is_set
pending-ready later w e = pending-asked ready later w e

pub pending-idle :
    (later : List SelectAnswer) (w : World)
    → w.selects ≡ idle ∷ later
    → wpa_ctrl_pending w ≡ returned false (record w { selects = later })
unfolding is_set
pending-idle later w e = pending-asked idle later w e

pub pending-failed :
    (later : List SelectAnswer) (w : World)
    → w.selects ≡ select_failed ∷ later
    → wpa_ctrl_pending w ≡ returned true (record w { selects = later })
unfolding is_set
pending-failed later w e = pending-asked select_failed later w e

-- `wpa_ctrl_pending` always returns, and it says that there is no message exactly when `select` finds
-- the socket idle: a `select` that fails counts as a message.
pub wpa_ctrl_pending_lem :
    (a : SelectAnswer) (later : List SelectAnswer) (w : World)
    → w.selects ≡ a ∷ later
    → (more : Bool) × (wpa_ctrl_pending w ≡ returned more (record w { selects = later }))
      × ((more ≡ false) ↔ (a ≡ idle))
wpa_ctrl_pending_lem a later w e =
    (is_set a, pending-asked a later w e, unfold is_set in ground arith)

-- Events ahead of the reply, with no callback: they are dropped.
abbrev pub drop_events : List (List ℕ) → List RecvAnswer → List RecvAnswer
drop_events [] later = later
drop_events (d ∷ ds) later = datagram d ∷ drop_events ds later

abbrev pub drop_readies : List (List ℕ) → List SelectAnswer → List SelectAnswer
drop_readies [] later = later
drop_readies (d ∷ ds) later = ready ∷ drop_readies ds later

abbrev pub AllEvents : List (List ℕ) → Type 0
AllEvents [] = Unit {0}
AllEvents (d ∷ ds) = IsEvent d × AllEvents ds

module _ (d : List ℕ) (reply : ¬ IsEvent d) (sel : List SelectAnswer) (rl : List RecvAnswer) where
  reply_loop-drops :
      (ds : List (List ℕ)) (buf : List ℕ) (w : World)
      → length buf ≡ 10
      → AllEvents ds
      → w.recvs ≡ drop_events ds (datagram d ∷ rl)
      → (buf' : List ℕ) × (length buf' ≡ 10)
        × (reply_loop none 10 buf (drop_readies ds (ready ∷ sel)) w
            ≡ returned
                (replied (overwrite (take 10 d) buf') (length (take 10 d)))
                (record w { selects = sel; recvs = rl }))
  unfolding reply_loop after_recv deliver cut
  reply_loop-drops [] buf w sized ev recvs = (
    buf,
    sized,
    reply_loop-reply 10 buf d (omega arith) (omega (arith, sized)) none sel rl w reply recvs,
  )
  reply_loop-drops (x ∷ ds) buf w sized ev recvs =
      let fits : 10 ≤ length buf = omega (arith, sized) in
      let w1 = record w {
        selects = drop_readies ds (ready ∷ sel);
        recvs = drop_events ds (datagram d ∷ rl);
      } in
      let rest =
        reply_loop-drops ds (overwrite (take 10 x) buf) w1
          (length-overwrite (take 10 x) buf ∙ sized) ev.1 refl in
      (
        rest.0,
        rest.1,
        bind-at (Calls.recv 10) _ _ (
              Calls.recv-datagram 10 x (drop_events ds (datagram d ∷ rl))
                (record w { selects = drop_readies ds (ready ∷ sel) }) recvs)
            ∙ rw (is_unsolicited-event 10 buf x (omega arith) fits ev.0) rest.2,
      )

abbrev pub ok_text : List ℕ
ok_text = b'O' ∷ b'K' ∷ 10 ∷ []

-- The test of the reply sees the datagram itself.
pub is_ok-datagram :
    (d buf : List ℕ)
    → length buf ≡ 10
    → (is_ok (overwrite (take 10 d) buf) (length (take 10 d)) ≡ true) ↔ (d ≡ ok_text)
unfolding is_ok
is_ok-datagram [] buf sized = (λ h. cc, λ h. cc)
is_ok-datagram (a ∷ []) buf sized = (λ h. cc, λ h. cc)
is_ok-datagram (a ∷ b ∷ []) buf sized = (λ h. cc, λ h. cc)
is_ok-datagram (a ∷ b ∷ c ∷ []) [] sized = absurd (omega arith)
is_ok-datagram (a ∷ b ∷ c ∷ []) (x ∷ []) sized = absurd (omega arith)
is_ok-datagram (a ∷ b ∷ c ∷ []) (x ∷ y ∷ []) sized = absurd (omega arith)
is_ok-datagram (a ∷ b ∷ c ∷ []) (x ∷ y ∷ z ∷ buf) sized = ground arith
is_ok-datagram (a ∷ b ∷ c ∷ e ∷ d) buf sized = (λ h. ground arith, λ h. cc)

module _ (attach : Bool) (d : List ℕ) (reply : ¬ IsEvent d) where
  -- Attaching and detaching return when the socket takes the command and a reply comes: `ATTACH` or
  -- `DETACH` goes out once, events ahead of the reply are dropped, and the result is 0 exactly when
  -- the reply is `OK` with a newline, and else -1.
  pub wpa_ctrl_attach_helper_lem :
      (ds : List (List ℕ)) (buf : List ℕ) (sl : List SendAnswer) (sel : List SelectAnswer)
      (rl : List RecvAnswer) (w : World)
      → length buf ≡ 10
      → AllEvents ds
      → w.sends ≡ sent ∷ sl
      → w.selects ≡ drop_readies ds (ready ∷ sel)
      → w.recvs ≡ drop_events ds (datagram d ∷ rl)
      → (accepted : Bool) × (wpa_ctrl_attach_helper buf attach w
          ≡ returned (if accepted then none else some error) (record w {
            sends = sl;
            selects = sel;
            recvs = rl;
            commands = w.commands ++ (attach_command attach ∷ []);
          }))
        × ((accepted ≡ true) ↔ (d ≡ ok_text))
  unfolding wpa_ctrl_attach_helper
  wpa_ctrl_attach_helper_lem ds buf sl sel rl w sized ev sends selects recvs = (
    is_ok (overwrite (take 10 d) loop.0) (length (take 10 d)),
    asked,
    is_ok-datagram d loop.0 loop.1,
  )
    where
      sent_world : World
      sent_world = record w { sends = sl; commands = w.commands ++ (attach_command attach ∷ []) }

      loop :
          (buf' : List ℕ) × (length buf' ≡ 10)
          × (reply_loop none 10 buf (drop_readies ds (ready ∷ sel)) sent_world
              ≡ returned
                  (replied (overwrite (take 10 d) buf') (length (take 10 d)))
                  (record sent_world { selects = sel; recvs = rl }))
      loop = reply_loop-drops d reply sel rl ds buf sent_world sized ev recvs

      asked :
          wpa_ctrl_attach_helper buf attach w
          ≡ returned
              (attach_result (replied (overwrite (take 10 d) loop.0) (length (take 10 d))))
              (record sent_world { selects = sel; recvs = rl })
      asked = bind-at (wpa_ctrl_request (attach_command attach) buf 10 none) _ w (
          wpa_ctrl_request-sent (attach_command attach) buf 10 none sl
            (drop_readies ds (ready ∷ sel)) w sends selects
          ∙ loop.2)
