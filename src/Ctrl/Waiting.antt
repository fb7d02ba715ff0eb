-- ===== src/Ctrl/Waiting.antt =====
-- What a request over the UNIX domain socket (src/wpa_ctrl/wpa_ctrl.c) sends, takes and shows to its callback
-- until it ends or is left waiting.
use wpa_supplicant_ex.Shared.{
  ℕ, ◌-◌, ◌≤◌, ◌<◌, ◌≡◌, refl, ◌∙◌, Bool, true, false, List, [], ◌∷◌, none, some, inl, inr, arith,
  Bool-cases, if◌then◌else◌, length, take, overwrite, length-overwrite, ltb, ◌&&◌, ◌⊎◌, get_or,
  ◌==◌,
}
use wpa_supplicant_ex.Shared.Int.{pos, eqb_ℤ}
use wpa_supplicant_ex.Time.{Timestamp, os_reltime_expired}
use wpa_supplicant_ex.Kernel.{
  World, K, ◌>>=◌, return, is_again, SendAnswer, sent, send_failed, SelectAnswer, select_failed,
  ready, idle, RecvAnswer, datagram, recv_failed,
}
use wpa_supplicant_ex.Kernel.Traffic.{
  Traffic, traffic, Leaves, Leaves->>=, HasReceived, recv-HasReceived,
}
use wpa_supplicant_ex.Kernel.Calls
use wpa_supplicant_ex.Kernel.Calls.{get_reltime, next_clock, sleep, select, next_select}
use wpa_supplicant_ex.Api.{Reply, replied, failed, error, Callback}
use wpa_supplicant_ex.Api.Effects.{with_command, with_datagram}
use wpa_supplicant_ex.Ctrl.{
  send_loop, send_command, accept_send, refuse_send, unset, reply_loop, after_recv, deliver,
  await_reply, wpa_ctrl_request,
}
use wpa_supplicant_ex.Ctrl.Exchange.{
  IsEvent, cut, noted, length-noted, is_unsolicited-event, is_unsolicited-reply, after_recv-event,
}

-- The clock and `select` carry no bytes.
module _ (I E : Traffic → Type 0) (stops : (t : Traffic) → I t → E t) where
  next_clock-same :
      (ts : List Timestamp) (w : World) → I (traffic w) → Leaves (λ t u. I u) E (next_clock ts w)
  unfolding next_clock
  next_clock-same [] w h = stops _ h
  next_clock-same (t ∷ ts) w h = h

  get_reltime-same : (w : World) → I (traffic w) → Leaves (λ t u. I u) E (get_reltime w)
  unfolding get_reltime
  get_reltime-same w h = next_clock-same w.clocks w h

  pub next_select-same :
      (s : List SelectAnswer) (w : World) → I (traffic w) → Leaves (λ a u. I u) E (next_select s w)
  unfolding next_select
  next_select-same [] w h = stops _ h
  next_select-same (a ∷ s) w h = h

-- A command has gone out once, or not at all.
module _ (I E : Traffic → Type 0) (cmd : List ℕ) where
  abbrev pub HasSent : Bool → Traffic → Type 0
  HasSent true t = I t
  HasSent false t = E t

  abbrev CanSend : Traffic → Type 0
  CanSend t = E t × I (with_command cmd t)

  after_clock :
      (k : Timestamp → K Bool) (w : World)
      → CanSend (traffic w)
      → ((t : Timestamp) (u : World) → CanSend (traffic u) → Leaves HasSent E (k t u))
      → Leaves HasSent E ((get_reltime >>= k) w)
  after_clock k w h go =
      Leaves->>= (λ t u. CanSend u) HasSent E get_reltime k w
        (get_reltime-same CanSend E (λ t x. x.0) w h) go

  pub send_loop-HasSent :
      (t0 : Timestamp) (later : List SendAnswer) (w : World)
      → CanSend (traffic w)
      → Leaves HasSent E (send_loop cmd t0 later w)
  unfolding send_loop accept_send refuse_send sleep
  send_loop-HasSent t0 [] w h = h.0
  send_loop-HasSent t0 (sent ∷ later) w h = h.1
  send_loop-HasSent t0 (send_failed e ∷ later) w h = elim (Bool-cases (is_again e)) [
    | inr fatal ↦ rw fatal (h.0)
    | inl again ↦ elim (Bool-cases (eqb_ℤ t0.sec (pos 0))) [
      | inl first ↦ rw (again, first) (after_clock _ w h (λ t u k. send_loop-HasSent t later _ k))
      | inr started ↦
          rw (again, started)
            (after_clock _ w h (λ t u k. elim (Bool-cases (os_reltime_expired t t0 (pos 5))) [
              | inl over ↦ rw over (k.0)
              | inr within ↦ rw within (send_loop-HasSent t0 later _ k)
            ]))
    ]
  ]

-- `d` is an event or it is not.
IsEvent-or-reply : (d : List ℕ) → IsEvent d ⊎ (¬ IsEvent d)
IsEvent-or-reply d = elim (Bool-cases (ltb 0 (length d) && (get_or d 0 0 == b'<'))) [
  | inl event ↦ inl (ground arith)
  | inr reply ↦ inr (λ h. ground arith)
]

-- `msg_cb`, where there is one.
abbrev pub called : Callback → List ℕ → K (Unit {0})
called none msg = return tt
called (some f) msg = f msg

module _ (limit : ℕ) (positive : 0 < limit) where
  -- An event is shown as far as the buffer holds it, and the loop goes on with a buffer of the same size.
  after_recv-shows :
      (f : Callback) (buf d : List ℕ) (continue : List ℕ → K Reply) (w : World)
      → length buf ≡ limit
      → IsEvent d
      → (buf' : List ℕ) × (length buf' ≡ limit)
        × (after_recv f limit buf continue (datagram (take limit d)) w
            ≡ (called f (take (limit - 1) d) >>= λ _. continue buf') w)
  after_recv-shows none buf d continue w sized e = (
    overwrite (take limit d) buf,
    length-overwrite (take limit d) buf ∙ sized,
    (unfold after_recv deliver cut in
        rw (is_unsolicited-event limit buf d positive (omega (arith, sized)) e) refl),
  )
  after_recv-shows (some f) buf d continue w sized e =
      let room : limit ≤ length buf = omega (arith, sized) in
      (
        noted limit buf d positive room,
        length-noted limit buf d positive room ∙ sized,
        (unfold cut in after_recv-event limit buf d positive room f continue w e),
      )

  -- A reply, in a buffer of the size of the caller's.
  abbrev pub IsTaken : (Traffic → Type 0) → (Traffic → Type 0) → Reply → Traffic → Type 0
  IsTaken I E (replied b n) t =
      (d buf : List ℕ) × (length buf ≡ limit)
      × (b ≡ overwrite (take limit d) buf)
      × (n ≡ length (take limit d))
      × I (with_datagram d t)
  IsTaken I E (failed e) t = E t

  module _ (f : Callback) (I E : Traffic → Type 0) (stops : (t : Traffic) → I t → E t)
      (shows : (d : List ℕ) (u : World)
        → IsEvent d
        → I (with_datagram d (traffic u))
        → Leaves (λ x t. I t) E (called f (take (limit - 1) d) u)) where
    after_recv-IsTaken :
        (buf : List ℕ) (continue : List ℕ → K Reply) (a : RecvAnswer) (w : World)
        → length buf ≡ limit
        → HasReceived I limit a (traffic w)
        → ((b : List ℕ) (u : World)
            → length b ≡ limit
            → I (traffic u)
            → Leaves (IsTaken I E) E (continue b u))
        → Leaves (IsTaken I E) E (after_recv f limit buf continue a w)
    after_recv-IsTaken buf continue (recv_failed e) w sized h go = unfold after_recv in stops _ h
    after_recv-IsTaken buf continue (datagram xs) w sized (d, seen, h) go =
        rw seen (elim (IsEvent-or-reply d) [
          | inl event ↦
              let (b, fits, goes) = after_recv-shows f buf d continue w sized event in
              rw goes (
                Leaves->>= (λ x t. I t) (IsTaken I E) E (called f (take (limit - 1) d))
                  (λ _. continue b) w (shows d w event h) (λ x u k. go b u fits k))
          | inr reply ↦
              unfold after_recv cut in
              rw (is_unsolicited-reply limit buf d positive (omega (arith, sized)) reply)
                (d, buf, sized, refl, refl, h)
        ])

    reply_loop-IsTaken :
        (buf : List ℕ) (later : List SelectAnswer) (w : World)
        → length buf ≡ limit
        → I (traffic w)
        → Leaves (IsTaken I E) E (reply_loop f limit buf later w)
    unfolding reply_loop
    reply_loop-IsTaken buf [] w sized h = stops _ h
    reply_loop-IsTaken buf (select_failed ∷ later) w sized h = stops _ h
    reply_loop-IsTaken buf (idle ∷ later) w sized h = stops _ h
    reply_loop-IsTaken buf (ready ∷ later) w sized h =
        Leaves->>= (HasReceived I limit) (IsTaken I E) E (Calls.recv limit) _
          (record w { selects = later })
          (recv-HasReceived I E stops limit (record w { selects = later }) h)
          (λ a u k.
            after_recv-IsTaken buf _ a u sized k
              (λ b v fits i. reply_loop-IsTaken b later v fits i))

    pub request-IsTaken :
        (cmd buf : List ℕ) (w : World)
        → length buf ≡ limit
        → E (traffic w)
        → I (with_command cmd (traffic w))
        → Leaves (IsTaken I E) E (wpa_ctrl_request cmd buf limit f w)
    unfolding wpa_ctrl_request send_command await_reply
    request-IsTaken cmd buf w sized e i =
        Leaves->>= (HasSent I E cmd) (IsTaken I E) E (send_command cmd) _ w
          (send_loop-HasSent I E cmd unset w.sends w (e, i)) go
      where
        go :
            (ok : Bool) (u : World)
            → HasSent I E cmd ok (traffic u)
            → Leaves
                (IsTaken I E)
                E
                ((if ok then await_reply f limit buf else return (failed error)) u)
        go true u h = reply_loop-IsTaken buf u.selects u sized h
        go false u h = h
