-- ===== src/Ctrl/Quiet.antt =====
-- A request without a callback over the UNIX domain socket (src/wpa_ctrl/wpa_ctrl.c), for a buffer and a limit
-- of any sizes: what it sends and takes until it ends or is left waiting.
use wpa_supplicant_ex.Shared.{
  ℕ, ◌≡◌, refl, ◌∙◌, Bool, true, false, List, [], ◌∷◌, inl, inr, Bool-cases, if◌then◌else◌, length,
  take, overwrite, length-overwrite, none,
}
use wpa_supplicant_ex.Kernel.{
  World, K, return, SelectAnswer, select_failed, ready, idle, RecvAnswer, datagram, recv_failed,
}
use wpa_supplicant_ex.Kernel.Traffic.{
  Traffic, traffic, Leaves, Leaves->>=, HasReceived, recv-HasReceived,
}
use wpa_supplicant_ex.Kernel.Calls
use wpa_supplicant_ex.Api.{Reply, replied, failed, error}
use wpa_supplicant_ex.Api.Effects.{with_command, with_datagram}
use wpa_supplicant_ex.Ctrl.{
  reply_loop, after_recv, deliver, await_reply, wpa_ctrl_request, send_command, unset,
  is_unsolicited,
}
use wpa_supplicant_ex.Ctrl.Waiting.{HasSent, send_loop-HasSent}

module _ (size limit : ℕ) (I E : Traffic → Type 0) (stops : (t : Traffic) → I t → E t)
    (drops : (d : List ℕ) (t : Traffic) → I (with_datagram d t) → I t) where
  -- A reply is what the limit leaves of the next datagram, in a buffer of the caller's size.
  abbrev pub IsFilled : Reply → Traffic → Type 0
  IsFilled (replied b n) t =
      (d buf : List ℕ) × (length buf ≡ size)
      × (b ≡ overwrite (take limit d) buf)
      × (n ≡ length (take limit d))
      × I (with_datagram d t)
  IsFilled (failed e) t = E t

  after_recv-IsFilled :
      (buf : List ℕ) (continue : List ℕ → K Reply) (a : RecvAnswer) (w : World)
      → length buf ≡ size
      → HasReceived I limit a (traffic w)
      → ((b : List ℕ) (u : World)
          → length b ≡ size
          → I (traffic u)
          → Leaves IsFilled E (continue b u))
      → Leaves IsFilled E (after_recv none limit buf continue a w)
  unfolding after_recv deliver
  after_recv-IsFilled buf continue (recv_failed e) w sized h go = stops _ h
  after_recv-IsFilled buf continue (datagram xs) w sized (d, seen, h) go =
      rw seen
        (elim (Bool-cases (is_unsolicited (overwrite (take limit d) buf) (length (take limit d)))) [
          | inl event ↦ rw event (
              go (overwrite (take limit d) buf) w (length-overwrite (take limit d) buf ∙ sized)
                (drops d (traffic w) h))
          | inr reply ↦ rw reply (d, buf, sized, refl, refl, h)
        ])

  reply_loop-IsFilled :
      (buf : List ℕ) (later : List SelectAnswer) (w : World)
      → length buf ≡ size
      → I (traffic w)
      → Leaves IsFilled E (reply_loop none limit buf later w)
  unfolding reply_loop
  reply_loop-IsFilled buf [] w sized h = stops _ h
  reply_loop-IsFilled buf (select_failed ∷ later) w sized h = stops _ h
  reply_loop-IsFilled buf (idle ∷ later) w sized h = stops _ h
  reply_loop-IsFilled buf (ready ∷ later) w sized h =
      Leaves->>= (HasReceived I limit) IsFilled E (Calls.recv limit) _
        (record w { selects = later })
        (recv-HasReceived I E stops limit (record w { selects = later }) h)
        (λ a u k.
          after_recv-IsFilled buf _ a u sized k
            (λ b v fits i. reply_loop-IsFilled b later v fits i))

  pub quiet_request-IsFilled :
      (cmd buf : List ℕ) (w : World)
      → length buf ≡ size
      → E (traffic w)
      → I (with_command cmd (traffic w))
      → Leaves IsFilled E (wpa_ctrl_request cmd buf limit none w)
  unfolding wpa_ctrl_request send_command await_reply
  quiet_request-IsFilled cmd buf w sized e i =
      Leaves->>= (HasSent I E cmd) IsFilled E (send_command cmd) _ w
        (send_loop-HasSent I E cmd unset w.sends w (e, i)) go
    where
      go :
          (ok : Bool) (u : World)
          → HasSent I E cmd ok (traffic u)
          → Leaves IsFilled E ((if ok then await_reply none limit buf else return (failed error)) u)
      go true u h = reply_loop-IsFilled buf u.selects u sized h
      go false u h = h
