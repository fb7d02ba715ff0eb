-- ===== src/Ctrl/Effects.antt =====
-- What the control interface over a UNIX domain socket (src/wpa_ctrl/wpa_ctrl.c) sends, takes and passes
-- on, however its calls end.
use wpa_supplicant_ex.Shared.{
  ℕ, ◌<◌, ◌≡◌, refl, sym, ap, ◌∙◌, true, List, [], ◌∷◌, ◌++◌, append_assoc, none, some, inl, inr,
  arith, Bool-cases, length, take, overwrite, length-overwrite, length-take, take-overwrite,
}
use wpa_supplicant_ex.Kernel.{◌>>=◌, K, return, World, RecvAnswer, datagram, recv_failed}
use wpa_supplicant_ex.Kernel.Traffic.{
  Traffic, traffic, Leaves, Leaves->>=, Leaves-weaken, HasReceived, recv-HasReceived,
}
use wpa_supplicant_ex.Kernel.Calls
use wpa_supplicant_ex.Kernel.Calls.{get_reltime, next_clock, sleep, select, next_select}
use wpa_supplicant_ex.Api.{Reply, replied, failed}
use wpa_supplicant_ex.Api.Effects.{
  with_datagram, IsAnswer, IsUntouched, AttachEnds, CtrlEffects, as_is,
}
use wpa_supplicant_ex.Ctrl.{
  wpa_ctrl_request, wpa_ctrl_attach_helper, wpa_ctrl_attach, wpa_ctrl_recv, received,
  wpa_ctrl_pending, unix, attach_command, attach_result, ten_bytes, is_ok, is_set,
}
use wpa_supplicant_ex.Ctrl.Exchange.{IsEvent}
use wpa_supplicant_ex.Ctrl.Attach.{AllEvents, ok_text, is_ok-datagram}
use wpa_supplicant_ex.Ctrl.Waiting.{IsTaken, called, request-IsTaken, next_select-same}

-- What a reply's buffer holds of its datagram.
reply-take :
    (limit : ℕ) (d buf : List ℕ)
    → length buf ≡ limit
    → take (length (take limit d)) (overwrite (take limit d) buf) ≡ take limit d
reply-take limit d buf sized =
    take-overwrite (take limit d) buf (length (take limit d)) refl
      (omega (arith, length-take limit d, sized))

IsTaken-IsAnswer :
    (limit : ℕ) (positive : 0 < limit) (I E : Traffic → Type 0) (r : Reply) (t : Traffic)
    → IsTaken limit positive I E r t
    → IsAnswer I E limit r t
IsTaken-IsAnswer limit positive I E (failed e) t h = h
IsTaken-IsAnswer limit positive I E (replied b n) t (d, buf, sized, filled, counted, i) = (
  d,
  ap length filled ∙ length-overwrite (take limit d) buf ∙ sized,
  rw (filled, counted) (reply-take limit d buf sized),
  i,
)

received-IsAnswer :
    (I E : Traffic → Type 0) (buf : List ℕ) (limit : ℕ) (a : RecvAnswer) (t : Traffic)
    → length buf ≡ limit
    → ((t : Traffic) → I t → E t)
    → HasReceived I limit a t
    → IsAnswer I E limit (received buf a) t
unfolding received
received-IsAnswer I E buf limit (recv_failed e) t sized stops h = stops t h
received-IsAnswer I E buf limit (datagram xs) t sized stops (d, seen, i) =
    (d, length-overwrite xs buf ∙ sized, rw seen (reply-take limit d buf sized), i)

-- From `t` the attaching command has gone out, and events have been taken.
pub record IsAwaiting (text : List ℕ) (t u : Traffic) : Type 0 where
  events : List (List ℕ)
  all_events : AllEvents events
  dropped : t.incoming ≡ events ++ u.incoming
  commands : u.commands ≡ t.commands ++ (text ∷ [])
  written : u.written ≡ t.written
  input : u.input ≡ t.input

IsAwaiting-IsUntouched :
    (text : List ℕ) (t u : Traffic) → IsAwaiting text t u → IsUntouched text t u
IsAwaiting-IsUntouched text t u h = record {
  commands = inr h.commands;
  written = h.written;
  input = h.input;
}

AllEvents-snoc :
    (ds : List (List ℕ)) (d : List ℕ) → AllEvents ds → IsEvent d → AllEvents (ds ++ (d ∷ []))
AllEvents-snoc [] d h e = (e, tt)
AllEvents-snoc (x ∷ ds) d h e = (h.0, AllEvents-snoc ds d h.1 e)

-- Without a callback an event is dropped.
drops :
    (text : List ℕ) (t : Traffic) (d : List ℕ) (u : World)
    → IsEvent d
    → IsAwaiting text t (with_datagram d (traffic u))
    → Leaves (λ x v. IsAwaiting text t v) (IsUntouched text t) (called none d u)
drops text t d u e h = record {
  events = h.events ++ (d ∷ []);
  all_events = AllEvents-snoc h.events d h.all_events e;
  dropped = h.dropped ∙ sym (append_assoc h.events (d ∷ []) (traffic u).incoming);
  commands = h.commands;
  written = h.written;
  input = h.input;
}

-- The reply decides.
attach_result-ends :
    (text : List ℕ) (t : Traffic) (r : Reply) (u : World)
    → IsTaken 10 (omega arith) (IsAwaiting text t) (IsUntouched text t) r (traffic u)
    → AttachEnds text ok_text t (attach_result r) (traffic u)
unfolding attach_result
attach_result-ends text t (failed e) u h = h
attach_result-ends text t (replied b n) u (d, buf, sized, filled, counted, i) =
    rw (filled, counted)
      (elim (Bool-cases (is_ok (overwrite (take 10 d) buf) (length (take 10 d)))) [
        | inr refused ↦
            rw refused (record { commands = inr i.commands; written = i.written; input = i.input })
        | inl accepted ↦ rw accepted (record {
          events = i.events;
          all_events = i.all_events;
          dropped =
              i.dropped
              ∙ ap (λ x. i.events ++ (x ∷ (traffic u).incoming))
                  ((is_ok-datagram d buf sized).0 accepted);
          commands = i.commands;
          written = i.written;
          input = i.input;
        })
      ])

-- Attaching by the command `text`, over a request that keeps to the effects.
module _ (text : List ℕ) (w : World) where
  abbrev pub AttachAnswer : Reply → Traffic → Type 0
  AttachAnswer =
      IsTaken 10 (omega arith) (IsAwaiting text (traffic w)) (IsUntouched text (traffic w))

  pub untouched : IsUntouched text (traffic w) (traffic w)
  untouched = record { commands = inl refl; written = refl; input = refl }

  pub attach_request-effects :
      Leaves AttachAnswer (IsUntouched text (traffic w)) (wpa_ctrl_request text ten_bytes 10 none w)
  attach_request-effects =
      request-IsTaken 10 (omega arith) none (IsAwaiting text (traffic w))
        (IsUntouched text (traffic w)) (IsAwaiting-IsUntouched text (traffic w))
        (drops text (traffic w)) text ten_bytes w refl untouched
        (record {
          events = [];
          all_events = tt;
          dropped = refl;
          commands = refl;
          written = refl;
          input = refl;
        })

  pub attaching-effects :
      (m : K Reply)
      → Leaves AttachAnswer (IsUntouched text (traffic w)) (m w)
      → Leaves
          (AttachEnds text ok_text (traffic w))
          (IsUntouched text (traffic w))
          ((m >>= λ r. return (attach_result r)) w)
  attaching-effects m h =
      Leaves->>= AttachAnswer (AttachEnds text ok_text (traffic w)) (IsUntouched text (traffic w)) m
        _ w h (attach_result-ends text (traffic w))

-- The UNIX domain socket keeps to the effects that the port relies on.
pub unix_effects : CtrlEffects unix as_is (attach_command true) ok_text
unfolding wpa_ctrl_attach wpa_ctrl_attach_helper wpa_ctrl_recv wpa_ctrl_pending select is_set
unix_effects = record {
  request_effects = λ I E cmd buf limit f w positive sized stops e i shows.
      Leaves-weaken (IsTaken limit positive I E) (IsAnswer I E limit) E E
        (wpa_ctrl_request cmd buf limit (some f) w)
        (request-IsTaken limit positive (some f) I E stops shows cmd buf w sized e i)
        (IsTaken-IsAnswer limit positive I E) (λ t h. h);
  recv_effects = λ I E buf limit w sized stops i.
      Leaves->>= (HasReceived I limit) (IsAnswer I E limit) E (Calls.recv limit) _ w
        (recv-HasReceived I E stops limit w i)
        (λ a u h. received-IsAnswer I E buf limit a (traffic u) sized stops h);
  pending_effects = λ I E w stops i.
      Leaves->>= (λ a t. I t) (λ more t. I t) E select _ w
        (next_select-same I E stops w.selects w i) (λ a u h. h);
  attach_effects = λ w.
      attaching-effects (attach_command true) w
        (wpa_ctrl_request (attach_command true) ten_bytes 10 none)
        (attach_request-effects (attach_command true) w);
}
