-- ===== src/Api/Effects.antt =====
-- What the port program relies on in a control interface (src/wpa_ctrl/wpa_ctrl.h) as to what it sends,
-- takes and passes on, however a call ends: with a result, or waiting for the kernel for ever.
use wpa_supplicant_ex.Shared.{
  ℕ, ◌-◌, ◌<◌, ◌≡◌, ◌⊎◌, List, [], ◌∷◌, ◌++◌, Option, none, some, length, take,
}
use wpa_supplicant_ex.Kernel.{World, K}
use wpa_supplicant_ex.Kernel.Traffic.{Traffic, traffic, Leaves}
use wpa_supplicant_ex.Api.{CtrlApi, Reply, replied, failed, Failure}
use wpa_supplicant_ex.Ctrl.Exchange.{IsEvent}
use wpa_supplicant_ex.Ctrl.Attach.{AllEvents}

-- A command has gone out.
abbrev pub with_command : List ℕ → Traffic → Traffic
with_command cmd t = record t { commands = t.commands ++ (cmd ∷ []) }

-- A datagram is still at the socket.
abbrev pub with_datagram : List ℕ → Traffic → Traffic
with_datagram d t = record t { incoming = d ∷ t.incoming }

-- A reply is what a buffer of `size` bytes holds of the next datagram; a failure is like a call that is left.
abbrev pub IsAnswer : (Traffic → Type 0) → (Traffic → Type 0) → ℕ → Reply → Traffic → Type 0
IsAnswer I E size (replied b n) t =
    (d : List ℕ) × (length b ≡ size) × (take n b ≡ take size d) × I (with_datagram d t)
IsAnswer I E size (failed e) t = E t

-- The command itself, without a cookie.
abbrev pub as_is : List ℕ → List ℕ
as_is cmd = cmd

-- From `t` the attaching command has gone out, and events and then a reply have been taken.
pub record IsAttached (attach_text ok_text : List ℕ) (t u : Traffic) : Type 0 where
  pub events : List (List ℕ)
  pub all_events : AllEvents events
  pub dropped : t.incoming ≡ events ++ (ok_text ∷ u.incoming)
  pub commands : u.commands ≡ t.commands ++ (attach_text ∷ [])
  pub written : u.written ≡ t.written
  pub input : u.input ≡ t.input

-- Nothing has been read or written, and at most the attaching command has gone out.
pub record IsUntouched (attach_text : List ℕ) (t u : Traffic) : Type 0 where
  pub commands : (u.commands ≡ t.commands) ⊎ (u.commands ≡ t.commands ++ (attach_text ∷ []))
  pub written : u.written ≡ t.written
  pub input : u.input ≡ t.input

abbrev pub AttachEnds : List ℕ → List ℕ → Traffic → Option Failure → Traffic → Type 0
AttachEnds attach_text ok_text t none u = IsAttached attach_text ok_text t u
AttachEnds attach_text ok_text t (some e) u = IsUntouched attach_text t u

-- A command goes out as `wire` has it.
pub record CtrlEffects (api : CtrlApi) (wire : List ℕ → List ℕ) (attach_text ok_text : List ℕ)
    : Type 1 where
  -- A request sends its command once or fails; then it shows the events that come to the callback, as
  -- far as the buffer holds them, each as soon as it has been taken, and ends with the first other
  -- datagram.
  pub request_effects :
      (I E : Traffic → Type 0) (cmd buf : List ℕ) (limit : ℕ) (f : List ℕ → K (Unit {0}))
      (w : World)
      → 0 < limit
      → length buf ≡ limit
      → ((t : Traffic) → I t → E t)
      → E (traffic w)
      → I (with_command (wire cmd) (traffic w))
      → ((d : List ℕ) (u : World)
          → IsEvent d
          → I (with_datagram d (traffic u))
          → Leaves (λ x t. I t) E (f (take (limit - 1) d) u))
      → Leaves (IsAnswer I E limit) E (api.request cmd buf limit (some f) w)
  -- Receiving takes one datagram, or fails.
  pub recv_effects :
      (I E : Traffic → Type 0) (buf : List ℕ) (limit : ℕ) (w : World)
      → length buf ≡ limit
      → ((t : Traffic) → I t → E t)
      → I (traffic w)
      → Leaves (IsAnswer I E limit) E (api.recv buf limit w)
  pub pending_effects :
      (I E : Traffic → Type 0) (w : World)
      → ((t : Traffic) → I t → E t)
      → I (traffic w)
      → Leaves (λ more t. I t) E (api.pending w)
  pub attach_effects :
      (w : World)
      → Leaves
          (AttachEnds attach_text ok_text (traffic w))
          (IsUntouched attach_text (traffic w))
          (api.attach w)
