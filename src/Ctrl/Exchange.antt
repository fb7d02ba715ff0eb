-- ===== src/Ctrl/Exchange.antt =====
-- `wpa_ctrl_request` (src/wpa_ctrl/wpa_ctrl.c) while it waits for its reply: a round of the loop for
-- each datagram that comes, whatever the callback does.
use wpa_supplicant_ex.Shared.{
  ℕ, zero, suc, ◌-◌, ◌≤◌, ◌<◌, min, ◌≡◌, refl, ap, ◌∙◌, inl, inr, true, false, List, [], ◌∷◌, ◌++◌,
  some, arith, ◌==◌, if◌then◌else◌, Bool-cases, length, get_or, set, take, overwrite, length-take,
  length-overwrite, length-set, take-set, take-all, take-overwrite_le, take-take, take-past,
}
use wpa_supplicant_ex.Kernel.{
  World, K, returned, ◌>>=◌, bind-at, bind-return, SelectAnswer, ready, SendAnswer, sent,
  RecvAnswer, datagram,
}
use wpa_supplicant_ex.Kernel.Calls
use wpa_supplicant_ex.Api.{Reply, replied, Callback}
use wpa_supplicant_ex.Ctrl.{
  after_recv, reply_loop, deliver, is_unsolicited, send_command, send_loop, unset, wpa_ctrl_request,
}

-- The first byte of a datagram tells an event from a reply.
abbrev pub IsEvent : List ℕ → Type 0
IsEvent d = (0 < length d) × (get_or d 0 0 ≡ b'<')

head-overwrite :
    (xs buf : List ℕ)
    → length xs ≤ length buf
    → 0 < length xs
    → get_or (overwrite xs buf) 0 0 ≡ get_or xs 0 0
head-overwrite [] buf h k = elim k [ ]
head-overwrite (x ∷ xs) [] h k = absurd (omega arith)
head-overwrite (x ∷ xs) (y ∷ buf) h k = refl

head-take : (n : ℕ) (d : List ℕ) → 0 < n → get_or (take n d) 0 0 ≡ get_or d 0 0
head-take zero d h = elim h [ ]
head-take (suc n) [] h = refl
head-take (suc n) (x ∷ d) h = refl

module _ (limit : ℕ) (buf d : List ℕ) (pos : 0 < limit) (room : limit ≤ length buf) where
  -- What `recv` gives of the datagram.
  unfoldable pub cut : List ℕ
  cut = take limit d

  pub length-cut : length cut ≡ min limit (length d)
  unfolding cut
  length-cut = length-take limit d

  -- The length that the callback is given.
  shown : ℕ
  shown = if length cut == limit then limit - 1 else length cut

  pub noted : List ℕ
  noted = set (overwrite cut buf) shown 0

  pub is_unsolicited-event : IsEvent d → is_unsolicited (overwrite cut buf) (length cut) ≡ true
  unfolding is_unsolicited cut
  is_unsolicited-event e = ground (arith, length-cut, head-overwrite cut buf, head-take limit d pos)

  pub is_unsolicited-reply : ¬ IsEvent d → is_unsolicited (overwrite cut buf) (length cut) ≡ false
  unfolding is_unsolicited cut
  is_unsolicited-reply e = ground (arith, length-cut, head-overwrite cut buf, head-take limit d pos)

  -- The bytes that the callback is given.
  event_message : take shown noted ≡ take (limit - 1) d
  unfolding shown noted cut
  event_message = take-set (overwrite cut buf) shown 0 ∙ elim (Bool-cases (length cut == limit)) [
    | inl full ↦ rw full (
        take-overwrite_le (limit - 1) cut buf (ground (arith, length-cut))
          (omega (arith, length-cut))
        ∙ take-take (limit - 1) limit d (omega arith))
    | inr part ↦ rw part (
        take-overwrite_le (length cut) cut buf (omega arith) (omega (arith, length-cut))
        ∙ take-all (length cut) cut (omega arith)
        ∙ take-past limit (limit - 1) d (ground (arith, length-cut)) (ground (arith, length-cut)))
  ]

  pub length-noted : length noted ≡ length buf
  unfolding noted
  length-noted = length-set (overwrite cut buf) shown 0 ∙ length-overwrite cut buf

  pub after_recv-event :
      (f : List ℕ → K (Unit {0})) (continue : List ℕ → K Reply) (w : World)
      → IsEvent d
      → after_recv (some f) limit buf continue (datagram cut) w
        ≡ (f (take (limit - 1) d) >>= λ _. continue noted) w
  unfolding after_recv deliver shown noted
  after_recv-event f continue w e = rw (is_unsolicited-event e) (
      bind-return (f (take shown noted)) noted continue w
      ∙ ap (λ m. (f m >>= λ _. continue noted) w) event_message)

  -- An event: the callback runs, and the loop goes on.
  pub reply_loop-event :
      (f : List ℕ → K (Unit {0})) (later : List SelectAnswer) (rl : List RecvAnswer) (w : World)
      → IsEvent d
      → w.recvs ≡ datagram d ∷ rl
      → reply_loop (some f) limit buf (ready ∷ later) w
        ≡ (f (take (limit - 1) d) >>= λ _. λ w'. reply_loop (some f) limit noted later w')
            (record w { selects = later; recvs = rl })
  unfolding reply_loop cut
  reply_loop-event f later rl w e recvs =
      bind-at (Calls.recv limit) _ _
        (Calls.recv-datagram limit d rl (record w { selects = later }) recvs)
      ∙ after_recv-event f _ _ e

  -- The reply: it is the result.
  pub reply_loop-reply :
      (f : Callback) (later : List SelectAnswer) (rl : List RecvAnswer) (w : World)
      → ¬ IsEvent d
      → w.recvs ≡ datagram d ∷ rl
      → reply_loop f limit buf (ready ∷ later) w
        ≡ returned
            (replied (overwrite cut buf) (length cut))
            (record w { selects = later; recvs = rl })
  unfolding reply_loop after_recv cut
  reply_loop-reply f later rl w e recvs =
      bind-at (Calls.recv limit) _ _
        (Calls.recv-datagram limit d rl (record w { selects = later }) recvs)
      ∙ rw (is_unsolicited-reply e)

-- A command that the socket takes at once: the loop waits for the reply.
pub wpa_ctrl_request-sent :
    (cmd reply : List ℕ) (limit : ℕ) (f : Callback) (sl : List SendAnswer) (sel : List SelectAnswer)
    (w : World)
    → w.sends ≡ sent ∷ sl
    → w.selects ≡ sel
    → wpa_ctrl_request cmd reply limit f w
      ≡ reply_loop f limit reply sel (record w { sends = sl; commands = w.commands ++ (cmd ∷ []) })
unfolding wpa_ctrl_request
wpa_ctrl_request-sent cmd reply limit f sl sel w e h =
    bind-at (send_command cmd) _ w (ap (λ s. send_loop cmd unset s w) e)
    ∙ ap
        (λ s.
          reply_loop f limit reply s (record w { sends = sl; commands = w.commands ++ (cmd ∷ []) }))
        h
