-- ===== src/Port/Dispatch.antt =====
-- `try_dispatch` and the loop of `process_erl` (src/wpa_ex.c) against the messages of `Frames`.
use wpa_supplicant_ex.Shared.{
  ℕ, zero, suc, ◌+◌, ◌-◌, ◌*◌, ◌≤◌, ◌<◌, ◌≡◌, refl, sym, ap, ◌∙◌, subst, inl, List, [], ◌∷◌, ◌++◌,
  append_assoc, arith, lt→ltb, le→ltb, ==-ne, ◌≢◌, length, take, drop, length-take, length-drop,
  take-append-drop, length-put_at, drop-take, take-overwrite,
}
use native.Mathlib.Decide.{dec_lt}
use wpa_supplicant_ex.Kernel.{
  World, K, Outcome, returned, exited, waiting, spent, ◌>>=◌, bind-at, return, exit_with,
  exit_failure,
}
use wpa_supplicant_ex.Api.{CtrlApi}
use wpa_supplicant_ex.Port.{
  Port, buffer_size, msglen, frame, do_wpa_request, try_dispatch, after_dispatch, shift,
  dispatch_loop,
}
use wpa_supplicant_ex.Port.Frames.{
  IsPartial, IsTooLong, Ending, incomplete, too_long, Parse, stop, refuse, next, Parse-unique,
  length-zero, msglen-frame, length-frame, drop-frame, message-frame,
}

-- What the outside can tell of the statics: the bytes that wait for the rest of their message, and
-- the reply buffer.
pub record View : Type 0 where
  pub pending : List ℕ
  pub wpa_buffer : List ℕ

abbrev pub contents : Port → List ℕ
contents p = take p.erl_buffer_ix p.erl_buffer

abbrev pub view : Port → View
view p = record { pending = contents p; wpa_buffer = p.wpa_buffer }

-- The indices stay inside the buffer.
pub record IsWithin (p : Port) : Type 0 where
  pub sized : length p.erl_buffer ≡ buffer_size
  pub below : p.erl_buffer_ix ≤ buffer_size

-- Between two reads: inside the buffer, with room for one byte at least.
pub record HasRoom (p : Port) : Type 0 where
  pub sized : length p.erl_buffer ≡ buffer_size
  pub below : p.erl_buffer_ix < buffer_size

-- A run over the statics against one over views: the same end in the same world, and room left in
-- the buffer. The fuel runs out only where the specification's does.
abbrev pub Refines : Outcome Port → Outcome View → Type 0
Refines (returned p w) o = HasRoom p × (o ≡ returned (view p) w)
Refines (exited e w) o = o ≡ exited e w
Refines (waiting w) o = o ≡ waiting w
Refines spent o = o ≡ spent

module _ (api : CtrlApi) where
  -- The requests for some messages, one after the other.
  unfoldable pub run_all : List (List ℕ) → List ℕ → K (List ℕ)
  run_all [] buf = return buf
  run_all (m ∷ ms) buf = do_wpa_request api m buf >>= run_all ms

  unfoldable pub finish : Ending → List ℕ → K View
  finish (incomplete r) buf = return (record { pending = r; wpa_buffer = buf })
  finish too_long buf = exit_with (exit_failure "Message too long")

  -- The specification: a parsed stream is served message by message.
  unfoldable pub serve : List (List ℕ) → Ending → List ℕ → K View
  unfolding run_all finish
  serve ms e buf = run_all ms buf >>= finish e

  serve-nothing :
      {ms : List (List ℕ)} {e : Ending} (buf : List ℕ) (w : World)
      → Parse [] ms e
      → serve ms e buf w ≡ returned (record { pending = []; wpa_buffer = buf }) w
  unfolding serve
  serve-nothing buf w parse =
      let only = Parse-unique parse (stop (inl (omega arith))) in rw (only.0, only.1)

  msglen-append : (s t : List ℕ) → 2 ≤ length s → msglen (s ++ t) ≡ msglen s
  msglen-append [] t h = absurd (omega arith)
  msglen-append (x ∷ []) t h = absurd (omega arith)
  msglen-append (x ∷ y ∷ s) t h = refl

  module _ (p : Port) (v : IsWithin p) where
    junk : List ℕ
    junk = drop p.erl_buffer_ix p.erl_buffer

    whole : contents p ++ junk ≡ p.erl_buffer
    unfolding junk
    whole = take-append-drop p.erl_buffer_ix p.erl_buffer

    pub length-contents : length (contents p) ≡ p.erl_buffer_ix
    length-contents = omega (arith, length-take p.erl_buffer_ix p.erl_buffer, v.sized, v.below)

    prefix : 2 ≤ p.erl_buffer_ix → msglen p.erl_buffer ≡ msglen (contents p)
    prefix h =
        ap msglen (sym whole) ∙ msglen-append (contents p) junk (omega (arith, length-contents))

    try_dispatch-partial :
        (w : World) → IsPartial (contents p) → try_dispatch api p w ≡ returned (0, p) w
    unfolding try_dispatch
    try_dispatch-partial w h = elim (dec_lt p.erl_buffer_ix 2) [
      | yes short ↦ ground (arith)
      | no two ↦ ground (arith, length-contents, prefix (omega arith))
    ]

    try_dispatch-too_long :
        (w : World)
        → IsTooLong (contents p)
        → try_dispatch api p w ≡ exited (exit_failure "Message too long") w
    unfolding try_dispatch
    try_dispatch-too_long w h =
        ground (arith, length-contents, prefix (omega (arith, length-contents)))

    try_dispatch-message :
        (m t : List ℕ) (w : World)
        → length m + 2 ≤ buffer_size
        → contents p ≡ frame m ++ t
        → try_dispatch api p w
          ≡ (do_wpa_request api m p.wpa_buffer >>= λ buf.
                return (length m + 2, record p { wpa_buffer = buf }))
              w
    unfolding try_dispatch
    try_dispatch-message m t w fits e = rw (
      le→ltb p.erl_buffer_ix 2 (omega (arith, sizes)),
      announced,
      le→ltb buffer_size (length m + 2) fits,
      le→ltb p.erl_buffer_ix (length m + 2) (omega (arith, sizes)),
      message,
    )
      where
        sizes : p.erl_buffer_ix ≡ length m + 2 + length t
        sizes = sym length-contents ∙ ap length e ∙ length-frame m t

        buffer : p.erl_buffer ≡ frame m ++ (t ++ junk)
        buffer = sym whole ∙ ap (λ u. u ++ junk) e ∙ append_assoc (frame m) t junk

        announced : msglen p.erl_buffer ≡ length m
        announced = ap msglen buffer ∙ msglen-frame m (t ++ junk) fits

        message : take (length m) (drop 2 p.erl_buffer) ≡ m
        message = ap (λ u. take (length m) (drop 2 u)) buffer ∙ message-frame m (t ++ junk)

    -- Behind a message the loop goes on with what follows it.
    shift-IsWithin : (n : ℕ) → IsWithin (shift n p)
    unfolding shift
    shift-IsWithin n = record {
      sized =
          length-put_at 0 (take (p.erl_buffer_ix - n) (drop n p.erl_buffer)) p.erl_buffer ∙ v.sized;
      below = omega (arith, v.below);
    }

    contents-shift :
        (m t : List ℕ) → contents p ≡ frame m ++ t → contents (shift (length m + 2) p) ≡ t
    unfolding shift
    contents-shift m t e =
        take-overwrite moved p.erl_buffer _ (sym length-moved) (omega (arith, v.sized, v.below))
        ∙ sym (drop-take (length m + 2) p.erl_buffer_ix p.erl_buffer)
        ∙ ap (drop (length m + 2)) e
        ∙ drop-frame m t
      where
        moved : List ℕ
        moved = take (p.erl_buffer_ix - (length m + 2)) (drop (length m + 2) p.erl_buffer)

        length-moved : length moved ≡ p.erl_buffer_ix - (length m + 2)
        length-moved = omega (
          arith,
          length-take (p.erl_buffer_ix - (length m + 2)) (drop (length m + 2) p.erl_buffer),
          length-drop (length m + 2) p.erl_buffer,
          v.sized,
          v.below,
        )

    -- The two ways to go on behind a message.
    after_more :
        (n : ℕ) (again : Port → K Port) (w : World)
        → n ≢ 0
        → n < p.erl_buffer_ix
        → after_dispatch again (n, p) w ≡ again (shift n p) w
    unfolding after_dispatch
    after_more n again w nz more = rw (==-ne n 0 nz, lt→ltb n p.erl_buffer_ix more)

    after_last :
        (n : ℕ) (again : Port → K Port) (w : World)
        → n ≢ 0
        → p.erl_buffer_ix ≤ n
        → after_dispatch again (n, p) w ≡ returned (record p { erl_buffer_ix = 0 }) w
    unfolding after_dispatch
    after_last n again w nz last = rw (==-ne n 0 nz, le→ltb n p.erl_buffer_ix last)

    after_message :
        (m t : List ℕ) {ms : List (List ℕ)} {e : Ending} (again : Port → K Port) (w : World)
        → contents p ≡ frame m ++ t
        → Parse t ms e
        → ((q : Port)
            → IsWithin q
            → contents q ≡ t
            → q.erl_buffer_ix + 2 ≤ p.erl_buffer_ix
            → Refines (again q w) (serve ms e q.wpa_buffer w))
        → Refines (after_dispatch again (length m + 2, p) w) (serve ms e p.wpa_buffer w)
    unfolding shift
    after_message m t {ms} {e} again w eq parse go = elim (dec_lt (length m + 2) p.erl_buffer_ix) [
      | yes more ↦
          subst (λ o. Refines o (serve ms e p.wpa_buffer w))
            (sym (after_more (length m + 2) again w (omega arith) more))
            (go (shift (length m + 2) p) (shift-IsWithin (length m + 2)) (contents-shift m t eq)
              (omega arith))
      | no last ↦
          subst (λ o. Refines o (serve ms e p.wpa_buffer w))
            (sym (after_last (length m + 2) again w (omega arith) (omega arith)))
            (
              record { sized = v.sized; below = omega arith },
              serve-nothing p.wpa_buffer w
                  (subst (λ u. Parse u ms e) (length-zero t (omega (arith, sizes_of))) parse),
            )
    ]
      where
        sizes_of : p.erl_buffer_ix ≡ length m + 2 + length t
        sizes_of = sym length-contents ∙ ap length eq ∙ length-frame m t

    after_none : (again : Port → K Port) (w : World) → after_dispatch again (0, p) w ≡ returned p w
    unfolding after_dispatch
    after_none again w = refl

    -- A message whose request ends in `o`, and what the loop and the specification do next.
    after_request :
        (n : ℕ) (ms : List (List ℕ)) (e : Ending) (again : Port → K Port) (o : Outcome (List ℕ))
        (w : World)
        → ((buf : List ℕ) (w' : World)
            → Refines
                (after_dispatch again (n, record p { wpa_buffer = buf }) w')
                (serve ms e buf w'))
        → Refines
            (((λ (v : World).
                  ((λ (u : World). o) >>= λ buf. return (n, record p { wpa_buffer = buf })) w)
                >>= after_dispatch again)
              w)
            (((λ (v : World). ((λ (u : World). o) >>= run_all ms) w) >>= finish e) w)
    unfolding serve
    after_request n ms e again (returned buf w') w h = h buf w'
    after_request n ms e again (exited x w') w h = refl
    after_request n ms e again (waiting w') w h = refl
    after_request n ms e again spent w h = refl

  Refines-left : (v : Outcome View) {o o' : Outcome Port} → o ≡ o' → Refines o' v → Refines o v
  Refines-left v e h = subst (λ o. Refines o v) (sym e) h

  serve-cons :
      (m : List ℕ) (ms : List (List ℕ)) (e : Ending) (buf : List ℕ) (w : World)
      → serve (m ∷ ms) e buf w
        ≡ ((λ (v : World). ((λ (u : World). do_wpa_request api m buf w) >>= run_all ms) w)
              >>= finish e)
            w
  unfolding serve
  serve-cons m ms e buf w = refl

  -- The loop serves the messages of what the buffer holds, and ends within its fuel.
  pub dispatch_loop-serve :
      (fuel : ℕ) (p : Port) {s : List ℕ} {ms : List (List ℕ)} {e : Ending} (w : World)
      → IsWithin p
      → contents p ≡ s
      → p.erl_buffer_ix + 1 < 2 * fuel
      → Parse s ms e
      → Refines (dispatch_loop api fuel p w) (serve ms e p.wpa_buffer w)
  unfolding dispatch_loop
  dispatch_loop-serve zero p w v c enough parse = absurd (omega arith)
  dispatch_loop-serve (suc fuel) p {s} w v c enough (stop h) =
      let here : IsPartial (contents p) = rw c h in
      Refines-left (serve [] (incomplete s) p.wpa_buffer w)
        (bind-at (try_dispatch api p) _ w (try_dispatch-partial p v w here) ∙ after_none p v _ w)
        (
          record { sized = v.sized; below = omega (arith, v.below, length-contents p v) },
          (unfold serve in
              ap (λ r. returned (record { pending = r; wpa_buffer = p.wpa_buffer }) w) (sym c)),
        )
  dispatch_loop-serve (suc fuel) p w v c enough (refuse h) =
      Refines-left (serve [] too_long p.wpa_buffer w)
        (bind-at (try_dispatch api p) _ w (try_dispatch-too_long p v w (rw c h)))
        (unfold serve in refl)
  dispatch_loop-serve (suc fuel) p w v c enough (next {t} {ms} {e} m fits eq parse) =
      Refines-left (serve (m ∷ ms) e p.wpa_buffer w)
        (bind-at (try_dispatch api p) _ w (try_dispatch-message p v m t w fits (c ∙ eq)))
        (rw (serve-cons m ms e p.wpa_buffer w) (
          after_request p v (length m + 2) ms e _ (do_wpa_request api m p.wpa_buffer w) w λ buf w'.
            after_message (record p { wpa_buffer = buf })
              (record { sized = v.sized; below = v.below }) m t _ w' (c ∙ eq) parse
              λ q vq cq less. dispatch_loop-serve fuel q w' vq cq (omega arith) parse))
