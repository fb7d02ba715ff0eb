-- ===== src/Port/Bounds.antt =====
-- The statics of src/wpa_ex.c over a whole run: the indices stay inside the buffers, and every loop
-- ends, for any control interface that keeps its laws.
use wpa_supplicant_ex.Shared.{
  ℕ, zero, suc, ◌+◌, ◌-◌, ◌*◌, ◌≤◌, ◌<◌, ◌≡◌, refl, ◌∙◌, ◌≢◌, true, false, List, [], ◌∷◌, some,
  arith, inl, inr, Bool-cases, ◌==◌, ltb, length, take, drop, length-put_at,
}
use wpa_supplicant_ex.Kernel.{World, K, is_eintr, WriteAnswer, wrote, write_failed}
use wpa_supplicant_ex.Kernel.Post.{Post, Ends, Post->>=, Post-weaken}
use wpa_supplicant_ex.Api.{CtrlApi, Reply, replied, failed}
use wpa_supplicant_ex.Api.Laws.{CtrlLaws, IsReplyIn}
use wpa_supplicant_ex.Port.{
  Port, buffer_size, msglen, write_loop, send_to_erl, forward_reply, do_wpa_request, try_dispatch,
  shift, after_dispatch, dispatch_loop, dispatch_fuel, receive,
}

-- Between two polls: both buffers have their size, and there is room for a byte from Erlang.
pub record IsSafe (p : Port) : Type 0 where
  pub erl_sized : length p.erl_buffer ≡ buffer_size
  pub wpa_sized : length p.wpa_buffer ≡ buffer_size
  pub room : p.erl_buffer_ix < buffer_size

-- While the messages of a read are dispatched the buffer may be full.
record IsSized (p : Port) : Type 0 where
  erl_sized : length p.erl_buffer ≡ buffer_size
  wpa_sized : length p.wpa_buffer ≡ buffer_size
  below : p.erl_buffer_ix ≤ buffer_size

write_loop-Ends :
    (msg : List ℕ) (later : List WriteAnswer) (w : World) → Ends (write_loop msg later w)
unfolding write_loop
write_loop-Ends msg [] w = tt
write_loop-Ends msg (wrote n ∷ later) w = elim (Bool-cases (n == length msg + 2)) [
  | inl all ↦ rw all tt
  | inr short ↦ rw short tt
]
write_loop-Ends msg (write_failed e ∷ later) w = elim (Bool-cases (is_eintr e)) [
  | inl again ↦ rw again (write_loop-Ends msg later w)
  | inr fatal ↦ rw fatal tt
]

write_loop-selects :
    (msg : List ℕ) (later : List WriteAnswer) (w : World)
    → Post (λ t u. u.selects ≡ w.selects) (write_loop msg later w)
unfolding write_loop
write_loop-selects msg [] w = tt
write_loop-selects msg (wrote n ∷ later) w = elim (Bool-cases (n == length msg + 2)) [
  | inl all ↦ rw all refl
  | inr short ↦ rw short tt
]
write_loop-selects msg (write_failed e ∷ later) w = elim (Bool-cases (is_eintr e)) [
  | inl again ↦ rw again (write_loop-selects msg later w)
  | inr fatal ↦ rw fatal tt
]

pub send_to_erl-selects :
    (msg : List ℕ) (w : World) → Post (λ t u. u.selects ≡ w.selects) (send_to_erl msg w)
unfolding send_to_erl
send_to_erl-selects msg w = write_loop-selects msg w.writes w

send_to_erl-Ends : (msg : List ℕ) (w : World) → Ends (send_to_erl msg w)
send_to_erl-Ends msg w =
    Post-weaken _ _ (send_to_erl msg w) (send_to_erl-selects msg w) (λ t u h. tt)

module _ (api : CtrlApi) (laws : CtrlLaws api) where
  do_wpa_request-sized :
      (cmd buf : List ℕ) (w : World)
      → length buf ≡ buffer_size
      → Post (λ b u. length b ≡ buffer_size) (do_wpa_request api cmd buf w)
  unfolding do_wpa_request
  do_wpa_request-sized cmd buf w sized =
      Post->>= (λ r u. IsReplyIn (length buf) buffer_size r) (λ b u. length b ≡ buffer_size)
        (api.request cmd buf buffer_size (some send_to_erl)) (forward_reply api) w
        (laws.request_within cmd buf buffer_size send_to_erl w send_to_erl-Ends) forward
    where
      forward :
          (r : Reply) (u : World)
          → IsReplyIn (length buf) buffer_size r
          → Post (λ b v. length b ≡ buffer_size) (forward_reply api r u)
      forward (failed e) u h = unfold forward_reply in tt
      forward (replied b n) u h =
          unfold forward_reply in
          Post->>= (λ t v. Unit) (λ b v. length b ≡ buffer_size) (send_to_erl (take n b)) _ u
            (send_to_erl-Ends (take n b) u) (λ t v k. h.0 ∙ sized)

  -- What `try_dispatch` leaves: nothing processed and room for a byte, or two bytes at least processed.
  abbrev Dispatched : Port → ℕ × Port → World → Type 0
  Dispatched p (n, q) u =
      IsSized q × (q.erl_buffer_ix ≡ p.erl_buffer_ix) × (n ≡ 0 → IsSafe q) × (n ≢ 0 → 2 ≤ n)

  try_dispatch-Dispatched :
      (p : Port) (w : World) → IsSized p → Post (Dispatched p) (try_dispatch api p w)
  unfolding try_dispatch
  try_dispatch-Dispatched p w s = elim (Bool-cases (ltb p.erl_buffer_ix 2)) [
    | inl short ↦ rw short (s, refl, (λ z. idle (ground arith)), λ nz. absurd (nz refl))
    | inr two ↦ elim (Bool-cases (ltb buffer_size (msglen p.erl_buffer + 2))) [
      | inl long ↦ rw (two, long) tt
      | inr fits ↦ elim (Bool-cases (ltb p.erl_buffer_ix (msglen p.erl_buffer + 2))) [
        | inl part ↦
            rw (two, fits, part) (s, refl, (λ z. idle (ground arith)), λ nz. absurd (nz refl))
        | inr all ↦
            rw (two, fits, all)
              (Post->>= (λ b u. length b ≡ buffer_size) (Dispatched p)
                (do_wpa_request api (take (msglen p.erl_buffer) (drop 2 p.erl_buffer)) p.wpa_buffer)
                _ w
                (do_wpa_request-sized (take (msglen p.erl_buffer) (drop 2 p.erl_buffer))
                  p.wpa_buffer w s.wpa_sized)
                (λ b u h. (
                  record { erl_sized = s.erl_sized; wpa_sized = h; below = s.below },
                  refl,
                  (λ z. absurd (omega arith)),
                  λ nz. omega arith,
                )))
      ]
    ]
  ]
    where
      idle : p.erl_buffer_ix < buffer_size → IsSafe p
      idle less = record { erl_sized = s.erl_sized; wpa_sized = s.wpa_sized; room = less }

  shift-IsSized : (n : ℕ) (p : Port) → IsSized p → IsSized (shift n p)
  unfolding shift
  shift-IsSized n p s = record {
    erl_sized =
        length-put_at 0 (take (p.erl_buffer_ix - n) (drop n p.erl_buffer)) p.erl_buffer
        ∙ s.erl_sized;
    wpa_sized = s.wpa_sized;
    below = omega (arith, s.below);
  }

  after_dispatch-IsSafe :
      (again : Port → K Port) (n : ℕ) (q : Port) (w : World)
      → IsSized q
      → (n ≡ 0 → IsSafe q)
      → (n ≢ 0 → 2 ≤ n)
      → ((r : Port) (u : World)
          → IsSized r
          → r.erl_buffer_ix + 2 ≤ q.erl_buffer_ix
          → Post (λ p v. IsSafe p) (again r u))
      → Post (λ p v. IsSafe p) (after_dispatch again (n, q) w)
  unfolding after_dispatch
  after_dispatch-IsSafe again n q w s none_lem some_lem go = elim (Bool-cases (n == 0)) [
    | inl zero_bytes ↦ rw zero_bytes (none_lem (ground arith))
    | inr bytes_done ↦ elim (Bool-cases (ltb n q.erl_buffer_ix)) [
      | inl more ↦
          rw (bytes_done, more)
            (go (shift n q) w (shift-IsSized n q s)
              (unfold shift in omega (arith, less more, some_lem (nonzero bytes_done))))
      | inr last ↦
          rw (bytes_done, last)
            (record { erl_sized = s.erl_sized; wpa_sized = s.wpa_sized; room = omega arith })
    ]
  ]
    where
      nonzero : (n == 0) ≡ false → n ≢ 0
      nonzero h e = ground arith

      less : ltb n q.erl_buffer_ix ≡ true → n < q.erl_buffer_ix
      less h = ground arith

  dispatch_loop-IsSafe :
      (fuel : ℕ) (p : Port) (w : World)
      → IsSized p
      → p.erl_buffer_ix + 1 < 2 * fuel
      → Post (λ q u. IsSafe q) (dispatch_loop api fuel p w)
  unfolding dispatch_loop
  dispatch_loop-IsSafe zero p w s enough = absurd (omega arith)
  dispatch_loop-IsSafe (suc fuel) p w s enough =
      Post->>= (Dispatched p) (λ q u. IsSafe q) (try_dispatch api p) _ w
        (try_dispatch-Dispatched p w s)
        (λ r u h.
          after_dispatch-IsSafe _ r.0 r.1 u h.0 h.2 h.3
            (λ q v sq less. dispatch_loop-IsSafe fuel q v sq (omega (arith, h.1))))

  pub receive-IsSafe :
      (p : Port) (xs : List ℕ) (w : World)
      → IsSafe p
      → p.erl_buffer_ix + length xs ≤ buffer_size
      → Post (λ q u. IsSafe q) (receive api p xs w)
  unfolding receive
  receive-IsSafe p xs w s fits =
      dispatch_loop-IsSafe dispatch_fuel _ w
        (record {
          erl_sized = length-put_at p.erl_buffer_ix xs p.erl_buffer ∙ s.erl_sized;
          wpa_sized = s.wpa_sized;
          below = fits;
        })
        (omega arith)
