-- ===== src/Port/Total.antt =====
-- A whole run of src/wpa_ex.c keeps the statics safe and ends every loop.
use wpa_supplicant_ex.Shared.{
  ℕ, zero, suc, ◌-◌, ◌≤◌, ◌<◌, ◌≡◌, refl, ap, subst, ◌==◌, Bool, true, false, ◌||◌, List, [], ◌∷◌,
  Option, none, some, arith, inl, inr, Bool-cases, if◌then◌else◌, length, take,
}
use wpa_supplicant_ex.Kernel.{
  World, K, ◌>>=◌, return, exit_with, exit_failure, is_eintr, ReadAnswer, bytes, read_failed,
  PollAnswer, polled, poll_failed,
}
use wpa_supplicant_ex.Kernel.Post.{Post, Post->>=}
use wpa_supplicant_ex.Kernel.Calls
use wpa_supplicant_ex.Kernel.Within.{FitsRead, read-FitsRead}
use wpa_supplicant_ex.Api.{CtrlApi, Reply, replied, failed, Failure}
use wpa_supplicant_ex.Api.Laws.{CtrlLaws, IsReplyIn}
use wpa_supplicant_ex.Port.{
  Port, buffer_size, fresh_port, send_to_erl, after_read, process_erl, forward_event, pending_loop,
  process_wpa, poll_round, main_loop, main_attached, main,
}
use wpa_supplicant_ex.Port.Bounds.{IsSafe, receive-IsSafe, send_to_erl-selects}

module _ (api : CtrlApi) (laws : CtrlLaws api) where
  after_read-IsSafe :
      (p : Port) (a : ReadAnswer) (w : World)
      → IsSafe p
      → FitsRead (buffer_size - p.erl_buffer_ix) a
      → Post (λ q u. IsSafe q) (after_read api p a w)
  unfolding after_read
  after_read-IsSafe p (read_failed e) w s fits = elim (Bool-cases (is_eintr e)) [
    | inl again ↦ rw again s
    | inr fatal ↦ rw fatal tt
  ]
  after_read-IsSafe p (bytes []) w s fits = tt
  after_read-IsSafe p (bytes (x ∷ xs)) w s fits =
      receive-IsSafe api laws p (x ∷ xs) w s (omega (arith, s.room))

  process_erl-IsSafe :
      (p : Port) (w : World) → IsSafe p → Post (λ q u. IsSafe q) (process_erl api p w)
  unfolding process_erl
  process_erl-IsSafe p w s =
      Post->>= (λ a u. FitsRead (buffer_size - p.erl_buffer_ix) a) (λ q u. IsSafe q)
        (Calls.read (buffer_size - p.erl_buffer_ix)) (after_read api p) w
        (read-FitsRead (buffer_size - p.erl_buffer_ix) w) (λ a u h. after_read-IsSafe p a u s h)

  -- A message that was received goes to Erlang; the buffer keeps its size.
  forward_event-sized :
      (n : ℕ) (r : Reply) (w : World)
      → IsReplyIn buffer_size buffer_size r × (length w.selects ≤ n)
      → Post (λ b u. (length b ≡ buffer_size) × (length u.selects ≤ n)) (forward_event api r w)
  unfolding forward_event
  forward_event-sized n (failed e) w h = tt
  forward_event-sized n (replied b m) w h =
      Post->>= (λ t u. u.selects ≡ w.selects) _ (send_to_erl (take m b)) _ w
        (send_to_erl-selects (take m b) w) (λ t u e. (h.0.0, omega (arith, ap length e, h.1)))

  pending_loop-sized :
      (fuel : ℕ) (buf : List ℕ) (w : World)
      → length buf ≡ buffer_size
      → length w.selects < fuel
      → Post (λ b u. length b ≡ buffer_size) (pending_loop api fuel buf w)
  unfolding pending_loop
  pending_loop-sized zero buf w sized enough = absurd (omega arith)
  pending_loop-sized (suc fuel) buf w sized enough =
      Post->>= (λ more u. more ≡ true → length u.selects < length w.selects) Sized api.pending _ w
        (laws.pending_polls w) (go λ b u less. pending_loop-sized fuel b u less)
    where
      Sized : List ℕ → World → Type 0
      Sized b u = length b ≡ buffer_size

      go :
          ((b : List ℕ) (u : World)
            → length b ≡ buffer_size
            → length u.selects < fuel
            → Post (λ b u. length b ≡ buffer_size) (pending_loop api fuel b u))
          → (more : Bool) (u : World) → (more ≡ true → length u.selects < length w.selects)
          → Post
              (λ b u. length b ≡ buffer_size)
              ((if more
                  then (api.recv buf buffer_size >>= forward_event api >>= λ b.
                      λ w'. pending_loop api fuel b w')
                  else return buf)
                u)
      go again false u h = sized
      go again true u h =
          Post->>= (λ b v. (length b ≡ buffer_size) × (length v.selects ≤ length u.selects))
            (λ b v. length b ≡ buffer_size) (api.recv buf buffer_size >>= forward_event api) _ u
            (Post->>=
              (λ r v. IsReplyIn (length buf) buffer_size r × (length v.selects ≤ length u.selects))
              (λ b v. (length b ≡ buffer_size) × (length v.selects ≤ length u.selects))
              (api.recv buf buffer_size) (forward_event api) u (laws.recv_within buf buffer_size u)
              (λ r v k.
                forward_event-sized (length u.selects) r v
                  (subst (λ n. IsReplyIn n buffer_size r) sized k.0, k.1)))
            (λ b v k. again b v k.0 (omega (arith, h refl, k.1)))

  process_wpa-IsSafe :
      (p : Port) (w : World) → IsSafe p → Post (λ q u. IsSafe q) (process_wpa api p w)
  unfolding process_wpa
  process_wpa-IsSafe p w s =
      Post->>= (λ b u. length b ≡ buffer_size) (λ q u. IsSafe q)
        (pending_loop api (suc (length w.selects)) p.wpa_buffer) _ w
        (pending_loop-sized (suc (length w.selects)) p.wpa_buffer w s.wpa_sized (omega arith))
        (λ b u h. record { erl_sized = s.erl_sized; wpa_sized = h; room = s.room })

  -- One round of the main loop from safe statics ends, and leaves them safe, whatever `poll` says.
  pub poll_round-IsSafe :
      (a : PollAnswer) (p : Port) (w : World)
      → IsSafe p
      → Post (λ q u. IsSafe q) (poll_round api a p w)
  unfolding poll_round
  poll_round-IsSafe (poll_failed e) p w s = elim (Bool-cases (is_eintr e)) [
    | inl again ↦ rw again s
    | inr fatal ↦ rw fatal tt
  ]
  poll_round-IsSafe (polled erl wpa) p w s =
      Post->>= (λ q u. IsSafe q) (λ q u. IsSafe q)
        (if erl.pollin || erl.pollhup then process_erl api p else return p) _ w
        (from_erl (erl.pollin || erl.pollhup)) (from_wpa wpa.pollin)
    where
      from_erl : (b : Bool) → Post (λ q u. IsSafe q) ((if b then process_erl api p else return p) w)
      from_erl true = process_erl-IsSafe p w s
      from_erl false = s

      from_wpa :
          (b : Bool) (q : Port) (u : World)
          → IsSafe q
          → Post (λ q' v. IsSafe q') ((if b then process_wpa api q else return q) u)
      from_wpa true q u h = process_wpa-IsSafe q u h
      from_wpa false q u h = h

  main_loop-never-returns :
      (polls : List PollAnswer) (p : Port) (w : World)
      → IsSafe p
      → Post (λ t u. ⊥) (main_loop api polls p w)
  unfolding main_loop
  main_loop-never-returns [] p w s = tt
  main_loop-never-returns (a ∷ polls) p w s =
      Post->>= (λ q u. IsSafe q) (λ t u. ⊥) (poll_round api a p) _ (record w { polls = polls })
        (poll_round-IsSafe a p (record w { polls = polls }) s)
        (λ q u h. main_loop-never-returns polls q u h)

  -- For a control interface that keeps its laws, the process never comes to the end of `main`,
  -- and no loop in it runs out of fuel: it exits, or it waits for the kernel.
  pub main-never-returns :
      {Ctrl : Type 0} (argc : ℕ) (ctrl : Option Ctrl) (w : World)
      → Post (λ t u. ⊥) (main api argc ctrl w)
  unfolding main main_attached
  main-never-returns argc ctrl w = elim (Bool-cases (argc == 2)) [
    | inr usage ↦ rw usage tt
    | inl given ↦ rw given (opened ctrl)
  ]
    where
      fresh : IsSafe fresh_port
      fresh = record { erl_sized = refl; wpa_sized = refl; room = omega arith }

      attached :
          (r : Option Failure) (u : World)
          → Post
              (λ t v. ⊥)
              ((elim r as (λ x. K (Unit {0})) [
                | some e ↦ exit_with (exit_failure "wpa_ctrl_attach")
                | none ↦ λ v. main_loop api v.polls fresh_port v
              ])
                u)
      attached none u = main_loop-never-returns u.polls fresh_port u fresh
      attached (some e) u = tt

      opened :
          {C : Type 0} (c : Option C)
          → Post
              (λ t u. ⊥)
              ((elim c as (λ x. K (Unit {0})) [
                | none ↦ exit_with (exit_failure "Couldn't open")
                | some d ↦ main_attached api
              ])
                w)
      opened none = tt
      opened (some d) =
          Post->>= (λ r u. Unit) (λ t u. ⊥) api.attach _ w (laws.attach_ends w)
            (λ r u h. attached r u)
