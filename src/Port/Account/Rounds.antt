-- ===== src/Port/Account/Rounds.antt =====
-- A round of the main loop (`poll_round` of src/wpa_ex.c) over what passes through the program.
use wpa_supplicant_ex.Shared.{
  ℕ, zero, suc, ◌-◌, ◌≡◌, sym, ap, ◌∙◌, subst, inl, inr, Bool, true, false, ◌||◌, List, [], ◌∷◌,
  ◌++◌, append_assoc, arith, Bool-cases, if◌then◌else◌, length,
}
use wpa_supplicant_ex.Kernel.{
  World, ◌>>=◌, return, is_eintr, ReadAnswer, bytes, read_failed, PollAnswer, polled, poll_failed,
}
use wpa_supplicant_ex.Kernel.Calls
use wpa_supplicant_ex.Kernel.Traffic.{
  Traffic, traffic, Leaves, Leaves->>=, Finishes, Finishes->>=, Leaves-Finishes, HasRead,
  read-HasRead,
}
use wpa_supplicant_ex.Api.{CtrlApi, Reply, replied, failed}
use wpa_supplicant_ex.Api.Effects.{IsAnswer, CtrlEffects}
use wpa_supplicant_ex.Port.{
  Port, buffer_size, receive, after_read, process_erl, forward_event, pending_loop, process_wpa,
  poll_round,
}
use wpa_supplicant_ex.Port.Frames.{AllBytes, Ending, Parse, Parse-total, encode}
use wpa_supplicant_ex.Port.Dispatch.{contents, serve}
use wpa_supplicant_ex.Port.Delivery.{receive-serve}
use wpa_supplicant_ex.Port.Account.{Progress, IsStopped, Progress-IsStopped}
use wpa_supplicant_ex.Port.Account.Requests.{
  IsComplete, IsCaughtUp, HasPassed, passes-answer, Refines-Leaves, serve-IsServed,
}

AllBytes-right : (a b : List ℕ) → AllBytes (a ++ b) → AllBytes b
unfolding AllBytes
AllBytes-right [] b h = h
AllBytes-right (x ∷ a) b h = AllBytes-right a b h.1

AllBytes-left : (a b : List ℕ) → AllBytes (a ++ b) → AllBytes a
unfolding AllBytes
AllBytes-left [] b h = tt
AllBytes-left (x ∷ a) b h = (h.0, AllBytes-left a b h.1)

-- What has been read and is not served yet consists of bytes, as the stream does.
rest-AllBytes :
    (wire : List ℕ → List ℕ) (t : Traffic) (ms : List (List ℕ)) (rest : List ℕ) (u : Traffic)
    → AllBytes t.input
    → Progress wire t ms rest u
    → AllBytes rest
rest-AllBytes wire t ms rest u b p =
    AllBytes-left rest u.input
      (AllBytes-right (encode ms) (rest ++ u.input) (subst AllBytes p.input b))

-- What has been read is pending behind the rest.
read_behind :
    (wire : List ℕ → List ℕ) (t : Traffic) (ms : List (List ℕ)) (rest xs : List ℕ) (u : Traffic)
    → Progress wire t ms rest (record u { input = xs ++ u.input })
    → Progress wire t ms (rest ++ xs) u
read_behind wire t ms rest xs u h = record {
  texts = h.texts;
  taken = h.taken;
  fits = h.fits;
  passes = h.passes;
  incoming = h.incoming;
  written = h.written;
  commands = h.commands;
  input = h.input ∙ ap (λ s. encode ms ++ s) (sym (append_assoc rest xs u.input));
}

module _ (api : CtrlApi) {wire : List ℕ → List ℕ} {attach_text ok_text : List ℕ}
    (effects : CtrlEffects api wire attach_text ok_text) (t : Traffic)
    (all : AllBytes t.input) where
  after_read-IsCaughtUp :
      (p : Port) (u : Traffic) (c : IsCaughtUp wire t p u) (a : ReadAnswer) (w : World)
      → HasRead
          (Progress wire t c.served.served (contents p))
          (buffer_size - p.erl_buffer_ix)
          a
          (traffic w)
      → Finishes (IsComplete wire t) (IsCaughtUp wire t) (IsStopped wire t) (after_read api p a w)
  unfolding after_read
  after_read-IsCaughtUp p u c (read_failed e) w h = elim (Bool-cases (is_eintr e)) [
    | inl again ↦ rw again (record {
      room = c.room;
      served = record {
        served = c.served.served;
        progress = h;
        sized = c.served.sized;
        part = c.served.part;
      };
    })
    | inr fatal ↦ rw fatal (Progress-IsStopped wire t c.served.served (contents p) (traffic w) h)
  ]
  after_read-IsCaughtUp p u c (bytes []) w h = record {
    served = c.served.served;
    rest = contents p;
    progress = h.1;
    part = c.served.part;
  }
  after_read-IsCaughtUp p u c (bytes (x ∷ xs)) w h =
      Leaves-Finishes (IsComplete wire t) (IsCaughtUp wire t) (IsStopped wire t)
        (receive api p (x ∷ xs) w)
        (Refines-Leaves wire t (receive api p (x ∷ xs) w) (serve api found.0 found.1 p.wpa_buffer w)
          (receive-serve api p (x ∷ xs) w c.room (omega (arith, h.0, c.room.below)) found.2)
          (serve-IsServed api effects t c.served.served p.wpa_buffer w found.2 c.served.sized
            behind))
    where
      behind : Progress wire t c.served.served (contents p ++ (x ∷ xs)) (traffic w)
      behind = read_behind wire t c.served.served (contents p) (x ∷ xs) (traffic w) h.1

      found : (ms : List (List ℕ)) × (e : Ending) × Parse (contents p ++ (x ∷ xs)) ms e
      found =
          Parse-total (contents p ++ (x ∷ xs))
            (rest-AllBytes wire t c.served.served (contents p ++ (x ∷ xs)) (traffic w) all behind)

  process_erl-IsCaughtUp :
      (p : Port) (w : World)
      → IsCaughtUp wire t p (traffic w)
      → Finishes (IsComplete wire t) (IsCaughtUp wire t) (IsStopped wire t) (process_erl api p w)
  unfolding process_erl
  process_erl-IsCaughtUp p w c =
      Finishes->>= (IsComplete wire t) (HasRead Pending (buffer_size - p.erl_buffer_ix))
        (IsCaughtUp wire t) (IsStopped wire t) (Calls.read (buffer_size - p.erl_buffer_ix))
        (after_read api p) w
        (Leaves-Finishes (IsComplete wire t) (HasRead Pending (buffer_size - p.erl_buffer_ix))
          (IsStopped wire t) (Calls.read (buffer_size - p.erl_buffer_ix) w)
          (read-HasRead Pending (IsStopped wire t)
            (Progress-IsStopped wire t c.served.served (contents p)) (buffer_size - p.erl_buffer_ix)
            w c.served.progress))
        (after_read-IsCaughtUp p (traffic w) c)
    where
      Pending : Traffic → Type 0
      Pending = Progress wire t c.served.served (contents p)

  module _ (ms : List (List ℕ)) (rest : List ℕ) where
    abbrev Passed : List ℕ → Traffic → Type 0
    Passed = HasPassed api effects t ms rest

    forward_event-HasPassed :
        (r : Reply) (w : World)
        → IsAnswer (Progress wire t ms rest) (IsStopped wire t) buffer_size r (traffic w)
        → Leaves Passed (IsStopped wire t) (forward_event api r w)
    unfolding forward_event
    forward_event-HasPassed (failed e) w h = h
    forward_event-HasPassed (replied b n) w (d, sized, filled, h) =
        passes-answer api effects t ms rest b n d w sized filled h

    pending_loop-HasPassed :
        (fuel : ℕ) (buf : List ℕ) (w : World)
        → length buf ≡ buffer_size
        → Progress wire t ms rest (traffic w)
        → Leaves Passed (IsStopped wire t) (pending_loop api fuel buf w)
    unfolding pending_loop
    pending_loop-HasPassed zero buf w sized h = tt
    pending_loop-HasPassed (suc fuel) buf w sized h =
        Leaves->>= (λ more u. Progress wire t ms rest u) Passed (IsStopped wire t) api.pending _ w
          (effects.pending_effects (Progress wire t ms rest) (IsStopped wire t) w
            (Progress-IsStopped wire t ms rest) h)
          (go (λ b u k. pending_loop-HasPassed fuel b u k.0 k.1))
      where
        go :
            ((b : List ℕ) (u : World)
              → (length b ≡ buffer_size) × Progress wire t ms rest (traffic u)
              → Leaves
                  (HasPassed api effects t ms rest)
                  (IsStopped wire t)
                  (pending_loop api fuel b u))
            → (more : Bool) (u : World) → Progress wire t ms rest (traffic u)
            → Leaves (HasPassed api effects t ms rest) (IsStopped wire t) (
                (if more
                    then (api.recv buf buffer_size >>= forward_event api >>= λ b.
                        λ w'. pending_loop api fuel b w')
                    else return buf)
                  u)
        go again false u k = (sized, k)
        go again true u k =
            Leaves->>= Passed Passed (IsStopped wire t)
              (api.recv buf buffer_size >>= forward_event api) _ u
              (Leaves->>= (IsAnswer (Progress wire t ms rest) (IsStopped wire t) buffer_size) Passed
                (IsStopped wire t) (api.recv buf buffer_size) (forward_event api) u
                (effects.recv_effects (Progress wire t ms rest) (IsStopped wire t) buf buffer_size u
                  sized (Progress-IsStopped wire t ms rest) k)
                forward_event-HasPassed)
              again

  process_wpa-IsCaughtUp :
      (p : Port) (w : World)
      → IsCaughtUp wire t p (traffic w)
      → Finishes (IsComplete wire t) (IsCaughtUp wire t) (IsStopped wire t) (process_wpa api p w)
  unfolding process_wpa
  process_wpa-IsCaughtUp p w c =
      Finishes->>= (IsComplete wire t) (HasPassed api effects t c.served.served (contents p))
        (IsCaughtUp wire t) (IsStopped wire t)
        (pending_loop api (suc (length w.selects)) p.wpa_buffer) _ w
        (Leaves-Finishes (IsComplete wire t) (HasPassed api effects t c.served.served (contents p))
          (IsStopped wire t) (pending_loop api (suc (length w.selects)) p.wpa_buffer w)
          (pending_loop-HasPassed c.served.served (contents p) (suc (length w.selects)) p.wpa_buffer
            w c.served.sized c.served.progress))
        (λ b u h. record {
          room = record { sized = c.room.sized; below = c.room.below };
          served = record {
            served = c.served.served;
            progress = h.1;
            sized = h.0;
            part = c.served.part;
          };
        })

  -- One round, whatever `poll` says.
  pub poll_round-IsCaughtUp :
      (a : PollAnswer) (p : Port) (w : World)
      → IsCaughtUp wire t p (traffic w)
      → Finishes (IsComplete wire t) (IsCaughtUp wire t) (IsStopped wire t) (poll_round api a p w)
  unfolding poll_round
  poll_round-IsCaughtUp (poll_failed e) p w c = elim (Bool-cases (is_eintr e)) [
    | inl again ↦ rw again c
    | inr fatal ↦
        rw fatal
          (Progress-IsStopped wire t c.served.served (contents p) (traffic w) c.served.progress)
  ]
  poll_round-IsCaughtUp (polled erl wpa) p w c =
      Finishes->>= (IsComplete wire t) (IsCaughtUp wire t) (IsCaughtUp wire t) (IsStopped wire t)
        (if erl.pollin || erl.pollhup then process_erl api p else return p) _ w
        (from_erl (erl.pollin || erl.pollhup)) (from_wpa wpa.pollin)
    where
      from_erl :
          (b : Bool)
          → Finishes
              (IsComplete wire t)
              (IsCaughtUp wire t)
              (IsStopped wire t)
              ((if b then process_erl api p else return p) w)
      from_erl true = process_erl-IsCaughtUp p w c
      from_erl false = c

      from_wpa :
          (b : Bool) (q : Port) (u : World)
          → IsCaughtUp wire t q (traffic u)
          → Finishes
              (IsComplete wire t)
              (IsCaughtUp wire t)
              (IsStopped wire t)
              ((if b then process_wpa api q else return q) u)
      from_wpa true q u h = process_wpa-IsCaughtUp q u h
      from_wpa false q u h = h
