-- ===== src/Port/Account/Requests.antt =====
-- Requests (src/wpa_ex.c), and the dispatching of what a read has completed, over what passes through the
-- program.
use wpa_supplicant_ex.Shared.{
  ℕ, ◌+◌, ◌-◌, ◌≤◌, ◌≡◌, refl, sym, ap, ◌∙◌, subst, inl, inr, List, [], ◌∷◌, ◌++◌, append_assoc,
  map, arith, some, length, take,
}
use wpa_supplicant_ex.Kernel.{
  World, Outcome, returned, exited, waiting, spent, exit_success, exit_failure, ◌>>=◌,
}
use wpa_supplicant_ex.Kernel.Traffic.{Traffic, traffic, Leaves, Leaves->>=}
use wpa_supplicant_ex.Api.{CtrlApi, Reply, replied, failed}
use wpa_supplicant_ex.Api.Effects.{with_command, with_datagram, IsAnswer, CtrlEffects}
use wpa_supplicant_ex.Port.{Port, buffer_size, frame, send_to_erl, forward_reply, do_wpa_request}
use wpa_supplicant_ex.Port.Frames.{
  IsPartial, Ending, Parse, stop, refuse, next, encode, encode-snoc, AllFit,
}
use wpa_supplicant_ex.Port.Dispatch.{View, view, HasRoom, Refines, run_all, finish, serve}
use wpa_supplicant_ex.Port.Account.{Progress, IsStopped, Progress-IsStopped, send_to_erl-Progress}

-- With a view `v`: every message that is complete has been served, and the buffer has its size.
pub record IsServed (wire : List ℕ → List ℕ) (t : Traffic) (v : View) (u : Traffic) : Type 0 where
  pub served : List (List ℕ)
  pub progress : Progress wire t served v.pending u
  pub sized : length v.wpa_buffer ≡ buffer_size
  pub part : IsPartial v.pending

-- With the statics of the port.
pub record IsCaughtUp (wire : List ℕ → List ℕ) (t : Traffic) (p : Port) (u : Traffic) : Type 0 where
  pub room : HasRoom p
  pub served : IsServed wire t (view p) u

map-snoc :
    (f : List ℕ → List ℕ) (ms : List (List ℕ)) (m : List ℕ)
    → map f (ms ++ (m ∷ [])) ≡ map f ms ++ (f m ∷ [])
map-snoc f [] m = refl
map-snoc f (x ∷ ms) m = ap (◌∷◌ (f x)) (map-snoc f ms m)

AllFit-snoc :
    (ms : List (List ℕ)) (m : List ℕ)
    → AllFit ms
    → length m + 2 ≤ buffer_size
    → AllFit (ms ++ (m ∷ []))
unfolding AllFit
AllFit-snoc [] m h fits = (fits, tt)
AllFit-snoc (x ∷ ms) m h fits = (h.0, AllFit-snoc ms m h.1 fits)

-- Nothing that was read is left but the beginning of a message, and no frame is cut.
pub record IsComplete (wire : List ℕ → List ℕ) (t u : Traffic) : Type 0 where
  pub served : List (List ℕ)
  pub rest : List ℕ
  pub progress : Progress wire t served rest u
  pub part : IsPartial rest

-- A message is taken from the front of what has been read, and goes out.
taken_out :
    (wire : List ℕ → List ℕ) (t : Traffic) (ms : List (List ℕ)) (m r : List ℕ) (u : Traffic)
    → length m + 2 ≤ buffer_size
    → Progress wire t ms (frame m ++ r) u
    → Progress wire t (ms ++ (m ∷ [])) r (with_command (wire m) u)
taken_out wire t ms m r u fits h = record {
  texts = h.texts;
  taken = h.taken;
  fits = AllFit-snoc ms m h.fits fits;
  passes = h.passes;
  incoming = h.incoming;
  written = h.written;
  commands =
      ap (λ cs. cs ++ (wire m ∷ [])) h.commands
      ∙ append_assoc t.commands (map wire ms) (wire m ∷ [])
      ∙ ap (λ cs. t.commands ++ cs) (sym (map-snoc wire ms m));
  input =
      h.input
      ∙ ap (λ s. encode ms ++ s) (append_assoc (frame m) r u.input)
      ∙ sym (append_assoc (encode ms) (frame m) (r ++ u.input))
      ∙ ap (λ s. s ++ (r ++ u.input)) (sym (encode-snoc ms m));
}

pub Refines-Leaves :
    (wire : List ℕ → List ℕ) (t : Traffic) (o : Outcome Port) (o' : Outcome View)
    → Refines o o'
    → Leaves (IsServed wire t) (IsStopped wire t) o'
    → Leaves (IsCaughtUp wire t) (IsStopped wire t) o
Refines-Leaves wire t (returned p w) o' r h = record {
  room = r.0;
  served = subst (Leaves (IsServed wire t) (IsStopped wire t)) r.1 h;
}
Refines-Leaves wire t (exited exit_success w) o' r h =
    subst (Leaves (IsServed wire t) (IsStopped wire t)) r h
Refines-Leaves wire t (exited (exit_failure m) w) o' r h =
    subst (Leaves (IsServed wire t) (IsStopped wire t)) r h
Refines-Leaves wire t (waiting w) o' r h = subst (Leaves (IsServed wire t) (IsStopped wire t)) r h
Refines-Leaves wire t spent o' r h = tt

module _ (api : CtrlApi) {wire : List ℕ → List ℕ} {attach_text ok_text : List ℕ}
    (effects : CtrlEffects api wire attach_text ok_text) (t : Traffic) where
  -- The buffer and the traffic behind a message that was passed on.
  abbrev pub HasPassed : List (List ℕ) → List ℕ → List ℕ → Traffic → Type 0
  HasPassed ms rest b u = (length b ≡ buffer_size) × Progress wire t ms rest u

  module _ (ms : List (List ℕ)) (rest : List ℕ) where
    pub passes-answer :
        (b : List ℕ) (n : ℕ) (d : List ℕ) (w : World)
        → length b ≡ buffer_size
        → take n b ≡ take buffer_size d
        → Progress wire t ms rest (with_datagram d (traffic w))
        → Leaves
            (HasPassed ms rest)
            (IsStopped wire t)
            ((send_to_erl (take n b) >>= λ _. λ w'. returned b w') w)
    passes-answer b n d w sized filled h =
        Leaves->>= (λ x u. Progress wire t ms rest u) (HasPassed ms rest) (IsStopped wire t)
          (send_to_erl (take n b)) _ w
          (send_to_erl-Progress wire t ms rest (take n b) d (inl filled) w h) (λ x u k. (sized, k))

    forward_reply-HasPassed :
        (r : Reply) (w : World)
        → IsAnswer (Progress wire t ms rest) (IsStopped wire t) buffer_size r (traffic w)
        → Leaves (HasPassed ms rest) (IsStopped wire t) (forward_reply api r w)
    unfolding forward_reply
    forward_reply-HasPassed (failed e) w h = h
    forward_reply-HasPassed (replied b n) w (d, sized, filled, h) =
        passes-answer b n d w sized filled h

  do_wpa_request-HasPassed :
      (ms : List (List ℕ)) (m r buf : List ℕ) (w : World)
      → length buf ≡ buffer_size
      → length m + 2 ≤ buffer_size
      → Progress wire t ms (frame m ++ r) (traffic w)
      → Leaves (HasPassed (ms ++ (m ∷ [])) r) (IsStopped wire t) (do_wpa_request api m buf w)
  unfolding do_wpa_request
  do_wpa_request-HasPassed ms m r buf w sized fits h =
      Leaves->>= (IsAnswer After (IsStopped wire t) buffer_size) (HasPassed (ms ++ (m ∷ [])) r)
        (IsStopped wire t) (api.request m buf buffer_size (some send_to_erl)) (forward_reply api) w
        (effects.request_effects After (IsStopped wire t) m buf buffer_size send_to_erl w
          (omega arith) sized (Progress-IsStopped wire t (ms ++ (m ∷ [])) r)
          (Progress-IsStopped wire t ms (frame m ++ r) (traffic w) h)
          (taken_out wire t ms m r (traffic w) fits h)
          (λ d u event k.
            send_to_erl-Progress wire t (ms ++ (m ∷ [])) r (take (buffer_size - 1) d) d
              (inr (event, refl)) u k))
        (forward_reply-HasPassed (ms ++ (m ∷ [])) r)
    where
      After : Traffic → Type 0
      After = Progress wire t (ms ++ (m ∷ [])) r

  -- The messages of what has been read are served.
  pub serve-IsServed :
      {s : List ℕ} {ns : List (List ℕ)} {e : Ending} (ms : List (List ℕ)) (buf : List ℕ) (w : World)
      → Parse s ns e
      → length buf ≡ buffer_size
      → Progress wire t ms s (traffic w)
      → Leaves (IsServed wire t) (IsStopped wire t) (serve api ns e buf w)
  unfolding serve
  serve-IsServed ms buf w (stop h) sized p = record {
    served = ms;
    progress = p;
    sized = sized;
    part = h;
  }
  serve-IsServed {s} ms buf w (refuse h) sized p = Progress-IsStopped wire t ms s (traffic w) p
  serve-IsServed ms buf w (next {t = r} {ms = ns} {e} m fits eq parse) sized p =
      over (do_wpa_request api m buf w)
        (do_wpa_request-HasPassed ms m r buf w sized fits
          (subst (λ s. Progress wire t ms s (traffic w)) eq p))
        (λ b u h. serve-IsServed (ms ++ (m ∷ [])) b u parse h.0 h.1)
    where
      over :
          (o : Outcome (List ℕ))
          → Leaves (HasPassed (ms ++ (m ∷ [])) r) (IsStopped wire t) o
          → ((b : List ℕ) (u : World)
              → HasPassed (ms ++ (m ∷ [])) r b (traffic u)
              → Leaves (IsServed wire t) (IsStopped wire t) (serve api ns e b u))
          → Leaves
              (IsServed wire t)
              (IsStopped wire t)
              (((λ (v : World). ((λ (u : World). o) >>= run_all api ns) w) >>= finish api e) w)
      over (returned b u) h go = go b u h
      over (exited exit_success u) h go = h
      over (exited (exit_failure x) u) h go = h
      over (waiting u) h go = h
      over spent h go = tt
