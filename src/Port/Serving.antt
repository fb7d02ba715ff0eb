-- ===== src/Port/Serving.antt =====
-- The specification of the port's dispatching, message by message: how it goes on, and how a run that
-- refines it does.
use wpa_supplicant_ex.Shared.{ℕ, ◌≡◌, refl, List, [], ◌∷◌, ◌++◌, arith}
use wpa_supplicant_ex.Kernel.{World, K, Outcome, returned, exited, waiting, spent, ◌>>=◌}
use wpa_supplicant_ex.Api.{CtrlApi}
use wpa_supplicant_ex.Port.{Port, do_wpa_request}
use wpa_supplicant_ex.Port.Frames.{Ending, incomplete}
use wpa_supplicant_ex.Port.Dispatch.{View, view, HasRoom, Refines, run_all, finish, serve}

module _ (api : CtrlApi) where
  -- The messages behind some others are served from the buffer that those leave.
  pub serve-append :
      (ms ns : List (List ℕ)) (r : List ℕ) (e : Ending) (buf : List ℕ) (w : World)
      → serve api (ms ++ ns) e buf w
        ≡ (serve api ms (incomplete r) buf >>= λ v. serve api ns e v.wpa_buffer) w
  unfolding serve
  serve-append [] ns r e buf w = refl
  serve-append (m ∷ ms) ns r e buf w =
      over (do_wpa_request api m buf w) (λ b w'. serve-append ms ns r e b w')
    where
      over :
          (o : Outcome (List ℕ))
          → ((b : List ℕ) (w' : World)
              → serve api (ms ++ ns) e b w'
                ≡ (serve api ms (incomplete r) b >>= λ v. serve api ns e v.wpa_buffer) w')
          → ((λ (u : World). ((λ (v : World). o) >>= run_all api (ms ++ ns)) w) >>= finish api e) w
            ≡ ((λ (u : World).
                    ((λ (u' : World). ((λ (v : World). o) >>= run_all api ms) w)
                        >>= finish api (incomplete r))
                      w)
                  >>= λ v. serve api ns e v.wpa_buffer)
                w
      over (returned b w') ih = ih b w'
      over (exited x w') ih = refl
      over (waiting w') ih = refl
      over spent ih = refl

  -- What waits after the messages is what the parse left over.
  pub serve-pending :
      (ms : List (List ℕ)) (r buf : List ℕ) (w : World) {v : View} {w' : World}
      → serve api ms (incomplete r) buf w ≡ returned v w'
      → v.pending ≡ r
  unfolding serve
  serve-pending ms r buf w {v} {w'} = over (run_all api ms buf w)
    where
      over :
          (o : Outcome (List ℕ))
          → ((λ (u : World). o) >>= finish api (incomplete r)) w ≡ returned v w'
          → v.pending ≡ r
      over (returned b u) h = ground arith
      over (exited x u) h = cc
      over (waiting u) h = cc
      over spent h = cc

  -- Refinement is kept by going on.
  pub Refines->>= :
      (o : Outcome Port) (o' : Outcome View) (k : Port → K Port) (k' : View → K View) (w : World)
      → Refines o o'
      → ((q : Port) (w' : World)
          → HasRoom q
          → o' ≡ returned (view q) w'
          → Refines (k q w') (k' (view q) w'))
      → Refines (((λ (u : World). o) >>= k) w) (((λ (u : World). o') >>= k') w)
  Refines->>= (returned q u) o' k k' w h next_lem = rw (h.1) (next_lem q u h.0 h.1)
  Refines->>= (exited x u) o' k k' w h next_lem = rw h
  Refines->>= (waiting u) o' k k' w h next_lem = rw h
  Refines->>= spent o' k k' w h next_lem = rw h
