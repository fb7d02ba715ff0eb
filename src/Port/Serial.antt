-- ===== src/Port/Serial.antt =====
-- `process_erl` of src/wpa_ex.c against a scripted outside.
use wpa_supplicant_ex.Shared.{
  ℕ, ◌+◌, ◌-◌, ◌≤◌, ◌≡◌, sym, ap, ap₂, ◌∙◌, subst, List, [], ◌∷◌, ◌++◌, length, take, drop,
  take-all, drop-all, arith,
}
use wpa_supplicant_ex.Kernel.{
  World, Outcome, returned, exited, waiting, spent, bind-at, SendAnswer, SelectAnswer, RecvAnswer,
  WriteAnswer, ReadAnswer, bytes,
}
use wpa_supplicant_ex.Kernel.Calls.{unread}
use wpa_supplicant_ex.Ctrl.{unix}
use wpa_supplicant_ex.Port.{Port, buffer_size, process_erl}
use wpa_supplicant_ex.Port.Frames.{Parse, incomplete}
use wpa_supplicant_ex.Port.Dispatch.{
  View, view, contents, IsWithin, HasRoom, Refines, run_all, serve, finish, length-contents,
}
use wpa_supplicant_ex.Port.Delivery.{process_erl-serve}
use wpa_supplicant_ex.Port.Script.{
  Exchange, AllExchanges, commands, all_answers, sends_of, selects_of, recvs_of, writes_of,
  run_all-forwards, served_world,
}

-- A run over the statics that refines a view that is reached.
Refines-returned :
    (o : Outcome Port) (v : View) (w : World)
    → Refines o (returned v w)
    → (q : Port) × (o ≡ returned q w) × HasRoom q × (view q ≡ v)
Refines-returned (returned q u) v w h = (q, ground arith, h.0, ground arith)
Refines-returned (exited e u) v w h = absurd (cc)
Refines-returned (waiting u) v w h = absurd (cc)
Refines-returned spent v w h = absurd (cc)

-- Between two polls, with these bytes pending.
pub record Rests (r : List ℕ) (p : Port) : Type 0 where
  pub room : HasRoom p
  pub sized : length p.wpa_buffer ≡ buffer_size
  pub pending : contents p ≡ r

module _ (sl : List SendAnswer) (sel : List SelectAnswer) (rl : List RecvAnswer)
    (wl : List WriteAnswer) where
  serve-forwards :
      (xs : List Exchange) (r buf : List ℕ) (w : World)
      → length buf ≡ buffer_size
      → AllExchanges xs
      → w.sends ≡ sends_of xs sl
      → w.selects ≡ selects_of xs sel
      → w.recvs ≡ recvs_of xs rl
      → w.writes ≡ writes_of xs wl
      → (buf' : List ℕ) × (length buf' ≡ buffer_size)
        × (serve unix (commands xs) (incomplete r) buf w
            ≡ returned
                (record { pending = r; wpa_buffer = buf' })
                (served_world sl sel rl wl w (commands xs) (all_answers xs)))
  unfolding serve finish
  serve-forwards xs r buf w sized ok sends selects recvs writes =
      let all = run_all-forwards sl sel rl wl xs buf w sized ok sends selects recvs writes in
      (all.0, all.1, bind-at (run_all unix (commands xs) buf) (finish unix (incomplete r)) w all.2)

  -- One call of `process_erl` for a piece that completes the commands of some exchanges.
  pub process_erl-forwards :
      (p : Port) (x : ℕ) (c : List ℕ) (later : List ReadAnswer) (xs : List Exchange) {r s : List ℕ}
      (w : World)
      → Rests r p
      → length r + length (x ∷ c) ≤ buffer_size
      → Parse (r ++ (x ∷ c)) (commands xs) (incomplete s)
      → AllExchanges xs
      → w.reads ≡ bytes (x ∷ c) ∷ later
      → w.sends ≡ sends_of xs sl
      → w.selects ≡ selects_of xs sel
      → w.recvs ≡ recvs_of xs rl
      → w.writes ≡ writes_of xs wl
      → (q : Port) × Rests s q
        × (process_erl unix p w
            ≡ returned q (
                served_world sl sel rl wl
                  (record w { reads = later })
                  (commands xs)
                  (all_answers xs)))
  process_erl-forwards p x c later xs {r} {s} w rests fits parse ok reads sends selects recvs
        writes =
      (
        reached.0,
        record {
          room = reached.2;
          sized = ap (λ v. length v.wpa_buffer) reached.3 ∙ served.1;
          pending = ap (λ v. v.pending) reached.3;
        },
        reached.1,
      )
    where
      within : IsWithin p
      within = record { sized = rests.room.sized; below = omega (arith, rests.room.below) }

      held : p.erl_buffer_ix ≡ length r
      held = sym (length-contents unix p within) ∙ ap length rests.pending

      space : ℕ
      space = buffer_size - p.erl_buffer_ix

      enough : take space (x ∷ c) ≡ x ∷ c
      enough = take-all space (x ∷ c) (omega (arith, held))

      none_left : drop space (x ∷ c) ≡ []
      none_left = drop-all space (x ∷ c) (omega (arith, held))

      before : World
      before = record w { reads = later }

      served :
          (buf' : List ℕ) × (length buf' ≡ buffer_size)
          × (serve unix (commands xs) (incomplete s) p.wpa_buffer before
              ≡ returned
                  (record { pending = s; wpa_buffer = buf' })
                  (served_world sl sel rl wl before (commands xs) (all_answers xs)))
      served = serve-forwards xs s p.wpa_buffer before rests.sized ok sends selects recvs writes

      refined :
          Refines
            (process_erl unix p w)
            (serve unix (commands xs) (incomplete s) p.wpa_buffer before)
      refined =
          subst
            (λ u. Refines (process_erl unix p w) (
              serve unix (commands xs) (incomplete s) p.wpa_buffer
                (record w { reads = unread u later })))
            none_left
            (process_erl-serve unix p x c later w rests.room reads (
              subst (λ t. Parse t (commands xs) (incomplete s))
                (ap₂ (λ a b. a ++ b) (sym rests.pending) (sym enough)) parse))

      reached :
          (q : Port) × (process_erl unix p w
            ≡ returned q (served_world sl sel rl wl before (commands xs) (all_answers xs)))
          × HasRoom q
          × (view q ≡ record { pending = s; wpa_buffer = served.0 })
      reached = Refines-returned _ _ _ (subst (Refines (process_erl unix p w)) served.2 refined)
