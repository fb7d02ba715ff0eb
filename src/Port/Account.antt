-- ===== src/Port/Account.antt =====
-- What has passed through the port program of src/wpa_ex.c at any point of a run: which commands it has
-- taken out of the stream from Erlang, and which datagrams it has passed on.
pub mod Requests
pub mod Rounds
use wpa_supplicant_ex.Shared.{
  ℕ, ◌+◌, ◌-◌, ◌≤◌, ◌<◌, ◌≡◌, refl, sym, ap, ◌∙◌, subst, ◌⊎◌, inl, inr, ◌==◌, List, [], ◌∷◌, ◌++◌,
  append_assoc, append-nil, arith, Bool-cases, some, length, take, take-all, if◌then◌else◌, map,
}
use wpa_supplicant_ex.Kernel.{
  World, K, Outcome, returned, exited, waiting, spent, ◌>>=◌, WriteAnswer, wrote, write_failed,
  is_eintr,
}
use wpa_supplicant_ex.Kernel.Traffic.{Traffic, traffic, Leaves, Leaves->>=}
use wpa_supplicant_ex.Api.{CtrlApi, Reply, replied, failed}
use wpa_supplicant_ex.Api.Effects.{with_command, with_datagram, IsAnswer, CtrlEffects}
use wpa_supplicant_ex.Ctrl.Exchange.{IsEvent}
use wpa_supplicant_ex.Port.{
  Port, buffer_size, frame, write_loop, send_to_erl, forward_reply, forward_event, do_wpa_request,
}
use wpa_supplicant_ex.Port.Forward.{event_text, reply_text}
use wpa_supplicant_ex.Port.Frames.{
  IsPartial, Ending, incomplete, too_long, Parse, stop, refuse, next, encode, encode-snoc, AllFit,
}
use wpa_supplicant_ex.Port.Dispatch.{contents, HasRoom, Refines, View, run_all, finish, serve}

-- What Erlang gets of a datagram: as much as the buffer holds, and a byte less of an event that
-- comes while a reply is awaited.
abbrev pub IsText : List ℕ → List ℕ → Type 0
IsText t d = (t ≡ reply_text d) ⊎ (IsEvent d × (t ≡ event_text d))

-- Each datagram is passed on once, and in order.
abbrev pub Passes : List (List ℕ) → List (List ℕ) → Type 0
Passes [] [] = Unit {0}
Passes (t ∷ ts) (d ∷ ds) = IsText t d × Passes ts ds
Passes _ _ = ⊥

-- A frame that was being written when the run was left, of which `n` bytes have gone out, and the
-- datagram that it was for.
pub data IsCut : List ℕ → List (List ℕ) → Type 0 where
  between_frames : IsCut [] []
  in_frame : {t d : List ℕ} (n : ℕ) → IsText t d → IsCut (take n (frame t)) (d ∷ [])

-- From `t`: the commands `ms` have been taken out of the stream and have gone out, each as `wire` has it, `rest` has been
-- read but is not yet served, and each datagram that was taken has been passed on.
pub record Progress (wire : List ℕ → List ℕ) (t : Traffic) (ms : List (List ℕ)) (rest : List ℕ)
    (u : Traffic) : Type 0 where
  pub texts : List (List ℕ)
  pub taken : List (List ℕ)
  pub fits : AllFit ms
  pub passes : Passes texts taken
  pub incoming : t.incoming ≡ taken ++ u.incoming
  pub written : u.written ≡ t.written ++ encode texts
  pub commands : u.commands ≡ t.commands ++ map wire ms
  pub input : t.input ≡ encode ms ++ (rest ++ u.input)

-- The same wherever a run is left: a frame may be cut then.
pub record IsStopped (wire : List ℕ → List ℕ) (t u : Traffic) : Type 0 where
  pub served : List (List ℕ)
  pub rest : List ℕ
  pub texts : List (List ℕ)
  pub taken : List (List ℕ)
  pub cut : List ℕ
  pub last : List (List ℕ)
  pub fits : AllFit served
  pub passes : Passes texts taken
  pub is_cut : IsCut cut last
  pub incoming : t.incoming ≡ taken ++ (last ++ u.incoming)
  pub written : u.written ≡ t.written ++ (encode texts ++ cut)
  pub commands : u.commands ≡ t.commands ++ map wire served
  pub input : t.input ≡ encode served ++ (rest ++ u.input)

Passes-snoc :
    (ts ds : List (List ℕ)) (t d : List ℕ)
    → Passes ts ds
    → IsText t d
    → Passes (ts ++ (t ∷ [])) (ds ++ (d ∷ []))
Passes-snoc [] [] t d h e = (e, tt)
Passes-snoc [] (x ∷ ds) t d h e = elim h [ ]
Passes-snoc (x ∷ ts) [] t d h e = elim h [ ]
Passes-snoc (x ∷ ts) (y ∷ ds) t d h e = (h.0, Passes-snoc ts ds t d h.1 e)

module _ (wire : List ℕ → List ℕ) (t : Traffic) (ms : List (List ℕ)) (rest : List ℕ) where
  pub Progress-IsStopped : (u : Traffic) → Progress wire t ms rest u → IsStopped wire t u
  Progress-IsStopped u h = record {
    served = ms;
    rest = rest;
    texts = h.texts;
    taken = h.taken;
    cut = [];
    last = [];
    fits = h.fits;
    passes = h.passes;
    is_cut = between_frames;
    incoming = h.incoming;
    written = h.written ∙ ap (λ s. t.written ++ s) (sym (append-nil (encode h.texts)));
    commands = h.commands;
    input = h.input;
  }

  -- A datagram that was taken goes to Erlang.
  module _ (msg d : List ℕ) (text : IsText msg d) where
    passed :
        (u : Traffic)
        → Progress wire t ms rest (with_datagram d u)
        → Progress wire t ms rest (record u { written = u.written ++ frame msg })
    passed u h = record {
      texts = h.texts ++ (msg ∷ []);
      taken = h.taken ++ (d ∷ []);
      fits = h.fits;
      passes = Passes-snoc h.texts h.taken msg d h.passes text;
      incoming = h.incoming ∙ sym (append_assoc h.taken (d ∷ []) u.incoming);
      written =
          ap (λ s. s ++ frame msg) h.written
          ∙ append_assoc t.written (encode h.texts) (frame msg)
          ∙ ap (λ s. t.written ++ s) (sym (encode-snoc h.texts msg));
      commands = h.commands;
      input = h.input;
    }

    broken :
        (n : ℕ) (u : Traffic)
        → Progress wire t ms rest (with_datagram d u)
        → IsStopped wire t (record u { written = u.written ++ take n (frame msg) })
    broken n u h = record {
      served = ms;
      rest = rest;
      texts = h.texts;
      taken = h.taken;
      cut = take n (frame msg);
      last = d ∷ [];
      fits = h.fits;
      passes = h.passes;
      is_cut = in_frame n text;
      incoming = h.incoming;
      written =
          ap (λ s. s ++ take n (frame msg)) h.written
          ∙ append_assoc t.written (encode h.texts) (take n (frame msg));
      commands = h.commands;
      input = h.input;
    }

    write_loop-Progress :
        (later : List WriteAnswer) (w : World)
        → Progress wire t ms rest (with_datagram d (traffic w))
        → Leaves (λ x u. Progress wire t ms rest u) (IsStopped wire t) (write_loop msg later w)
    unfolding write_loop
    write_loop-Progress [] w h =
        subst (λ s. IsStopped wire t (record (traffic w) { written = s })) (append-nil w.stdout)
          (broken 0 (traffic w) h)
    write_loop-Progress (write_failed e ∷ later) w h = elim (Bool-cases (is_eintr e)) [
      | inl again ↦ rw again (write_loop-Progress later w h)
      | inr fatal ↦ rw fatal (
          subst (λ s. IsStopped wire t (record (traffic w) { written = s })) (append-nil w.stdout)
            (broken 0 (traffic w) h))
    ]
    write_loop-Progress (wrote n ∷ later) w h = elim (Bool-cases (n == length msg + 2)) [
      | inl all ↦ rw all (
          subst (λ s. Progress wire t ms rest (record (traffic w) { written = w.stdout ++ s }))
            (sym (take-all n (frame msg) (ground arith))) (passed (traffic w) h))
      | inr short ↦ rw short (broken n (traffic w) h)
    ]

    pub send_to_erl-Progress :
        (w : World)
        → Progress wire t ms rest (with_datagram d (traffic w))
        → Leaves (λ x u. Progress wire t ms rest u) (IsStopped wire t) (send_to_erl msg w)
    unfolding send_to_erl
    send_to_erl-Progress w h = write_loop-Progress w.writes w h
