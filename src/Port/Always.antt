-- ===== src/Port/Always.antt =====
-- Any run of src/wpa_ex.c, up to any point and however it is left, against what the outside gave it.
use wpa_supplicant_ex.Shared.{
  ℕ, refl, sym, subst, inl, inr, ◌==◌, List, [], ◌∷◌, append-nil, Option, none, some, arith,
  Bool-cases,
}
use wpa_supplicant_ex.Kernel.{
  World, K, Outcome, returned, exited, waiting, spent, exit_with, exit_failure, exit_success,
  PollAnswer,
}
use wpa_supplicant_ex.Kernel.Post.{Post}
use wpa_supplicant_ex.Kernel.Traffic.{
  Traffic, traffic, Leaves, Finishes, Finishes->>=, Finishes-weaken,
}
use wpa_supplicant_ex.Api.{CtrlApi, Failure}
use wpa_supplicant_ex.Api.Laws.{CtrlLaws}
use wpa_supplicant_ex.Api.Effects.{CtrlEffects, IsAttached, IsUntouched, AttachEnds}
use wpa_supplicant_ex.Port.{Port, fresh_port, poll_round, main_loop, main_attached, main}
use wpa_supplicant_ex.Port.Frames.{AllBytes, AllFit, encode}
use wpa_supplicant_ex.Port.Total.{main-never-returns}
use wpa_supplicant_ex.Port.Reach.{Reached, started, polling}
use wpa_supplicant_ex.Port.Account.{IsStopped, Progress-IsStopped}
use wpa_supplicant_ex.Port.Account.Requests.{IsComplete, IsCaughtUp}
use wpa_supplicant_ex.Port.Account.Rounds.{poll_round-IsCaughtUp}

-- Where a run has been left: before it was attached, or behind.
pub data IsAccounted (wire : List ℕ → List ℕ) (attach_text ok_text : List ℕ) (t u : Traffic)
    : Type 0 where
  unattached : IsUntouched attach_text t u → IsAccounted wire attach_text ok_text t u
  attached :
      (s : Traffic)
      → IsAttached attach_text ok_text t s
      → IsStopped wire s u
      → IsAccounted wire attach_text ok_text t u

-- The end of a run that exits with success.
abbrev pub IsCompleteRun : (List ℕ → List ℕ) → List ℕ → List ℕ → Traffic → Traffic → Type 0
IsCompleteRun wire attach_text ok_text t u =
    (s : Traffic) × IsAttached attach_text ok_text t s × IsComplete wire s u

-- A run that exits or waits, with its traffic accounted for.
abbrev pub KeepsAccount :
    (List ℕ → List ℕ) → List ℕ → List ℕ → Traffic → Outcome (Unit {0}) → Type 0
KeepsAccount wire attach_text ok_text t (returned x w) = ⊥
KeepsAccount wire attach_text ok_text t (exited exit_success w) =
    IsCompleteRun wire attach_text ok_text t (traffic w)
KeepsAccount wire attach_text ok_text t (exited (exit_failure m) w) =
    IsAccounted wire attach_text ok_text t (traffic w)
KeepsAccount wire attach_text ok_text t (waiting w) =
    IsAccounted wire attach_text ok_text t (traffic w)
KeepsAccount wire attach_text ok_text t spent = ⊥

fresh-IsCaughtUp : (wire : List ℕ → List ℕ) (t : Traffic) → IsCaughtUp wire t fresh_port t
fresh-IsCaughtUp wire t = record {
  room = record { sized = refl; below = omega arith };
  served = record {
    served = [];
    progress = record {
      texts = [];
      taken = [];
      fits = unfold AllFit in tt;
      passes = tt;
      incoming = refl;
      written = unfold encode in sym (append-nil t.written);
      commands = sym (append-nil t.commands);
      input = unfold encode in refl;
    };
    sized = refl;
    part = inl (omega arith);
  };
}

module _ (api : CtrlApi) {wire : List ℕ → List ℕ} {attach_text ok_text : List ℕ}
    (effects : CtrlEffects api wire attach_text ok_text) where
  -- For a control interface that keeps to the effects, when what Erlang sends are bytes: whenever
  -- the main loop polls, whatever the kernel, the supplicant and Erlang did before, the commands that
  -- have gone out are the attaching one and then the complete messages of what has been read, each
  -- once, as the interface sends it, and in order, and what waits in the buffer is the beginning of a message; each datagram that
  -- was taken since attaching has gone to Erlang in a frame of its own, cut to the buffers, in order,
  -- and nothing else has.
  pub Reached-IsCaughtUp :
      {w0 : World} {p : Port} {w : World}
      → AllBytes (traffic w0).input
      → Reached api w0 p w
      → (s : Traffic) × IsAttached attach_text ok_text (traffic w0) s
        × IsCaughtUp wire s p (traffic w)
  Reached-IsCaughtUp {w0} all (started {u = u} e) = (
    traffic u,
    subst
        (Leaves (AttachEnds attach_text ok_text (traffic w0))
          (IsUntouched attach_text (traffic w0)))
        e (effects.attach_effects w0),
    fresh-IsCaughtUp wire (traffic u),
  )
  Reached-IsCaughtUp all (polling {p = p} {w = w} a later before e) =
      let (s, att, c) = Reached-IsCaughtUp all before in
      (
        s,
        att,
        subst (Finishes (IsComplete wire s) (IsCaughtUp wire s) (IsStopped wire s)) e (
            poll_round-IsCaughtUp api effects s (subst AllBytes (sym att.input) all) a p
              (record w { polls = later }) c),
      )

  module _ (t : Traffic) (all : AllBytes t.input) where
    main_loop-Finishes :
        (polls : List PollAnswer) (p : Port) (w : World)
        → IsCaughtUp wire t p (traffic w)
        → Finishes (IsComplete wire t) (λ x u. ⊥) (IsStopped wire t) (main_loop api polls p w)
    unfolding main_loop
    main_loop-Finishes [] p w c =
        Progress-IsStopped wire t c.served.served _ (traffic w) c.served.progress
    main_loop-Finishes (a ∷ polls) p w c =
        Finishes->>= (IsComplete wire t) (IsCaughtUp wire t) (λ x u. ⊥) (IsStopped wire t)
          (poll_round api a p) _ (record w { polls = polls })
          (poll_round-IsCaughtUp api effects t all a p (record w { polls = polls }) c)
          (λ q u h. main_loop-Finishes polls q u h)

  -- How a run ends that starts with `t`.
  abbrev Accounts : Traffic → Outcome (Unit {0}) → Type 0
  Accounts t =
      Finishes (IsCompleteRun wire attach_text ok_text t) (λ x u. ⊥)
        (IsAccounted wire attach_text ok_text t)

  begun :
      (t : Traffic) (r : Option Failure) (u : World)
      → AllBytes t.input
      → AttachEnds attach_text ok_text t r (traffic u)
      → Accounts t (
          (elim r as (λ x. K (Unit {0})) [
            | some e ↦ exit_with (exit_failure "wpa_ctrl_attach")
            | none ↦ λ v. main_loop api v.polls fresh_port v
          ])
            u)
  begun t (some e) u all h = unattached h
  begun t none u all h =
      Finishes-weaken (IsComplete wire (traffic u)) (IsCompleteRun wire attach_text ok_text t)
        (λ x v. ⊥) (λ x v. ⊥) (IsStopped wire (traffic u)) (IsAccounted wire attach_text ok_text t)
        (main_loop api u.polls fresh_port u)
        (main_loop-Finishes (traffic u) (subst AllBytes (sym h.input) all) u.polls fresh_port u
          (fresh-IsCaughtUp wire (traffic u)))
        (λ v k. (traffic u, h, k)) (λ x v k. k) (λ v k. attached (traffic u) h k)

  main-Accounts :
      {Ctrl : Type 0} (argc : ℕ) (ctrl : Option Ctrl) (w : World)
      → AllBytes (traffic w).input
      → Accounts (traffic w) (main api argc ctrl w)
  unfolding main main_attached
  main-Accounts argc ctrl w all = elim (Bool-cases (argc == 2)) [
    | inr usage ↦ rw usage idle
    | inl given ↦ rw given (opened ctrl)
  ]
    where
      idle : IsAccounted wire attach_text ok_text (traffic w) (traffic w)
      idle = unattached (record { commands = inl refl; written = refl; input = refl })

      opened :
          {C : Type 0} (c : Option C)
          → Accounts (traffic w) (
              (elim c as (λ x. K (Unit {0})) [
                | none ↦ exit_with (exit_failure "Couldn't open")
                | some d ↦ main_attached api
              ])
                w)
      opened none = idle
      opened (some d) =
          Finishes->>= (IsCompleteRun wire attach_text ok_text (traffic w))
            (AttachEnds attach_text ok_text (traffic w)) (λ x u. ⊥)
            (IsAccounted wire attach_text ok_text (traffic w)) api.attach _ w
            (Finishes-weaken (λ t. ⊥) (IsCompleteRun wire attach_text ok_text (traffic w))
              (AttachEnds attach_text ok_text (traffic w))
              (AttachEnds attach_text ok_text (traffic w)) (IsUntouched attach_text (traffic w))
              (IsAccounted wire attach_text ok_text (traffic w)) (api.attach w)
              (effects.attach_effects w) (λ u h. absurd h) (λ r u h. h) (λ u h. unattached h))
            (λ r u h. begun (traffic w) r u all h)

  -- Together with the end of every loop.
  pub main-KeepsAccount :
      {Ctrl : Type 0} (laws : CtrlLaws api) (argc : ℕ) (ctrl : Option Ctrl) (w : World)
      → AllBytes (traffic w).input
      → KeepsAccount wire attach_text ok_text (traffic w) (main api argc ctrl w)
  main-KeepsAccount laws argc ctrl w all =
      both (main api argc ctrl w) (main-never-returns api laws argc ctrl w)
        (main-Accounts argc ctrl w all)
    where
      both :
          (o : Outcome (Unit {0}))
          → Post (λ x u. ⊥) o
          → Accounts (traffic w) o
          → KeepsAccount wire attach_text ok_text (traffic w) o
      both (returned x u) ends h = h
      both (exited exit_success u) ends h = h
      both (exited (exit_failure m) u) ends h = h
      both (waiting u) ends h = h
      both spent ends h = ends
