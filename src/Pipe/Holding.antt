-- ===== src/Pipe/Holding.antt =====
-- What opening and closing a named pipe holds (src/wpa_ctrl/wpa_ctrl.c).
use wpa_supplicant_ex.Shared.{
  ℕ, zero, suc, ◌+◌, ◌-◌, ◌≤◌, ◌≡◌, ◌⊎◌, refl, ap, ◌∙◌, Bool, true, false, List, [], ◌∷◌, ◌++◌,
  Option, leb, ◌==◌, if◌then◌else◌, length, arith, inl, inr,
}
use wpa_supplicant_ex.Pipe.{
  PipeEffect, allocate, release, set_mode, close_handle, create_file, wait_pipe, CreateAnswer,
  valid, busy, refused, PipeSystem, pipe_name, after_create, create_loop, create_tries,
  set_read_mode, open_pipe, close_pipe,
}
use wpa_supplicant_ex.Pipe.Opening.{ended}

-- What a log leaves acquired, and how often it released what it did not hold.
pub record Held : Type 0 where
  pub memory : ℕ
  pub handles : ℕ
  pub tries : ℕ
  pub faults : ℕ

abbrev pub apply : Held → PipeEffect → Held
apply h allocate = record h { memory = h.memory + 1 }
apply h release =
    if h.memory == 0 then record h { faults = h.faults + 1 } else record h { memory = h.memory - 1 }
apply h (create_file name true) = record h { handles = h.handles + 1; tries = h.tries + 1 }
apply h (create_file name false) = record h { tries = h.tries + 1 }
apply h close_handle =
    if h.handles == 0
    then record h { faults = h.faults + 1 }
    else record h { handles = h.handles - 1 }
apply h set_mode = h
apply h (wait_pipe name ms) = h

abbrev pub held_from : Held → List PipeEffect → Held
held_from h [] = h
held_from h (e ∷ log) = held_from (apply h e) log

-- So many blocks and handles are held behind so many tries.
abbrev pub holding : ℕ → ℕ → ℕ → Held
holding memory handles tries = record {
  memory = memory;
  handles = handles;
  tries = tries;
  faults = 0;
}

held_from-append :
    (h : Held) (a b : List PipeEffect) → held_from h (a ++ b) ≡ held_from (held_from h a) b
held_from-append h [] b = refl
held_from-append h (e ∷ a) b = held_from-append (apply h e) a b

create_loop-held :
    (create : ℕ → CreateAnswer) (name : List ℕ) (left i tries : ℕ)
    → (n : ℕ) × (n ≤ left)
      × (held_from (holding 1 0 tries) (create_loop create name i left).1
          ≡ holding 1 (if (create_loop create name i left).0 then 1 else 0) (tries + n))
unfolding create_loop
create_loop-held create name zero i tries = (0, omega arith, ground arith)
create_loop-held create name (suc left) i tries =
    go (create i) (create_loop-held create name left (i + 1) (tries + 1))
  where
    go :
        (a : CreateAnswer)
        → (n : ℕ) × (n ≤ left)
          × (held_from (holding 1 0 (tries + 1)) (create_loop create name (i + 1) left).1
              ≡ holding 1
                  (if (create_loop create name (i + 1) left).0 then 1 else 0)
                  (tries + 1 + n))
        → (n : ℕ) × (n ≤ suc left)
          × (held_from
                (holding 1 0 tries)
                (after_create name (create_loop create name (i + 1) left) a).1
              ≡ holding 1
                  (if (after_create name (create_loop create name (i + 1) left) a).0 then 1 else 0)
                  (tries + n))
    go valid ih = (1, omega arith, refl)
    go refused ih = (1, omega arith, refl)
    go busy (n, le, e) = (
      suc n,
      omega arith,
      e
          ∙ ap (λ t. holding 1 (if (create_loop create name (i + 1) left).0 then 1 else 0) t)
              (omega arith),
    )

-- Opening tries ten times at most. When it gives no connection it holds nothing, and when it does it
-- holds one block and one handle, which closing gives back; nothing is released twice.
pub open_pipe-held :
    (sys : PipeSystem) (ctrl_path : Option (List ℕ))
    → (n : ℕ) × (n ≤ 10)
      × (((open_pipe sys ctrl_path).0 ≡ false)
            × (held_from (holding 0 0 0) (open_pipe sys ctrl_path).1 ≡ holding 0 0 n)
          ⊎ ((open_pipe sys ctrl_path).0 ≡ true)
            × (held_from (holding 0 0 0) (open_pipe sys ctrl_path).1 ≡ holding 1 1 n)
            × (held_from (holding 0 0 0) ((open_pipe sys ctrl_path).1 ++ close_pipe)
                ≡ holding 0 0 n))
unfolding open_pipe set_read_mode
open_pipe-held sys ctrl_path =
    go sys.malloc (leb 256 (length (pipe_name ctrl_path))) sys.set_state
      (create_loop sys.create (pipe_name ctrl_path) 0 create_tries)
      (create_loop-held sys.create (pipe_name ctrl_path) create_tries 0 0)
  where
    go :
        (given long set : Bool) (r : Bool × List PipeEffect)
        → (n : ℕ) × (n ≤ 10)
          × (held_from (holding 1 0 0) r.1 ≡ holding 1 (if r.0 then 1 else 0) (0 + n))
        → (n : ℕ) × (n ≤ 10)
          × (((ended given long set r).0 ≡ false)
                × (held_from (holding 0 0 0) (ended given long set r).1 ≡ holding 0 0 n)
              ⊎ ((ended given long set r).0 ≡ true)
                × (held_from (holding 0 0 0) (ended given long set r).1 ≡ holding 1 1 n)
                × (held_from (holding 0 0 0) ((ended given long set r).1 ++ close_pipe)
                    ≡ holding 0 0 n))
    go false long set r h = (0, omega arith, inl (refl, refl))
    go true true set r h = (0, omega arith, inl (refl, refl))
    go true false set (false, log) (n, le, e) = (
      0 + n,
      omega arith,
      inl (refl, held_from-append (holding 1 0 0) log (release ∷ []) ∙ ap (λ t. apply t release) e),
    )
    go true false false (true, log) (n, le, e) = (
      0 + n,
      omega arith,
      inl (
        refl,
        held_from-append (holding 1 0 0) log (close_handle ∷ release ∷ [])
            ∙ ap (λ t. apply (apply t close_handle) release) e,
      ),
    )
    go true false true (true, log) (n, le, e) =
        let opened = held_from-append (holding 1 0 0) log (set_mode ∷ []) ∙ e in
        (
          0 + n,
          omega arith,
          inr (
            refl,
            opened,
            held_from-append (holding 1 0 0) (log ++ (set_mode ∷ [])) close_pipe
                ∙ ap (λ t. apply (apply t close_handle) release) opened,
          ),
        )
