-- ===== src/Pipe/Opening.antt =====
-- When opening a named pipe works (src/wpa_ctrl/wpa_ctrl.c).
use wpa_supplicant_ex.Shared.{
  ℕ, zero, suc, ◌+◌, ◌<◌, ◌≡◌, ◌↔◌, refl, sym, ap, ◌∙◌, Bool, true, false, List, [], ◌∷◌, Option,
  leb, if◌then◌else◌, length, arith,
}
use wpa_supplicant_ex.Pipe.{
  PipeEffect, allocate, release, CreateAnswer, valid, busy, refused, PipeSystem, pipe_name,
  after_create, create_loop, create_tries, set_read_mode, open_pipe,
}

-- The tries from `i` on, of which there are `left`, come to a handle.
pub record Succeeds (create : ℕ → CreateAnswer) (i left : ℕ) : Type 0 where
  pub round : ℕ
  pub below : round < left
  pub gives : create (i + round) ≡ valid
  pub before : (j : ℕ) → j < round → create (i + j) ≡ busy

create_loop-opens :
    (create : ℕ → CreateAnswer) (name : List ℕ) (left i : ℕ)
    → ((create_loop create name i left).0 ≡ true) ↔ Succeeds create i left
unfolding create_loop
create_loop-opens create name zero i = (λ h. cc, λ s. absurd (omega (arith, s.below)))
create_loop-opens create name (suc left) i =
    go (create i) refl (create_loop-opens create name left (i + 1))
  where
    shifted : (k : ℕ) → i + 1 + k ≡ i + suc k
    shifted k = omega arith

    here : i + 0 ≡ i
    here = omega arith

    go :
        (a : CreateAnswer)
        → create i ≡ a
        → ((create_loop create name (i + 1) left).0 ≡ true) ↔ Succeeds create (i + 1) left
        → ((after_create name (create_loop create name (i + 1) left) a).0 ≡ true)
          ↔ Succeeds create i (suc left)
    go valid e ih = (
      λ h. record {
        round = 0;
        below = omega arith;
        gives = ap create here ∙ e;
        before = λ j lt. absurd (omega arith);
      },
      λ s. refl,
    )
    go refused e ih = (λ h. cc, λ s. never s.round s.gives s.before)
      where
        never :
            (k : ℕ)
            → create (i + k) ≡ valid
            → ((j : ℕ) → j < k → create (i + j) ≡ busy)
            → false ≡ true
        never zero v before = absurd (let e' = ap create here in cc)
        never (suc k) v before =
            absurd (let e' = ap create here in let b = before 0 (omega arith) in cc)
    go busy e ih = (λ h. onward (ih.0 h), λ s. back s.round s.below s.gives s.before)
      where
        onward : Succeeds create (i + 1) left → Succeeds create i (suc left)
        onward s = record {
          round = suc s.round;
          below = omega (arith, s.below);
          gives = ap create (sym (shifted s.round)) ∙ s.gives;
          before = earlier;
        }
          where
            earlier : (j : ℕ) → j < suc s.round → create (i + j) ≡ busy
            earlier zero lt = ap create here ∙ e
            earlier (suc j) lt = ap create (sym (shifted j)) ∙ s.before j (omega arith)

        back :
            (k : ℕ)
            → k < suc left
            → create (i + k) ≡ valid
            → ((j : ℕ) → j < k → create (i + j) ≡ busy)
            → (create_loop create name (i + 1) left).0 ≡ true
        back zero lt v before = absurd (let e' = ap create here in cc)
        back (suc k) lt v before = ih.1 (record {
          round = k;
          below = omega arith;
          gives = ap create (shifted k) ∙ v;
          before = λ j lt. ap create (shifted j) ∙ before (suc j) (omega arith);
        })

-- What `wpa_ctrl_open` makes of the answers.
abbrev pub ended : Bool → Bool → Bool → Bool × List PipeEffect → Bool × List PipeEffect
unfolding set_read_mode
ended given long set r =
    if given
    then (if long
        then (false, allocate ∷ release ∷ [])
        else (let opened = set_read_mode set r in (opened.0, allocate ∷ opened.1)))
    else (false, [])

-- The connection is given exactly when there is memory, the name with its NUL fits 256 characters, the read mode can be
-- set, and one of the first ten tries of `CreateFile` gives a handle, where every try before it finds
-- the pipe busy.
pub open_pipe-opens :
    (sys : PipeSystem) (ctrl_path : Option (List ℕ))
    → ((open_pipe sys ctrl_path).0 ≡ true) ↔ (
        (sys.malloc ≡ true)
        × (length (pipe_name ctrl_path) < 256)
        × (sys.set_state ≡ true)
        × Succeeds sys.create 0 create_tries)
unfolding open_pipe set_read_mode
open_pipe-opens sys ctrl_path =
    go sys.malloc (leb 256 (length (pipe_name ctrl_path))) sys.set_state
      (create_loop sys.create (pipe_name ctrl_path) 0 create_tries)
      (λ h. ground arith, λ h. ground arith)
      (create_loop-opens sys.create (pipe_name ctrl_path) create_tries 0)
  where
    S : Type 0
    S = Succeeds sys.create 0 create_tries

    Fits : Type 0
    Fits = length (pipe_name ctrl_path) < 256

    go :
        (given long set : Bool) (r : Bool × List PipeEffect)
        → (long ≡ false) ↔ Fits
        → (r.0 ≡ true) ↔ S
        → ((ended given long set r).0 ≡ true) ↔ ((given ≡ true) × Fits × (set ≡ true) × S)
    go false long set r f s = (λ h. cc, λ h. cc)
    go true true set r f s = (λ h. cc, λ h. absurd (let e = f.1 h.1 in cc))
    go true false set (false, log) f s = (λ h. cc, λ h. absurd (let e = s.1 h.3 in cc))
    go true false false (true, log) f s = (λ h. cc, λ h. absurd (let e = h.2 in cc))
    go true false true (true, log) f s = (λ h. (refl, f.0 refl, refl, s.0 refl), λ h. refl)
