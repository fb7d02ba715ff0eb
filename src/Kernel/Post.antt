-- ===== src/Kernel/Post.antt =====
-- Postconditions of a run: what holds of the value and the world when it returns. A run that exits or
-- waits meets every one; a run out of fuel meets none.
use wpa_supplicant_ex.Kernel.{World, K, Outcome, returned, exited, waiting, spent, ◌>>=◌}

abbrev pub Post {ℓ} : {A : Type ℓ} → (A → World → Type 0) → Outcome A → Type 0
Post Q (returned a w) = Q a w
Post Q (exited e w) = Unit
Post Q (waiting w) = Unit
Post Q spent = ⊥

-- No loop in the run stops for want of fuel.
abbrev pub Ends {ℓ} : {A : Type ℓ} → Outcome A → Type 0
Ends = Post (λ a w. Unit)

-- A part of a chain, and then the rest.
pub Post->>= {ℓ κ} :
    {A : Type ℓ} {B : Type κ} (Q : A → World → Type 0) (R : B → World → Type 0) (m : K A)
    (k : A → K B) (w : World)
    → Post Q (m w)
    → ((a : A) (w' : World) → Q a w' → Post R (k a w'))
    → Post R ((m >>= k) w)
Post->>= {A} {B} Q R m k w h go = over (m w) h
  where
    over : (o : Outcome A) → Post Q o → Post R (((λ (v : World). o) >>= k) w)
    over (returned a w') h = go a w' h
    over (exited e w') h = tt
    over (waiting w') h = tt
    over spent h = elim h [ ]

-- A weaker postcondition.
pub Post-weaken {ℓ} :
    {A : Type ℓ} (Q R : A → World → Type 0) (o : Outcome A)
    → Post Q o
    → ((a : A) (w : World) → Q a w → R a w)
    → Post R o
Post-weaken Q R (returned a w) h go = go a w h
Post-weaken Q R (exited e w) h go = tt
Post-weaken Q R (waiting w) h go = tt
Post-weaken Q R spent h go = elim h [ ]
