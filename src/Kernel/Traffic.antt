-- ===== src/Kernel/Traffic.antt =====
-- What has passed between the program and the outside, read off a world: the answers of the kernel only
-- as far as they carry bytes or datagrams. And postconditions over it that hold however a run is left.
use wpa_supplicant_ex.Shared.{
  ℕ, zero, suc, ◌≤◌, ◌≡◌, arith, length, length-take, refl, sym, ap, ◌∙◌, subst, List, [], ◌∷◌,
  ◌++◌, append_assoc, take, drop, take-append-drop,
}
use wpa_supplicant_ex.Kernel.{
  World, K, Outcome, returned, exited, waiting, spent, exit_success, exit_failure, ◌>>=◌,
  ReadAnswer, bytes, read_failed, RecvAnswer, datagram, recv_failed,
}
use wpa_supplicant_ex.Kernel.Calls.{read, next_read, recv, next_recv, unread}

-- The bytes that are still to be read, and the datagrams that are still to be received.
abbrev pub stream : List ReadAnswer → List ℕ
stream [] = []
stream (bytes xs ∷ later) = xs ++ stream later
stream (read_failed e ∷ later) = stream later

abbrev pub datagrams : List RecvAnswer → List (List ℕ)
datagrams [] = []
datagrams (datagram d ∷ later) = d ∷ datagrams later
datagrams (recv_failed e ∷ later) = datagrams later

pub record Traffic : Type 0 where
  -- written to standard output, and still to come on standard input
  pub written : List ℕ
  pub input : List ℕ
  -- sent to the control socket, and still to come from there
  pub commands : List (List ℕ)
  pub incoming : List (List ℕ)

abbrev pub traffic : World → Traffic
traffic w = record {
  written = w.stdout;
  input = stream w.reads;
  commands = w.commands;
  incoming = datagrams w.recvs;
}

-- `Q` of a run that returns, `S` of one that exits with success, and `E` of one that fails or waits.
abbrev pub Finishes {ℓ} :
    {A : Type ℓ}
    → (Traffic → Type 0)
    → (A → Traffic → Type 0)
    → (Traffic → Type 0)
    → Outcome A
    → Type 0
Finishes S Q E (returned a w) = Q a (traffic w)
Finishes S Q E (exited exit_success w) = S (traffic w)
Finishes S Q E (exited (exit_failure m) w) = E (traffic w)
Finishes S Q E (waiting w) = E (traffic w)
Finishes S Q E spent = Unit

-- The same of a part that never exits with success.
abbrev pub Leaves {ℓ} :
    {A : Type ℓ} → (A → Traffic → Type 0) → (Traffic → Type 0) → Outcome A → Type 0
Leaves Q E o = Finishes (λ t. ⊥) Q E o

-- A part of a chain, and then the rest.
pub Finishes->>= {ℓ κ} :
    {A : Type ℓ} {B : Type κ} (S : Traffic → Type 0) (Q : A → Traffic → Type 0)
    (R : B → Traffic → Type 0) (E : Traffic → Type 0) (m : K A) (k : A → K B) (w : World)
    → Finishes S Q E (m w)
    → ((a : A) (u : World) → Q a (traffic u) → Finishes S R E (k a u))
    → Finishes S R E ((m >>= k) w)
Finishes->>= {A} {B} S Q R E m k w h go = over (m w) h
  where
    over : (o : Outcome A) → Finishes S Q E o → Finishes S R E (((λ (v : World). o) >>= k) w)
    over (returned a u) h = go a u h
    over (exited exit_success u) h = h
    over (exited (exit_failure x) u) h = h
    over (waiting u) h = h
    over spent h = tt

pub Leaves->>= {ℓ κ} :
    {A : Type ℓ} {B : Type κ} (Q : A → Traffic → Type 0) (R : B → Traffic → Type 0)
    (E : Traffic → Type 0) (m : K A) (k : A → K B) (w : World)
    → Leaves Q E (m w)
    → ((a : A) (u : World) → Q a (traffic u) → Leaves R E (k a u))
    → Leaves R E ((m >>= k) w)
Leaves->>= Q R E m k w h go = Finishes->>= (λ t. ⊥) Q R E m k w h go

-- Weaker postconditions.
pub Finishes-weaken {ℓ} :
    {A : Type ℓ} (S T : Traffic → Type 0) (Q R : A → Traffic → Type 0) (E F : Traffic → Type 0)
    (o : Outcome A)
    → Finishes S Q E o
    → ((t : Traffic) → S t → T t)
    → ((a : A) (t : Traffic) → Q a t → R a t)
    → ((t : Traffic) → E t → F t)
    → Finishes T R F o
Finishes-weaken S T Q R E F (returned a w) h i f g = f a (traffic w) h
Finishes-weaken S T Q R E F (exited exit_success w) h i f g = i (traffic w) h
Finishes-weaken S T Q R E F (exited (exit_failure m) w) h i f g = g (traffic w) h
Finishes-weaken S T Q R E F (waiting w) h i f g = g (traffic w) h
Finishes-weaken S T Q R E F spent h i f g = tt

pub Leaves-weaken {ℓ} :
    {A : Type ℓ} (Q R : A → Traffic → Type 0) (E F : Traffic → Type 0) (o : Outcome A)
    → Leaves Q E o
    → ((a : A) (t : Traffic) → Q a t → R a t)
    → ((t : Traffic) → E t → F t)
    → Leaves R F o
Leaves-weaken Q R E F o h f g = Finishes-weaken (λ t. ⊥) (λ t. ⊥) Q R E F o h (λ t x. x) f g

pub Leaves-Finishes {ℓ} :
    {A : Type ℓ} (S : Traffic → Type 0) (Q : A → Traffic → Type 0) (E : Traffic → Type 0)
    (o : Outcome A)
    → Leaves Q E o
    → Finishes S Q E o
Leaves-Finishes S Q E o h =
    Finishes-weaken (λ t. ⊥) S Q Q E E o h (λ t x. absurd x) (λ a t x. x) (λ t x. x)

-- What is true before a `read` of `n` bytes is true behind it with the bytes back in the stream.
abbrev pub HasRead : (Traffic → Type 0) → ℕ → ReadAnswer → Traffic → Type 0
HasRead I n (bytes xs) t = (length xs ≤ n) × I (record t { input = xs ++ t.input })
HasRead I n (read_failed e) t = I t

-- And before `recv` with the datagram, of which `n` bytes were seen, back at the socket.
abbrev pub HasReceived : (Traffic → Type 0) → ℕ → RecvAnswer → Traffic → Type 0
HasReceived I n (datagram xs) t =
    (d : List ℕ) × (xs ≡ take n d) × I (record t { incoming = d ∷ t.incoming })
HasReceived I n (recv_failed e) t = I t

stream-unread :
    (xs : List ℕ) (later : List ReadAnswer) → stream (unread xs later) ≡ xs ++ stream later
stream-unread [] later = refl
stream-unread (x ∷ xs) later = refl

module _ (I E : Traffic → Type 0) (stops : (t : Traffic) → I t → E t) where
  next_read-HasRead :
      (n : ℕ) (rs : List ReadAnswer) (w : World)
      → w.reads ≡ rs
      → I (traffic w)
      → Leaves (HasRead I n) E (next_read n rs w)
  unfolding next_read
  next_read-HasRead zero rs w e h = (omega arith, h)
  next_read-HasRead (suc n) [] w e h = stops _ h
  next_read-HasRead (suc n) (read_failed x ∷ rs) w e h =
      subst (λ s. I (record (traffic w) { input = s })) (ap stream e) h
  next_read-HasRead (suc n) (bytes xs ∷ rs) w e h = (
    omega (arith, length-take (suc n) xs),
    subst (λ s. I (record (traffic w) { input = s })) (ap stream e ∙ split) h,
  )
    where
      split : xs ++ stream rs ≡ take (suc n) xs ++ stream (unread (drop (suc n) xs) rs)
      split =
          ap (λ s. s ++ stream rs) (sym (take-append-drop (suc n) xs))
          ∙ append_assoc (take (suc n) xs) (drop (suc n) xs) (stream rs)
          ∙ ap (λ s. take (suc n) xs ++ s) (sym (stream-unread (drop (suc n) xs) rs))

  pub read-HasRead : (n : ℕ) (w : World) → I (traffic w) → Leaves (HasRead I n) E (read n w)
  unfolding read
  read-HasRead n w h = next_read-HasRead n w.reads w refl h

  next_recv-HasReceived :
      (n : ℕ) (rs : List RecvAnswer) (w : World)
      → w.recvs ≡ rs
      → I (traffic w)
      → Leaves (HasReceived I n) E (next_recv n rs w)
  unfolding next_recv
  next_recv-HasReceived n [] w e h = stops _ h
  next_recv-HasReceived n (recv_failed x ∷ rs) w e h =
      subst (λ s. I (record (traffic w) { incoming = s })) (ap datagrams e) h
  next_recv-HasReceived n (datagram d ∷ rs) w e h =
      (d, refl, subst (λ s. I (record (traffic w) { incoming = s })) (ap datagrams e) h)

  pub recv-HasReceived : (n : ℕ) (w : World) → I (traffic w) → Leaves (HasReceived I n) E (recv n w)
  unfolding recv
  recv-HasReceived n w h = next_recv-HasReceived n w.recvs w refl h
