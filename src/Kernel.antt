-- ===== src/Kernel.antt =====
-- What the C files ask of the operating system. The kernel's answers to each kind of call are a
-- list, read from its head; the program's effects on the outside are logged. A run that finds no
-- answer left is `waiting` in that call, so a statement over all worlds is one over all behaviours
-- of the kernel, and over every prefix of a run.
pub mod Calls
pub mod Post
pub mod Within
pub mod Traffic
pub mod Closed
pub mod Signals
pub mod Asking
use wpa_supplicant_ex.Shared.{
  ℕ, zero, suc, ◌+◌, ◌≡◌, refl, ap, Bool, true, false, List, [], ◌∷◌, ◌++◌, Option, none, some,
  ◌==◌, if◌then◌else◌, take, drop,
}
use wpa_supplicant_ex.Time.{Timestamp}
use Prim.Native.String.{String}

-- The values of `errno` that the code tells apart.
pub data Errno : Type 0 where
  eintr eagain ebusy ewouldblock eaddrinuse other : Errno

unfoldable pub is_eintr : Errno → Bool
is_eintr eintr = true
is_eintr _ = false

-- `errno == EAGAIN || errno == EBUSY || errno == EWOULDBLOCK`
unfoldable pub is_again : Errno → Bool
is_again eagain = true
is_again ebusy = true
is_again ewouldblock = true
is_again _ = false

-- read(STDIN_FILENO): bytes that have arrived (none at the end of the file), or a failure.
pub data ReadAnswer : Type 0 where
  bytes : List ℕ → ReadAnswer
  read_failed : Errno → ReadAnswer

-- writev(STDOUT_FILENO): the number of bytes written, or a failure.
pub data WriteAnswer : Type 0 where
  wrote : ℕ → WriteAnswer
  write_failed : Errno → WriteAnswer

pub data SendAnswer : Type 0 where
  sent : SendAnswer
  send_failed : Errno → SendAnswer

-- select() on the control socket: an error, a descriptor that is ready, or the timeout.
pub data SelectAnswer : Type 0 where
  select_failed ready idle : SelectAnswer

-- recv() on the control socket: the next datagram, or a failure.
pub data RecvAnswer : Type 0 where
  datagram : List ℕ → RecvAnswer
  recv_failed : Errno → RecvAnswer

-- One `revents`.
pub record Revents : Type 0 where
  pub pollin : Bool
  pub pollhup : Bool

pub data PollAnswer : Type 0 where
  polled : Revents → Revents → PollAnswer
  poll_failed : Errno → PollAnswer

pub record World : Type 0 where
  pub reads : List ReadAnswer
  pub writes : List WriteAnswer
  pub sends : List SendAnswer
  pub selects : List SelectAnswer
  pub recvs : List RecvAnswer
  pub clocks : List Timestamp
  pub polls : List PollAnswer
  -- the bytes that have gone to standard output
  pub stdout : List ℕ
  -- the datagrams that have gone to the control socket
  pub commands : List (List ℕ)
  -- the seconds slept
  pub slept : ℕ

-- exit(EXIT_SUCCESS), and err() or errx() with its text.
pub data Exit : Type 0 where
  exit_success : Exit
  exit_failure : String → Exit

-- `spent` is a loop's fuel that ran out; no run of the program gets there.
pub data Outcome {ℓ} (A : Type ℓ) : Type ℓ where
  returned : A → World → Outcome A
  exited : Exit → World → Outcome A
  waiting : World → Outcome A
  spent : Outcome A

abbrev pub K {ℓ} : Type ℓ → Type ℓ
K A = World → Outcome A

infixl 5 ◌>>=◌ ◌>>◌
abbrev pub ◌>>=◌ {ℓ κ} : {A : Type ℓ} {B : Type κ} → K A → (A → K B) → K B
◌>>=◌ m k w = elim (m w) [
  | returned a w' ↦ k a w'
  | exited e w' ↦ exited e w'
  | waiting w' ↦ waiting w'
  | spent ↦ spent
]

abbrev pub ◌>>◌ {ℓ} : {B : Type ℓ} → K (Unit {0}) → K B → K B
m >> k = m >>= λ _. k

abbrev pub return {ℓ} : {A : Type ℓ} → A → K A
return a w = returned a w

abbrev pub exit_with {ℓ} : {A : Type ℓ} → Exit → K A
exit_with e w = exited e w

-- To rewrite the first part of a chain at the world where it starts.
pub bind-at {ℓ κ} :
    {A : Type ℓ} {B : Type κ} (m : K A) (k : A → K B) (w : World) {o : Outcome A}
    → m w ≡ o
    → (m >>= k) w ≡ ((λ (v : World). o) >>= k) w
bind-at m k w e = ap (λ o. ((λ (v : World). o) >>= k) w) e

pub bind-return {ℓ κ} :
    {A B : Type ℓ} {C : Type κ} (m : K A) (b : B) (k : B → K C) (w : World)
    → ((m >>= λ _. return b) >>= k) w ≡ (m >>= λ _. k b) w
bind-return {A} {B} {C} m b k w = over (m w)
  where
    over :
        (o : Outcome A)
        → (((λ (v : World). o) >>= λ _. return b) >>= k) w ≡ ((λ (v : World). o) >>= λ _. k b) w
    over (returned a v) = refl
    over (exited e v) = refl
    over (waiting v) = refl
    over spent = refl

-- Inversion of a chain that returns.
pub bind-returned {ℓ κ} :
    {A : Type ℓ} {B : Type κ} (m : K A) (k : A → K B) (w : World) {b : B} {w'' : World}
    → (m >>= k) w ≡ returned b w''
    → (a : A) × (w' : World) × (m w ≡ returned a w') × (k a w' ≡ returned b w'')
bind-returned {A} {B} m k w {b} {w''} = over (m w)
  where
    over :
        (o : Outcome A)
        → ((λ (v : World). o) >>= k) w ≡ returned b w''
        → (a : A) × (w' : World) × (o ≡ returned a w') × (k a w' ≡ returned b w'')
    over (returned a w') h = (a, w', refl, h)
    over (exited e w') h = cc
    over (waiting w') h = cc
    over spent h = cc

pub returned-value :
    {A : Type 0} {a b : A} {w w' : World}
    → ◌≡◌ {A = Outcome A} (returned a w) (returned b w')
    → a ≡ b
returned-value h = cc
