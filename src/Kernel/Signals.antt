-- ===== src/Kernel/Signals.antt =====
-- Signals that interrupt `writev` or `poll`: a world without them, and runs that are the same there.
use wpa_supplicant_ex.Shared.{ℕ, zero, suc, ◌≡◌, refl, ◌∙◌, List, [], ◌∷◌, if◌then◌else◌}
use wpa_supplicant_ex.Kernel.{
  World, K, Outcome, returned, exited, waiting, spent, ◌>>=◌, bind-at, is_eintr, ReadAnswer, bytes,
  read_failed, WriteAnswer, wrote, write_failed, SelectAnswer, RecvAnswer, datagram, recv_failed,
  PollAnswer, polled, poll_failed,
}
use wpa_supplicant_ex.Time.{Timestamp}
use wpa_supplicant_ex.Kernel.Closed.{IsClosed}
use wpa_supplicant_ex.Kernel.Calls.{
  read, next_read, recv, next_recv, select, next_select, get_reltime, next_clock, sleep,
}

abbrev pub calm_writes : List WriteAnswer → List WriteAnswer
calm_writes [] = []
calm_writes (wrote n ∷ later) = wrote n ∷ calm_writes later
calm_writes (write_failed e ∷ later) =
    let rest = calm_writes later in if is_eintr e then rest else (write_failed e ∷ rest)

abbrev pub calm_polls : List PollAnswer → List PollAnswer
calm_polls [] = []
calm_polls (polled erl wpa ∷ later) = polled erl wpa ∷ calm_polls later
calm_polls (poll_failed e ∷ later) =
    let rest = calm_polls later in if is_eintr e then rest else (poll_failed e ∷ rest)

-- The world in which no signal interrupts a `writev` or a `poll`.
abbrev pub calm : World → World
calm w = record w { writes = calm_writes w.writes; polls = calm_polls w.polls }

abbrev pub calm_end {ℓ} : {A : Type ℓ} → Outcome A → Outcome A
calm_end (returned a w) = returned a (calm w)
calm_end (exited e w) = exited e (calm w)
calm_end (waiting w) = waiting (calm w)
calm_end spent = spent

-- A run that is the same without the signals.
abbrev pub IsCalm {ℓ} : {A : Type ℓ} → K A → Type ℓ
IsCalm m = (w : World) → m (calm w) ≡ calm_end (m w)

-- A part of a chain that is, and then the rest, which may have fewer signals to come.
pub calm->>= {ℓ κ} :
    {A : Type ℓ} {B : Type κ} (m : K A) (k k' : A → K B) (w : World)
    → m (calm w) ≡ calm_end (m w)
    → ((a : A) (u : World) → k a (calm u) ≡ calm_end (k' a u))
    → (m >>= k) (calm w) ≡ calm_end ((m >>= k') w)
calm->>= {A} {B} m k k' w e go = bind-at m k (calm w) e ∙ over (m w)
  where
    over :
        (o : Outcome A)
        → ((λ (v : World). calm_end o) >>= k) (calm w) ≡ calm_end (((λ (v : World). o) >>= k') w)
    over (returned a u) = go a u
    over (exited x u) = refl
    over (waiting u) = refl
    over spent = refl

pub IsCalm->>= {ℓ κ} :
    {A : Type ℓ} {B : Type κ} (m : K A) (k : A → K B)
    → IsCalm m
    → ((a : A) → IsCalm (k a))
    → IsCalm (m >>= k)
IsCalm->>= m k c go = λ w. calm->>= m k k w (c w) (λ a u. go a u)

-- The other system calls do not see the answers of `writev` and `poll`.
next_read-calm :
    (n : ℕ) (rs : List ReadAnswer) (w : World)
    → next_read n rs (calm w) ≡ calm_end (next_read n rs w)
unfolding next_read
next_read-calm zero rs w = refl
next_read-calm (suc n) [] w = refl
next_read-calm (suc n) (bytes xs ∷ rs) w = refl
next_read-calm (suc n) (read_failed e ∷ rs) w = refl

read-IsCalm : (n : ℕ) → IsCalm (read n)
unfolding read
read-IsCalm n = λ w. next_read-calm n w.reads w

next_recv-calm :
    (n : ℕ) (rs : List RecvAnswer) (w : World)
    → next_recv n rs (calm w) ≡ calm_end (next_recv n rs w)
unfolding next_recv
next_recv-calm n [] w = refl
next_recv-calm n (datagram d ∷ rs) w = refl
next_recv-calm n (recv_failed e ∷ rs) w = refl

recv-IsCalm : (n : ℕ) → IsCalm (recv n)
unfolding recv
recv-IsCalm n = λ w. next_recv-calm n w.recvs w

next_select-calm :
    (s : List SelectAnswer) (w : World) → next_select s (calm w) ≡ calm_end (next_select s w)
unfolding next_select
next_select-calm [] w = refl
next_select-calm (a ∷ s) w = refl

select-IsCalm : IsCalm select
unfolding select
select-IsCalm = λ w. next_select-calm w.selects w

next_clock-calm :
    (ts : List Timestamp) (w : World) → next_clock ts (calm w) ≡ calm_end (next_clock ts w)
unfolding next_clock
next_clock-calm [] w = refl
next_clock-calm (t ∷ ts) w = refl

get_reltime-IsCalm : IsCalm get_reltime
unfolding get_reltime
get_reltime-IsCalm = λ w. next_clock-calm w.clocks w

pub IsCalm-closed : IsClosed (λ A m. IsCalm m)
IsCalm-closed = record {
  returns = λ A a w. refl;
  exits = λ A e w. refl;
  spends = λ A w. refl;
  binds = λ A B m k c go. IsCalm->>= m k c go;
  reads = read-IsCalm;
  by_selects = λ A m c w. c w.selects w;
  receives = recv-IsCalm;
  selects = select-IsCalm;
  clocks = get_reltime-IsCalm;
  sleeps = λ n. unfold sleep in λ w. refl;
  by_sends = λ A m c w. c w.sends w;
  put_sends = λ A s m c w. c (record w { sends = s });
  put_selects = λ A s m c w. c (record w { selects = s });
  sends_command = λ cmd s w. refl;
  waits_send = λ A w. refl;
  waits_select = λ A w. refl;
}
