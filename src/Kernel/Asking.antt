-- ===== src/Kernel/Asking.antt =====
-- Runs that wait only in a call that the kernel has not answered.
use wpa_supplicant_ex.Shared.{ℕ, zero, suc, ◌≡◌, refl, List, [], ◌∷◌}
use wpa_supplicant_ex.Kernel.{
  World, K, Outcome, returned, exited, waiting, spent, ◌>>=◌, ReadAnswer, bytes, read_failed,
  SelectAnswer, RecvAnswer, datagram, recv_failed,
}
use wpa_supplicant_ex.Time.{Timestamp}
use wpa_supplicant_ex.Kernel.Closed.{IsClosed}
use wpa_supplicant_ex.Kernel.Calls.{
  read, next_read, recv, next_recv, select, next_select, get_reltime, next_clock, sleep,
}

-- A kind of call to which there is no answer.
pub data Asks (w : World) : Type 0 where
  in_read : w.reads ≡ [] → Asks w
  in_writev : w.writes ≡ [] → Asks w
  in_send : w.sends ≡ [] → Asks w
  in_select : w.selects ≡ [] → Asks w
  in_recv : w.recvs ≡ [] → Asks w
  in_clock : w.clocks ≡ [] → Asks w
  in_poll : w.polls ≡ [] → Asks w

abbrev pub WaitsForAnswer {ℓ} : {A : Type ℓ} → Outcome A → Type 0
WaitsForAnswer (returned a w) = Unit
WaitsForAnswer (exited e w) = Unit
WaitsForAnswer (waiting w) = Asks w
WaitsForAnswer spent = Unit

abbrev pub IsAsking {ℓ} : {A : Type ℓ} → K A → Type 0
IsAsking m = (w : World) → WaitsForAnswer (m w)

-- A part of a chain, and then the rest.
pub IsAsking->>= {ℓ κ} :
    {A : Type ℓ} {B : Type κ} (m : K A) (k : A → K B)
    → IsAsking m
    → ((a : A) → IsAsking (k a))
    → IsAsking (m >>= k)
IsAsking->>= {A} {B} m k asks go = λ w. over w (m w) (asks w)
  where
    over :
        (w : World) (o : Outcome A)
        → WaitsForAnswer o
        → WaitsForAnswer (((λ (v : World). o) >>= k) w)
    over w (returned a u) h = go a u
    over w (exited e u) h = tt
    over w (waiting u) h = h
    over w spent h = tt

next_read-asks :
    (n : ℕ) (rs : List ReadAnswer) (w : World) → w.reads ≡ rs → WaitsForAnswer (next_read n rs w)
unfolding next_read
next_read-asks zero rs w e = tt
next_read-asks (suc n) [] w e = in_read e
next_read-asks (suc n) (bytes xs ∷ rs) w e = tt
next_read-asks (suc n) (read_failed x ∷ rs) w e = tt

read-IsAsking : (n : ℕ) → IsAsking (read n)
unfolding read
read-IsAsking n = λ w. next_read-asks n w.reads w refl

next_recv-asks :
    (n : ℕ) (rs : List RecvAnswer) (w : World) → w.recvs ≡ rs → WaitsForAnswer (next_recv n rs w)
unfolding next_recv
next_recv-asks n [] w e = in_recv e
next_recv-asks n (datagram d ∷ rs) w e = tt
next_recv-asks n (recv_failed x ∷ rs) w e = tt

recv-IsAsking : (n : ℕ) → IsAsking (recv n)
unfolding recv
recv-IsAsking n = λ w. next_recv-asks n w.recvs w refl

next_select-asks :
    (s : List SelectAnswer) (w : World) → w.selects ≡ s → WaitsForAnswer (next_select s w)
unfolding next_select
next_select-asks [] w e = in_select e
next_select-asks (a ∷ s) w e = tt

select-IsAsking : IsAsking select
unfolding select
select-IsAsking = λ w. next_select-asks w.selects w refl

next_clock-asks :
    (ts : List Timestamp) (w : World) → w.clocks ≡ ts → WaitsForAnswer (next_clock ts w)
unfolding next_clock
next_clock-asks [] w e = in_clock e
next_clock-asks (t ∷ ts) w e = tt

get_reltime-IsAsking : IsAsking get_reltime
unfolding get_reltime
get_reltime-IsAsking = λ w. next_clock-asks w.clocks w refl

pub IsAsking-closed : IsClosed (λ A m. IsAsking m)
IsAsking-closed = record {
  returns = λ A a w. tt;
  exits = λ A e w. tt;
  spends = λ A w. tt;
  binds = λ A B m k c go. IsAsking->>= m k c go;
  reads = read-IsAsking;
  by_selects = λ A m c w. c w.selects w;
  receives = recv-IsAsking;
  selects = select-IsAsking;
  clocks = get_reltime-IsAsking;
  sleeps = λ n. unfold sleep in λ w. tt;
  by_sends = λ A m c w. c w.sends w;
  put_sends = λ A s m c w. c (record w { sends = s });
  put_selects = λ A s m c w. c (record w { selects = s });
  sends_command = λ cmd s w. tt;
  waits_send = λ A w. in_send refl;
  waits_select = λ A w. in_select refl;
}
