-- ===== src/Kernel/Within.antt =====
-- Every system call ends, with an answer that fits the buffer it was given.
use wpa_supplicant_ex.Shared.{
  ℕ, zero, suc, refl, ◌≤◌, ◌<◌, ◌≡◌, [], ◌∷◌, List, length, length-take, arith,
}
use wpa_supplicant_ex.Kernel.{
  World, SelectAnswer, RecvAnswer, datagram, recv_failed, ReadAnswer, bytes, read_failed,
}
use wpa_supplicant_ex.Time.{Timestamp}
use wpa_supplicant_ex.Kernel.Post.{Post, Ends}
use wpa_supplicant_ex.Kernel.Calls.{
  select, recv, get_reltime, next_clock, next_recv, next_select, next_read, read,
}

next_clock-Ends : (ts : List Timestamp) (w : World) → Ends (next_clock ts w)
unfolding next_clock
next_clock-Ends [] w = tt
next_clock-Ends (t ∷ ts) w = tt

pub get_reltime-Ends : (w : World) → Ends (get_reltime w)
unfolding get_reltime
get_reltime-Ends w = next_clock-Ends w.clocks w

-- An answer of `select` is used up.
next_select-uses :
    (s : List SelectAnswer) (w : World)
    → Post (λ a u. length u.selects < length s) (next_select s w)
unfolding next_select
next_select-uses [] w = tt
next_select-uses (a ∷ s) w = omega arith

pub select-uses : (w : World) → Post (λ a u. length u.selects < length w.selects) (select w)
unfolding select
select-uses w = next_select-uses w.selects w

-- What `recv` gives of a message fits the limit.
abbrev pub FitsIn : ℕ → RecvAnswer → Type 0
FitsIn n (datagram d) = length d ≤ n
FitsIn n (recv_failed e) = Unit

next_recv-FitsIn :
    (n : ℕ) (s : List RecvAnswer) (w : World)
    → Post (λ a u. FitsIn n a × (u.selects ≡ w.selects)) (next_recv n s w)
unfolding next_recv
next_recv-FitsIn n [] w = tt
next_recv-FitsIn n (datagram d ∷ s) w = (omega (arith, length-take n d), refl)
next_recv-FitsIn n (recv_failed e ∷ s) w = (tt, refl)

pub recv-FitsIn :
    (n : ℕ) (w : World) → Post (λ a u. FitsIn n a × (u.selects ≡ w.selects)) (recv n w)
unfolding recv
recv-FitsIn n w = next_recv-FitsIn n w.recvs w

-- What `read` gives fits the limit.
abbrev pub FitsRead : ℕ → ReadAnswer → Type 0
FitsRead n (bytes xs) = length xs ≤ n
FitsRead n (read_failed e) = Unit

next_read-FitsRead :
    (n : ℕ) (s : List ReadAnswer) (w : World) → Post (λ a u. FitsRead n a) (next_read n s w)
unfolding next_read
next_read-FitsRead zero s w = omega arith
next_read-FitsRead (suc n) [] w = tt
next_read-FitsRead (suc n) (bytes xs ∷ s) w = omega (arith, length-take (suc n) xs)
next_read-FitsRead (suc n) (read_failed e ∷ s) w = tt

pub read-FitsRead : (n : ℕ) (w : World) → Post (λ a u. FitsRead n a) (read n w)
unfolding read
read-FitsRead n w = next_read-FitsRead n w.reads w
