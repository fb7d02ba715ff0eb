-- ===== src/Kernel/Calls.antt =====
-- The system calls, each reading the kernel's next answer.
use wpa_supplicant_ex.Shared.{
  ℕ, zero, suc, ◌+◌, ◌<◌, ◌≡◌, ap, List, [], ◌∷◌, take, drop, length, length-take, arith, ◌≤◌,
}
use wpa_supplicant_ex.Kernel.{
  World, K, returned, waiting, ReadAnswer, bytes, read_failed, SelectAnswer, RecvAnswer, datagram,
  recv_failed, Errno,
}
use wpa_supplicant_ex.Time.{Timestamp}

-- What a short read leaves in the pipe stays at the head of the stream.
abbrev pub unread : List ℕ → List ReadAnswer → List ReadAnswer
unread [] later = later
unread (x ∷ xs) later = bytes (x ∷ xs) ∷ later

-- read(2) of at most `n` bytes; `bytes []` is the return value 0, which a read of no bytes gives
-- whatever the pipe holds.
unfoldable pub next_read : ℕ → List ReadAnswer → K ReadAnswer
next_read zero later w = returned (bytes []) w
next_read (suc n) [] w = waiting w
next_read (suc n) (bytes xs ∷ later) w =
    returned (bytes (take (suc n) xs)) (record w { reads = unread (drop (suc n) xs) later })
next_read (suc n) (read_failed e ∷ later) w = returned (read_failed e) (record w { reads = later })

unfoldable pub read : ℕ → K ReadAnswer
unfolding next_read
read n w = next_read n w.reads w

unfoldable pub next_select : List SelectAnswer → K SelectAnswer
next_select [] w = waiting w
next_select (a ∷ later) w = returned a (record w { selects = later })

unfoldable pub select : K SelectAnswer
unfolding next_select
select w = next_select w.selects w

unfoldable pub next_recv : ℕ → List RecvAnswer → K RecvAnswer
next_recv n [] w = waiting w
next_recv n (datagram xs ∷ later) w = returned (datagram (take n xs)) (record w { recvs = later })
next_recv n (recv_failed e ∷ later) w = returned (recv_failed e) (record w { recvs = later })

-- recv(2) on a datagram socket: what does not fit `n` bytes is lost.
unfoldable pub recv : ℕ → K RecvAnswer
unfolding next_recv
recv n w = next_recv n w.recvs w

unfoldable pub next_clock : List Timestamp → K Timestamp
next_clock [] w = waiting w
next_clock (t ∷ ts) w = returned t (record w { clocks = ts })

-- `os_get_reltime`, on a system where one of its clocks answers.
unfoldable pub get_reltime : K Timestamp
unfolding next_clock
get_reltime w = next_clock w.clocks w

unfoldable pub sleep : ℕ → K (Unit {0})
sleep n w = returned tt (record w { slept = w.slept + n })

-- A read of one byte at least, from a pipe that holds bytes.
pub read-bytes :
    (n x : ℕ) (xs : List ℕ) (later : List ReadAnswer) (w : World)
    → 0 < n
    → w.reads ≡ bytes (x ∷ xs) ∷ later
    → read n w
      ≡ returned (bytes (take n (x ∷ xs))) (record w { reads = unread (drop n (x ∷ xs)) later })
unfolding read
read-bytes zero x xs later w h e = elim h [ ]
read-bytes (suc n) x xs later w h e = ap (λ r. next_read (suc n) r w) e

pub recv-datagram :
    (n : ℕ) (d : List ℕ) (later : List RecvAnswer) (w : World)
    → w.recvs ≡ datagram d ∷ later
    → recv n w ≡ returned (datagram (take n d)) (record w { recvs = later })
unfolding recv
recv-datagram n d later w e = ap (λ r. next_recv n r w) e

pub get_reltime-tick :
    (t : Timestamp) (later : List Timestamp) (w : World)
    → w.clocks ≡ t ∷ later
    → get_reltime w ≡ returned t (record w { clocks = later })
unfolding get_reltime
get_reltime-tick t later w e = ap (λ ts. next_clock ts w) e

next_clock-keeps :
    (ts : List Timestamp) {t : Timestamp} (w w' : World)
    → next_clock ts w ≡ returned t w'
    → (w'.commands ≡ w.commands) × (w'.stdout ≡ w.stdout) × (w'.selects ≡ w.selects)
unfolding next_clock
next_clock-keeps [] w w' h = cc
next_clock-keeps (x ∷ ts) w w' h = ground arith

pub get_reltime-keeps :
    {t : Timestamp} (w w' : World)
    → get_reltime w ≡ returned t w'
    → (w'.commands ≡ w.commands) × (w'.stdout ≡ w.stdout) × (w'.selects ≡ w.selects)
unfolding get_reltime
get_reltime-keeps w w' h = next_clock-keeps w.clocks w w' h

next_recv-keeps :
    (n : ℕ) (rs : List RecvAnswer) {a : RecvAnswer} (w w' : World)
    → next_recv n rs w ≡ returned a w'
    → (w'.commands ≡ w.commands) × (w'.stdout ≡ w.stdout) × (w'.selects ≡ w.selects)
unfolding next_recv
next_recv-keeps n [] w w' h = cc
next_recv-keeps n (datagram d ∷ rs) w w' h = ground arith
next_recv-keeps n (recv_failed e ∷ rs) w w' h = ground arith

pub recv-keeps :
    (n : ℕ) {a : RecvAnswer} (w w' : World)
    → recv n w ≡ returned a w'
    → (w'.commands ≡ w.commands) × (w'.stdout ≡ w.stdout) × (w'.selects ≡ w.selects)
unfolding recv
recv-keeps n w w' h = next_recv-keeps n w.recvs w w' h

next_recv-short :
    (n : ℕ) (rs : List RecvAnswer) {d : List ℕ} (w w' : World)
    → next_recv n rs w ≡ returned (datagram d) w'
    → length d ≤ n
unfolding next_recv
next_recv-short n [] w w' h = cc
next_recv-short n (datagram x ∷ rs) w w' h = ground (arith, length-take n x)
next_recv-short n (recv_failed e ∷ rs) w w' h = cc

pub recv-short :
    (n : ℕ) {d : List ℕ} (w w' : World) → recv n w ≡ returned (datagram d) w' → length d ≤ n
unfolding recv
recv-short n w w' h = next_recv-short n w.recvs w w' h

pub select-answer :
    (a : SelectAnswer) (later : List SelectAnswer) (w : World)
    → w.selects ≡ a ∷ later
    → select w ≡ returned a (record w { selects = later })
unfolding select
select-answer a later w e = ap (λ s. next_select s w) e

pub recv-failed :
    (n : ℕ) (e : Errno) (later : List RecvAnswer) (w : World)
    → w.recvs ≡ recv_failed e ∷ later
    → recv n w ≡ returned (recv_failed e) (record w { recvs = later })
unfolding recv
recv-failed n e later w h = ap (λ r. next_recv n r w) h

-- The end of the stream.
pub read-end :
    (n : ℕ) (later : List ReadAnswer) (w : World)
    → 0 < n
    → w.reads ≡ bytes [] ∷ later
    → read n w ≡ returned (bytes []) (record w { reads = later })
unfolding read
read-end zero later w h e = elim h [ ]
read-end (suc n) later w h e = ap (λ r. next_read (suc n) r w) e
