-- ===== src/Examples.antt =====
-- Concrete worlds at which the theorems are applied, and the applications.
mod Buffers
mod Delivering
mod Forwarding
mod Memories
mod Pipes
mod Sessions
mod Sockets
mod Systems
mod Values
use wpa_supplicant_ex.Session.{System}
use wpa_supplicant_ex.Shared.{none, some, true, ℕ, List, [], ◌∷◌}
use wpa_supplicant_ex.Shared.Int.{pos}
use wpa_supplicant_ex.Time.{Timestamp}
use wpa_supplicant_ex.Kernel.{World, sent, ready, datagram, wrote}

-- Nothing has happened, and the kernel answers nothing.
abbrev pub quiet : World
quiet = record {
  reads = [];
  writes = [];
  sends = [];
  selects = [];
  recvs = [];
  clocks = [];
  polls = [];
  stdout = [];
  commands = [];
  slept = 0;
}

abbrev pub ok_reply : List ℕ
ok_reply = b'O' ∷ b'K' ∷ 10 ∷ []

abbrev pub event : List ℕ
event = b'<' ∷ b'3' ∷ b'>' ∷ b'E' ∷ []

abbrev pub ping : List ℕ
ping = b'P' ∷ []

-- The socket takes a command and answers it, and the pipe takes the reply.
abbrev pub answering : World
answering = record quiet {
  sends = sent ∷ [];
  selects = ready ∷ [];
  recvs = datagram ok_reply ∷ [];
  writes = wrote 5 ∷ [];
}

abbrev pub at : ℕ → ℕ → Timestamp
at s u = record { sec = pos s; usec = pos u }

-- A system where everything works, with room for paths of seven bytes.
abbrev pub working : System
working = record {
  path_size = 8;
  malloc = true;
  socket = true;
  snprintf = λ counter. some (b't' ∷ counter ∷ []);
  bind = λ tries. none;
  connect = true;
  get_flags = true;
  set_flags = true;
}

abbrev pub short_path : List ℕ
short_path = b'/' ∷ b'w' ∷ []
