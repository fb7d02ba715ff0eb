-- ===== src/Pipe.antt =====
-- The control interface over a named pipe (src/wpa_ctrl/wpa_ctrl.c, CONFIG_CTRL_IFACE_NAMED_PIPE).
pub mod Opening
pub mod Holding
pub mod Messages
use wpa_supplicant_ex.Shared.{
  ℕ, zero, suc, ◌+◌, Bool, true, false, not, List, [], ◌∷◌, ◌++◌, Option, none, some, leb, ◌==◌,
  if◌then◌else◌, length, overwrite,
}
use wpa_supplicant_ex.Api.{Reply, replied, failed, error}

-- What the functions do to the outside: the tries of `CreateFile` say whether they gave a handle.
pub data PipeEffect : Type 0 where
  allocate release set_mode close_handle : PipeEffect
  create_file : List ℕ → Bool → PipeEffect
  wait_pipe : List ℕ → ℕ → PipeEffect

-- `CreateFile`: a handle, ERROR_PIPE_BUSY, or another error.
pub data CreateAnswer : Type 0 where
  valid busy refused : CreateAnswer

pub record PipeSystem : Type 0 where
  pub malloc : Bool
  -- the answer to each try
  pub create : ℕ → CreateAnswer
  pub set_state : Bool

-- `\\.\pipe\WpaSupplicant`
abbrev pub named_pipe_prefix : List ℕ
named_pipe_prefix =
    b'\\' ∷ b'\\' ∷ b'.' ∷ b'\\' ∷ b'p' ∷ b'i' ∷ b'p' ∷ b'e' ∷ b'\\' ∷ b'W' ∷ b'p' ∷ b'a' ∷ b'S'
    ∷ b'u' ∷ b'p' ∷ b'p' ∷ b'l' ∷ b'i' ∷ b'c' ∷ b'a' ∷ b'n' ∷ b't' ∷ []

abbrev pub pipe_name : Option (List ℕ) → List ℕ
pipe_name none = named_pipe_prefix
pipe_name (some ctrl_path) = named_pipe_prefix ++ (b'-' ∷ ctrl_path)

-- What a try comes to, with what the later ones come to.
abbrev pub after_create : List ℕ → Bool × List PipeEffect → CreateAnswer → Bool × List PipeEffect
after_create name later valid = (true, create_file name true ∷ [])
after_create name later refused = (false, create_file name false ∷ [])
after_create name later busy = (later.0, create_file name false ∷ wait_pipe name 1000 ∷ later.1)

-- From the try `i` on, with so many tries left: whether there is a handle at the end, and the log.
pub create_loop : (ℕ → CreateAnswer) → List ℕ → ℕ → ℕ → Bool × List PipeEffect
create_loop create name i zero = (false, [])
create_loop create name i (suc left) =
    after_create name (create_loop create name (i + 1) left) (create i)

abbrev pub create_tries : ℕ
create_tries = 10

-- Behind the loop.
pub set_read_mode : Bool → Bool × List PipeEffect → Bool × List PipeEffect
set_read_mode set_state (false, log) = (false, log ++ (release ∷ []))
set_read_mode set_state (true, log) =
    if set_state
    then (true, log ++ (set_mode ∷ []))
    else (false, log ++ (close_handle ∷ release ∷ []))

-- Whether `wpa_ctrl_open` gives a connection, and the log.
pub open_pipe : PipeSystem → Option (List ℕ) → Bool × List PipeEffect
unfolding create_loop set_read_mode
open_pipe sys ctrl_path =
    if sys.malloc
    then (if leb 256 (length (pipe_name ctrl_path))
        then (false, allocate ∷ release ∷ [])
        else (let opened =
              set_read_mode sys.set_state
                (create_loop sys.create (pipe_name ctrl_path) 0 create_tries) in
            (opened.0, allocate ∷ opened.1)))
    else (false, [])

abbrev pub close_pipe : List PipeEffect
close_pipe = close_handle ∷ release ∷ []

-- The other end of an open pipe: answers of `WriteFile`, those of `ReadFile` for the size that it
-- is given, what `PeekNamedPipe` finds, where `none` and a list that has ended are failures; and
-- the messages written.
pub record PipeIo : Type 0 where
  pub writes : List Bool
  pub reads : List (ℕ → Option (List ℕ))
  pub peeks : List (Option ℕ)
  pub written : List (List ℕ)

-- A call's result with what it leaves.
abbrev pub Io : Type 0 → Type 0
Io A = PipeIo → A × PipeIo

pub write_file : List ℕ → Io Bool
write_file cmd io = elim io.writes [
  | [] ↦ (false, io)
  | ok ∷ later ↦ (
    ok,
    record io { writes = later; written = if ok then io.written ++ (cmd ∷ []) else io.written },
  )
]

pub read_file : ℕ → Io (Option (List ℕ))
read_file size io = elim io.reads [
  | [] ↦ (none, io)
  | a ∷ later ↦ (a size, record io { reads = later })
]

abbrev pub read_reply : List ℕ → Option (List ℕ) → Reply
read_reply reply none = failed error
read_reply reply (some xs) = replied (overwrite xs reply) (length xs)

-- `wpa_ctrl_recv`, with `*reply_len`.
pub recv_pipe : List ℕ → ℕ → Io Reply
unfolding read_file
recv_pipe reply reply_len io = let (a, io') = read_file reply_len io in (read_reply reply a, io')

-- `wpa_ctrl_request`; the callback is never called.
pub request_pipe : List ℕ → List ℕ → ℕ → Io Reply
unfolding write_file recv_pipe
request_pipe cmd reply reply_len io =
    let (ok, io') = write_file cmd io in
    if ok then recv_pipe reply reply_len io' else (failed error, io')

-- `wpa_ctrl_pending`, where `none` is the result -1.
pub pending_pipe : Io (Option Bool)
pending_pipe io = elim io.peeks [
  | [] ↦ (none, io)
  | none ∷ later ↦ (none, record io { peeks = later })
  | some left ∷ later ↦ (some (not (left == 0)), record io { peeks = later })
]
