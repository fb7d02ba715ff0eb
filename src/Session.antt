-- ===== src/Session.antt =====
-- `wpa_ctrl_open` and `wpa_ctrl_close` over a UNIX domain socket (src/wpa_ctrl/wpa_ctrl.c). The
-- system's answers are the record `System`; what is acquired and released is logged.
pub mod Release
use wpa_supplicant_ex.Shared.{
  ℕ, zero, suc, ◌+◌, ◌-◌, Bool, true, false, ◌&&◌, List, [], ◌∷◌, ◌++◌, Option, none, some, ltb,
  leb, ◌==◌, if◌then◌else◌, length, set, drop, put_at, replicate,
}
use wpa_supplicant_ex.Kernel.{Errno, eaddrinuse}
use wpa_supplicant_ex.Strings.{os_strlcpy}

-- What `wpa_ctrl_open` does to the outside.
pub data Effect : Type 0 where
  allocate release open_socket close_socket set_nonblock : Effect
  bind_path unlink_path connect_to : List ℕ → Effect
  -- chmod and chown, on Android
  set_mode set_owner : List ℕ → Effect

-- The system's answers: whether there is memory and a socket, the text of the local path for a value
-- of `counter` (`none` for a failing `snprintf`), each try of `bind`, `connect` and `fcntl`.
pub record System : Type 0 where
  -- sizeof(sun_path)
  pub path_size : ℕ
  pub malloc : Bool
  pub socket : Bool
  pub snprintf : ℕ → Option (List ℕ)
  pub bind : ℕ → Option Errno
  pub connect : Bool
  pub get_flags : Bool
  pub set_flags : Bool

-- `struct wpa_ctrl`: the string in `local.sun_path` and the array `dest.sun_path`. The descriptor is
-- the socket of the log.
pub record WpaCtrl : Type 0 where
  pub local : List ℕ
  pub dest : List ℕ

-- The end of an operation: its result, the static `counter`, and the log.
pub record Opening : Type 0 where
  pub ctrl : Option WpaCtrl
  pub counter : ℕ
  pub log : List Effect

pub data BindEnd : Type 0 where
  bound : List ℕ → List Effect → BindEnd
  gave_up : List Effect → BindEnd
  no_rounds : BindEnd

unfoldable pub is_in_use : Errno → Bool
is_in_use eaddrinuse = true
is_in_use _ = false

-- From `try_again` to the `bind` that ends it.
unfoldable pub bind_loop : System → ℕ → ℕ → ℕ → List Effect → BindEnd
unfolding is_in_use
bind_loop sys counter zero tries log = no_rounds
bind_loop sys counter (suc rounds) tries log = elim (sys.snprintf counter) [
  | none ↦ gave_up (log ++ (close_socket ∷ release ∷ []))
  | some text ↦
      let again = bind_loop sys counter rounds (tries + 1) (log ++ (unlink_path text ∷ [])) in
      if leb sys.path_size (length text)
      then gave_up (log ++ (close_socket ∷ release ∷ []))
      else elim (sys.bind (tries + 1)) [
        | none ↦ bound text (log ++ (bind_path text ∷ []))
        | some e ↦
            if is_in_use e && ltb (tries + 1) 2
            then again
            else gave_up (log ++ (close_socket ∷ release ∷ []))
      ]
]

-- `strncmp` with the prefix's length.
unfoldable pub starts_with : List ℕ → List ℕ → Bool
starts_with [] s = true
starts_with (c ∷ prefix) [] = false
starts_with (c ∷ prefix) (x ∷ s) = (c == x) && starts_with prefix s

abbrev pub abstract_prefix : List ℕ
abstract_prefix = b'@' ∷ b'a' ∷ b'b' ∷ b's' ∷ b't' ∷ b'r' ∷ b'a' ∷ b'c' ∷ b't' ∷ b':' ∷ []

-- `ctrl->dest.sun_path`, or `none` where the path does not fit.
unfoldable pub dest_path : ℕ → List ℕ → Option (List ℕ)
unfolding starts_with
dest_path size ctrl_path =
    if starts_with abstract_prefix ctrl_path
    then some (0 ∷ (os_strlcpy (replicate (size - 1) 0) (drop 10 ctrl_path) (size - 1)).0)
    else (let (dest, res) = os_strlcpy (replicate size 0) ctrl_path size in
        if leb size res then none else some dest)

-- Behind a `connect` that worked.
unfoldable pub make_nonblocking : System → List Effect → List Effect
make_nonblocking sys log =
    if sys.get_flags && sys.set_flags then log ++ (set_nonblock ∷ []) else log

-- Behind the `bind` that worked.
unfoldable pub connect_bound : System → List ℕ → ℕ → List ℕ → List Effect → Opening
connect_bound sys ctrl_path counter text log = elim (dest_path sys.path_size ctrl_path) [
  | none ↦ record { ctrl = none; counter = counter; log = log ++ (close_socket ∷ release ∷ []) }
  | some dest ↦
      if sys.connect
      then record {
        ctrl = some (record { local = text; dest = dest });
        counter = counter;
        log = make_nonblocking sys (log ++ (connect_to dest ∷ []));
      }
      else record {
        ctrl = none;
        counter = counter;
        log = log ++ (close_socket ∷ unlink_path text ∷ release ∷ []);
      }
]

abbrev pub bind_rounds : ℕ
bind_rounds = 2

pub after_bind : System → List ℕ → ℕ → BindEnd → Opening
after_bind sys ctrl_path counter (bound text log) = connect_bound sys ctrl_path counter text log
after_bind sys ctrl_path counter (gave_up log) = record {
  ctrl = none;
  counter = counter;
  log = log;
}
after_bind sys ctrl_path counter no_rounds = record { ctrl = none; counter = counter; log = [] }

-- `ctrl_path` may be NULL.
pub wpa_ctrl_open : System → ℕ → Option (List ℕ) → Opening
wpa_ctrl_open sys counter none = record { ctrl = none; counter = counter; log = [] }
wpa_ctrl_open sys counter (some ctrl_path) =
    if sys.malloc
    then (if sys.socket
        then after_bind sys ctrl_path (counter + 1)
            (bind_loop sys (counter + 1) bind_rounds 0 (allocate ∷ open_socket ∷ []))
        else record { ctrl = none; counter = counter; log = allocate ∷ release ∷ [] })
    else record { ctrl = none; counter = counter; log = [] }

-- The log of `wpa_ctrl_close`. The descriptor of a `struct wpa_ctrl` is never negative.
unfoldable pub wpa_ctrl_close : Option WpaCtrl → List Effect
wpa_ctrl_close none = []
wpa_ctrl_close (some ctrl) = unlink_path ctrl.local ∷ close_socket ∷ release ∷ []
