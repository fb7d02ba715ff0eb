-- ===== src/Session/Release.antt =====
-- What `wpa_ctrl_open` and `wpa_ctrl_close` leave behind.
use wpa_supplicant_ex.Shared.{
  ℕ, ◌+◌, ◌-◌, ◌≤◌, ◌≡◌, refl, Bool, true, false, List, [], ◌∷◌, ◌++◌, Option, none, some, leb, ltb,
  if◌then◌else◌, ◌==◌, ◌&&◌, length, replicate, arith, ◌⊎◌,
}
use wpa_supplicant_ex.Kernel.{eaddrinuse}
use wpa_supplicant_ex.Strings.{os_strlcpy}
use wpa_supplicant_ex.Strings.Copy.{os_strlcpy_lem}
use wpa_supplicant_ex.Session.{
  Effect, Opening, allocate, release, open_socket, close_socket, set_nonblock, bind_path,
  unlink_path, connect_to, set_mode, set_owner, System, WpaCtrl, wpa_ctrl_open, wpa_ctrl_close,
  starts_with, abstract_prefix, dest_path, connect_bound, after_bind, bind_loop, BindEnd, bound,
  gave_up, no_rounds, bind_rounds,
}

-- What a log leaves acquired: allocations and descriptors; how often it released what it did not hold;
-- and every socket file that it created or removed, with its path, in order.
pub record Held : Type 0 where
  pub memory : ℕ
  pub sockets : ℕ
  pub faults : ℕ
  pub files : List Effect

abbrev pub apply : Held → Effect → Held
apply h allocate = record h { memory = h.memory + 1 }
apply h release =
    if h.memory == 0 then record h { faults = h.faults + 1 } else record h { memory = h.memory - 1 }
apply h open_socket = record h { sockets = h.sockets + 1 }
apply h close_socket =
    if h.sockets == 0
    then record h { faults = h.faults + 1 }
    else record h { sockets = h.sockets - 1 }
apply h set_nonblock = h
apply h (bind_path p) = record h { files = h.files ++ (bind_path p ∷ []) }
apply h (unlink_path p) = record h { files = h.files ++ (unlink_path p ∷ []) }
apply h (connect_to p) = h
apply h (set_mode p) = h
apply h (set_owner p) = h

abbrev pub held_from : Held → List Effect → Held
held_from h [] = h
held_from h (e ∷ log) = held_from (apply h e) log

abbrev pub nothing_held : List Effect → Held
nothing_held files = record { memory = 0; sockets = 0; faults = 0; files = files }

abbrev pub one_held : List Effect → Held
one_held files = record { memory = 1; sockets = 1; faults = 0; files = files }

abbrev pub held : List Effect → Held
held log = held_from (nothing_held []) log

-- The file of an earlier run under the path `text` is removed where the first `bind` finds it.
abbrev pub stale : System → List ℕ → List Effect
stale sys text = elim (sys.bind 1) [
  | none ↦ []
  | some eaddrinuse ↦ unlink_path text ∷ []
  | some _ ↦ []
]

-- A failure that has created no file, or removed the one that it created. Ahead of that there is nothing
-- or, where `bind` found it in use, the removal of that path.
abbrev pub IsUndone : System → Option (List ℕ) → Held → Type 0
IsUndone sys none h = h ≡ nothing_held []
IsUndone sys (some text) h =
    (h ≡ nothing_held [])
    ⊎ (h ≡ nothing_held (stale sys text))
    ⊎ (h ≡ nothing_held (stale sys text ++ (bind_path text ∷ unlink_path text ∷ [])))

-- The end of an opening whose local path is `local`.
abbrev pub IsBalanced : System → Option (List ℕ) → Opening → Type 0
IsBalanced sys local o =
    ((o.ctrl ≡ none) × IsUndone sys local (held o.log))
    ⊎ ((c : WpaCtrl) × (o.ctrl ≡ some c)
        × (local ≡ some c.local)
        × (held o.log ≡ one_held (stale sys c.local ++ (bind_path c.local ∷ [])))
        × (held (o.log ++ wpa_ctrl_close o.ctrl)
            ≡ nothing_held (stale sys c.local ++ (bind_path c.local ∷ unlink_path c.local ∷ []))))

abbrev pub is_some : Option WpaCtrl → Bool
is_some none = false
is_some (some c) = true

-- `bind` works at once, or the address is in use and it works after the file has been removed.
abbrev pub can_bind : System → Bool
can_bind sys = elim (sys.bind 1) [
  | none ↦ true
  | some eaddrinuse ↦ elim (sys.bind 2) [ none ↦ true | some e ↦ false ]
  | some _ ↦ false
]

abbrev pub has_local : System → ℕ → Bool
has_local sys counter = elim (sys.snprintf counter) [
  | none ↦ false
  | some text ↦ ltb (length text) sys.path_size
]

abbrev pub has_dest : System → List ℕ → Bool
has_dest sys ctrl_path = elim (dest_path sys.path_size ctrl_path) [ none ↦ false | some d ↦ true ]

is_bound : BindEnd → Bool
is_bound (bound text log) = true
is_bound _ = false

is_bound-bind_loop :
    (sys : System) (counter : ℕ) (log : List Effect)
    → is_bound (bind_loop sys counter bind_rounds 0 log) ≡ (has_local sys counter && can_bind sys)
unfolding is_bound bind_loop
is_bound-bind_loop sys counter log = ground arith

is_some-connect_bound :
    (sys : System) (ctrl_path : List ℕ) (counter : ℕ) (text : List ℕ) (log : List Effect)
    → is_some (connect_bound sys ctrl_path counter text log).ctrl
      ≡ (has_dest sys ctrl_path && sys.connect)
unfolding connect_bound
is_some-connect_bound sys ctrl_path counter text log = ground arith

is_some-after_bind :
    (sys : System) (ctrl_path : List ℕ) (counter : ℕ) (end : BindEnd)
    → is_some (after_bind sys ctrl_path counter end).ctrl
      ≡ (is_bound end && (has_dest sys ctrl_path && sys.connect))
unfolding after_bind is_bound
is_some-after_bind sys ctrl_path counter (bound text log) =
    is_some-connect_bound sys ctrl_path counter text log
is_some-after_bind sys ctrl_path counter (gave_up log) = refl
is_some-after_bind sys ctrl_path counter no_rounds = refl

-- `wpa_ctrl_open` gives a connection exactly when there are memory and a socket, the local path fits
-- `sun_path`, the socket can be bound to it, the path asked for can be represented, and `connect`
-- works.
pub wpa_ctrl_open-succeeds :
    (sys : System) (counter : ℕ) (ctrl_path : List ℕ)
    → is_some (wpa_ctrl_open sys counter (some ctrl_path)).ctrl ≡ (
        sys.malloc
        && (sys.socket
            && ((has_local sys (counter + 1) && can_bind sys)
                && (has_dest sys ctrl_path && sys.connect))))
unfolding wpa_ctrl_open
wpa_ctrl_open-succeeds sys counter ctrl_path = ground (
  arith,
  is_some-after_bind sys ctrl_path (counter + 1)
      (bind_loop sys (counter + 1) bind_rounds 0 (allocate ∷ open_socket ∷ [])),
  is_bound-bind_loop sys (counter + 1) (allocate ∷ open_socket ∷ []),
)

dest_path-too-long :
    (size : ℕ) (ctrl_path : List ℕ)
    → starts_with abstract_prefix ctrl_path ≡ false
    → size ≤ length ctrl_path
    → dest_path size ctrl_path ≡ none
unfolding dest_path
dest_path-too-long size ctrl_path named long = rw named (too_long size long)
  where
    too_long :
        (size : ℕ)
        → size ≤ length ctrl_path
        → (let (dest, res) = os_strlcpy (replicate size 0) ctrl_path size in
            if leb size res then none else some dest)
          ≡ none
    too_long size h = rw (os_strlcpy_lem (replicate size 0) ctrl_path size) (ground arith)

-- A path that does not fit `sun_path` is refused behind `bind`: the socket is closed and the memory
-- freed, but the socket file that `bind` created, under the local path, stays.
pub wpa_ctrl_open-leaves-file :
    (sys : System) (counter : ℕ) (ctrl_path : List ℕ)
    → sys.malloc ≡ true
    → sys.socket ≡ true
    → has_local sys (counter + 1) ≡ true
    → can_bind sys ≡ true
    → starts_with abstract_prefix ctrl_path ≡ false
    → sys.path_size ≤ length ctrl_path
    → let o = wpa_ctrl_open sys counter (some ctrl_path) in
      (text : List ℕ) × (sys.snprintf (counter + 1) ≡ some text)
      × (o.ctrl ≡ none)
      × (held o.log ≡ nothing_held (stale sys text ++ (bind_path text ∷ [])))
unfolding wpa_ctrl_open after_bind bind_loop connect_bound
wpa_ctrl_open-leaves-file sys counter ctrl_path m s l b a long =
    ground (arith, dest_path-too-long sys.path_size ctrl_path a long)
