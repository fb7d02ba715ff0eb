-- ===== src/Android.antt =====
-- The parts of src/wpa_ctrl/wpa_ctrl.c that are built for Android only: the sockets of the reserved
-- namespace, and removing the socket files that clients have left behind.
pub mod Cleanup
pub mod Connection
pub mod Balance
use wpa_supplicant_ex.Shared.{
  ℕ, zero, suc, ◌+◌, ◌-◌, Bool, true, false, not, List, [], ◌∷◌, ◌++◌, Option, none, some, ltb, leb,
  ◌==◌, if◌then◌else◌, length, get_or, take, drop, overwrite, replicate,
}
use wpa_supplicant_ex.Strings.{os_strlcpy, c_string}
use wpa_supplicant_ex.Session.{
  Effect, allocate, release, open_socket, close_socket, unlink_path, connect_to, set_mode,
  set_owner, starts_with, System, Opening, BindEnd, bound, gave_up, no_rounds, bind_loop,
  bind_rounds, connect_bound,
}

abbrev pub path_max : ℕ
path_max = 4096

-- What `wpa_ctrl_cleanup` does to the outside.
pub data CleanupEffect : Type 0 where
  open_dir : List ℕ → CleanupEffect
  close_dir : CleanupEffect
  unlink_file : List ℕ → CleanupEffect

-- The entries are what `readdir_r` gives until it fails or ends; `pathname` is the array.
pub cleanup_loop : ℕ → List ℕ → List (List ℕ) → List CleanupEffect
cleanup_loop dirnamelen pathname [] = []
cleanup_loop dirnamelen pathname (d_name ∷ entries) =
    let maxcopy = path_max - dirnamelen in
    let copied = os_strlcpy (drop dirnamelen pathname) d_name maxcopy in
    let pathname' = take dirnamelen pathname ++ copied.0 in
    let rest = cleanup_loop dirnamelen pathname' entries in
    if ltb copied.1 maxcopy then unlink_file (c_string pathname') ∷ rest else rest

-- `client_dir` is CONFIG_CTRL_IFACE_CLIENT_DIR, `pathname` the array before the `snprintf`, and the
-- entries are `none` where `opendir` fails.
pub wpa_ctrl_cleanup : List ℕ → List ℕ → Option (List (List ℕ)) → List CleanupEffect
unfolding cleanup_loop
wpa_ctrl_cleanup client_dir pathname none = open_dir client_dir ∷ []
wpa_ctrl_cleanup client_dir pathname (some entries) =
    let dirnamelen = length client_dir + 1 in
    if leb path_max dirnamelen
    then open_dir client_dir ∷ close_dir ∷ []
    else open_dir client_dir
      ∷ (cleanup_loop dirnamelen (overwrite (client_dir ++ (b'/' ∷ 0 ∷ [])) pathname) entries
          ++ (close_dir ∷ []))

abbrev pub android_prefix : List ℕ
android_prefix = b'@' ∷ b'a' ∷ b'n' ∷ b'd' ∷ b'r' ∷ b'o' ∷ b'i' ∷ b'd' ∷ b':' ∷ []

-- The name in the reserved namespace that `ctrl_path` stands for, or `none` for a path of the file
-- system. The `snprintf` keeps twenty bytes of the text.
unfoldable pub android_name : List ℕ → Option (List ℕ)
android_name ctrl_path =
    if starts_with android_prefix ctrl_path
    then some (drop 9 ctrl_path)
    else (if get_or ctrl_path 0 0 == b'/'
        then none
        else some (take 20 (b'w' ∷ b'p' ∷ b'a' ∷ b'_' ∷ ctrl_path)))

-- Behind the `bind` to the path `text`: whether `wpa_ctrl_open` gives a connection, and the log; or
-- `none` where it goes on as elsewhere.
pub connect_android : Bool → List ℕ → List ℕ → List Effect → Option (Bool × List Effect)
unfolding android_name
connect_android connected ctrl_path text log = elim (android_name ctrl_path) [
  | none ↦ none
  | some name ↦ some (
      if connected
      then (true, log ++ (connect_to name ∷ []))
      else (false, log ++ (close_socket ∷ unlink_path text ∷ release ∷ [])))
]

-- Behind the `bind` to the path `text`. `connected` says whether `socket_local_client_connect` works;
-- `dest` is as `os_memset` has left it where that is called.
pub bound_android : System → Bool → List ℕ → ℕ → List ℕ → List Effect → Opening
unfolding connect_android
bound_android sys connected ctrl_path counter text log =
    let owned = log ++ (set_mode text ∷ set_owner text ∷ []) in
    elim (connect_android connected ctrl_path text owned) [
      | none ↦ connect_bound sys ctrl_path counter text owned
      | some (true, log') ↦ record {
        ctrl = some (record { local = text; dest = replicate sys.path_size 0 });
        counter = counter;
        log = log';
      }
      | some (false, log') ↦ record { ctrl = none; counter = counter; log = log' }
    ]

pub after_bind_android : System → Bool → List ℕ → ℕ → BindEnd → Opening
unfolding bound_android
after_bind_android sys connected ctrl_path counter (bound text log) =
    bound_android sys connected ctrl_path counter text log
after_bind_android sys connected ctrl_path counter (gave_up log) = record {
  ctrl = none;
  counter = counter;
  log = log;
}
after_bind_android sys connected ctrl_path counter no_rounds = record {
  ctrl = none;
  counter = counter;
  log = [];
}

-- `wpa_ctrl_open` as Android builds it.
pub open_android : System → Bool → ℕ → Option (List ℕ) → Opening
unfolding after_bind_android
open_android sys connected counter none = record { ctrl = none; counter = counter; log = [] }
open_android sys connected counter (some ctrl_path) =
    if sys.malloc
    then (if sys.socket
        then after_bind_android sys connected ctrl_path (counter + 1)
            (bind_loop sys (counter + 1) bind_rounds 0 (allocate ∷ open_socket ∷ []))
        else record { ctrl = none; counter = counter; log = allocate ∷ release ∷ [] })
    else record { ctrl = none; counter = counter; log = [] }
