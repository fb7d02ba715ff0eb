-- ===== src/Examples/Systems.antt =====
-- The theorems on prefixes, the operating system layer and UDP, applied.
use wpa_supplicant_ex.Shared.{
  ℕ, ◌≡◌, ◌⊎◌, refl, true, false, List, [], ◌∷◌, ◌++◌, Option, none, some, arith, length, replicate,
}
use mathlib.Core.List.Memᴰ.{head}
use wpa_supplicant_ex.Shared.Int.{pos}
use wpa_supplicant_ex.Kernel.{World, returned, sent, ready, datagram}
use wpa_supplicant_ex.Prefixes.{Macro}
use wpa_supplicant_ex.Prefixes.Unambiguous.{message_prefix_unique}
use wpa_supplicant_ex.Unix.{
  ClockId, boottime, monotonic, realtime, Timespec, os_get_reltime, FileSystem, os_readfile,
}
use wpa_supplicant_ex.Unix.Clock.{IsFirst, AllFail, os_get_reltime_lem}
use wpa_supplicant_ex.Unix.Files.{none_held, held_from, os_readfile_lem}
use wpa_supplicant_ex.Strings.{c_string}
use wpa_supplicant_ex.Remote.{
  allocate, release, Network, Endpoint, open_udp, fetch_names, get_cookie, ifname, loopback,
}
use wpa_supplicant_ex.Remote.Address.{IsBalanced, open_udp-IsBalanced}
use wpa_supplicant_ex.Remote.Interface.{fetch_names-cuts}
use wpa_supplicant_ex.Examples.{quiet}
use wpa_supplicant_ex.Kernel.Post.{Post}
use wpa_supplicant_ex.Ctrl.Attach.{ok_text}
use wpa_supplicant_ex.Kernel.{bytes, polled}

abbrev request_macro : Macro
request_macro = record { name = "WPA_CTRL_REQ"; text = "CTRL-REQ-" }

message_prefix_unique_example : request_macro ≡ request_macro
message_prefix_unique_example =
    message_prefix_unique request_macro request_macro "PIN" "PIN" (head refl) (head refl) refl

-- A kernel without CLOCK_BOOTTIME.
abbrev old_kernel : ClockId → Option Timespec
old_kernel boottime = none
old_kernel monotonic = some (record { tv_sec = 7; tv_nsec = 5000 })
old_kernel realtime = none

os_get_reltime_example :
    let o = os_get_reltime old_kernel boottime in
    IsFirst old_kernel boottime o ⊎ AllFail old_kernel boottime o
os_get_reltime_example = os_get_reltime_lem old_kernel boottime

-- A file that shrinks between `ftell` and `fread`.
abbrev shrinking : FileSystem
shrinking = record {
  opens = true;
  seeks_end = true;
  ftell = some 3;
  seeks_start = true;
  mallocs = true;
  fread = λ n. b'a' ∷ [];
}

os_readfile_example :
    let log = held_from none_held (os_readfile shrinking).1 in
    (((os_readfile shrinking).0 ≡ none) × (log ≡ none_held))
    ⊎ ((buf : List ℕ) × ((os_readfile shrinking).0 ≡ some buf)
        × (shrinking.ftell ≡ some (length buf))
        × (log ≡ record none_held { buffers = 1 }))
os_readfile_example = os_readfile_lem shrinking

abbrev reachable : Network
reachable = record {
  malloc = true;
  socket = true;
  bind = true;
  strdup_name = true;
  strdup_ip = true;
  gethostbyname = λ name. some (10 ∷ 0 ∷ 0 ∷ 1 ∷ []);
  connect = λ dest. true;
  atoi = λ text. pos 9878;
  malloc_cmd = λ cmd. true;
  strdup_cookie = true;
  strdup_ifname = true;
}

abbrev host : List ℕ
host = b'h' ∷ b':' ∷ b'1' ∷ []

-- A cookie of three bytes, and an interface name of five.
abbrev cookie_text : List ℕ
cookie_text = b'C' ∷ b'=' ∷ b'1' ∷ []

abbrev naming : World
naming = record quiet {
  sends = sent ∷ sent ∷ [];
  selects = ready ∷ ready ∷ [];
  recvs = datagram cookie_text ∷ datagram (b'w' ∷ b'l' ∷ b'a' ∷ b'n' ∷ b'0' ∷ []) ∷ [];
}

abbrev home : Endpoint
home = record { addr = loopback; port = 9877 }

open_udp-IsBalanced_example :
    Post (λ o u. IsBalanced o) (open_udp true reachable (replicate 128 0) (some host) naming)
open_udp-IsBalanced_example =
    open_udp-IsBalanced true reachable (replicate 128 0) (some host) naming

fetch_names-cuts_example :
    fetch_names reachable
      (replicate 128 0)
      (record { dest = home; cookie = none; remote_ifname = none; remote_ip = none })
      []
      naming
    ≡ returned
        (
          some (record {
            dest = home;
            cookie = some (c_string cookie_text);
            remote_ifname = some (c_string (b'w' ∷ b'l' ∷ b'a' ∷ []));
            remote_ip = none;
          }),
          ([] ++ (allocate ∷ [])) ++ (allocate ∷ release ∷ allocate ∷ []),
        )
        (record quiet { commands = get_cookie ∷ (c_string cookie_text ++ (b' ' ∷ ifname)) ∷ [] })
fetch_names-cuts_example =
    fetch_names-cuts reachable home none (replicate 128 0) cookie_text
      (b'w' ∷ b'l' ∷ b'a' ∷ b'n' ∷ b'0' ∷ []) [] [] [] [] naming refl refl refl refl (omega arith)
      (omega arith) (λ h. ground arith) (λ h. ground arith) refl refl refl

-- The supplicant gives the names and takes `ATTACH`, and Erlang sends one command.
abbrev asking : World
asking = record quiet {
  reads = bytes (0 ∷ 1 ∷ b'P' ∷ []) ∷ [];
  sends = sent ∷ sent ∷ sent ∷ sent ∷ [];
  selects = ready ∷ ready ∷ ready ∷ [];
  recvs =
      datagram cookie_text
      ∷ datagram (b'w' ∷ b'l' ∷ b'a' ∷ b'n' ∷ b'0' ∷ [])
      ∷ datagram ok_text
      ∷ [];
  polls =
      polled (record { pollin = true; pollhup = false })
        (record { pollin = false; pollhup = false })
      ∷ [];
}
