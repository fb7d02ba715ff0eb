-- ===== src/Remote.antt =====
-- The control interface over UDP (src/wpa_ctrl/wpa_ctrl.c, CONFIG_CTRL_IFACE_UDP with and without
-- CONFIG_CTRL_IFACE_UDP_REMOTE): opening, closing, and the cookie ahead of a command. The answers of
-- the sockets, the resolver and `atoi` are the record `Network`; the requests run on `World`.
pub mod Names
pub mod Interface
pub mod Requests
pub mod Address
pub mod Asking
pub mod Control
pub mod Account
use wpa_supplicant_ex.Shared.{
  take, ℕ, zero, suc, ◌+◌, ◌-◌, ◌%◌, ◌^◌, Bool, true, false, List, [], ◌∷◌, ◌++◌, Option, none,
  some, ◌==◌, if◌then◌else◌, length, set, put_at, overwrite, replicate,
}
use wpa_supplicant_ex.Strings.{c_string}
use wpa_supplicant_ex.Shared.Int.{ℤ, pos, negsuc}
use wpa_supplicant_ex.Kernel.{K, ◌>>=◌, return, exit_with, exit_failure}
use wpa_supplicant_ex.Port.{main}
use wpa_supplicant_ex.Api.{Reply, replied, failed, Failure, error, Callback, CtrlApi}
use wpa_supplicant_ex.Strings.{os_strlcpy}
use wpa_supplicant_ex.Ctrl.{
  wpa_ctrl_request, wpa_ctrl_recv, wpa_ctrl_pending, attach_command, attach_result, ten_bytes,
}

-- What is acquired and released.
pub data NetEffect : Type 0 where
  allocate release open_socket close_socket : NetEffect
  -- what `h->h_addr` holds behind the `os_memcpy`
  set_host_addr : List ℕ → NetEffect

-- `struct sockaddr_in`: the bytes of the address, and the port.
pub record Endpoint : Type 0 where
  pub addr : List ℕ
  pub port : ℕ

pub record Network : Type 0 where
  pub malloc : Bool
  pub socket : Bool
  pub bind : Bool
  pub strdup_name : Bool
  pub strdup_ip : Bool
  pub gethostbyname : List ℕ → Option (List ℕ)
  pub connect : Endpoint → Bool
  pub atoi : List ℕ → ℤ
  -- for `cmd_buf` of each command, and for the two names
  pub malloc_cmd : List ℕ → Bool
  pub strdup_cookie : Bool
  pub strdup_ifname : Bool

-- `struct wpa_ctrl` over UDP; `none` is NULL.
pub record UdpCtrl : Type 0 where
  pub dest : Endpoint
  pub cookie : Option (List ℕ)
  pub remote_ifname : Option (List ℕ)
  pub remote_ip : Option (List ℕ)

abbrev pub loopback : List ℕ
loopback = 127 ∷ 0 ∷ 0 ∷ 1 ∷ []

abbrev pub wpa_ctrl_iface_port : ℕ
wpa_ctrl_iface_port = 9877

-- `htons(port_id)` keeps the lowest sixteen bits of the `int`.
abbrev pub to_port : ℤ → ℕ
to_port (pos n) = n % 2 ^ 16
to_port (negsuc n) = 2 ^ 16 - 1 - n % 2 ^ 16

-- `os_strchr(name, ':')`: the bytes ahead of the colon, and those behind it.
unfoldable pub split_port : List ℕ → List ℕ × Option (List ℕ)
split_port [] = ([], none)
split_port (c ∷ s) = let r = split_port s in if c == b':' then ([], some s) else (c ∷ r.0, r.1)

-- A `NULL` needs no freeing.
abbrev pub free_ptr : Option (List ℕ) → List NetEffect
free_ptr none = []
free_ptr (some s) = release ∷ []

abbrev pub dup_ip : Bool → List ℕ → Option (List ℕ)
dup_ip ok text = if ok then some text else none

abbrev pub dup_effect : Bool → List NetEffect
dup_effect ok = if ok then allocate ∷ [] else []

-- From `connect` to the first request.
unfoldable pub connect_udp :
    Network → Endpoint → Option (List ℕ) → List NetEffect → Option UdpCtrl × List NetEffect
connect_udp net dest ip log =
    if net.connect dest
    then (some (record { dest = dest; cookie = none; remote_ifname = none; remote_ip = ip }), log)
    else (none, log ++ (close_socket ∷ (free_ptr ip ++ (release ∷ []))))

-- `os_memcpy` of `n` bytes, both arrays long enough.
abbrev pub os_memcpy : List ℕ → List ℕ → ℕ → List ℕ
os_memcpy dest src n = overwrite (take n src) dest

-- The branch of CONFIG_CTRL_IFACE_UDP_REMOTE for a `ctrl_path`; `gethostbyname` gives the array
-- `h->h_addr` of `h->h_length` bytes. The `os_memcpy` goes to that array, from `dest`.
unfoldable pub resolve :
    Network → Endpoint → List ℕ → List NetEffect → Option UdpCtrl × List NetEffect
unfolding split_port connect_udp
resolve net dest ctrl_path log =
    if net.strdup_name
    then (let (name, port) = split_port ctrl_path in
        let port_id : ℤ = elim port [
          | none ↦ pos wpa_ctrl_iface_port
          | some text ↦ net.atoi text
        ] in
        let ip = dup_ip net.strdup_ip name in
        let log' = log ++ (allocate ∷ (dup_effect net.strdup_ip ++ (release ∷ []))) in
        elim (net.gethostbyname name) [
          | none ↦ (none, log' ++ (close_socket ∷ (free_ptr ip ++ (release ∷ []))))
          | some h_addr ↦
              connect_udp net (record dest { port = to_port port_id }) ip
                (log' ++ (set_host_addr (os_memcpy h_addr dest.addr (length h_addr)) ∷ []))
        ])
    else (none, log ++ (close_socket ∷ release ∷ []))

-- `wpa_ctrl_open` before its requests; `remote` is CONFIG_CTRL_IFACE_UDP_REMOTE.
unfoldable pub dial_udp : Bool → Network → Option (List ℕ) → Option UdpCtrl × List NetEffect
unfolding resolve
dial_udp remote net ctrl_path =
    let dest : Endpoint = record { addr = loopback; port = wpa_ctrl_iface_port } in
    let opened = allocate ∷ open_socket ∷ [] in
    if net.malloc
    then (if net.socket
        then (if net.bind
            then (if remote
                then elim ctrl_path [
                  | some path ↦ resolve net dest path opened
                  | none ↦
                      connect_udp net dest
                        (dup_ip net.strdup_ip
                          (b'l' ∷ b'o' ∷ b'c' ∷ b'a' ∷ b'l' ∷ b'h' ∷ b'o' ∷ b's' ∷ b't' ∷ []))
                        (opened ++ dup_effect net.strdup_ip)
                ]
                else connect_udp net dest none opened)
            else (none, opened ++ (close_socket ∷ release ∷ [])))
        else (none, allocate ∷ release ∷ []))
    else (none, [])

-- The command as it is sent: behind the cookie and a space, if there is a cookie.
unfoldable pub with_cookie : Option (List ℕ) → List ℕ → List ℕ
with_cookie none cmd = cmd
with_cookie (some cookie) cmd =
    let len = length cookie + 1 + length cmd in
    let buf = (os_strlcpy (replicate len 0) cookie len).0 in
    put_at (length cookie + 1) cmd (set buf (length cookie) b' ')

-- `cmd_buf` needs memory only if there is a cookie.
unfoldable pub request_udp : Bool → UdpCtrl → List ℕ → List ℕ → ℕ → Callback → K Reply
unfolding with_cookie
request_udp malloc ctrl cmd reply reply_len msg_cb = elim ctrl.cookie [
  | none ↦ wpa_ctrl_request cmd reply reply_len msg_cb
  | some cookie ↦
      if malloc
      then wpa_ctrl_request (with_cookie (some cookie) cmd) reply reply_len msg_cb
      else return (failed error)
]

-- `wpa_ctrl_attach` over UDP.
pub attach_udp : Bool → UdpCtrl → K (Option Failure)
unfolding request_udp
attach_udp malloc ctrl = request_udp malloc ctrl (attach_command true) ten_bytes 10 none >>= λ r.
    return (attach_result r)

-- The control interface over UDP; `malloc` says for each command whether there is memory for it behind
-- the cookie.
abbrev pub udp : (List ℕ → Bool) → UdpCtrl → CtrlApi
udp malloc ctrl = record {
  request = λ cmd. request_udp (malloc cmd) ctrl cmd;
  recv = wpa_ctrl_recv;
  pending = wpa_ctrl_pending;
  attach = attach_udp (malloc (attach_command true)) ctrl;
}

abbrev pub get_cookie : List ℕ
get_cookie = b'G' ∷ b'E' ∷ b'T' ∷ b'_' ∷ b'C' ∷ b'O' ∷ b'O' ∷ b'K' ∷ b'I' ∷ b'E' ∷ []

abbrev pub ifname : List ℕ
ifname = b'I' ∷ b'F' ∷ b'N' ∷ b'A' ∷ b'M' ∷ b'E' ∷ []

-- What a request leaves: `buf`, `len` and the duplicated string, if there is memory for it.
unfoldable pub take_name : Bool → List ℕ → ℕ → Reply → List ℕ × ℕ × Option (List ℕ)
take_name ok buf len (failed e) = (buf, len, none)
take_name ok buf len (replied b n) = let b' = set b n 0 in (b', n, dup_ip ok (c_string b'))

-- `cmd_buf` is freed on every path behind its allocation.
abbrev pub buffer_effect : Bool → Option (List ℕ) → List NetEffect
buffer_effect malloc none = []
buffer_effect malloc (some cookie) = if malloc then allocate ∷ release ∷ [] else []

-- A string has been duplicated.
abbrev pub taken_effect : Option (List ℕ) → List NetEffect
taken_effect none = []
taken_effect (some name) = allocate ∷ []

-- The request for the interface name, behind the one for the cookie.
unfoldable pub fetch_ifname :
    Network → List ℕ → ℕ → UdpCtrl → List NetEffect → K (Option UdpCtrl × List NetEffect)
unfolding take_name request_udp
fetch_ifname net buf len ctrl log =
    request_udp (net.malloc_cmd ifname) ctrl ifname buf len none >>= λ r.
    let name = (take_name net.strdup_ifname buf len r).2 in
    return (
      some (record ctrl { remote_ifname = name }),
      log ++ (buffer_effect (net.malloc_cmd ifname) ctrl.cookie ++ taken_effect name),
    )

-- The two requests at the end of `wpa_ctrl_open`; `buf` has 128 bytes.
unfoldable pub fetch_names :
    Network → List ℕ → UdpCtrl → List NetEffect → K (Option UdpCtrl × List NetEffect)
unfolding fetch_ifname
fetch_names net buf ctrl log =
    request_udp (net.malloc_cmd get_cookie) ctrl get_cookie buf 127 none >>= λ r.
    let (b, len, cookie) = take_name net.strdup_cookie buf 127 r in
    fetch_ifname net b len (record ctrl { cookie = cookie })
      (log ++ (buffer_effect (net.malloc_cmd get_cookie) ctrl.cookie ++ taken_effect cookie))

-- Behind the part that opens and connects the socket.
pub after_dial :
    Network → List ℕ → Option UdpCtrl → List NetEffect → K (Option UdpCtrl × List NetEffect)
unfolding fetch_names
after_dial net buf none log = return (none, log)
after_dial net buf (some ctrl) log = fetch_names net buf ctrl log

-- `wpa_ctrl_open`, with its uninitialised `buf`: the connection and the log.
unfoldable pub open_udp :
    Bool → Network → List ℕ → Option (List ℕ) → K (Option UdpCtrl × List NetEffect)
unfolding dial_udp after_dial
open_udp remote net buf ctrl_path =
    let (ctrl, log) = dial_udp remote net ctrl_path in after_dial net buf ctrl log

-- The log of `wpa_ctrl_close`.
unfoldable pub close_udp : UdpCtrl → List NetEffect
close_udp ctrl =
    close_socket
    ∷ (free_ptr ctrl.cookie
        ++ (free_ptr ctrl.remote_ifname ++ (free_ptr ctrl.remote_ip ++ (release ∷ []))))

-- `main` of src/wpa_ex.c with this interface, for `argc` and `argv[1]`.
pub run_udp : (List ℕ → Bool) → ℕ → Option UdpCtrl → K (Unit {0})
run_udp malloc_cmd argc none = exit_with (exit_failure "Couldn't open")
run_udp malloc_cmd argc (some ctrl) = main (udp malloc_cmd ctrl) argc (some ctrl)

unfoldable pub program_udp : Bool → Network → List ℕ → ℕ → Option (List ℕ) → K (Unit {0})
unfolding open_udp run_udp
program_udp remote net buf argc ctrl_path =
    if argc == 2
    then (open_udp remote net buf ctrl_path >>= λ o. run_udp net.malloc_cmd argc (o.0))
    else exit_with (exit_failure "<path to supplicant control pipe>")

-- What `%s` prints, where `null` is what the C library prints for NULL.
abbrev pub printed : List ℕ → Option (List ℕ) → List ℕ
printed null none = null
printed null (some text) = text

-- The string in the static array of a hundred bytes.
pub wpa_ctrl_get_remote_ifname : List ℕ → UdpCtrl → List ℕ
wpa_ctrl_get_remote_ifname null ctrl =
    take 99 (printed null ctrl.remote_ip ++ (b'/' ∷ printed null ctrl.remote_ifname))
