-- ===== src/Remote/Address.antt =====
-- The resources of `wpa_ctrl_open` over UDP, and the address that it connects to.
use wpa_supplicant_ex.Shared.{
  ℕ, ◌+◌, ◌-◌, ◌≡◌, refl, sym, ap, ◌∙◌, subst, inl, inr, ◌⊎◌, Bool, true, false, List, [], ◌∷◌,
  ◌++◌, Option, none, some, arith, ◌==◌, if◌then◌else◌,
}
use wpa_supplicant_ex.Kernel.{World}
use wpa_supplicant_ex.Kernel.Post.{Post, Post->>=}
use wpa_supplicant_ex.Remote.Requests.{request_udp-Ends}
use wpa_supplicant_ex.Remote.{
  NetEffect, allocate, release, open_socket, close_socket, Network, UdpCtrl, loopback, connect_udp,
  resolve, dial_udp, open_udp, close_udp, set_host_addr, buffer_effect, taken_effect, take_name,
  fetch_ifname, fetch_names, after_dial, get_cookie, ifname, request_udp,
}

-- Blocks of memory and sockets that are held, and releases of what was not.
pub record Held : Type 0 where
  pub memory : ℕ
  pub sockets : ℕ
  pub faults : ℕ

abbrev pub apply : Held → NetEffect → Held
apply h allocate = record h { memory = h.memory + 1 }
apply h open_socket = record h { sockets = h.sockets + 1 }
apply h release =
    if h.memory == 0 then record h { faults = h.faults + 1 } else record h { memory = h.memory - 1 }
apply h (set_host_addr bytes) = h
apply h close_socket =
    if h.sockets == 0
    then record h { faults = h.faults + 1 }
    else record h { sockets = h.sockets - 1 }

abbrev pub held_from : Held → List NetEffect → Held
held_from h [] = h
held_from h (e ∷ log) = held_from (apply h e) log

abbrev pub none_held : Held
none_held = record { memory = 0; sockets = 0; faults = 0 }

held_from-append :
    (h : Held) (a b : List NetEffect) → held_from h (a ++ b) ≡ held_from (held_from h a) b
held_from-append h [] b = refl
held_from-append h (e ∷ a) b = held_from-append (apply h e) a b

-- A string that is held.
abbrev pub owned : Option (List ℕ) → ℕ
owned none = 0
owned (some s) = 1

abbrev pub of_ctrl : UdpCtrl → Held
of_ctrl c = record {
  memory = 1 + owned c.cookie + owned c.remote_ifname + owned c.remote_ip;
  sockets = 1;
  faults = 0;
}

-- A connection to the loopback address, and no more is held than it has.
abbrev pub IsOpen : UdpCtrl → List NetEffect → Type 0
IsOpen c log = (c.dest.addr ≡ loopback) × (held_from none_held log ≡ of_ctrl c)

-- What opening over UDP leaves: nothing, or a connection to the loopback address with its memory, its
-- socket and its strings, all of which closing gives back.
abbrev pub IsBalanced : Option UdpCtrl × List NetEffect → Type 0
IsBalanced o =
    ((o.0 ≡ none) × (held_from none_held o.1 ≡ none_held))
    ⊎ ((c : UdpCtrl) × (o.0 ≡ some c)
        × (c.dest.addr ≡ loopback)
        × (held_from none_held o.1 ≡ of_ctrl c)
        × (held_from none_held (o.1 ++ close_udp c) ≡ none_held))

closes : (c : UdpCtrl) → held_from (of_ctrl c) (close_udp c) ≡ none_held
unfolding close_udp
closes c = ground arith

IsOpen-IsBalanced : (c : UdpCtrl) (log : List NetEffect) → IsOpen c log → IsBalanced (some c, log)
IsOpen-IsBalanced c log h = inr (
  c,
  refl,
  h.0,
  h.1,
  held_from-append none_held log (close_udp c) ∙ ap (λ x. held_from x (close_udp c)) h.1 ∙ closes c,
)

-- Before the requests there are no names.
abbrev pub IsDialed : Option UdpCtrl × List NetEffect → Type 0
IsDialed o =
    ((o.0 ≡ none) × (held_from none_held o.1 ≡ none_held))
    ⊎ ((c : UdpCtrl) × (o.0 ≡ some c) × (c.cookie ≡ none) × (c.remote_ifname ≡ none) × IsOpen c o.1)

pub dial_udp-IsDialed :
    (remote : Bool) (net : Network) (ctrl_path : Option (List ℕ))
    → IsDialed (dial_udp remote net ctrl_path)
unfolding dial_udp resolve connect_udp
dial_udp-IsDialed remote net ctrl_path = ground arith

-- A request and its string leave what was held, and the string.
request-held :
    (h : Held) (malloc : Bool) (cookie name : Option (List ℕ))
    → held_from h (buffer_effect malloc cookie ++ taken_effect name)
      ≡ record h { memory = h.memory + owned name }
request-held h malloc none none = ground arith
request-held h malloc none (some s) = refl
request-held h true (some c) none = ground arith
request-held h true (some c) (some s) = ground arith
request-held h false (some c) none = ground arith
request-held h false (some c) (some s) = refl

requested-held :
    (h : Held) (log : List NetEffect) (malloc : Bool) (cookie name : Option (List ℕ))
    → held_from none_held log ≡ h
    → held_from none_held (log ++ (buffer_effect malloc cookie ++ taken_effect name))
      ≡ record h { memory = h.memory + owned name }
requested-held h log malloc cookie name e =
    held_from-append none_held log (buffer_effect malloc cookie ++ taken_effect name)
    ∙ ap (λ x. held_from x (buffer_effect malloc cookie ++ taken_effect name)) e
    ∙ request-held h malloc cookie name

fetch_ifname-IsBalanced :
    (net : Network) (buf : List ℕ) (len : ℕ) (c : UdpCtrl) (log : List NetEffect) (w : World)
    → c.remote_ifname ≡ none
    → IsOpen c log
    → Post (λ o u. IsBalanced o) (fetch_ifname net buf len c log w)
unfolding fetch_ifname
fetch_ifname-IsBalanced net buf len c log w unnamed h =
    Post->>= (λ r u. Unit) (λ o u. IsBalanced o)
      (request_udp (net.malloc_cmd ifname) c ifname buf len none) _ w
      (request_udp-Ends (net.malloc_cmd ifname) c ifname buf len w)
      (λ r u x.
        let name : Option (List ℕ) = (take_name net.strdup_ifname buf len r).2 in
        IsOpen-IsBalanced (record c { remote_ifname = name })
          (log ++ (buffer_effect (net.malloc_cmd ifname) c.cookie ++ taken_effect name))
          (
            h.0,
            requested-held (of_ctrl c) log (net.malloc_cmd ifname) c.cookie name (h.1)
                ∙ ap (λ n. record (of_ctrl c) { memory = n }) (counted name),
          ))
  where
    counted :
        (name : Option (List ℕ))
        → (of_ctrl c).memory + owned name ≡ (of_ctrl (record c { remote_ifname = name })).memory
    counted name = rw unnamed (omega arith)

fetch_names-IsBalanced :
    (net : Network) (buf : List ℕ) (c : UdpCtrl) (log : List NetEffect) (w : World)
    → c.cookie ≡ none
    → c.remote_ifname ≡ none
    → IsOpen c log
    → Post (λ o u. IsBalanced o) (fetch_names net buf c log w)
unfolding fetch_names
fetch_names-IsBalanced net buf c log w plain unnamed h =
    Post->>= (λ r u. Unit) (λ o u. IsBalanced o)
      (request_udp (net.malloc_cmd get_cookie) c get_cookie buf 127 none) _ w
      (request_udp-Ends (net.malloc_cmd get_cookie) c get_cookie buf 127 w)
      (λ r u x.
        let (b, len, cookie) = take_name net.strdup_cookie buf 127 r in
        fetch_ifname-IsBalanced net b len (record c { cookie = cookie })
          (log ++ (buffer_effect (net.malloc_cmd get_cookie) c.cookie ++ taken_effect cookie)) u
          unnamed
          (
            h.0,
            requested-held (of_ctrl c) log (net.malloc_cmd get_cookie) c.cookie cookie (h.1)
                ∙ ap (λ n. record (of_ctrl c) { memory = n }) (counted cookie),
          ))
  where
    counted :
        (cookie : Option (List ℕ))
        → (of_ctrl c).memory + owned cookie ≡ (of_ctrl (record c { cookie = cookie })).memory
    counted cookie = rw plain (omega arith)

abbrev Fresh : List NetEffect → Option UdpCtrl → Type 0
Fresh log none = ⊥
Fresh log (some c) = (c.cookie ≡ none) × (c.remote_ifname ≡ none) × IsOpen c log

-- Whatever the system, the resolver and the supplicant do, `wpa_ctrl_open` over UDP ends or waits for
-- the kernel in one of its two requests; when it ends, it has failed and released all that it acquired,
-- nothing of it twice, or it gives a connection that holds its memory, its socket and those of its
-- strings that are not NULL, the cookie and the interface name among them, and `wpa_ctrl_close` gives
-- all of that back, nothing of it twice. The connection goes to 127.0.0.1, whatever host `ctrl_path`
-- names and the resolver answers.
pub open_udp-IsBalanced :
    (remote : Bool) (net : Network) (buf : List ℕ) (ctrl_path : Option (List ℕ)) (w : World)
    → Post (λ o u. IsBalanced o) (open_udp remote net buf ctrl_path w)
unfolding open_udp after_dial
open_udp-IsBalanced remote net buf ctrl_path w =
    let (ctrl, log) = dial_udp remote net ctrl_path in
    go ctrl log (dial_udp-IsDialed remote net ctrl_path)
  where
    go :
        (ctrl : Option UdpCtrl) (log : List NetEffect)
        → IsDialed (ctrl, log)
        → Post (λ o u. IsBalanced o) (after_dial net buf ctrl log w)
    go none log (inl h) = inl h
    go none log (inr (c, e, plain, unnamed, is_open)) = ground arith
    go (some c) log (inl h) = ground arith
    go (some c) log (inr (d, e, rest0, rest1, rest2)) =
        let (plain, unnamed, is_open) = subst (Fresh log) (sym e) (rest0, rest1, rest2) in
        fetch_names-IsBalanced net buf c log w plain unnamed is_open
