-- ===== src/Remote/Asking.antt =====
-- What the requests at the end of `wpa_ctrl_open` over UDP (src/wpa_ctrl/wpa_ctrl.c) send and take.
use wpa_supplicant_ex.Shared.{
  ℕ, ◌≡◌, refl, sym, ap, ◌∙◌, subst, ◌⊎◌, inl, inr, Bool, true, false, List, [], ◌∷◌, ◌++◌,
  append_assoc, append-nil, Option, none, some, arith, length, take, set, overwrite, length-take,
}
use wpa_supplicant_ex.Strings.{c_string}
use wpa_supplicant_ex.Kernel.{World}
use wpa_supplicant_ex.Kernel.Traffic.{Traffic, traffic, Leaves, Leaves->>=, Leaves-weaken}
use wpa_supplicant_ex.Api.{Reply, replied, failed}
use wpa_supplicant_ex.Api.Effects.{with_command, with_datagram}
use wpa_supplicant_ex.Ctrl.Quiet.{IsFilled, quiet_request-IsFilled}
use wpa_supplicant_ex.Remote.{
  Network, NetEffect, UdpCtrl, with_cookie, request_udp, take_name, fetch_ifname, fetch_names,
  after_dial, open_udp, dial_udp, get_cookie, ifname, dup_ip, buffer_effect, taken_effect,
}
use wpa_supplicant_ex.Remote.Requests.{request_udp-cases}
use wpa_supplicant_ex.Remote.Interface.{c_string-ended}
use wpa_supplicant_ex.Remote.Address.{IsDialed, dial_udp-IsDialed}

-- From `t` so many commands have gone out, and datagrams have been taken; nothing has been read or
-- written.
pub record Asks (asked : List (List ℕ)) (t u : Traffic) : Type 0 where
  pub dropped : List (List ℕ)
  pub taken : t.incoming ≡ dropped ++ u.incoming
  pub commands : u.commands ≡ t.commands ++ asked
  pub written : u.written ≡ t.written
  pub input : u.input ≡ t.input

-- A cookie is the string in the first 127 bytes of a datagram that came.
abbrev pub CookieOf : Traffic → Option (List ℕ) → Type 0
CookieOf t none = Unit
CookieOf t (some ck) =
    (before : List (List ℕ)) × (d : List ℕ) × (after : List (List ℕ)) × (t.incoming
      ≡ before ++ (d ∷ after))
    × (ck ≡ c_string (take 127 d))

-- `GET_COOKIE`, or nothing.
abbrev pub IsFirst : List (List ℕ) → Type 0
IsFirst first = (first ≡ []) ⊎ (first ≡ get_cookie ∷ [])

-- Opening has sent at most `GET_COOKIE` and then `IFNAME`, this behind the cookie.
abbrev pub IsOpening : Option (List ℕ) → Traffic → Traffic → Type 0
IsOpening ck t u =
    (first second : List (List ℕ)) × IsFirst first
    × ((second ≡ []) ⊎ (second ≡ with_cookie ck ifname ∷ []))
    × CookieOf t ck
    × Asks (first ++ second) t u

Asks-drops :
    (asked : List (List ℕ)) (t : Traffic) (d : List ℕ) (u : Traffic)
    → Asks asked t (with_datagram d u)
    → Asks asked t u
Asks-drops asked t d u h = record {
  dropped = h.dropped ++ (d ∷ []);
  taken = h.taken ∙ sym (append_assoc h.dropped (d ∷ []) u.incoming);
  commands = h.commands;
  written = h.written;
  input = h.input;
}

Asks-more :
    (asked : List (List ℕ)) (t u : Traffic) (cmd : List ℕ)
    → Asks asked t u
    → Asks (asked ++ (cmd ∷ [])) t (with_command cmd u)
Asks-more asked t u cmd h = record {
  dropped = h.dropped;
  taken = h.taken;
  commands = ap (λ x. x ++ (cmd ∷ [])) h.commands ∙ append_assoc t.commands asked (cmd ∷ []);
  written = h.written;
  input = h.input;
}

pub Asks-none : (t : Traffic) → Asks [] t t
Asks-none t = record {
  dropped = [];
  taken = refl;
  commands = sym (append-nil t.commands);
  written = refl;
  input = refl;
}

-- Behind the first request.
abbrev IsAsked : Option (List ℕ) → Traffic → Traffic → Type 0
IsAsked ck t u = (first : List (List ℕ)) × IsFirst first × CookieOf t ck × Asks first t u

IsAsked-IsOpening : (ck : Option (List ℕ)) (t u : Traffic) → IsAsked ck t u → IsOpening ck t u
IsAsked-IsOpening ck t u (first, one, from, asks) =
    (first, [], one, inl refl, from, subst (λ x. Asks x t u) (sym (append-nil first)) asks)

-- The end of opening, with a connection and without.
abbrev pub OpenEnds : Traffic → Option UdpCtrl × List NetEffect → Traffic → Type 0
OpenEnds t (none, log) u = u ≡ t
OpenEnds t (some c, log) u = IsOpening c.cookie t u

abbrev pub IsLeft : Traffic → Traffic → Type 0
IsLeft t u = (ck : Option (List ℕ)) × IsOpening ck t u

fetch_ifname-asks :
    (net : Network) (buf : List ℕ) (len : ℕ) (c : UdpCtrl) (log : List NetEffect) (t : Traffic)
    (w : World)
    → IsAsked c.cookie t (traffic w)
    → Leaves (OpenEnds t) (IsOpening c.cookie t) (fetch_ifname net buf len c log w)
unfolding fetch_ifname
fetch_ifname-asks net buf len c log t w (first, one, from, asks) =
    Leaves->>= (IsFilled (length buf) len I E stops drops) (OpenEnds t) E
      (request_udp (net.malloc_cmd ifname) c ifname buf len none) _ w
      (request_udp-cases (λ m. Leaves (IsFilled (length buf) len I E stops drops) E (m w))
        (net.malloc_cmd ifname) c ifname buf len none
        (quiet_request-IsFilled (length buf) len I E stops drops (with_cookie c.cookie ifname) buf w
          refl start (Asks-more first t (traffic w) (with_cookie c.cookie ifname) asks))
        start)
      ended
  where
    I : Traffic → Type 0
    I = Asks (first ++ (with_cookie c.cookie ifname ∷ [])) t

    E : Traffic → Type 0
    E = IsOpening c.cookie t

    stops : (u : Traffic) → I u → E u
    stops u h = (first, with_cookie c.cookie ifname ∷ [], one, inr refl, from, h)

    drops : (d : List ℕ) (u : Traffic) → I (with_datagram d u) → I u
    drops d u h = Asks-drops (first ++ (with_cookie c.cookie ifname ∷ [])) t d u h

    start : E (traffic w)
    start = IsAsked-IsOpening c.cookie t (traffic w) (first, one, from, asks)

    ended :
        (r : Reply) (u : World)
        → IsFilled (length buf) len I E stops drops r (traffic u)
        → E (traffic u)
    ended (failed e) u h = h
    ended (replied b n) u (d, b0, sized, filled, counted, h) =
        stops (traffic u) (drops d (traffic u) h)

fetch_names-asks :
    (net : Network) (buf : List ℕ) (c : UdpCtrl) (log : List NetEffect) (w : World)
    → length buf ≡ 128
    → c.cookie ≡ none
    → Leaves (OpenEnds (traffic w)) (IsLeft (traffic w)) (fetch_names net buf c log w)
unfolding fetch_names take_name
fetch_names-asks net buf c log w sized plain =
    Leaves->>= (IsFilled 128 127 I E stops drops) (OpenEnds t) (IsLeft t)
      (request_udp (net.malloc_cmd get_cookie) c get_cookie buf 127 none) _ w
      (Leaves-weaken (IsFilled 128 127 I E stops drops) (IsFilled 128 127 I E stops drops) E
        (IsLeft t) (request_udp (net.malloc_cmd get_cookie) c get_cookie buf 127 none w)
        (request_udp-cases (λ m. Leaves (IsFilled 128 127 I E stops drops) E (m w))
          (net.malloc_cmd get_cookie) c get_cookie buf 127 none
          (rw plain (
            unfold with_cookie in
            quiet_request-IsFilled 128 127 I E stops drops get_cookie buf w sized start
              (Asks-more [] t t get_cookie (Asks-none t))))
          start)
        (λ r u h. h) (λ u h. (none, IsAsked-IsOpening none t u h)))
      named
  where
    t : Traffic
    t = traffic w

    I : Traffic → Type 0
    I = Asks (get_cookie ∷ []) t

    E : Traffic → Type 0
    E = IsAsked none t

    stops : (u : Traffic) → I u → E u
    stops u h = (get_cookie ∷ [], inr refl, tt, h)

    drops : (d : List ℕ) (u : Traffic) → I (with_datagram d u) → I u
    drops d u h = Asks-drops (get_cookie ∷ []) t d u h

    start : E t
    start = ([], inl refl, tt, Asks-none t)

    -- The second request, behind what the first one has left.
    second :
        (b : List ℕ) (len : ℕ) (ck : Option (List ℕ)) (l : List NetEffect) (u : World)
        → IsAsked ck t (traffic u)
        → Leaves (OpenEnds t) (IsLeft t) (fetch_ifname net b len (record c { cookie = ck }) l u)
    second b len ck l u h =
        Leaves-weaken (OpenEnds t) (OpenEnds t) (IsOpening ck t) (IsLeft t)
          (fetch_ifname net b len (record c { cookie = ck }) l u)
          (fetch_ifname-asks net b len (record c { cookie = ck }) l t u h) (λ o v k. k)
          (λ v k. (ck, k))

    told :
        (ok : Bool) (d b : List ℕ) (u : Traffic)
        → length b ≡ 128
        → I (with_datagram d u)
        → IsAsked
            (dup_ip ok (c_string (set (overwrite (take 127 d) b) (length (take 127 d)) 0)))
            t
            u
    told false d b u fits h = stops u (drops d u h)
    told true d b u fits h = (
      get_cookie ∷ [],
      inr refl,
      (
        h.dropped,
        d,
        u.incoming,
        h.taken,
        c_string-ended (take 127 d) b (omega (arith, fits, length-take 127 d)),
      ),
      drops d u h,
    )

    named :
        (r : Reply) (u : World)
        → IsFilled 128 127 I E stops drops r (traffic u)
        → Leaves (OpenEnds t) (IsLeft t) (
            (let (b, len, cookie) = take_name net.strdup_cookie buf 127 r in
                fetch_ifname net b len
                  (record c { cookie = cookie })
                  (log
                    ++ (buffer_effect (net.malloc_cmd get_cookie) c.cookie ++ taken_effect cookie)))
              u)
    named (failed e) u h = second buf 127 none _ u h
    named (replied b n) u (d, b0, fits, filled, counted, h) =
        second (set b n 0) n (dup_ip net.strdup_cookie (c_string (set b n 0))) _ u
          (rw (filled, counted) (told net.strdup_cookie d b0 (traffic u) fits h))

abbrev Plain : Option UdpCtrl → Type 0
Plain none = Unit
Plain (some c) = c.cookie ≡ none

-- Opening over UDP.
pub open_udp-asks :
    (remote : Bool) (net : Network) (buf : List ℕ) (ctrl_path : Option (List ℕ)) (w : World)
    → length buf ≡ 128
    → Leaves (OpenEnds (traffic w)) (IsLeft (traffic w)) (open_udp remote net buf ctrl_path w)
unfolding open_udp after_dial
open_udp-asks remote net buf ctrl_path w sized =
    let (ctrl, log) = dial_udp remote net ctrl_path in
    go ctrl log (dial_udp-IsDialed remote net ctrl_path)
  where
    go :
        (ctrl : Option UdpCtrl) (log : List NetEffect)
        → IsDialed (ctrl, log)
        → Leaves (OpenEnds (traffic w)) (IsLeft (traffic w)) (after_dial net buf ctrl log w)
    go none log h = refl
    go (some c) log (inl h) = ground arith
    go (some c) log (inr (d, e, plain, unnamed, is_open)) =
        fetch_names-asks net buf c log w sized (subst Plain (sym e) plain)
