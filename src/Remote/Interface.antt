-- ===== src/Remote/Interface.antt =====
-- The cookie and the interface name that `wpa_ctrl_open` asks for over UDP.
use wpa_supplicant_ex.Shared.{
  ℕ, ◌≤◌, ◌<◌, ◌≡◌, refl, ap, ap₂, ◌∙◌, List, [], ◌∷◌, ◌++◌, Option, none, some, true, arith, ◌==◌,
  if◌then◌else◌, length, take, set, overwrite, take-all, length-take, length-set, length-overwrite,
  append_assoc,
}
use wpa_supplicant_ex.Kernel.{
  World, returned, ◌>>=◌, return, bind-at, SendAnswer, sent, SelectAnswer, ready, RecvAnswer,
  datagram,
}
use wpa_supplicant_ex.Api.{replied}
use wpa_supplicant_ex.Ctrl.{wpa_ctrl_request}
use wpa_supplicant_ex.Ctrl.Exchange.{IsEvent, cut, reply_loop-reply, wpa_ctrl_request-sent}
use wpa_supplicant_ex.Strings.{c_string}
use wpa_supplicant_ex.Remote.{
  Network, NetEffect, allocate, release, buffer_effect, taken_effect, fetch_ifname, Endpoint,
  UdpCtrl, take_name, fetch_names, request_udp, with_cookie, get_cookie, ifname,
}
use wpa_supplicant_ex.Remote.Names.{with_cookie_lem}

-- The string in an array, where a reply has been copied and ended.
pub c_string-ended :
    (xs buf : List ℕ)
    → length xs < length buf
    → c_string (set (overwrite xs buf) (length xs) 0) ≡ c_string xs
c_string-ended [] [] h = absurd (omega arith)
c_string-ended [] (y ∷ buf) h = refl
c_string-ended (x ∷ xs) [] h = absurd (omega arith)
c_string-ended (x ∷ xs) (y ∷ buf) h =
    ap (λ r. if x == 0 then [] else (x ∷ r)) (c_string-ended xs buf (omega arith))

request_answered :
    (cmd buf d : List ℕ) (limit : ℕ) (sl : List SendAnswer) (sel : List SelectAnswer)
    (rl : List RecvAnswer) (w : World)
    → 0 < limit
    → limit ≤ length buf
    → ¬ IsEvent d
    → w.sends ≡ sent ∷ sl
    → w.selects ≡ ready ∷ sel
    → w.recvs ≡ datagram d ∷ rl
    → wpa_ctrl_request cmd buf limit none w
      ≡ returned
          (replied (overwrite (take limit d) buf) (length (take limit d)))
          (record w { sends = sl; selects = sel; recvs = rl; commands = w.commands ++ (cmd ∷ []) })
unfolding cut
request_answered cmd buf d limit sl sel rl w pos fits reply sends selects recvs =
    wpa_ctrl_request-sent cmd buf limit none sl (ready ∷ sel) w sends selects
    ∙ reply_loop-reply limit buf d pos fits none sel rl
        (record w { sends = sl; commands = w.commands ++ (cmd ∷ []) }) reply recvs

module _ (net : Network) (dest : Endpoint) (ip : Option (List ℕ)) (buf c d : List ℕ)
    (log : List NetEffect) where
  -- When there is memory for both names and for the command behind the cookie, and both requests are
  -- answered at once, the cookie by `c` of one to 127 bytes and the interface name by `d`, neither of
  -- them an event: both come back as strings, but of the name no more bytes than the cookie had, as
  -- `len` is not set again between the requests. The second request goes behind the cookie; its buffer is
  -- allocated and released, and the two strings are allocated.
  pub fetch_names-cuts :
      (sl : List SendAnswer) (sel : List SelectAnswer) (rl : List RecvAnswer) (w : World)
      → net.strdup_cookie ≡ true
      → net.strdup_ifname ≡ true
      → net.malloc_cmd ifname ≡ true
      → length buf ≡ 128
      → 0 < length c
      → length c < 128
      → ¬ IsEvent c
      → ¬ IsEvent d
      → w.sends ≡ sent ∷ sent ∷ sl
      → w.selects ≡ ready ∷ ready ∷ sel
      → w.recvs ≡ datagram c ∷ datagram d ∷ rl
      → fetch_names net buf
          (record { dest = dest; cookie = none; remote_ifname = none; remote_ip = ip })
          log
          w
        ≡ returned
            (
              some (record {
                dest = dest;
                cookie = some (c_string c);
                remote_ifname = some (c_string (take (length c) d));
                remote_ip = ip;
              }),
              (log ++ (allocate ∷ [])) ++ (allocate ∷ release ∷ allocate ∷ []),
            )
            (record w {
              sends = sl;
              selects = sel;
              recvs = rl;
              commands = w.commands ++ (get_cookie ∷ (c_string c ++ (b' ' ∷ ifname)) ∷ []);
            })
  unfolding fetch_names fetch_ifname request_udp take_name
  fetch_names-cuts sl sel rl w dup_c dup_n room sized some_byte short cookie name sends selects
        recvs =
      rw (dup_c, dup_n, room)
        (bind-at (wpa_ctrl_request get_cookie buf 127 none) _ w (
            request_answered get_cookie buf c 127 (sent ∷ sl) (ready ∷ sel) (datagram d ∷ rl) w
              (omega arith) (omega (arith, sized)) cookie sends selects recvs
            ∙ ap (λ s. returned (replied (overwrite s buf) (length s)) told)
                (take-all 127 c (omega arith)))
          ∙ ap
              (λ ck.
                (wpa_ctrl_request (with_cookie (some ck) ifname) kept (length c) none >>= λ q.
                return (named (some ck) (take_name true kept (length c) q).2))
                  told)
              (c_string-ended c buf (omega (arith, sized)))
          ∙ bind-at (wpa_ctrl_request (with_cookie (some (c_string c)) ifname) kept (length c) none)
              _ told
              (request_answered (with_cookie (some (c_string c)) ifname) kept d (length c) sl sel rl
                told some_byte (omega (arith, length-kept, sized)) name refl refl refl)
          ∙ ap₂
              (λ sent_now text.
                returned (named (some (c_string c)) (some text))
                  (record w { sends = sl; selects = sel; recvs = rl; commands = sent_now }))
              (append_assoc w.commands (get_cookie ∷ [])
                  (with_cookie (some (c_string c)) ifname ∷ [])
                ∙ ap (λ x. w.commands ++ (get_cookie ∷ x ∷ []))
                    (with_cookie_lem (c_string c) ifname))
              (c_string-ended (take (length c) d) kept
                (omega (arith, length-kept, sized, length-take (length c) d))))
    where
      told : World
      told = record w {
        sends = sent ∷ sl;
        selects = ready ∷ sel;
        recvs = datagram d ∷ rl;
        commands = w.commands ++ (get_cookie ∷ []);
      }

      kept : List ℕ
      kept = set (overwrite c buf) (length c) 0

      length-kept : length kept ≡ length buf
      length-kept = length-set (overwrite c buf) (length c) 0 ∙ length-overwrite c buf

      named : Option (List ℕ) → Option (List ℕ) → Option UdpCtrl × List NetEffect
      named ck text = (
        some (record { dest = dest; cookie = ck; remote_ifname = text; remote_ip = ip }),
        (log ++ (allocate ∷ [])) ++ (buffer_effect true ck ++ taken_effect text),
      )
