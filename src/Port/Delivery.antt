-- ===== src/Port/Delivery.antt =====
-- `process_erl` (src/wpa_ex.c): a read and the messages that it completes, and the whole stream from
-- Erlang, whatever pieces the pipe gives it in.
use wpa_supplicant_ex.Shared.{
  ℕ, ◌+◌, min, ◌-◌, ◌≤◌, ◌<◌, ◌≡◌, refl, sym, ap, ◌∙◌, subst, inl, List, [], ◌∷◌, ◌++◌,
  append_assoc, append-nil, arith, flatten, length, take, drop, put_at, length-take, length-put_at,
  take-put_at,
}
use mathlib.Core.Path.{subst₂}
use wpa_supplicant_ex.Kernel.{World, K, returned, ◌>>=◌, bind-at, return, bytes, ReadAnswer}
use wpa_supplicant_ex.Kernel.Calls
use wpa_supplicant_ex.Kernel.Calls.{unread}
use wpa_supplicant_ex.Api.{CtrlApi}
use wpa_supplicant_ex.Port.{
  Port, buffer_size, receive, process_erl, after_read, dispatch_fuel, fresh_port,
}
use wpa_supplicant_ex.Port.Frames.{
  IsPartial, Ending, incomplete, Parse, stop, next, Parse-append, Parse-unique, encode, AllFit,
  encode-Parse,
}
use wpa_supplicant_ex.Port.Dispatch.{
  contents, IsWithin, HasRoom, Refines, serve, dispatch_loop-serve, length-contents,
}
use wpa_supplicant_ex.Port.Serving.{serve-append, serve-pending, Refines->>=}

-- The bytes that a read has put behind the pending ones.
abbrev extended : Port → List ℕ → Port
extended p xs = record p {
  erl_buffer_ix = p.erl_buffer_ix + length xs;
  erl_buffer = put_at p.erl_buffer_ix xs p.erl_buffer;
}

module _ (p : Port) (xs : List ℕ) (v : HasRoom p)
    (fits : p.erl_buffer_ix + length xs ≤ buffer_size) where
  extended-IsWithin : IsWithin (extended p xs)
  extended-IsWithin = record {
    sized = length-put_at p.erl_buffer_ix xs p.erl_buffer ∙ v.sized;
    below = fits;
  }

  contents-extended : contents (extended p xs) ≡ contents p ++ xs
  contents-extended = take-put_at p.erl_buffer_ix xs p.erl_buffer _ refl (omega (arith, v.sized))

module _ (api : CtrlApi) where
  -- Bytes that a read puts behind the pending ones are served as the messages of both together.
  pub receive-serve :
      (p : Port) (xs : List ℕ) {ms : List (List ℕ)} {e : Ending} (w : World)
      → HasRoom p
      → p.erl_buffer_ix + length xs ≤ buffer_size
      → Parse (contents p ++ xs) ms e
      → Refines (receive api p xs w) (serve api ms e p.wpa_buffer w)
  unfolding receive
  receive-serve p xs w v fits parse =
      dispatch_loop-serve api dispatch_fuel (extended p xs) w (extended-IsWithin p xs v fits)
        (contents-extended p xs v fits) (omega arith) parse

  after_read-bytes :
      (p : Port) (ys : List ℕ) (w : World)
      → 0 < length ys
      → after_read api p (bytes ys) w ≡ receive api p ys w
  unfolding after_read
  after_read-bytes p [] w h = elim h [ ]
  after_read-bytes p (y ∷ ys) w h = refl

  -- One call of `process_erl` when the pipe holds bytes, with room in the buffer: it takes as many
  -- as there is room for, leaves the others in the pipe, and serves the messages that are complete;
  -- the rest of the stream waits in the buffer, with room for one byte at least.
  pub process_erl-serve :
      (p : Port) (x : ℕ) (xs : List ℕ) (later : List ReadAnswer) {ms : List (List ℕ)} {e : Ending}
      (w : World)
      → HasRoom p
      → w.reads ≡ bytes (x ∷ xs) ∷ later
      → Parse (contents p ++ take (buffer_size - p.erl_buffer_ix) (x ∷ xs)) ms e
      → Refines (process_erl api p w) (
          serve api ms e p.wpa_buffer
            (record w { reads = unread (drop (buffer_size - p.erl_buffer_ix) (x ∷ xs)) later }))
  unfolding process_erl
  process_erl-serve p x xs later {ms} {e} w v reads parse =
      subst
        (λ o.
          Refines o
            (serve api ms e p.wpa_buffer (record w { reads = unread (drop room (x ∷ xs)) later })))
        (sym (
          bind-at (Calls.read room) (after_read api p) w
            (Calls.read-bytes room x xs later w (omega (arith, v.below)) reads)
          ∙ after_read-bytes p (take room (x ∷ xs)) _ (omega (arith, counted, v.below))))
        (receive-serve p (take room (x ∷ xs)) _ v (omega (arith, counted, v.below)) parse)
    where
      room : ℕ
      room = buffer_size - p.erl_buffer_ix

      counted : length (take room (x ∷ xs)) ≡ min room (length (x ∷ xs))
      counted = length-take room (x ∷ xs)

  -- Successive reads that returned these pieces.
  pub receive_all : List (List ℕ) → Port → K Port
  receive_all [] p = return p
  receive_all (c ∷ cs) p = receive api p c >>= receive_all cs

-- `Delivered r cs ms r'`: with `r` pending, the pieces `cs` fit the buffer as they come and complete
-- the messages `ms`, and then `r'` is pending.
pub data Delivered : List ℕ → List (List ℕ) → List (List ℕ) → List ℕ → Type 0 where
  nothing : {r : List ℕ} → Delivered r [] [] r
  piece :
      {r r' r'' : List ℕ} {cs ms ns all : List (List ℕ)} (c : List ℕ)
      → length r + length c ≤ buffer_size
      → Parse (r ++ c) ms (incomplete r')
      → Delivered r' cs ns r''
      → all ≡ ms ++ ns
      → Delivered r (c ∷ cs) all r''

Parse-IsPartial : {s r : List ℕ} {ms : List (List ℕ)} → Parse s ms (incomplete r) → IsPartial r
Parse-IsPartial (stop h) = h
Parse-IsPartial (next m fits eq p) = Parse-IsPartial p

-- How a stream is cut into pieces does not change its messages.
pub Delivered-Parse :
    {r r' : List ℕ} {cs ms : List (List ℕ)}
    → Delivered r cs ms r'
    → IsPartial r
    → Parse (r ++ flatten cs) ms (incomplete r')
unfolding mathlib.Core.List.flatten
Delivered-Parse nothing p = rw append-nil (stop p)
Delivered-Parse (piece {r} {cs = cs} c fits parse rest all) p =
    rw (all, ← append_assoc)
      (Parse-append (flatten cs) parse (Delivered-Parse rest (Parse-IsPartial parse)))

module _ (api : CtrlApi) where
  -- Pieces that are read one after the other are served as the messages that they complete, each
  -- once and in order, whatever the control interface answers; what is left over stays pending.
  pub receive_all-serve :
      (p : Port) {r r' : List ℕ} {cs ms : List (List ℕ)} (w : World)
      → HasRoom p
      → contents p ≡ r
      → Delivered r cs ms r'
      → Refines (receive_all api cs p w) (serve api ms (incomplete r') p.wpa_buffer w)
  unfolding receive_all
  receive_all-serve p w v c nothing = (
    v,
    (unfold serve in
        ap (λ r. returned (record { pending = r; wpa_buffer = p.wpa_buffer }) w) (sym c)),
  )
  receive_all-serve p {r} {r'} w v c
        (piece {r' = s} {cs = cs} {ms = ms} {ns = ns} x fits parse rest all) =
      rw (all, serve-append api ms ns s (incomplete r') p.wpa_buffer w)
        (Refines->>= api (receive api p x w) (serve api ms (incomplete s) p.wpa_buffer w)
          (receive_all api cs) (λ u. serve api ns (incomplete r') u.wpa_buffer) w
          (receive-serve api p x w v (omega (arith, ap length c, length-contents api p inside))
            (rw c parse))
          λ q w' room e. receive_all-serve q w' room (serve-pending api ms s p.wpa_buffer w e) rest)
    where
      inside : IsWithin p
      inside = record { sized = v.sized; below = omega (arith, v.below) }

  -- The encoded messages `ns`, each fitting the buffer, read in any pieces that fit it as they come,
  -- are served each once and in order, whatever the control interface answers, and nothing stays
  -- pending when they have all been served.
  pub stream-serve :
      {r : List ℕ} {cs ms : List (List ℕ)} (ns : List (List ℕ)) (w : World)
      → Delivered [] cs ms r
      → AllFit ns
      → flatten cs ≡ encode ns
      → Refines
          (receive_all api cs fresh_port w)
          (serve api ns (incomplete []) fresh_port.wpa_buffer w)
  stream-serve {r} {cs} {ms} ns w d fit e =
      subst₂ goal same.0 same.1
        (receive_all-serve fresh_port w (record { sized = refl; below = omega arith }) refl d)
    where
      same : (ms ≡ ns) × (incomplete r ≡ incomplete [])
      same = Parse-unique (Delivered-Parse d (inl (omega arith))) (rw e (encode-Parse ns fit))

      goal : List (List ℕ) → Ending → Type 0
      goal xs x = Refines (receive_all api cs fresh_port w) (serve api xs x fresh_port.wpa_buffer w)
