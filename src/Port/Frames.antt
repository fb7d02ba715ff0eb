-- ===== src/Port/Frames.antt =====
-- The messages of a byte stream with two-byte length prefixes, described through the encoder: what
-- `try_dispatch` and `process_erl` of src/wpa_ex.c are to find in the bytes from Erlang.
use wpa_supplicant_ex.Shared.{
  ℕ, zero, suc, ◌+◌, ◌*◌, ◌/◌, ◌%◌, ◌≤◌, ◌<◌, ◌≡◌, refl, sym, ap, ap₂, ◌∙◌, subst, ◌⊎◌, inl, inr,
  List, [], ◌∷◌, ◌++◌, append_assoc, append-nil, arith, length, take, drop, length-append,
  length-take, length-drop, take-append-drop, take-all, drop-all, take-append, drop-append,
}
use native.Mathlib.Decide.{dec_lt}
use wpa_supplicant_ex.Port.{buffer_size, msglen, frame}

-- The stream of these messages.
unfoldable pub encode : List (List ℕ) → List ℕ
encode [] = []
encode (m ∷ ms) = frame m ++ encode ms

-- A prefix that announces more than the buffer holds.
abbrev pub IsTooLong : List ℕ → Type 0
IsTooLong s = (2 ≤ length s) × (buffer_size < msglen s + 2)

-- The beginning of a message that fits the buffer, not all of it there yet.
abbrev pub IsPartial : List ℕ → Type 0
IsPartial s = (length s < 2) ⊎ ((msglen s + 2 ≤ buffer_size) × (length s < msglen s + 2))

pub data Ending : Type 0 where
  incomplete : List ℕ → Ending
  too_long : Ending

-- `Parse s ms e`: the stream `s` is the messages `ms`, and behind them `e`.
pub data Parse : List ℕ → List (List ℕ) → Ending → Type 0 where
  stop : {s : List ℕ} → IsPartial s → Parse s [] (incomplete s)
  refuse : {s : List ℕ} → IsTooLong s → Parse s [] too_long
  next :
      {s t : List ℕ} {ms : List (List ℕ)} {e : Ending} (m : List ℕ)
      → length m + 2 ≤ buffer_size
      → s ≡ frame m ++ t
      → Parse t ms e
      → Parse s (m ∷ ms) e

pub msglen-frame : (m t : List ℕ) → length m + 2 ≤ buffer_size → msglen (frame m ++ t) ≡ length m
msglen-frame m t h = omega arith

pub length-frame : (m t : List ℕ) → length (frame m ++ t) ≡ length m + 2 + length t
length-frame m t = omega (arith, length-append m t)

pub drop-frame : (m t : List ℕ) → drop (length m + 2) (frame m ++ t) ≡ t
drop-frame m t = rw two (
    drop-append (length m) m t (omega arith)
    ∙ ap (λ u. u ++ t) (drop-all (length m) m (omega arith)))
  where
    two : length m + 2 ≡ suc (suc (length m))
    two = omega arith

pub message-frame : (m t : List ℕ) → take (length m) (drop 2 (frame m ++ t)) ≡ m
message-frame m t = take-append (length m) m t (omega arith) ∙ take-all (length m) m (omega arith)

-- What is parsed from a part of a stream, and then from the rest behind what was left over, is
-- parsed from the whole.
pub Parse-append :
    {a r : List ℕ} {ms ns : List (List ℕ)} {e : Ending} (b : List ℕ)
    → Parse a ms (incomplete r)
    → Parse (r ++ b) ns e
    → Parse (a ++ b) (ms ++ ns) e
Parse-append b (stop h) q = q
Parse-append b (next {t} m fits eq p) q =
    next m fits (ap (λ u. u ++ b) eq ∙ append_assoc (frame m) t b) (Parse-append b p q)

unfoldable pub AllFit : List (List ℕ) → Type 0
AllFit [] = Unit
AllFit (m ∷ ms) = (length m + 2 ≤ buffer_size) × AllFit ms

-- The encoder's stream parses to its messages, with nothing left over.
pub encode-Parse : (ms : List (List ℕ)) → AllFit ms → Parse (encode ms) ms (incomplete [])
unfolding encode AllFit
encode-Parse [] h = stop (inl (omega arith))
encode-Parse (m ∷ ms) h = next m h.0 refl (encode-Parse ms h.1)

pub length-zero : {A : Type 0} (xs : List A) → length xs ≡ 0 → xs ≡ []
length-zero [] h = refl
length-zero (x ∷ xs) h = absurd (omega arith)

-- The first message of a stream is determined.
frame-injective :
    (m n s t : List ℕ)
    → length m + 2 ≤ buffer_size
    → length n + 2 ≤ buffer_size
    → frame m ++ s ≡ frame n ++ t
    → (m ≡ n) × (s ≡ t)
frame-injective m n s t hm hn e = (
  sym (message-frame m s) ∙ ap₂ (λ k u. take k (drop 2 u)) same e ∙ message-frame n t,
  sym (drop-frame m s) ∙ ap₂ (λ k u. drop (k + 2) u) same e ∙ drop-frame n t,
)
  where
    same : length m ≡ length n
    same = sym (msglen-frame m s hm) ∙ ap msglen e ∙ msglen-frame n t hn

frame-not-partial :
    (m s t : List ℕ) → length m + 2 ≤ buffer_size → s ≡ frame m ++ t → IsPartial s → ⊥
frame-not-partial m s t h e (inl short) = omega (arith, ap length e)
frame-not-partial m s t h e (inr more) =
    omega (arith, ap length e, length-frame m t, ap msglen e, msglen-frame m t h)

frame-not-too-long :
    (m s t : List ℕ) → length m + 2 ≤ buffer_size → s ≡ frame m ++ t → IsTooLong s → ⊥
frame-not-too-long m s t h e long = omega (arith, ap msglen e, msglen-frame m t h)

-- A stream has one parse at most.
pub Parse-unique :
    {s : List ℕ} {ms ns : List (List ℕ)} {d e : Ending}
    → Parse s ms d
    → Parse s ns e
    → (ms ≡ ns) × (d ≡ e)
Parse-unique (stop h) (stop k) = (refl, refl)
Parse-unique (stop h) (refuse k) = absurd (omega arith)
Parse-unique (stop h) (next n fits eq q) = absurd (frame-not-partial n _ _ fits eq h)
Parse-unique (refuse h) (stop k) = absurd (omega arith)
Parse-unique (refuse h) (refuse k) = (refl, refl)
Parse-unique (refuse h) (next n fits eq q) = absurd (frame-not-too-long n _ _ fits eq h)
Parse-unique (next m fits eq p) (stop k) = absurd (frame-not-partial m _ _ fits eq k)
Parse-unique (next m fits eq p) (refuse k) = absurd (frame-not-too-long m _ _ fits eq k)
Parse-unique (next {t} m fits eq p) (next {t = u} {ms = ns} {e = d} n fits' eq' q) =
    let same = frame-injective m n t u fits fits' (sym eq ∙ eq') in
    let rest = Parse-unique p (subst (λ v. Parse v ns d) (sym same.1) q) in
    (ap₂ ◌∷◌ same.0 rest.0, rest.1)

unfoldable pub AllBytes : List ℕ → Type 0
AllBytes [] = Unit
AllBytes (x ∷ xs) = (x < 256) × AllBytes xs

drop-AllBytes : (n : ℕ) (xs : List ℕ) → AllBytes xs → AllBytes (drop n xs)
unfolding AllBytes
drop-AllBytes zero xs h = h
drop-AllBytes (suc n) [] h = h
drop-AllBytes (suc n) (x ∷ xs) h = drop-AllBytes n xs h.1

-- The prefix of a stream of bytes is the encoder's, for the message that it announces.
first-frame :
    (s : List ℕ)
    → AllBytes s
    → 2 ≤ length s
    → msglen s + 2 ≤ length s
    → msglen s + 2 ≤ buffer_size
    → s ≡ frame (take (msglen s) (drop 2 s)) ++ drop (msglen s + 2) s
first-frame [] b two enough fits = absurd (omega arith)
first-frame (x ∷ []) b two enough fits = absurd (omega arith)
first-frame (x ∷ y ∷ s) b two enough fits =
    rw (counted, hi, lo, shifted) (ap (λ u. x ∷ y ∷ u) (sym (take-append-drop n s)))
  where
    n : ℕ
    n = x * 256 + y

    small : (x < 256) × (y < 256)
    small = unfold AllBytes in (b.0, b.1.0)

    counted : length (take n s) ≡ n
    counted = omega (arith, length-take n s)

    hi : n % 65536 / 256 ≡ x
    hi = omega (arith, small)

    lo : n % 256 ≡ y
    lo = omega (arith, small)

    shifted : drop (n + 2) (x ∷ y ∷ s) ≡ drop n s
    shifted = ap (λ k. drop k (x ∷ y ∷ s)) two_more
      where
        two_more : n + 2 ≡ suc (suc n)
        two_more = omega arith

-- What is left of a stream that is read to its end.
Parsed : List ℕ → Type 0
Parsed s = (ms : List (List ℕ)) × (e : Ending) × Parse s ms e

parse-within : (k : ℕ) (s : List ℕ) → length s < k → AllBytes s → Parsed s
unfolding Parsed
parse-within zero s h b = elim h [ ]
parse-within (suc k) s h b = elim (dec_lt (length s) 2) [
  | yes short ↦ ([], incomplete s, stop (inl short))
  | no two ↦ elim (dec_lt buffer_size (msglen s + 2)) [
    | yes long ↦ ([], too_long, refuse (omega arith, long))
    | no fits ↦ elim (dec_lt (length s) (msglen s + 2)) [
      | yes more ↦ ([], incomplete s, stop (inr (omega arith, more)))
      | no all ↦
          let n : ℕ = msglen s in
          let rest = drop (n + 2) s in
          let m = take n (drop 2 s) in
          let r : Parsed rest =
            parse-within k rest (omega (arith, length-drop (n + 2) s))
              (drop-AllBytes (n + 2) s b) in
          (
            m ∷ r.0,
            r.1,
            next m (omega (arith, length-take n (drop 2 s)))
                (first-frame s b (omega arith) (omega arith) (omega arith)) r.2,
          )
    ]
  ]
]

-- Every stream of bytes has a parse.
pub Parse-total : (s : List ℕ) → AllBytes s → (ms : List (List ℕ)) × (e : Ending) × Parse s ms e
unfolding Parsed
Parse-total s b = parse-within (suc (length s)) s (omega arith) b

pub encode-append : (ms ns : List (List ℕ)) → encode (ms ++ ns) ≡ encode ms ++ encode ns
unfolding encode
encode-append [] ns = refl
encode-append (m ∷ ms) ns =
    ap (λ s. frame m ++ s) (encode-append ms ns)
    ∙ sym (append_assoc (frame m) (encode ms) (encode ns))

pub encode-snoc : (ms : List (List ℕ)) (m : List ℕ) → encode (ms ++ (m ∷ [])) ≡ encode ms ++ frame m
unfolding encode
encode-snoc ms m = encode-append ms (m ∷ []) ∙ ap (λ s. encode ms ++ s) (append-nil (frame m))
