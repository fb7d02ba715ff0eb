-- ===== src/Buffer/Appending.antt =====
-- Putting data into a `struct wpabuf` (src/wpa_ctrl/wpabuf.h) appends it.
use wpa_supplicant_ex.Shared.{
  ℕ, ◌+◌, ◌-◌, ◌≤◌, ◌≡◌, refl, sym, ap, ◌∙◌, List, [], ◌∷◌, ◌++◌, Option, some, true, leb, arith,
  length, take, drop, put_at, length-take, length-drop, length-append, append_assoc, take-append,
  take-all,
}
use wpa_supplicant_ex.Buffer.{Wpabuf, Putting, store_at, wpabuf_put_data, wpabuf_tailroom}

-- The bytes in use.
abbrev pub contents : Wpabuf → List ℕ
contents b = take b.used b.buf

pub record IsWithin (b : Wpabuf) : Type 0 where
  pub sized : length b.buf ≡ b.size
  pub below : b.used ≤ b.size

pub wpabuf_tailroom-within : (b : Wpabuf) → b.used ≤ b.size → wpabuf_tailroom b ≡ b.size - b.used
unfolding wpabuf_tailroom
wpabuf_tailroom-within b h = let fits : leb b.used b.size ≡ true = ground arith in rw fits refl

-- With room for them, `wpabuf_put` takes the next bytes into use.
abbrev pub Reserves : Putting → Type 0
Reserves put =
    (b : Wpabuf) (n : ℕ)
    → IsWithin b
    → n ≤ wpabuf_tailroom b
    → put b n ≡ some (b.used, record b { used = b.used + n })

-- The bytes of `xs` stand behind the earlier ones, the buffer keeps its size, and the tail room is
-- less by as much.
abbrev pub Appended : Wpabuf → List ℕ → Option Wpabuf → Type 0
Appended b xs o =
    (b' : Wpabuf) × (o ≡ some b')
    × IsWithin b'
    × (contents b' ≡ contents b ++ xs)
    × (b'.size ≡ b.size)
    × (wpabuf_tailroom b' + length xs ≡ wpabuf_tailroom b)

overwrite_front : (xs a : List ℕ) → length xs ≤ length a → put_at 0 xs a ≡ xs ++ drop (length xs) a
overwrite_front [] a h = refl
overwrite_front (x ∷ xs) [] h = absurd (omega arith)
overwrite_front (x ∷ xs) (y ∷ a) h = ap (◌∷◌ x) (overwrite_front xs a (omega arith))

module _ (put : Putting) (reserves : Reserves put) (b : Wpabuf) (v : IsWithin b) where
  -- A store of the bytes `xs` at the place that `wpabuf_put` gives.
  pub store_at-Appended :
      (xs : List ℕ) (f : List ℕ → List ℕ)
      → length xs ≤ wpabuf_tailroom b
      → ((a : List ℕ) → length xs ≤ length a → f a ≡ xs ++ drop (length xs) a)
      → Appended b xs (store_at (put b (length xs)) f)
  unfolding store_at
  store_at-Appended xs f room stores = (
    record b { used = b.used + length xs; buf = whole },
    ap (λ o. store_at o f) (reserves b (length xs) v room),
    record {
      sized =
          ap length same
          ∙ omega (
            arith,
            length-append (contents b) (xs ++ later),
            length-append xs later,
            left,
            length-take b.used b.buf,
            v.sized,
            v.below,
            tail,
            room,
          );
      below = omega (arith, v.below, tail, room);
    },
    ap (take (b.used + length xs)) (same ∙ sym (append_assoc (contents b) xs later))
        ∙ take-append (b.used + length xs) (contents b ++ xs) later (omega (arith, counted))
        ∙ take-all (b.used + length xs) (contents b ++ xs) (omega (arith, counted)),
    refl,
    ap (λ n. n + length xs)
          (wpabuf_tailroom-within (record b { used = b.used + length xs; buf = whole })
            (omega (arith, v.below, tail, room)))
        ∙ omega (arith, v.below, tail, room),
  )
    where
      tail : wpabuf_tailroom b ≡ b.size - b.used
      tail = wpabuf_tailroom-within b v.below

      later : List ℕ
      later = drop (length xs) (drop b.used b.buf)

      whole : List ℕ
      whole = take b.used b.buf ++ f (drop b.used b.buf)

      left : length later ≡ length b.buf - b.used - length xs
      left = omega (arith, length-drop (length xs) (drop b.used b.buf), length-drop b.used b.buf)

      same : whole ≡ contents b ++ (xs ++ later)
      same =
          ap (λ u. contents b ++ u)
            (stores (drop b.used b.buf)
              (omega (arith, length-drop b.used b.buf, v.sized, v.below, tail, room)))

      counted : length (contents b ++ xs) ≡ b.used + length xs
      counted =
          omega (arith, length-append (contents b) xs, length-take b.used b.buf, v.sized, v.below)

  -- Data for which there is room is appended.
  pub wpabuf_put_data-Appended :
      (xs : List ℕ)
      → length xs ≤ wpabuf_tailroom b
      → Appended b xs (wpabuf_put_data put b (some xs))
  unfolding wpabuf_put_data
  wpabuf_put_data-Appended xs room = store_at-Appended xs (put_at 0 xs) room (overwrite_front xs)
