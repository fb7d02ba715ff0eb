-- ===== src/Memory/Arrays.antt =====
-- What a new block holds (src/wpa_ctrl/os_unix.c), and the array allocation of src/wpa_ctrl/os.h.
use wpa_supplicant_ex.Shared.{
  ℕ, zero, suc, ◌+◌, ◌-◌, ◌%◌, ◌^◌, ◌≡◌, ◌≤◌, ◌<◌, ◌*◌, ◌/◌, refl, sym, ap, ◌∙◌, subst, Bool, true,
  false, not, ◌&&◌, ◌==◌, if◌then◌else◌, List, [], ◌∷◌, ◌++◌, Option, none, some, arith, inl, inr,
  Bool-cases, ltb→le, ltb→lt, length, length-put_at, ltb, put_at, length-replicate, replicate,
  overwrite,
}
use native.Mathlib.Nat.{mul-le-mul_right, div-mul-le_self}
use native.Mathlib.Omega.{div_fact, mod_fact}
use wpa_supplicant_ex.Memory.{
  Block, DlList, Memory, done, alloc_magic, lookup, written, insert, stored, log, store, os_malloc,
  os_realloc, asked, zeroed, os_zalloc, copied, os_strdup, M, give,
}
use wpa_supplicant_ex.Memory.Blocks.{lookup-update}
use wpa_supplicant_ex.Memory.Calls.{then-at, store-fits, malloc-given, lookup-insert}

abbrev pub size_max : ℕ
size_max = 2 ^ 64 - 1

-- `size && nmemb > (~(size_t) 0) / size`
pub is_too_many : ℕ → ℕ → Bool
is_too_many nmemb size = not (size == 0) && ltb (size_max / size) nmemb

module _ (d : DlList) (header_size : ℕ) where
  pub os_calloc : ℕ → ℕ → M d header_size (Option ℕ)
  unfolding is_too_many os_zalloc
  os_calloc nmemb size =
      if is_too_many nmemb size
      then give d header_size none
      else os_zalloc d header_size (nmemb * size % 2 ^ 64)

  pub os_realloc_array : Option ℕ → ℕ → ℕ → M d header_size (Option ℕ)
  unfolding is_too_many os_realloc
  os_realloc_array ptr nmemb size =
      if is_too_many nmemb size
      then give d header_size none
      else os_realloc d header_size ptr (nmemb * size % 2 ^ 64)

is_too_many_past : (nmemb size : ℕ) → 2 ^ 64 ≤ nmemb * size → is_too_many nmemb size ≡ true
unfolding is_too_many
is_too_many_past nmemb zero over = absurd (omega arith)
is_too_many_past nmemb (suc k) over = elim (Bool-cases (ltb (size_max / suc k) nmemb)) [
  | inl past ↦ rw past ground arith
  | inr within ↦ absurd (
      omega (
        arith,
        over,
        mul-le-mul_right (suc k) (ltb→le _ _ within),
        div-mul-le_self size_max (suc k),
      ))
]

is_too_many_within : (nmemb size : ℕ) → nmemb * size < 2 ^ 64 → is_too_many nmemb size ≡ false
unfolding is_too_many
is_too_many_within nmemb zero fits = refl
is_too_many_within nmemb (suc k) fits = elim (Bool-cases (ltb (size_max / suc k) nmemb)) [
  | inr within ↦ rw within ground arith
  | inl past ↦ absurd (
      omega (
        arith,
        fits,
        mul-le-mul_right (suc k) (ltb→lt _ _ past),
        div_fact size_max k,
        mod_fact size_max k,
      ))
]

overwrite-all : (xs buf : List ℕ) → length buf ≡ length xs → overwrite xs buf ≡ xs
overwrite-all [] [] e = refl
overwrite-all [] (y ∷ buf) e = absurd (omega arith)
overwrite-all (x ∷ xs) [] e = absurd (omega arith)
overwrite-all (x ∷ xs) (y ∷ buf) e = ap (λ t. x ∷ t) (overwrite-all xs buf (omega arith))

-- Bytes, and then one more behind them.
put_at-end :
    (xs buf : List ℕ) (y : ℕ)
    → length buf ≡ length xs + 1
    → put_at (length xs) (y ∷ []) (put_at 0 xs buf) ≡ xs ++ (y ∷ [])
put_at-end [] [] y e = absurd (omega arith)
put_at-end [] (z ∷ []) y e = refl
put_at-end [] (z ∷ w ∷ buf) y e = absurd (omega arith)
put_at-end (x ∷ xs) [] y e = absurd (omega arith)
put_at-end (x ∷ xs) (z ∷ buf) y e = ap (λ t. x ∷ t) (put_at-end xs buf y (omega arith))

module _ {d : DlList} (h : ℕ) where
  -- A zeroed block has the size that was asked for, and only zeros, and a copied string has the string's
  -- bytes with a NUL behind them, when malloc gives blocks of the sizes that are asked for.
  pub new_blocks-hold :
      (a : ℕ) (junk s : List ℕ) (later : List (Option (ℕ × List ℕ))) (m : Memory d)
      → m.answers ≡ some (a, junk) ∷ later
      → ((size : ℕ)
          → length junk ≡ size
          → (m' : Memory d) × (os_zalloc d h size m ≡ done (some (a + h)) m')
            × (lookup a m'.blocks
                ≡ some (record { magic = alloc_magic; len = size; content = replicate size 0 })))
        × (length junk ≡ length s + 1
            → (m' : Memory d) × (os_strdup d h s m ≡ done (some (a + h)) m')
              × (lookup a m'.blocks
                  ≡ some (record {
                    magic = alloc_magic;
                    len = length s + 1;
                    content = s ++ (0 ∷ []);
                  })))
  unfolding os_zalloc zeroed os_strdup copied
  new_blocks-hold a junk s later m answers = (zeroes, duplicate)
    where
      back : a + h - h ≡ a
      back = omega arith

      asked_world : ℕ → Memory d
      asked_world size = record (log d h (asked ((h + size) % 2 ^ 64) ∷ []) m) { answers = later }

      fresh : ℕ → List ℕ → Block
      fresh size xs = record { magic = alloc_magic; len = size; content = xs }

      given : ℕ → Memory d
      given size = insert d h size a junk (asked_world size)

      found : (size : ℕ) → lookup (a + h - h) (given size).blocks ≡ some (fresh size junk)
      found size = lookup-insert h size a (a + h) junk (asked_world size) refl

      zeroes :
          (size : ℕ)
          → length junk ≡ size
          → (m' : Memory d) × (os_zalloc d h size m ≡ done (some (a + h)) m')
            × (lookup a m'.blocks ≡ some (fresh size (replicate size 0)))
      zeroes size sized = (
        stored d h (a + h) 0 (replicate size 0) (given size),
        then-at h (os_malloc d h size) (zeroed d h size) (some (a + h)) m (given size)
              (malloc-given h size a junk later m answers)
            ∙ then-at h (store d h (a + h) 0 (replicate size 0)) _ tt (given size)
                (stored d h (a + h) 0 (replicate size 0) (given size))
                (store-fits h (a + h) 0 (replicate size 0) (fresh size junk) (given size)
                  (found size) (omega (arith, length-replicate {A = ℕ} size 0, sized))),
        subst
            (λ k.
              lookup k (stored d h (a + h) 0 (replicate size 0) (given size)).blocks
              ≡ some (fresh size (replicate size 0)))
            back
            (lookup-update (a + h - h) (written 0 (replicate size 0)) (fresh size junk)
                (given size).blocks (found size)
              ∙ ap (λ t. some (fresh size t))
                  (overwrite-all (replicate size 0) junk
                    (sized ∙ sym (length-replicate {A = ℕ} size 0)))),
      )

      duplicate :
          length junk ≡ length s + 1
          → (m' : Memory d) × (os_strdup d h s m ≡ done (some (a + h)) m')
            × (lookup a m'.blocks ≡ some (fresh (length s + 1) (s ++ (0 ∷ []))))
      duplicate sized =
          let n = length s + 1 in
          let m2 = stored d h (a + h) 0 s (given n) in
          let m3 = stored d h (a + h) (length s) (0 ∷ []) m2 in
          let found2 =
            lookup-update (a + h - h) (written 0 s) (fresh n junk) (given n).blocks (found n) in
          let fits : 0 + length s ≤ length junk = omega (arith, sized) in
          let room : length s + 1 ≤ length (put_at 0 s junk) =
            omega (arith, sized, length-put_at 0 s junk) in
          (
            m3,
            then-at h (os_malloc d h n) (copied d h s) (some (a + h)) m (given n)
                  (malloc-given h n a junk later m answers)
                ∙ then-at h (store d h (a + h) 0 s) _ tt (given n) m2
                    (store-fits h (a + h) 0 s (fresh n junk) (given n) (found n) fits)
                ∙ then-at h (store d h (a + h) (length s) (0 ∷ [])) _ tt m2 m3 (
                    store-fits h (a + h) (length s) (0 ∷ []) (fresh n (put_at 0 s junk)) m2 found2
                      room),
            subst (λ k. lookup k m3.blocks ≡ some (fresh n (s ++ (0 ∷ [])))) back
                (lookup-update (a + h - h) (written (length s) (0 ∷ [])) (fresh n (put_at 0 s junk))
                    m2.blocks found2
                  ∙ ap (λ t. some (fresh n t)) (put_at-end s junk 0 sized)),
          )

  -- The array functions give NULL for a product past the largest `size_t`, and ask malloc for
  -- nothing; for every other product they are `os_zalloc` and `os_realloc` of the product itself.
  pub arrays-overflow :
      (ptr : Option ℕ) (nmemb size : ℕ) (m : Memory d)
      → (os_calloc d h nmemb size m
          ≡ (if ltb size_max (nmemb * size) then done none m else os_zalloc d h (nmemb * size) m))
        × (os_realloc_array d h ptr nmemb size m ≡ (
            if ltb size_max (nmemb * size)
            then done none m
            else os_realloc d h ptr (nmemb * size) m))
  unfolding os_calloc os_realloc_array
  arrays-overflow ptr nmemb size m = elim (Bool-cases (ltb size_max (nmemb * size))) [
    | inl over ↦
        let e = is_too_many_past nmemb size (omega (arith, ltb→lt _ _ over)) in
        rw (over, e) (refl, refl)
    | inr fits ↦
        let e = is_too_many_within nmemb size (omega (arith, ltb→le _ _ fits)) in
        let same : nmemb * size % 2 ^ 64 ≡ nmemb * size = omega (arith, ltb→le _ _ fits) in
        rw (fits, e, same) (refl, refl)
  ]
