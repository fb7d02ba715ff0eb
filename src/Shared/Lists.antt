-- ===== src/Shared/Lists.antt =====
-- Lists measured and indexed by native numbers, under the library's names; a C array is a list.
use Prim.Native.Nat.{ℕ, zero, suc, ◌+◌, ◌-◌, ◌≤◌, min}
use mathlib.Core.Path.{◌≡◌, refl, sym, ap, ◌∙◌}
use mathlib.Core.List.{List, [], ◌∷◌, ◌++◌}
use native.Mathlib.Omega.{arith}

module _ {ℓ} {A : Type ℓ} where
  abbrev pub length : List A → ℕ
  length [] = 0
  length (x ∷ xs) = suc (length xs)

  abbrev pub get_or : List A → ℕ → A → A
  get_or [] i d = d
  get_or (x ∷ xs) zero d = x
  get_or (x ∷ xs) (suc i) d = get_or xs i d

  -- A write out of bounds changes nothing.
  abbrev pub set : List A → ℕ → A → List A
  set [] i v = []
  set (x ∷ xs) zero v = v ∷ xs
  set (x ∷ xs) (suc i) v = x ∷ set xs i v

  abbrev pub take : ℕ → List A → List A
  take zero xs = []
  take (suc n) [] = []
  take (suc n) (x ∷ xs) = x ∷ take n xs

  abbrev pub drop : ℕ → List A → List A
  drop zero xs = xs
  drop (suc n) [] = []
  drop (suc n) (x ∷ xs) = drop n xs

  abbrev pub replicate : ℕ → A → List A
  replicate zero a = []
  replicate (suc n) a = a ∷ replicate n a

  -- `memcpy` to the start of an array, and to an offset; it stops at the array's end.
  abbrev pub overwrite : List A → List A → List A
  overwrite [] buf = buf
  overwrite (x ∷ xs) [] = []
  overwrite (x ∷ xs) (y ∷ buf) = x ∷ overwrite xs buf

  abbrev pub put_at : ℕ → List A → List A → List A
  put_at zero xs buf = overwrite xs buf
  put_at (suc i) xs [] = []
  put_at (suc i) xs (y ∷ buf) = y ∷ put_at i xs buf

module _ {ℓ} {A : Type ℓ} where
  pub length-append : (xs ys : List A) → length (xs ++ ys) ≡ length xs + length ys
  length-append [] ys = omega arith
  length-append (x ∷ xs) ys = omega (arith, length-append xs ys)

  pub length-take : (n : ℕ) (xs : List A) → length (take n xs) ≡ min n (length xs)
  length-take zero xs = omega arith
  length-take (suc n) [] = omega arith
  length-take (suc n) (x ∷ xs) = omega (arith, length-take n xs)

  pub length-drop : (n : ℕ) (xs : List A) → length (drop n xs) ≡ length xs - n
  length-drop zero xs = omega arith
  length-drop (suc n) [] = omega arith
  length-drop (suc n) (x ∷ xs) = omega (arith, length-drop n xs)

  pub take-nil : (n : ℕ) → take {A = A} n [] ≡ []
  take-nil zero = refl
  take-nil (suc n) = refl

  pub take-append-drop : (n : ℕ) (xs : List A) → take n xs ++ drop n xs ≡ xs
  take-append-drop zero xs = refl
  take-append-drop (suc n) [] = refl
  take-append-drop (suc n) (x ∷ xs) = ap (◌∷◌ x) (take-append-drop n xs)

  pub take-all : (n : ℕ) (xs : List A) → length xs ≤ n → take n xs ≡ xs
  take-all zero [] h = refl
  take-all zero (x ∷ xs) h = absurd (omega arith)
  take-all (suc n) [] h = refl
  take-all (suc n) (x ∷ xs) h = ap (◌∷◌ x) (take-all n xs (omega arith))

  pub drop-all : (n : ℕ) (xs : List A) → length xs ≤ n → drop n xs ≡ []
  drop-all zero [] h = refl
  drop-all zero (x ∷ xs) h = absurd (omega arith)
  drop-all (suc n) [] h = refl
  drop-all (suc n) (x ∷ xs) h = drop-all n xs (omega arith)

  pub take-append : (n : ℕ) (xs ys : List A) → n ≤ length xs → take n (xs ++ ys) ≡ take n xs
  take-append zero xs ys h = refl
  take-append (suc n) [] ys h = absurd (omega arith)
  take-append (suc n) (x ∷ xs) ys h = ap (◌∷◌ x) (take-append n xs ys (omega arith))

  pub drop-append : (n : ℕ) (xs ys : List A) → n ≤ length xs → drop n (xs ++ ys) ≡ drop n xs ++ ys
  drop-append zero xs ys h = refl
  drop-append (suc n) [] ys h = absurd (omega arith)
  drop-append (suc n) (x ∷ xs) ys h = drop-append n xs ys (omega arith)

  pub length-overwrite : (xs buf : List A) → length (overwrite xs buf) ≡ length buf
  length-overwrite [] buf = refl
  length-overwrite (x ∷ xs) [] = refl
  length-overwrite (x ∷ xs) (y ∷ buf) = ap suc (length-overwrite xs buf)

  pub length-put_at : (i : ℕ) (xs buf : List A) → length (put_at i xs buf) ≡ length buf
  length-put_at zero xs buf = length-overwrite xs buf
  length-put_at (suc i) xs [] = refl
  length-put_at (suc i) xs (y ∷ buf) = ap suc (length-put_at i xs buf)

  pub length-replicate : (n : ℕ) (x : A) → length (replicate n x) ≡ n
  length-replicate zero x = refl
  length-replicate (suc n) x = ap suc (length-replicate n x)

  pub length-set : (xs : List A) (i : ℕ) (v : A) → length (set xs i v) ≡ length xs
  length-set [] i v = refl
  length-set (x ∷ xs) zero v = refl
  length-set (x ∷ xs) (suc i) v = ap suc (length-set xs i v)

  -- What was copied is read back, behind what stood in front of it.
  pub take-overwrite :
      (xs buf : List A) (n : ℕ) → n ≡ length xs → n ≤ length buf → take n (overwrite xs buf) ≡ xs
  take-overwrite [] buf zero e h = refl
  take-overwrite [] buf (suc n) e h = absurd (omega arith)
  take-overwrite (x ∷ xs) buf zero e h = absurd (omega arith)
  take-overwrite (x ∷ xs) [] (suc n) e h = absurd (omega arith)
  take-overwrite (x ∷ xs) (y ∷ buf) (suc n) e h =
      ap (◌∷◌ x) (take-overwrite xs buf n (omega arith) (omega arith))

  pub take-put_at :
      (i : ℕ) (xs buf : List A) (n : ℕ)
      → n ≡ i + length xs
      → n ≤ length buf
      → take n (put_at i xs buf) ≡ take i buf ++ xs
  take-put_at zero xs buf n e h = take-overwrite xs buf n (omega arith) h
  take-put_at (suc i) xs buf zero e h = absurd (omega arith)
  take-put_at (suc i) xs [] (suc n) e h = absurd (omega arith)
  take-put_at (suc i) xs (y ∷ buf) (suc n) e h =
      ap (◌∷◌ y) (take-put_at i xs buf n (omega arith) (omega arith))

  pub take-set : (xs : List A) (i : ℕ) (v : A) → take i (set xs i v) ≡ take i xs
  take-set [] i v = refl
  take-set (x ∷ xs) zero v = refl
  take-set (x ∷ xs) (suc i) v = ap (◌∷◌ x) (take-set xs i v)

  pub drop-take : (n i : ℕ) (xs : List A) → drop n (take i xs) ≡ take (i - n) (drop n xs)
  drop-take zero i xs = ap (λ k. take k xs) (omega arith)
  drop-take (suc n) zero xs = ap (λ k. take k (drop (suc n) xs)) zero_left
    where
      zero_left : 0 ≡ zero - suc n
      zero_left = omega arith
  drop-take (suc n) (suc i) [] = sym (take-nil (suc i - suc n))
  drop-take (suc n) (suc i) (x ∷ xs) = drop-take n i xs ∙ ap (λ k. take k (drop n xs)) (omega arith)

  pub take-overwrite_le :
      (n : ℕ) (xs buf : List A)
      → n ≤ length xs
      → length xs ≤ length buf
      → take n (overwrite xs buf) ≡ take n xs
  take-overwrite_le zero xs buf h k = refl
  take-overwrite_le (suc n) [] buf h k = absurd (omega arith)
  take-overwrite_le (suc n) (x ∷ xs) [] h k = absurd (omega arith)
  take-overwrite_le (suc n) (x ∷ xs) (y ∷ buf) h k =
      ap (◌∷◌ x) (take-overwrite_le n xs buf (omega arith) (omega arith))

  pub take-take : (m n : ℕ) (xs : List A) → m ≤ n → take m (take n xs) ≡ take m xs
  take-take zero n xs h = refl
  take-take (suc m) zero xs h = absurd (omega arith)
  take-take (suc m) (suc n) [] h = refl
  take-take (suc m) (suc n) (x ∷ xs) h = ap (◌∷◌ x) (take-take m n xs (omega arith))

  -- A prefix at least as long as the list is the list.
  pub take-past : (m n : ℕ) (xs : List A) → length xs ≤ m → length xs ≤ n → take m xs ≡ take n xs
  take-past m n xs h k = take-all m xs h ∙ sym (take-all n xs k)
