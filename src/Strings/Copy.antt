-- ===== src/Strings/Copy.antt =====
-- `os_strlcpy` is a bounded copy: what fits, a NUL, and the length of the source.
use wpa_supplicant_ex.Shared.{
  ℕ, zero, suc, ◌+◌, ◌-◌, ◌≡◌, refl, sym, ap, ap₂, ◌∙◌, List, [], ◌∷◌, ◌++◌, arith, ◌==◌, ==-ne,
  if◌then◌else◌, length, set, take, put_at,
}
use wpa_supplicant_ex.Strings.{Copying, copy_loop, skip_rest, os_strlcpy}

skip_rest_lem :
    (source : List ℕ) (passed : ℕ) → skip_rest source passed ≡ passed + length source + 1
unfolding skip_rest
skip_rest_lem [] passed = omega arith
skip_rest_lem (c ∷ source) passed = omega (arith, skip_rest_lem source (passed + 1))

put_at-cons : (i x : ℕ) (xs buf : List ℕ) → put_at i (x ∷ xs) buf ≡ put_at (suc i) xs (set buf i x)
put_at-cons zero x xs [] = refl
put_at-cons zero x xs (y ∷ buf) = refl
put_at-cons (suc i) x xs [] = refl
put_at-cons (suc i) x xs (y ∷ buf) = ap (◌∷◌ y) (put_at-cons i x xs buf)

put_at-one : (i x : ℕ) (buf : List ℕ) → put_at i (x ∷ []) buf ≡ set buf i x
put_at-one zero x [] = refl
put_at-one zero x (y ∷ buf) = refl
put_at-one (suc i) x [] = refl
put_at-one (suc i) x (y ∷ buf) = ap (◌∷◌ y) (put_at-one i x buf)

-- What `os_strlcpy` does with the loop's end.
finished : Copying → List ℕ × ℕ
finished c =
    if c.left == 0
    then (set c.dest c.place 0, skip_rest c.source c.passed - 1)
    else (c.dest, c.passed - 1)

finished-copy_loop :
    (l place : ℕ) (source : List ℕ) (passed : ℕ) (dest : List ℕ)
    → finished (copy_loop l place source passed dest)
      ≡ (put_at place (take l source ++ (0 ∷ [])) dest, passed + length source)
unfolding finished copy_loop
finished-copy_loop zero place source passed dest =
    ap₂ (λ d n. (d, n)) (sym (put_at-one place 0 dest)) (omega (arith, skip_rest_lem source passed))
finished-copy_loop (suc l) place [] passed dest =
    rw (==-ne (suc l) 0 (omega arith))
      (ap₂ (λ d n. (d, n)) (sym (put_at-one place 0 dest)) (omega arith))
finished-copy_loop (suc l) place (c ∷ source) passed dest =
    finished-copy_loop l (place + 1) source (passed + 1) (set dest place c)
    ∙ ap₂ (λ d n. (d, n))
        (ap (λ i. put_at i (take l source ++ (0 ∷ [])) (set dest place c)) next_place
          ∙ sym (put_at-cons place c (take l source ++ (0 ∷ [])) dest))
        (omega arith)
  where
    next_place : place + 1 ≡ suc place
    next_place = omega arith

os_strlcpy-zero : (dest src : List ℕ) → os_strlcpy dest src zero ≡ (dest, length src)
unfolding os_strlcpy
os_strlcpy-zero dest src = ap (λ n. (dest, n)) (omega (arith, skip_rest_lem src 0))

os_strlcpy-suc :
    (dest src : List ℕ) (left : ℕ)
    → os_strlcpy dest src (suc left) ≡ (put_at 0 (take left src ++ (0 ∷ [])) dest, length src)
unfolding os_strlcpy finished
os_strlcpy-suc dest src left =
    finished-copy_loop left 0 src 0 dest
    ∙ ap (λ n. (put_at 0 (take left src ++ (0 ∷ [])) dest, n)) (omega arith)

-- `os_strlcpy` returns the length of the source. With no room it writes nothing, and else it writes as
-- much of the source as fits before a NUL, the NUL, and nothing behind it.
pub os_strlcpy_lem :
    (dest src : List ℕ) (siz : ℕ)
    → os_strlcpy dest src siz
      ≡ (if siz == 0 then dest else put_at 0 (take (siz - 1) src ++ (0 ∷ [])) dest, length src)
os_strlcpy_lem dest src zero = os_strlcpy-zero dest src
os_strlcpy_lem dest src (suc left) =
    os_strlcpy-suc dest src left
    ∙ ap (λ d. (d, length src))
        (rw (==-ne (suc left) 0 (omega arith))
          (ap (λ n. put_at 0 (take n src ++ (0 ∷ [])) dest) (omega arith)))
