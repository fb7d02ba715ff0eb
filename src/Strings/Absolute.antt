-- ===== src/Strings/Absolute.antt =====
-- `os_rel2abs_path`: the directory, a slash and the path, and the sizes for which it works.
use wpa_supplicant_ex.Shared.{
  ℕ, zero, suc, ◌+◌, ◌-◌, ◌≤◌, ◌<◌, ◌≡◌, ◌≢◌, refl, ap, ◌∙◌, List, [], ◌∷◌, ◌++◌, none, some, arith,
  true, ltb, if◌then◌else◌, length, get_or, set, put_at, overwrite, replicate,
}
use wpa_supplicant_ex.Strings.{CwdAnswer, cwd_is, cwd_too_long, join_path, os_rel2abs_path}

-- A copy with a NUL behind it fills an array of that size.
terminated :
    (xs : List ℕ) (size last : ℕ)
    → size ≡ length xs + 1
    → last ≡ length xs
    → set (overwrite xs (replicate size 0)) last 0 ≡ xs ++ (0 ∷ [])
terminated xs zero last e f = absurd (omega arith)
terminated [] (suc zero) zero e f = refl
terminated [] (suc (suc size)) last e f = absurd (omega arith)
terminated [] (suc zero) (suc last) e f = absurd (omega arith)
terminated (x ∷ xs) (suc size) zero e f = absurd (omega arith)
terminated (x ∷ xs) (suc size) (suc last) e f =
    ap (◌∷◌ x) (terminated xs size last (omega arith) (omega arith))

-- The four writes fill the buffer.
joined :
    (cwd rel_path : List ℕ) (size last : ℕ)
    → size ≡ length cwd + length rel_path + 2
    → last ≡ length cwd + length rel_path + 1
    → set
        (put_at
          (suc (length cwd))
          rel_path
          (set (overwrite cwd (replicate size 0)) (length cwd) b'/'))
        last
        0
      ≡ cwd ++ (b'/' ∷ (rel_path ++ (0 ∷ [])))
joined cwd rel_path zero last e f = absurd (omega arith)
joined cwd rel_path (suc size) zero e f = absurd (omega arith)
joined [] rel_path (suc size) (suc last) e f =
    ap (◌∷◌ b'/') (terminated rel_path size last (omega arith) (omega arith))
joined (c ∷ cwd) rel_path (suc size) (suc last) e f =
    ap (◌∷◌ c) (joined cwd rel_path size last (omega arith) (omega arith))

join_path_lem :
    (cwd rel_path : List ℕ) → join_path cwd rel_path ≡ cwd ++ (b'/' ∷ (rel_path ++ (0 ∷ [])))
unfolding join_path
join_path_lem cwd rel_path =
    ap
      (λ i.
        set
          (put_at i rel_path (
            set (overwrite cwd (replicate (length cwd + 1 + length rel_path + 1) 0)) (length cwd)
              b'/'))
          (length cwd + 1 + length rel_path + 1 - 1) 0)
      behind
    ∙ joined cwd rel_path (length cwd + 1 + length rel_path + 1)
        (length cwd + 1 + length rel_path + 1 - 1) (omega arith) (omega arith)
  where
    behind : length cwd + 1 ≡ suc (length cwd)
    behind = omega arith

-- A directory that `getcwd` gives once its buffer is larger than the name.
abbrev pub shows : List ℕ → ℕ → CwdAnswer
shows dir len = if ltb (length dir) len then cwd_is dir else cwd_too_long

-- With memory, a path that does not begin with a slash is appended to a directory of less than 1024
-- bytes, with a slash between them and a NUL behind.
pub os_rel2abs_path-joins :
    (dir rel_path : List ℕ)
    → get_or rel_path 0 0 ≢ b'/'
    → length dir < 1024
    → os_rel2abs_path (λ _. true) (shows dir) (some rel_path)
      ≡ some (dir ++ (b'/' ∷ (rel_path ++ (0 ∷ []))))
unfolding os_rel2abs_path
os_rel2abs_path-joins dir rel_path rel short = ground (arith, join_path_lem dir rel_path)

-- A directory of 1024 bytes or more is given up on, for the buffer stops growing at its bound.
pub os_rel2abs_path-too-long :
    (dir rel_path : List ℕ)
    → get_or rel_path 0 0 ≢ b'/'
    → 1024 ≤ length dir
    → os_rel2abs_path (λ _. true) (shows dir) (some rel_path) ≡ none
unfolding os_rel2abs_path
os_rel2abs_path-too-long dir rel_path rel long = ground arith
