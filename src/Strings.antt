-- ===== src/Strings.antt =====
-- The string functions of src/wpa_ctrl/os_unix.c. A C string is the list of its bytes before the
-- NUL; a destination is an array of bytes.
pub mod Copy
pub mod Absolute
use wpa_supplicant_ex.Shared.{
  ℕ, zero, suc, ◌+◌, ◌*◌, ◌-◌, ◌≡◌, Bool, true, false, List, [], ◌∷◌, Option, none, some, ltb, ◌==◌,
  if◌then◌else◌, length, set, get_or, put_at, replicate, ◌++◌,
}

-- The bytes of an array up to the first NUL.
abbrev pub c_string : List ℕ → List ℕ
c_string [] = []
c_string (x ∷ xs) = if x == 0 then [] else x ∷ c_string xs

-- Where the copying loop of `os_strlcpy` stands: the destination, the place of the next byte, what is
-- left of the room and of the source, and how far the source has been read.
pub record Copying : Type 0 where
  pub dest : List ℕ
  pub place : ℕ
  pub left : ℕ
  pub source : List ℕ
  pub passed : ℕ

-- `while (--left != 0)`, entered with `left = suc l`; it breaks behind the NUL.
pub copy_loop : ℕ → ℕ → List ℕ → ℕ → List ℕ → Copying
copy_loop zero place source passed dest = record {
  dest = dest;
  place = place;
  left = 0;
  source = source;
  passed = passed;
}
copy_loop (suc l) place [] passed dest = record {
  dest = set dest place 0;
  place = place + 1;
  left = suc l;
  source = [];
  passed = passed + 1;
}
copy_loop (suc l) place (c ∷ source) passed dest =
    copy_loop l (place + 1) source (passed + 1) (set dest place c)

-- `while (*s++);`
pub skip_rest : List ℕ → ℕ → ℕ
skip_rest [] passed = passed + 1
skip_rest (c ∷ source) passed = skip_rest source (passed + 1)

-- The destination afterwards, and the result.
unfoldable pub os_strlcpy : List ℕ → List ℕ → ℕ → List ℕ × ℕ
unfolding copy_loop skip_rest
os_strlcpy dest src zero = (dest, skip_rest src 0 - 1)
os_strlcpy dest src (suc left) =
    let c = copy_loop left 0 src 0 dest in
    if c.left == 0
    then (set c.dest c.place 0, skip_rest c.source c.passed - 1)
    else (c.dest, c.passed - 1)

-- What `getcwd` says: the directory, which does not fit `len` bytes, or another failure.
pub data CwdAnswer : Type 0 where
  cwd_is : List ℕ → CwdAnswer
  cwd_too_long cwd_failed : CwdAnswer

-- The `for (;;)` of `os_rel2abs_path`: the buffer doubles while the directory does not fit. An answer
-- for each call of `getcwd`, a success for each of `os_malloc` up to `mallocs`.
pub cwd_loop : (ℕ → Bool) → (ℕ → CwdAnswer) → ℕ → ℕ → Option (List ℕ)
cwd_loop malloc getcwd zero len = none
cwd_loop malloc getcwd (suc fuel) len =
    let again = cwd_loop malloc getcwd fuel (len * 2) in
    if malloc len
    then elim (getcwd len) [
      | cwd_is dir ↦ some dir
      | cwd_failed ↦ none
      | cwd_too_long ↦ if ltb 2000 (len * 2) then none else again
    ]
    else none

-- The lengths 128, 256, 512 and 1024 are tried.
abbrev pub cwd_fuel : ℕ
cwd_fuel = 4

-- `ret[cwd_len] = '/'` and the copies round it, into a buffer of `ret_len` bytes.
pub join_path : List ℕ → List ℕ → List ℕ
join_path cwd rel_path =
    let ret_len = length cwd + 1 + length rel_path + 1 in
    let ret = replicate ret_len 0 in
    let ret1 = put_at 0 cwd ret in
    let ret2 = set ret1 (length cwd) b'/' in
    let ret3 = put_at (length cwd + 1) rel_path ret2 in set ret3 (ret_len - 1) 0

-- `none` is NULL; a result is the allocated buffer, with the NUL at its end.
pub os_rel2abs_path : (ℕ → Bool) → (ℕ → CwdAnswer) → Option (List ℕ) → Option (List ℕ)
unfolding cwd_loop join_path
os_rel2abs_path malloc getcwd none = none
os_rel2abs_path malloc getcwd (some rel_path) =
    if get_or rel_path 0 0 == b'/'
    then (if malloc (length rel_path + 1) then some (rel_path ++ (0 ∷ [])) else none)
    else elim (cwd_loop malloc getcwd cwd_fuel 128) [
      | none ↦ none
      | some cwd ↦
          if malloc (length cwd + 1 + length rel_path + 1)
          then some (join_path cwd rel_path)
          else none
    ]
