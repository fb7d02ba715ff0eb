-- ===== src/Remote/Names.antt =====
-- The requests at the end of `wpa_ctrl_open` over UDP, and the cookie ahead of a command.
use wpa_supplicant_ex.Shared.{
  ℕ, zero, suc, ◌+◌, ◌-◌, ◌≡◌, refl, ap, ◌∙◌, List, [], ◌∷◌, ◌++◌, some, arith, length, set,
  overwrite, put_at, replicate, ap₂, ==-ne, take-all,
}
use wpa_supplicant_ex.Strings.{os_strlcpy}
use wpa_supplicant_ex.Strings.Copy.{os_strlcpy_lem}
use wpa_supplicant_ex.Remote.{with_cookie}

overwrite_all : (xs : List ℕ) (size : ℕ) → size ≡ length xs → overwrite xs (replicate size 0) ≡ xs
overwrite_all [] zero h = refl
overwrite_all [] (suc size) h = absurd (omega arith)
overwrite_all (x ∷ xs) zero h = absurd (omega arith)
overwrite_all (x ∷ xs) (suc size) h = ap (◌∷◌ x) (overwrite_all xs size (omega arith))

joined :
    (cookie cmd : List ℕ) (size : ℕ)
    → size ≡ length cookie + 1 + length cmd
    → put_at
        (suc (length cookie))
        cmd
        (set (overwrite (cookie ++ (0 ∷ [])) (replicate size 0)) (length cookie) b' ')
      ≡ cookie ++ (b' ' ∷ cmd)
joined cookie cmd zero h = absurd (omega arith)
joined [] cmd (suc size) h = ap (◌∷◌ b' ') (overwrite_all cmd size (omega arith))
joined (c ∷ cookie) cmd (suc size) h = ap (◌∷◌ c) (joined cookie cmd size (omega arith))

-- A command behind a cookie is the cookie, a space and the command.
pub with_cookie_lem : (cookie cmd : List ℕ) → with_cookie (some cookie) cmd ≡ cookie ++ (b' ' ∷ cmd)
unfolding with_cookie
with_cookie_lem cookie cmd =
    ap₂ (λ i buf. put_at i cmd (set buf (length cookie) b' ')) place copied
    ∙ joined cookie cmd len refl
  where
    len : ℕ
    len = length cookie + 1 + length cmd

    place : length cookie + 1 ≡ suc (length cookie)
    place = omega arith

    copied :
        (os_strlcpy (replicate len 0) cookie len).0
        ≡ overwrite (cookie ++ (0 ∷ [])) (replicate len 0)
    copied =
        ap (λ r. r.0) (os_strlcpy_lem (replicate len 0) cookie len)
        ∙ rw (==-ne len 0 (omega arith)) (
            ap (λ s. overwrite (s ++ (0 ∷ [])) (replicate len 0))
              (take-all (len - 1) cookie (omega arith)))
