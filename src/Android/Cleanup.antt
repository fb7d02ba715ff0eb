-- ===== src/Android/Cleanup.antt =====
-- Which files `wpa_ctrl_cleanup` removes (src/wpa_ctrl/wpa_ctrl.c).
use wpa_supplicant_ex.Shared.{
  ℕ, ◌+◌, ◌-◌, ◌<◌, ◌≡◌, ◌≢◌, refl, sym, ap, ap₂, ◌∙◌, subst, true, false, List, [], ◌∷◌, ◌++◌,
  some, ltb, leb, ==-ne, if◌then◌else◌, length, take, drop, overwrite, arith, inl, inr, Bool-cases,
  append_assoc, take-all, ltb→lt, length-append, length-overwrite, take-append, length-drop,
}
use wpa_supplicant_ex.Strings.{os_strlcpy, c_string}
use wpa_supplicant_ex.Strings.Copy.{os_strlcpy_lem}
use wpa_supplicant_ex.Android.{
  path_max, CleanupEffect, open_dir, close_dir, unlink_file, cleanup_loop, wpa_ctrl_cleanup,
}

-- Bytes of a string.
abbrev pub IsText : List ℕ → Type 0
IsText [] = Unit
IsText (x ∷ xs) = (x ≢ 0) × IsText xs

abbrev pub AllTexts : List (List ℕ) → Type 0
AllTexts [] = Unit
AllTexts (x ∷ xs) = IsText x × AllTexts xs

-- The removal of every entry that fits behind the directory.
abbrev pub removals : List ℕ → List (List ℕ) → List CleanupEffect
removals start [] = []
removals start (x ∷ entries) =
    if ltb (length start + length x) path_max
    then unlink_file (start ++ x) ∷ removals start entries
    else removals start entries

c_string-text : (t rest : List ℕ) → IsText t → c_string (t ++ (0 ∷ rest)) ≡ t
c_string-text [] rest h = refl
c_string-text (x ∷ t) rest h = rw (==-ne x 0 h.0) (ap (λ l. x ∷ l) (c_string-text t rest h.1))

IsText-append : (a b : List ℕ) → IsText a → IsText b → IsText (a ++ b)
IsText-append [] b ha hb = hb
IsText-append (x ∷ a) b ha hb = (ha.0, IsText-append a b ha.1 hb)

-- A string that fits, and what is left behind it.
overwrite-text :
    (t buf : List ℕ)
    → length t < length buf
    → (rest : List ℕ) × (overwrite (t ++ (0 ∷ [])) buf ≡ t ++ (0 ∷ rest))
overwrite-text [] [] h = absurd (omega arith)
overwrite-text [] (y ∷ buf) h = (buf, refl)
overwrite-text (x ∷ t) [] h = absurd (omega arith)
overwrite-text (x ∷ t) (y ∷ buf) h =
    let r = overwrite-text t buf (omega arith) in (r.0, ap (λ l. x ∷ l) r.1)

copied-text :
    (buf x : List ℕ) (m : ℕ)
    → m ≢ 0
    → os_strlcpy buf x m ≡ (overwrite (take (m - 1) x ++ (0 ∷ [])) buf, length x)
copied-text buf x m some_room =
    os_strlcpy_lem buf x m
    ∙ ap (λ b. (if b then buf else overwrite (take (m - 1) x ++ (0 ∷ [])) buf, length x))
        (==-ne m 0 some_room)

module _ (start : List ℕ) (text : IsText start) (short : length start < path_max) where
  cleanup_loop-removals :
      (entries : List (List ℕ)) (pathname : List ℕ)
      → AllTexts entries
      → length pathname ≡ path_max
      → take (length start) pathname ≡ start
      → cleanup_loop (length start) pathname entries ≡ removals start entries
  unfolding cleanup_loop
  cleanup_loop-removals [] pathname texts sized begins = refl
  cleanup_loop-removals (x ∷ entries) pathname texts sized begins =
      let ih = cleanup_loop-removals entries (front ++ rest) texts.1 whole again in
      subst (λ c. after c (cleanup_loop n (front ++ c.0) entries) ≡ removals start (x ∷ entries))
        (sym (copied-text (drop n pathname) x m (λ e. absurd (omega arith))))
        (tested (cleanup_loop n (front ++ rest) entries) ih)
    where
      n : ℕ
      n = length start

      m : ℕ
      m = path_max - n

      front : List ℕ
      front = take n pathname

      rest : List ℕ
      rest = overwrite (take (m - 1) x ++ (0 ∷ [])) (drop n pathname)

      after : List ℕ × ℕ → List CleanupEffect → List CleanupEffect
      after c later = if ltb c.1 m then unlink_file (c_string (front ++ c.0)) ∷ later else later

      left : length (drop n pathname) ≡ path_max - n
      left = length-drop n pathname ∙ ap (λ k. k - n) sized

      whole : length (front ++ rest) ≡ path_max
      whole =
          length-append front rest
          ∙ ap₂ (λ a b. a + b) (ap length begins)
              (length-overwrite (take (m - 1) x ++ (0 ∷ [])) (drop n pathname) ∙ left)
          ∙ omega (arith, short)

      again : take n (front ++ rest) ≡ start
      again =
          take-append n front rest (omega (arith, ap length begins))
          ∙ take-all n front (omega (arith, ap length begins))
          ∙ begins

      named : length x < m → c_string (front ++ rest) ≡ start ++ x
      named fits =
          let e = take-all (m - 1) x (omega arith) in
          let o = overwrite-text x (drop n pathname) (omega (arith, left)) in
          ap₂ (λ a b. c_string (a ++ b)) begins
            (ap (λ t. overwrite (t ++ (0 ∷ [])) (drop n pathname)) e ∙ o.1)
          ∙ ap c_string (sym (append_assoc start x (0 ∷ o.0)))
          ∙ c_string-text (start ++ x) o.0 (IsText-append start x text texts.0)

      tested :
          (later : List CleanupEffect)
          → later ≡ removals start entries
          → after (rest, length x) later ≡ removals start (x ∷ entries)
      tested later ih = elim (Bool-cases (ltb (length x) m)) [
        | inl fits ↦
            let same : ltb (n + length x) path_max ≡ true = ground (arith, short) in
            rw (fits, same) (ap₂ (λ p l. unlink_file p ∷ l) (named (ltb→lt _ _ fits)) ih)
        | inr long ↦
            let same : ltb (n + length x) path_max ≡ false = ground (arith, short) in
            rw (long, same) ih
      ]

-- When the directory can be opened, its name and a slash with a NUL fit `PATH_MAX`, and no name
-- holds a NUL: exactly those entries are removed, in their order, whose path fits `PATH_MAX`
-- bytes with its NUL, each under the directory's name, a slash and its own name, whole; and the
-- directory is closed again.
pub wpa_ctrl_cleanup-removals :
    (client_dir pathname : List ℕ) (entries : List (List ℕ))
    → IsText client_dir
    → AllTexts entries
    → length pathname ≡ path_max
    → length client_dir + 1 < path_max
    → wpa_ctrl_cleanup client_dir pathname (some entries)
      ≡ open_dir client_dir ∷ (removals (client_dir ++ (b'/' ∷ [])) entries ++ (close_dir ∷ []))
unfolding wpa_ctrl_cleanup
wpa_ctrl_cleanup-removals client_dir pathname entries dir_text texts sized short =
    let fits : leb path_max (length client_dir + 1) ≡ false = ground (arith, short) in
    let start = client_dir ++ (b'/' ∷ []) in
    let long : length start ≡ length client_dir + 1 = length-append client_dir (b'/' ∷ []) in
    let o = overwrite-text start pathname (omega (arith, long, sized, short)) in
    let begun : overwrite (client_dir ++ (b'/' ∷ 0 ∷ [])) pathname ≡ start ++ (0 ∷ o.0) =
      ap (λ t. overwrite t pathname) (sym (append_assoc client_dir (b'/' ∷ []) (0 ∷ []))) ∙ o.1 in
    let runs : cleanup_loop (length client_dir + 1)
          (overwrite (client_dir ++ (b'/' ∷ 0 ∷ [])) pathname) entries
        ≡ removals start entries =
      ap (λ k. cleanup_loop k (overwrite (client_dir ++ (b'/' ∷ 0 ∷ [])) pathname) entries)
        (sym long)
      ∙ cleanup_loop-removals start
          (IsText-append client_dir (b'/' ∷ []) dir_text ((λ e. absurd (omega arith)), tt))
          (omega (arith, long, short)) entries (overwrite (client_dir ++ (b'/' ∷ 0 ∷ [])) pathname)
          texts (length-overwrite (client_dir ++ (b'/' ∷ 0 ∷ [])) pathname ∙ sized)
          (ap (take (length start)) begun
            ∙ take-append (length start) start (0 ∷ o.0) (omega arith)
            ∙ take-all (length start) start (omega arith)) in
    rw (fits, runs) refl
