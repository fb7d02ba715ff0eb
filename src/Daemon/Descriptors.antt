-- ===== src/Daemon/Descriptors.antt =====
-- The descriptor of /dev/null in `os_daemon` (src/wpa_ctrl/os_unix.c).
use wpa_supplicant_ex.Shared.{
  ℕ, ◌+◌, ◌-◌, ◌≡◌, ◌↔◌, refl, Bool, true, false, List, [], ◌∷◌, if◌then◌else◌,
}
use wpa_supplicant_ex.Daemon.{
  DaemonEffect, change_dir, close_null, open_null, duplicate_null, DaemonSystem, dup_or_close,
  os_daemon,
}

-- How many descriptors of /dev/null beside the standard ones a log leaves open.
abbrev pub left_open : ℕ → List DaemonEffect → ℕ
left_open n [] = n
left_open n (open_null ∷ log) = left_open (n + 1) log
left_open n (close_null ∷ log) = left_open (n - 1) log
left_open n (e ∷ log) = left_open n log

-- It gives 0 exactly when every call works, and every failure closes the descriptor of /dev/null that
-- was opened; success leaves it open, beside the three standard descriptors that are its duplicates.
pub os_daemon-left_open :
    (sys : DaemonSystem)
    → (((os_daemon sys).0 ≡ true) ↔ (
        (sys.chdir ≡ true)
        × (sys.open_dev_null ≡ true)
        × (sys.dup2 0 ≡ true)
        × (sys.dup2 1 ≡ true)
        × (sys.dup2 2 ≡ true)))
      × (left_open 0 (os_daemon sys).1 ≡ (if (os_daemon sys).0 then 1 else 0))
unfolding os_daemon dup_or_close
os_daemon-left_open sys = go sys.chdir sys.open_dev_null (sys.dup2 0) (sys.dup2 1) (sys.dup2 2)
  where
    dup : Bool → ℕ → Bool × List DaemonEffect → Bool × List DaemonEffect
    dup ok n rest = if ok then (rest.0, duplicate_null n ∷ rest.1) else (false, close_null ∷ [])

    daemon : Bool → Bool → Bool → Bool → Bool → Bool × List DaemonEffect
    daemon a b c d e =
        if a
        then (if b
            then (let rest = dup c 0 (dup d 1 (dup e 2 (true, []))) in
                (rest.0, change_dir ∷ open_null ∷ rest.1))
            else (false, change_dir ∷ []))
        else (false, [])

    go :
        (a b c d e : Bool)
        → (((daemon a b c d e).0 ≡ true)
            ↔ ((a ≡ true) × (b ≡ true) × (c ≡ true) × (d ≡ true) × (e ≡ true)))
          × (left_open 0 (daemon a b c d e).1 ≡ (if (daemon a b c d e).0 then 1 else 0))
    go false b c d e = ((λ h. cc, λ h. cc), refl)
    go true false c d e = ((λ h. cc, λ h. cc), refl)
    go true true false d e = ((λ h. cc, λ h. cc), refl)
    go true true true false e = ((λ h. cc, λ h. cc), refl)
    go true true true true false = ((λ h. cc, λ h. cc), refl)
    go true true true true true = ((λ h. (refl, refl, refl, refl, refl), λ h. refl), refl)
