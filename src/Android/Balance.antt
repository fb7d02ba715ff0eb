-- ===== src/Android/Balance.antt =====
-- What `wpa_ctrl_open` leaves behind as Android builds it (src/wpa_ctrl/wpa_ctrl.c).
use wpa_supplicant_ex.Shared.{ℕ, ◌≡◌, ◌⊎◌, List, none, some}
use wpa_supplicant_ex.Session.{System, dest_path}
use wpa_supplicant_ex.Android.{android_name}

-- A name of the reserved namespace, or a path that can be represented.
abbrev pub IsReachable : System → List ℕ → Type 0
IsReachable sys ctrl_path =
    ((name : List ℕ) × (android_name ctrl_path ≡ some name))
    ⊎ ((dest : List ℕ) × (android_name ctrl_path ≡ none)
        × (dest_path sys.path_size ctrl_path ≡ some dest))
