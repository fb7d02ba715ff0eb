-- ===== src/Android/Connection.antt =====
-- What connecting to a socket of the reserved namespace holds (src/wpa_ctrl/wpa_ctrl.c).
use wpa_supplicant_ex.Shared.{
  ℕ, ◌≡◌, refl, ap, ◌∙◌, Bool, true, false, List, [], ◌∷◌, ◌++◌, Option, none, some, if◌then◌else◌,
}
use wpa_supplicant_ex.Session.{Effect, release, close_socket, unlink_path, connect_to}
use wpa_supplicant_ex.Session.Release.{apply, held, held_from, nothing_held, one_held, Held}
use wpa_supplicant_ex.Android.{android_name, connect_android}

held_from-append :
    (h : Held) (a b : List Effect) → held_from h (a ++ b) ≡ held_from (held_from h a) b
held_from-append h [] b = refl
held_from-append h (e ∷ a) b = held_from-append (apply h e) a b

-- From the memory, the socket and its file that `bind` has left, a path of the reserved namespace leads to a
-- connection that holds all three, or to a failure that has given all three back, none of them twice,
-- the file under its path.
pub connect_android-held :
    (connected : Bool) (ctrl_path text name : List ℕ) (log files : List Effect)
    → held log ≡ one_held files
    → android_name ctrl_path ≡ some name
    → (log' : List Effect) × (connect_android connected ctrl_path text log ≡ some (connected, log'))
      × (held log'
          ≡ (if connected then one_held files else nothing_held (files ++ (unlink_path text ∷ []))))
unfolding connect_android
connect_android-held true ctrl_path text name log files all e = (
  log ++ (connect_to name ∷ []),
  ap
      (λ o. elim o as (λ x. Option (Bool × List Effect)) [
        | none ↦ none
        | some name ↦ some (true, log ++ (connect_to name ∷ []))
      ])
      e,
  held_from-append (nothing_held []) log (connect_to name ∷ []) ∙ all,
)
connect_android-held false ctrl_path text name log files all e = (
  log ++ (close_socket ∷ unlink_path text ∷ release ∷ []),
  ap
      (λ o. elim o as (λ x. Option (Bool × List Effect)) [
        | none ↦ none
        | some name ↦ some (false, log ++ (close_socket ∷ unlink_path text ∷ release ∷ []))
      ])
      e,
  held_from-append (nothing_held []) log (close_socket ∷ unlink_path text ∷ release ∷ [])
      ∙ ap (λ h. held_from h (close_socket ∷ unlink_path text ∷ release ∷ [])) all,
)
