-- ===== src/Port/Reach.antt =====
-- The states that the main loop of src/wpa_ex.c reaches, as a step relation, and the invariant of its
-- statics.
use wpa_supplicant_ex.Shared.{◌≡◌, List, none}
use wpa_supplicant_ex.Kernel.{World, returned, PollAnswer}
use wpa_supplicant_ex.Kernel.Post.{Post}
use wpa_supplicant_ex.Api.{CtrlApi}
use wpa_supplicant_ex.Port.{Port, fresh_port, poll_round}

-- The statics and the world between two polls, from the world `w0`: just attached, or behind a round
-- that returned.
pub data Reached (api : CtrlApi) (w0 : World) : Port → World → Type 0 where
  started : {u : World} → api.attach w0 ≡ returned none u → Reached api w0 fresh_port u
  polling :
      {p q : Port} {w u : World} (a : PollAnswer) (later : List PollAnswer)
      → Reached api w0 p w
      → poll_round api a p (record w { polls = later }) ≡ returned q u
      → Reached api w0 q u
