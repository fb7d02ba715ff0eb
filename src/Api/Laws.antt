-- ===== src/Api/Laws.antt =====
-- What the port program relies on in a control interface (src/wpa_ctrl/wpa_ctrl.h): a reply stays
-- within the caller's buffer, and no operation loops for ever without asking the kernel.
use wpa_supplicant_ex.Shared.{ℕ, ◌≤◌, ◌<◌, ◌≡◌, true, List, some, length}
use wpa_supplicant_ex.Kernel.{World, K}
use wpa_supplicant_ex.Kernel.Post.{Post, Ends}
use wpa_supplicant_ex.Api.{CtrlApi, Reply, replied, failed}

-- A reply in a buffer of `size` bytes of which `limit` may be used.
abbrev pub IsReplyIn : ℕ → ℕ → Reply → Type 0
IsReplyIn size limit (replied b n) = (length b ≡ size) × (n ≤ limit)
IsReplyIn size limit (failed e) = Unit

pub record CtrlLaws (api : CtrlApi) : Type 0 where
  -- For a callback that ends, a request ends, with a reply in the buffer.
  pub request_within :
      (cmd buf : List ℕ) (limit : ℕ) (msg_cb : List ℕ → K (Unit {0})) (w : World)
      → ((msg : List ℕ) (u : World) → Ends (msg_cb msg u))
      → Post (λ r u. IsReplyIn (length buf) limit r) (api.request cmd buf limit (some msg_cb) w)
  -- Receiving ends with a message in the buffer, and polls nothing.
  pub recv_within :
      (buf : List ℕ) (limit : ℕ) (w : World)
      → Post
          (λ r u. IsReplyIn (length buf) limit r × (length u.selects ≤ length w.selects))
          (api.recv buf limit w)
  -- A message is pending only by an answer of `select`, which is used up.
  pub pending_polls :
      (w : World)
      → Post (λ more u. more ≡ true → length u.selects < length w.selects) (api.pending w)
  pub attach_ends : (w : World) → Ends (api.attach w)
