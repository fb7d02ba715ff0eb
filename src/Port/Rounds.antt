-- ===== src/Port/Rounds.antt =====
-- The rounds of the main loop of src/wpa_ex.c: what each `poll` finds, and the script of the kernel's
-- answers for a session of them.
use wpa_supplicant_ex.Shared.{
  ℕ, zero, suc, ◌+◌, ◌≤◌, Bool, true, false, List, [], ◌∷◌, ◌++◌, Option, none, some, map, length,
}
use wpa_supplicant_ex.Kernel.{
  SendAnswer, SelectAnswer, RecvAnswer, WriteAnswer, ReadAnswer, PollAnswer, polled, poll_failed,
  eintr,
}
use wpa_supplicant_ex.Kernel.Calls.{unread}
use wpa_supplicant_ex.Port.{buffer_size}
use wpa_supplicant_ex.Port.Frames.{Parse, incomplete}
use wpa_supplicant_ex.Port.Forward.{reply_text, arrivals}
use wpa_supplicant_ex.Port.Events.{drained, all_taken}
use wpa_supplicant_ex.Port.Script.{
  Exchange, AllExchanges, commands, all_answers, sends_of, selects_of, recvs_of, writes_of,
}

-- A round: how many signals interrupt `poll`, and then what it finds: bytes from Erlang (or none), the exchanges for the commands that they complete,
-- and what the supplicant has sent by itself, if the socket is readable.
pub record Round : Type 0 where
  -- the signals that interrupt the `poll` first
  pub interrupts : ℕ
  pub piece : List ℕ
  pub exchanges : List Exchange
  pub notices : Option (List (List ℕ))

abbrev pub is_readable : List ℕ → Bool
is_readable [] = false
is_readable (x ∷ c) = true

abbrev pub is_noticed : Option (List (List ℕ)) → Bool
is_noticed none = false
is_noticed (some ds) = true

-- The kernel's answers during the rounds, and then the later ones.
abbrev pub poll_of : Round → PollAnswer
poll_of r =
    polled (record { pollin = is_readable r.piece; pollhup = false })
      (record { pollin = is_noticed r.notices; pollhup = false })

unfoldable pub interrupted : ℕ → List PollAnswer → List PollAnswer
interrupted zero later = later
interrupted (suc n) later = poll_failed eintr ∷ interrupted n later

unfoldable pub polls_script : List Round → List PollAnswer → List PollAnswer
polls_script [] later = later
polls_script (r ∷ rs) later = interrupted r.interrupts (poll_of r ∷ polls_script rs later)

unfoldable pub reads_script : List Round → List ReadAnswer → List ReadAnswer
reads_script [] later = later
reads_script (r ∷ rs) later = unread r.piece (reads_script rs later)

unfoldable pub sends_script : List Round → List SendAnswer → List SendAnswer
sends_script [] later = later
sends_script (r ∷ rs) later = sends_of r.exchanges (sends_script rs later)

abbrev pub notice_selects : Option (List (List ℕ)) → List SelectAnswer → List SelectAnswer
notice_selects none later = later
notice_selects (some ds) later = drained ds later

unfoldable pub selects_script : List Round → List SelectAnswer → List SelectAnswer
selects_script [] later = later
selects_script (r ∷ rs) later =
    selects_of r.exchanges (notice_selects r.notices (selects_script rs later))

abbrev pub notice_texts : Option (List (List ℕ)) → List (List ℕ)
notice_texts none = []
notice_texts (some ds) = ds

unfoldable pub recvs_script : List Round → List RecvAnswer → List RecvAnswer
recvs_script [] later = later
recvs_script (r ∷ rs) later =
    recvs_of r.exchanges (arrivals (notice_texts r.notices) (recvs_script rs later))

unfoldable pub writes_script : List Round → List WriteAnswer → List WriteAnswer
writes_script [] later = later
writes_script (r ∷ rs) later =
    writes_of r.exchanges (all_taken (notice_texts r.notices) (writes_script rs later))

-- What goes to the supplicant and to Erlang.
unfoldable pub all_commands : List Round → List (List ℕ)
all_commands [] = []
all_commands (r ∷ rs) = commands r.exchanges ++ all_commands rs

unfoldable pub all_texts : List Round → List (List ℕ)
all_texts [] = []
all_texts (r ∷ rs) =
    all_answers r.exchanges ++ (map reply_text (notice_texts r.notices) ++ all_texts rs)

-- `Goes r rs s`: with the bytes `r` pending, the pieces of the rounds fit the buffer and complete the
-- commands of their exchanges, and in the end `s` is pending.
pub data Goes : List ℕ → List Round → List ℕ → Type 0 where
  ends : {r : List ℕ} → Goes r [] r
  quiet :
      {r s : List ℕ} {rs : List Round} (n : ℕ) (notices : Option (List (List ℕ)))
      → Goes r rs s
      → Goes r (record { interrupts = n; piece = []; exchanges = []; notices = notices } ∷ rs) s
  fed :
      {r s t : List ℕ} {rs : List Round} (n x : ℕ) (c : List ℕ) (xs : List Exchange)
      (notices : Option (List (List ℕ)))
      → length r + length (x ∷ c) ≤ buffer_size
      → Parse (r ++ (x ∷ c)) (commands xs) (incomplete s)
      → AllExchanges xs
      → Goes s rs t
      → Goes r (record { interrupts = n; piece = x ∷ c; exchanges = xs; notices = notices } ∷ rs) t
