-- ===== src/Pipe/Messages.antt =====
-- Requests and messages over a named pipe (src/wpa_ctrl/wpa_ctrl.c).
use wpa_supplicant_ex.Shared.{
  ℕ, ◌≤◌, ◌≡◌, ◌⊎◌, refl, Bool, true, false, List, [], ◌∷◌, ◌++◌, Option, none, some, length,
  length-overwrite, inl, inr,
}
use wpa_supplicant_ex.Api.{failed, error}
use wpa_supplicant_ex.Api.Laws.{IsReplyIn}
use wpa_supplicant_ex.Pipe.{PipeIo, write_file, read_file, read_reply, recv_pipe, request_pipe}

-- `ReadFile` gives no more bytes than the size that it is given.
abbrev pub AllWithin : List (ℕ → Option (List ℕ)) → Type 0
AllWithin [] = Unit
AllWithin (a ∷ later) =
    ((size : ℕ) (xs : List ℕ) → a size ≡ some xs → length xs ≤ size) × AllWithin later

read_reply-IsReplyIn :
    (reply : List ℕ) (limit : ℕ) (a : Option (List ℕ))
    → ((xs : List ℕ) → a ≡ some xs → length xs ≤ limit)
    → IsReplyIn (length reply) limit (read_reply reply a)
read_reply-IsReplyIn reply limit none h = tt
read_reply-IsReplyIn reply limit (some xs) h = (length-overwrite xs reply, h xs refl)

recv_pipe-IsReplyIn :
    (reply : List ℕ) (limit : ℕ) (io : PipeIo)
    → AllWithin io.reads
    → IsReplyIn (length reply) limit (recv_pipe reply limit io).0
unfolding recv_pipe read_file
recv_pipe-IsReplyIn reply limit io within = go io.reads within
  where
    go :
        (rs : List (ℕ → Option (List ℕ)))
        → AllWithin rs
        → IsReplyIn (length reply) limit (recv_pipe reply limit (record io { reads = rs })).0
    go [] h = tt
    go (a ∷ later) h = read_reply-IsReplyIn reply limit (a limit) (h.0 limit)

recv_pipe-written :
    (reply : List ℕ) (limit : ℕ) (io : PipeIo) → (recv_pipe reply limit io).1.written ≡ io.written
unfolding recv_pipe read_file
recv_pipe-written reply limit io = go io.reads
  where
    go :
        (rs : List (ℕ → Option (List ℕ)))
        → (recv_pipe reply limit (record io { reads = rs })).1.written ≡ io.written
    go [] = refl
    go (a ∷ later) = refl

-- When `ReadFile` gives no more bytes than the size that it is given, a request over the pipe ends with -1 or
-- with a reply in the caller's buffer and within its limit. It writes the command at most once,
-- and if it does not, it gives -1.
pub request_pipe-IsReplyIn :
    (cmd reply : List ℕ) (limit : ℕ) (io : PipeIo)
    → AllWithin io.reads
    → IsReplyIn (length reply) limit (request_pipe cmd reply limit io).0
      × (((request_pipe cmd reply limit io).1.written ≡ io.written ++ (cmd ∷ []))
          ⊎ ((request_pipe cmd reply limit io).1.written ≡ io.written)
            × ((request_pipe cmd reply limit io).0 ≡ failed error))
unfolding request_pipe write_file
request_pipe-IsReplyIn cmd reply limit io within = go io.writes
  where
    go :
        (ws : List Bool)
        → IsReplyIn
            (length reply)
            limit
            (request_pipe cmd reply limit (record io { writes = ws })).0
          × (((request_pipe cmd reply limit (record io { writes = ws })).1.written
                ≡ io.written ++ (cmd ∷ []))
              ⊎ ((request_pipe cmd reply limit (record io { writes = ws })).1.written ≡ io.written)
                × ((request_pipe cmd reply limit (record io { writes = ws })).0 ≡ failed error))
    go [] = (tt, inr (refl, refl))
    go (false ∷ later) = (tt, inr (refl, refl))
    go (true ∷ later) =
        let sent = record io { writes = later; written = io.written ++ (cmd ∷ []) } in
        (recv_pipe-IsReplyIn reply limit sent within, inl (recv_pipe-written reply limit sent))
