-- ===== src/Prefixes/Unambiguous.antt =====
-- No message can be read as beginning with two of the prefixes.
use wpa_supplicant_ex.Shared.{
  ◌≡◌, refl, sym, ◌∙◌, Bool, true, false, ◌&&◌, not, List, [], ◌∷◌, arith,
}
use mathlib.Core.List.{Memᴰ}
use mathlib.Core.List.Memᴰ.{head, tail}
use Prim.Native.String.{String, ◌++◌}
use wpa_supplicant_ex.Prefixes.{Macro, message_prefixes}
use wpa_supplicant_ex.Prefixes.Texts.{agree, agree-begin}

apart : Macro → List Macro → Bool
apart m [] = true
apart m (n ∷ ms) = not (agree m.text n.text) && apart m ms

all_apart : List Macro → Bool
unfolding apart
all_apart [] = true
all_apart (m ∷ ms) = apart m ms && all_apart ms

apart-Mem :
    (m n : Macro) (ms : List Macro) → apart m ms ≡ true → Memᴰ n ms → agree m.text n.text ≡ false
unfolding apart
apart-Mem m n [] h k = elim k [ ]
apart-Mem m n (x ∷ ms) h (head e) = rw (e) (ground arith)
apart-Mem m n (x ∷ ms) h (tail k) = apart-Mem m n ms (ground arith) k

true_not_false : {b : Bool} → b ≡ true → b ≡ false → ⊥
true_not_false h k = ground arith

message_prefixes-all_apart : all_apart message_prefixes ≡ true
unfolding all_apart agree
message_prefixes-all_apart = refl

same_macro :
    (m n : Macro) (ms : List Macro)
    → all_apart ms ≡ true
    → Memᴰ m ms
    → Memᴰ n ms
    → agree m.text n.text ≡ true
    → agree n.text m.text ≡ true
    → m ≡ n
unfolding all_apart
same_macro m n [] h j k a b = elim j [ ]
same_macro m n (x ∷ ms) h (head e) (head f) a b = e ∙ sym f
same_macro m n (x ∷ ms) h (head e) (tail k) a b =
    absurd (true_not_false (rw e at a) (apart-Mem x n ms (ground arith) k))
same_macro m n (x ∷ ms) h (tail j) (head f) a b =
    absurd (true_not_false (rw f at b) (apart-Mem x m ms (ground arith) j))
same_macro m n (x ∷ ms) h (tail j) (tail k) a b = same_macro m n ms (ground arith) j k a b

-- Two messages that begin with prefixes of the table are the same text only when the prefixes are the
-- same entry of it; so the prefix of a message is read off in one way at most.
pub message_prefix_unique :
    (m n : Macro) (a b : String)
    → Memᴰ m message_prefixes
    → Memᴰ n message_prefixes
    → m.text ++ a ≡ n.text ++ b
    → m ≡ n
message_prefix_unique m n a b j k e =
    same_macro m n message_prefixes message_prefixes-all_apart j k (agree-begin m.text n.text a b e)
      (agree-begin n.text m.text b a (sym e))
