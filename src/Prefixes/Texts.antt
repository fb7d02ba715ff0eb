-- ===== src/Prefixes/Texts.antt =====
-- Texts that begin the same message.
use wpa_supplicant_ex.Shared.{◌≡◌, refl, sym, ap, ◌∙◌, Bool, true, ◌&&◌, ◌==◌, ==_iff, arith}
use Prim.Native.Char.{Char, code}
use Prim.Native.String.{String, [], ◌∷◌, ◌++◌}
use Prim.Native.String.append

-- One of the two texts begins with the other.
unfoldable pub agree : String → String → Bool
agree [] t = true
agree (c ∷ s) [] = true
agree (c ∷ s) (d ∷ t) = (code c == code d) && agree s t

first : String → Char → Char
first [] c = c
first (d ∷ s) c = d

rest : String → String
rest [] = []
rest (d ∷ s) = s

pub agree-begin : (s t a b : String) → s ++ a ≡ t ++ b → agree s t ≡ true
unfolding agree first rest
agree-begin [] t a b e = refl
agree-begin (c ∷ s) [] a b e = refl
agree-begin (c ∷ s) (d ∷ t) a b e =
    ground (arith, ==_iff (code c) (code d), ap code heads, agree-begin s t a b tails)
  where
    whole : c ∷ (s ++ a) ≡ d ∷ (t ++ b)
    whole = sym (append.cons c s a) ∙ e ∙ append.cons d t b

    heads : c ≡ d
    heads = ap (λ u. first u c) whole

    tails : s ++ a ≡ t ++ b
    tails = ap rest whole
