-- ===== src/Examples/Memories.antt =====
-- The theorems on the allocator, applied.
use wpa_supplicant_ex.Shared.{
  ℕ, ◌+◌, ◌-◌, ◌^◌, ◌≡◌, ◌≢◌, min, refl, List, [], ◌∷◌, ◌++◌, none, some, length, take, arith,
}
use wpa_supplicant_ex.Memory.{
  Block, DlList, Memory, done, alloc_magic, lookup, log, os_realloc, os_program_init,
  os_program_deinit, asked, recorded,
}
use wpa_supplicant_ex.Memory.Blocks.{DlListLaws, erase}
use wpa_supplicant_ex.Memory.Calls.{malloc-given}
use wpa_supplicant_ex.Memory.Traced.{IsTraced}
use wpa_supplicant_ex.Memory.Contents.{os_realloc-moves}
use wpa_supplicant_ex.Memory.Arrays.{os_calloc, os_realloc_array, arrays-overflow}
use wpa_supplicant_ex.Memory.Leaks.{leaks, summary, os_program_deinit-leaks}
use wpa_supplicant_ex.Memory.Reach.{Reached, started, allocated, Reached-IsTraced}

-- The list as a list of addresses.
abbrev addresses : DlList
addresses = record {
  Links = List ℕ;
  dl_list_init = [];
  dl_list_add = λ l a. a ∷ l;
  dl_list_del = λ l a. erase a l;
  members = λ l. l;
}

addresses_laws : DlListLaws addresses
addresses_laws = record { init_empty = refl; add_first = λ l a. refl; del_removes = λ l a. refl }

-- A block of two bytes, and room for one of three.
abbrev two_bytes : Block
two_bytes = record { magic = alloc_magic; len = 2; content = 7 ∷ 8 ∷ [] }

abbrev in_use : Memory addresses
in_use = record {
  answers = some (200, 0 ∷ 0 ∷ 0 ∷ []) ∷ [];
  blocks = (100, two_bytes) ∷ [];
  alloc_list = 100 ∷ [];
  trace = [];
}

in_use-IsTraced : IsTraced in_use
in_use-IsTraced = record { listed = refl; filled = (refl, tt); found = (refl, tt) }

os_realloc-moves_example :
    (m' : Memory addresses) × (os_realloc addresses 16 (some 116) 3 in_use
      ≡ done (some (200 + 16)) m')
    × ((c : Block) × (lookup 200 m'.blocks ≡ some c)
        × (c.magic ≡ alloc_magic)
        × (c.len ≡ 3)
        × (length c.content ≡ 3)
        × (take (min 2 3) c.content ≡ take (min 2 3) (7 ∷ 8 ∷ [])))
    × (lookup (116 - 16) m'.blocks ≡ none)
    × ((k : ℕ) → k ≢ 200 → k ≢ 116 - 16 → lookup k m'.blocks ≡ lookup k in_use.blocks)
os_realloc-moves_example =
    os_realloc-moves 16 116 3 200 (0 ∷ 0 ∷ 0 ∷ []) [] two_bytes in_use refl refl refl refl refl
      (λ e. absurd (omega arith))

arrays-overflow_example :
    (os_calloc addresses 16 (2 ^ 63) 2 in_use ≡ done none in_use)
    × (os_realloc_array addresses 16 (some 116) (2 ^ 63) 2 in_use ≡ done none in_use)
arrays-overflow_example = arrays-overflow 16 (some 116) (2 ^ 63) 2 in_use

os_program_deinit-leaks_example :
    os_program_deinit addresses 16 in_use
    ≡ done tt (log addresses 16 (leaks in_use.blocks ++ summary 2) in_use)
os_program_deinit-leaks_example = os_program_deinit-leaks 16 in_use in_use-IsTraced

-- One block is allocated at the start.
abbrev empty : Memory addresses
empty = record { answers = some (100, 7 ∷ 8 ∷ []) ∷ []; blocks = []; alloc_list = []; trace = [] }

abbrev one_block : Memory addresses
one_block = record {
  answers = [];
  blocks = (100, two_bytes) ∷ [];
  alloc_list = 100 ∷ [];
  trace = asked 18 ∷ recorded 100 ∷ [];
}

one_block-Reached : Reached addresses 16 one_block
unfolding os_program_init
one_block-Reached =
    allocated empty (some 116) 2 (started empty refl refl) (omega arith) (tt, refl)
      (malloc-given 16 2 100 (7 ∷ 8 ∷ []) [] empty refl)

Reached-IsTraced_example : IsTraced one_block
Reached-IsTraced_example = Reached-IsTraced addresses addresses_laws 16 one_block-Reached
