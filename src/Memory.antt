-- ===== src/Memory.antt =====
-- The allocator of src/wpa_ctrl/os_unix.c that traces its blocks (WPA_TRACE). The C library's malloc
-- answers from a list, its free and the functions of trace.h are entries in a log, and the lists of
-- list.h are the record `DlList`.
pub mod Blocks
pub mod Traced
pub mod Calls
pub mod Contents
pub mod Arrays
pub mod Leaks
pub mod Reach
use wpa_supplicant_ex.Shared.{
  ℕ, ◌+◌, ◌-◌, ◌*◌, ◌/◌, ◌%◌, ◌^◌, Bool, ◌&&◌, List, [], ◌∷◌, ◌++◌, Option, none, some, ltb, leb,
  ◌==◌, if◌then◌else◌, length, take, put_at, replicate, not,
}

abbrev pub alloc_magic : ℕ
alloc_magic = 2823745970

abbrev pub freed_magic : ℕ
freed_magic = 1744652410

-- list.h: an intrusive list of blocks, named by the addresses of their headers.
pub record DlList : Type 1 where
  pub Links : Type 0
  pub dl_list_init : Links
  pub dl_list_add : Links → ℕ → Links
  pub dl_list_del : Links → ℕ → Links
  -- what `dl_list_for_each` visits, in its order
  pub members : Links → List ℕ

-- The header `struct os_alloc_trace`, without its links, and the bytes behind it.
pub record Block : Type 0 where
  pub magic : ℕ
  pub len : ℕ
  pub content : List ℕ

-- What goes to the outside.
pub data Event : Type 0 where
  -- `malloc` of so many bytes
  asked : ℕ → Event
  -- wpa_trace_record, wpa_trace_check_ref and free
  recorded : ℕ → Event
  checked : ℕ → Event
  released : ℕ → Event
  -- the message on a block with this magic, and whether it says "already freed"
  invalid_realloc : ℕ → ℕ → Bool → Event
  invalid_free : ℕ → ℕ → Bool → Event
  -- the three messages of os_program_deinit: an invalid magic and a length, a length, a total
  leaked_invalid : ℕ → ℕ → ℕ → Event
  leaked : ℕ → ℕ → Event
  leaked_total : ℕ → Event

-- An answer of `malloc` is an address with what the bytes behind the header hold; a list that has
-- ended is a memory without room.
pub record Memory (d : DlList) : Type 0 where
  pub answers : List (Option (ℕ × List ℕ))
  pub blocks : List (ℕ × Block)
  pub alloc_list : d.Links
  pub trace : List Event

-- `wild` is an access to bytes that no block has.
pub data Run {ℓ} (d : DlList) (A : Type ℓ) : Type ℓ where
  done : A → Memory d → Run d A
  aborted : Memory d → Run d A
  wild : Run d A

abbrev pub lookup : ℕ → List (ℕ × Block) → Option Block
lookup a [] = none
lookup a ((k, b) ∷ bs) = if k == a then some b else lookup a bs

abbrev pub forget : ℕ → List (ℕ × Block) → List (ℕ × Block)
forget a [] = []
forget a ((k, b) ∷ bs) = if k == a then forget a bs else (k, b) ∷ forget a bs

abbrev pub update : ℕ → (Block → Block) → List (ℕ × Block) → List (ℕ × Block)
update a f [] = []
update a f ((k, b) ∷ bs) = if k == a then (k, f b) ∷ update a f bs else (k, b) ∷ update a f bs

abbrev pub retired : Block → Block
retired b = record b { magic = freed_magic }

abbrev pub written : ℕ → List ℕ → Block → Block
written i xs b = record b { content = put_at i xs b.content }

-- `header_size` is `sizeof(struct os_alloc_trace)`; a pointer that the functions give or take is so
-- far behind the header.
module _ (d : DlList) (header_size : ℕ) where
  abbrev pub M {ℓ} : Type ℓ → Type ℓ
  M A = Memory d → Run d A

  abbrev pub and_then {ℓ κ} : {A : Type ℓ} {B : Type κ} → M A → (A → M B) → M B
  and_then m k s = elim (m s) [ done a s' ↦ k a s' | aborted s' ↦ aborted s' | wild ↦ wild ]

  abbrev pub give {ℓ} : {A : Type ℓ} → A → M A
  give a s = done a s

  abbrev pub log : List Event → Memory d → Memory d
  log es m = record m { trace = m.trace ++ es }

  -- The header in front of a pointer.
  pub at_header {ℓ} : {A : Type ℓ} → ℕ → (Block → M A) → M A
  at_header ptr f m = elim (lookup (ptr - header_size) m.blocks) [ none ↦ wild | some b ↦ f b m ]

  abbrev pub stored : ℕ → ℕ → List ℕ → Memory d → Memory d
  stored ptr i xs m = record m { blocks = update (ptr - header_size) (written i xs) m.blocks }

  pub store_in : ℕ → ℕ → List ℕ → Block → M (Unit {0})
  store_in ptr i xs b m =
      if leb (i + length xs) (length b.content) then done tt (stored ptr i xs m) else wild

  -- A write of bytes at an offset of a block's content.
  pub store : ℕ → ℕ → List ℕ → M (Unit {0})
  unfolding at_header store_in
  store ptr i xs = at_header ptr (store_in ptr i xs)

  -- The block that `malloc` has given.
  abbrev pub insert : ℕ → ℕ → List ℕ → Memory d → Memory d
  insert size a junk m = record m {
    blocks = (a, record { magic = alloc_magic; len = size; content = junk }) ∷ forget a m.blocks;
    alloc_list = d.dl_list_add m.alloc_list a;
    trace = m.trace ++ (recorded a ∷ []);
  }

  pub malloc_answer : ℕ → List (Option (ℕ × List ℕ)) → M (Option ℕ)
  malloc_answer size [] m = done none m
  malloc_answer size (none ∷ later) m = done none (record m { answers = later })
  malloc_answer size (some (a, junk) ∷ later) m =
      done (some (a + header_size)) (insert size a junk (record m { answers = later }))

  pub os_malloc : ℕ → M (Option ℕ)
  unfolding malloc_answer
  os_malloc size m =
      malloc_answer size m.answers (log (asked ((header_size + size) % 2 ^ 64) ∷ []) m)

  -- Behind `free` the block's bytes are no longer the program's: any later access to them is `wild`.
  abbrev pub release : ℕ → Memory d → Memory d
  release ptr m = record m {
    blocks = forget (ptr - header_size) (update (ptr - header_size) retired m.blocks);
    alloc_list = d.dl_list_del m.alloc_list (ptr - header_size);
    trace = m.trace ++ (checked ptr ∷ released (ptr - header_size) ∷ []);
  }

  -- With the block in front of the pointer.
  pub free_block : ℕ → Block → M (Unit {0})
  free_block ptr b m =
      if b.magic == alloc_magic
      then done tt (release ptr m)
      else aborted (log (invalid_free (ptr - header_size) b.magic (b.magic == freed_magic) ∷ []) m)

  pub os_free : Option ℕ → M (Unit {0})
  unfolding at_header free_block
  os_free none = give tt
  os_free (some ptr) = at_header ptr (free_block ptr)

  -- `os_memcpy(n, a + 1, copy_len)` with the lesser of the two lengths.
  pub copy_block : ℕ → ℕ → Block → M (Unit {0})
  unfolding store
  copy_block n size b m =
      let copy_len = if ltb size b.len then size else b.len in
      if leb copy_len (length b.content) then store n 0 (take copy_len b.content) m else wild

  pub copy_content : ℕ → ℕ → ℕ → M (Unit {0})
  unfolding at_header copy_block
  copy_content ptr n size = at_header ptr (copy_block n size)

  pub after_malloc : ℕ → ℕ → Option ℕ → M (Option ℕ)
  unfolding copy_content os_free
  after_malloc ptr size none = give none
  after_malloc ptr size (some n) =
      and_then (copy_content ptr n size) λ _. and_then (os_free (some ptr)) λ _. give (some n)

  pub realloc_block : ℕ → ℕ → Block → M (Option ℕ)
  unfolding os_malloc after_malloc
  realloc_block ptr size b m =
      if b.magic == alloc_magic
      then and_then (os_malloc size) (after_malloc ptr size) m
      else aborted
          (log (invalid_realloc (ptr - header_size) b.magic (b.magic == freed_magic) ∷ []) m)

  pub os_realloc : Option ℕ → ℕ → M (Option ℕ)
  unfolding at_header os_malloc realloc_block
  os_realloc none size = os_malloc size
  os_realloc (some ptr) size = at_header ptr (realloc_block ptr size)

  pub zeroed : ℕ → Option ℕ → M (Option ℕ)
  unfolding store
  zeroed size none = give none
  zeroed size (some ptr) = and_then (store ptr 0 (replicate size 0)) λ _. give (some ptr)

  pub os_zalloc : ℕ → M (Option ℕ)
  unfolding os_malloc zeroed
  os_zalloc size = and_then (os_malloc size) (zeroed size)

  pub copied : List ℕ → Option ℕ → M (Option ℕ)
  unfolding store
  copied s none = give none
  copied s (some ptr) =
      and_then (store ptr 0 s) λ _. and_then (store ptr (length s) (0 ∷ [])) λ _. give (some ptr)

  -- `s` is the string without its NUL.
  pub os_strdup : List ℕ → M (Option ℕ)
  unfolding os_malloc copied
  os_strdup s = and_then (os_malloc (length s + 1)) (copied s)

  -- Elsewhere than on Android, which sets the groups and capabilities of the process first.
  unfoldable pub os_program_init : M ℕ
  os_program_init m = done 0 (record m { alloc_list = d.dl_list_init })

  pub report : ℕ → Block → List Event
  report a b =
      if b.magic == alloc_magic then leaked a b.len ∷ [] else leaked_invalid a b.magic b.len ∷ []

  -- `dl_list_for_each`, with the `unsigned long` total.
  pub report_loop : List ℕ → ℕ → M ℕ
  unfolding report
  report_loop [] total m = done total m
  report_loop (a ∷ rest) total m = elim (lookup a m.blocks) [
    | none ↦ wild
    | some b ↦ report_loop rest ((total + b.len) % 2 ^ 64) (log (report a b) m)
  ]

  pub report_total : ℕ → M (Unit {0})
  report_total total m = if total == 0 then done tt m else done tt (log (leaked_total total ∷ []) m)

  pub os_program_deinit : M (Unit {0})
  unfolding report_loop report_total
  os_program_deinit m = and_then (report_loop (d.members m.alloc_list) 0) report_total m
