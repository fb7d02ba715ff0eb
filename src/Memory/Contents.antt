-- ===== src/Memory/Contents.antt =====
-- What the operations of the tracing allocator of src/wpa_ctrl/os_unix.c do to the blocks.
use wpa_supplicant_ex.Shared.{
  ℕ, ◌+◌, ◌-◌, ◌%◌, ◌^◌, ◌≡◌, refl, sym, ap, ◌∙◌, ◌≢◌, subst, true, false, List, [], ◌∷◌, Option,
  none, some, arith, ◌==◌, if◌then◌else◌, length, length-put_at, length-take, leb, ltb, take,
  put_at, min, take-put_at,
}
use wpa_supplicant_ex.Memory.{
  Block, DlList, Memory, done, aborted, wild, alloc_magic, freed_magic, lookup, forget, update,
  retired, written, and_then, insert, stored, release, log, store, os_malloc, os_free, copy_content,
  after_malloc, os_realloc, asked, invalid_realloc, free_block, copy_block, realloc_block,
}
use wpa_supplicant_ex.Memory.Blocks.{
  lookup-update, lookup-update_other, lookup-forget, lookup-forgotten,
}
use wpa_supplicant_ex.Memory.Calls.{
  at_header-found, at_header-gone, then-at, store-fits, free-alive, malloc-given, lookup-insert,
}

past_head :
    (k a : ℕ) (b : Block) (bs : List (ℕ × Block)) → k ≢ a → lookup k ((a, b) ∷ bs) ≡ lookup k bs
past_head k a b bs other = let no : (a == k) ≡ false = ground arith in rw no refl

module _ {d : DlList} (h : ℕ) where
  -- A pointer that has been freed, and whose block malloc has not given again: freeing it again and
  -- reallocating it read the header behind `free`, for the magic that is to tell that it was freed.
  pub os_free-twice :
      (ptr : ℕ) (b : Block) (m : Memory d)
      → lookup (ptr - h) m.blocks ≡ some b
      → b.magic ≡ alloc_magic
      → (m' : Memory d) × (os_free d h (some ptr) m ≡ done tt m')
        × (os_free d h (some ptr) m' ≡ wild)
        × ((size : ℕ) → os_realloc d h (some ptr) size m' ≡ wild)
  unfolding os_free os_realloc
  os_free-twice ptr b m e alive =
      let m' = release d h ptr m in
      let gone : lookup (ptr - h) m'.blocks ≡ none =
        lookup-forgotten (ptr - h) (update (ptr - h) retired m.blocks) in
      (
        m',
        free-alive h ptr b m e alive,
        at_header-gone h ptr (free_block d h ptr) m' gone,
        λ size. at_header-gone h ptr (realloc_block d h ptr size) m' gone,
      )

  -- Reallocating a block in use, whose bytes are as many as its header says, when malloc gives
  -- another block, of the size that was asked for: the result points behind the new header, and
  -- the new block is in use, of the new size, and starts with what the old one started with, up
  -- to the lesser size; the old block is freed, and is gone, and no other changes.
  pub os_realloc-moves :
      (ptr size a : ℕ) (junk : List ℕ) (later : List (Option (ℕ × List ℕ))) (b : Block)
      (m : Memory d)
      → m.answers ≡ some (a, junk) ∷ later
      → length junk ≡ size
      → lookup (ptr - h) m.blocks ≡ some b
      → b.magic ≡ alloc_magic
      → length b.content ≡ b.len
      → a ≢ ptr - h
      → (m' : Memory d) × (os_realloc d h (some ptr) size m ≡ done (some (a + h)) m')
        × ((c : Block) × (lookup a m'.blocks ≡ some c)
            × (c.magic ≡ alloc_magic)
            × (c.len ≡ size)
            × (length c.content ≡ size)
            × (take (min b.len size) c.content ≡ take (min b.len size) b.content))
        × (lookup (ptr - h) m'.blocks ≡ none)
        × ((k : ℕ) → k ≢ a → k ≢ ptr - h → lookup k m'.blocks ≡ lookup k m.blocks)
  unfolding os_realloc realloc_block after_malloc copy_content copy_block
  os_realloc-moves ptr size a junk later b m answers sized e alive filled other = (
    m3,
    runs,
    (
      kept,
      new3,
      refl,
      refl,
      length-put_at 0 (take copy_len b.content) junk ∙ sized,
      take-put_at 0 (take copy_len b.content) junk (min b.len size) (omega (arith, copied_len))
            (omega (arith, sized))
          ∙ ap (λ n. take n b.content) copy_len-min,
    ),
    lookup-forgotten (ptr - h) (update (ptr - h) retired m2.blocks),
    λ k not_new not_old.
        lookup-forget k (ptr - h) (update (ptr - h) retired m2.blocks) not_old
        ∙ lookup-update_other k (ptr - h) retired m2.blocks not_old
        ∙ lookup-update_other k (a + h - h) (written 0 (take copy_len b.content)) m1.blocks
            (λ same. not_new (same ∙ back))
        ∙ past_head k a fresh (forget a m.blocks) not_new
        ∙ lookup-forget k a m.blocks not_new,
  )
    where
      copy_len : ℕ
      copy_len = if ltb size b.len then size else b.len

      copy_len-min : copy_len ≡ min b.len size
      copy_len-min = ground arith

      copied_len : length (take copy_len b.content) ≡ min b.len size
      copied_len = length-take copy_len b.content ∙ omega (arith, copy_len-min, filled)

      back : a + h - h ≡ a
      back = omega arith

      m0 : Memory d
      m0 = record (log d h (asked ((h + size) % 2 ^ 64) ∷ []) m) { answers = later }

      m1 : Memory d
      m1 = insert d h size a junk m0

      m2 : Memory d
      m2 = stored d h (a + h) 0 (take copy_len b.content) m1

      m3 : Memory d
      m3 = release d h ptr m2

      fresh : Block
      fresh = record { magic = alloc_magic; len = size; content = junk }

      kept : Block
      kept = record fresh { content = put_at 0 (take copy_len b.content) junk }

      fresh_found : lookup (a + h - h) m1.blocks ≡ some fresh
      fresh_found = lookup-insert h size a (a + h) junk m0 refl

      old1 : lookup (ptr - h) m1.blocks ≡ some b
      old1 =
          past_head (ptr - h) a fresh (forget a m.blocks) (λ same. other (sym same))
          ∙ lookup-forget (ptr - h) a m.blocks (λ same. other (sym same))
          ∙ e

      old2 : lookup (ptr - h) m2.blocks ≡ some b
      old2 =
          lookup-update_other (ptr - h) (a + h - h) (written 0 (take copy_len b.content)) m1.blocks
            (λ same. other (sym (same ∙ back)))
          ∙ old1

      new3 : lookup a m3.blocks ≡ some kept
      new3 =
          lookup-forget a (ptr - h) (update (ptr - h) retired m2.blocks) other
          ∙ lookup-update_other a (ptr - h) retired m2.blocks other
          ∙ subst (λ n. lookup n m2.blocks ≡ some kept) back
              (lookup-update (a + h - h) (written 0 (take copy_len b.content)) fresh m1.blocks
                fresh_found)

      copies : copy_content d h ptr (a + h) size m1 ≡ done tt m2
      copies =
          let inside : leb copy_len (length b.content) ≡ true =
            ground (arith, copy_len-min, filled) in
          at_header-found h ptr (copy_block d h (a + h) size) b m1 old1
          ∙ ap (λ t. (if t then store d h (a + h) 0 (take copy_len b.content) m1 else wild)) inside
          ∙ store-fits h (a + h) 0 (take copy_len b.content) fresh m1 fresh_found
              (omega (arith, copied_len, sized))

      moves : after_malloc d h ptr size (some (a + h)) m1 ≡ done (some (a + h)) m3
      moves =
          then-at h (copy_content d h ptr (a + h) size) _ tt m1 m2 copies
          ∙ then-at h (os_free d h (some ptr)) _ tt m2 m3 (free-alive h ptr b m2 old2 alive)

      runs : os_realloc d h (some ptr) size m ≡ done (some (a + h)) m3
      runs =
          let is_live : (b.magic == alloc_magic) ≡ true = ground arith in
          at_header-found h ptr (realloc_block d h ptr size) b m e
          ∙ ap
              (λ t.
                (if t
                  then and_then d h (os_malloc d h size) (after_malloc d h ptr size) m
                  else aborted (
                      log d h (invalid_realloc (ptr - h) b.magic (b.magic == freed_magic) ∷ []) m)))
              is_live
          ∙ then-at h (os_malloc d h size) (after_malloc d h ptr size) (some (a + h)) m m1
              (malloc-given h size a junk later m answers)
          ∙ moves
