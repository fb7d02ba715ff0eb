-- ===== src/Memory/Calls.antt =====
-- The calls of the tracing allocator of src/wpa_ctrl/os_unix.c that succeed.
use wpa_supplicant_ex.Shared.{
  ℕ, ◌+◌, ◌-◌, ◌%◌, ◌^◌, ◌≡◌, ◌≤◌, refl, sym, ap, subst, true, List, [], ◌∷◌, Option, none, some,
  arith, ◌==◌, length, leb,
}
use wpa_supplicant_ex.Memory.{
  Block, DlList, Memory, Run, done, aborted, wild, alloc_magic, lookup, M, and_then, insert, stored,
  release, log, at_header, store, malloc_answer, os_malloc, os_free, asked, store_in, free_block,
}

module _ {d : DlList} (h : ℕ) where
  pub at_header-found {ℓ} :
      {A : Type ℓ} (ptr : ℕ) (f : Block → M d h A) (b : Block) (m : Memory d)
      → lookup (ptr - h) m.blocks ≡ some b
      → at_header d h ptr f m ≡ f b m
  unfolding at_header
  at_header-found {A = A} ptr f b m e =
      ap (λ o. elim o as (λ x. Run d A) [ none ↦ wild | some b ↦ f b m ]) e

  pub at_header-gone {ℓ} :
      {A : Type ℓ} (ptr : ℕ) (f : Block → M d h A) (m : Memory d)
      → lookup (ptr - h) m.blocks ≡ none
      → at_header d h ptr f m ≡ wild
  unfolding at_header
  at_header-gone {A = A} ptr f m e =
      ap (λ o. elim o as (λ x. Run d A) [ none ↦ wild | some b ↦ f b m ]) e

  pub then-at {ℓ κ} :
      {A : Type ℓ} {B : Type κ} (o : M d h A) (k : A → M d h B) (a : A) (m m' : Memory d)
      → o m ≡ done a m'
      → and_then d h o k m ≡ k a m'
  then-at {B = B} o k a m m' e =
      ap
        (λ r. elim r as (λ x. Run d B) [
          | done a s' ↦ k a s'
          | aborted s' ↦ aborted s'
          | wild ↦ wild
        ])
        e

  -- A write inside a block.
  pub store-fits :
      (ptr i : ℕ) (xs : List ℕ) (b : Block) (m : Memory d)
      → lookup (ptr - h) m.blocks ≡ some b
      → i + length xs ≤ length b.content
      → store d h ptr i xs m ≡ done tt (stored d h ptr i xs m)
  unfolding store store_in
  store-fits ptr i xs b m e fits =
      let inside : leb (i + length xs) (length b.content) ≡ true = ground arith in
      subst (λ o. o ≡ done tt (stored d h ptr i xs m))
        (sym (at_header-found ptr (store_in d h ptr i xs) b m e)) (rw inside refl)

  pub free-alive :
      (ptr : ℕ) (b : Block) (m : Memory d)
      → lookup (ptr - h) m.blocks ≡ some b
      → b.magic ≡ alloc_magic
      → os_free d h (some ptr) m ≡ done tt (release d h ptr m)
  unfolding os_free free_block
  free-alive ptr b m e alive =
      let is_live : (b.magic == alloc_magic) ≡ true = ground arith in
      subst (λ o. o ≡ done tt (release d h ptr m))
        (sym (at_header-found ptr (free_block d h ptr) b m e)) (rw is_live refl)

  pub malloc-given :
      (size a : ℕ) (junk : List ℕ) (later : List (Option (ℕ × List ℕ))) (m : Memory d)
      → m.answers ≡ some (a, junk) ∷ later
      → os_malloc d h size m
        ≡ done (some (a + h)) (
            insert d h size a junk
              (record (log d h (asked ((h + size) % 2 ^ 64) ∷ []) m) { answers = later }))
  unfolding os_malloc malloc_answer
  malloc-given size a junk later m e =
      ap (λ l. malloc_answer d h size l (log d h (asked ((h + size) % 2 ^ 64) ∷ []) m)) e

  pub malloc-full :
      (size : ℕ) (later : List (Option (ℕ × List ℕ))) (m : Memory d)
      → m.answers ≡ none ∷ later
      → os_malloc d h size m
        ≡ done none (record (log d h (asked ((h + size) % 2 ^ 64) ∷ []) m) { answers = later })
  unfolding os_malloc malloc_answer
  malloc-full size later m e =
      ap (λ l. malloc_answer d h size l (log d h (asked ((h + size) % 2 ^ 64) ∷ []) m)) e

  pub lookup-insert :
      (size a ptr : ℕ) (junk : List ℕ) (m : Memory d)
      → ptr ≡ a + h
      → lookup (ptr - h) (insert d h size a junk m).blocks
        ≡ some (record { magic = alloc_magic; len = size; content = junk })
  lookup-insert size a ptr junk m e =
      let same : (a == ptr - h) ≡ true = ground arith in rw same refl
