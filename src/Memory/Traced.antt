-- ===== src/Memory/Traced.antt =====
-- The list of blocks that the tracing allocator of src/wpa_ctrl/os_unix.c keeps, over every run of its
-- operations.
use wpa_supplicant_ex.Shared.{
  ℕ, ◌+◌, ◌-◌, ◌%◌, ◌^◌, ◌≡◌, ◌<◌, refl, sym, ap, ◌∙◌, subst, true, List, [], ◌∷◌, Option, none,
  some, arith, inl, inr, Bool-cases, ◌==◌, if◌then◌else◌, length, length-put_at, leb, ltb, take,
}
use wpa_supplicant_ex.Memory.{
  Block, DlList, Memory, Run, done, aborted, wild, alloc_magic, lookup, M, and_then, insert,
  retired, written, store_in, free_block, copy_block, realloc_block, log, at_header, store,
  malloc_answer, os_malloc, os_free, copy_content, after_malloc, os_realloc, asked,
}
use wpa_supplicant_ex.Memory.Blocks.{
  live, erase, IsAbsent, AllFilled, DlListLaws, erase-absent, live-forget, live-freed, live-update,
  AllFound, AllFound-update, AllFound-insert, AllFound-forget, AllFilled-forget, AllFilled-update,
}

-- `alloc_list` has the headers of the blocks in use, the newest first; every block is as long as its
-- header says, and is the only one at its address.
pub record IsTraced {d : DlList} (m : Memory d) : Type 0 where
  pub listed : d.members m.alloc_list ≡ live m.blocks
  pub filled : AllFilled m.blocks
  pub found : AllFound m.blocks m.blocks

-- What malloc documents for a call for `size` bytes behind a header: the answer is NULL or a block of
-- as many bytes as were asked for, and no block in use.
abbrev pub IsFresh : ℕ → ℕ → List ℕ → List (Option (ℕ × List ℕ)) → Type 0
IsFresh header_size size used [] = Unit
IsFresh header_size size used (none ∷ later) = Unit
IsFresh header_size size used (some (a, junk) ∷ later) =
    IsAbsent a used × (header_size + length junk ≡ (header_size + size) % 2 ^ 64)

-- What holds of the value and the memory when a call returns.
abbrev pub After {ℓ} : {d : DlList} {A : Type ℓ} → (A → Memory d → Type 0) → Run d A → Type 0
After Q (done a m) = Q a m
After Q (aborted m) = Unit
After Q wild = Unit

pub After-then {ℓ κ} :
    {d : DlList} {A : Type ℓ} {B : Type κ} (h : ℕ) (Q : A → Memory d → Type 0)
    (R : B → Memory d → Type 0) (o : M d h A) (k : A → M d h B) (m : Memory d)
    → After Q (o m)
    → ((a : A) (m' : Memory d) → Q a m' → After R (k a m'))
    → After R (and_then d h o k m)
After-then {d} {A} {B} h Q R o k m before go = over (o m) before
  where
    over : (r : Run d A) → After Q r → After R (and_then d h (λ m. r) k m)
    over (done a m') q = go a m' q
    over (aborted m') q = tt
    over wild q = tt

module _ (d : DlList) (laws : DlListLaws d) (h : ℕ) where
  -- With the header in front of the pointer.
  at_header-After {ℓ} :
      {A : Type ℓ} (Q : A → Memory d → Type 0) (ptr : ℕ) (f : Block → M d h A) (m : Memory d)
      → ((b : Block) → lookup (ptr - h) m.blocks ≡ some b → After Q (f b m))
      → After Q (at_header d h ptr f m)
  unfolding at_header
  at_header-After {A = A} Q ptr f m go = over (lookup (ptr - h) m.blocks) go
    where
      over :
          (o : Option Block)
          → ((b : Block) → o ≡ some b → After Q (f b m))
          → After Q ((elim o as (λ x. Run d A) [ none ↦ wild | some b ↦ f b m ]))
      over none go = tt
      over (some b) go = go b refl

  pub store-IsTraced :
      (ptr i : ℕ) (xs : List ℕ) (m : Memory d)
      → IsTraced m
      → After (λ u m'. IsTraced m') (store d h ptr i xs m)
  unfolding store store_in
  store-IsTraced ptr i xs m t =
      at_header-After (λ u m'. IsTraced m') ptr (store_in d h ptr i xs) m
        λ b e. elim (Bool-cases (leb (i + length xs) (length b.content))) [
          | inr past ↦ rw past tt
          | inl fits ↦ rw fits (record {
            listed = t.listed ∙ sym (live-update (ptr - h) _ m.blocks (λ b. refl));
            filled =
                AllFilled-update (ptr - h) _ m.blocks (λ b e. length-put_at i xs b.content ∙ e)
                  t.filled;
            found = AllFound-update (ptr - h) (written i xs) m.blocks m.blocks t.found;
          })
        ]

  pub os_free-IsTraced :
      (ptr : Option ℕ) (m : Memory d) → IsTraced m → After (λ u m'. IsTraced m') (os_free d h ptr m)
  unfolding os_free free_block
  os_free-IsTraced none m t = t
  os_free-IsTraced (some ptr) m t =
      at_header-After (λ u m'. IsTraced m') ptr (free_block d h ptr) m
        λ b e. elim (Bool-cases (b.magic == alloc_magic)) [
          | inr dead ↦ rw dead tt
          | inl alive ↦ rw alive (record {
            listed =
                laws.del_removes m.alloc_list (ptr - h)
                ∙ ap (erase (ptr - h)) t.listed
                ∙ sym (live-freed (ptr - h) m.blocks);
            filled =
                AllFilled-forget (ptr - h) _
                  (AllFilled-update (ptr - h) _ m.blocks (λ b e. e) t.filled);
            found =
                AllFound-forget (ptr - h) _ _
                  (AllFound-update (ptr - h) retired m.blocks m.blocks t.found);
          })
        ]

  insert-IsTraced :
      (size a : ℕ) (junk : List ℕ) (m : Memory d)
      → IsTraced m
      → IsAbsent a (live m.blocks)
      → length junk ≡ size
      → IsTraced (insert d h size a junk m)
  insert-IsTraced size a junk m t fresh sized = record {
    listed =
        laws.add_first m.alloc_list a
        ∙ ap (λ l. a ∷ l)
            (t.listed ∙ sym (live-forget a m.blocks ∙ erase-absent a (live m.blocks) fresh));
    filled = (sized, AllFilled-forget a m.blocks t.filled);
    found = (
      (let same : (a == a) ≡ true = ground arith in rw same refl),
      AllFound-insert a (record { magic = alloc_magic; len = size; content = junk }) m.blocks
          m.blocks t.found,
    );
  }

  pub os_malloc-IsTraced :
      (size : ℕ) (m : Memory d)
      → h + size < 2 ^ 64
      → IsFresh h size (live m.blocks) m.answers
      → IsTraced m
      → After (λ p m'. IsTraced m') (os_malloc d h size m)
  unfolding os_malloc malloc_answer
  os_malloc-IsTraced size m small fresh t =
      go m.answers fresh (log d h (asked ((h + size) % 2 ^ 64) ∷ []) m) refl
        (record { listed = t.listed; filled = t.filled; found = t.found })
    where
      go :
          (as' : List (Option (ℕ × List ℕ)))
          → IsFresh h size (live m.blocks) as'
          → (m' : Memory d) → m'.blocks ≡ m.blocks
          → IsTraced m'
          → After (λ p m'. IsTraced m') (malloc_answer d h size as' m')
      go [] f m' same t = t
      go (none ∷ later) f m' same t = record {
        listed = t.listed;
        filled = t.filled;
        found = t.found;
      }
      go (some (a, junk) ∷ later) f m' same t =
          insert-IsTraced size a junk (record m' { answers = later })
            (record { listed = t.listed; filled = t.filled; found = t.found })
            (subst (λ l. IsAbsent a (live l)) (sym same) f.0) (omega (arith, f.1, small))

  copy_content-IsTraced :
      (ptr n size : ℕ) (m : Memory d)
      → IsTraced m
      → After (λ u m'. IsTraced m') (copy_content d h ptr n size m)
  unfolding copy_content copy_block
  copy_content-IsTraced ptr n size m t =
      at_header-After (λ u m'. IsTraced m') ptr (copy_block d h n size) m
        λ b e. elim (Bool-cases (leb (if ltb size b.len then size else b.len) (length b.content))) [
          | inr past ↦ rw past tt
          | inl fits ↦
              rw fits
                (store-IsTraced n 0 (take (if ltb size b.len then size else b.len) b.content) m t)
        ]

  after_malloc-IsTraced :
      (ptr size : ℕ) (n : Option ℕ) (m : Memory d)
      → IsTraced m
      → After (λ p m'. IsTraced m') (after_malloc d h ptr size n m)
  unfolding after_malloc
  after_malloc-IsTraced ptr size none m t = t
  after_malloc-IsTraced ptr size (some n) m t =
      After-then h (λ u m'. IsTraced m') (λ p m'. IsTraced m') (copy_content d h ptr n size) _ m
        (copy_content-IsTraced ptr n size m t)
        (λ u m' t'.
          After-then h (λ u m'. IsTraced m') (λ p m'. IsTraced m') (os_free d h (some ptr)) _ m'
            (os_free-IsTraced (some ptr) m' t') (λ u m'' t''. t''))

  pub os_realloc-IsTraced :
      (ptr : Option ℕ) (size : ℕ) (m : Memory d)
      → h + size < 2 ^ 64
      → IsFresh h size (live m.blocks) m.answers
      → IsTraced m
      → After (λ p m'. IsTraced m') (os_realloc d h ptr size m)
  unfolding os_realloc realloc_block
  os_realloc-IsTraced none size m small fresh t = os_malloc-IsTraced size m small fresh t
  os_realloc-IsTraced (some ptr) size m small fresh t =
      at_header-After (λ p m'. IsTraced m') ptr (realloc_block d h ptr size) m
        λ b e. elim (Bool-cases (b.magic == alloc_magic)) [
          | inr dead ↦ rw dead tt
          | inl alive ↦ rw alive (
              After-then h (λ p m'. IsTraced m') (λ p m'. IsTraced m') (os_malloc d h size)
                (after_malloc d h ptr size) m (os_malloc-IsTraced size m small fresh t)
                (λ n m' t'. after_malloc-IsTraced ptr size n m' t'))
        ]
