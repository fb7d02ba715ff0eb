-- ===== src/Memory/Reach.antt =====
-- The memories that a program reaches with the tracing allocator of src/wpa_ctrl/os_unix.c.
use wpa_supplicant_ex.Shared.{ℕ, ◌+◌, ◌^◌, ◌≡◌, ◌<◌, sym, ap, subst, ◌∙◌, List, [], Option}
use wpa_supplicant_ex.Memory.{
  DlList, Memory, done, store, os_malloc, os_free, os_realloc, os_program_init,
}
use wpa_supplicant_ex.Memory.Blocks.{DlListLaws, live, AllFilled, AllFound}
use wpa_supplicant_ex.Memory.Traced.{
  IsTraced, IsFresh, After, os_malloc-IsTraced, os_free-IsTraced, store-IsTraced,
  os_realloc-IsTraced,
}

-- Behind `os_program_init`, any calls in any order, and any writes inside the blocks.
pub data Reached (d : DlList) (h : ℕ) : Memory d → Type 0 where
  started :
      (m : Memory d) {m' : Memory d}
      → m.blocks ≡ []
      → os_program_init d h m ≡ done 0 m'
      → Reached d h m'
  allocated :
      (m : Memory d) {m' : Memory d} (p : Option ℕ) (size : ℕ)
      → Reached d h m
      → h + size < 2 ^ 64
      → IsFresh h size (live m.blocks) m.answers
      → os_malloc d h size m ≡ done p m'
      → Reached d h m'
  freed :
      (m : Memory d) {m' : Memory d} (p : Option ℕ)
      → Reached d h m
      → os_free d h p m ≡ done tt m'
      → Reached d h m'
  moved :
      (m : Memory d) {m' : Memory d} (p q : Option ℕ) (size : ℕ)
      → Reached d h m
      → h + size < 2 ^ 64
      → IsFresh h size (live m.blocks) m.answers
      → os_realloc d h p size m ≡ done q m'
      → Reached d h m'
  wrote :
      (m : Memory d) {m' : Memory d} (p i : ℕ) (xs : List ℕ)
      → Reached d h m
      → store d h p i xs m ≡ done tt m'
      → Reached d h m'

module _ (d : DlList) (laws : DlListLaws d) (h : ℕ) where
  -- However a program allocates, reallocates, writes and frees behind `os_program_init`, when the
  -- lists of list.h do what they document, malloc gives blocks of the sizes asked for, none of
  -- them in use, and the sizes with the header are below 2 ^ 64: the list has exactly the blocks
  -- in use, every block is as long as its header says, and each is the one that is found at its
  -- address.
  pub Reached-IsTraced : {m : Memory d} → Reached d h m → IsTraced m
  unfolding os_program_init
  Reached-IsTraced (started m none_yet e) =
      subst (λ o. After (λ p m'. IsTraced m') o) e
        (record {
          listed = laws.init_empty ∙ sym (ap live none_yet);
          filled = subst AllFilled (sym none_yet) tt;
          found = subst (λ bs. AllFound bs bs) (sym none_yet) tt;
        })
  Reached-IsTraced (allocated m p size r small fresh e) =
      subst (λ o. After (λ p m'. IsTraced m') o) e
        (os_malloc-IsTraced d laws h size m small fresh (Reached-IsTraced r))
  Reached-IsTraced (freed m p r e) =
      subst (λ o. After (λ p m'. IsTraced m') o) e
        (os_free-IsTraced d laws h p m (Reached-IsTraced r))
  Reached-IsTraced (moved m p q size r small fresh e) =
      subst (λ o. After (λ p m'. IsTraced m') o) e
        (os_realloc-IsTraced d laws h p size m small fresh (Reached-IsTraced r))
  Reached-IsTraced (wrote m p i xs r e) =
      subst (λ o. After (λ p m'. IsTraced m') o) e
        (store-IsTraced d laws h p i xs m (Reached-IsTraced r))
