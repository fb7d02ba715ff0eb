-- ===== src/Memory/Leaks.antt =====
-- The report of leaks of src/wpa_ctrl/os_unix.c.
use wpa_supplicant_ex.Shared.{
  ℕ, ◌+◌, ◌%◌, ◌^◌, ◌≡◌, refl, sym, ap, ap₂, Bool, ◌∙◌, subst, true, false, List, [], ◌∷◌, ◌++◌,
  none, some, arith, inl, inr, Bool-cases, ◌==◌, if◌then◌else◌, append_assoc, append-nil,
}
use wpa_supplicant_ex.Memory.{
  Block, DlList, Memory, Run, done, wild, and_then, log, Event, leaked, leaked_total, report,
  report_loop, report_total, os_program_deinit,
}
use wpa_supplicant_ex.Memory.Blocks.{is_live, live, AllFound}
use wpa_supplicant_ex.Memory.Traced.{IsTraced}

-- The blocks in use, each with its length, and the sum of the lengths.
abbrev pub leaks : List (ℕ × Block) → List Event
leaks [] = []
leaks ((a, b) ∷ bs) = if is_live b then leaked a b.len ∷ leaks bs else leaks bs

abbrev pub leaked_bytes : List (ℕ × Block) → ℕ
leaked_bytes [] = 0
leaked_bytes ((a, b) ∷ bs) = if is_live b then b.len + leaked_bytes bs else leaked_bytes bs

abbrev pub summary : ℕ → List Event
summary total = if total == 0 then [] else leaked_total total ∷ []

module _ {d : DlList} (h : ℕ) where
  report_loop-leaks :
      (bs : List (ℕ × Block)) (total : ℕ) (m : Memory d)
      → AllFound bs m.blocks
      → report_loop d h (live bs) (total % 2 ^ 64) m
        ≡ done ((total + leaked_bytes bs) % 2 ^ 64) (log d h (leaks bs) m)
  unfolding report_loop report
  report_loop-leaks [] total m found =
      ap₂ done (ap (λ n. n % 2 ^ 64) (omega arith)) (ground (arith, append-nil m.trace))
  report_loop-leaks ((a, b) ∷ bs) total m found =
      go (is_live b) refl (report_loop-leaks bs total m found.1) (λ m' total' same.
        report_loop-leaks bs total' m' (subst (λ l. AllFound bs l) (sym same) found.1))
    where
      rest : ℕ → Memory d → Run d ℕ
      rest t m' = report_loop d h (live bs) t m'

      go :
          (t : Bool)
          → is_live b ≡ t
          → rest (total % 2 ^ 64) m
            ≡ done ((total + leaked_bytes bs) % 2 ^ 64) (log d h (leaks bs) m)
          → ((m' : Memory d) (total' : ℕ)
              → m'.blocks ≡ m.blocks
              → rest (total' % 2 ^ 64) m'
                ≡ done ((total' + leaked_bytes bs) % 2 ^ 64) (log d h (leaks bs) m'))
          → report_loop d h (if t then a ∷ live bs else live bs) (total % 2 ^ 64) m
            ≡ done
                ((total + (if t then b.len + leaked_bytes bs else leaked_bytes bs)) % 2 ^ 64)
                (log d h (if t then leaked a b.len ∷ leaks bs else leaks bs) m)
      go false dead skip again = skip
      go true alive skip again =
          let named : report d h a b ≡ leaked a b.len ∷ [] = rw alive refl in
          ap
            (λ o. elim o as (λ x. Run d ℕ) [
              | none ↦ wild
              | some c ↦
                  report_loop d h (live bs) ((total % 2 ^ 64 + c.len) % 2 ^ 64)
                    (log d h (report d h a c) m)
            ])
            found.0
          ∙ ap (λ es. report_loop d h (live bs) ((total % 2 ^ 64 + b.len) % 2 ^ 64) (log d h es m))
              named
          ∙ again (log d h (leaked a b.len ∷ []) m) (total % 2 ^ 64 + b.len) refl
          ∙ ap₂ done (omega arith) (
              ap (λ t. record m { trace = t })
                (append_assoc m.trace (leaked a b.len ∷ []) (leaks bs)))

  -- Where the list has exactly the blocks in use and each is the one found at its address, the
  -- report at the end names every block in use with its length, the newest first, and no other,
  -- takes none of them for damaged, and ends with the sum of the lengths, as an `unsigned long`,
  -- if it is not zero; a memory with no block in use reports nothing.
  pub os_program_deinit-leaks :
      (m : Memory d)
      → IsTraced m
      → os_program_deinit d h m
        ≡ done tt (log d h (leaks m.blocks ++ summary (leaked_bytes m.blocks % 2 ^ 64)) m)
  unfolding os_program_deinit report_total
  os_program_deinit-leaks m t =
      ap (λ l. and_then d h (report_loop d h l 0) (report_total d h) m) t.listed
      ∙ ap (λ r. and_then d h (λ s. r) (report_total d h) m)
          (report_loop-leaks m.blocks 0 m t.found)
      ∙ ap (λ n. report_total d h (n % 2 ^ 64) (log d h (leaks m.blocks) m)) (omega arith)
      ∙ go (leaked_bytes m.blocks % 2 ^ 64)
    where
      go :
          (n : ℕ)
          → report_total d h n (log d h (leaks m.blocks) m)
            ≡ done tt (log d h (leaks m.blocks ++ summary n) m)
      go n = elim (Bool-cases (n == 0)) [
        | inl none_left ↦ rw (none_left, append-nil (leaks m.blocks)) refl
        | inr some_left ↦ rw some_left (
            ap (λ t. done tt (record m { trace = t }))
              (append_assoc m.trace (leaks m.blocks) (leaked_total n ∷ [])))
      ]
