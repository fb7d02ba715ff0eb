-- ===== src/Memory/Blocks.antt =====
-- The blocks of the tracing allocator of src/wpa_ctrl/os_unix.c, by the addresses of their headers.
use wpa_supplicant_ex.Shared.{
  ℕ, ◌≡◌, refl, sym, ap, ◌∙◌, ◌≢◌, Bool, false, List, [], ◌∷◌, none, some, arith, inl, inr,
  Bool-cases, ◌==◌, ==-ne, if◌then◌else◌, length,
}
use wpa_supplicant_ex.Memory.{Block, DlList, alloc_magic, lookup, forget, update, retired}

abbrev pub is_live : Block → Bool
is_live b = b.magic == alloc_magic

-- The headers with the magic of a block in use.
abbrev pub live : List (ℕ × Block) → List ℕ
live [] = []
live ((a, b) ∷ bs) = if is_live b then a ∷ live bs else live bs

abbrev pub erase : ℕ → List ℕ → List ℕ
erase a [] = []
erase a (x ∷ xs) = if x == a then erase a xs else x ∷ erase a xs

abbrev pub IsAbsent : ℕ → List ℕ → Type 0
IsAbsent a [] = Unit
IsAbsent a (x ∷ xs) = (x ≢ a) × IsAbsent a xs

-- Every block has as many bytes as its header says.
abbrev pub AllFilled : List (ℕ × Block) → Type 0
AllFilled [] = Unit
AllFilled ((a, b) ∷ bs) = (length b.content ≡ b.len) × AllFilled bs

-- Each of the first blocks is the one that is found under its address.
abbrev pub AllFound : List (ℕ × Block) → List (ℕ × Block) → Type 0
AllFound [] bs = Unit
AllFound ((a, b) ∷ first) bs = (lookup a bs ≡ some b) × AllFound first bs

-- What list.h documents: an empty list, adding in front, and removing the item.
pub record DlListLaws (d : DlList) : Type 0 where
  pub init_empty : d.members d.dl_list_init ≡ []
  pub add_first : (l : d.Links) (a : ℕ) → d.members (d.dl_list_add l a) ≡ a ∷ d.members l
  pub del_removes : (l : d.Links) (a : ℕ) → d.members (d.dl_list_del l a) ≡ erase a (d.members l)

pub erase-absent : (a : ℕ) (xs : List ℕ) → IsAbsent a xs → erase a xs ≡ xs
erase-absent a [] h = refl
erase-absent a (x ∷ xs) h = rw (==-ne x a h.0) (ap (λ t. x ∷ t) (erase-absent a xs h.1))

pub live-forget : (a : ℕ) (bs : List (ℕ × Block)) → live (forget a bs) ≡ erase a (live bs)
live-forget a [] = refl
live-forget a ((k, b) ∷ bs) =
    let ih = live-forget a bs in
    elim (Bool-cases (k == a)) [
      | inl same ↦ elim (Bool-cases (is_live b)) [
        | inl alive ↦ rw (same, alive, same) ih
        | inr dead ↦ rw (same, dead) ih
      ]
      | inr other ↦ elim (Bool-cases (is_live b)) [
        | inl alive ↦ rw (other, alive, other) (ap (λ t. k ∷ t) ih)
        | inr dead ↦ rw (other, dead) ih
      ]
    ]

live-retired : (a : ℕ) (bs : List (ℕ × Block)) → live (update a retired bs) ≡ erase a (live bs)
live-retired a [] = refl
live-retired a ((k, b) ∷ bs) =
    let ih = live-retired a bs in
    elim (Bool-cases (k == a)) [
      | inl same ↦ elim (Bool-cases (is_live b)) [
        | inl alive ↦ rw (same, alive, same) ih
        | inr dead ↦ rw (same, dead) ih
      ]
      | inr other ↦ elim (Bool-cases (is_live b)) [
        | inl alive ↦ rw (other, alive, other) (ap (λ t. k ∷ t) ih)
        | inr dead ↦ rw (other, dead) ih
      ]
    ]

erase-twice : (a : ℕ) (xs : List ℕ) → erase a (erase a xs) ≡ erase a xs
erase-twice a [] = refl
erase-twice a (x ∷ xs) =
    let ih = erase-twice a xs in
    elim (Bool-cases (x == a)) [
      | inl same ↦ rw same ih
      | inr other ↦ rw (other, other) (ap (λ t. x ∷ t) ih)
    ]

-- A block that is freed leaves the ones in use.
pub live-freed :
    (a : ℕ) (bs : List (ℕ × Block)) → live (forget a (update a retired bs)) ≡ erase a (live bs)
live-freed a bs =
    live-forget a (update a retired bs) ∙ ap (erase a) (live-retired a bs) ∙ erase-twice a (live bs)

-- A change that keeps the magic keeps the blocks in use.
pub live-update :
    (a : ℕ) (f : Block → Block) (bs : List (ℕ × Block))
    → ((b : Block) → (f b).magic ≡ b.magic)
    → live (update a f bs) ≡ live bs
live-update a f [] keeps = refl
live-update a f ((k, b) ∷ bs) keeps =
    let ih = live-update a f bs keeps in
    elim (Bool-cases (k == a)) [
      | inl same ↦ rw (same, keeps b, ih) refl
      | inr other ↦ rw (other, ih) refl
    ]

pub lookup-update :
    (a : ℕ) (f : Block → Block) (b : Block) (bs : List (ℕ × Block))
    → lookup a bs ≡ some b
    → lookup a (update a f bs) ≡ some (f b)
lookup-update a f b [] h = absurd (cc)
lookup-update a f b ((k, c) ∷ bs) h = elim (Bool-cases (k == a)) [
  | inl same ↦ ground arith
  | inr other ↦ let ih = lookup-update a f b bs (ground arith) in ground arith
]

pub lookup-update_other :
    (a k : ℕ) (f : Block → Block) (bs : List (ℕ × Block))
    → a ≢ k
    → lookup a (update k f bs) ≡ lookup a bs
lookup-update_other a k f [] h = refl
lookup-update_other a k f ((c, b) ∷ bs) h = let ih = lookup-update_other a k f bs h in ground arith

pub lookup-forget : (a k : ℕ) (bs : List (ℕ × Block)) → a ≢ k → lookup a (forget k bs) ≡ lookup a bs
lookup-forget a k [] h = refl
lookup-forget a k ((c, b) ∷ bs) h = let ih = lookup-forget a k bs h in ground arith

pub lookup-forgotten : (a : ℕ) (bs : List (ℕ × Block)) → lookup a (forget a bs) ≡ none
lookup-forgotten a [] = refl
lookup-forgotten a ((k, b) ∷ bs) =
    let ih = lookup-forgotten a bs in
    elim (Bool-cases (k == a)) [ inl same ↦ rw same ih | inr other ↦ rw (other, other) ih ]

pub AllFilled-forget : (a : ℕ) (bs : List (ℕ × Block)) → AllFilled bs → AllFilled (forget a bs)
AllFilled-forget a [] h = tt
AllFilled-forget a ((k, b) ∷ bs) h =
    let ih = AllFilled-forget a bs h.1 in
    elim (Bool-cases (k == a)) [ inl same ↦ rw same ih | inr other ↦ rw other (h.0, ih) ]

pub AllFilled-update :
    (a : ℕ) (f : Block → Block) (bs : List (ℕ × Block))
    → ((b : Block) → length b.content ≡ b.len → length (f b).content ≡ (f b).len)
    → AllFilled bs
    → AllFilled (update a f bs)
AllFilled-update a f [] keeps h = tt
AllFilled-update a f ((k, b) ∷ bs) keeps h =
    let ih = AllFilled-update a f bs keeps h.1 in
    elim (Bool-cases (k == a)) [
      | inl same ↦ rw same (keeps b h.0, ih)
      | inr other ↦ rw other (h.0, ih)
    ]

pub AllFilled-lookup :
    (a : ℕ) (b : Block) (bs : List (ℕ × Block))
    → AllFilled bs
    → lookup a bs ≡ some b
    → length b.content ≡ b.len
AllFilled-lookup a b [] h e = absurd (cc)
AllFilled-lookup a b ((k, c) ∷ bs) h e = elim (Bool-cases (k == a)) [
  | inl same ↦ ground arith
  | inr other ↦ AllFilled-lookup a b bs h.1 (ground arith)
]

pub AllFound-update :
    (a : ℕ) (f : Block → Block) (first bs : List (ℕ × Block))
    → AllFound first bs
    → AllFound (update a f first) (update a f bs)
AllFound-update a f [] bs h = tt
AllFound-update a f ((k, b) ∷ first) bs h =
    let ih = AllFound-update a f first bs h.1 in
    elim (Bool-cases (k == a)) [
      | inl same ↦
          let e : k ≡ a = ground arith in
          rw same (rw e (lookup-update a f b bs (ap (λ i. lookup i bs) (sym e) ∙ h.0)), ih)
      | inr other ↦ rw other (lookup-update_other k a f bs (λ e. ground arith) ∙ h.0, ih)
    ]

pub AllFound-forget :
    (a : ℕ) (first bs : List (ℕ × Block))
    → AllFound first bs
    → AllFound (forget a first) (forget a bs)
AllFound-forget a [] bs h = tt
AllFound-forget a ((k, b) ∷ first) bs h =
    let ih = AllFound-forget a first bs h.1 in
    elim (Bool-cases (k == a)) [
      | inl same ↦ rw same ih
      | inr other ↦ rw other (lookup-forget k a bs (λ e. ground arith) ∙ h.0, ih)
    ]

-- A new block in front, in place of one that may have stood at its address.
pub AllFound-insert :
    (a : ℕ) (c : Block) (first bs : List (ℕ × Block))
    → AllFound first bs
    → AllFound (forget a first) ((a, c) ∷ forget a bs)
AllFound-insert a c [] bs h = tt
AllFound-insert a c ((k, b) ∷ first) bs h =
    let ih = AllFound-insert a c first bs h.1 in
    elim (Bool-cases (k == a)) [
      | inl same ↦ rw same ih
      | inr other ↦
          let no : (a == k) ≡ false = ground arith in
          rw other (rw no (lookup-forget k a bs (λ e. ground arith) ∙ h.0), ih)
    ]
