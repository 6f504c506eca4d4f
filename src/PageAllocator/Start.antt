-- ===== src/PageAllocator/Start.antt =====
-- Labweek11/lab2/kern/mm/default_pmm.c: memory as `default_init_memmap` sets it up, and an allocation
-- that is given back.
use mathlib.Core.Path.{subst}
use native.Mathlib.Decide.{ℕ_discrete, dec_lt}
use operating_system_homewor.Prelude.{
  ℕ, zero, suc, ◌+◌, ◌≤◌, ◌<◌, ◌≡◌, ◌⊎◌, inl, inr, refl, sym, ap, ap₂, ◌∙◌, true, false, ◌==◌,
  if◌then◌else◌, none, some, List, [], ◌∷◌, ◌++◌, All, arith, count, count-append, update,
  update_self, update_ne,
}
use operating_system_homewor.PageAllocator.{
  Page, Memory, free_page, init_loop, default_init, default_init_memmap, default_free_pages,
  default_alloc_pages,
}
use operating_system_homewor.PageAllocator.Blocks.{Apart, Separate-covered, within, covered}
use operating_system_homewor.PageAllocator.Merging.{block, blocks}
use operating_system_homewor.PageAllocator.Inserted.{
  Inserted, first, later, Inserted-covered, Inserted-total_size, Inserted-Separate,
}
use operating_system_homewor.PageAllocator.State.{free_blocks, IsWellFormed, pages_from}
use operating_system_homewor.PageAllocator.Allocate.{Result, alloc-Result}
use operating_system_homewor.PageAllocator.Release.{Released, default_free_pages-Released}

-- What is allocated and given back at once leaves the same pages free as before.
pub default_free_pages-default_alloc_pages :
    (n p : ℕ) (s s' : Memory)
    → 0 < n
    → IsWellFormed s
    → default_alloc_pages n s ≡ some (some p, s')
    → (t : Memory) × (default_free_pages p n s' ≡ some t)
      × IsWellFormed t
      × ((k : ℕ) → covered k (free_blocks t) ≡ covered k (free_blocks s))
      × (t.free_area.nr_free ≡ s.free_area.nr_free)
default_free_pages-default_alloc_pages n p s s' some_n wf e =
    let (wf', cover, amount, same) = subst (Result n s) e (alloc-Result n s some_n wf) in
    let inside : (k : ℕ) → p ≤ k → k < p + n → within k (pages_from p n) ≡ 1 =
      λ k le lt. ground (arith, le, lt) in
    let (t, e2, (wf2, cover2, amount2)) =
      default_free_pages-Released p n s' some_n wf'
        (λ k le lt. same k ∙ wf.usable k (omega (arith, cover k, inside k le lt)))
        (λ k le lt.
          omega (arith, cover k, inside k le lt, Separate-covered k (free_blocks s) wf.separate)) in
    (t, e2, wf2, λ k. omega (arith, cover k, cover2 k), omega (arith, amount, amount2))

init_loop-next :
    (i p base n : ℕ) (pages : ℕ → Page)
    → (pages p).reserved ≡ true
    → init_loop (suc i) p base n pages
      ≡ init_loop i (p + 1) base n (update pages p (free_page p base n))
unfolding init_loop
init_loop-next i p base n pages r = ground (arith, r)

init_loop-nil : (p base n : ℕ) (pages : ℕ → Page) → init_loop 0 p base n pages ≡ some pages
unfolding init_loop
init_loop-nil p base n pages = refl

-- The loop makes a block of its pages, if they are reserved, and leaves the others alone.
abbrev Loaded : ℕ → ℕ → ℕ → ℕ → (ℕ → Page) → (ℕ → Page) → Type 0
Loaded i p base n pages pages' =
    ((k : ℕ) → (k < p) ⊎ (p + i ≤ k) → pages' k ≡ pages k)
    × ((k : ℕ) → p ≤ k → k < p + i → pages' k ≡ free_page k base n)

init_loop-Loaded :
    (i p base n : ℕ) (pages : ℕ → Page)
    → ((k : ℕ) → p ≤ k → k < p + i → (pages k).reserved ≡ true)
    → (pages' : ℕ → Page) × (init_loop i p base n pages ≡ some pages')
      × Loaded i p base n pages pages'
init_loop-Loaded zero p base n pages reserved = (
  pages,
  init_loop-nil p base n pages,
  (λ k out. refl, λ k le lt. absurd (omega (arith, le, lt))),
)
init_loop-Loaded (suc i) p base n pages reserved =
    let next = update pages p (free_page p base n) in
    let (pages', e, (outside, inside)) = init_loop-Loaded i (p + 1) base n next (λ k le lt.
      ap Page.reserved (update_ne pages p k (free_page p base n) (λ same. omega (arith, same, le)))
      ∙ reserved k (omega (arith, le)) (omega (arith, lt))) in
    (
      pages',
      init_loop-next i p base n pages (reserved p (omega arith) (omega arith)) ∙ e,
      (
        λ k out.
            outside k (ground (arith, out))
            ∙ update_ne pages p k (free_page p base n) (λ same. ground (arith, same, out)),
        λ k le lt. elim (ℕ_discrete k p) [
          | yes same ↦
              outside k (inl (omega (arith, same)))
              ∙ ap next same
              ∙ update_self pages p (free_page p base n)
              ∙ ap (λ x. free_page x base n) (sym same)
          | no ne ↦ inside k (omega (arith, le, ne)) (omega (arith, lt))
        ],
      ),
    )

Inserted-last :
    (pages : ℕ → Page) (b : ℕ) (ps : List ℕ)
    → Inserted (block pages b) (blocks pages ps) (blocks pages (ps ++ b ∷ []))
Inserted-last pages b [] = first
Inserted-last pages b (p ∷ ps) = later (Inserted-last pages b ps)

module _ (base n : ℕ) (s : Memory) (some_n : 0 < n) (wf : IsWellFormed s)
    (apart : All (Apart (pages_from base n)) (free_blocks s))
    (unmarked : (k : ℕ) → base ≤ k → k < base + n → (s.pages k).reserved ≡ true) (pages' : ℕ → Page)
    (loaded : Loaded n base base n s.pages pages') where
  abbrev list : List ℕ
  list = s.free_area.free_list

  abbrev with_block : Memory
  with_block = record {
    pages = pages';
    free_area = record { free_list = list ++ base ∷ []; nr_free = s.free_area.nr_free + n };
  }

  in_block : pages' base ≡ record { ref = 0; reserved = false; property_bit = true; property = n }
  in_block = loaded.1 base (omega arith) (omega (arith, some_n)) ∙ ground arith

  same_blocks :
      (ps : List ℕ)
      → All (Apart (pages_from base n)) (blocks s.pages ps)
      → blocks pages' ps ≡ blocks s.pages ps
  same_blocks [] h = refl
  same_blocks (p ∷ ps) (a, h) =
      ap₂ (λ x bs. record { start = p; size = x.property } ∷ bs) (loaded.0 p (ground (arith, a)))
        (same_blocks ps h)

  block_base : block pages' base ≡ pages_from base n
  block_base = ap (λ x. record { start = base; size = x.property }) in_block

  added : Inserted (pages_from base n) (free_blocks s) (free_blocks with_block)
  added =
      subst (λ b. Inserted b (free_blocks s) (free_blocks with_block)) block_base
        (subst (λ bs. Inserted (block pages' base) bs (free_blocks with_block))
          (same_blocks list apart) (Inserted-last pages' base list))

  where_is : (k : ℕ) → ((k < base) ⊎ (base + n ≤ k)) ⊎ ((base ≤ k) × (k < base + n))
  where_is k = elim (dec_lt k base) [
    | yes lt ↦ inl (inl lt)
    | no ge ↦ elim (dec_lt k (base + n)) [
      | yes lt ↦ inr (omega (arith, ge), lt)
      | no far ↦ inl (inr (omega (arith, far)))
    ]
  ]

  head_only : (k : ℕ) → (free_page k base n).property_bit ≡ true → k ≡ base
  head_only k bit = ground (arith, bit)

  block_marked : (k : ℕ) → (pages' k).property_bit ≡ true → 0 < count k (list ++ base ∷ [])
  block_marked k bit = elim (where_is k) [
    | inl out ↦ omega (
      arith,
      count-append k list (base ∷ []),
      wf.marked k (sym (ap Page.property_bit (loaded.0 k out)) ∙ bit),
    )
    | inr (le, lt) ↦ ground (
      arith,
      count-append k list (base ∷ []),
      head_only k (sym (ap Page.property_bit (loaded.1 k le lt)) ∙ bit),
    )
  ]

  unreserved : (k : ℕ) → (free_page k base n).reserved ≡ false
  unreserved k = ground arith

  block_usable : (k : ℕ) → 0 < covered k (free_blocks with_block) → (pages' k).reserved ≡ false
  block_usable k some_k = elim (where_is k) [
    | inr (le, lt) ↦ ap Page.reserved (loaded.1 k le lt) ∙ unreserved k
    | inl out ↦
        let outside : within k (pages_from base n) ≡ 0 = ground (arith, out) in
        ap Page.reserved (loaded.0 k out)
        ∙ wf.usable k (omega (arith, some_k, Inserted-covered k added, outside))
  ]

  with_block-Released : Released base n s with_block
  with_block-Released = (
    record {
      separate = (Inserted-Separate added).0 (some_n, apart, wf.separate);
      counted = omega (arith, wf.counted, Inserted-total_size added);
      marked = block_marked;
      usable = block_usable;
    },
    λ k. omega (arith, Inserted-covered k added),
    refl,
  )

  memmap_result :
      init_loop n base base n s.pages ≡ some pages' → default_init_memmap base n s ≡ some with_block
  unfolding default_init_memmap
  memmap_result e =
      ap
        (λ o. if n == 0 then none else elim o [
          | none ↦ none
          | some ready ↦ some (record {
            pages = ready;
            free_area = record { free_list = list ++ base ∷ []; nr_free = s.free_area.nr_free + n };
          })
        ])
        e
      ∙ ap (λ b. if b then none else some with_block) no_zero
    where
      no_zero : (n == 0) ≡ false
      no_zero = ground (arith, some_n)

-- Reserved pages that touch no free block become a free block: no assertion fails, they and no others
-- become free, the memory stays well formed and the other pages are as before.
pub default_init_memmap-Released :
    (base n : ℕ) (s : Memory)
    → 0 < n
    → IsWellFormed s
    → All (Apart (pages_from base n)) (free_blocks s)
    → ((k : ℕ) → base ≤ k → k < base + n → (s.pages k).reserved ≡ true)
    → (s' : Memory) × (default_init_memmap base n s ≡ some s')
      × Released base n s s'
      × ((k : ℕ) → (k < base) ⊎ (base + n ≤ k) → s'.pages k ≡ s.pages k)
default_init_memmap-Released base n s some_n wf apart reserved =
    let (pages', e, loaded) = init_loop-Loaded n base base n s.pages reserved in
    (
      with_block base n s some_n wf apart reserved pages' loaded,
      memmap_result base n s some_n wf apart reserved pages' loaded e,
      with_block-Released base n s some_n wf apart reserved pages' loaded,
      loaded.0,
    )

-- `default_init` leaves no page free, on pages of which none is marked as the head of a block.
pub default_init-IsWellFormed :
    (s : Memory) → ((k : ℕ) → (s.pages k).property_bit ≡ false) → IsWellFormed (default_init s)
default_init-IsWellFormed s none_marked = record {
  separate = tt;
  counted = refl;
  marked = λ k bit. let no_bit : false ≡ true = sym (none_marked k) ∙ bit in absurd cc;
  usable = λ k some_k. absurd (omega (arith, some_k));
}
