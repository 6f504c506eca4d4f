-- ===== src/PageAllocator/Release.antt =====
-- Labweek11/lab2/kern/mm/default_pmm.c: what `default_free_pages` gives back, and that it merges it.
use mathlib.Core.Path.{subst}
use native.Mathlib.Decide.{ℕ_discrete, dec_lt}
use operating_system_homewor.Prelude.{
  ℕ, ◌+◌, ◌≤◌, ◌<◌, ◌≡◌, ◌≢◌, inl, inr, refl, sym, ap, ◌∙◌, true, false, Bool-cases, ◌==◌,
  if◌then◌else◌, none, some, List, [], ◌∷◌, All, arith, count,
}
use operating_system_homewor.PageAllocator.{
  Page, Memory, set_property, set_page_property, free_loop, merge_loop, give_back,
  default_free_pages,
}
use operating_system_homewor.PageAllocator.Blocks.{
  Block, Disjoint, Separate, within, covered, Merges, Merges-covered, Merges-total_size,
  Merges-Separate,
}
use operating_system_homewor.PageAllocator.Fields.{
  cleared, set_property_reserved, set_property_bit, marked_reserved, marked_property, marked_bit,
  set_property_self, set_property_other,
}
use operating_system_homewor.PageAllocator.Merging.{block, blocks, Absent, merge_loop-Merges}
use operating_system_homewor.PageAllocator.Inserted.{
  Inserted, Inserted-covered, Inserted-total_size, Inserted-Separate, place_block-Inserted,
}
use operating_system_homewor.PageAllocator.State.{free_blocks, IsWellFormed, pages_from, blocks-All}
use operating_system_homewor.PageAllocator.Clearing.{Cleared, IsTaken, free_loop-Cleared}
use operating_system_homewor.PageAllocator.Walk.{merge_loop-Kept, count-place_block, count-covered}

-- Pages that are not free are disjoint from every free block.
pub Disjoint-uncovered :
    (b : Block) (bs : List Block)
    → 0 < b.size
    → Separate bs
    → ((k : ℕ) → b.start ≤ k → k < b.start + b.size → covered k bs ≡ 0)
    → All (Disjoint b) bs
Disjoint-uncovered b [] some_b s none_in = tt
Disjoint-uncovered b (c ∷ cs) some_b (some_c, apart, s) none_in = (
  elim (dec_lt c.start b.start) [
    | yes lt ↦ inr (ground (arith, lt, none_in b.start (omega arith) (omega (arith, some_b))))
    | no ge ↦ elim (dec_lt c.start (b.start + b.size)) [
      | yes lt ↦ absurd (ground (arith, some_c, none_in c.start (omega (arith, ge)) lt))
      | no far ↦ inl (omega (arith, far))
    ]
  ],
  Disjoint-uncovered b cs some_b s (λ k le lt. omega (arith, none_in k le lt)),
)

Absent-Disjoint :
    (pages : ℕ → Page) (b : Block) (ps : List ℕ)
    → 0 < b.size
    → Separate (blocks pages ps)
    → All (Disjoint b) (blocks pages ps)
    → Absent b.start ps
Absent-Disjoint pages b [] some_b s ds = tt
Absent-Disjoint pages b (p ∷ ps) some_b (some_p, apart, s) (d, ds) =
    (ground (arith, some_b, some_p, d), Absent-Disjoint pages b ps some_b s ds)

-- What the release of `n` pages from `base` on has done.
abbrev pub Released : ℕ → ℕ → Memory → Memory → Type 0
Released base n s s' =
    IsWellFormed s'
    × ((k : ℕ)
        → covered k (free_blocks s') ≡ covered k (free_blocks s) + within k (pages_from base n))
    × (s'.free_area.nr_free ≡ s.free_area.nr_free + n)

module _ (base n : ℕ) (s : Memory) (some_n : 0 < n) (wf : IsWellFormed s)
    (usable : (k : ℕ) → base ≤ k → k < base + n → (s.pages k).reserved ≡ false)
    (unfree : (k : ℕ) → base ≤ k → k < base + n → covered k (free_blocks s) ≡ 0) where
  abbrev list : List ℕ
  list = s.free_area.free_list

  disjoint : All (Disjoint (pages_from base n)) (free_blocks s)
  disjoint = Disjoint-uncovered (pages_from base n) (free_blocks s) some_n wf.separate unfree

  absent : Absent base list
  absent = Absent-Disjoint s.pages (pages_from base n) list some_n wf.separate disjoint

  -- None of the pages is the head of a free block, so that no assertion fails.
  all-IsTaken : (k : ℕ) → base ≤ k → k < base + n → IsTaken (s.pages k)
  all-IsTaken k le lt = (
    usable k le lt,
    elim (Bool-cases (s.pages k).property_bit) [
      | inr unmarked ↦ unmarked
      | inl marked ↦ absurd (
          omega
            (arith, unfree k le lt, count-covered k s.pages list wf.separate (wf.marked k marked)))
    ],
  )

  module _ (pages' : ℕ → Page) (clear : Cleared s.pages pages') where
    -- The freed pages as a block of their own
    abbrev ready : ℕ → Page
    ready = set_page_property (set_property pages' base n) base

    abbrev merged : (ℕ → Page) × ℕ × List ℕ
    merged = merge_loop list ready base

    abbrev after_free : Memory
    after_free = give_back base n s pages'

    ready_base : (ready base).property ≡ n
    ready_base =
        marked_property (set_property pages' base n) base true base
        ∙ set_property_self pages' base n

    ready_other : (k : ℕ) → k ≢ base → (ready k).property ≡ (s.pages k).property
    ready_other k ne =
        marked_property (set_property pages' base n) base true k
        ∙ set_property_other pages' base n k ne
        ∙ clear.property k

    ready_reserved : (k : ℕ) → (s.pages k).reserved ≡ false → (ready k).reserved ≡ false
    ready_reserved k h =
        marked_reserved (set_property pages' base n) base true k
        ∙ set_property_reserved pages' base n k
        ∙ clear.reserved k h

    ready_marked : (k : ℕ) → (ready k).property_bit ≡ true → 0 < count k (base ∷ list)
    ready_marked k bit = elim (ℕ_discrete k base) [
      | yes same ↦ ground (arith, same)
      | no ne ↦ ground (
        arith,
        wf.marked k (
            clear.bit k (
              sym (
                marked_bit (set_property pages' base n) base true k ne
                ∙ set_property_bit pages' base n k)
              ∙ bit)),
      )
    ]

    same_list : blocks ready list ≡ free_blocks s
    same_list = blocks-All s.pages ready list (λ k. k ≢ base) absent ready_other

    merging :
        Merges
          (free_blocks s)
          (pages_from base n)
          (block merged.0 merged.1)
          (blocks merged.0 merged.2)
    merging =
        subst
          (λ bs. Merges bs (pages_from base n) (block merged.0 merged.1) (blocks merged.0 merged.2))
          same_list
          (subst
            (λ m.
              Merges (blocks ready list) (pages_from base m) (block merged.0 merged.1)
                (blocks merged.0 merged.2))
            ready_base
            (merge_loop-Merges list ready base (subst Separate (sym same_list) wf.separate) absent))

    placed : Inserted (block merged.0 merged.1) (blocks merged.0 merged.2) (free_blocks after_free)
    placed = place_block-Inserted merged.0 merged.1 merged.2

    covered_after :
        (k : ℕ)
        → covered k (free_blocks after_free)
          ≡ covered k (free_blocks s) + within k (pages_from base n)
    covered_after k = omega (arith, Inserted-covered k placed, Merges-covered k merging)

    still_usable : (k : ℕ) → 0 < covered k (free_blocks after_free) → (s.pages k).reserved ≡ false
    still_usable k some_k = elim (ℕ_discrete (covered k (free_blocks s)) 0) [
      | no free ↦ wf.usable k (omega (arith, free))
      | yes none_old ↦
          let inside : 0 < within k (pages_from base n) =
            omega (arith, some_k, covered_after k, none_old) in
          usable k (ground (arith, inside)) (ground (arith, inside))
    ]

    after_free-Released : Released base n s after_free
    after_free-Released = (
      record {
        separate =
            (Inserted-Separate placed).0 (Merges-Separate merging wf.separate some_n disjoint);
        counted = omega (arith, wf.counted, Inserted-total_size placed, Merges-total_size merging);
        marked = λ k bit. omega (
          arith,
          count-place_block k merged.0 merged.1 merged.2,
          (merge_loop-Kept k list ready base).1 (ready_marked k) bit,
        );
        usable = λ k some_k.
            (merge_loop-Kept k list ready base).0 ∙ ready_reserved k (still_usable k some_k);
      },
      covered_after,
      refl,
    )

freed :
    (base n : ℕ) (s : Memory) (pages' : ℕ → Page)
    → 0 < n
    → free_loop n base s.pages ≡ some pages'
    → default_free_pages base n s ≡ some (give_back base n s pages')
unfolding default_free_pages
freed base n s pages' some_n e =
    ap
      (λ o.
        if n == 0
        then none
        else elim o [ none ↦ none | some cleared ↦ some (give_back base n s cleared) ])
      e
    ∙ ap (λ b. if b then none else some (give_back base n s pages')) no_zero
  where
    no_zero : (n == 0) ≡ false
    no_zero = ground (arith, some_n)

-- Pages that are not free and not reserved can be given back: no assertion fails, they and no others
-- become free, they are added to the count, and the memory stays well formed: after the merging too
-- there is a page that is not free between any two blocks.
pub default_free_pages-Released :
    (base n : ℕ) (s : Memory)
    → 0 < n
    → IsWellFormed s
    → ((k : ℕ) → base ≤ k → k < base + n → (s.pages k).reserved ≡ false)
    → ((k : ℕ) → base ≤ k → k < base + n → covered k (free_blocks s) ≡ 0)
    → (s' : Memory) × (default_free_pages base n s ≡ some s') × Released base n s s'
default_free_pages-Released base n s some_n wf usable unfree =
    let (pages', e, clear) =
      free_loop-Cleared n base s.pages (all-IsTaken base n s some_n wf usable unfree) in
    (
      give_back base n s pages',
      freed base n s pages' some_n e,
      after_free-Released base n s some_n wf usable unfree pages' clear,
    )
