-- ===== src/PageTables/Memmap/Areas.antt =====
-- Labweek11/lab2/kern/mm/pmm.c: what one area of the map does in `page_init`.
use operating_system_homewor.Prelude.{
  ℕ, ◌+◌, ◌-◌, ◌*◌, ◌/◌, ◌≤◌, ◌<◌, ◌≡◌, ◌≢◌, ◌⊎◌, inl, inr, refl, ◌∙◌, Bool, true, false, ◌&&◌, ltb,
  leb, ◌==◌, if◌then◌else◌, some, List, [], ◌∷◌, All, arith, Bool-cases,
}
use operating_system_homewor.PageAllocator.{Memory, default_init_memmap}
use operating_system_homewor.PageAllocator.Blocks.{Apart, Disjoint, Block, within, covered}
use operating_system_homewor.PageAllocator.State.{free_blocks, IsWellFormed, pages_from}
use operating_system_homewor.PageAllocator.Release.{Disjoint-uncovered}
use operating_system_homewor.PageAllocator.Start.{default_init_memmap-Released}
use operating_system_homewor.PageTables.{roundup, rounddown}
use operating_system_homewor.PageTables.Memmap.{
  Area, kmemsize, area_end, begin_of, end_of, area_step,
}

-- Whether an area of memory has the whole page `k`, above `freemem` and below KMEMSIZE: 1 or 0.
abbrev pub whole : ℕ → ℕ → Area → ℕ
whole freemem k a =
    if a.type == 1
      && (leb freemem (k * 4096)
          && (leb a.addr (k * 4096)
              && (leb (k * 4096 + 4096) (area_end a) && leb (k * 4096 + 4096) kmemsize)))
    then 1
    else 0

-- How many areas have the whole page.
abbrev pub whole_in : ℕ → ℕ → List Area → ℕ
whole_in freemem k [] = 0
whole_in freemem k (a ∷ areas) = whole freemem k a + whole_in freemem k areas

-- Two areas that are not both memory, or that have a page between them.
abbrev pub Gap : Area → Area → Type 0
Gap a b =
    (a.type ≢ 1) ⊎ ((b.type ≢ 1) ⊎ ((area_end a + 4096 ≤ b.addr) ⊎ (area_end b + 4096 ≤ a.addr)))

abbrev pub HasGaps : List Area → Type 0
HasGaps [] = Unit
HasGaps (a ∷ areas) = All (Gap a) areas × HasGaps areas

-- The pages that an area gives, and whether it gives any
abbrev pub area_block : ℕ → Area → Block
area_block freemem a =
    pages_from (roundup (begin_of freemem a) / 4096)
      ((rounddown (end_of a) - roundup (begin_of freemem a)) / 4096)

abbrev pub gives : ℕ → Area → Bool
gives freemem a =
    a.type == 1
    && (ltb (begin_of freemem a) (end_of a)
        && ltb (roundup (begin_of freemem a)) (rounddown (end_of a)))

pub whole-gives :
    (freemem k : ℕ) (a : Area)
    → gives freemem a ≡ true
    → within k (area_block freemem a) ≡ whole freemem k a
whole-gives freemem k a given = ground (arith, given)

whole-none : (freemem k : ℕ) (a : Area) → gives freemem a ≡ false → whole freemem k a ≡ 0
whole-none freemem k a given = ground (arith, given)

-- What an area must find that is still to come: its pages exist and are reserved, and neither they
-- nor the ones beside them are free.
pub record IsReady (n freemem : ℕ) (s : Memory) (a : Area) : Type 0 where
  pub exist : (k : ℕ) → within k (area_block freemem a) ≡ 1 → k < n
  pub reserved : (k : ℕ) → within k (area_block freemem a) ≡ 1 → (s.pages k).reserved ≡ true
  pub unfree :
      (k : ℕ)
      → (area_block freemem a).start ≤ k + 1
      → k ≤ (area_block freemem a).start + (area_block freemem a).size
      → covered k (free_blocks s) ≡ 0

-- A block with the pages beside it is disjoint from every free block: then there is a page between.
Apart-wider :
    (start size : ℕ) (bs : List Block)
    → 0 < start
    → All (Disjoint (pages_from (start - 1) (size + 2))) bs
    → All (Apart (pages_from start size)) bs
Apart-wider start size [] some_start h = tt
Apart-wider start size (b ∷ bs) some_start (d, h) =
    (ground (arith, some_start, d), Apart-wider start size bs some_start h)

-- What an area does: its whole pages become free, and the others are as before.
abbrev pub Added : ℕ → Area → Memory → Memory → Type 0
Added freemem a s t =
    IsWellFormed t
    × ((k : ℕ) → covered k (free_blocks t) ≡ covered k (free_blocks s) + whole freemem k a)
    × ((k : ℕ) → whole freemem k a ≡ 0 → t.pages k ≡ s.pages k)

step_gives :
    (n freemem : ℕ) (a : Area) (s : Memory)
    → gives freemem a ≡ true
    → (area_block freemem a).start < n
    → area_step n freemem a s
      ≡ default_init_memmap (area_block freemem a).start (area_block freemem a).size s
step_gives n freemem a s given lt = ground (arith, given, lt)

step_none :
    (n freemem : ℕ) (a : Area) (s : Memory)
    → gives freemem a ≡ false
    → area_step n freemem a s ≡ some s
step_none n freemem a s given = ground (arith, given)

pub area_step-Added :
    (n freemem : ℕ) (a : Area) (s : Memory)
    → 0 < freemem
    → IsWellFormed s
    → (gives freemem a ≡ true → IsReady n freemem s a)
    → (t : Memory) × (area_step n freemem a s ≡ some t) × Added freemem a s t
area_step-Added n freemem a s some_free wf ready = elim (Bool-cases (gives freemem a)) [
  | inr no_pages ↦ (
    s,
    step_none n freemem a s no_pages,
    (wf, λ k. omega (arith, whole-none freemem k a no_pages), λ k none_here. refl),
  )
  | inl given ↦
      let r = ready given in
      let start = (area_block freemem a).start in
      let size = (area_block freemem a).size in
      let some_start : 0 < start = ground (arith, some_free, given) in
      let some_size : 0 < size = ground (arith, given) in
      let inside : (k : ℕ) → start ≤ k → k < start + size → within k (pages_from start size) ≡ 1 =
        λ k le lt. ground (arith, le, lt) in
      let outside : (k : ℕ)
          → within k (pages_from start size) ≡ 0
          → (k < start) ⊎ (start + size ≤ k) =
        λ k out. ground (arith, out) in
      let apart = Apart-wider start size (free_blocks s) some_start (
        Disjoint-uncovered (pages_from (start - 1) (size + 2)) (free_blocks s) (omega arith)
          wf.separate
          (λ k le lt. r.unfree k (omega (arith, le)) (omega (arith, lt, some_start)))) in
      let (t, e, (wf', cover, count), same) =
        default_init_memmap-Released start size s some_size wf apart
          (λ k le lt. r.reserved k (inside k le lt)) in
      (
        t,
        step_gives n freemem a s given
              (r.exist start (inside start (omega arith) (omega (arith, some_size))))
            ∙ e,
        (
          wf',
          λ k. omega (arith, cover k, whole-gives freemem k a given),
          λ k none_here.
              same k (outside k (omega (arith, none_here, whole-gives freemem k a given))),
        ),
      )
]
