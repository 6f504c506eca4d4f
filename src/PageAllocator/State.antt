-- ===== src/PageAllocator/State.antt =====
-- Labweek11/lab2/kern/mm/default_pmm.c: memory that is well formed, and what an allocation does to it.
use operating_system_homewor.Prelude.{
  ℕ, ◌+◌, ◌-◌, ◌<◌, ◌≡◌, true, false, Option, none, some, List, [], ◌∷◌, All, arith, count,
}
use operating_system_homewor.PageAllocator.{Page, Memory}
use operating_system_homewor.PageAllocator.Blocks.{
  Block, Apart, Separate, total_size, within, covered,
}
use operating_system_homewor.PageAllocator.Fields.{}
use operating_system_homewor.PageAllocator.Merging.{blocks, blocks-same}
use operating_system_homewor.PageAllocator.Inserted.{}

-- The free blocks of the memory.
abbrev pub free_blocks : Memory → List Block
free_blocks s = blocks s.pages s.free_area.free_list

pub record IsWellFormed (s : Memory) : Type 0 where
  pub separate : Separate (free_blocks s)
  pub counted : s.free_area.nr_free ≡ total_size (free_blocks s)
  pub marked : (k : ℕ) → (s.pages k).property_bit ≡ true → 0 < count k s.free_area.free_list
  pub usable : (k : ℕ) → 0 < covered k (free_blocks s) → (s.pages k).reserved ≡ false

-- The `n` pages from `p` on
abbrev pub pages_from : ℕ → ℕ → Block
pages_from p n = record { start = p; size = n }

-- What an allocation of `n` pages has done, by its result.
abbrev pub Allocated : ℕ → Memory → Option ℕ → Memory → Type 0
Allocated n s none s' = (s' ≡ s) × All (λ b. b.size < n) (free_blocks s)
Allocated n s (some p) s' =
    IsWellFormed s'
    × ((k : ℕ) → covered k (free_blocks s') + within k (pages_from p n) ≡ covered k (free_blocks s))
    × (s'.free_area.nr_free + n ≡ s.free_area.nr_free)
    × ((k : ℕ) → (s'.pages k).reserved ≡ (s.pages k).reserved)

pub smaller : (n : ℕ) (bs : List Block) → total_size bs < n → All (λ b. b.size < n) bs
smaller n [] lt = tt
smaller n (b ∷ bs) lt = (omega (arith, lt), smaller n bs (omega (arith, lt)))

abbrev pub rest_block : Block → ℕ → Block
rest_block b n = record { start = b.start + n; size = b.size - n }

pub Apart-All-rest_block :
    (b : Block) (n : ℕ) (bs : List Block)
    → n < b.size
    → All (Apart b) bs
    → All (Apart (rest_block b n)) bs
Apart-All-rest_block b n [] lt h = tt
Apart-All-rest_block b n (c ∷ cs) lt (a, h) =
    (ground (arith, lt, a), Apart-All-rest_block b n cs lt h)

pub blocks-All :
    (pages pages' : ℕ → Page) (ps : List ℕ) (R : ℕ → Type 0)
    → All R ps
    → ((k : ℕ) → R k → (pages' k).property ≡ (pages k).property)
    → blocks pages' ps ≡ blocks pages ps
blocks-All pages pages' ps R h same = blocks-same pages pages' ps (go ps h)
  where
    go : (qs : List ℕ) → All R qs → All (λ p. (pages' p).property ≡ (pages p).property) qs
    go [] h = tt
    go (q ∷ qs) (r, h) = (same q r, go qs h)
