-- ===== src/PageAllocator/Tests.antt =====
-- Labweek11/lab2/kern/mm/default_pmm.c on small memories.
use operating_system_homewor.Prelude.{
  ap, ◌∙◌, remove_first-head, remove_first-later, ℕ, ◌≡◌, refl, true, false, Option, none, some, [],
  ◌∷◌, arith, ◌==◌, if◌then◌else◌,
}
use operating_system_homewor.PageAllocator.{
  Memory, take_pages, init_loop, default_init, default_init_memmap, find_block, default_alloc_pages,
  free_loop, merge_loop, place_block, default_free_pages,
}
use operating_system_homewor.PageAllocator.Blocks.{covered}
use operating_system_homewor.PageAllocator.State.{free_blocks, IsWellFormed, Allocated}
use operating_system_homewor.PageAllocator.Allocate.{default_alloc_pages-Allocated}
use operating_system_homewor.PageAllocator.Release.{Released, default_free_pages-Released}
use operating_system_homewor.PageAllocator.Start.{default_free_pages-default_alloc_pages}

program : Unit {0}
unfolding init_loop default_init_memmap find_block default_alloc_pages free_loop merge_loop
    place_block default_free_pages
program = tt

-- Every page is reserved, as `page_init` leaves them.
abbrev reserved_memory : Memory
reserved_memory = record {
  pages = λ k. record { ref = 0; reserved = true; property_bit = false; property = 0 };
  free_area = record { free_list = []; nr_free = 7 };
}

abbrev no_blocks : Memory
no_blocks = default_init reserved_memory

-- Pages 3 to 10 are free.
abbrev eight_pages : Memory
eight_pages = record {
  pages = λ k. record {
    ref = 0;
    reserved = false;
    property_bit = k == 3;
    property = if k == 3 then 8 else 0;
  };
  free_area = record { free_list = 3 ∷ []; nr_free = 8 };
}

eight_pages-IsWellFormed : IsWellFormed eight_pages
eight_pages-IsWellFormed = record {
  separate = (omega arith, tt, tt);
  counted = refl;
  marked = λ k bit. ground (arith, bit);
  usable = λ k some_k. refl;
}

default_alloc_pages-Allocated_example :
    (o : Option ℕ) × (s' : Memory) × (default_alloc_pages 5 eight_pages ≡ some (o, s'))
    × Allocated 5 eight_pages o s'
default_alloc_pages-Allocated_example =
    default_alloc_pages-Allocated 5 eight_pages (omega arith) eight_pages-IsWellFormed

default_free_pages-Released_example :
    (s' : Memory) × (default_free_pages 11 2 eight_pages ≡ some s') × Released 11 2 eight_pages s'
default_free_pages-Released_example =
    default_free_pages-Released 11 2 eight_pages (omega arith) eight_pages-IsWellFormed
      (λ k le lt. refl) (λ k le lt. ground (arith, le, lt))

default_free_pages-default_alloc_pages_example :
    (t : Memory) × (default_free_pages 3 5 (take_pages 3 5 eight_pages) ≡ some t)
    × IsWellFormed t
    × ((k : ℕ) → covered k (free_blocks t) ≡ covered k (free_blocks eight_pages))
    × (t.free_area.nr_free ≡ 8)
unfolding program
default_free_pages-default_alloc_pages_example =
    default_free_pages-default_alloc_pages 5 3 eight_pages (take_pages 3 5 eight_pages)
      (omega arith) eight_pages-IsWellFormed refl

abbrev freed : Option Memory → Memory
freed none = no_blocks
freed (some s) = s

abbrev allocated : Option (Option ℕ × Memory) → Memory
allocated none = no_blocks
allocated (some r) = r.1

-- What is freed next to a block is merged with it.
test_merged : (freed (default_free_pages 11 2 eight_pages)).free_area.free_list ≡ 3 ∷ []
unfolding program
test_merged = refl

-- Two blocks, of which the second is cut: its rest goes to the head of the list, before the block at
-- the lower address, and the next allocation takes it.
abbrev two_blocks : Memory
two_blocks = freed (default_free_pages 20 6 eight_pages)

test_rest_first :
    (allocated
      (default_alloc_pages 9 (freed (default_free_pages 40 20 two_blocks)))).free_area.free_list
    ≡ 49 ∷ 3 ∷ 20 ∷ []
unfolding program
test_rest_first =
    ap (λ l. 49 ∷ l)
      (remove_first-later 3 40 (20 ∷ 40 ∷ []) (omega arith)
        ∙ ap (λ l. 3 ∷ l)
            (remove_first-later 20 40 (40 ∷ []) (omega arith)
              ∙ ap (λ l. 20 ∷ l) (remove_first-head 40 [])))
