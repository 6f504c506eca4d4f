-- ===== src/PageAllocator.antt =====
-- Labweek11/lab2/kern/mm/default_pmm.c: the allocator of physical pages, with its list of free blocks.
pub mod Blocks
pub mod Fields
pub mod Merging
pub mod Inserted
pub mod State
pub mod Allocate
pub mod Clearing
pub mod Walk
pub mod Release
pub mod Start
mod Tests
use operating_system_homewor.Prelude.{
  ℕ, zero, suc, ◌+◌, ◌-◌, Bool, true, false, not, ◌&&◌, ltb, leb, ◌==◌, if◌then◌else◌, Option, none,
  some, List, [], ◌∷◌, ◌++◌, update, remove_first,
}

-- `struct Page` without its link: the bits PG_reserved and PG_property are two fields. A page is its
-- index, so that `base + n` is the page `n` places on.
pub record Page : Type 0 where
  pub ref : ℕ
  pub reserved : Bool
  pub property_bit : Bool
  pub property : ℕ

-- `free_area_t`; the list is the sequence of the pages that are linked.
pub record FreeArea : Type 0 where
  pub free_list : List ℕ
  pub nr_free : ℕ

pub record Memory : Type 0 where
  pub pages : ℕ → Page
  pub free_area : FreeArea

abbrev pub set_property : (ℕ → Page) → ℕ → ℕ → ℕ → Page
set_property pages b n = update pages b (record (pages b) { property = n })

abbrev pub set_page_property : (ℕ → Page) → ℕ → ℕ → Page
set_page_property pages b = update pages b (record (pages b) { property_bit = true })

abbrev pub clear_page_property : (ℕ → Page) → ℕ → ℕ → Page
clear_page_property pages b = update pages b (record (pages b) { property_bit = false })

abbrev pub default_init : Memory → Memory
default_init s = record s { free_area = record { free_list = []; nr_free = 0 } }

-- A page of a block of `n` pages that starts at `base`
abbrev pub free_page : ℕ → ℕ → ℕ → Page
free_page p base n =
    if p == base
    then record { ref = 0; reserved = false; property_bit = true; property = n }
    else record { ref = 0; reserved = false; property_bit = false; property = 0 }

-- The loop over `i` pages from `p` on; `none` where an assertion fails
unfoldable pub init_loop : ℕ → ℕ → ℕ → ℕ → (ℕ → Page) → Option (ℕ → Page)
init_loop zero p base n pages = some pages
init_loop (suc i) p base n pages =
    if (pages p).reserved
    then init_loop i (p + 1) base n (update pages p (free_page p base n))
    else none

unfoldable pub default_init_memmap : ℕ → ℕ → Memory → Option Memory
default_init_memmap base n s = if n == 0 then none else elim (init_loop n base base n s.pages) [
  | none ↦ none
  | some ready ↦ some (record {
    pages = ready;
    free_area = record {
      free_list = s.free_area.free_list ++ base ∷ [];
      nr_free = s.free_area.nr_free + n;
    };
  })
]

-- The first block of the list that is large enough
unfoldable pub find_block : (ℕ → Page) → ℕ → List ℕ → Option ℕ
find_block pages n [] = none
find_block pages n (p ∷ ps) = if leb n (pages p).property then some p else find_block pages n ps

-- What is left of the block behind its first `n` pages goes to the head of the list.
abbrev pub rest_of_block : ℕ → ℕ → (ℕ → Page) → ℕ → Page
rest_of_block page n pages =
    if ltb n (pages page).property
    then set_page_property (set_property pages (page + n) ((pages page).property - n)) (page + n)
    else pages

abbrev pub list_without : ℕ → ℕ → Memory → List ℕ
list_without page n s =
    if ltb n (s.pages page).property
    then (page + n) ∷ remove_first page s.free_area.free_list
    else remove_first page s.free_area.free_list

abbrev pub take_pages : ℕ → ℕ → Memory → Memory
take_pages page n s = record {
  pages = clear_page_property (rest_of_block page n s.pages) page;
  free_area = record { free_list = list_without page n s; nr_free = s.free_area.nr_free - n };
}

-- `none` where the assertion fails; otherwise the page or NULL, and the memory after
unfoldable pub default_alloc_pages : ℕ → Memory → Option (Option ℕ × Memory)
default_alloc_pages n s =
    if n == 0
    then none
    else if ltb s.free_area.nr_free n
    then some (none, s)
    else elim (find_block s.pages n s.free_area.free_list) [
      | none ↦ some (none, s)
      | some page ↦ some (some page, take_pages page n s)
    ]

unfoldable pub free_loop : ℕ → ℕ → (ℕ → Page) → Option (ℕ → Page)
free_loop zero p pages = some pages
free_loop (suc n) p pages =
    if not (pages p).reserved && not (pages p).property_bit
    then free_loop n (p + 1)
        (update pages p (record (pages p) { ref = 0; reserved = false; property_bit = false }))
    else none

-- The walk that merges the freed block `base` with its neighbours: the pages, the block that it has
-- become, and the entries that stay linked.
abbrev pub absorb_next : (ℕ → Page) → ℕ → ℕ → ℕ → Page
absorb_next pages base p =
    clear_page_property (set_property pages base ((pages base).property + (pages p).property)) p

abbrev pub absorb_into : (ℕ → Page) → ℕ → ℕ → ℕ → Page
absorb_into pages base p =
    clear_page_property (set_property pages p ((pages p).property + (pages base).property)) base

unfoldable pub merge_loop : List ℕ → (ℕ → Page) → ℕ → (ℕ → Page) × ℕ × List ℕ
merge_loop [] pages base = (pages, base, [])
merge_loop (p ∷ ps) pages base =
    if base + (pages base).property == p
    then merge_loop ps (absorb_next pages base p) base
    else if p + (pages p).property == base
    then merge_loop ps (absorb_into pages base p) p
    else let rest = merge_loop ps pages base in (rest.0, rest.1, p ∷ rest.2)

-- `base` goes before the first entry that lies behind it.
unfoldable pub place_block : (ℕ → Page) → ℕ → List ℕ → List ℕ
place_block pages base [] = base ∷ []
place_block pages base (p ∷ ps) =
    if leb (base + (pages base).property) p then base ∷ p ∷ ps else p ∷ place_block pages base ps

-- The freed pages, cleared, as a block that is merged with its neighbours and linked.
abbrev pub give_back : ℕ → ℕ → Memory → (ℕ → Page) → Memory
give_back base n s cleared =
    let merged =
      merge_loop s.free_area.free_list (set_page_property (set_property cleared base n) base)
        base in
    record {
      pages = merged.0;
      free_area = record {
        free_list = place_block merged.0 merged.1 merged.2;
        nr_free = s.free_area.nr_free + n;
      };
    }

unfoldable pub default_free_pages : ℕ → ℕ → Memory → Option Memory
default_free_pages base n s = if n == 0 then none else elim (free_loop n base s.pages) [
  | none ↦ none
  | some cleared ↦ some (give_back base n s cleared)
]

abbrev pub default_nr_free_pages : Memory → ℕ
default_nr_free_pages s = s.free_area.nr_free
