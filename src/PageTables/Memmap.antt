-- ===== src/PageTables/Memmap.antt =====
-- Labweek11/lab2/kern/mm/pmm.c: `page_init`, which finds the free pages in the map of the memory.
pub mod Areas
pub mod Freed
use native.Mathlib.Decide.{ℕ_discrete}
use operating_system_homewor.Prelude.{
  ℕ, zero, suc, ◌+◌, ◌-◌, ◌*◌, ◌/◌, ◌%◌, ◌≤◌, ◌<◌, ◌≡◌, ◌≢◌, ◌⊎◌, inl, inr, refl, sym, ap, ◌∙◌,
  Bool, true, false, ◌&&◌, ltb, leb, ◌==◌, if◌then◌else◌, Option, none, some, List, [], ◌∷◌, All,
  arith, update, update_self, update_ne, Bool-cases,
}
use operating_system_homewor.PageAllocator.{Page, Memory, default_init, default_init_memmap}
use operating_system_homewor.PageAllocator.Blocks.{Apart, Disjoint, Block, within, covered}
use operating_system_homewor.PageAllocator.State.{free_blocks, IsWellFormed, pages_from}
use operating_system_homewor.PageAllocator.Release.{Released, Disjoint-uncovered}
use operating_system_homewor.PageAllocator.Start.{
  default_init-IsWellFormed, default_init_memmap-Released,
}
use operating_system_homewor.PageTables.{roundup, rounddown}

-- An entry of the map that the boot loader leaves; `type` is 1 (E820_ARM) for memory.
pub record Area : Type 0 where
  pub addr : ℕ
  pub size : ℕ
  pub type : ℕ

abbrev pub kmemsize : ℕ
kmemsize = 939524096

-- The end of an area, as a number of 64 bits
abbrev pub area_end : Area → ℕ
area_end a = (a.addr + a.size) % 18446744073709551616

abbrev pub max_step : ℕ → Area → ℕ
max_step m a = if a.type == 1 && (ltb m (area_end a) && ltb a.addr kmemsize) then area_end a else m

unfoldable pub max_loop : ℕ → List Area → ℕ
max_loop m [] = m
max_loop m (a ∷ areas) = max_loop (max_step m a) areas

abbrev pub page_count : List Area → ℕ
page_count areas = (if ltb kmemsize (max_loop 0 areas) then kmemsize else max_loop 0 areas) / 4096

-- The loop of SetPageReserved over the first `n` pages
unfoldable pub reserve_loop : ℕ → (ℕ → Page) → ℕ → Page
reserve_loop zero pages = pages
reserve_loop (suc n) pages =
    let rest = reserve_loop n pages in update rest n (record (rest n) { reserved = true })

-- The first byte behind the array of `n` pages, 20 bytes each, which starts on the first page behind
-- the kernel; both as physical addresses.
abbrev pub free_memory : ℕ → ℕ → ℕ
free_memory kernel_end n = roundup kernel_end + 20 * n

abbrev pub begin_of : ℕ → Area → ℕ
begin_of freemem a = if ltb a.addr freemem then freemem else a.addr

abbrev pub end_of : Area → ℕ
end_of a = if ltb kmemsize (area_end a) then kmemsize else area_end a

-- `init_memmap(pa2page(begin), ...)`, where `pa2page` panics behind the last of `n` pages
abbrev pub init_pages : ℕ → ℕ → ℕ → Memory → Option Memory
init_pages n begin end s =
    if ltb begin end
    then if ltb (begin / 4096) n
      then default_init_memmap (begin / 4096) ((end - begin) / 4096) s
      else none
    else some s

abbrev pub area_step : ℕ → ℕ → Area → Memory → Option Memory
area_step n freemem a s =
    if a.type == 1 && ltb (begin_of freemem a) (end_of a)
    then init_pages n (roundup (begin_of freemem a)) (rounddown (end_of a)) s
    else some s

-- The second loop over the map; `none` where an assertion fails
unfoldable pub area_loop : ℕ → ℕ → List Area → Memory → Option Memory
area_loop n freemem [] s = some s
area_loop n freemem (a ∷ areas) s = elim (area_step n freemem a s) [
  | none ↦ none
  | some t ↦ area_loop n freemem areas t
]

unfoldable pub page_init : ℕ → List Area → Memory → Option Memory
page_init kernel_end areas s =
    area_loop (page_count areas) (free_memory kernel_end (page_count areas)) areas
      (record s { pages = reserve_loop (page_count areas) s.pages })
