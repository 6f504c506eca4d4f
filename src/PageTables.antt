-- ===== src/PageTables.antt =====
-- Labweek11/lab2/kern/mm/pmm.c: page tables over the page allocator.
pub mod Lookup
pub mod State
pub mod NewTable
pub mod Table
pub mod Rewritten
pub mod Remove
pub mod Insert
pub mod Boot
pub mod Memmap
mod Tests
use operating_system_homewor.Prelude.{
  ℕ, zero, suc, ◌+◌, ◌*◌, ◌/◌, ◌%◌, Bool, true, false, ◌==◌, if◌then◌else◌, Option, none, some,
  List, [], ◌∷◌, ◌++◌, update,
}
use operating_system_homewor.PageAllocator.{Page, Memory, default_alloc_pages, default_free_pages}

-- The memory that the processor sees: the words of every page, where page tables are, and the page
-- that holds the directory, which is also the table for the addresses from VPT on once the kernel has
-- put the directory into itself; the addresses whose entry was flushed; and whether this directory is
-- loaded.
pub record Paged : Type 0 where
  pub memory : Memory
  pub pgdir : ℕ
  pub words : ℕ → ℕ → ℕ
  pub flushed : List ℕ
  pub loaded : Bool

abbrev pub pdx : ℕ → ℕ
pdx la = la / 4194304 % 1024

abbrev pub ptx : ℕ → ℕ
ptx la = la / 4096 % 1024

-- An entry of the directory
abbrev pub pde : Paged → ℕ → ℕ
pde v d = v.words v.pgdir d

-- `entry & PTE_P`
abbrev pub present : ℕ → Bool
present entry = entry % 2 == 1

-- `pte2page`, and `pa2page` of PDE_ADDR: the address of an entry without its flags is that of a page.
abbrev pub entry2page : ℕ → ℕ
entry2page entry = entry / 4096

-- `page2pa(page) | PTE_P | perm`, for `perm` below 4096
abbrev pub entry_for : ℕ → ℕ → ℕ
entry_for page perm = page * 4096 + (if perm % 2 == 1 then perm else perm + 1)

abbrev pub set_page_ref : ℕ → ℕ → Memory → Memory
set_page_ref page val m = record m {
  pages = update m.pages page (record (m.pages page) { ref = val });
}

-- A count of references is an `int` of 32 bits, here as the number that its bits are: 0 less one is -1.
abbrev pub page_ref_inc : ℕ → Memory → Memory
page_ref_inc page m = set_page_ref page (((m.pages page).ref + 1) % 4294967296) m

abbrev pub page_ref_dec : ℕ → Memory → Memory
page_ref_dec page m = set_page_ref page (((m.pages page).ref + 4294967295) % 4294967296) m

abbrev pub set_word : Paged → ℕ → ℕ → ℕ → Paged
set_word v table index entry = record v {
  words = update v.words table (update (v.words table) index entry);
}

-- A new page table: its page is referenced once and cleared, and the directory points to it, for
-- users too and writable.
abbrev pub new_table : Paged → ℕ → ℕ → Memory → Paged
new_table v la page m =
    set_word (record v { memory = set_page_ref page 1 m; words = update v.words page (λ _. 0) })
      v.pgdir (pdx la) (page * 4096 + 7)

-- The place of the entry for `la`, as the page of its table and an index, or NULL; the outer `none`
-- is an assertion of the allocator that fails.
unfoldable pub get_pte : Paged → ℕ → Bool → Option (Paged × Option (ℕ × ℕ))
get_pte v la create =
    if present (pde v (pdx la))
    then some (v, some (entry2page (pde v (pdx la)), ptx la))
    else if create
    then elim (default_alloc_pages 1 v.memory) [
      | none ↦ none
      | some r ↦ elim r.0 [
        | none ↦ some (record v { memory = r.1 }, none)
        | some page ↦ some (new_table v la page r.1, some (page, ptx la))
      ]
    ]
    else some (v, none)

-- With `create` false nothing changes, so that only the page is given.
unfoldable pub get_page : Paged → ℕ → Option ℕ
get_page v la =
    if present (pde v (pdx la))
    then if present (v.words (entry2page (pde v (pdx la))) (ptx la))
      then some (entry2page (v.words (entry2page (pde v (pdx la))) (ptx la)))
      else none
    else none

abbrev pub tlb_invalidate : Paged → ℕ → Paged
tlb_invalidate v la = if v.loaded then record v { flushed = v.flushed ++ la ∷ [] } else v

-- One reference less to a page, which is freed if none is left.
abbrev pub drop_page : ℕ → Memory → Option Memory
drop_page page m =
    let less = page_ref_dec page m in
    if (less.pages page).ref == 0 then default_free_pages page 1 less else some less

abbrev pub without_page : Paged → ℕ → ℕ → ℕ → Memory → Paged
without_page v la table index m =
    tlb_invalidate (set_word (record v { memory = m }) table index 0) la

unfoldable pub page_remove_pte : Paged → ℕ → ℕ → ℕ → Option Paged
page_remove_pte v la table index =
    if present (v.words table index)
    then elim (drop_page (entry2page (v.words table index)) v.memory) [
      | none ↦ none
      | some m ↦ some (without_page v la table index m)
    ]
    else some v

unfoldable pub page_remove : Paged → ℕ → Option Paged
page_remove v la = elim (get_pte v la false) [
  | none ↦ none
  | some r ↦ elim r.1 [ none ↦ some r.0 | some place ↦ page_remove_pte r.0 la place.0 place.1 ]
]

-- What `page_insert` does to the entry that it finds, before it writes its own
abbrev pub replace_old : Paged → ℕ → ℕ → ℕ → ℕ → Option Paged
replace_old v page la table index =
    if present (v.words table index)
    then if entry2page (v.words table index) == page
      then some (record v { memory = page_ref_dec page v.memory })
      else page_remove_pte v la table index
    else some v

abbrev pub map_page : Paged → ℕ → ℕ → ℕ → ℕ → ℕ → Paged
map_page v page la perm table index =
    tlb_invalidate (set_word v table index (entry_for page perm)) la

-- The result beside the memory: `true` for 0, `false` for -E_NO_MEM
unfoldable pub page_insert : Paged → ℕ → ℕ → ℕ → Option (Paged × Bool)
page_insert v page la perm = elim (get_pte v la true) [
  | none ↦ none
  | some r ↦ elim r.1 [
    | none ↦ some (r.0, false)
    | some place ↦
        elim (replace_old (record r.0 { memory = page_ref_inc page r.0.memory }) page la place.0
          place.1) [ none ↦ none | some w ↦ some (map_page w page la perm place.0 place.1, true) ]
  ]
]

abbrev pub roundup : ℕ → ℕ
roundup a = (a + 4095) / 4096 * 4096

abbrev pub rounddown : ℕ → ℕ
rounddown a = a / 4096 * 4096

-- The loop of `boot_map_segment` over `n` pages; `none` where an assertion fails
unfoldable pub boot_loop : ℕ → Paged → ℕ → ℕ → ℕ → Option Paged
boot_loop zero v la pa perm = some v
boot_loop (suc n) v la pa perm = elim (get_pte v la true) [
  | none ↦ none
  | some r ↦ elim r.1 [
    | none ↦ none
    | some place ↦
        boot_loop n (set_word r.0 place.0 place.1 (entry_for (pa / 4096) perm)) (la + 4096)
          (pa + 4096) perm
  ]
]

unfoldable pub boot_map_segment : Paged → ℕ → ℕ → ℕ → ℕ → Option Paged
boot_map_segment v la size pa perm =
    if la % 4096 == pa % 4096
    then boot_loop (roundup (size + la % 4096) / 4096) v (rounddown la) (rounddown pa) perm
    else none
