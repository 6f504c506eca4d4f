-- ===== src/PageTables/Tests.antt =====
-- Labweek11/lab2/kern/mm/pmm.c on a small memory.
use mathlib.Core.Path.{subst}
use operating_system_homewor.Prelude.{
  ℕ, ◌≡◌, ◌≢◌, ◌∙◌, sym, refl, Bool, true, false, ◌==◌, if◌then◌else◌, Option, none, some, List, [],
  ◌∷◌, arith,
}
use operating_system_homewor.PageAllocator.{Memory}
use operating_system_homewor.PageAllocator.State.{IsWellFormed}
use operating_system_homewor.PageTables.{pdx, Paged, get_pte, get_page, page_insert, page_remove}
use operating_system_homewor.PageTables.Lookup.{get_page-no_table}
use operating_system_homewor.PageTables.State.{vpt_index, IsPaged, InUse, Dropped}
use operating_system_homewor.PageTables.Table.{Found, get_pte-Found}
use operating_system_homewor.PageTables.Remove.{MapsInUse, page_remove-Dropped}
use operating_system_homewor.PageTables.Memmap.{Area, max_loop, page_count, free_memory}
use operating_system_homewor.PageTables.Memmap.Areas.{whole_in}
use operating_system_homewor.PageTables.Rewritten.{Other}
use operating_system_homewor.PageTables.Insert.{Outcome, get_page-page_insert}

-- Pages 3 to 10 are free.
abbrev eight_pages : Memory
eight_pages = record {
  pages = λ k. record {
    ref = 0;
    reserved = false;
    property_bit = k == 3;
    property = if k == 3 then 8 else 0;
  };
  free_area = record { free_list = 3 ∷ []; nr_free = 8 };
}

eight_pages-IsWellFormed : IsWellFormed eight_pages
eight_pages-IsWellFormed = record {
  separate = (omega arith, tt, tt);
  counted = refl;
  marked = λ k bit. ground (arith, bit);
  usable = λ k some_k. refl;
}

-- Nothing is mapped.
abbrev unmapped : Paged
unmapped = record {
  memory = eight_pages;
  pgdir = 40;
  words = λ page index. 0;
  flushed = [];
  loaded = true;
}

unmapped-IsPaged : IsPaged unmapped
unmapped-IsPaged = record {
  well = eight_pages-IsWellFormed;
  kept = refl;
  owned = λ d out there. absurd cc;
  proper = λ d out there. absurd cc;
  apart = λ d e out_d out_e there. absurd cc;
}

maps_nothing : (la : ℕ) → MapsInUse unmapped la
maps_nothing la q e =
    let clash : none ≡ some q = sym (get_page-no_table unmapped la refl) ∙ e in absurd cc

get_pte-Found_example :
    (w : Paged) × (place : Option (ℕ × ℕ)) × (get_pte unmapped 8192 true ≡ some (w, place))
    × Found unmapped 8192 w place
get_pte-Found_example = get_pte-Found unmapped 8192 unmapped-IsPaged (λ e. omega (arith, e))

get_page-page_insert_example :
    (w : Paged) × (ok : Bool) × (page_insert unmapped 20 8192 2 ≡ some (w, ok))
    × Outcome unmapped 20 8192 w ok
get_page-page_insert_example =
    get_page-page_insert unmapped 20 8192 2 unmapped-IsPaged (omega arith) (λ e. omega (arith, e))
      (maps_nothing 8192)

-- Page 20, used once, is mapped at address 4096 by the table in page 30; the directory in page 40 is
-- its own table at VPT.
abbrev one_mapped : Paged
one_mapped = record {
  memory = record eight_pages {
    pages = λ k. record (eight_pages.pages k) { ref = if k == 20 then 1 else 0 };
  };
  pgdir = 40;
  words = λ page index.
      if page == 30
      then if index == 1 then 81923 else 0
      else if page == 40
      then if index == 0 then 122887 else (if index == 1003 then 163843 else 0)
      else 0;
  flushed = [];
  loaded = true;
}

test_mapped : get_page one_mapped 4096 ≡ some 20
unfolding get_page
test_mapped = refl

-- The first page of the window at VPT is the table.
test_window : get_page one_mapped 4206886912 ≡ some 30
unfolding get_page
test_window = refl

one_mapped-IsPaged : IsPaged one_mapped
one_mapped-IsPaged = record {
  well = record {
    separate = (omega arith, tt, tt);
    counted = refl;
    marked = λ k bit. ground (arith, bit);
    usable = λ k some_k. refl;
  };
  kept = refl;
  owned = λ d out there. ground (arith, out, there);
  proper = λ d out there e. ground (arith, out, there, e);
  apart = λ d e out_d out_e there_d there_e same. ground (arith, out_d, out_e, there_d, there_e);
}

some_same : (a b : ℕ) → some a ≡ some b → a ≡ b
some_same a b e = cc

maps_page : MapsInUse one_mapped 4096
maps_page q e =
    let same : some 20 ≡ some q = sym test_mapped ∙ e in
    subst (λ x. InUse one_mapped.memory x) (some_same 20 q same) (refl, refl)

page_remove-Dropped_example :
    (w : Paged) × (page_remove one_mapped 4096 ≡ some w)
    × (get_page w 4096 ≡ none)
    × ((la' : ℕ) → pdx la' ≢ vpt_index → Other 4096 la' → get_page w la' ≡ get_page one_mapped la')
    × ((q : ℕ) → get_page one_mapped 4096 ≡ some q → Dropped q one_mapped.memory w.memory)
page_remove-Dropped_example =
    page_remove-Dropped one_mapped 4096 one_mapped-IsPaged (λ e. omega (arith, e)) maps_page

-- 640 KB from 0 on, a hole, and 31 MB from 1 MB on; the kernel ends at 1.1 MB.
abbrev memory_map : List Area
memory_map =
    record { addr = 0; size = 654336; type = 1 }
    ∷ record { addr = 983040; size = 65536; type = 2 }
    ∷ record { addr = 1048576; size = 32374784; type = 1 }
    ∷ []

abbrev marked_nothing : Memory
marked_nothing = record {
  pages = λ k. record { ref = 0; reserved = false; property_bit = false; property = 0 };
  free_area = record { free_list = []; nr_free = 0 };
}

-- The map has 8160 pages, whose array ends in page 321.
test_page_init :
    (page_count memory_map ≡ 8160)
    × (whole_in (free_memory 1153434 8160) 321 memory_map ≡ 0)
    × (whole_in (free_memory 1153434 8160) 322 memory_map ≡ 1)
unfolding max_loop
test_page_init = (refl, refl, refl)
