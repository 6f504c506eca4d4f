-- ===== src/PageTables/Memmap/Freed.antt =====
-- Labweek11/lab2/kern/mm/pmm.c: the pages that `page_init` frees.
use operating_system_homewor.Prelude.{ℕ, ◌≡◌, true, List, All}
use operating_system_homewor.PageAllocator.{Memory}
use operating_system_homewor.PageTables.Memmap.{Area}
use operating_system_homewor.PageTables.Memmap.Areas.{gives, IsReady}

abbrev AllReady : ℕ → ℕ → Memory → List Area → Type 0
AllReady n freemem s areas = All (λ a. gives freemem a ≡ true → IsReady n freemem s a) areas
