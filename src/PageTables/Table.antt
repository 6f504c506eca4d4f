-- ===== src/PageTables/Table.antt =====
-- Labweek11/lab2/kern/mm/pmm.c: `get_pte` finds the entry for an address, or makes a table for it.
use operating_system_homewor.Prelude.{
  ℕ, ◌<◌, ◌≡◌, ◌≢◌, inl, inr, refl, sym, ap, ◌∙◌, Bool, Bool-cases, true, false, Option, none, some,
  All, arith,
}
use operating_system_homewor.PageAllocator.{Memory, default_alloc_pages}
use operating_system_homewor.PageAllocator.State.{free_blocks, Allocated}
use operating_system_homewor.PageAllocator.Allocate.{default_alloc_pages-Allocated}
use operating_system_homewor.PageTables.{Paged, pde, pdx, ptx, present, new_table, get_pte}
use operating_system_homewor.PageTables.Lookup.{table_of}
use operating_system_homewor.PageTables.State.{vpt_index, IsPaged}
use operating_system_homewor.PageTables.NewTable.{Ready, new_table-Ready}

-- The result of `get_pte` with `create`
abbrev pub Found : Paged → ℕ → Paged → Option (ℕ × ℕ) → Type 0
Found v la w none = All (λ b. b.size < 1) (free_blocks v.memory) × (w ≡ v)
Found v la w (some place) = Ready v la w place.0 place.1

pub get_pte-there :
    (v : Paged) (la : ℕ) (create : Bool)
    → present (pde v (pdx la)) ≡ true
    → get_pte v la create ≡ some (v, some (table_of v la, ptx la))
unfolding get_pte
get_pte-there v la create e = rw e refl

pub get_pte-not_there :
    (v : Paged) (la : ℕ) → present (pde v (pdx la)) ≡ false → get_pte v la false ≡ some (v, none)
unfolding get_pte
get_pte-not_there v la e = rw e refl

get_pte-none :
    (v : Paged) (la : ℕ) (m : Memory)
    → present (pde v (pdx la)) ≡ false
    → default_alloc_pages 1 v.memory ≡ some (none, m)
    → get_pte v la true ≡ some (record v { memory = m }, none)
unfolding get_pte
get_pte-none v la m e a = rw (e, a) refl

get_pte-new :
    (v : Paged) (la page : ℕ) (m : Memory)
    → present (pde v (pdx la)) ≡ false
    → default_alloc_pages 1 v.memory ≡ some (some page, m)
    → get_pte v la true ≡ some (new_table v la page m, some (page, ptx la))
unfolding get_pte
get_pte-new v la page m e a = rw (e, a) refl

by_result :
    (v : Paged) (la : ℕ)
    → IsPaged v
    → pdx la ≢ vpt_index
    → present (pde v (pdx la)) ≡ false
    → (o : Option ℕ) (m : Memory) → default_alloc_pages 1 v.memory ≡ some (o, m)
    → Allocated 1 v.memory o m
    → (w : Paged) × (place : Option (ℕ × ℕ)) × (get_pte v la true ≡ some (w, place))
      × Found v la w place
by_result v la paged outside missing none m e (same, small) = (
  record v { memory = m },
  none,
  get_pte-none v la m missing e,
  (small, ap (λ x. record v { memory = x }) same),
)
by_result v la paged outside missing (some page) m e done = (
  new_table v la page m,
  some (page, ptx la),
  get_pte-new v la page m missing e,
  new_table-Ready v la page m paged outside missing done,
)

-- With page tables in form and an address outside the window at VPT, `get_pte` with `create` fails
-- no assertion. It gives the place of the entry: if there was a table, nothing changes; otherwise
-- the table is a new page, empty and referenced once, that users may write to. No address outside
-- the window is mapped differently. Or it gives NULL, and changes nothing, because no page is free.
pub get_pte-Found :
    (v : Paged) (la : ℕ)
    → IsPaged v
    → pdx la ≢ vpt_index
    → (w : Paged) × (place : Option (ℕ × ℕ)) × (get_pte v la true ≡ some (w, place))
      × Found v la w place
get_pte-Found v la paged outside = elim (Bool-cases (present (pde v (pdx la)))) [
  | inl there ↦ (
    v,
    some (table_of v la, ptx la),
    get_pte-there v la true there,
    record {
      paged = paged;
      there = there;
      table_is = refl;
      index_is = refl;
      old = λ _. refl;
      fresh = λ missing. let clash : true ≡ false = sym there ∙ missing in absurd cc;
      same_pages = λ la' out. refl;
      costs = omega arith;
      in_use = λ k used. used;
    },
  )
  | inr missing ↦
      let (o, m, e, done) = default_alloc_pages-Allocated 1 v.memory (omega arith) paged.well in
      by_result v la paged outside missing o m e done
]
