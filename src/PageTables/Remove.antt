-- ===== src/PageTables/Remove.antt =====
-- Labweek11/lab2/kern/mm/pmm.c: what `page_remove` does to the mapping.
use mathlib.Core.Path.{subst}
use operating_system_homewor.Prelude.{
  ℕ, ◌≡◌, ◌≢◌, inl, inr, refl, sym, ap, ◌∙◌, Bool-cases, true, false, none, some,
}
use operating_system_homewor.PageTables.{
  Paged, pde, pdx, ptx, present, entry2page, get_page, set_word, without_page, page_remove_pte,
  page_remove,
}
use operating_system_homewor.PageTables.Lookup.{
  table_of, word_of, get_page-mapped, get_page-no_table, get_page-no_entry,
}
use operating_system_homewor.PageTables.State.{
  vpt_index, IsPaged, InUse, Dropped, drop_page-Dropped,
}
use operating_system_homewor.PageTables.Table.{get_pte-there, get_pte-not_there}
use operating_system_homewor.PageTables.Rewritten.{
  Other, tlb_field, Rewritten, word_self, flushed-Rewritten, Rewritten-pde, others_same,
  page_remove_pte-absent, page_remove_pte-present,
}

-- The page that an address is mapped to is in use.
abbrev pub MapsInUse : Paged → ℕ → Type 0
MapsInUse v la = (q : ℕ) → get_page v la ≡ some q → InUse v.memory q

some_same : (a b : ℕ) → some a ≡ some b → a ≡ b
some_same a b e = cc

-- The entry for an address whose table is there is cleared, and its page loses a reference.
pub removes :
    (v : Paged) (la : ℕ)
    → IsPaged v
    → present (pde v (pdx la)) ≡ true
    → MapsInUse v la
    → (w : Paged) × (page_remove_pte v la (table_of v la) (ptx la) ≡ some w)
      × Rewritten v (table_of v la) (ptx la) w
      × (present (w.words (table_of v la) (ptx la)) ≡ false)
      × ((q : ℕ) → get_page v la ≡ some q → Dropped q v.memory w.memory)
removes v la paged there used = elim (Bool-cases (present (word_of v la))) [
  | inr absent ↦ (
    v,
    page_remove_pte-absent v la (table_of v la) (ptx la) absent,
    (refl, λ g j away. refl),
    absent,
    λ q e. let clash : none ≡ some q = sym (get_page-no_entry v la absent) ∙ e in absurd cc,
  )
  | inl mapped ↦
      let page = entry2page (word_of v la) in
      let found = get_page-mapped v la there mapped in
      let (m, e, dropped) = drop_page-Dropped page v.memory paged.well (used page found) in
      let cleared = set_word (record v { memory = m }) (table_of v la) (ptx la) 0 in
      (
        without_page v la (table_of v la) (ptx la) m,
        page_remove_pte-present v la (table_of v la) (ptx la) m mapped e,
        flushed-Rewritten (record v { memory = m }) la (table_of v la) (ptx la) 0,
        ap (λ f. present (f (table_of v la) (ptx la))) (tlb_field Paged.words cleared la refl)
            ∙ ap present (word_self v.words (table_of v la) (ptx la) 0),
        λ q e2.
            let same : page ≡ q = some_same page q (sym found ∙ e2) in
            subst (λ x. Dropped x v.memory (without_page v la (table_of v la) (ptx la) m).memory)
              same
              (subst (λ x. Dropped page v.memory x) (sym (tlb_field Paged.memory cleared la refl))
                dropped),
      )
]

page_remove-there :
    (v : Paged) (la : ℕ)
    → present (pde v (pdx la)) ≡ true
    → page_remove v la ≡ page_remove_pte v la (table_of v la) (ptx la)
unfolding page_remove
page_remove-there v la there = rw (page_remove, get_pte-there v la false there) refl

page_remove-absent :
    (v : Paged) (la : ℕ) → present (pde v (pdx la)) ≡ false → page_remove v la ≡ some v
unfolding page_remove
page_remove-absent v la absent = rw (page_remove, get_pte-not_there v la absent) refl

-- With page tables in form, an address outside the window at VPT and the page that it is mapped to,
-- if any, in use, `page_remove` fails no assertion: then the address is not mapped, all others
-- outside the window are as before, and the page, if there was one, is freed if it was referenced
-- once, and otherwise is not free and is referenced once less.
pub page_remove-Dropped :
    (v : Paged) (la : ℕ)
    → IsPaged v
    → pdx la ≢ vpt_index
    → MapsInUse v la
    → (w : Paged) × (page_remove v la ≡ some w)
      × (get_page w la ≡ none)
      × ((la' : ℕ) → pdx la' ≢ vpt_index → Other la la' → get_page w la' ≡ get_page v la')
      × ((q : ℕ) → get_page v la ≡ some q → Dropped q v.memory w.memory)
page_remove-Dropped v la paged outside used = elim (Bool-cases (present (pde v (pdx la)))) [
  | inr absent ↦ (
    v,
    page_remove-absent v la absent,
    get_page-no_table v la absent,
    λ la' out other. refl,
    λ q e. let clash : none ≡ some q = sym (get_page-no_table v la absent) ∙ e in absurd cc,
  )
  | inl there ↦
      let (w, e, rewritten, unmapped, dropped) = removes v la paged there used in
      let dir = Rewritten-pde v w la paged outside there rewritten (pdx la) in
      (
        w,
        page_remove-there v la there ∙ e,
        get_page-no_entry w la (ap (λ x. present (w.words (entry2page x) (ptx la))) dir ∙ unmapped),
        others_same v w la paged outside there rewritten,
        dropped,
      )
]
