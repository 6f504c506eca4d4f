-- ===== src/PageTables/Insert.antt =====
-- Labweek11/lab2/kern/mm/pmm.c: what `page_insert` does to the mapping.
use mathlib.Core.Path.{subst}
use operating_system_homewor.Prelude.{
  ℕ, ◌+◌, ◌%◌, ◌<◌, ◌≡◌, ◌≢◌, inl, inr, refl, sym, ap, ap₂, ◌∙◌, Bool, Bool-cases, true, false,
  ◌==◌, Option, none, some, All,
}
use operating_system_homewor.PageAllocator.State.{free_blocks}
use operating_system_homewor.PageAllocator.Blocks.{covered}
use operating_system_homewor.PageTables.{
  Paged, pde, pdx, ptx, present, entry2page, entry_for, page_ref_inc, page_ref_dec, get_pte,
  get_page, set_word, replace_old, map_page, page_insert,
}
use operating_system_homewor.PageTables.Lookup.{
  table_of, word_of, get_page-mapped, get_page-same, entry2page-entry_for, present-entry_for,
}
use operating_system_homewor.PageTables.State.{
  vpt_index, changed_blocks, IsPaged, set_page_ref-IsWellFormed, set_page_ref-InUse,
}
use operating_system_homewor.PageTables.NewTable.{Ready}
use operating_system_homewor.PageTables.Table.{Found, get_pte-Found}
use operating_system_homewor.PageTables.Rewritten.{
  Other, tlb_field, Rewritten, word_self, flushed-Rewritten, Rewritten-pde, others_same,
}
use operating_system_homewor.PageTables.Remove.{MapsInUse, removes}

-- What `page_insert` finds at the place of the entry is gone from there; nothing else is rewritten.
replaces :
    (v : Paged) (page la : ℕ)
    → IsPaged v
    → present (pde v (pdx la)) ≡ true
    → MapsInUse v la
    → (w : Paged) × (replace_old v page la (table_of v la) (ptx la) ≡ some w)
      × Rewritten v (table_of v la) (ptx la) w
replaces v page la paged there used = elim (Bool-cases (present (word_of v la))) [
  | inr absent ↦ (v, rw absent refl, (refl, λ g j away. refl))
  | inl mapped ↦ elim (Bool-cases (entry2page (word_of v la) == page)) [
    | inl same ↦ (
      record v { memory = page_ref_dec page v.memory },
      rw (mapped, same) refl,
      (refl, λ g j away. refl),
    )
    | inr differs ↦
        let (w, e, rewritten, _, _) = removes v la paged there used in
        (w, rw (mapped, differs) e, rewritten)
  ]
]

page_insert-none :
    (v w : Paged) (page la perm : ℕ)
    → get_pte v la true ≡ some (w, none)
    → page_insert v page la perm ≡ some (w, false)
unfolding page_insert
page_insert-none v w page la perm e = rw (page_insert, e) refl

page_insert-some :
    (v w r : Paged) (page la perm table index : ℕ)
    → get_pte v la true ≡ some (w, some (table, index))
    → replace_old (record w { memory = page_ref_inc page w.memory }) page la table index ≡ some r
    → page_insert v page la perm ≡ some (map_page r page la perm table index, true)
unfolding page_insert
page_insert-some v w r page la perm table index e old = rw (page_insert, e, old) refl

-- What `page_insert` has done: 0 and the new mapping, or -E_NO_MEM and nothing.
abbrev pub Outcome : Paged → ℕ → ℕ → Paged → Bool → Type 0
Outcome v page la w true =
    (get_page w la ≡ some page)
    × ((la' : ℕ) → pdx la' ≢ vpt_index → Other la la' → get_page w la' ≡ get_page v la')
Outcome v page la w false = All (λ b. b.size < 1) (free_blocks v.memory) × (w ≡ v)

abbrev referenced : ℕ → Paged → Paged
referenced page w = record w { memory = page_ref_inc page w.memory }

referenced-IsPaged : (page : ℕ) (w : Paged) → IsPaged w → IsPaged (referenced page w)
referenced-IsPaged page w paged =
    let val = ((w.memory.pages page).ref + 1) % 4294967296 in
    let same = changed_blocks page val w.memory in
    record {
      well = set_page_ref-IsWellFormed page val w.memory paged.well;
      kept = ap (covered w.pgdir) same ∙ paged.kept;
      owned = λ d out there. ap (covered (entry2page (pde w d))) same ∙ paged.owned d out there;
      proper = paged.proper;
      apart = paged.apart;
    }

module _ (v w : Paged) (page la perm : ℕ) (lt : perm < 4096) (outside : pdx la ≢ vpt_index)
    (used : MapsInUse v la) (ready : Ready v la w (table_of w la) (ptx la)) where
  abbrev x : Paged
  x = referenced page w

  used_now : MapsInUse x la
  used_now q e = set_page_ref-InUse page (((w.memory.pages page).ref + 1) % 4294967296) w.memory q (
      ready.in_use q
        (used q (sym (ready.same_pages la outside) ∙ sym (get_page-same w x la refl refl) ∙ e)))

  abbrev after : Paged → Paged
  after r = map_page r page la perm (table_of w la) (ptx la)

  after-Rewritten :
      (r : Paged)
      → Rewritten x (table_of w la) (ptx la) r
      → Rewritten x (table_of w la) (ptx la) (after r)
  after-Rewritten r (dirs, same) =
      let flushed = flushed-Rewritten r la (table_of w la) (ptx la) (entry_for page perm) in
      (flushed.0 ∙ dirs, λ g j away. flushed.1 g j away ∙ same g j away)

  mapped : (r : Paged) → Rewritten x (table_of w la) (ptx la) r → Outcome v page la (after r) true
  mapped r rewritten =
      let written = set_word r (table_of w la) (ptx la) (entry_for page perm) in
      let paged = referenced-IsPaged page w ready.paged in
      let all = after-Rewritten r rewritten in
      let dir : pde (after r) (pdx la) ≡ pde w (pdx la) =
        Rewritten-pde x (after r) la paged outside ready.there all (pdx la) in
      let entry : word_of (after r) la ≡ entry_for page perm =
        ap (λ e. (after r).words (entry2page e) (ptx la)) dir
        ∙ ap (λ f. f (table_of w la) (ptx la)) (tlb_field Paged.words written la refl)
        ∙ word_self r.words (table_of w la) (ptx la) (entry_for page perm) in
      (
        get_page-mapped (after r) la (ap present dir ∙ ready.there)
              (ap present entry ∙ present-entry_for page perm lt)
            ∙ ap (λ e. some (entry2page e)) entry
            ∙ ap some (entry2page-entry_for page perm lt),
        λ la' out other.
            others_same x (after r) la paged outside ready.there all la' out other
            ∙ get_page-same w x la' refl refl
            ∙ ready.same_pages la' out,
      )

by_place :
    (v w : Paged) (page la perm : ℕ)
    → perm < 4096
    → pdx la ≢ vpt_index
    → MapsInUse v la
    → (place : Option (ℕ × ℕ)) → get_pte v la true ≡ some (w, place)
    → Found v la w place
    → (u : Paged) × (ok : Bool) × (page_insert v page la perm ≡ some (u, ok))
      × Outcome v page la u ok
by_place v w page la perm lt outside used none e found =
    (w, false, page_insert-none v w page la perm e, found)
by_place v w page la perm lt outside used (some (table, index)) e ready =
    let ready' : Ready v la w (table_of w la) (ptx la) =
      subst (λ i. Ready v la w (table_of w la) i) (sym ready.index_is)
        (subst (λ t. Ready v la w t index) (sym ready.table_is) ready) in
    let (r, old, rewritten) =
      replaces (referenced page w) page la (referenced-IsPaged page w ready.paged) ready.there
        (used_now v w page la perm lt outside used ready') in
    let place_is : some (table, index) ≡ some (table_of w la, ptx la) =
      ap₂ (λ t i. some (t, i)) (sym ready.table_is) (sym ready.index_is) in
    (
      map_page r page la perm (table_of w la) (ptx la),
      true,
      page_insert-some v w r page la perm (table_of w la) (ptx la)
          (e ∙ ap (λ p. some (w, p)) place_is) old,
      mapped v w page la perm lt outside used ready' r rewritten,
    )

-- With page tables in form, flags below 4096, an address outside the window at VPT and the page
-- that it was mapped to, if any, in use, `page_insert` fails no assertion. It gives 0: then
-- `get_page` finds the page that was inserted, and every other address outside the window is mapped
-- as before. Or it gives -E_NO_MEM, and changes nothing, because no page is free for a table.
pub get_page-page_insert :
    (v : Paged) (page la perm : ℕ)
    → IsPaged v
    → perm < 4096
    → pdx la ≢ vpt_index
    → MapsInUse v la
    → (w : Paged) × (ok : Bool) × (page_insert v page la perm ≡ some (w, ok))
      × Outcome v page la w ok
get_page-page_insert v page la perm paged lt outside used =
    let (w, place, e, found) = get_pte-Found v la paged outside in
    by_place v w page la perm lt outside used place e found
