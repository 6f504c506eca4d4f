-- ===== src/PageTables/NewTable.antt =====
-- Labweek11/lab2/kern/mm/pmm.c: a new page table keeps the tables in form and the mapping.
use native.Mathlib.Decide.{ℕ_discrete}
use operating_system_homewor.Prelude.{
  ◌≤◌, ℕ, ◌+◌, ◌*◌, ◌≡◌, ◌≢◌, inl, inr, refl, sym, ap, ◌∙◌, Bool-cases, true, false, some, arith,
  update, update_self, update_ne,
}
use operating_system_homewor.PageAllocator.{Page, Memory}
use operating_system_homewor.PageAllocator.Blocks.{Separate-covered, covered, within}
use operating_system_homewor.PageAllocator.State.{free_blocks, pages_from, Allocated}
use operating_system_homewor.PageTables.{
  Paged, pde, pdx, ptx, present, entry2page, new_table, get_page,
}
use operating_system_homewor.PageTables.Lookup.{
  word_of, get_page-no_table, get_page-no_entry, get_page-same,
}
use operating_system_homewor.PageTables.Rewritten.{word_self, word_other}
use operating_system_homewor.PageTables.State.{
  vpt_index, IsPaged, InUse, changed_blocks, changed_reserved, set_page_ref-IsWellFormed,
}

-- The table for `la` is there, at the place that `get_pte` gives: the one that was there, or an empty
-- one on a page that is referenced once. Every address outside the window at VPT is mapped as before,
-- and what was in use is still.
pub record Ready (v : Paged) (la : ℕ) (w : Paged) (table index : ℕ) : Type 0 where
  pub paged : IsPaged w
  pub there : present (pde w (pdx la)) ≡ true
  pub table_is : entry2page (pde w (pdx la)) ≡ table
  pub index_is : ptx la ≡ index
  pub old : present (pde v (pdx la)) ≡ true → w ≡ v
  pub fresh :
      present (pde v (pdx la)) ≡ false
      → (pde w (pdx la) ≡ table * 4096 + 7)
        × ((j : ℕ) → w.words table j ≡ 0)
        × ((w.memory.pages table).ref ≡ 1)
  pub same_pages : (la' : ℕ) → pdx la' ≢ vpt_index → get_page w la' ≡ get_page v la'
  pub costs : v.memory.free_area.nr_free ≤ w.memory.free_area.nr_free + 1
  pub in_use : (page : ℕ) → InUse v.memory page → InUse w.memory page

table_entry :
    (page : ℕ) → (present (page * 4096 + 7) ≡ true) × (entry2page (page * 4096 + 7) ≡ page)
table_entry page = ground arith

module _ (v : Paged) (la page : ℕ) (m : Memory) (paged : IsPaged v) (outside : pdx la ≢ vpt_index)
    (missing : present (pde v (pdx la)) ≡ false) (done : Allocated 1 v.memory (some page) m) where
  abbrev w : Paged
  w = new_table v la page m

  abbrev cleared : ℕ → ℕ → ℕ
  cleared = update v.words page (λ _. 0)

  alone : within page (pages_from page 1) ≡ 1
  alone = ground arith

  blocks_now : free_blocks w.memory ≡ free_blocks m
  blocks_now = changed_blocks page 1 m

  was_free : covered page (free_blocks v.memory) ≡ 1
  was_free =
      omega (
        arith,
        done.1 page,
        alone,
        Separate-covered page (free_blocks v.memory) paged.well.separate,
      )

  taken : covered page (free_blocks w.memory) ≡ 0
  taken = omega (arith, ap (covered page) blocks_now, done.1 page, alone, was_free)

  still_unfree :
      (k : ℕ) → covered k (free_blocks v.memory) ≡ 0 → covered k (free_blocks w.memory) ≡ 0
  still_unfree k e = omega (arith, ap (covered k) blocks_now, done.1 k, e)

  -- A page that was not free is not the new one.
  unfree-other : (k : ℕ) → covered k (free_blocks v.memory) ≡ 0 → k ≢ page
  unfree-other k e same =
      omega (arith, e, ap (λ x. covered x (free_blocks v.memory)) same, was_free)

  no_dir : v.pgdir ≢ page
  no_dir = unfree-other v.pgdir paged.kept

  here : pde w (pdx la) ≡ page * 4096 + 7
  here = word_self cleared v.pgdir (pdx la) (page * 4096 + 7)

  elsewhere : (d : ℕ) → d ≢ pdx la → pde w d ≡ pde v d
  elsewhere d ne =
      word_other cleared v.pgdir (pdx la) (page * 4096 + 7) v.pgdir d (inr ne)
      ∙ ap (λ f. f d) (update_ne v.words page v.pgdir (λ _. 0) no_dir)

  empty : (j : ℕ) → w.words page j ≡ 0
  empty j =
      word_other cleared v.pgdir (pdx la) (page * 4096 + 7) page j (inl (λ e. no_dir (sym e)))
      ∙ ap (λ f. f j) (update_self v.words page (λ _. 0))

  -- A table that was there is not the new one.
  other_table : (d : ℕ) → d ≢ vpt_index → present (pde v d) ≡ true → entry2page (pde v d) ≢ page
  other_table d out there = unfree-other (entry2page (pde v d)) (paged.owned d out there)

  same_table :
      (d j : ℕ)
      → d ≢ vpt_index
      → present (pde v d) ≡ true
      → w.words (entry2page (pde v d)) j ≡ v.words (entry2page (pde v d)) j
  same_table d j out there =
      word_other cleared v.pgdir (pdx la) (page * 4096 + 7) (entry2page (pde v d)) j
        (inl (paged.proper d out there))
      ∙ ap (λ f. f j)
          (update_ne v.words page (entry2page (pde v d)) (λ _. 0) (other_table d out there))

  at_new : (d : ℕ) → d ≡ pdx la → entry2page (pde w d) ≡ page
  at_new d e = ap (λ x. entry2page (pde w x)) e ∙ ap entry2page here ∙ (table_entry page).1

  owned_now :
      (d : ℕ)
      → d ≢ vpt_index
      → present (pde w d) ≡ true
      → covered (entry2page (pde w d)) (free_blocks w.memory) ≡ 0
  owned_now d out there = elim (ℕ_discrete d (pdx la)) [
    | yes e ↦ ap (λ x. covered x (free_blocks w.memory)) (at_new d e) ∙ taken
    | no ne ↦
        ap (λ x. covered (entry2page x) (free_blocks w.memory)) (elsewhere d ne)
        ∙ still_unfree (entry2page (pde v d))
            (paged.owned d out (ap present (sym (elsewhere d ne)) ∙ there))
  ]

  proper_now : (d : ℕ) → d ≢ vpt_index → present (pde w d) ≡ true → entry2page (pde w d) ≢ v.pgdir
  proper_now d out there e = elim (ℕ_discrete d (pdx la)) [
    | yes same ↦ absurd (no_dir (sym e ∙ at_new d same))
    | no ne ↦ absurd (
        paged.proper d out (ap present (sym (elsewhere d ne)) ∙ there)
          (ap entry2page (sym (elsewhere d ne)) ∙ e))
  ]

  new_only :
      (d : ℕ) → d ≢ vpt_index → present (pde w d) ≡ true → entry2page (pde w d) ≡ page → d ≡ pdx la
  new_only d out there e = elim (ℕ_discrete d (pdx la)) [
    | yes same ↦ same
    | no ne ↦ absurd (
        other_table d out (ap present (sym (elsewhere d ne)) ∙ there)
          (ap entry2page (sym (elsewhere d ne)) ∙ e))
  ]

  apart_now :
      (d e : ℕ)
      → d ≢ vpt_index
      → e ≢ vpt_index
      → present (pde w d) ≡ true
      → present (pde w e) ≡ true
      → entry2page (pde w d) ≡ entry2page (pde w e)
      → d ≡ e
  apart_now d e out_d out_e there_d there_e same = elim (ℕ_discrete d (pdx la)) [
    | yes at_d ↦ at_d ∙ sym (new_only e out_e there_e (sym same ∙ at_new d at_d))
    | no ne ↦ elim (ℕ_discrete e (pdx la)) [
      | yes at_e ↦ absurd (ne (new_only d out_d there_d (same ∙ at_new e at_e)))
      | no ne_e ↦
          paged.apart d e out_d out_e (ap present (sym (elsewhere d ne)) ∙ there_d)
            (ap present (sym (elsewhere e ne_e)) ∙ there_e)
            (ap entry2page (sym (elsewhere d ne)) ∙ same ∙ ap entry2page (elsewhere e ne_e))
    ]
  ]

  -- The new table maps nothing, as before there was none, and the other tables are not touched.
  same_lookup : (la' : ℕ) → pdx la' ≢ vpt_index → get_page w la' ≡ get_page v la'
  same_lookup la' out = elim (ℕ_discrete (pdx la') (pdx la)) [
    | yes e ↦
        let unmapped : word_of w la' ≡ 0 =
          ap (λ x. w.words x (ptx la')) (at_new (pdx la') e) ∙ empty (ptx la') in
        get_page-no_entry w la' (ap present unmapped)
        ∙ sym (get_page-no_table v la' (ap (λ x. present (pde v x)) e ∙ missing))
    | no ne ↦ elim (Bool-cases (present (pde v (pdx la')))) [
      | inr absent ↦
          get_page-no_table w la' (ap present (elsewhere (pdx la') ne) ∙ absent)
          ∙ sym (get_page-no_table v la' absent)
      | inl there ↦ get_page-same v w la' (elsewhere (pdx la') ne) (
          ap (λ x. w.words (entry2page x) (ptx la')) (elsewhere (pdx la') ne)
          ∙ same_table (pdx la') (ptx la') out there)
    ]
  ]

  pub new_table-Ready : Ready v la w page (ptx la)
  new_table-Ready = record {
    paged = record {
      well = set_page_ref-IsWellFormed page 1 m done.0;
      kept = still_unfree v.pgdir paged.kept;
      owned = owned_now;
      proper = proper_now;
      apart = apart_now;
    };
    there = ap present here ∙ (table_entry page).0;
    table_is = at_new (pdx la) refl;
    index_is = refl;
    old = λ there. let clash : false ≡ true = sym missing ∙ there in absurd cc;
    fresh = λ _.
        (here, empty, ap Page.ref (update_self m.pages page (record (m.pages page) { ref = 1 })));
    same_pages = same_lookup;
    costs = omega (arith, done.2);
    in_use = λ k (unfree, opened).
        (still_unfree k unfree, changed_reserved page 1 m k ∙ done.3 k ∙ opened);
  }
