-- ===== src/PageTables/Rewritten.antt =====
-- Labweek11/lab2/kern/mm/pmm.c: what a write to one entry does to the mapping.
use mathlib.Core.Path.{subst}
use native.Mathlib.Decide.{ℕ_discrete}
use operating_system_homewor.Prelude.{
  ℕ, ◌≡◌, ◌≢◌, ◌⊎◌, inl, inr, refl, sym, ap, ap₂, ◌∙◌, Bool-cases, true, false, if◌then◌else◌, some,
  [], ◌∷◌, ◌++◌, update, update_self, update_ne,
}
use operating_system_homewor.PageAllocator.{Memory}
use operating_system_homewor.PageAllocator.Blocks.{covered}
use operating_system_homewor.PageAllocator.State.{free_blocks, IsWellFormed}
use operating_system_homewor.PageTables.{
  Paged, pde, pdx, ptx, present, entry2page, drop_page, get_page, tlb_invalidate, set_word,
  without_page, page_remove_pte,
}
use operating_system_homewor.PageTables.Lookup.{table_of, get_page-no_table, get_page-same}
use operating_system_homewor.PageTables.State.{vpt_index, IsPaged}

-- Two addresses on different pages
abbrev pub Other : ℕ → ℕ → Type 0
Other la la' = (pdx la' ≢ pdx la) ⊎ (ptx la' ≢ ptx la)

pub tlb_field :
    {A : Type 0} (field : Paged → A) (v : Paged) (la : ℕ)
    → field (record v { flushed = v.flushed ++ la ∷ [] }) ≡ field v
    → field (tlb_invalidate v la) ≡ field v
tlb_field field v la same = elim (Bool-cases v.loaded) [
  | inl on ↦
      ap (λ b. field (if b then record v { flushed = v.flushed ++ la ∷ [] } else v)) on ∙ same
  | inr off ↦ ap (λ b. field (if b then record v { flushed = v.flushed ++ la ∷ [] } else v)) off
]

-- The memory `w` with the word at one place changed, and the directory kept.
abbrev pub Rewritten : Paged → ℕ → ℕ → Paged → Type 0
Rewritten v table index w =
    (w.pgdir ≡ v.pgdir) × ((g j : ℕ) → (g ≢ table) ⊎ (j ≢ index) → w.words g j ≡ v.words g j)

pub word_other :
    (words : ℕ → ℕ → ℕ) (table index entry g j : ℕ)
    → (g ≢ table) ⊎ (j ≢ index)
    → update words table (update (words table) index entry) g j ≡ words g j
word_other words table index entry g j (inl ne) =
    ap (λ f. f j) (update_ne words table g (update (words table) index entry) ne)
word_other words table index entry g j (inr ne) = elim (ℕ_discrete g table) [
  | yes e ↦
      ap (λ x. update words table (update (words table) index entry) x j) e
      ∙ ap (λ f. f j) (update_self words table (update (words table) index entry))
      ∙ update_ne (words table) index j entry ne
      ∙ ap (λ x. words x j) (sym e)
  | no away ↦ ap (λ f. f j) (update_ne words table g (update (words table) index entry) away)
]

pub word_self :
    (words : ℕ → ℕ → ℕ) (table index entry : ℕ)
    → update words table (update (words table) index entry) table index ≡ entry
word_self words table index entry =
    ap (λ f. f index) (update_self words table (update (words table) index entry))
    ∙ update_self (words table) index entry

pub flushed-Rewritten :
    (v : Paged) (la table index entry : ℕ)
    → Rewritten v table index (tlb_invalidate (set_word v table index entry) la)
flushed-Rewritten v la table index entry = (
  tlb_field Paged.pgdir (set_word v table index entry) la refl,
  λ g j away.
      ap (λ f. f g j) (tlb_field Paged.words (set_word v table index entry) la refl)
      ∙ word_other v.words table index entry g j away,
)

-- A write to the table of an address outside the window at VPT leaves the directory as it is.
pub Rewritten-pde :
    (v w : Paged) (la : ℕ)
    → IsPaged v
    → pdx la ≢ vpt_index
    → present (pde v (pdx la)) ≡ true
    → Rewritten v (table_of v la) (ptx la) w
    → (d : ℕ) → pde w d ≡ pde v d
Rewritten-pde v w la paged outside there (dirs, same) d =
    ap (λ g. w.words g d) dirs
    ∙ same v.pgdir d (inl (λ e. paged.proper (pdx la) outside there (sym e)))

-- Where the entry of an address is rewritten, the other addresses outside the window are mapped as
-- before.
pub others_same :
    (v w : Paged) (la : ℕ)
    → IsPaged v
    → pdx la ≢ vpt_index
    → present (pde v (pdx la)) ≡ true
    → Rewritten v (table_of v la) (ptx la) w
    → (la' : ℕ) → pdx la' ≢ vpt_index
    → Other la la'
    → get_page w la' ≡ get_page v la'
others_same v w la paged outside there (dirs, same) la' outside' other =
    let dir = Rewritten-pde v w la paged outside there (dirs, same) (pdx la') in
    elim (Bool-cases (present (pde v (pdx la')))) [
      | inr absent ↦
          get_page-no_table w la' (ap present dir ∙ absent) ∙ sym (get_page-no_table v la' absent)
      | inl there' ↦ get_page-same v w la' dir (
          ap (λ x. w.words (entry2page x) (ptx la')) dir
          ∙ same (table_of v la') (ptx la') (away there' other))
    ]
  where
    away :
        present (pde v (pdx la')) ≡ true
        → Other la la'
        → (table_of v la' ≢ table_of v la) ⊎ (ptx la' ≢ ptx la)
    away there' (inr ne) = inr ne
    away there' (inl ne) =
        inl (λ e. ne (paged.apart (pdx la') (pdx la) outside' outside there' there e))

-- Such a write keeps the tables in form.
pub Rewritten-IsPaged :
    (v w : Paged) (la : ℕ)
    → IsPaged v
    → pdx la ≢ vpt_index
    → present (pde v (pdx la)) ≡ true
    → Rewritten v (table_of v la) (ptx la) w
    → w.memory ≡ v.memory
    → IsPaged w
Rewritten-IsPaged v w la paged outside there rewritten same =
    let dir = Rewritten-pde v w la paged outside there rewritten in
    record {
      well = subst IsWellFormed (sym same) paged.well;
      kept = ap₂ (λ g m. covered g (free_blocks m)) rewritten.0 same ∙ paged.kept;
      owned = λ d out here.
          ap₂ (λ e m. covered (entry2page e) (free_blocks m)) (dir d) same
          ∙ paged.owned d out (ap present (sym (dir d)) ∙ here);
      proper = λ d out here e.
          paged.proper d out (ap present (sym (dir d)) ∙ here)
            (ap entry2page (sym (dir d)) ∙ e ∙ rewritten.0);
      apart = λ d e out_d out_e here_d here_e alike.
          paged.apart d e out_d out_e (ap present (sym (dir d)) ∙ here_d)
            (ap present (sym (dir e)) ∙ here_e)
            (ap entry2page (sym (dir d)) ∙ alike ∙ ap entry2page (dir e));
    }

pub page_remove_pte-absent :
    (v : Paged) (la table index : ℕ)
    → present (v.words table index) ≡ false
    → page_remove_pte v la table index ≡ some v
unfolding page_remove_pte
page_remove_pte-absent v la table index e = rw e refl

pub page_remove_pte-present :
    (v : Paged) (la table index : ℕ) (m : Memory)
    → present (v.words table index) ≡ true
    → drop_page (entry2page (v.words table index)) v.memory ≡ some m
    → page_remove_pte v la table index ≡ some (without_page v la table index m)
unfolding page_remove_pte
page_remove_pte-present v la table index m e d = rw (e, d) refl
