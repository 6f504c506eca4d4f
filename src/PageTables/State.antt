-- ===== src/PageTables/State.antt =====
-- Labweek11/lab2/kern/mm/pmm.c: memory in which the page tables are pages of their own.
use mathlib.Core.Path.{subst}
use native.Mathlib.Decide.{ℕ_discrete}
use operating_system_homewor.Prelude.{
  ℕ, ◌+◌, ◌%◌, ◌<◌, ◌≡◌, ◌≢◌, refl, sym, ap, ap₂, ◌∙◌, true, false, ◌==◌, if◌then◌else◌, some, List,
  [], ◌∷◌, arith, update_self, update_ne,
}
use operating_system_homewor.PageAllocator.{Page, Memory, default_free_pages}
use operating_system_homewor.PageAllocator.Blocks.{Separate, total_size, covered, within}
use operating_system_homewor.PageAllocator.Merging.{blocks}
use operating_system_homewor.PageAllocator.State.{free_blocks, IsWellFormed, pages_from}
use operating_system_homewor.PageAllocator.Release.{Released, default_free_pages-Released}
use operating_system_homewor.PageTables.{
  Paged, pde, present, entry2page, set_page_ref, page_ref_dec, drop_page,
}

-- The entry of the directory for the addresses from VPT on
abbrev pub vpt_index : ℕ
vpt_index = 1003

-- Neither the directory nor the tables that it points to are free, and no two entries share a table or
-- have the directory as theirs. The entry for VPT may hold anything, so also the directory itself.
pub record IsPaged (v : Paged) : Type 0 where
  pub well : IsWellFormed v.memory
  pub kept : covered v.pgdir (free_blocks v.memory) ≡ 0
  pub owned :
      (d : ℕ)
      → d ≢ vpt_index
      → present (pde v d) ≡ true
      → covered (entry2page (pde v d)) (free_blocks v.memory) ≡ 0
  pub proper : (d : ℕ) → d ≢ vpt_index → present (pde v d) ≡ true → entry2page (pde v d) ≢ v.pgdir
  pub apart :
      (d e : ℕ)
      → d ≢ vpt_index
      → e ≢ vpt_index
      → present (pde v d) ≡ true
      → present (pde v e) ≡ true
      → entry2page (pde v d) ≡ entry2page (pde v e)
      → d ≡ e

-- A page that is in use, and may be given back.
abbrev pub InUse : Memory → ℕ → Type 0
InUse m page = (covered page (free_blocks m) ≡ 0) × ((m.pages page).reserved ≡ false)

module _ (page val : ℕ) (m : Memory) where
  abbrev changed : Memory
  changed = set_page_ref page val m

  changed_page :
      {A : Type 0} (field : Page → A)
      → field (record (m.pages page) { ref = val }) ≡ field (m.pages page)
      → (k : ℕ) → field (changed.pages k) ≡ field (m.pages k)
  changed_page field same k = elim (ℕ_discrete k page) [
    | yes e ↦
        ap (λ x. field (changed.pages x)) e
        ∙ ap field (update_self m.pages page (record (m.pages page) { ref = val }))
        ∙ same
        ∙ ap (λ x. field (m.pages x)) (sym e)
    | no ne ↦ ap field (update_ne m.pages page k (record (m.pages page) { ref = val }) ne)
  ]

  pub changed_blocks : free_blocks changed ≡ free_blocks m
  changed_blocks = each m.free_area.free_list
    where
      each : (ps : List ℕ) → blocks changed.pages ps ≡ blocks m.pages ps
      each [] = refl
      each (p ∷ ps) =
          ap₂ (λ n bs. record { start = p; size = n } ∷ bs) (changed_page Page.property refl p)
            (each ps)

  pub changed_reserved : (k : ℕ) → (changed.pages k).reserved ≡ (m.pages k).reserved
  changed_reserved = changed_page Page.reserved refl

  -- A count of references does not matter to the allocator.
  pub set_page_ref-IsWellFormed : IsWellFormed m → IsWellFormed changed
  set_page_ref-IsWellFormed wf = record {
    separate = subst Separate (sym changed_blocks) wf.separate;
    counted = wf.counted ∙ ap total_size (sym changed_blocks);
    marked = λ k bit. wf.marked k (sym (changed_page Page.property_bit refl k) ∙ bit);
    usable = λ k some_k.
        changed_reserved k ∙ wf.usable k (subst (λ bs. 0 < covered k bs) changed_blocks some_k);
  }

  pub set_page_ref-InUse : (k : ℕ) → InUse m k → InUse changed k
  set_page_ref-InUse k (unfree, opened) =
      (ap (covered k) changed_blocks ∙ unfree, changed_reserved k ∙ opened)

-- What the loss of one reference does to the memory: the page is freed if it was the last, and
-- otherwise has one less, in 32 bits.
abbrev pub Dropped : ℕ → Memory → Memory → Type 0
Dropped page m m' =
    IsWellFormed m'
    × ((k : ℕ) → k ≢ page → covered k (free_blocks m') ≡ covered k (free_blocks m))
    × ((m.pages page).ref % 4294967296 ≡ 1 → covered page (free_blocks m') ≡ 1)
    × ((m.pages page).ref % 4294967296 ≢ 1
        → (covered page (free_blocks m') ≡ 0)
          × (((m'.pages page).ref + 1) % 4294967296 ≡ (m.pages page).ref % 4294967296))

lone : (k page : ℕ) → k ≢ page → within k (pages_from page 1) ≡ 0
lone k page ne = ground (arith, ne)

self : (page : ℕ) → within page (pages_from page 1) ≡ 1
self page = ground arith

module _ (page : ℕ) (m : Memory) where
  abbrev less : Memory
  less = page_ref_dec page m

  abbrev left : ℕ
  left = ((m.pages page).ref + 4294967295) % 4294967296

  blocks_after : free_blocks less ≡ free_blocks m
  blocks_after = changed_blocks page left m

  ref_after : (less.pages page).ref ≡ left
  ref_after = ap Page.ref (update_self m.pages page (record (m.pages page) { ref = left }))

  drop_page-last : left ≡ 0 → drop_page page m ≡ default_free_pages page 1 less
  drop_page-last e =
      ap (λ x. if x == 0 then default_free_pages page 1 less else some less) (ref_after ∙ e)

  drop_page-kept : (left == 0) ≡ false → drop_page page m ≡ some less
  drop_page-kept ne =
      ap (λ x. if x == 0 then default_free_pages page 1 less else some less) ref_after
      ∙ ap (λ b. if b then default_free_pages page 1 less else some less) ne

  free_last :
      IsWellFormed m
      → InUse m page
      → (m' : Memory) × (default_free_pages page 1 less ≡ some m') × Released page 1 less m'
  free_last wf used =
      let (unfree, opened) = set_page_ref-InUse page left m page used in
      default_free_pages-Released page 1 less (omega arith)
        (set_page_ref-IsWellFormed page left m wf)
        (λ k le lt. subst (λ x. (less.pages x).reserved ≡ false) (omega (arith, le, lt)) opened)
        (λ k le lt. subst (λ x. covered x (free_blocks less) ≡ 0) (omega (arith, le, lt)) unfree)

  -- A page in use loses a reference, and is freed exactly if that was its last.
  pub drop_page-Dropped :
      IsWellFormed m
      → InUse m page
      → (m' : Memory) × (drop_page page m ≡ some m') × Dropped page m m'
  drop_page-Dropped wf used = elim (ℕ_discrete left 0) [
    | yes last ↦
        let (m', e, done) = free_last wf used in
        (
          m',
          drop_page-last last ∙ e,
          (
            done.0,
            λ k ne. omega (arith, done.1 k, lone k page ne, ap (covered k) blocks_after),
            λ _. omega (arith, done.1 page, self page, ap (covered page) blocks_after, used.0),
            λ shared. absurd (shared (omega (arith, last))),
          ),
        )
    | no shared ↦ (
      less,
      drop_page-kept (ground (arith, shared)),
      (
        set_page_ref-IsWellFormed page left m wf,
        λ k _. ap (covered k) blocks_after,
        λ last. absurd (shared (omega (arith, last))),
        λ _. (ap (covered page) blocks_after ∙ used.0, omega (arith, ref_after)),
      ),
    )
  ]
