-- ===== src/PageAllocator/Walk.antt =====
-- Labweek11/lab2/kern/mm/default_pmm.c: what the walk of `default_free_pages` does to the flags.
use mathlib.Core.Path.{subst}
use native.Mathlib.Decide.{ℕ_discrete}
use operating_system_homewor.Prelude.{
  ℕ, ◌+◌, ◌<◌, ◌≡◌, ◌≢◌, refl, sym, ◌∙◌, true, false, List, [], ◌∷◌, arith, count,
}
use operating_system_homewor.PageAllocator.{
  Page, set_property, clear_page_property, absorb_next, absorb_into, merge_loop, place_block,
}
use operating_system_homewor.PageAllocator.Blocks.{Separate, covered}
use operating_system_homewor.PageAllocator.Fields.{
  cleared, set_property_reserved, set_property_bit, marked_reserved, marked_bit,
}
use operating_system_homewor.PageAllocator.Merging.{
  blocks, merge_loop-nil, merge_loop-before, merge_loop-after, merge_loop-keeps,
}
use operating_system_homewor.PageAllocator.Inserted.{}

-- The walk over the list leaves `reserved` as it is.
absorbed_reserved :
    (pages : ℕ → Page) (b p n k : ℕ)
    → (clear_page_property (set_property pages b n) p k).reserved ≡ (pages k).reserved
absorbed_reserved pages b p n k =
    marked_reserved (set_property pages b n) p false k ∙ set_property_reserved pages b n k

absorbed_bit :
    (pages : ℕ → Page) (b p n k : ℕ)
    → (clear_page_property (set_property pages b n) p k).property_bit ≡ true
    → (k ≢ p) × ((pages k).property_bit ≡ true)
absorbed_bit pages b p n k bit = elim (ℕ_discrete k p) [
  | yes e ↦ cleared (set_property pages b n) p k e bit
  | no ne ↦ (
    ne,
    sym (marked_bit (set_property pages b n) p false k ne ∙ set_property_bit pages b n k) ∙ bit,
  )
]

-- After the walk only heads of free blocks are marked as such.
abbrev pub Kept : ℕ → (ℕ → Page) → List ℕ → (ℕ → Page) × ℕ × List ℕ → Type 0
Kept k pages heads r =
    ((r.0 k).reserved ≡ (pages k).reserved)
    × (((pages k).property_bit ≡ true → 0 < count k heads)
        → (r.0 k).property_bit ≡ true
        → 0 < count k (r.1 ∷ r.2))

pub merge_loop-Kept :
    (k : ℕ) (ps : List ℕ) (pages : ℕ → Page) (base : ℕ)
    → Kept k pages (base ∷ ps) (merge_loop ps pages base)
merge_loop-Kept k [] pages base =
    subst (Kept k pages (base ∷ [])) (sym (merge_loop-nil pages base)) (refl, λ h. h)
merge_loop-Kept k (p ∷ ps) pages base = elim (ℕ_discrete (base + (pages base).property) p) [
  | yes e ↦
      let later = merge_loop-Kept k ps (absorb_next pages base p) base in
      subst (Kept k pages (base ∷ p ∷ ps)) (sym (merge_loop-before p ps pages base e)) (
        later.0 ∙ absorbed_reserved pages base p _ k,
        λ head. later.1 (λ bit.
            let (ne, old) = absorbed_bit pages base p _ k bit in ground (arith, ne, head old)),
      )
  | no n ↦ elim (ℕ_discrete (p + (pages p).property) base) [
    | yes e ↦
        let later = merge_loop-Kept k ps (absorb_into pages base p) p in
        subst (Kept k pages (base ∷ p ∷ ps)) (sym (merge_loop-after p ps pages base n e)) (
          later.0 ∙ absorbed_reserved pages p base _ k,
          λ head. later.1 (λ bit.
              let (ne, old) = absorbed_bit pages p base _ k bit in ground (arith, ne, head old)),
        )
    | no m ↦
        let later = merge_loop-Kept k ps pages base in
        subst (Kept k pages (base ∷ p ∷ ps)) (sym (merge_loop-keeps p ps pages base n m)) (
          later.0,
          λ head bit. elim (ℕ_discrete k p) [
            | yes same ↦ ground (arith, same)
            | no ne ↦ ground (arith, ne, later.1 (λ old. ground (arith, ne, head old)) bit)
          ],
        )
  ]
]

pub count-place_block :
    (k : ℕ) (pages : ℕ → Page) (base : ℕ) (ps : List ℕ)
    → count k (place_block pages base ps) ≡ count k (base ∷ ps)
unfolding place_block
count-place_block k pages base [] = refl
count-place_block k pages base (p ∷ ps) = ground (arith, count-place_block k pages base ps)

-- The head of a block lies in it.
pub count-covered :
    (k : ℕ) (pages : ℕ → Page) (ps : List ℕ)
    → Separate (blocks pages ps)
    → 0 < count k ps
    → 0 < covered k (blocks pages ps)
count-covered k pages [] s h = h
count-covered k pages (p ∷ ps) (some_p, apart, s) h = elim (ℕ_discrete k p) [
  | yes e ↦ ground (arith, e, some_p)
  | no ne ↦ ground (arith, ne, h, count-covered k pages ps s)
]
