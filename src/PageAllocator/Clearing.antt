-- ===== src/PageAllocator/Clearing.antt =====
-- Labweek11/lab2/kern/mm/default_pmm.c: the loop of `default_free_pages` over the freed pages.
use mathlib.Core.Path.{subst}
use native.Mathlib.Decide.{ℕ_discrete}
use operating_system_homewor.Prelude.{
  ℕ, zero, suc, ◌+◌, ◌≤◌, ◌<◌, ◌≡◌, refl, sym, ap, ◌∙◌, true, false, some, arith, update,
  update_self, update_ne,
}
use operating_system_homewor.PageAllocator.{Page, free_loop}
use operating_system_homewor.PageAllocator.Blocks.{}
use operating_system_homewor.PageAllocator.Fields.{}
use operating_system_homewor.PageAllocator.Merging.{}
use operating_system_homewor.PageAllocator.Inserted.{}

-- What the loop over the freed pages leaves of the page descriptors.
pub record Cleared (pages pages' : ℕ → Page) : Type 0 where
  pub property : (k : ℕ) → (pages' k).property ≡ (pages k).property
  pub bit : (k : ℕ) → (pages' k).property_bit ≡ true → (pages k).property_bit ≡ true
  pub reserved : (k : ℕ) → (pages k).reserved ≡ false → (pages' k).reserved ≡ false

-- A page that `default_free_pages` takes
abbrev pub IsTaken : Page → Type 0
IsTaken page = (page.reserved ≡ false) × (page.property_bit ≡ false)

abbrev freed_page : Page → Page
freed_page page = record page { ref = 0; reserved = false; property_bit = false }

freed-Cleared : (pages : ℕ → Page) (p : ℕ) → Cleared pages (update pages p (freed_page (pages p)))
freed-Cleared pages p = record {
  property = λ k. elim (ℕ_discrete k p) [
    | yes e ↦
        ap (λ x. (update pages p (freed_page (pages p)) x).property) e
        ∙ ap Page.property self
        ∙ ap (λ x. (pages x).property) (sym e)
    | no ne ↦ ap Page.property (update_ne pages p k _ ne)
  ];
  bit = λ k h. elim (ℕ_discrete k p) [
    | yes e ↦
        let no_bit : false ≡ true =
          sym (ap Page.property_bit self)
          ∙ ap (λ x. (update pages p (freed_page (pages p)) x).property_bit) (sym e)
          ∙ h in
        absurd cc
    | no ne ↦ sym (ap Page.property_bit (update_ne pages p k _ ne)) ∙ h
  ];
  reserved = λ k h. elim (ℕ_discrete k p) [
    | yes e ↦ ap (λ x. (update pages p (freed_page (pages p)) x).reserved) e ∙ ap Page.reserved self
    | no ne ↦ ap Page.reserved (update_ne pages p k _ ne) ∙ h
  ];
}
  where
    self : update pages p (freed_page (pages p)) p ≡ freed_page (pages p)
    self = update_self pages p (freed_page (pages p))

free_loop-next :
    (n p : ℕ) (pages : ℕ → Page)
    → IsTaken (pages p)
    → free_loop (suc n) p pages ≡ free_loop n (p + 1) (update pages p (freed_page (pages p)))
unfolding free_loop
free_loop-next n p pages (r, b) = ground (arith, r, b)

free_loop-nil : (p : ℕ) (pages : ℕ → Page) → free_loop 0 p pages ≡ some pages
unfolding free_loop
free_loop-nil p pages = refl

pub free_loop-Cleared :
    (n p : ℕ) (pages : ℕ → Page)
    → ((k : ℕ) → p ≤ k → k < p + n → IsTaken (pages k))
    → (pages' : ℕ → Page) × (free_loop n p pages ≡ some pages') × Cleared pages pages'
free_loop-Cleared zero p pages taken = (
  pages,
  free_loop-nil p pages,
  record { property = λ k. refl; bit = λ k h. h; reserved = λ k h. h },
)
free_loop-Cleared (suc n) p pages taken =
    let next = update pages p (freed_page (pages p)) in
    let here = freed-Cleared pages p in
    let (pages', e, there) = free_loop-Cleared n (p + 1) next (λ k le lt.
      subst IsTaken (sym (update_ne pages p k _ (λ same. omega (arith, same, le))))
        (taken k (omega (arith, le)) (omega (arith, lt)))) in
    (
      pages',
      free_loop-next n p pages (taken p (omega arith) (omega arith)) ∙ e,
      record {
        property = λ k. there.property k ∙ here.property k;
        bit = λ k h. here.bit k (there.bit k h);
        reserved = λ k h. there.reserved k (here.reserved k h);
      },
    )
