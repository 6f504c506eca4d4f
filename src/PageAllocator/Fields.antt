-- ===== src/PageAllocator/Fields.antt =====
-- Labweek11/lab2/kern/mm/memlayout.h: what a change of one field of one page leaves alone.
use native.Mathlib.Decide.{ℕ_discrete}
use operating_system_homewor.Prelude.{
  ℕ, ◌≡◌, ◌≢◌, sym, ap, ◌∙◌, Bool, true, false, update, update_self, update_ne,
}
use operating_system_homewor.PageAllocator.{Page, set_property, clear_page_property}

module _ (pages : ℕ → Page) (b : ℕ) where
  pub set_property_reserved : (n k : ℕ) → (set_property pages b n k).reserved ≡ (pages k).reserved
  set_property_reserved n k = elim (ℕ_discrete k b) [
    | yes e ↦
        ap (λ x. (set_property pages b n x).reserved) e
        ∙ ap Page.reserved (update_self pages b (record (pages b) { property = n }))
        ∙ ap (λ x. (pages x).reserved) (sym e)
    | no ne ↦ ap Page.reserved (update_ne pages b k _ ne)
  ]

  pub set_property_bit :
      (n k : ℕ) → (set_property pages b n k).property_bit ≡ (pages k).property_bit
  set_property_bit n k = elim (ℕ_discrete k b) [
    | yes e ↦
        ap (λ x. (set_property pages b n x).property_bit) e
        ∙ ap Page.property_bit (update_self pages b (record (pages b) { property = n }))
        ∙ ap (λ x. (pages x).property_bit) (sym e)
    | no ne ↦ ap Page.property_bit (update_ne pages b k _ ne)
  ]

  -- Setting or clearing the bit of one page
  module _ (v : Bool) where
    abbrev marked_pages : ℕ → Page
    marked_pages = update pages b (record (pages b) { property_bit = v })

    marked_self : marked_pages b ≡ record (pages b) { property_bit = v }
    marked_self = update_self pages b (record (pages b) { property_bit = v })

    pub marked_reserved : (k : ℕ) → (marked_pages k).reserved ≡ (pages k).reserved
    marked_reserved k = elim (ℕ_discrete k b) [
      | yes e ↦
          ap (λ x. (marked_pages x).reserved) e
          ∙ ap Page.reserved marked_self
          ∙ ap (λ x. (pages x).reserved) (sym e)
      | no ne ↦ ap Page.reserved (update_ne pages b k _ ne)
    ]

    pub marked_property : (k : ℕ) → (marked_pages k).property ≡ (pages k).property
    marked_property k = elim (ℕ_discrete k b) [
      | yes e ↦
          ap (λ x. (marked_pages x).property) e
          ∙ ap Page.property marked_self
          ∙ ap (λ x. (pages x).property) (sym e)
      | no ne ↦ ap Page.property (update_ne pages b k _ ne)
    ]

    pub marked_bit : (k : ℕ) → k ≢ b → (marked_pages k).property_bit ≡ (pages k).property_bit
    marked_bit k ne = ap Page.property_bit (update_ne pages b k _ ne)

    pub marked_bit_self : (marked_pages b).property_bit ≡ v
    marked_bit_self = ap Page.property_bit marked_self

  pub set_property_self : (n : ℕ) → (set_property pages b n b).property ≡ n
  set_property_self n = ap Page.property (update_self pages b (record (pages b) { property = n }))

  pub set_property_other :
      (n k : ℕ) → k ≢ b → (set_property pages b n k).property ≡ (pages k).property
  set_property_other n k ne = ap Page.property (update_ne pages b k _ ne)

-- The bit of a page is not set after it is cleared.
pub cleared :
    {A : Type 0} (pages : ℕ → Page) (b k : ℕ)
    → k ≡ b
    → (clear_page_property pages b k).property_bit ≡ true
    → A
cleared pages b k e bit =
    let no_bit : false ≡ true =
      sym (marked_bit_self pages b false)
      ∙ ap (λ x. (clear_page_property pages b x).property_bit) (sym e)
      ∙ bit in
    absurd cc
