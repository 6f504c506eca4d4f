-- ===== src/PageAllocator/Merging.antt =====
-- Labweek11/lab2/kern/mm/default_pmm.c: the walk of `default_free_pages` merges the blocks that touch.
use mathlib.Core.Path.{subst}
use native.Mathlib.Decide.{ℕ_discrete}
use operating_system_homewor.Prelude.{
  ℕ, ◌+◌, ◌≡◌, ◌≢◌, refl, sym, ap, ap₂, ◌∙◌, List, [], ◌∷◌, All, arith, update_self, update_ne,
}
use operating_system_homewor.PageAllocator.{
  Page, set_property, clear_page_property, absorb_next, absorb_into, merge_loop,
}
use operating_system_homewor.PageAllocator.Blocks.{
  Block, Apart, Separate, Merges, ends, before, after, keeps,
}

abbrev pub block : (ℕ → Page) → ℕ → Block
block pages b = record { start = b; size = (pages b).property }

abbrev pub blocks : (ℕ → Page) → List ℕ → List Block
blocks pages [] = []
blocks pages (p ∷ ps) = block pages p ∷ blocks pages ps

-- Pages whose count is the same make the same blocks.
pub blocks-same :
    (pages pages' : ℕ → Page) (ps : List ℕ)
    → All (λ p. (pages' p).property ≡ (pages p).property) ps
    → blocks pages' ps ≡ blocks pages ps
blocks-same pages pages' [] same = refl
blocks-same pages pages' (p ∷ ps) (e, same) =
    ap₂ (λ n bs. record { start = p; size = n } ∷ bs) e (blocks-same pages pages' ps same)

-- A page that starts no block of the list.
abbrev pub Absent : ℕ → List ℕ → Type 0
Absent b ps = All (λ p. p ≢ b) ps

pub Apart-Absent :
    (pages : ℕ → Page) (b : Block) (ps : List ℕ)
    → All (Apart b) (blocks pages ps)
    → Absent b.start ps
Apart-Absent pages b [] h = tt
Apart-Absent pages b (p ∷ ps) (a, h) = (ground (arith, a), Apart-Absent pages b ps h)

pub merge_loop-nil : (pages : ℕ → Page) (base : ℕ) → merge_loop [] pages base ≡ (pages, base, [])
unfolding merge_loop
merge_loop-nil pages base = refl

pub merge_loop-before :
    (p : ℕ) (ps : List ℕ) (pages : ℕ → Page) (base : ℕ)
    → base + (pages base).property ≡ p
    → merge_loop (p ∷ ps) pages base ≡ merge_loop ps (absorb_next pages base p) base
unfolding merge_loop
merge_loop-before p ps pages base e = ground (arith, e)

pub merge_loop-after :
    (p : ℕ) (ps : List ℕ) (pages : ℕ → Page) (base : ℕ)
    → base + (pages base).property ≢ p
    → p + (pages p).property ≡ base
    → merge_loop (p ∷ ps) pages base ≡ merge_loop ps (absorb_into pages base p) p
unfolding merge_loop
merge_loop-after p ps pages base n e = ground (arith, n, e)

pub merge_loop-keeps :
    (p : ℕ) (ps : List ℕ) (pages : ℕ → Page) (base : ℕ)
    → base + (pages base).property ≢ p
    → p + (pages p).property ≢ base
    → merge_loop (p ∷ ps) pages base ≡ (
      (merge_loop ps pages base).0,
      (merge_loop ps pages base).1,
      p ∷ (merge_loop ps pages base).2,
    )
unfolding merge_loop
merge_loop-keeps p ps pages base n m = ground (arith, n, m)

absorbed_other :
    (pages : ℕ → Page) (b p k n : ℕ)
    → k ≢ b
    → k ≢ p
    → clear_page_property (set_property pages b n) p k ≡ pages k
absorbed_other pages b p k n not_b not_p =
    update_ne (set_property pages b n) p k _ not_p ∙ update_ne pages b k _ not_b

absorbed_count :
    (pages : ℕ → Page) (b p n : ℕ)
    → b ≢ p
    → (clear_page_property (set_property pages b n) p b).property ≡ n
absorbed_count pages b p n ne =
    ap Page.property (update_ne (set_property pages b n) p b _ ne)
    ∙ ap Page.property (update_self pages b (record (pages b) { property = n }))

-- A page that is neither the freed block nor in the list is not touched.
merge_loop-other :
    (ps : List ℕ) (pages : ℕ → Page) (base k : ℕ)
    → k ≢ base
    → Absent k ps
    → (merge_loop ps pages base).0 k ≡ pages k
merge_loop-other [] pages base k ne none_in = ap (λ r. r.0 k) (merge_loop-nil pages base)
merge_loop-other (p ∷ ps) pages base k ne (not_p, none_in) =
    elim (ℕ_discrete (base + (pages base).property) p) [
      | yes e ↦
          ap (λ r. r.0 k) (merge_loop-before p ps pages base e)
          ∙ merge_loop-other ps (absorb_next pages base p) base k ne none_in
          ∙ absorbed_other pages base p k _ ne (λ e2. not_p (sym e2))
      | no n ↦ elim (ℕ_discrete (p + (pages p).property) base) [
        | yes e ↦
            ap (λ r. r.0 k) (merge_loop-after p ps pages base n e)
            ∙ merge_loop-other ps (absorb_into pages base p) p k (λ e2. not_p (sym e2)) none_in
            ∙ absorbed_other pages p base k _ (λ e2. not_p (sym e2)) ne
        | no m ↦
            ap (λ r. r.0 k) (merge_loop-keeps p ps pages base n m)
            ∙ merge_loop-other ps pages base k ne none_in
      ]
    ]

-- The blocks after the walk, from its result.
abbrev Merged : List ℕ → (ℕ → Page) → ℕ → (ℕ → Page) × ℕ × List ℕ → Type 0
Merged ps pages base r =
    Merges (blocks pages ps) (block pages base) (block r.0 r.1) (blocks r.0 r.2)

absorbed_blocks :
    (pages : ℕ → Page) (b p n : ℕ) (ps : List ℕ)
    → Absent b ps
    → Absent p ps
    → blocks (clear_page_property (set_property pages b n) p) ps ≡ blocks pages ps
absorbed_blocks pages b p n ps not_b not_p =
    blocks-same pages (clear_page_property (set_property pages b n) p) ps (each ps not_b not_p)
  where
    each :
        (qs : List ℕ)
        → Absent b qs
        → Absent p qs
        → All
            (λ q. (clear_page_property (set_property pages b n) p q).property ≡ (pages q).property)
            qs
    each [] h k = tt
    each (q ∷ qs) (h, hs) (k, ks) =
        (ap Page.property (absorbed_other pages b p q n h k), each qs hs ks)

-- A walk from pages in which the two blocks are one continues the merging.
continues :
    (ps : List ℕ) (pages pages' : ℕ → Page) (b : Block) (base : ℕ)
    → blocks pages' ps ≡ blocks pages ps
    → block pages' base ≡ b
    → Merged ps pages' base (merge_loop ps pages' base)
    → Merges
        (blocks pages ps)
        b
        (block (merge_loop ps pages' base).0 (merge_loop ps pages' base).1)
        (blocks (merge_loop ps pages' base).0 (merge_loop ps pages' base).2)
continues ps pages pages' b base same_list same_base more =
    subst
      (λ c.
        Merges (blocks pages ps) c
          (block (merge_loop ps pages' base).0 (merge_loop ps pages' base).1)
          (blocks (merge_loop ps pages' base).0 (merge_loop ps pages' base).2))
      same_base
      (subst
        (λ cs.
          Merges cs (block pages' base)
            (block (merge_loop ps pages' base).0 (merge_loop ps pages' base).1)
            (blocks (merge_loop ps pages' base).0 (merge_loop ps pages' base).2))
        same_list more)

pub merge_loop-Merges :
    (ps : List ℕ) (pages : ℕ → Page) (base : ℕ)
    → Separate (blocks pages ps)
    → Absent base ps
    → Merged ps pages base (merge_loop ps pages base)
merge_loop-Merges [] pages base s absent =
    subst (Merged [] pages base) (sym (merge_loop-nil pages base)) ends
merge_loop-Merges (p ∷ ps) pages base (some, apart, s) (ne, absent) =
    let absent_p = Apart-Absent pages (block pages p) ps apart in
    elim (ℕ_discrete (base + (pages base).property) p) [
      | yes e ↦
          let same = absorbed_blocks pages base p _ ps absent absent_p in
          subst (Merged (p ∷ ps) pages base) (sym (merge_loop-before p ps pages base e)) (
            before e (
              continues ps pages (absorb_next pages base p) _ base same
                (ap (λ n. record { start = base; size = n })
                  (absorbed_count pages base p _ (λ e2. ne (sym e2))))
                (merge_loop-Merges ps (absorb_next pages base p) base (subst Separate (sym same) s)
                  absent)))
      | no n ↦ elim (ℕ_discrete (p + (pages p).property) base) [
        | yes e ↦
            let same = absorbed_blocks pages p base _ ps absent_p absent in
            subst (Merged (p ∷ ps) pages base) (sym (merge_loop-after p ps pages base n e)) (
              after e (
                continues ps pages (absorb_into pages base p) _ p same
                  (ap (λ n. record { start = p; size = n }) (absorbed_count pages p base _ ne))
                  (merge_loop-Merges ps (absorb_into pages base p) p (subst Separate (sym same) s)
                    absent_p)))
        | no m ↦ subst (Merged (p ∷ ps) pages base) (sym (merge_loop-keeps p ps pages base n m)) (
            subst
              (λ c.
                Merges (blocks pages (p ∷ ps)) (block pages base)
                  (block (merge_loop ps pages base).0 (merge_loop ps pages base).1)
                  (c ∷ blocks (merge_loop ps pages base).0 (merge_loop ps pages base).2))
              (ap (λ x. record { start = p; size = x.property })
                (sym (merge_loop-other ps pages base p ne absent_p)))
              (keeps n m (merge_loop-Merges ps pages base s absent)))
      ]
    ]
