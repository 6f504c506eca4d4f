-- ===== src/PageAllocator/Inserted.antt =====
-- Labweek11/lab2/kern/mm/default_pmm.c: a block put into the free list, or taken out of it.
use mathlib.Core.Path.{subst}
use native.Mathlib.Decide.{dec_lt}
use operating_system_homewor.Prelude.{
  ℕ, ◌+◌, ◌≤◌, ◌<◌, ◌≡◌, refl, sym, Option, none, some, List, [], ◌∷◌, All, arith, remove_first,
  remove_first-head, remove_first-later,
}
use operating_system_homewor.PageAllocator.{Page, place_block, find_block}
use operating_system_homewor.PageAllocator.Blocks.{
  Block, Apart, Apart-sym, Separate, total_size, within, covered,
}
use operating_system_homewor.PageAllocator.Merging.{block, blocks}

-- `ds` is `cs` with `b` somewhere.
pub data Inserted (b : Block) : List Block → List Block → Type 0 where
  first : {cs : List Block} → Inserted b cs (b ∷ cs)
  later : {c : Block} {cs ds : List Block} → Inserted b cs ds → Inserted b (c ∷ cs) (c ∷ ds)

pub Inserted-covered :
    (k : ℕ) {b : Block} {cs ds : List Block}
    → Inserted b cs ds
    → covered k ds ≡ within k b + covered k cs
Inserted-covered k first = refl
Inserted-covered k (later i) = omega (arith, Inserted-covered k i)

pub Inserted-total_size :
    {b : Block} {cs ds : List Block} → Inserted b cs ds → total_size ds ≡ b.size + total_size cs
Inserted-total_size first = refl
Inserted-total_size (later i) = omega (arith, Inserted-total_size i)

Inserted-All :
    (P : Block → Type 0) {b : Block} {cs ds : List Block}
    → Inserted b cs ds
    → (P b → All P cs → All P ds) × (All P ds → P b × All P cs)
Inserted-All P first = (λ p ps. (p, ps), λ ps. ps)
Inserted-All P (later i) = (
  λ p ps. (ps.0, (Inserted-All P i).0 p ps.1),
  λ ps. let all = (Inserted-All P i).1 ps.1 in (all.0, (ps.0, all.1)),
)

-- It makes no difference to a separate list where a block stands.
pub Inserted-Separate :
    {b : Block} {cs ds : List Block}
    → Inserted b cs ds
    → (Separate (b ∷ cs) → Separate ds) × (Separate ds → Separate (b ∷ cs))
Inserted-Separate first = (λ s. s, λ s. s)
Inserted-Separate {b} (later {c = c} i) = (
  λ (some_b, (bc, apart), (some_c, apart_c, s)). (
    some_c,
    (Inserted-All (Apart c) i).0 (Apart-sym b c bc) apart_c,
    (Inserted-Separate i).0 (some_b, apart, s),
  ),
  λ (some_c, apart_c, s).
      let (some_b, apart, s') = (Inserted-Separate i).1 s in
      let (cb, apart_c') = (Inserted-All (Apart c) i).1 apart_c in
      (some_b, (Apart-sym c b cb, apart), (some_c, apart_c', s')),
)

place_block-here :
    (pages : ℕ → Page) (base p : ℕ) (ps : List ℕ)
    → base + (pages base).property ≤ p
    → place_block pages base (p ∷ ps) ≡ base ∷ p ∷ ps
unfolding place_block
place_block-here pages base p ps le = ground (arith, le)

place_block-later :
    (pages : ℕ → Page) (base p : ℕ) (ps : List ℕ)
    → p < base + (pages base).property
    → place_block pages base (p ∷ ps) ≡ p ∷ place_block pages base ps
unfolding place_block
place_block-later pages base p ps lt = ground (arith, lt)

place_block-nil : (pages : ℕ → Page) (base : ℕ) → place_block pages base [] ≡ base ∷ []
unfolding place_block
place_block-nil pages base = refl

pub place_block-Inserted :
    (pages : ℕ → Page) (base : ℕ) (ps : List ℕ)
    → Inserted (block pages base) (blocks pages ps) (blocks pages (place_block pages base ps))
place_block-Inserted pages base [] =
    subst (λ l. Inserted (block pages base) [] (blocks pages l)) (sym (place_block-nil pages base))
      first
place_block-Inserted pages base (p ∷ ps) = elim (dec_lt p (base + (pages base).property)) [
  | yes lt ↦
      subst (λ l. Inserted (block pages base) (blocks pages (p ∷ ps)) (blocks pages l))
        (sym (place_block-later pages base p ps lt)) (later (place_block-Inserted pages base ps))
  | no ge ↦
      subst (λ l. Inserted (block pages base) (blocks pages (p ∷ ps)) (blocks pages l))
        (sym (place_block-here pages base p ps (omega (arith, ge)))) first
]

-- The block that is found is large enough, and the list is what is left of it with that block.
abbrev pub Found : (ℕ → Page) → ℕ → List ℕ → Option ℕ → Type 0
Found pages n ps none = All (λ b. b.size < n) (blocks pages ps)
Found pages n ps (some p) =
    (n ≤ (pages p).property)
    × Inserted (block pages p) (blocks pages (remove_first p ps)) (blocks pages ps)

find_block-here :
    (pages : ℕ → Page) (n p : ℕ) (ps : List ℕ)
    → n ≤ (pages p).property
    → find_block pages n (p ∷ ps) ≡ some p
unfolding find_block
find_block-here pages n p ps le = ground (arith, le)

find_block-later :
    (pages : ℕ → Page) (n p : ℕ) (ps : List ℕ)
    → (pages p).property < n
    → find_block pages n (p ∷ ps) ≡ find_block pages n ps
unfolding find_block
find_block-later pages n p ps lt = ground (arith, lt)

find_block-nil : (pages : ℕ → Page) (n : ℕ) → find_block pages n [] ≡ none
unfolding find_block
find_block-nil pages n = refl

Found-later :
    (pages : ℕ → Page) (n p : ℕ) (ps : List ℕ)
    → (pages p).property < n
    → All (Apart (block pages p)) (blocks pages ps)
    → (o : Option ℕ) → Found pages n ps o
    → Found pages n (p ∷ ps) o
Found-later pages n p ps lt apart none small = (lt, small)
Found-later pages n p ps lt apart (some q) (enough, i) =
    let away : Apart (block pages p) (block pages q) =
      ((Inserted-All (Apart (block pages p)) i).1 apart).0 in
    (
      enough,
      subst (λ l. Inserted (block pages q) (blocks pages l) (blocks pages (p ∷ ps)))
          (sym (remove_first-later p q ps (ground (arith, away)))) (later i),
    )

pub find_block-Found :
    (pages : ℕ → Page) (n : ℕ) (ps : List ℕ)
    → Separate (blocks pages ps)
    → Found pages n ps (find_block pages n ps)
find_block-Found pages n [] s = subst (Found pages n []) (sym (find_block-nil pages n)) tt
find_block-Found pages n (p ∷ ps) (some_p, apart, s) = elim (dec_lt (pages p).property n) [
  | yes lt ↦
      subst (Found pages n (p ∷ ps)) (sym (find_block-later pages n p ps lt))
        (Found-later pages n p ps lt apart (find_block pages n ps) (find_block-Found pages n ps s))
  | no ge ↦
      subst (Found pages n (p ∷ ps)) (sym (find_block-here pages n p ps (omega (arith, ge)))) (
        omega (arith, ge),
        subst (λ l. Inserted (block pages p) (blocks pages l) (blocks pages (p ∷ ps)))
            (sym (remove_first-head p ps)) first,
      )
]
