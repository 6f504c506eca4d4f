-- ===== src/PageAllocator/Allocate.antt =====
-- Labweek11/lab2/kern/mm/default_pmm.c: what `default_alloc_pages` takes, and what it leaves.
use mathlib.Core.Path.{subst}
use native.Mathlib.Decide.{ℕ_discrete, dec_lt}
use operating_system_homewor.Prelude.{
  ℕ, ◌+◌, ◌-◌, ◌≤◌, ◌<◌, ◌≡◌, ◌≢◌, refl, sym, ap, ap₂, ◌∙◌, true, false, Bool, ltb, ◌==◌,
  if◌then◌else◌, Option, none, some, List, ◌∷◌, All, arith, remove_first, count, count-remove_first,
  lt→ltb, ltb→lt, le→ltb,
}
use operating_system_homewor.PageAllocator.{
  Page, Memory, set_property, set_page_property, clear_page_property, find_block, take_pages,
  default_alloc_pages,
}
use operating_system_homewor.PageAllocator.Blocks.{Apart, Separate, total_size, within, covered}
use operating_system_homewor.PageAllocator.Fields.{
  cleared, set_property_reserved, set_property_bit, marked_reserved, marked_property, marked_bit,
  set_property_self, set_property_other,
}
use operating_system_homewor.PageAllocator.Merging.{block, blocks, Apart-Absent, Absent}
use operating_system_homewor.PageAllocator.Inserted.{
  Inserted, Inserted-covered, Inserted-total_size, Inserted-Separate, Found, find_block-Found,
}
use operating_system_homewor.PageAllocator.State.{
  free_blocks, IsWellFormed, pages_from, Allocated, smaller, rest_block, Apart-All-rest_block,
  blocks-All,
}

module _ (s : Memory) (page n : ℕ) (some_n : 0 < n) (enough : n ≤ (s.pages page).property)
    (wf : IsWellFormed s)
    (found : Inserted
      (block s.pages page)
      (blocks s.pages (remove_first page s.free_area.free_list))
      (free_blocks s)) where
  abbrev others : List ℕ
  others = remove_first page s.free_area.free_list

  abbrev size : ℕ
  size = (s.pages page).property

  split : Separate (block s.pages page ∷ blocks s.pages others)
  split = (Inserted-Separate found).1 wf.separate

  absent : Absent page others
  absent = Apart-Absent s.pages (block s.pages page) others split.1

  -- The block is taken as a whole.
  abbrev whole : Memory
  whole = record {
    pages = clear_page_property s.pages page;
    free_area = record { free_list = others; nr_free = s.free_area.nr_free - n };
  }

  -- The pages behind the first `n` stay free.
  abbrev rest : ℕ
  rest = page + n

  abbrev part_pages : ℕ → Page
  part_pages = set_page_property (set_property s.pages rest (size - n)) rest

  abbrev part : Memory
  part = record {
    pages = clear_page_property part_pages page;
    free_area = record { free_list = rest ∷ others; nr_free = s.free_area.nr_free - n };
  }

  take_pages-part : n < size → take_pages page n s ≡ part
  take_pages-part lt =
      ap
        (λ b. record {
          pages = clear_page_property (if b then part_pages else s.pages) page;
          free_area = record {
            free_list = if b then rest ∷ others else others;
            nr_free = s.free_area.nr_free - n;
          };
        })
        (lt→ltb n size lt)

  take_pages-whole : n ≡ size → take_pages page n s ≡ whole
  take_pages-whole e =
      ap
        (λ b. record {
          pages = clear_page_property (if b then part_pages else s.pages) page;
          free_area = record {
            free_list = if b then rest ∷ others else others;
            nr_free = s.free_area.nr_free - n;
          };
        })
        (le→ltb n size (omega (arith, e)))

  whole-blocks : free_blocks whole ≡ blocks s.pages others
  whole-blocks =
      blocks-All s.pages whole.pages others (λ k. k ≢ page) absent
        (λ k ne. marked_property s.pages page false k)

  still_marked : (k : ℕ) → k ≢ page → (s.pages k).property_bit ≡ true → 0 < count k others
  still_marked k ne e =
      ground (arith, count-remove_first page k s.free_area.free_list, wf.marked k e, ne)

  whole-Allocated : n ≡ size → Allocated n s (some page) whole
  whole-Allocated e = (
    record {
      separate = subst Separate (sym whole-blocks) split.2;
      counted = omega (arith, wf.counted, Inserted-total_size found, ap total_size whole-blocks, e);
      marked = λ k bit. elim (ℕ_discrete k page) [
        | yes same ↦ cleared s.pages page k same bit
        | no ne ↦ still_marked k ne (sym (marked_bit s.pages page false k ne) ∙ bit)
      ];
      usable = λ k some_k.
          marked_reserved s.pages page false k
          ∙ wf.usable k
              (omega (arith, some_k, ap (covered k) whole-blocks, Inserted-covered k found));
    },
    λ k. omega (
      arith,
      ap (covered k) whole-blocks,
      Inserted-covered k found,
      ap (λ m. within k (pages_from page m)) e,
    ),
    omega (arith, wf.counted, Inserted-total_size found, enough),
    marked_reserved s.pages page false,
  )

  module _ (lt : n < size) where
    Apart-rest : All (Apart (rest_block (block s.pages page) n)) (blocks s.pages others)
    Apart-rest = Apart-All-rest_block (block s.pages page) n (blocks s.pages others) lt split.1

    Absent-rest : Absent rest others
    Absent-rest = Apart-Absent s.pages (rest_block (block s.pages page) n) others Apart-rest

    part_rest : (part.pages rest).property ≡ size - n
    part_rest =
        marked_property part_pages page false rest
        ∙ marked_property (set_property s.pages rest (size - n)) rest true rest
        ∙ set_property_self s.pages rest (size - n)

    part_other : (k : ℕ) → k ≢ rest → (part.pages k).property ≡ (s.pages k).property
    part_other k ne =
        marked_property part_pages page false k
        ∙ marked_property (set_property s.pages rest (size - n)) rest true k
        ∙ set_property_other s.pages rest (size - n) k ne

    part_reserved : (k : ℕ) → (part.pages k).reserved ≡ (s.pages k).reserved
    part_reserved k =
        marked_reserved part_pages page false k
        ∙ marked_reserved (set_property s.pages rest (size - n)) rest true k
        ∙ set_property_reserved s.pages rest (size - n) k

    part_bit :
        (k : ℕ) → k ≢ page → k ≢ rest → (part.pages k).property_bit ≡ (s.pages k).property_bit
    part_bit k ne ne_rest =
        marked_bit part_pages page false k ne
        ∙ marked_bit (set_property s.pages rest (size - n)) rest true k ne_rest
        ∙ set_property_bit s.pages rest (size - n) k

    part-blocks : free_blocks part ≡ rest_block (block s.pages page) n ∷ blocks s.pages others
    part-blocks =
        ap₂ (λ m bs. record { start = rest; size = m } ∷ bs) part_rest
          (blocks-All s.pages part.pages others (λ k. k ≢ rest) Absent-rest part_other)

    part_marked : (k : ℕ) → (part.pages k).property_bit ≡ true → 0 < count k (rest ∷ others)
    part_marked k bit = elim (ℕ_discrete k rest) [
      | yes same ↦ ground (arith, same)
      | no ne_rest ↦ elim (ℕ_discrete k page) [
        | yes same ↦ cleared part_pages page k same bit
        | no ne ↦ ground (arith, still_marked k ne (sym (part_bit k ne ne_rest) ∙ bit))
      ]
    ]

    -- The first `n` pages and the rest make the block.
    within_parts :
        (k : ℕ)
        → within k (pages_from page n) + within k (rest_block (block s.pages page) n)
          ≡ within k (block s.pages page)
    within_parts k = ground (arith, lt)

    part-Allocated : Allocated n s (some page) part
    part-Allocated = (
      record {
        separate = subst Separate (sym part-blocks) (omega (arith, lt), Apart-rest, split.2);
        counted =
            omega (arith, wf.counted, Inserted-total_size found, ap total_size part-blocks, lt);
        marked = part_marked;
        usable = λ k some_k.
            part_reserved k
            ∙ wf.usable k (
                omega (
                  arith,
                  some_k,
                  ap (covered k) part-blocks,
                  Inserted-covered k found,
                  within_parts k,
                ));
      },
      λ k. omega (arith, ap (covered k) part-blocks, Inserted-covered k found, within_parts k),
      omega (arith, wf.counted, Inserted-total_size found, lt),
      part_reserved,
    )

  take-Allocated : Allocated n s (some page) (take_pages page n s)
  take-Allocated = elim (dec_lt n size) [
    | yes lt ↦ subst (Allocated n s (some page)) (sym (take_pages-part lt)) (part-Allocated lt)
    | no ge ↦
        let e : n ≡ size = omega (arith, ge, enough) in
        subst (Allocated n s (some page)) (sym (take_pages-whole e)) (whole-Allocated e)
  ]

abbrev pub Result : ℕ → Memory → Option (Option ℕ × Memory) → Type 0
Result n s none = ⊥
Result n s (some (o, s')) = Allocated n s o s'

chosen :
    (n : ℕ) (s : Memory)
    → 0 < n
    → IsWellFormed s
    → (o : Option ℕ) → Found s.pages n s.free_area.free_list o
    → Result n s
        (elim o [ none ↦ some (none, s) | some page ↦ some (some page, take_pages page n s) ])
chosen n s some_n wf none small = (refl, small)
chosen n s some_n wf (some page) (enough, found) = take-Allocated s page n some_n enough wf found

guarded :
    (n : ℕ) (s : Memory) (x y : Bool) (r : Option (Option ℕ × Memory))
    → x ≡ false
    → (y ≡ true → Result n s (some (none, s)))
    → Result n s r
    → Result n s (if x then none else if y then some (none, s) else r)
guarded n s true y r e small found = absurd cc
guarded n s false true r e small found = small refl
guarded n s false false r e small found = found

pub alloc-Result :
    (n : ℕ) (s : Memory) → 0 < n → IsWellFormed s → Result n s (default_alloc_pages n s)
unfolding default_alloc_pages
alloc-Result n s some_n wf =
    guarded n s (n == 0) (ltb s.free_area.nr_free n) _ (ground (arith, some_n))
      (λ few. (
        refl,
        smaller n (free_blocks s) (omega (arith, ltb→lt s.free_area.nr_free n few, wf.counted)),
      ))
      (chosen n s some_n wf (find_block s.pages n s.free_area.free_list)
        (find_block-Found s.pages n s.free_area.free_list wf.separate))

returned :
    (n : ℕ) (s : Memory) (r : Option (Option ℕ × Memory))
    → Result n s r
    → (o : Option ℕ) × (s' : Memory) × (r ≡ some (o, s')) × Allocated n s o s'
returned n s none impossible = absurd impossible
returned n s (some (o, s')) done = (o, s', refl, done)

-- An allocation of at least one page fails no assertion. It gives NULL, and changes nothing, only if
-- no free block is large enough; otherwise the pages it gives were free, they and no others are free
-- no longer, they are taken off the count, and the memory stays well formed.
pub default_alloc_pages-Allocated :
    (n : ℕ) (s : Memory)
    → 0 < n
    → IsWellFormed s
    → (o : Option ℕ) × (s' : Memory) × (default_alloc_pages n s ≡ some (o, s')) × Allocated n s o s'
default_alloc_pages-Allocated n s some_n wf =
    returned n s (default_alloc_pages n s) (alloc-Result n s some_n wf)
