-- ===== src/PageTables/Lookup.antt =====
-- Labweek11/lab2/kern/mm/pmm.c: what `get_page` finds after a word or the directory has changed.
use operating_system_homewor.Prelude.{
  ℕ, ◌<◌, ◌≡◌, refl, ap₂, true, false, if◌then◌else◌, none, some, arith,
}
use operating_system_homewor.PageTables.{
  Paged, pde, pdx, ptx, present, entry2page, entry_for, get_page,
}

pub entry2page-entry_for : (page perm : ℕ) → perm < 4096 → entry2page (entry_for page perm) ≡ page
entry2page-entry_for page perm lt = ground (arith, lt)

pub present-entry_for : (page perm : ℕ) → perm < 4096 → present (entry_for page perm) ≡ true
present-entry_for page perm lt = ground (arith, lt)

-- What the directory and the tables hold for an address.
abbrev pub table_of : Paged → ℕ → ℕ
table_of v la = entry2page (pde v (pdx la))

abbrev pub word_of : Paged → ℕ → ℕ
word_of v la = v.words (table_of v la) (ptx la)

pub get_page-mapped :
    (v : Paged) (la : ℕ)
    → present (pde v (pdx la)) ≡ true
    → present (word_of v la) ≡ true
    → get_page v la ≡ some (entry2page (word_of v la))
unfolding get_page
get_page-mapped v la d w = rw (d, w) refl

pub get_page-no_table :
    (v : Paged) (la : ℕ) → present (pde v (pdx la)) ≡ false → get_page v la ≡ none
unfolding get_page
get_page-no_table v la d = rw d refl

pub get_page-no_entry : (v : Paged) (la : ℕ) → present (word_of v la) ≡ false → get_page v la ≡ none
unfolding get_page
get_page-no_entry v la w = ground (arith, w)

-- Two memories that hold the same for an address find the same page.
pub get_page-same :
    (v w : Paged) (la : ℕ)
    → pde w (pdx la) ≡ pde v (pdx la)
    → word_of w la ≡ word_of v la
    → get_page w la ≡ get_page v la
unfolding get_page
get_page-same v w la d e =
    ap₂ (λ x y. if present x then if present y then some (entry2page y) else none else none) d e

-- Addresses with the same entry are mapped to the same page.
pub get_page-entry :
    (v : Paged) (la la' : ℕ) → pdx la ≡ pdx la' → ptx la ≡ ptx la' → get_page v la ≡ get_page v la'
unfolding get_page
get_page-entry v la la' d i =
    ap₂
      (λ x y.
        if present (pde v x)
        then if present (v.words (entry2page (pde v x)) y)
          then some (entry2page (v.words (entry2page (pde v x)) y))
          else none
        else none)
      d i
