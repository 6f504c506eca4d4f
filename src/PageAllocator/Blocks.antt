-- ===== src/PageAllocator/Blocks.antt =====
-- Labweek11/lab2/kern/mm/default_pmm.c: free memory as a list of blocks, a block being where it starts
-- and how many pages it has.
use operating_system_homewor.Prelude.{
  ℕ, ◌+◌, ◌≤◌, ◌<◌, ◌≡◌, ◌≢◌, ◌⊎◌, inl, inr, refl, ◌&&◌, ltb, leb, if◌then◌else◌, List, [], ◌∷◌,
  All, arith,
}

pub record Block : Type 0 where
  pub start : ℕ
  pub size : ℕ

-- Two blocks with at least one page between them.
abbrev pub Apart : Block → Block → Type 0
Apart a b = (a.start + a.size < b.start) ⊎ (b.start + b.size < a.start)

-- Two blocks that have no page in common.
abbrev pub Disjoint : Block → Block → Type 0
Disjoint a b = (a.start + a.size ≤ b.start) ⊎ (b.start + b.size ≤ a.start)

-- No block is empty, and between any two there is a page that is not free.
abbrev pub Separate : List Block → Type 0
Separate [] = Unit
Separate (b ∷ bs) = (0 < b.size) × All (Apart b) bs × Separate bs

abbrev pub total_size : List Block → ℕ
total_size [] = 0
total_size (b ∷ bs) = b.size + total_size bs

abbrev pub within : ℕ → Block → ℕ
within k b = if leb b.start k && ltb k (b.start + b.size) then 1 else 0

-- How many blocks a page lies in.
abbrev pub covered : ℕ → List Block → ℕ
covered k [] = 0
covered k (b ∷ bs) = within k b + covered k bs

-- Two blocks of which one starts where the other ends, as one.
abbrev pub behind : Block → Block → Block
behind b c = record { start = b.start; size = b.size + c.size }

-- How a freed block `b` grows by its neighbours in the list, and which blocks are none.
pub data Merges : List Block → Block → Block → List Block → Type 0 where
  ends : {b : Block} → Merges [] b b []
  before :
      {c b b' : Block} {cs kept : List Block}
      → b.start + b.size ≡ c.start
      → Merges cs (behind b c) b' kept
      → Merges (c ∷ cs) b b' kept
  after :
      {c b b' : Block} {cs kept : List Block}
      → c.start + c.size ≡ b.start
      → Merges cs (behind c b) b' kept
      → Merges (c ∷ cs) b b' kept
  keeps :
      {c b b' : Block} {cs kept : List Block}
      → b.start + b.size ≢ c.start
      → c.start + c.size ≢ b.start
      → Merges cs b b' kept
      → Merges (c ∷ cs) b b' (c ∷ kept)

-- A block apart from two neighbours is apart from both as one.
Apart-behind :
    (z b c : Block)
    → b.start + b.size ≡ c.start
    → 0 < z.size
    → Apart z b
    → Apart z c
    → Apart z (behind b c)
Apart-behind z b c e some zb zc = ground (arith, e, some, zb, zc)

Disjoint-behind :
    (z b c : Block)
    → b.start + b.size ≡ c.start
    → 0 < z.size
    → Disjoint b z
    → Apart c z
    → Disjoint (behind b c) z
Disjoint-behind z b c e some zb zc = ground (arith, e, some, zb, zc)

within-behind :
    (k : ℕ) (b c : Block)
    → b.start + b.size ≡ c.start
    → within k (behind b c) ≡ within k b + within k c
within-behind k b c e = ground (arith, e)

pub Apart-sym : (a b : Block) → Apart a b → Apart b a
Apart-sym a b (inl h) = inr h
Apart-sym a b (inr h) = inl h

-- Merging neither makes nor loses a page.
pub Merges-covered :
    (k : ℕ) {cs kept : List Block} {b b' : Block}
    → Merges cs b b' kept
    → within k b' + covered k kept ≡ within k b + covered k cs
Merges-covered k ends = refl
Merges-covered k (before {c = c} {b = b} e more) =
    omega (arith, Merges-covered k more, within-behind k b c e)
Merges-covered k (after {c = c} {b = b} e more) =
    omega (arith, Merges-covered k more, within-behind k c b e)
Merges-covered k (keeps n m more) = omega (arith, Merges-covered k more)

pub Merges-total_size :
    {cs kept : List Block} {b b' : Block}
    → Merges cs b b' kept
    → b'.size + total_size kept ≡ b.size + total_size cs
Merges-total_size ends = refl
Merges-total_size (before e more) = omega (arith, Merges-total_size more)
Merges-total_size (after e more) = omega (arith, Merges-total_size more)
Merges-total_size (keeps n m more) = omega (arith, Merges-total_size more)

Merges-All :
    (P : Block → Type 0) {cs kept : List Block} {b b' : Block}
    → Merges cs b b' kept
    → All P cs
    → All P kept
Merges-All P ends h = tt
Merges-All P (before e more) (p, ps) = Merges-All P more ps
Merges-All P (after e more) (p, ps) = Merges-All P more ps
Merges-All P (keeps n m more) (p, ps) = (p, Merges-All P more ps)

-- What is apart from the freed block and from all others is apart from what it becomes.
Merges-Apart :
    (z : Block) {cs kept : List Block} {b b' : Block}
    → 0 < z.size
    → Merges cs b b' kept
    → Apart z b
    → All (Apart z) cs
    → Apart z b'
Merges-Apart z some ends zb zs = zb
Merges-Apart z some (before {c = c} {b = b} e more) zb (zc, zs) =
    Merges-Apart z some more (Apart-behind z b c e some zb zc) zs
Merges-Apart z some (after {c = c} {b = b} e more) zb (zc, zs) =
    Merges-Apart z some more (Apart-behind z c b e some zc zb) zs
Merges-Apart z some (keeps n m more) zb (zc, zs) = Merges-Apart z some more zb zs

Disjoint-after :
    (z b c : Block)
    → c.start + c.size ≡ b.start
    → 0 < z.size
    → Disjoint b z
    → Apart c z
    → Disjoint (behind c b) z
Disjoint-after z b c e some zb zc = ground (arith, e, some, zb, zc)

Apart-kept :
    (b c : Block)
    → b.start + b.size ≢ c.start
    → c.start + c.size ≢ b.start
    → Disjoint b c
    → Apart c b
Apart-kept b c n m d = ground (arith, n, m, d)

Disjoint-All-behind :
    (b c : Block) (cs : List Block)
    → b.start + b.size ≡ c.start
    → Separate cs
    → All (Disjoint b) cs
    → All (Apart c) cs
    → All (Disjoint (behind b c)) cs
Disjoint-All-behind b c [] e s ds rest = tt
Disjoint-All-behind b c (z ∷ zs) e (some, apart, s) (d, ds) (a, rest) =
    (Disjoint-behind z b c e some d a, Disjoint-All-behind b c zs e s ds rest)

Disjoint-All-after :
    (b c : Block) (cs : List Block)
    → c.start + c.size ≡ b.start
    → Separate cs
    → All (Disjoint b) cs
    → All (Apart c) cs
    → All (Disjoint (behind c b)) cs
Disjoint-All-after b c [] e s ds rest = tt
Disjoint-All-after b c (z ∷ zs) e (some, apart, s) (d, ds) (a, rest) =
    (Disjoint-after z b c e some d a, Disjoint-All-after b c zs e s ds rest)

-- A freed block that has no page in common with the list becomes one that is separate from the rest.
pub Merges-Separate :
    {cs kept : List Block} {b b' : Block}
    → Merges cs b b' kept
    → Separate cs
    → 0 < b.size
    → All (Disjoint b) cs
    → Separate (b' ∷ kept)
Merges-Separate ends s some ds = (some, tt, tt)
Merges-Separate (before {c = c} {b = b} {cs = cs} e more) (some_c, apart, s) some (d, ds) =
    Merges-Separate more s (omega (arith, some)) (Disjoint-All-behind b c cs e s ds apart)
Merges-Separate (after {c = c} {b = b} {cs = cs} e more) (some_c, apart, s) some (d, ds) =
    Merges-Separate more s (omega (arith, some)) (Disjoint-All-after b c cs e s ds apart)
Merges-Separate (keeps {c = c} {b = b} {b' = b'} n m more) (some_c, apart, s) some (d, ds) =
    let (some', apart', s') = Merges-Separate more s some ds in
    let cb = Merges-Apart c some_c more (Apart-kept b c n m d) apart in
    (some', (Apart-sym c b' cb, apart'), (some_c, Merges-All (Apart c) more apart, s'))

covered-Apart :
    (k : ℕ) (b : Block) (bs : List Block) → All (Apart b) bs → within k b ≡ 1 → covered k bs ≡ 0
covered-Apart k b [] h e = refl
covered-Apart k b (c ∷ cs) (a, h) e = ground (arith, a, e, covered-Apart k b cs h e)

-- A page lies in one free block at most.
pub Separate-covered : (k : ℕ) (bs : List Block) → Separate bs → covered k bs ≤ 1
Separate-covered k [] s = omega arith
Separate-covered k (b ∷ bs) (some_b, apart, s) =
    ground (arith, Separate-covered k bs s, covered-Apart k b bs apart)
