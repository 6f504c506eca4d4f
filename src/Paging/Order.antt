-- ===== src/Paging/Order.antt =====
-- Labweek17/page_replacement.c: the nodes of the stack stand in the order of the last use of their
-- frames, and taking one out keeps that order.
use mathlib.Core.Path.{subst}
use operating_system_homewor.Prelude.{
  ℕ, ◌<◌, ◌≡◌, ◌≢◌, sym, ap, true, false, some, none, List, [], ◌∷◌, ◌++◌, All, arith, ◌⊎◌, inl,
  inr, Bool-cases, Option-cases,
}
use operating_system_homewor.Paging.{PageNode, holds, unlink}

-- Frame `a` was used before frame `b`; frames not used yet stand by their numbers.
abbrev pub Before : (ℕ → ℕ) → ℕ → ℕ → Type 0
Before t a b = (t a < t b) ⊎ ((t a ≡ t b) × (a < b))

abbrev pub Sorted : (ℕ → ℕ) → List PageNode → Type 0
Sorted t [] = Unit
Sorted t (x ∷ xs) = All (λ y. Before t x.page_index y.page_index) xs × Sorted t xs

-- Some node of the list is that of frame `j`.
abbrev pub Has : ℕ → List PageNode → Type 0
Has j [] = ⊥
Has j (x ∷ xs) = (x.page_index ≡ j) ⊎ Has j xs

-- `x` and the nodes `ys` are those of `xs`.
abbrev pub Unlinked : List PageNode → PageNode → List PageNode → Type 1
Unlinked xs x ys =
    ((P : PageNode → Type 0) → All P xs → P x × All P ys)
    × ((j : ℕ) → Has j xs → (x.page_index ≡ j) ⊎ Has j ys)
    × ((t : ℕ → ℕ) → Sorted t xs → Sorted t ys × All (λ y. y.page_index ≢ x.page_index) ys)

pub Before-ne : (t : ℕ → ℕ) (a b : ℕ) → Before t a b → a ≢ b
Before-ne t a b (inl lt) e = absurd (omega (arith, ap t e))
Before-ne t a b (inr (_, lt)) e = absurd (omega arith)

pub All-map {ℓ} :
    {A : Type ℓ} (P Q : A → Type 0) (xs : List A) → ((x : A) → P x → Q x) → All P xs → All Q xs
All-map P Q [] f h = tt
All-map P Q (x ∷ xs) f h = (f x h.0, All-map P Q xs f h.1)

pub All-append {ℓ} :
    {A : Type ℓ} (P : A → Type 0) (xs ys : List A) → All P xs → All P ys → All P (xs ++ ys)
All-append P [] ys h k = k
All-append P (x ∷ xs) ys h k = (h.0, All-append P xs ys h.1 k)

pub All-both {ℓ} :
    {A : Type ℓ} (P Q : A → Type 0) (xs : List A) → All P xs → All Q xs → All (λ x. P x × Q x) xs
All-both P Q [] h k = tt
All-both P Q (x ∷ xs) h k = ((h.0, k.0), All-both P Q xs h.1 k.1)

pub All-has :
    (P : ℕ → Type 0) (j : ℕ) (xs : List PageNode) → Has j xs → All (λ x. P x.page_index) xs → P j
All-has P j [] h all = absurd h
All-has P j (x ∷ xs) (inl e) all = subst P e all.0
All-has P j (x ∷ xs) (inr h) all = All-has P j xs h all.1

pub Unlinked-here : (x : PageNode) (xs : List PageNode) → Unlinked (x ∷ xs) x xs
Unlinked-here x xs = (
  λ P h. h,
  λ j h. h,
  λ t h. (
    h.1,
    All-map (λ y. Before t x.page_index y.page_index) _ xs
        (λ y b e. Before-ne t x.page_index y.page_index b (sym e)) h.0,
  ),
)

Unlinked-later :
    (x y : PageNode) (xs ys : List PageNode) → Unlinked xs x ys → Unlinked (y ∷ xs) x (y ∷ ys)
Unlinked-later x y xs ys (keeps, has, sorts) = (
  λ P h. ((keeps P h.1).0, (h.0, (keeps P h.1).1)),
  λ j h. elim h [
    | inl e ↦ inr (inl e)
    | inr later ↦ elim (has j later) [ inl e ↦ inl e | inr more ↦ inr (inr more) ]
  ],
  λ t h.
      let before = keeps (λ z. Before t y.page_index z.page_index) h.0 in
      let (sorted, apart) = sorts t h.1 in
      ((before.1, sorted), (Before-ne t y.page_index x.page_index before.0, apart)),
)

-- The node found holds the page and is taken out.
pub unlink-some :
    (p : ℕ) (xs : List PageNode) (x : PageNode) (ys : List PageNode)
    → unlink p xs ≡ some (x, ys)
    → (holds x.page_num p ≡ true) × Unlinked xs x ys
unfolding unlink
unlink-some p [] x ys h = absurd (cc)
unlink-some p (y ∷ xs) x ys h = elim (Bool-cases (holds y.page_num p)) [
  | inl here ↦
      let h2 = rw (here, unlink) at h in
      let first : PageNode × List PageNode = (y, xs) in
      let wanted : PageNode × List PageNode = (x, ys) in
      let e : first ≡ wanted = cc in
      subst (λ r. (holds r.0.page_num p ≡ true) × Unlinked (y ∷ xs) r.0 r.1) e
        (here, Unlinked-here y xs)
  | inr other ↦ elim (Option-cases (unlink p xs)) [
    | inl none_left ↦ absurd (let h2 = rw (other, none_left, unlink) at h in cc)
    | inr (found, e) ↦
        let ih = unlink-some p xs found.0 found.1 e in
        let h2 = rw (other, e, unlink) at h in
        let first : PageNode × List PageNode = (found.0, y ∷ found.1) in
        let wanted : PageNode × List PageNode = (x, ys) in
        let same : first ≡ wanted = cc in
        subst (λ r. (holds r.0.page_num p ≡ true) × Unlinked (y ∷ xs) r.0 r.1) same
          (ih.0, Unlinked-later found.0 y xs found.1 ih.1)
  ]
]

-- If the walk reaches the end, no node holds the page.
pub unlink-none :
    (p : ℕ) (xs : List PageNode) → unlink p xs ≡ none → All (λ x. holds x.page_num p ≡ false) xs
unfolding unlink
unlink-none p [] h = tt
unlink-none p (x ∷ xs) h = elim (Bool-cases (holds x.page_num p)) [
  | inl here ↦ absurd (let h2 = rw (here, unlink) at h in cc)
  | inr other ↦ elim (Option-cases (unlink p xs)) [
    | inl none_left ↦ (other, unlink-none p xs none_left)
    | inr (found, e) ↦ absurd (let h2 = rw (other, e, unlink) at h in cc)
  ]
]
