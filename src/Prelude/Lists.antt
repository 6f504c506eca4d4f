-- ===== src/Prelude/Lists.antt =====
-- Lists measured and indexed by native numbers, and functions changed at one argument.
use Prim.Native.Nat.{ℕ, zero, suc, ◌+◌, ◌-◌, ◌<◌}
use mathlib.Core.Path.{◌≡◌, refl, ap}
use mathlib.Core.Logic.{◌≢◌}
use mathlib.Core.List.{List, [], ◌∷◌, ◌++◌}
use mathlib.Core.Bool.{true, false}
use mathlib.Core.Option.{Option, none, some}
use native.Mathlib.Omega.{arith}
use operating_system_homewor.Prelude.Tests.{◌==◌, if◌then◌else◌}

module _ {ℓ} {A : Type ℓ} where
  abbrev pub length : List A → ℕ
  length [] = 0
  length (x ∷ xs) = suc (length xs)

  abbrev pub get_elem? : List A → ℕ → Option A
  get_elem? [] i = none
  get_elem? (x ∷ xs) zero = some x
  get_elem? (x ∷ xs) (suc i) = get_elem? xs i

  abbrev pub get_or : List A → ℕ → A → A
  get_or [] i d = d
  get_or (x ∷ xs) zero d = x
  get_or (x ∷ xs) (suc i) d = get_or xs i d

  -- A write out of bounds changes nothing.
  abbrev pub set : List A → ℕ → A → List A
  set [] i v = []
  set (x ∷ xs) zero v = v ∷ xs
  set (x ∷ xs) (suc i) v = x ∷ set xs i v

  abbrev pub replicate : ℕ → A → List A
  replicate zero a = []
  replicate (suc n) a = a ∷ replicate n a

  pub length-append : (xs ys : List A) → length (xs ++ ys) ≡ length xs + length ys
  length-append [] ys = omega arith
  length-append (x ∷ xs) ys = omega (arith, length-append xs ys)

  pub length-set : (xs : List A) (i : ℕ) (v : A) → length (set xs i v) ≡ length xs
  length-set [] i v = refl
  length-set (x ∷ xs) zero v = refl
  length-set (x ∷ xs) (suc i) v = ap suc (length-set xs i v)

  pub get_or-set_self :
      (xs : List A) (i : ℕ) (v d : A) → i < length xs → get_or (set xs i v) i d ≡ v
  get_or-set_self [] i v d h = absurd (omega arith)
  get_or-set_self (x ∷ xs) zero v d h = refl
  get_or-set_self (x ∷ xs) (suc i) v d h = get_or-set_self xs i v d (omega arith)

  pub get_or-set_ne :
      (xs : List A) (i j : ℕ) (v d : A) → i ≢ j → get_or (set xs i v) j d ≡ get_or xs j d
  get_or-set_ne [] i j v d h = refl
  get_or-set_ne (x ∷ xs) zero zero v d h = absurd (h refl)
  get_or-set_ne (x ∷ xs) zero (suc j) v d h = refl
  get_or-set_ne (x ∷ xs) (suc i) zero v d h = refl
  get_or-set_ne (x ∷ xs) (suc i) (suc j) v d h = get_or-set_ne xs i j v d (λ e. h (ap suc e))

  -- A C array that a loop indexes with no length at hand is a function of its index.
  abbrev pub update : (ℕ → A) → ℕ → A → ℕ → A
  update f i v j = if i == j then v else f j

-- How often a number stands in a list.
abbrev pub count : ℕ → List ℕ → ℕ
count a [] = 0
count a (x ∷ xs) = if x == a then suc (count a xs) else count a xs

pub count-append : (a : ℕ) (xs ys : List ℕ) → count a (xs ++ ys) ≡ count a xs + count a ys
count-append a [] ys = omega arith
count-append a (x ∷ xs) ys = ground (arith, count-append a xs ys)

pub count-replicate : (a b n : ℕ) → count a (replicate n b) ≡ (if b == a then n else 0)
count-replicate a b zero = ground arith
count-replicate a b (suc n) = ground (arith, count-replicate a b n)

-- Every element has the property.
abbrev pub All {ℓ κ} : {A : Type ℓ} → (A → Type κ) → List A → Type κ
All P [] = Unit
All P (x ∷ xs) = P x × All P xs

-- The list without the first occurrence of a number.
pub remove_first : ℕ → List ℕ → List ℕ
remove_first a [] = []
remove_first a (x ∷ xs) = if x == a then xs else x ∷ remove_first a xs

pub remove_first-head : (p : ℕ) (ps : List ℕ) → remove_first p (p ∷ ps) ≡ ps
unfolding remove_first
remove_first-head p ps = ground arith

pub remove_first-later :
    (p q : ℕ) (ps : List ℕ) → p ≢ q → remove_first q (p ∷ ps) ≡ p ∷ remove_first q ps
unfolding remove_first
remove_first-later p q ps ne = ground (arith, ne)

pub count-remove_first :
    (a b : ℕ) (xs : List ℕ)
    → count b (remove_first a xs) ≡ (if a == b then count b xs - 1 else count b xs)
unfolding remove_first
count-remove_first a b [] = ground arith
count-remove_first a b (x ∷ xs) = ground (arith, count-remove_first a b xs)

pub length-remove_first :
    (a : ℕ) (xs : List ℕ) → 0 < count a xs → length (remove_first a xs) + 1 ≡ length xs
unfolding remove_first
length-remove_first a [] h = absurd (omega arith)
length-remove_first a (x ∷ xs) h = ground (arith, length-remove_first a xs)

pub remove_first-All {κ} :
    (P : ℕ → Type κ) (a : ℕ) (xs : List ℕ) → All P xs → All P (remove_first a xs)
unfolding remove_first
remove_first-All P a [] h = h
remove_first-All P a (x ∷ xs) h =
    elim (x == a) as (λ b. All P (if b then xs else x ∷ remove_first a xs)) [
      | true ↦ h.1
      | false ↦ (h.0, remove_first-All P a xs h.1)
    ]

pub remove_first_here : (a x : ℕ) (xs : List ℕ) → (x == a) ≡ true → remove_first a (x ∷ xs) ≡ xs
unfolding remove_first
remove_first_here a x xs e = rw e

pub remove_first_ne :
    (a x : ℕ) (xs : List ℕ) → (x == a) ≡ false → remove_first a (x ∷ xs) ≡ x ∷ remove_first a xs
unfolding remove_first
remove_first_ne a x xs e = rw e
