-- ===== src/Banker/Safety.antt =====
-- Labweek15/alg.17-1-bankers-5.c: what it means that a state is safe, independently of the check.
use operating_system_homewor.Prelude.{
  ℕ, zero, suc, ◌+◌, ◌≤◌, ◌<◌, ◌≡◌, refl, ap₂, Bool, true, false, inl, inr, Bool-cases, List, [],
  ◌∷◌, arith, length, count, update, remove_first, remove_first_here, remove_first_ne, ◌==◌, eqb→eq,
  if◌then◌else◌,
}
use native.Mathlib.Decide.{ℕ_discrete}
use operating_system_homewor.Prelude.Int.{pos, ◌+ℤ◌, ◌≤ℤ◌, +ℤ_parts}
use operating_system_homewor.Banker.{process_num, resource_num, Resources, Bank, release}

-- One vector is below another in every resource type.
abbrev pub Within : Resources → Resources → Type 0
Within a b = (k : ℕ) → k < resource_num → a k ≤ℤ b k

-- How many of the first `n` processes have not finished.
pub unfinished : ℕ → (ℕ → Bool) → ℕ
unfinished zero f = 0
unfinished (suc n) f = (if f n then 0 else 1) + unfinished n f

unfinished-update_of_le :
    (n : ℕ) (f : ℕ → Bool) (i : ℕ) → n ≤ i → unfinished n (update f i true) ≡ unfinished n f
unfolding unfinished
unfinished-update_of_le zero f i le = refl
unfinished-update_of_le (suc n) f i le = ground (arith, unfinished-update_of_le n f i)

pub unfinished-update :
    (n : ℕ) (f : ℕ → Bool) (i : ℕ)
    → i < n
    → f i ≡ false
    → unfinished n (update f i true) + 1 ≡ unfinished n f
unfolding unfinished
unfinished-update zero f i lt open_ = absurd (omega arith)
unfinished-update (suc n) f i lt open_ = elim (ℕ_discrete i n) [
  | yes e ↦ rw e (ground (arith, unfinished-update_of_le n f n))
  | no ne ↦ ground (arith, unfinished-update n f i)
]

pub unfinished-eq-zero :
    (n : ℕ) (f : ℕ → Bool) → ((j : ℕ) → j < n → f j ≡ true) → unfinished n f ≡ 0
unfolding unfinished
unfinished-eq-zero zero f h = refl
unfinished-eq-zero (suc n) f h =
    ground (arith, h n (omega arith), unfinished-eq-zero n f (λ j lt. h j (omega arith)))

pub finished-of-zero : (n : ℕ) (f : ℕ → Bool) → unfinished n f ≡ 0 → (j : ℕ) → j < n → f j ≡ true
unfolding unfinished
finished-of-zero zero f h j lt = absurd (omega arith)
finished-of-zero (suc n) f h j lt = elim (ℕ_discrete j n) [
  | yes e ↦ rw e (ground arith)
  | no ne ↦ finished-of-zero n f (ground arith) j (omega arith)
]

module _ (need allocation : ℕ → Resources) where
  -- The processes of the list can finish in its order: each gets what it needs from `work`, and
  -- what the ones before it have released; at its end every process has finished.
  abbrev pub Finishes : (ℕ → Bool) → Resources → List ℕ → Type 0
  Finishes finish work [] = (j : ℕ) → j < process_num → finish j ≡ true
  Finishes finish work (j ∷ js) =
      (j < process_num)
      × (finish j ≡ false)
      × Within (need j) work
      × Finishes (update finish j true) (release work (allocation j)) js

  -- More work and the same finished processes do no harm.
  pub Finishes-mono :
      (js : List ℕ) (f f' : ℕ → Bool) (w w' : Resources)
      → ((j : ℕ) → f j ≡ f' j)
      → Within w w'
      → Finishes f w js
      → Finishes f' w' js
  Finishes-mono [] f f' w w' same more h = λ j lt. ground (arith, same j, h j lt)
  Finishes-mono (j ∷ js) f f' w w' same more h = (
    h.0,
    ground (arith, same j, h.1),
    λ k lt. omega (arith, h.2 k lt, more k lt),
    Finishes-mono js _ _ _ _ (λ i. ground (arith, same i))
        (λ k lt.
          omega
            (arith, more k lt, +ℤ_parts (w k) (allocation j k), +ℤ_parts (w' k) (allocation j k)))
        h.3,
  )

  -- A process that has not finished stands in every order that finishes.
  pub Finishes-count :
      (js : List ℕ) (f : ℕ → Bool) (w : Resources) (i : ℕ)
      → i < process_num
      → f i ≡ false
      → Finishes f w js
      → 0 < count i js
  Finishes-count [] f w i lt open_ h = cc (h i lt)
  Finishes-count (j ∷ js) f w i lt open_ h =
      ground (arith, Finishes-count js (update f j true) (release w (allocation j)) i lt)

  -- The exchange: a process that fits now may go first, in any order that finishes, if no
  -- allocation is negative.
  pub Finishes-first :
      (js : List ℕ) (f : ℕ → Bool) (w w' : Resources) (i : ℕ)
      → ((j k : ℕ) → j < process_num → k < resource_num → pos 0 ≤ℤ allocation j k)
      → i < process_num
      → f i ≡ false
      → Within w w'
      → Finishes f w js
      → Finishes (update f i true) (release w' (allocation i)) (remove_first i js)
  Finishes-first [] f w w' i nonneg lt open_ more h = cc (h i lt)
  Finishes-first (j ∷ js) f w w' i nonneg lt open_ more h = elim (Bool-cases (j == i)) [
    | inl here ↦
        let e : j ≡ i = eqb→eq j i here in
        rw (remove_first_here i j js here) (
          Finishes-mono js _ _ _ _ (λ x. refl)
            (λ k l.
              omega (
                arith,
                more k l,
                +ℤ_parts (w k) (allocation i k),
                +ℤ_parts (w' k) (allocation i k),
              ))
            (rw e at h.3))
    | inr other ↦ rw (remove_first_ne i j js other) (
      h.0,
      ground arith,
      λ k l. omega (arith, h.2 k l, more k l, nonneg i k lt l, +ℤ_parts (w' k) (allocation i k)),
      Finishes-mono (remove_first i js) _ _ _ _ (λ x. ground arith)
          (λ k l. omega (
            arith,
            +ℤ_parts (w' k) (allocation i k),
            +ℤ_parts (w' k) (allocation j k),
            +ℤ_parts (w' k +ℤ allocation i k) (allocation j k),
            +ℤ_parts (w' k +ℤ allocation j k) (allocation i k),
          ))
          (Finishes-first js (update f j true) (release w (allocation j))
            (release w' (allocation j)) i nonneg lt (ground arith)
            (λ k l.
              omega (
                arith,
                more k l,
                +ℤ_parts (w k) (allocation j k),
                +ℤ_parts (w' k) (allocation j k),
              ))
            h.3),
    )
  ]

  -- Its length is the number of processes that have not finished.
  pub Finishes-length :
      (js : List ℕ) (f : ℕ → Bool) (w : Resources)
      → Finishes f w js
      → length js ≡ unfinished process_num f
  Finishes-length [] f w h = omega (arith, unfinished-eq-zero process_num f h)
  Finishes-length (j ∷ js) f w h = omega (
    arith,
    Finishes-length js (update f j true) (release w (allocation j)) h.3,
    unfinished-update process_num f j h.0 h.1,
  )

-- Only the entries for the resource types count.
pub Finishes-congr :
    (need need' allocation allocation' : ℕ → Resources) (js : List ℕ) (f : ℕ → Bool)
    (w w' : Resources)
    → ((j k : ℕ) → k < resource_num → need j k ≡ need' j k)
    → ((j k : ℕ) → k < resource_num → allocation j k ≡ allocation' j k)
    → ((k : ℕ) → k < resource_num → w k ≡ w' k)
    → Finishes need allocation f w js
    → Finishes need' allocation' f w' js
Finishes-congr need need' al al' [] f w w' sn sa sw h = h
Finishes-congr need need' al al' (j ∷ js) f w w' sn sa sw h = (
  h.0,
  h.1,
  λ k l. rw (← sn j k l, ← sw k l) (h.2 k l),
  Finishes-congr need need' al al' js _ _ _ sn sa (λ k l. ap₂ ◌+ℤ◌ (sw k l) (sa j k l)) h.3,
)

-- A state is safe if its processes can finish in some order.
abbrev pub Safe : Bank → Type 0
Safe b = (js : List ℕ) × Finishes b.need b.allocation (λ _. false) b.available js

-- At the start of the check nobody has finished.
pub unfinished_start : unfinished process_num (λ _. false) ≡ process_num
unfolding unfinished
unfinished_start = refl
