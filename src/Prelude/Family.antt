-- ===== src/Prelude/Family.antt =====
-- One value for each thread: what all of them weigh together, and how it changes with one of them.
use Prim.Native.Nat.{ℕ, zero, suc, ◌+◌, ◌≤◌, ◌<◌}
use mathlib.Core.Path.{◌≡◌, refl, sym, ap, subst}
use mathlib.Core.Logic.{◌≢◌, ◌⊎◌, inl, inr}
use native.Mathlib.Decide.{dec_lt, ℕ_discrete}
use native.Mathlib.Omega.{arith}
use operating_system_homewor.Prelude.Lists.{update}

module _ {ℓ} {A : Type ℓ} where
  pub total : (A → ℕ) → ℕ → (ℕ → A) → ℕ
  total w zero f = 0
  total w (suc n) f = total w n f + w (f n)

  pub update_self : (f : ℕ → A) (i : ℕ) (a : A) → update f i a i ≡ a
  update_self f i a = ground arith

  pub update_ne : (f : ℕ → A) (i j : ℕ) (a : A) → j ≢ i → update f i a j ≡ f j
  update_ne f i j a h = ground arith

  module _ (w : A → ℕ) where
    total-update_out :
        (n i : ℕ) (f : ℕ → A) (a : A) → n ≤ i → total w n (update f i a) ≡ total w n f
    unfolding total
    total-update_out zero i f a h = refl
    total-update_out (suc n) i f a h =
        ground (arith, total-update_out n i f a (omega arith), update_ne f i n a)

    -- The total changes by what the one thread that moves changes.
    pub total-update :
        (n i : ℕ) (f : ℕ → A) (a : A)
        → i < n
        → total w n (update f i a) + w (f i) ≡ total w n f + w a
    unfolding total
    total-update zero i f a h = absurd (omega arith)
    total-update (suc n) i f a h = elim (ℕ_discrete i n) [
      | yes last ↦ ground (arith, total-update_out n i f a, update_self f i a)
      | no before ↦ ground (arith, total-update n i f a, update_ne f i n a (λ e. before (sym e)))
    ]

    pub total_const : (n : ℕ) (a : A) → w a ≡ 0 → total w n (λ _. a) ≡ 0
    unfolding total
    total_const zero a h = refl
    total_const (suc n) a h = omega (arith, h, total_const n a h)

    pub total_zero : (n : ℕ) (f : ℕ → A) → ((i : ℕ) → i < n → w (f i) ≡ 0) → total w n f ≡ 0
    unfolding total
    total_zero zero f h = refl
    total_zero (suc n) f h =
        omega (arith, h n (omega arith), total_zero n f (λ i lt. h i (omega arith)))

    -- No thread weighs more than all together.
    pub total_member : (n i : ℕ) (f : ℕ → A) → i < n → w (f i) ≤ total w n f
    unfolding total
    total_member zero i f h = absurd (omega arith)
    total_member (suc n) i f h = elim (ℕ_discrete i n) [
      | yes last ↦ ground arith
      | no before ↦ omega (arith, total_member n i f (omega arith))
    ]

    total_pair : (n i j : ℕ) (f : ℕ → A) → i < j → j < n → w (f i) + w (f j) ≤ total w n f
    unfolding total
    total_pair zero i j f lt h = absurd (omega arith)
    total_pair (suc n) i j f lt h = elim (ℕ_discrete j n) [
      | yes last ↦ ground (arith, total_member n i f)
      | no before ↦ omega (arith, total_pair n i j f lt (omega arith))
    ]

    -- Two threads weigh no more than all together.
    pub total_two :
        (n i j : ℕ) (f : ℕ → A) → i < n → j < n → j ≢ i → w (f i) + w (f j) ≤ total w n f
    total_two n i j f lti ltj ne = elim (dec_lt i j) [
      | yes lt ↦ total_pair n i j f lt ltj
      | no ge ↦ omega (arith, total_pair n j i f (ground (arith, ge, ne)) lti)
    ]

    -- Where no other thread weighs anything, one thread is all the weight.
    pub total_alone :
        (n i : ℕ) (f : ℕ → A)
        → i < n
        → ((j : ℕ) → j < n → j ≢ i → w (f j) ≡ 0)
        → total w n f ≡ w (f i)
    unfolding total
    total_alone zero i f lt others = absurd (omega arith)
    total_alone (suc n) i f lt others = elim (ℕ_discrete i n) [
      | yes last ↦
          let rest =
            total_zero n f (λ j lt_j. others j (omega arith) (λ e. omega (arith, e, last))) in
          omega (arith, rest, ap (λ x. w (f x)) last)
      | no before ↦
          let rest = total_alone n i f (omega arith) (λ j lt_j. others j (omega arith)) in
          omega (arith, rest, others n (omega arith) (λ e. before (sym e)))
    ]

    -- A total that is not zero has a thread that weighs something.
    pub total_find : (n : ℕ) (f : ℕ → A) → 0 < total w n f → (i : ℕ) × (i < n) × (0 < w (f i))
    unfolding total
    total_find zero f h = absurd (omega arith)
    total_find (suc n) f h = elim (ℕ_discrete (w (f n)) 0) [
      | yes none_here ↦ let (i, lt, heavy) = total_find n f (omega arith) in (i, omega arith, heavy)
      | no here ↦ (n, omega arith, omega arith)
    ]

-- Either all indices below `n` have the one property, or one is found that has the other.
pub every_or {ℓ κ} :
    {P : ℕ → Type ℓ} {Q : ℕ → Type κ} (n : ℕ)
    → ((i : ℕ) → i < n → P i ⊎ Q i)
    → ((i : ℕ) → i < n → P i) ⊎ ((i : ℕ) × (i < n) × Q i)
every_or zero test = inl (λ i lt. absurd (omega arith))
every_or {P = P} (suc n) test = elim (every_or n (λ i lt. test i (omega arith))) [
  | inr (i, lt, q) ↦ inr (i, omega arith, q)
  | inl all ↦ elim (test n (omega arith)) [
    | inr q ↦ inr (n, omega arith, q)
    | inl p ↦
        inl (λ i lt. elim (ℕ_discrete i n) [
          | yes e ↦ subst P (sym e) p
          | no ne ↦ all i (omega arith)
        ])
  ]
]
