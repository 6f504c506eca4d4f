-- ===== src/Banker/Search.antt =====
-- Labweek15/alg.17-1-bankers-5.c: what the two inner loops of `safecheck` answer.
use operating_system_homewor.Prelude.{
  ℕ, zero, suc, ◌+◌, ◌≤◌, ◌<◌, ◌≡◌, refl, Bool, true, false, not, ◌&&◌, inl, inr, Bool-cases, none,
  some, arith,
}
use native.Mathlib.Decide.{ℕ_discrete}
use operating_system_homewor.Prelude.Int.{ℤ, ◌≤ℤ◌, leb_ℤ}
use operating_system_homewor.Banker.{process_num, resource_num, Resources, fits_below, fits, pick}
use operating_system_homewor.Banker.Safety.{Within}

leb_ℤ→≤ℤ : (a b : ℤ) → leb_ℤ a b ≡ true → a ≤ℤ b
leb_ℤ→≤ℤ a b h = ground arith

≤ℤ→leb_ℤ : (a b : ℤ) → a ≤ℤ b → leb_ℤ a b ≡ true
≤ℤ→leb_ℤ a b h = ground arith

fits_below_sound :
    (n : ℕ) (a b : Resources) → fits_below n a b ≡ true → (k : ℕ) → k < n → a k ≤ℤ b k
unfolding fits_below
fits_below_sound zero a b h k lt = absurd (omega arith)
fits_below_sound (suc n) a b h k lt =
    let here : leb_ℤ (a n) (b n) ≡ true = ground arith in
    let rest : fits_below n a b ≡ true = ground arith in
    elim (ℕ_discrete k n) [
      | yes e ↦ rw e (leb_ℤ→≤ℤ (a n) (b n) here)
      | no ne ↦ fits_below_sound n a b rest k (omega arith)
    ]

fits_below_complete :
    (n : ℕ) (a b : Resources) → ((k : ℕ) → k < n → a k ≤ℤ b k) → fits_below n a b ≡ true
unfolding fits_below
fits_below_complete zero a b h = refl
fits_below_complete (suc n) a b h = ground (
  arith,
  ≤ℤ→leb_ℤ (a n) (b n) (h n (omega arith)),
  fits_below_complete n a b (λ k lt. h k (omega arith)),
)

pub fits→Within : (a b : Resources) → fits a b ≡ true → Within a b
fits→Within a b h = fits_below_sound resource_num a b h

pub Within→fits : (a b : Resources) → Within a b → fits a b ≡ true
Within→fits a b h = fits_below_complete resource_num a b h

some-ne-none : (j : ℕ) → some j ≡ none → ⊥
some-ne-none j h = cc

true-ne-false : true ≡ false → ⊥
true-ne-false h = cc

module _ (need : ℕ → Resources) (finish : ℕ → Bool) (work : Resources) where
  abbrev candidate : ℕ → Bool
  candidate j = not (finish j) && fits (need j) work

  -- The loop answers a candidate of its range.
  pick-range : (n j i : ℕ) → pick n j need finish work ≡ some i → (i < j + n) × (candidate i ≡ true)
  unfolding pick
  pick-range zero j i h = cc
  pick-range (suc n) j i h = elim (Bool-cases (candidate j)) [
    | inl here ↦
        let e : some j ≡ some i = rw here at h in
        let same : j ≡ i = cc in (omega arith, rw (← same) here)
    | inr other ↦ let (below, good) = pick-range n (j + 1) i (rw other at h) in (omega arith, good)
  ]

  -- It answers none only if there is none.
  pick-none :
      (n j i : ℕ) → pick n j need finish work ≡ none → j ≤ i → i < j + n → candidate i ≡ false
  unfolding pick
  pick-none zero j i h ge lt = absurd (omega arith)
  pick-none (suc n) j i h ge lt = elim (Bool-cases (candidate j)) [
    | inl here ↦ absurd (some-ne-none j (rw here at h))
    | inr other ↦ elim (ℕ_discrete j i) [
      | yes e ↦ rw (← e) other
      | no ne ↦ pick-none n (j + 1) i (rw other at h) (omega arith) (omega arith)
    ]
  ]

  -- `pick` over all processes answers one that has not finished and whose need fits.
  pub pick-some :
      (i : ℕ)
      → pick process_num 0 need finish work ≡ some i
      → (i < process_num) × (finish i ≡ false) × Within (need i) work
  pick-some i h =
      let (lt, good) = pick-range process_num 0 i h in
      (lt, ground arith, fits→Within (need i) work (ground arith))

  -- It answers none only if no unfinished process fits.
  pub pick-none-stuck :
      (i : ℕ)
      → pick process_num 0 need finish work ≡ none
      → i < process_num
      → finish i ≡ false
      → ¬ Within (need i) work
  pick-none-stuck i h lt open_ ok =
      let bad = pick-none process_num 0 i h (omega arith) lt in
      let good = Within→fits (need i) work ok in true-ne-false (ground arith)
