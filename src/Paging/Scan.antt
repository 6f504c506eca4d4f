-- ===== src/Paging/Scan.antt =====
-- Labweek17/page_replacement.c: what the search through the frames finds.
use operating_system_homewor.Prelude.{
  ℕ, zero, suc, ◌+◌, ◌<◌, ◌≤◌, ◌≡◌, sym, true, false, arith, inl, inr, Bool-cases,
}
use mathlib.Core.Path.{subst}
use native.Mathlib.Decide.{ℕ_discrete}
use operating_system_homewor.Paging.{frame_size, Frames, holds, find_page}

-- The page is in one of the frames.
abbrev pub Resident : Frames → ℕ → Type 0
Resident frames p = (j : ℕ) × (j < frame_size) × (holds (frames j) p ≡ true)

pub find_page-found :
    (n j : ℕ) (frames : Frames) (p : ℕ)
    → find_page n j frames p < j + n
    → holds (frames (find_page n j frames p)) p ≡ true
unfolding find_page
find_page-found zero j frames p lt = absurd (omega arith)
find_page-found (suc n) j frames p lt = elim (Bool-cases (holds (frames j) p)) [
  | inl here ↦ rw (here, find_page) here
  | inr other ↦
      rw (other, find_page)
        (find_page-found n (j + 1) frames p (let lt2 = rw (other, find_page) at lt in omega arith))
]

pub find_page-range :
    (n j : ℕ) (frames : Frames) (p : ℕ)
    → (j ≤ find_page n j frames p) × (find_page n j frames p ≤ j + n)
unfolding find_page
find_page-range zero j frames p = (omega arith, omega arith)
find_page-range (suc n) j frames p = let ih = find_page-range n (j + 1) frames p in ground (arith)

-- Nothing before the place where the search stops holds the page.
pub find_page-absent :
    (n j : ℕ) (frames : Frames) (p i : ℕ)
    → j ≤ i
    → i < find_page n j frames p
    → holds (frames i) p ≡ false
unfolding find_page
find_page-absent zero j frames p i ge lt = absurd (omega arith)
find_page-absent (suc n) j frames p i ge lt = elim (Bool-cases (holds (frames j) p)) [
  | inl here ↦ absurd (let lt2 = rw (here, find_page) at lt in omega arith)
  | inr other ↦ elim (ℕ_discrete i j) [
    | yes e ↦ subst (λ k. holds (frames k) p ≡ false) (sym e) other
    | no ne ↦
        find_page-absent n (j + 1) frames p i (omega (arith, ne))
          (let lt2 = rw (other, find_page) at lt in lt2)
  ]
]
