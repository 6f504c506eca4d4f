-- ===== src/MinHeap/Fields.antt =====
-- Labweek7/SLList_MinHeap.c, `swapHeapNode`: what is no link moves with its node.
use mathlib.Core.Path.{subst}
use native.Mathlib.Decide.{ℕ_discrete}
use operating_system_homewor.Prelude.{
  ℕ, ◌≡◌, ◌≢◌, refl, ◌∙◌, eqb_refl, Bool, Bool-cases, true, false, inl, inr, Option, none, some,
  arith, ◌==◌, if◌then◌else◌, update,
}
use operating_system_homewor.MinHeap.{
  Student, Students, set_pre, set_next, relink_next, relink_pre, at, swapped_list,
}

pub eqb_ne : (a b : ℕ) → a ≢ b → (a == b) ≡ false
eqb_ne a b ne = ground (arith, ne)

-- A place that is exchanged reads what the other one held.
abbrev pub from {ℓ} : {A : Type ℓ} → (ℕ → A) → ℕ → ℕ → ℕ → A
from f p c k = if c == k then f p else if p == k then f c else f k

pub if-field {ℓ} :
    {A : Type ℓ} (g : Student → A) (b d : Bool) (x y z : Student)
    → g (if b then x else if d then y else z) ≡ (if b then g x else if d then g y else g z)
if-field g true d x y z = refl
if-field g false true x y z = refl
if-field g false false x y z = refl

module _ {ℓ} {A : Type ℓ} (g : Student → A)
    (no_pre : (s : Student) (v : Option ℕ) → g (record s { pre_node = v }) ≡ g s)
    (no_next : (s : Student) (v : Option ℕ) → g (record s { next_node = v }) ≡ g s) where
  set_pre-field : (l : Students) (i k : ℕ) (v : Option ℕ) → g (set_pre l i v k) ≡ g (l k)
  set_pre-field l i k v = elim (ℕ_discrete i k) [
    | yes e ↦ subst (λ m. g (set_pre l i v m) ≡ g (l m)) e (rw (eqb_refl i) (no_pre (l i) v))
    | no ne ↦ rw (eqb_ne i k ne) refl
  ]

  set_next-field : (l : Students) (i k : ℕ) (v : Option ℕ) → g (set_next l i v k) ≡ g (l k)
  set_next-field l i k v = elim (ℕ_discrete i k) [
    | yes e ↦ subst (λ m. g (set_next l i v m) ≡ g (l m)) e (rw (eqb_refl i) (no_next (l i) v))
    | no ne ↦ rw (eqb_ne i k ne) refl
  ]

  relink_next-field :
      (l : Students) (o : Option ℕ) (other v k : ℕ) → g (relink_next l o other v k) ≡ g (l k)
  unfolding relink_next
  relink_next-field l none other v k = refl
  relink_next-field l (some i) other v k = elim (Bool-cases (i == other)) [
    | inl e ↦ rw e refl
    | inr e ↦ rw e (set_next-field l i k (some v))
  ]

  relink_pre-field :
      (l : Students) (o : Option ℕ) (other v k : ℕ) → g (relink_pre l o other v k) ≡ g (l k)
  unfolding relink_pre
  relink_pre-field l none other v k = refl
  relink_pre-field l (some i) other v k = elim (Bool-cases (i == other)) [
    | inl e ↦ rw e refl
    | inr e ↦ rw e (set_pre-field l i k (some v))
  ]

  if-unchanged :
      (b : Bool) (l m : Students) (k : ℕ) → g (m k) ≡ g (l k) → g ((if b then m else l) k) ≡ g (l k)
  if-unchanged true l m k e = e
  if-unchanged false l m k e = refl

  -- What is no link moves with its node.
  pub field-swapped :
      (l : Students) (p c k : ℕ) → g (swapped_list l p c k) ≡ from (λ i. g (l i)) p c k
  unfolding swapped_list
  field-swapped l p c k =
      let l1 : Students = update (update l p (l c)) c (l p) in
      let l2 = relink_next l1 (l p).pre_node c c in
      let l3 = relink_pre l2 (l p).next_node c c in
      let l4 = relink_next l3 (l c).pre_node p p in
      let l5 = relink_pre l4 (l c).next_node p p in
      let m6 = set_pre (set_next l5 p (some c)) c (some p) in
      let l6 : Students = if at (l p).pre_node c then m6 else l5 in
      let m7 = set_next (set_pre l6 p (some c)) c (some p) in
      if-unchanged (at (l p).next_node c) l6 m7 k
        (set_next-field (set_pre l6 p (some c)) c k (some p) ∙ set_pre-field l6 p k (some c))
      ∙ if-unchanged (at (l p).pre_node c) l5 m6 k
          (set_pre-field (set_next l5 p (some c)) c k (some p) ∙ set_next-field l5 p k (some c))
      ∙ relink_pre-field l4 (l c).next_node p p k
      ∙ relink_next-field l3 (l c).pre_node p p k
      ∙ relink_pre-field l2 (l p).next_node c c k
      ∙ relink_next-field l1 (l p).pre_node c c k
      ∙ if-field g (c == k) (p == k) (l p) (l c) (l k)
