-- ===== src/MinHeap/Find/Reached.antt =====
-- Labweek7/SLList_MinHeap.c, the searches: every place in use is looked at.
use native.Mathlib.Decide.{ℕ_discrete}
use mathlib.Core.Path.{subst}
use operating_system_homewor.Prelude.{
  ℕ, zero, suc, ◌+◌, ◌-◌, ◌*◌, ◌/◌, ◌<◌, ◌≤◌, ◌≡◌, refl, sym, ◌⊎◌, inl, inr, Bool, Bool-cases,
  Option-cases, true, false, arith, ltb, leb, if◌then◌else◌, Option, none, some, leb→le, lt→ltb,
}
use operating_system_homewor.MinHeap.{Student, Heap}
use operating_system_homewor.MinHeap.Sift.{Child}
use operating_system_homewor.MinHeap.Push.{parent-Child}
use operating_system_homewor.MinHeap.Find.{first_of, find_test}

-- Place `i` is in the subtree of place `c`.
pub data Below : ℕ → ℕ → Type 0 where
  here : {c : ℕ} → Below c c
  deeper : {c d i : ℕ} → Child c d → Below d i → Below c i

Below-Child : (c q i : ℕ) → Below c q → Child q i → Below c i
Below-Child c q i here child = deeper child here
Below-Child c q i (deeper {d = d} e b) child = deeper e (Below-Child d q i b child)

-- The root is above all.
root-Below : (fuel i : ℕ) → i < fuel → Below 0 i
root-Below zero i lt = absurd (omega arith)
root-Below (suc fuel) i lt = elim (ℕ_discrete i 0) [
  | yes e ↦ subst (Below 0) (sym e) here
  | no ne ↦
      Below-Child 0 ((i - 1) / 2) i (root-Below fuel ((i - 1) / 2) (omega (arith, ne)))
        (parent-Child i (omega (arith, ne)))
]

Below-le : (c i : ℕ) → Below c i → c ≤ i
Below-le c i here = omega arith
Below-le c i (deeper {d = d} child b) = ground (arith, child, Below-le d i b)

taken : (b : Bool) (o : Option ℕ) → b ≡ true → (if b then o else none) ≡ none → o ≡ none
taken true o e h = h
taken false o e h = absurd cc

module _ (test : Student → Bool) (h : Heap) where
  abbrev Hit : Option ℕ → Type 0
  Hit none = Unit
  Hit (some i) = (i < h.size) × (test (h.list i) ≡ true)

  Hit-if : (b : Bool) (o : Option ℕ) → Hit o → Hit (if b then o else none)
  Hit-if true o hit = hit
  Hit-if false o hit = tt

  first_of-Hit : (a b : Option ℕ) → Hit a → Hit b → Hit (first_of a b)
  unfolding first_of
  first_of-Hit none b ha hb = hb
  first_of-Hit (some i) b ha hb = ha

  find_test-Hit : (fuel cur : ℕ) → Hit (find_test fuel test h cur)
  unfolding find_test
  find_test-Hit zero cur = tt
  find_test-Hit (suc fuel) cur = elim (Bool-cases (leb h.size cur)) [
    | inl beyond ↦ rw (beyond, find_test) tt
    | inr inside ↦ elim (Bool-cases (test (h.list cur))) [
      | inl passes ↦ rw (inside, passes, find_test) (ground (arith, inside), passes)
      | inr other ↦
          rw (inside, other, find_test)
            (first_of-Hit _ _
              (Hit-if (ltb (cur * 2 + 1) h.size) _ (find_test-Hit fuel (cur * 2 + 1)))
              (Hit-if (ltb (cur * 2 + 2) h.size) _ (find_test-Hit fuel (cur * 2 + 2))))
    ]
  ]

  first_of-none : (a b : Option ℕ) → first_of a b ≡ none → (a ≡ none) × (b ≡ none)
  unfolding first_of
  first_of-none none b e = (refl, e)
  first_of-none (some i) b e = absurd cc

  find_test-none :
      (fuel cur i : ℕ)
      → h.size < cur + fuel
      → find_test fuel test h cur ≡ none
      → Below cur i
      → i < h.size
      → test (h.list i) ≡ false
  unfolding find_test
  find_test-none zero cur i enough e below lt =
      absurd (let le = Below-le cur i below in omega arith)
  find_test-none (suc fuel) cur i enough e below lt = elim (Bool-cases (leb h.size cur)) [
    | inl beyond ↦
        absurd (let le = Below-le cur i below in let out = leb→le h.size cur beyond in omega arith)
    | inr inside ↦ elim (Bool-cases (test (h.list cur))) [
      | inl passes ↦ absurd (let e2 = rw (inside, passes, find_test) at e in cc)
      | inr other ↦
          let (left, right) = first_of-none _ _ (rw (inside, other, find_test) at e) in
          by_place fuel cur i enough other left right below lt (find_test-none fuel)
    ]
  ]
    where
      by_place :
          (fuel cur i : ℕ)
          → h.size < cur + suc fuel
          → test (h.list cur) ≡ false
          → (if ltb (cur * 2 + 1) h.size then find_test fuel test h (cur * 2 + 1) else none) ≡ none
          → (if ltb (cur * 2 + 2) h.size then find_test fuel test h (cur * 2 + 2) else none) ≡ none
          → Below cur i
          → i < h.size
          → ((d j : ℕ)
              → h.size < d + fuel
              → find_test fuel test h d ≡ none
              → Below d j
              → j < h.size
              → test (h.list j) ≡ false)
          → test (h.list i) ≡ false
      by_place fuel cur i enough other left right here lt rec = other
      by_place fuel cur i enough other left right (deeper {d = d} child b) lt rec =
          let le = Below-le d i b in
          rec d i (ground (arith, child))
            (elim child [
              | inl e ↦
                  subst (λ k. find_test fuel test h k ≡ none) (omega (arith, e))
                    (taken (ltb (cur * 2 + 1) h.size) (find_test fuel test h (cur * 2 + 1))
                      (lt→ltb (cur * 2 + 1) h.size (omega (arith, e, le))) left)
              | inr e ↦
                  subst (λ k. find_test fuel test h k ≡ none) (omega (arith, e))
                    (taken (ltb (cur * 2 + 2) h.size) (find_test fuel test h (cur * 2 + 2))
                      (lt→ltb (cur * 2 + 2) h.size (omega (arith, e, le))) right)
            ])
            b lt

  -- For every test of a student, so for the number, the name or both: the search from the root with
  -- the fuel that the operations give it finds a student in use that passes, or there is none.
  pub find_test-found :
      ((find_test (h.size + 1) test h 0 ≡ none) × ((i : ℕ) → i < h.size → test (h.list i) ≡ false))
      ⊎ ((i : ℕ) × (find_test (h.size + 1) test h 0 ≡ some i)
          × (i < h.size)
          × (test (h.list i) ≡ true))
  find_test-found = elim (Option-cases (find_test (h.size + 1) test h 0)) [
    | inl e ↦ inl (
      e,
      λ i lt.
          find_test-none (h.size + 1) 0 i (omega arith) e (root-Below (i + 1) i (omega arith)) lt,
    )
    | inr (i, e) ↦
        let hit : Hit (some i) = subst Hit e (find_test-Hit (h.size + 1) 0) in
        inr (i, e, hit.0, hit.1)
  ]
