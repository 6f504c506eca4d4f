-- ===== src/Banker/Check.antt =====
-- Labweek15/alg.17-1-bankers-5.c: `safecheck` decides whether the pretended state is safe.
use operating_system_homewor.Prelude.{
  ℕ, zero, suc, ◌<◌, ◌≡◌, refl, ◌∙◌, Bool, true, false, none, some, List, [], ◌∷◌, ◌++◌, arith,
  append-nil, append_assoc, length, update, remove_first, length-remove_first, inl, inr,
  Option-cases,
}
use operating_system_homewor.Prelude.Int.{pos, ◌≤ℤ◌}
use operating_system_homewor.Banker.{
  process_num, resource_num, Resources, Bank, pick, release, safe_loop, safecheck, pretended_need,
  pretended_allocation,
}
use operating_system_homewor.Banker.Safety.{
  Finishes, Finishes-first, Finishes-count, Finishes-length, unfinished, unfinished-update,
  finished-of-zero, unfinished_start,
}
use operating_system_homewor.Banker.Search.{pick-some, pick-none-stuck}

none-ne-some : (l : List ℕ) → none ≡ some l → ⊥
none-ne-some l h = cc

module _ (need allocation : ℕ → Resources) where
  -- What the loop adds to `seq` is an order in which the open processes finish.
  safe_loop_sound :
      (n : ℕ) (f : ℕ → Bool) (w : Resources) (seq out : List ℕ)
      → unfinished process_num f ≡ n
      → safe_loop n need allocation f w seq ≡ some out
      → (js : List ℕ) × (out ≡ seq ++ js) × Finishes need allocation f w js
  unfolding safe_loop
  safe_loop_sound zero f w seq out e h = ([], rw append-nil (cc), finished-of-zero process_num f e)
  safe_loop_sound (suc n) f w seq out e h = elim (Option-cases (pick process_num 0 need f w)) [
    | inl nobody ↦ absurd (none-ne-some out (rw (nobody, safe_loop) at h))
    | inr (j, found) ↦
        let (lt, open_, ok) = pick-some need f w j found in
        let (js, split, done) =
          safe_loop_sound n (update f j true) (release w (allocation j)) (seq ++ j ∷ []) out
            (omega (arith, unfinished-update process_num f j lt open_))
            (rw (found, safe_loop) at h) in
        (j ∷ js, split ∙ append_assoc seq (j ∷ []) js, (lt, open_, ok, done))
  ]

  -- If the open processes can finish in some order, the loop finds one.
  safe_loop_complete :
      (n : ℕ) (f : ℕ → Bool) (w : Resources) (seq js : List ℕ)
      → ((j k : ℕ) → j < process_num → k < resource_num → pos 0 ≤ℤ allocation j k)
      → length js ≡ n
      → Finishes need allocation f w js
      → (out : List ℕ) × (safe_loop n need allocation f w seq ≡ some out)
  unfolding safe_loop
  safe_loop_complete zero f w seq js nonneg e h = (seq, refl)
  safe_loop_complete (suc n) f w seq [] nonneg e h = absurd (omega arith)
  safe_loop_complete (suc n) f w seq (i ∷ js) nonneg e h =
      elim (Option-cases (pick process_num 0 need f w)) [
        | inl nobody ↦ absurd (pick-none-stuck need f w i nobody h.0 h.1 h.2)
        | inr (j, found) ↦
            let (lt, open_, ok) = pick-some need f w j found in
            rw (found, safe_loop)
              (safe_loop_complete n (update f j true) (release w (allocation j)) (seq ++ j ∷ [])
                (remove_first j (i ∷ js)) nonneg
                (omega (
                  arith,
                  length-remove_first j (i ∷ js)
                      (Finishes-count need allocation (i ∷ js) f w j lt open_ h),
                ))
                (Finishes-first need allocation (i ∷ js) f w w j nonneg lt open_
                  (λ k l. omega arith) h))
      ]

-- A sequence that `safecheck` reports is an order in which all processes can finish, in the state
-- where `pro` has got `request` and `work` is available; it names each process once, since a
-- process in it has not finished before and all have in the end.
pub safecheck_sound :
    (b : Bank) (pro : ℕ) (request work : Resources) (seq : List ℕ)
    → safecheck b pro request work ≡ some seq
    → Finishes
        (pretended_need b pro request)
        (pretended_allocation b pro request)
        (λ _. false)
        work
        seq
unfolding safecheck
safecheck_sound b pro request work seq h =
    let (js, same, done) =
      safe_loop_sound (pretended_need b pro request) (pretended_allocation b pro request)
        process_num (λ _. false) work [] seq unfinished_start h in
    rw same done

-- The check fails only if there is no such order at all: if no allocation is negative and the
-- processes can finish in some order, it reports one. It need not be the same order.
pub safecheck_complete :
    (b : Bank) (pro : ℕ) (request work : Resources) (js : List ℕ)
    → ((j k : ℕ)
        → j < process_num
        → k < resource_num
        → pos 0 ≤ℤ pretended_allocation b pro request j k)
    → Finishes
        (pretended_need b pro request)
        (pretended_allocation b pro request)
        (λ _. false)
        work
        js
    → (seq : List ℕ) × (safecheck b pro request work ≡ some seq)
unfolding safecheck
safecheck_complete b pro request work js nonneg h =
    safe_loop_complete (pretended_need b pro request) (pretended_allocation b pro request)
      process_num (λ _. false) work [] js nonneg
      (omega (
        arith,
        Finishes-length (pretended_need b pro request) (pretended_allocation b pro request) js
            (λ _. false) work h,
        unfinished_start,
      ))
      h
