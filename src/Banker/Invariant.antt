-- ===== src/Banker/Invariant.antt =====
-- Labweek15/alg.17-1-bankers-5.c: what the banker keeps true from the start of `main` on.
use operating_system_homewor.Prelude.{
  ℕ, zero, suc, ◌≤◌, ◌<◌, ◌≡◌, refl, ap, ◌∙◌, List, [], ◌∷◌, arith, update, inl, inr, Bool-cases,
  ltb, ◌==◌, if◌then◌else◌, eqb→eq, ltb→lt, All,
}
use native.Mathlib.Decide.{ℕ_discrete}
use operating_system_homewor.Prelude.Int.{
  ℤ, pos, negsuc, pos_part, neg_part, ◌+ℤ◌, ◌-ℤ◌, +ℤ_parts, -ℤ_parts, int_laws,
}
use operating_system_homewor.Banker.{
  process_num, resource_num, Resources, Bank, more, grant, resource_request, subtract_all, init,
  serve_commands,
}
use operating_system_homewor.Banker.Safety.{Within, Safe}
use operating_system_homewor.Banker.Request.{
  NonNegative, Grantable, Grantable-of_granted, resource_request_state,
}

-- What the first `n` processes hold of one resource type.
unfoldable pub held : ℕ → (ℕ → Resources) → ℕ → ℤ
held zero a k = pos 0
held (suc n) a k = held n a k +ℤ a n k

held-update_of_le :
    (n : ℕ) (a : ℕ → Resources) (i : ℕ) (v : Resources) (k : ℕ)
    → n ≤ i
    → held n (update a i v) k ≡ held n a k
unfolding held
held-update_of_le zero a i v k le = refl
held-update_of_le (suc n) a i v k le = ground (arith, held-update_of_le n a i v k)

held-update :
    (n : ℕ) (a : ℕ → Resources) (i : ℕ) (v : Resources) (k : ℕ)
    → i < n
    → held n (update a i v) k +ℤ a i k ≡ held n a k +ℤ v k
unfolding held
held-update zero a i v k lt = absurd (omega arith)
held-update (suc n) a i v k lt = elim (ℕ_discrete i n) [
  | yes e ↦
      let same : update a i v n k ≡ v k = ground arith in
      rw (same, held-update_of_le n a i v k (omega arith), e)
        (omega (int_laws, +ℤ_parts (held n a k) (v k), +ℤ_parts (held n a k) (a n k)))
  | no ne ↦
      let same : update a i v n k ≡ a n k = ground arith in
      rw same (
        omega (
          int_laws,
          ap pos_part (held-update n a i v k (omega arith)),
          ap neg_part (held-update n a i v k (omega arith)),
        ))
]

-- A state in which nobody holds or lacks a negative amount, each process may still ask for what its
-- claim leaves, all that exists is either held or available, and the processes can all finish.
pub record IsSound (max : ℕ → Resources) (resource : Resources) (b : Bank) : Type 0 where
  pub holds : NonNegative b.allocation
  pub lacks : NonNegative b.need
  pub spare : Within (λ _. pos 0) b.available
  pub claimed :
      (j k : ℕ) → j < process_num → k < resource_num → b.need j k +ℤ b.allocation j k ≡ max j k
  pub conserved :
      (k : ℕ) → k < resource_num → b.available k +ℤ held process_num b.allocation k ≡ resource k
  pub safe : Safe b

module _ (b : Bank) (pro : ℕ) (request : Resources) (j k : ℕ) (lk : k < resource_num) where
  need-grant_eq :
      (grant b pro request).need j k ≡ (if pro == j then b.need pro k -ℤ request k else b.need j k)
  unfolding grant
  need-grant_eq = ground arith

  allocation-grant_eq :
      (grant b pro request).allocation j k
      ≡ (if pro == j then b.allocation pro k +ℤ request k else b.allocation j k)
  unfolding grant
  allocation-grant_eq = ground arith

available-grant_eq :
    (b : Bank) (pro : ℕ) (request : Resources) (k : ℕ)
    → k < resource_num
    → (grant b pro request).available k ≡ b.available k -ℤ request k
unfolding grant
available-grant_eq b pro request k lk = ground arith

-- What is granted moves from the need to the allocation, and from the pool to the processes.
shift : (a r c : ℤ) → (a -ℤ r) +ℤ (c +ℤ r) ≡ a +ℤ c
shift a r c = omega int_laws

move :
    (available request before after own resource : ℤ)
    → after +ℤ own ≡ before +ℤ (own +ℤ request)
    → available +ℤ before ≡ resource
    → (available -ℤ request) +ℤ after ≡ resource
move available request before after own resource e h =
    omega (int_laws, ap pos_part e, ap neg_part e, ap pos_part h, ap neg_part h)

claim-grant :
    (b : Bank) (pro : ℕ) (request : Resources) (j k : ℕ)
    → k < resource_num
    → (grant b pro request).need j k +ℤ (grant b pro request).allocation j k
      ≡ b.need j k +ℤ b.allocation j k
claim-grant b pro request j k lk = elim (Bool-cases (pro == j)) [
  | inl here ↦
      rw
        (
          need-grant_eq b pro request j k lk,
          allocation-grant_eq b pro request j k lk,
          here,
          eqb→eq pro j here,
        )
        (shift (b.need j k) (request k) (b.allocation j k))
  | inr other ↦
      rw (need-grant_eq b pro request j k lk, allocation-grant_eq b pro request j k lk, other)
]

held-grant :
    (b : Bank) (pro : ℕ) (request : Resources) (k : ℕ)
    → pro < process_num
    → k < resource_num
    → held process_num (grant b pro request).allocation k +ℤ b.allocation pro k
      ≡ held process_num b.allocation k +ℤ (b.allocation pro k +ℤ request k)
unfolding grant
held-grant b pro request k lt lk =
    let given : more (b.allocation pro) request k ≡ b.allocation pro k +ℤ request k =
      ground arith in
    rw (← given) (held-update process_num b.allocation pro (more (b.allocation pro) request) k lt)

module _ (max : ℕ → Resources) (resource : Resources) where
  grant-IsSound :
      (b : Bank) (pro : ℕ) (request : Resources)
      → pro < process_num
      → Within (λ _. pos 0) request
      → Grantable b pro request
      → IsSound max resource b
      → IsSound max resource (grant b pro request)
  grant-IsSound b pro request lt asks (small, enough, safe) s = record {
    holds = λ j k lj lk. ground (
      arith,
      allocation-grant_eq b pro request j k lk,
      s.holds j k lj lk,
      asks k lk,
      +ℤ_parts (b.allocation pro k) (request k),
      s.holds pro k lt lk,
    );
    lacks = λ j k lj lk. ground (
      arith,
      need-grant_eq b pro request j k lk,
      s.lacks j k lj lk,
      small k lk,
      -ℤ_parts (b.need pro k) (request k),
    );
    spare = λ k lk. ground (
      arith,
      available-grant_eq b pro request k lk,
      enough k lk,
      -ℤ_parts (b.available k) (request k),
    );
    claimed = λ j k lj lk. claim-grant b pro request j k lk ∙ s.claimed j k lj lk;
    conserved = λ k lk. rw (available-grant_eq b pro request k lk) (
        move _ (request k) _ _ (b.allocation pro k) _ (held-grant b pro request k lt lk)
          (s.conserved k lk));
    safe = safe;
  }

  request-IsSound :
      (b : Bank) (pro : ℕ) (request : Resources)
      → pro < process_num
      → Within (λ _. pos 0) request
      → IsSound max resource b
      → IsSound max resource (resource_request pro request b).1
  request-IsSound b pro request lt asks s =
      rw (resource_request_state b pro request)
        (elim (Bool-cases (resource_request pro request b).0) [
          | inl granted ↦
              rw granted
                (grant-IsSound b pro request lt asks (Grantable-of_granted b pro request granted) s)
          | inr denied ↦ rw denied s
        ])

  -- Whatever processes and non-negative requests the user types, in whatever order, the banker's
  -- state stays sound: every resource that exists is either held or available, nobody holds a
  -- negative amount or more than its claim, and the processes can all finish in some order.
  pub serve_commands-IsSound :
      (commands : List (ℤ × Resources)) (b : Bank)
      → All (λ c. Within (λ _. pos 0) c.1) commands
      → IsSound max resource b
      → IsSound max resource (serve_commands commands b)
  unfolding serve_commands
  serve_commands-IsSound [] b asks s = s
  serve_commands-IsSound ((negsuc n, request) ∷ commands) b asks s = s
  serve_commands-IsSound ((pos pro, request) ∷ commands) b asks s =
      serve_commands-IsSound commands _ asks.1 (elim (Bool-cases (ltb pro process_num)) [
        | inl inside ↦
            rw inside (request-IsSound b pro request (ltb→lt pro process_num inside) asks.0 s)
        | inr outside ↦ rw outside s
      ])

subtract_all-held :
    (n : ℕ) (a : ℕ → Resources) (resource : Resources) (k : ℕ)
    → subtract_all n a resource k +ℤ held n a k ≡ resource k
unfolding subtract_all held
subtract_all-held zero a resource k = omega int_laws
subtract_all-held (suc n) a resource k = omega (
  int_laws,
  ap pos_part (subtract_all-held n a resource k),
  ap neg_part (subtract_all-held n a resource k),
)

-- `main` starts in a sound state, if no initial allocation is negative or above its claim, if the
-- allocations leave nothing negative, and if the processes can all finish from there.
pub init-IsSound :
    (max : ℕ → Resources) (resource : Resources) (allocation : ℕ → Resources)
    → NonNegative allocation
    → ((j : ℕ) → j < process_num → Within (allocation j) (max j))
    → Within (held process_num allocation) resource
    → Safe (init max resource allocation)
    → IsSound max resource (init max resource allocation)
unfolding init
init-IsSound max resource allocation holds small fit safe = record {
  holds = holds;
  lacks = λ j k lj lk. omega (int_laws, small j lj k lk);
  spare = λ k lk. omega (
    int_laws,
    fit k lk,
    ap pos_part (subtract_all-held process_num allocation resource k),
    ap neg_part (subtract_all-held process_num allocation resource k),
  );
  claimed = λ j k lj lk. omega int_laws;
  conserved = λ k lk. subtract_all-held process_num allocation resource k;
  safe = safe;
}
