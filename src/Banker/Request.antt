-- ===== src/Banker/Request.antt =====
-- Labweek15/alg.17-1-bankers-5.c: `resource_request` grants exactly what is safe to grant.
use operating_system_homewor.Prelude.{
  ℕ, ◌<◌, ◌≡◌, ◌↔◌, refl, sym, ap, true, false, List, arith, inl, inr, Bool-cases, Option-cases,
  ◌==◌, if◌then◌else◌,
}
use operating_system_homewor.Prelude.Int.{pos, ◌≤ℤ◌, +ℤ_parts}
use operating_system_homewor.Banker.{
  process_num, resource_num, Resources, Bank, fits, less, safecheck, pretended_need,
  pretended_allocation, grant, resource_request,
}
use operating_system_homewor.Banker.Safety.{Within, Finishes, Finishes-congr, Safe}
use operating_system_homewor.Banker.Search.{fits→Within, Within→fits}
use operating_system_homewor.Banker.Check.{safecheck_sound, safecheck_complete}

need-grant :
    (b : Bank) (pro : ℕ) (request : Resources) (j k : ℕ)
    → k < resource_num
    → pretended_need b pro request j k ≡ (grant b pro request).need j k
unfolding grant
need-grant b pro request j k lt = ground arith

allocation-grant :
    (b : Bank) (pro : ℕ) (request : Resources) (j k : ℕ)
    → k < resource_num
    → pretended_allocation b pro request j k ≡ (grant b pro request).allocation j k
unfolding grant
allocation-grant b pro request j k lt = ground arith

available-grant :
    (b : Bank) (pro : ℕ) (request : Resources) (k : ℕ)
    → k < resource_num
    → less b.available request k ≡ (grant b pro request).available k
unfolding grant
available-grant b pro request k lt = refl

-- The state that the check pretends is the one that a grant makes.
Finishes-grant :
    (b : Bank) (pro : ℕ) (request : Resources) (js : List ℕ)
    → Finishes
        (pretended_need b pro request)
        (pretended_allocation b pro request)
        (λ _. false)
        (less b.available request)
        js
    → Finishes
        (grant b pro request).need
        (grant b pro request).allocation
        (λ _. false)
        (grant b pro request).available
        js
Finishes-grant b pro request js h =
    Finishes-congr _ _ _ _ js _ _ _ (need-grant b pro request) (allocation-grant b pro request)
      (available-grant b pro request) h

Finishes-pretended :
    (b : Bank) (pro : ℕ) (request : Resources) (js : List ℕ)
    → Finishes
        (grant b pro request).need
        (grant b pro request).allocation
        (λ _. false)
        (grant b pro request).available
        js
    → Finishes
        (pretended_need b pro request)
        (pretended_allocation b pro request)
        (λ _. false)
        (less b.available request)
        js
Finishes-pretended b pro request js h =
    Finishes-congr _ _ _ _ js _ _ _ (λ j k lt. sym (need-grant b pro request j k lt))
      (λ j k lt. sym (allocation-grant b pro request j k lt))
      (λ k lt. sym (available-grant b pro request k lt)) h

-- No process and no pool holds a negative amount.
abbrev pub NonNegative : (ℕ → Resources) → Type 0
NonNegative a = (j k : ℕ) → j < process_num → k < resource_num → pos 0 ≤ℤ a j k

pub pretended-NonNegative :
    (b : Bank) (pro : ℕ) (request : Resources)
    → NonNegative b.allocation
    → Within (λ _. pos 0) request
    → pro < process_num
    → NonNegative (pretended_allocation b pro request)
pretended-NonNegative b pro request holds asks lt j k lj lk = elim (Bool-cases (j == pro)) [
  | inl here ↦
      rw here
        (omega (arith, holds pro k lt lk, asks k lk, +ℤ_parts (b.allocation pro k) (request k)))
  | inr other ↦ rw other (holds j k lj lk)
]

-- What a request asks for: no more than the process still needs and the pool has, and that the
-- processes can all finish after it.
abbrev pub Grantable : Bank → ℕ → Resources → Type 0
Grantable b pro request =
    Within request (b.need pro) × Within request b.available × Safe (grant b pro request)

false-ne-true : false ≡ true → ⊥
false-ne-true h = cc

pub Grantable-of_granted :
    (b : Bank) (pro : ℕ) (request : Resources)
    → (resource_request pro request b).0 ≡ true
    → Grantable b pro request
unfolding resource_request
Grantable-of_granted b pro request h = elim (Bool-cases (fits request (b.need pro))) [
  | inr big ↦ absurd (false-ne-true (rw (big, resource_request) at h))
  | inl small ↦ elim (Bool-cases (fits request b.available)) [
    | inr scarce ↦ absurd (false-ne-true (rw (small, scarce, resource_request) at h))
    | inl enough ↦ elim (Option-cases (safecheck b pro request (less b.available request))) [
      | inl unsafe ↦ absurd (false-ne-true (rw (small, enough, unsafe, resource_request) at h))
      | inr (seq, found) ↦ (
        fits→Within request (b.need pro) small,
        fits→Within request b.available enough,
        (
          seq,
          Finishes-grant b pro request seq
              (safecheck_sound b pro request (less b.available request) seq found),
        ),
      )
    ]
  ]
]

granted_of_Grantable :
    (b : Bank) (pro : ℕ) (request : Resources)
    → pro < process_num
    → NonNegative b.allocation
    → Within (λ _. pos 0) request
    → Grantable b pro request
    → resource_request pro request b ≡ (true, grant b pro request)
unfolding resource_request
granted_of_Grantable b pro request lt holds asks (small, enough, (js, safe)) =
    let (seq, found) =
      safecheck_complete b pro request (less b.available request) js
        (pretended-NonNegative b pro request holds asks lt)
        (Finishes-pretended b pro request js safe) in
    rw (
      Within→fits request (b.need pro) small,
      Within→fits request b.available enough,
      found,
      resource_request,
    )

-- A request that is not granted leaves the state as it was, and one that is granted makes exactly
-- the state of `grant`, whatever was asked.
pub resource_request_state :
    (b : Bank) (pro : ℕ) (request : Resources)
    → (resource_request pro request b).1
      ≡ (if (resource_request pro request b).0 then grant b pro request else b)
unfolding resource_request
resource_request_state b pro request = ground (arith)

-- For a process of the system that asks for no negative amount, where no process holds one: the
-- request is granted exactly if it is within the need of the process and within what is available,
-- and the processes can all finish, in some order, after it.
pub resource_request_iff :
    (b : Bank) (pro : ℕ) (request : Resources)
    → pro < process_num
    → NonNegative b.allocation
    → Within (λ _. pos 0) request
    → ((resource_request pro request b).0 ≡ true) ↔ Grantable b pro request
resource_request_iff b pro request lt holds asks = (
  Grantable-of_granted b pro request,
  λ g. ap (λ r. r.0) (granted_of_Grantable b pro request lt holds asks g),
)
