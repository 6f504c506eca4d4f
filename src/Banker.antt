-- ===== src/Banker.antt =====
-- Labweek15/alg.17-1-bankers-5.c: the state of the banker, the safety check and the handling of a
-- request. The children prove that the check decides safety and that granted requests keep it.
pub mod Safety
pub mod Search
pub mod Check
pub mod Request
pub mod Invariant
mod Tests
use operating_system_homewor.Prelude.{
  ℕ, zero, suc, ◌+◌, Bool, true, false, ◌&&◌, not, Option, none, some, List, [], ◌∷◌, ◌++◌, ltb,
  ◌==◌, if◌then◌else◌, update,
}
use operating_system_homewor.Prelude.Int.{ℤ, pos, negsuc, ◌+ℤ◌, ◌-ℤ◌, leb_ℤ}

abbrev pub process_num : ℕ
process_num = 5

abbrev pub resource_num : ℕ
resource_num = 3

-- A vector over the resource types; the entries from `resource_num` on are never read.
abbrev pub Resources : Type 0
Resources = ℕ → ℤ

-- `need`, `allocation` and `available`.
pub record Bank : Type 0 where
  pub need : ℕ → Resources
  pub allocation : ℕ → Resources
  pub available : Resources

-- `for (k = 0; k < M; k++) if (a[k] > b[k]) break;` comes to the end.
pub fits_below : ℕ → Resources → Resources → Bool
fits_below zero a b = true
fits_below (suc n) a b = leb_ℤ (a n) (b n) && fits_below n a b

abbrev pub fits : Resources → Resources → Bool
fits = fits_below resource_num

-- What the check takes for the need and the allocation of process `j` while it pretends that
-- process `pro` has got `request`.
abbrev pub pretended_need : Bank → ℕ → Resources → ℕ → Resources
pretended_need b pro request j k = if j == pro then b.need pro k -ℤ request k else b.need j k

abbrev pub pretended_allocation : Bank → ℕ → Resources → ℕ → Resources
pretended_allocation b pro request j k =
    if j == pro then b.allocation pro k +ℤ request k else b.allocation j k

-- The loop over `j`: the first process that has not finished and whose need fits. `n` processes
-- are left to look at.
pub pick : ℕ → ℕ → (ℕ → Resources) → (ℕ → Bool) → Resources → Option ℕ
pick zero j need finish work = none
pick (suc n) j need finish work =
    let rest = pick n (j + 1) need finish work in
    if not (finish j) && fits (need j) work then some j else rest

abbrev pub release : Resources → Resources → Resources
release work allocation l = work l +ℤ allocation l

-- The loop over `i`, with `n` rounds left. The result is `safe_seq`, or `none` if a round finds no
-- process.
pub safe_loop :
    ℕ → (ℕ → Resources) → (ℕ → Resources) → (ℕ → Bool) → Resources → List ℕ → Option (List ℕ)
safe_loop zero need allocation finish work seq = some seq
safe_loop (suc n) need allocation finish work seq = elim (pick process_num 0 need finish work) [
  | none ↦ none
  | some j ↦
      safe_loop n need allocation (update finish j true) (release work (allocation j))
        (seq ++ j ∷ [])
]

-- `safecheck`, from the `work` that its caller sets up.
pub safecheck : Bank → ℕ → Resources → Resources → Option (List ℕ)
safecheck b pro request work =
    safe_loop process_num (pretended_need b pro request) (pretended_allocation b pro request)
      (λ _. false) work []

-- The assignments of a granted request; the loops run over `k < M`.
abbrev pub less : Resources → Resources → Resources
less a request k = if ltb k resource_num then a k -ℤ request k else a k

abbrev pub more : Resources → Resources → Resources
more a request k = if ltb k resource_num then a k +ℤ request k else a k

pub grant : Bank → ℕ → Resources → Bank
grant b pro request = record {
  need = update b.need pro (less (b.need pro) request);
  allocation = update b.allocation pro (more (b.allocation pro) request);
  available = less b.available request;
}

-- `true` is EXIT_SUCCESS.
pub resource_request : ℕ → Resources → Bank → Bool × Bank
resource_request pro request b =
    if fits request (b.need pro)
    then if fits request b.available
      then elim (safecheck b pro request (less b.available request)) [
        | none ↦ (false, b)
        | some seq ↦ (true, grant b pro request)
      ]
      else (false, b)
    else (false, b)

-- `for (j = 0; j < N; j++) available[k] -= allocation[j][k];`
pub subtract_all : ℕ → (ℕ → Resources) → Resources → Resources
subtract_all zero allocation a = a
subtract_all (suc n) allocation a = λ k. subtract_all n allocation a k -ℤ allocation n k

-- The start of `main`.
pub init : (ℕ → Resources) → Resources → (ℕ → Resources) → Bank
init max resource allocation = record {
  need = λ j k. max j k -ℤ allocation j k;
  allocation = allocation;
  available = subtract_all process_num allocation resource;
}

-- The loop of `main` over what the user types: a process number and a request.
pub serve_commands : List (ℤ × Resources) → Bank → Bank
serve_commands [] b = b
serve_commands ((negsuc n, request) ∷ commands) b = b
serve_commands ((pos pro, request) ∷ commands) b =
    serve_commands commands (if ltb pro process_num then (resource_request pro request b).1 else b)
