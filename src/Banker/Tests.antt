-- ===== src/Banker/Tests.antt =====
-- Labweek15/alg.17-1-bankers-5.c: the system of the source, its initial state and some requests.
use operating_system_homewor.Prelude.{
  ℕ, zero, suc, ◌<◌, ◌≡◌, ◌↔◌, refl, Bool, true, false, some, List, [], ◌∷◌, arith, update,
}
use operating_system_homewor.Prelude.Int.{ℤ, pos, negsuc, ◌+ℤ◌, ◌-ℤ◌}
use operating_system_homewor.Banker.{
  process_num, Resources, Bank, fits_below, pick, safe_loop, safecheck, grant, resource_request,
  subtract_all, init, serve_commands, less, release, pretended_need, pretended_allocation,
}
use operating_system_homewor.Banker.Safety.{Within, Finishes}
use operating_system_homewor.Banker.Search.{fits→Within}
use operating_system_homewor.Banker.Check.{safecheck_sound, safecheck_complete}
use operating_system_homewor.Banker.Request.{
  NonNegative, pretended-NonNegative, Grantable, resource_request_iff,
}
use operating_system_homewor.Banker.Invariant.{held, IsSound, serve_commands-IsSound, init-IsSound}

abbrev vector : ℤ → ℤ → ℤ → Resources
vector a b c zero = a
vector a b c (suc zero) = b
vector a b c (suc (suc k)) = c

-- `max` and `resource`.
abbrev claims : ℕ → Resources
claims zero = vector (pos 7) (pos 5) (pos 3)
claims (suc zero) = vector (pos 3) (pos 2) (pos 2)
claims (suc (suc zero)) = vector (pos 9) (pos 0) (pos 2)
claims (suc (suc (suc zero))) = vector (pos 2) (pos 2) (pos 2)
claims (suc (suc (suc (suc j)))) = vector (pos 4) (pos 3) (pos 3)

abbrev all_resources : Resources
all_resources = vector (pos 10) (pos 5) (pos 7)

abbrev nothing : ℕ → Resources
nothing _ _ = pos 0

abbrev opening : Bank
opening = init claims all_resources nothing

program : Unit {0}
unfolding fits_below pick safe_loop safecheck grant resource_request subtract_all init
    serve_commands ◌+ℤ◌ ◌-ℤ◌ held
program = tt

abbrev one_each : Resources
one_each = vector (pos 1) (pos 1) (pos 1)

check_runs :
    safecheck opening 0 one_each (less opening.available one_each) ≡ some (0 ∷ 1 ∷ 2 ∷ 3 ∷ 4 ∷ [])
unfolding program
check_runs = refl

refused : (resource_request 1 (vector (pos 4) (pos 0) (pos 0)) opening).0 ≡ false
unfolding program
refused = refl

-- The source tests no lower bound: a negative request is granted, and the pool then has eleven
-- units of a resource of which there are ten.
negative_request :
    ((resource_request 0 (vector (negsuc 0) (pos 0) (pos 0)) opening).0 ≡ true)
    × ((resource_request 0 (vector (negsuc 0) (pos 0) (pos 0)) opening).1.available 0 ≡ pos 11)
unfolding program
negative_request = (refl, refl)

-- The processes that have finished when all five have.
abbrev five : ℕ → Bool
five = update (update (update (update (update (λ _. false) 0 true) 1 true) 2 true) 3 true) 4 true

all_finished : (j : ℕ) → j < process_num → five j ≡ true
all_finished zero lt = refl
all_finished (suc zero) lt = refl
all_finished (suc (suc zero)) lt = refl
all_finished (suc (suc (suc zero))) lt = refl
all_finished (suc (suc (suc (suc zero)))) lt = refl
all_finished (suc (suc (suc (suc (suc j))))) lt = absurd (omega arith)

-- What is available when the processes have finished in the order of their numbers, up to `j`.
abbrev work_at : ℕ → Resources
work_at zero = opening.available
work_at (suc j) = release (work_at j) (opening.allocation j)

opening-Finishes :
    Finishes opening.need opening.allocation (λ _. false) opening.available (0 ∷ 1 ∷ 2 ∷ 3 ∷ 4 ∷ [])
unfolding program
opening-Finishes = (
  omega arith,
  refl,
  fits→Within (opening.need 0) (work_at 0) refl,
  (
    omega arith,
    refl,
    fits→Within (opening.need 1) (work_at 1) refl,
    (
      omega arith,
      refl,
      fits→Within (opening.need 2) (work_at 2) refl,
      (
        omega arith,
        refl,
        fits→Within (opening.need 3) (work_at 3) refl,
        (omega arith, refl, fits→Within (opening.need 4) (work_at 4) refl, all_finished),
      ),
    ),
  ),
)

nothing-NonNegative : NonNegative nothing
nothing-NonNegative j k lj lk = omega arith

start_small : (j : ℕ) → Within (nothing j) (claims j)
unfolding program
start_small zero = fits→Within (nothing 0) (claims 0) refl
start_small (suc zero) = fits→Within (nothing 1) (claims 1) refl
start_small (suc (suc zero)) = fits→Within (nothing 2) (claims 2) refl
start_small (suc (suc (suc zero))) = fits→Within (nothing 3) (claims 3) refl
start_small (suc (suc (suc (suc j)))) = fits→Within (nothing 4) (claims 4) refl

start_fits : Within (held process_num nothing) all_resources
unfolding program
start_fits = fits→Within (held process_num nothing) all_resources refl

opening-IsSound : IsSound claims all_resources opening
opening-IsSound =
    init-IsSound claims all_resources nothing nothing-NonNegative (λ j lj. start_small j) start_fits
      (0 ∷ 1 ∷ 2 ∷ 3 ∷ 4 ∷ [], opening-Finishes)

one_each-Within : Within (λ _. pos 0) one_each
unfolding program
one_each-Within = fits→Within (λ _. pos 0) one_each refl

abbrev commands : List (ℤ × Resources)
commands = (pos 0, one_each) ∷ (pos 9, one_each) ∷ (pos 3, one_each) ∷ (negsuc 0, one_each) ∷ []

one_each-NonNegative : NonNegative (pretended_allocation opening 0 one_each)
unfolding init
one_each-NonNegative =
    pretended-NonNegative opening 0 one_each nothing-NonNegative one_each-Within (omega arith)

order_safe :
    Finishes
      (pretended_need opening 0 one_each)
      (pretended_allocation opening 0 one_each)
      (λ _. false)
      (less opening.available one_each)
      (0 ∷ 1 ∷ 2 ∷ 3 ∷ 4 ∷ [])
order_safe =
    safecheck_sound opening 0 one_each (less opening.available one_each) (0 ∷ 1 ∷ 2 ∷ 3 ∷ 4 ∷ [])
      check_runs

safecheck_complete_example :
    (seq : List ℕ) × (safecheck opening 0 one_each (less opening.available one_each) ≡ some seq)
safecheck_complete_example =
    safecheck_complete opening 0 one_each (less opening.available one_each) (0 ∷ 1 ∷ 2 ∷ 3 ∷ 4 ∷ [])
      one_each-NonNegative order_safe

resource_request_iff_example :
    ((resource_request 0 one_each opening).0 ≡ true) ↔ Grantable opening 0 one_each
resource_request_iff_example =
    resource_request_iff opening 0 one_each (omega arith) opening-IsSound.holds one_each-Within

serve_commands-IsSound_example : IsSound claims all_resources (serve_commands commands opening)
serve_commands-IsSound_example =
    serve_commands-IsSound claims all_resources commands opening
      (one_each-Within, (one_each-Within, (one_each-Within, (one_each-Within, tt)))) opening-IsSound
