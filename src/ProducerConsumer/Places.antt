-- ===== src/ProducerConsumer/Places.antt =====
-- Labweek15/alg.18-7-syn-pc-producer-6.c and alg.18-8-syn-pc-consumer-6.c: the units of the ring.
use native.Mathlib.Nat.{mod-add-mod, mul-le-mul_left, mul-suc}
use native.Mathlib.Decide.{dec_lt, ℕ_discrete}
use native.Mathlib.Omega.{div_any}
use operating_system_homewor.Prelude.{
  ℕ, suc, ◌+◌, ◌-◌, ◌/◌, ◌%◌, ◌≤◌, ◌<◌, ◌≡◌, ◌≢◌, refl, sym, ap, ap₂, ◌∙◌, List, [], ◌∷◌, ◌++◌,
  arith, update, update_self, update_ne,
}
use operating_system_homewor.ProducerConsumer.{base_addr, DataPcSt}
use operating_system_homewor.ProducerConsumer.Content.{numbers, item_nos}

not_lt : {a b : ℕ} → ¬ (a < b) → b ≤ a
not_lt h = omega (arith, h)

-- Two numbers less than `b` apart have different remainders.
apart_mod : (k n b : ℕ) → k < n → n < k + b → k % b ≢ n % b
apart_mod k n b lt near e = elim (dec_lt (k / b) (n / b)) [
  | yes more ↦ omega (arith, e, div_any n b, div_any k b, mul-le-mul_left b more, mul-suc b (k / b))
  | no same ↦ omega (arith, e, div_any n b, div_any k b, mul-le-mul_left b (not_lt same))
]

pub same_place : (n b : ℕ) → (n - 0) % b ≡ n % b
same_place n b = ap (λ x. x % b) (omega arith)

-- Moving the end of the ring by one unit is counting one item more.
pub next_place : (at n b : ℕ) → 0 < n → at ≡ (n - 1) % b → (at + 1) % b ≡ n % b
next_place at n b more e =
    ap (λ x. (x + 1) % b) e ∙ mod-add-mod (n - 1) b 1 ∙ ap (λ x. x % b) (omega arith)

pub next_place_after : (at n b : ℕ) → at ≡ (n + 0) % b → (at + 1) % b ≡ (n + 1) % b
next_place_after at n b e =
    ap (λ x. (x + 1) % b) e ∙ mod-add-mod (n + 0) b 1 ∙ ap (λ x. x % b) (omega arith)

-- The new item overwrites none that is not consumed: there are at most `b` of them with it.
pub write_unit :
    (i at low n b : ℕ) (units : ℕ → DataPcSt)
    → n ≤ low + b
    → at ≡ n % b
    → ((k : ℕ) → low < k → k + 1 ≤ n → (units (k % b + base_addr)).item_no ≡ k)
    → (k : ℕ) → low < k
    → k + 0 ≤ n
    → (update units
        (at + base_addr)
        (record { item_no = n; pro_tid = i })
        (k % b + base_addr)).item_no
      ≡ k
write_unit i at low n b units room e old k lt le = elim (ℕ_discrete k n) [
  | yes last ↦
      ap DataPcSt.item_no (
        ap (update units (at + base_addr) (record { item_no = n; pro_tid = i }))
          (ap (λ x. x + base_addr) (ap (λ x. x % b) last ∙ sym e))
        ∙ update_self units (at + base_addr) _)
      ∙ sym last
  | no before ↦
      ap DataPcSt.item_no (
        update_ne units (at + base_addr) (k % b + base_addr) _
          (λ same. apart_mod k n b (omega arith) (omega arith) (omega (arith, same, e))))
      ∙ old k lt (omega arith)
]

item_nos-append :
    (xs : List DataPcSt) (x : DataPcSt) → item_nos (xs ++ x ∷ []) ≡ item_nos xs ++ x.item_no ∷ []
item_nos-append [] x = refl
item_nos-append (y ∷ xs) x = ap (λ ns. y.item_no ∷ ns) (item_nos-append xs x)

pub same_numbers : {a b : ℕ} → a ≡ b → numbers a ≡ numbers b
same_numbers e = ap numbers e

-- The unit printed holds the item after those consumed.
pub print_next :
    (low n at b : ℕ) (taken : List DataPcSt) (units : ℕ → DataPcSt)
    → item_nos taken ≡ numbers (low + 0)
    → low + 1 ≤ n
    → at ≡ (low + 1) % b
    → ((k : ℕ) → low < k → k + 0 ≤ n → (units (k % b + base_addr)).item_no ≡ k)
    → item_nos (taken ++ units (at + base_addr) ∷ []) ≡ numbers (low + 1)
print_next low n at b taken units told more e held =
    let next : (units (at + base_addr)).item_no ≡ suc low =
      ap (λ x. (units (x + base_addr)).item_no) e
      ∙ held (low + 1) (omega arith) (omega arith)
      ∙ omega arith in
    item_nos-append taken (units (at + base_addr))
    ∙ ap₂ (λ ns x. ns ++ x ∷ []) (told ∙ same_numbers {a = low + 0} {b = low} (omega arith)) next
    ∙ same_numbers {a = suc low} {b = low + 1} (omega arith)
