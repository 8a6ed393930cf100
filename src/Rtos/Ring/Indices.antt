-- ===== src/Rtos/Ring/Indices.antt =====
-- Running 64-bit indices and the slots that they name.
use native.Mathlib.Nat.{
  mod-mod_of_dvd, mod-add-div, mul-mod_right, dvd_of_mod-eq-zero, mul-le-mul_left, pow-suc,
}
use shawn_core_libraries.Base.{
  ℕ, zero, suc, ◌+◌, ◌-◌, ◌*◌, ◌/◌, ◌%◌, ◌^◌, ◌≤◌, ◌<◌, ◌≡◌, ap, ◌∙◌, arith, ◌⊎◌, inl, inr,
}
use shawn_core_libraries.Base.Bits.{pow-pos, pow-lt-pow}

-- `N.is_power_of_two()` of a 64-bit word.
pub record IsCapacity (capacity : ℕ) : Type 0 where
  pub exponent : ℕ
  pub small : exponent < 64
  pub power : capacity ≡ 2 ^ exponent

pow-split : (a b : ℕ) → 2 ^ (b + a) ≡ 2 ^ a * 2 ^ b
pow-split a zero = ap (λ n. 2 ^ n) {x = 0 + a} {y = a} (omega arith) ∙ omega arith
pow-split a (suc b) =
    ap (λ n. 2 ^ n) {x = suc b + a} {y = suc (b + a)} (omega arith)
    ∙ grind (arith, pow-split a b, pow-suc 2 b, pow-suc 2 (b + a))

divides : {capacity : ℕ} → IsCapacity capacity → 2 ^ 64 % capacity ≡ 0
divides {capacity} c =
    ap (λ n. n % capacity)
      (ap (λ n. 2 ^ n) {x = 64} {y = 64 - c.exponent + c.exponent} (omega (arith, c.small))
        ∙ pow-split c.exponent (64 - c.exponent))
    ∙ ap (λ n. 2 ^ c.exponent * 2 ^ (64 - c.exponent) % n) c.power
    ∙ mul-mod_right (2 ^ c.exponent) (2 ^ (64 - c.exponent))

-- Wrapping an index at 64 bits does not change the slot that it names.
pub wrapped_slot :
    {capacity : ℕ} (i : ℕ) → IsCapacity capacity → i % 2 ^ 64 % capacity ≡ i % capacity
wrapped_slot {capacity} i c = mod-mod_of_dvd capacity i (dvd_of_mod-eq-zero capacity (divides c))

pub capacity-bounds : {capacity : ℕ} → IsCapacity capacity → (0 < capacity) × (capacity < 2 ^ 64)
capacity-bounds c = rw c.power (pow-pos c.exponent, pow-lt-pow c.exponent 64 c.small)

-- Two indices less than a capacity apart name different slots.
pub same_slot : (capacity i j : ℕ) → i ≤ j → j < i + capacity → i % capacity ≡ j % capacity → i ≡ j
same_slot capacity i j le lt e = elim (le_or_lt (j / capacity) (i / capacity)) [
  | inl up_to ↦
      omega (arith, mod-add-div i capacity, mod-add-div j capacity, mul-le-mul_left capacity up_to)
  | inr past ↦
      absurd (omega (arith, mod-add-div i capacity, mod-add-div j capacity, one_more past, mul-suc))
]
  where
    le_or_lt : (a b : ℕ) → (a ≤ b) ⊎ (b < a)
    le_or_lt a b = ground arith

    one_more :
        i / capacity < j / capacity → capacity * (i / capacity + 1) ≤ capacity * (j / capacity)
    one_more past = mul-le-mul_left capacity (omega arith)

    mul-suc : capacity * (i / capacity + 1) ≡ capacity * (i / capacity) + capacity
    mul-suc = omega arith
