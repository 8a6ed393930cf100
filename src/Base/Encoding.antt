-- ===== src/Base/Encoding.antt =====
-- Byte strings, and the little-endian and big-endian encodings of words.
use Prim.Native.Nat.{ℕ, zero, suc, ◌+◌, ◌*◌, ◌/◌, ◌%◌, ◌^◌, ◌<◌, ◌≤◌, ◌-◌, min}
use mathlib.Core.Path.{◌≡◌, refl, sym, ap, ap₂, ◌∙◌}
use mathlib.Core.Bool.{Bool, true, false}
use mathlib.Core.List.{List, [], ◌∷◌, ◌++◌}
use native.Mathlib.Nat.{
  pow-suc, mod-lt, mul-le-mul_left, mod-add-div', mod-eq_of_lt, add-mul-mod_self_right,
}
use native.Mathlib.Omega.{arith}
use shawn_core_libraries.Base.Tests.{◌==◌}
use shawn_core_libraries.Base.Lists.{length, take, drop, replicate, get_or}

abbrev pub Bytes : Type 0
Bytes = List ℕ

-- `n.to_le_bytes()` of an integer of `k` bytes, and `from_le_bytes`.
unfoldable pub to_le_bytes : ℕ → ℕ → Bytes
to_le_bytes zero n = []
to_le_bytes (suc k) n = n % 256 ∷ to_le_bytes k (n / 256)

unfoldable pub from_le_bytes : Bytes → ℕ
from_le_bytes [] = 0
from_le_bytes (b ∷ bs) = b + 256 * from_le_bytes bs

-- `n.to_be_bytes()`.
unfoldable pub to_be_bytes : ℕ → ℕ → Bytes
to_be_bytes zero n = []
to_be_bytes (suc k) n = n / 256 ^ k % 256 ∷ to_be_bytes k n

-- `bytes.iter().all(|&byte| byte == b)`.
unfoldable pub all_equal : ℕ → Bytes → Bool
all_equal b [] = true
all_equal b (x ∷ xs) = let rest = all_equal b xs in elim (x == b) [ true ↦ rest | false ↦ false ]

pub length-to_le_bytes : (k n : ℕ) → length (to_le_bytes k n) ≡ k
unfolding to_le_bytes
length-to_le_bytes zero n = refl
length-to_le_bytes (suc k) n = ap suc (length-to_le_bytes k (n / 256))

-- A word that fits its width is read back.
pub from_le_bytes-to_le_bytes : (k n : ℕ) → n < 256 ^ k → from_le_bytes (to_le_bytes k n) ≡ n
unfolding to_le_bytes from_le_bytes
from_le_bytes-to_le_bytes zero n h = omega arith
from_le_bytes-to_le_bytes (suc k) n h =
    omega (arith, from_le_bytes-to_le_bytes k (n / 256) (omega (arith, pow-suc 256 k)))

-- Splitting an append at the length of its first part.
module _ {ℓ} {A : Type ℓ} where
  pub take-append : (n : ℕ) (xs ys : List A) → length xs ≡ n → take n (xs ++ ys) ≡ xs
  take-append zero [] ys h = refl
  take-append zero (x ∷ xs) ys h = absurd (omega arith)
  take-append (suc n) [] ys h = absurd (omega arith)
  take-append (suc n) (x ∷ xs) ys h = ap (λ l. x ∷ l) (take-append n xs ys (omega arith))

  pub drop-append : (n : ℕ) (xs ys : List A) → length xs ≡ n → drop n (xs ++ ys) ≡ ys
  drop-append zero [] ys h = refl
  drop-append zero (x ∷ xs) ys h = absurd (omega arith)
  drop-append (suc n) [] ys h = absurd (omega arith)
  drop-append (suc n) (x ∷ xs) ys h = drop-append n xs ys (omega arith)

module _ {ℓ} {A : Type ℓ} where
  pub take-append_split :
      (n : ℕ) (xs ys : List A) → take n (xs ++ ys) ≡ take n xs ++ take (n - length xs) ys
  take-append_split zero xs ys = ap (λ k. take k ys) {x = 0} {y = 0 - length xs} (omega arith)
  take-append_split (suc n) [] ys = ap (λ k. take k ys) {x = suc n} {y = suc n - 0} (omega arith)
  take-append_split (suc n) (x ∷ xs) ys =
      ap (λ l. x ∷ l)
        (take-append_split n xs ys
          ∙ ap (λ k. take n xs ++ take k ys) {x = n - length xs} {y = suc n - suc (length xs)}
              (omega arith))

  pub take-min : (n : ℕ) (xs : List A) → take (min (length xs) n) xs ≡ take n xs
  take-min zero xs = ap (λ k. take k xs) {x = min (length xs) 0} {y = 0} (omega arith)
  take-min (suc n) [] = ap (λ k. take k []) {x = min 0 (suc n)} {y = 0} (omega arith)
  take-min (suc n) (x ∷ xs) =
      ap (λ k. take k (x ∷ xs)) {x = min (length (x ∷ xs)) (suc n)} {y = suc (min (length xs) n)}
        (omega arith)
      ∙ ap (λ l. x ∷ l) (take-min n xs)

  pub length-take : (n : ℕ) (xs : List A) → length (take n xs) ≡ min n (length xs)
  length-take zero xs = omega arith
  length-take (suc n) [] = omega arith
  length-take (suc n) (x ∷ xs) = omega (arith, length-take n xs)

  pub length-drop : (n : ℕ) (xs : List A) → length (drop n xs) ≡ length xs - n
  length-drop zero xs = omega arith
  length-drop (suc n) [] = omega arith
  length-drop (suc n) (x ∷ xs) = omega (arith, length-drop n xs)

  drop-nil : (n : ℕ) → drop {A = A} n [] ≡ []
  drop-nil zero = refl
  drop-nil (suc n) = refl

  pub drop-drop : (m n : ℕ) (xs : List A) → drop n (drop m xs) ≡ drop (m + n) xs
  drop-drop zero n xs = ap (λ k. drop k xs) {x = n} {y = 0 + n} (omega arith)
  drop-drop (suc m) n [] = drop-nil n ∙ sym (drop-nil (suc m + n))
  drop-drop (suc m) n (x ∷ xs) =
      drop-drop m n xs ∙ ap (λ k. drop k (x ∷ xs)) {x = suc (m + n)} {y = suc m + n} (omega arith)

  pub drop-all : (n : ℕ) (xs : List A) → length xs ≤ n → drop n xs ≡ []
  drop-all zero [] h = refl
  drop-all zero (x ∷ xs) h = absurd (omega arith)
  drop-all (suc n) [] h = refl
  drop-all (suc n) (x ∷ xs) h = drop-all n xs (omega arith)

  pub take-all : (n : ℕ) (xs : List A) → length xs ≤ n → take n xs ≡ xs
  take-all zero [] h = refl
  take-all zero (x ∷ xs) h = absurd (omega arith)
  take-all (suc n) [] h = refl
  take-all (suc n) (x ∷ xs) h = ap (λ l. x ∷ l) (take-all n xs (omega arith))

pub all_equal-replicate : (k b : ℕ) → all_equal b (replicate k b) ≡ true
unfolding all_equal
all_equal-replicate zero b = refl
all_equal-replicate (suc k) b = ground (arith, all_equal-replicate k b)

-- Two appends agree only part by part, when their first parts have one length.
pub append-split {ℓ} :
    {A : Type ℓ} (n : ℕ) (xs xs' ys ys' : List A)
    → length xs ≡ n
    → length xs' ≡ n
    → xs ++ ys ≡ xs' ++ ys'
    → (xs ≡ xs') × (ys ≡ ys')
append-split n xs xs' ys ys' h h' e = (
  sym (take-append n xs ys h) ∙ ap (take n) e ∙ take-append n xs' ys' h',
  sym (drop-append n xs ys h) ∙ ap (drop n) e ∙ drop-append n xs' ys' h',
)

pub length-to_be_bytes : (k n : ℕ) → length (to_be_bytes k n) ≡ k
unfolding to_be_bytes
length-to_be_bytes zero n = refl
length-to_be_bytes (suc k) n = ap suc (length-to_be_bytes k n)

pow_pos : (k : ℕ) → 0 < 256 ^ k
pow_pos zero = omega arith
pow_pos (suc k) = omega (arith, pow-suc 256 k, pow_pos k)

small_digit : (q : ℕ) → q % 256 ≤ 255
small_digit q = omega arith

-- The remainder by `256 m`, highest digit first.
mod-high_digit : (m n : ℕ) → 0 < m → n % (m * 256) ≡ n / m % 256 * m + n % m
mod-high_digit m n pos =
    ap (λ x. x % (m * 256)) whole
    ∙ add-mul-mod_self_right low (n / m / 256) (m * 256)
    ∙ mod-eq_of_lt (omega (arith, mod-lt n pos, digit_small))
  where
    low : ℕ
    low = n / m % 256 * m + n % m

    whole : n ≡ low + n / m / 256 * (m * 256)
    whole = omega (arith, mod-add-div' n m, ap (λ x. x * m) (mod-add-div' (n / m) 256))

    digit_small : n / m % 256 * m ≤ 255 * m
    digit_small = omega (arith, mul-le-mul_left m (small_digit (n / m)))

to_be_bytes-mod : (k a b : ℕ) → to_be_bytes k a ≡ to_be_bytes k b → a % 256 ^ k ≡ b % 256 ^ k
unfolding to_be_bytes
to_be_bytes-mod zero a b e = omega arith
to_be_bytes-mod (suc k) a b e =
    ap (λ x. a % x) (pow-suc 256 k)
    ∙ mod-high_digit (256 ^ k) a (pow_pos k)
    ∙ ap₂ (λ d r. d * 256 ^ k + r) (ap (λ l. get_or l 0 0) e)
        (to_be_bytes-mod k a b (ap (drop 1) e))
    ∙ sym (mod-high_digit (256 ^ k) b (pow_pos k))
    ∙ ap (λ x. b % x) (sym (pow-suc 256 k))

-- Words that fit their width have different big-endian bytes.
pub to_be_bytes-injective :
    (k a b : ℕ) → a < 256 ^ k → b < 256 ^ k → to_be_bytes k a ≡ to_be_bytes k b → a ≡ b
to_be_bytes-injective k a b ha hb e =
    sym (mod-eq_of_lt ha) ∙ to_be_bytes-mod k a b e ∙ mod-eq_of_lt hb
