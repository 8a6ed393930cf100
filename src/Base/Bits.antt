-- ===== src/Base/Bits.antt =====
-- Single bits of a number, and how the word operations act on them.
use Prim.Native.Nat.{
  ℕ, zero, suc, ◌+◌, ◌-◌, ◌*◌, ◌/◌, ◌%◌, ◌^◌, ◌≤◌, ◌<◌, min, max, bit_and, bit_or, digits,
  bit_and-bitwise, bit_or-bitwise,
}
use mathlib.Core.Path.{◌≡◌, refl, sym, ◌∙◌, ap, ap₂}
use mathlib.Core.Logic.{◌≢◌}
use Prim.Native.Nat.add
use native.Mathlib.Nat.{pow-suc, mod-lt, mod-eq_of_lt, add-mul-mod_self_right, mod-add-div'}
use native.Mathlib.Omega.{arith}
use shawn_core_libraries.Base.Tests.{if◌then◌else◌, ◌==◌}

-- The `k`-th binary digit of `a`.
unfoldable pub bit : ℕ → ℕ → ℕ
bit a zero = a % 2
bit a (suc k) = bit (a / 2) k

pub bit-le-one : (a k : ℕ) → bit a k ≤ 1
unfolding bit
bit-le-one a zero = omega arith
bit-le-one a (suc k) = bit-le-one (a / 2) k

pub bit-zero : (k : ℕ) → bit 0 k ≡ 0
unfolding bit
bit-zero zero = refl
bit-zero (suc k) = bit-zero k

-- The native operations go through the binary digits of their first operand. Any fuel that lasts
-- gives the same number.
module _ (z : ℕ → ℕ) (f : ℕ → ℕ → ℕ) where
  none_left : (i y : ℕ) → digits z f i 0 y ≡ z y
  none_left zero y = refl
  none_left (suc i) y = refl

  same_result : (i j x y : ℕ) → x ≤ i → x ≤ j → digits z f i x y ≡ digits z f j x y
  same_result i j zero y p q = none_left i y ∙ sym (none_left j y)
  same_result (suc i) (suc j) (suc x) y p q =
      omega (arith, same_result i j (suc x / 2) (y / 2) (omega arith) (omega arith))
  same_result zero j (suc x) y p q = absurd (omega arith)
  same_result (suc i) zero (suc x) y p q = absurd (omega arith)

  -- One digit off, for an operation that the digits compute.
  one_digit :
      (op : ℕ → ℕ → ℕ)
      → ((x y : ℕ) → op x y ≡ digits z f x x y)
      → (x y : ℕ) → op (suc x) y ≡ f (suc x % 2) (y % 2) + 2 * op (suc x / 2) (y / 2)
  one_digit op computes x y = omega (
    arith,
    computes (suc x) y,
    computes (suc x / 2) (y / 2),
    same_result x (suc x / 2) (suc x / 2) (y / 2) (omega arith) (omega arith),
  )

pub and_halves : (x y : ℕ) → bit_and x y ≡ min (x % 2) (y % 2) + 2 * bit_and (x / 2) (y / 2)
and_halves zero y = omega (arith, bit_and-bitwise 0 y, bit_and-bitwise 0 (y / 2))
and_halves (suc x) y = one_digit (λ n. zero) min bit_and bit_and-bitwise x y

pub or_halves : (x y : ℕ) → bit_or x y ≡ max (x % 2) (y % 2) + 2 * bit_or (x / 2) (y / 2)
or_halves zero y = omega (arith, bit_or-bitwise 0 y, bit_or-bitwise 0 (y / 2))
or_halves (suc x) y = one_digit (λ n. n) max bit_or bit_or-bitwise x y

-- The digit of `a | b` is the larger of the two digits, that of `a & b` the smaller.
pub bit-bit_or : (a b k : ℕ) → bit (bit_or a b) k ≡ max (bit a k) (bit b k)
unfolding bit
bit-bit_or a b zero = omega (arith, or_halves a b)
bit-bit_or a b (suc k) = ap (λ x. bit x k) halves ∙ bit-bit_or (a / 2) (b / 2) k
  where
    halves : bit_or a b / 2 ≡ bit_or (a / 2) (b / 2)
    halves = omega (arith, or_halves a b)

pub bit-bit_and : (a b k : ℕ) → bit (bit_and a b) k ≡ min (bit a k) (bit b k)
unfolding bit
bit-bit_and a b zero = omega (arith, and_halves a b)
bit-bit_and a b (suc k) = ap (λ x. bit x k) halves ∙ bit-bit_and (a / 2) (b / 2) k
  where
    halves : bit_and a b / 2 ≡ bit_and (a / 2) (b / 2)
    halves = omega (arith, and_halves a b)

-- `1 << j` has one digit set.
pub bit-pow_self : (k : ℕ) → bit (2 ^ k) k ≡ 1
unfolding bit
bit-pow_self zero = refl
bit-pow_self (suc k) = ap (λ x. bit x k) half ∙ bit-pow_self k
  where
    half : 2 ^ suc k / 2 ≡ 2 ^ k
    half = omega (arith, pow-suc 2 k)

pub bit-pow_ne : (j k : ℕ) → j ≢ k → bit (2 ^ j) k ≡ 0
unfolding bit
bit-pow_ne zero zero h = absurd (h refl)
bit-pow_ne zero (suc k) h = bit-zero k
bit-pow_ne (suc j) zero h = omega (arith, pow-suc 2 j)
bit-pow_ne (suc j) (suc k) h = ap (λ x. bit x k) half ∙ bit-pow_ne j k (λ e. h (ap suc e))
  where
    half : 2 ^ suc j / 2 ≡ 2 ^ j
    half = omega (arith, pow-suc 2 j)

pub bit_and-zero : (n a : ℕ) → a ≤ n → bit_and a 0 ≡ 0
bit_and-zero n zero h = bit_and-bitwise 0 0
bit_and-zero (suc n) (suc a) h =
    omega (arith, and_halves (suc a) 0, bit_and-zero n (suc a / 2) (omega arith))
bit_and-zero zero (suc a) h = absurd (omega arith)

-- `a & (1 << k)` keeps that digit alone.
pub bit_and-pow : (a k : ℕ) → bit_and a (2 ^ k) ≡ bit a k * 2 ^ k
unfolding bit
bit_and-pow a zero = omega (arith, and_halves a 1, all_zero (a / 2))
  where
    all_zero : (b : ℕ) → bit_and b 0 ≡ 0
    all_zero b = bit_and-zero b b (omega arith)
bit_and-pow a (suc k) = omega (
  arith,
  and_halves a (2 ^ suc k),
  ap (bit_and (a / 2)) half,
  bit_and-pow (a / 2) k,
  pow-suc 2 k,
  ap (λ x. bit (a / 2) k * x) (pow-suc 2 k),
)
  where
    half : 2 ^ suc k / 2 ≡ 2 ^ k
    half = omega (arith, pow-suc 2 k)

shl_half : (a s : ℕ) → a * 2 ^ suc s / 2 ≡ a * 2 ^ s
shl_half a s = omega (arith, pow-suc 2 s, ap (λ x. a * x) (pow-suc 2 s))

pub pow-pos : (w : ℕ) → 0 < 2 ^ w
pow-pos zero = omega arith
pow-pos (suc w) = omega (arith, pow-suc 2 w, pow-pos w)

-- The remainder by `2 ^ (w + 1)`, lowest digit first.
mod_split : (a w : ℕ) → a % 2 ^ suc w ≡ a / 2 % 2 ^ w * 2 + a % 2
mod_split a w =
    ap₂ ◌%◌ {x = a} whole (pow-suc 2 w)
    ∙ add-mul-mod_self_right low (a / 2 / 2 ^ w) (2 ^ w * 2)
    ∙ mod-eq_of_lt (omega (arith, mod-lt (a / 2) (pow-pos w)))
  where
    low : ℕ
    low = a / 2 % 2 ^ w * 2 + a % 2

    whole : a ≡ low + a / 2 / 2 ^ w * (2 ^ w * 2)
    whole = omega (arith, mod-add-div' (a / 2) (2 ^ w))

-- Shifts, and the digits that a `w`-bit word keeps.
pub bit-shl_above : (a s k : ℕ) → bit (a * 2 ^ s) (s + k) ≡ bit a k
unfolding bit
bit-shl_above a zero k =
    ap₂ bit {x = a * 2 ^ 0} {y = a} {u = 0 + k} {v = k} (omega arith) (omega arith)
bit-shl_above a (suc s) k =
    ap₂ bit {y = a * 2 ^ suc s} refl (add.suc s k)
    ∙ ap (λ x. bit x (s + k)) (shl_half a s)
    ∙ bit-shl_above a s k

pub bit-shl_below : (a s k : ℕ) → k < s → bit (a * 2 ^ s) k ≡ 0
unfolding bit
bit-shl_below a zero k h = absurd (omega arith)
bit-shl_below a (suc s) zero h = omega (arith, pow-suc 2 s, ap (λ x. a * x) (pow-suc 2 s))
bit-shl_below a (suc s) (suc k) h =
    ap (λ x. bit x k) (shl_half a s) ∙ bit-shl_below a s k (omega arith)

pub bit-mod : (a w k : ℕ) → k < w → bit (a % 2 ^ w) k ≡ bit a k
unfolding bit
bit-mod a zero k h = absurd (omega arith)
bit-mod a (suc w) zero h = omega (arith, mod_split a w)
bit-mod a (suc w) (suc k) h = ap (λ x. bit x k) half ∙ bit-mod (a / 2) w k (omega arith)
  where
    half : a % 2 ^ suc w / 2 ≡ a / 2 % 2 ^ w
    half = omega (arith, mod_split a w)

-- The complement within a word.
pub bit-complement : (a w k : ℕ) → a < 2 ^ w → k < w → bit (2 ^ w - 1 - a) k ≡ 1 - bit a k
unfolding bit
bit-complement a zero k p h = absurd (omega arith)
bit-complement a (suc w) zero p h = omega (arith, pow-suc 2 w)
bit-complement a (suc w) (suc k) p h =
    ap (λ x. bit x k) half ∙ bit-complement (a / 2) w k (omega (arith, pow-suc 2 w)) (omega arith)
  where
    half : (2 ^ suc w - 1 - a) / 2 ≡ 2 ^ w - 1 - a / 2
    half = omega (arith, pow-suc 2 w)

-- The bits of `1 << j`, in one equation.
pub pow_bit : (j d : ℕ) → bit (2 ^ j) d ≡ (if j == d then 1 else 0)
pow_bit j d =
    ground (arith, bit-pow_self d, bit-pow_ne j d, ap (λ x. bit (2 ^ x) d) {x = j} {y = d})

pub pow-lt-pow : (j w : ℕ) → j < w → 2 ^ j < 2 ^ w
pow-lt-pow j zero h = absurd (omega arith)
pow-lt-pow zero (suc w) h = omega (arith, pow-suc 2 w, pow-pos w)
pow-lt-pow (suc j) (suc w) h = omega (arith, pow-suc 2 j, pow-suc 2 w, pow-lt-pow j w (omega arith))
