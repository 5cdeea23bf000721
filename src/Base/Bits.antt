-- ===== src/Base/Bits.antt =====
-- Laws of `|`, `&` and `^` at variables: one equation for the lowest digit, then what the
-- sources use of them, disjoint fields, cancellation, and the width of an exclusive or.
use Prim.Native.Nat.{ℕ, zero, suc, ◌+◌, ◌-◌, ◌*◌, ◌/◌, ◌%◌, ◌^◌, ◌≤◌, ◌<◌, max, min}
use Prim.Native.Nat.{bit_and, bit_or, bit_xor, digits, bitwise, differ}
use Prim.Native.Nat.{bit_and-bitwise, bit_or-bitwise, bit_xor-bitwise}
use mathlib.Core.Path.{◌≡◌, refl, ap, ◌∙◌}
use native.Mathlib.Nat.{
  pow-suc, one-le-pow, add-mul-mod_self_right, mod-eq_of_lt, mod-lt, div-add-mod',
}
use native.Mathlib.Omega.{arith}
use native.Mathlib.Omega.{arith}

module _ (rest : ℕ → ℕ) (op : ℕ → ℕ → ℕ) where
  -- With a count of digits that suffices, the count does not matter.
  digits_count : (a k : ℕ) (b n : ℕ) → a ≤ k → a ≤ n → digits rest op k a b ≡ digits rest op n a b
  digits_count zero zero b zero p q = refl
  digits_count zero zero b (suc n) p q = refl
  digits_count zero (suc k) b zero p q = refl
  digits_count zero (suc k) b (suc n) p q = refl
  digits_count (suc a) zero b n p q = absurd (omega arith)
  digits_count (suc a) (suc k) b zero p q = absurd (omega arith)
  digits_count (suc a) (suc k) b (suc n) p q =
      ap (λ t. t * 2 + op (suc a % 2) (b % 2))
        (digits_count (suc a / 2) k (b / 2) n (omega arith) (omega arith))

  low_digit :
      (a b : ℕ)
      → bitwise rest op (suc a) b ≡ bitwise rest op (suc a / 2) (b / 2) * 2 + op (suc a % 2) (b % 2)
  low_digit a b =
      ap (λ t. t * 2 + op (suc a % 2) (b % 2))
        (digits_count (suc a / 2) a (b / 2) (suc a / 2) (omega arith) (omega arith))

or_digit : (a b : ℕ) → bit_or a b ≡ bit_or (a / 2) (b / 2) * 2 + max (a % 2) (b % 2)
or_digit zero b = simp bit_or-bitwise (omega arith)
or_digit (suc a) b = simp bit_or-bitwise (low_digit (λ y. y) max a b)

and_digit : (a b : ℕ) → bit_and a b ≡ bit_and (a / 2) (b / 2) * 2 + min (a % 2) (b % 2)
and_digit zero b = simp bit_and-bitwise (omega arith)
and_digit (suc a) b = simp bit_and-bitwise (low_digit (λ y. 0) min a b)

differ_sum : (x y : ℕ) → x < 2 → y < 2 → differ x y ≡ (x + y) % 2
differ_sum zero y p q = omega arith
differ_sum (suc zero) zero p q = refl
differ_sum (suc zero) (suc zero) p q = refl
differ_sum (suc zero) (suc (suc y)) p q = absurd (omega arith)
differ_sum (suc (suc x)) y p q = absurd (omega arith)

xor_digit : (a b : ℕ) → bit_xor a b ≡ bit_xor (a / 2) (b / 2) * 2 + (a % 2 + b % 2) % 2
xor_digit zero b = simp bit_xor-bitwise (omega arith)
xor_digit (suc a) b = simp bit_xor-bitwise (
    low_digit (λ y. y) differ a b
    ∙ ap (λ t. bitwise (λ y. y) differ (suc a / 2) (b / 2) * 2 + t)
        (differ_sum (suc a % 2) (b % 2) (omega arith) (omega arith)))

-- `r | (q << k)` is a sum when `r` fits `k` bits.
pub bit_or_fields : (k q r : ℕ) → r < 2 ^ k → bit_or r (q * 2 ^ k) ≡ q * 2 ^ k + r
bit_or_fields zero q zero h = simp bit_or-bitwise (omega arith)
bit_or_fields zero q (suc r) h = absurd (omega arith)
bit_or_fields (suc k) q r h = omega (
  arith,
  or_digit r (q * 2 ^ suc k),
  ap (λ (t : ℕ). q * t) (pow-suc 2 k),
  pow-suc 2 k,
  halves,
  bit_or_fields k q (r / 2) (omega (arith, pow-suc 2 k)),
)
  where
    halves : bit_or (r / 2) (q * 2 ^ suc k / 2) ≡ bit_or (r / 2) (q * 2 ^ k)
    halves = ap (bit_or (r / 2)) (omega (arith, ap (λ (t : ℕ). q * t) (pow-suc 2 k)))

shifted : (a b : ℕ) → bit_xor a b / 2 ≡ bit_xor (a / 2) (b / 2)
shifted a b = omega (arith, xor_digit a b)

-- Xor-ing twice with one number gives the first number back.
xor_cancel_upto : (n a b : ℕ) → a + b ≤ n → bit_xor (bit_xor a b) b ≡ a
xor_cancel_upto zero zero zero h = refl
xor_cancel_upto zero zero (suc b) h = absurd (omega arith)
xor_cancel_upto zero (suc a) b h = absurd (omega arith)
xor_cancel_upto (suc n) zero zero h = refl
xor_cancel_upto (suc n) a b h = omega (
  arith,
  xor_digit a b,
  xor_digit (bit_xor a b) b,
  ap (λ t. bit_xor t (b / 2)) (shifted a b),
  xor_cancel_upto n (a / 2) (b / 2) (omega arith),
)

pub bit_xor_cancel : (a b : ℕ) → bit_xor (bit_xor a b) b ≡ a
bit_xor_cancel a b = xor_cancel_upto (a + b) a b (omega arith)

-- An exclusive or is as wide as its arguments.
pub bit_xor-lt : (k a b : ℕ) → a < 2 ^ k → b < 2 ^ k → bit_xor a b < 2 ^ k
bit_xor-lt zero zero zero p q = omega arith
bit_xor-lt zero zero (suc b) p q = absurd (omega arith)
bit_xor-lt zero (suc a) b p q = absurd (omega arith)
bit_xor-lt (suc k) a b p q = omega (
  arith,
  xor_digit a b,
  pow-suc 2 k,
  bit_xor-lt k (a / 2) (b / 2) (omega (arith, pow-suc 2 k)) (omega (arith, pow-suc 2 k)),
)

and_zero_upto : (n a : ℕ) → a ≤ n → bit_and a 0 ≡ 0
and_zero_upto n zero h = refl
and_zero_upto zero (suc a) h = absurd (omega arith)
and_zero_upto (suc n) (suc a) h =
    omega (arith, and_digit (suc a) 0, and_zero_upto n (suc a / 2) (omega arith))

pub bit_and-zero : (a : ℕ) → bit_and a 0 ≡ 0
bit_and-zero a = and_zero_upto a a (omega arith)

mod_suc_pow : (k a : ℕ) → a % 2 ^ suc k ≡ a / 2 % 2 ^ k * 2 + a % 2
mod_suc_pow k a =
    ap (λ t. t % 2 ^ suc k) parts
    ∙ add-mul-mod_self_right (a / 2 % 2 ^ k * 2 + a % 2) (a / 2 / 2 ^ k) (2 ^ suc k)
    ∙ mod-eq_of_lt fits
  where
    fits : a / 2 % 2 ^ k * 2 + a % 2 < 2 ^ suc k
    fits = omega (arith, pow-suc 2 k, mod-lt (a / 2) (one-le-pow k 2 (omega arith)))

    parts : a ≡ a / 2 % 2 ^ k * 2 + a % 2 + a / 2 / 2 ^ k * 2 ^ suc k
    parts =
        omega (arith, div-add-mod' (a / 2) (2 ^ k), ap (λ (t : ℕ). a / 2 / 2 ^ k * t) (pow-suc 2 k))

-- A mask of `k` low ones is the remainder by `2 ^ k`.
pub bit_and_mask : (k a : ℕ) → bit_and a (2 ^ k - 1) ≡ a % 2 ^ k
bit_and_mask zero a = omega (arith, bit_and-zero a)
bit_and_mask (suc k) a = omega (
  arith,
  and_digit a (2 ^ suc k - 1),
  pow-suc 2 k,
  one-le-pow k 2,
  ap (bit_and (a / 2)) half_mask,
  bit_and_mask k (a / 2),
  mod_suc_pow k a,
)
  where
    half_mask : (2 ^ suc k - 1) / 2 ≡ 2 ^ k - 1
    half_mask = omega (arith, pow-suc 2 k, one-le-pow k 2)

xor_comm_upto : (n a b : ℕ) → a + b ≤ n → bit_xor a b ≡ bit_xor b a
xor_comm_upto zero zero zero h = refl
xor_comm_upto zero zero (suc b) h = absurd (omega arith)
xor_comm_upto zero (suc a) b h = absurd (omega arith)
xor_comm_upto (suc n) zero zero h = refl
xor_comm_upto (suc n) a b h =
    omega (arith, xor_digit a b, xor_digit b a, xor_comm_upto n (a / 2) (b / 2) (omega arith))

pub bit_xor_comm : (a b : ℕ) → bit_xor a b ≡ bit_xor b a
bit_xor_comm a b = xor_comm_upto (a + b) a b (omega arith)

pub zero-bit_xor : (b : ℕ) → bit_xor 0 b ≡ b
zero-bit_xor b = simp bit_xor-bitwise refl

-- An exclusive or with a fixed number forgets nothing.
pub bit_xor_injective : (s x y : ℕ) → bit_xor s x ≡ bit_xor s y → x ≡ y
bit_xor_injective s x y e = omega (
  arith,
  bit_xor_cancel x s,
  bit_xor_cancel y s,
  ap (λ t. bit_xor t s) (bit_xor_comm x s ∙ e ∙ bit_xor_comm s y),
)
