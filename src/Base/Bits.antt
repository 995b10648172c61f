-- ===== src/Base/Bits.antt =====
-- The bit operations at variables: a mask of low bits is a remainder, a mask of one byte higher up
-- is a digit, and `|` of fields that do not overlap is a sum.
use Prim.Native.Nat.{
  ℕ, zero, suc, ◌+◌, ◌-◌, ◌*◌, ◌/◌, ◌%◌, ◌^◌, ◌≤◌, ◌<◌, min, max, bit_and, bit_or,
}
use Prim.Native.Nat.{digits, bit_and-bitwise, bit_or-bitwise}
use mathlib.Core.Path.{◌≡◌, refl, ap}
use native.Mathlib.Nat.{
  pow-suc, pow-succ', one-le-pow, div-add-mod, add-mul-mod_self_right, mod-eq_of_lt, add-zero,
}
use native.Mathlib.Omega.{arith}

-- `digits` stops on its own before fuel that covers its first number runs out.
digits_enough :
    (z : ℕ → ℕ) (f : ℕ → ℕ → ℕ) (m n a b : ℕ) → a ≤ m → a ≤ n → digits z f m a b ≡ digits z f n a b
digits_enough z f m n zero b hm hn = both m n
  where
    both : (m n : ℕ) → digits z f m zero b ≡ digits z f n zero b
    both zero zero = refl
    both zero (suc n) = refl
    both (suc m) zero = refl
    both (suc m) (suc n) = refl
digits_enough z f zero n (suc a) b hm hn = absurd (omega arith)
digits_enough z f (suc m) zero (suc a) b hm hn = absurd (omega arith)
digits_enough z f (suc m) (suc n) (suc a) b hm hn =
    ap (λ t. t * 2 + f (suc a % 2) (b % 2))
      (digits_enough z f m n (suc a / 2) (b / 2) (omega arith) (omega arith))

-- One binary digit off each side.
or_digit : (a b : ℕ) → bit_or a b ≡ bit_or (a / 2) (b / 2) * 2 + max (a % 2) (b % 2)
or_digit zero b = omega (arith, bit_or-bitwise 0 b, bit_or-bitwise 0 (b / 2))
or_digit (suc a) b = omega (
  arith,
  bit_or-bitwise (suc a) b,
  bit_or-bitwise (suc a / 2) (b / 2),
  digits_enough (λ y. y) max a (suc a / 2) (suc a / 2) (b / 2) (omega arith) (omega arith),
)

and_digit : (a b : ℕ) → bit_and a b ≡ bit_and (a / 2) (b / 2) * 2 + min (a % 2) (b % 2)
and_digit zero b = omega (arith, bit_and-bitwise 0 b, bit_and-bitwise 0 (b / 2))
and_digit (suc a) b = omega (
  arith,
  bit_and-bitwise (suc a) b,
  bit_and-bitwise (suc a / 2) (b / 2),
  digits_enough (λ y. 0) min a (suc a / 2) (suc a / 2) (b / 2) (omega arith) (omega arith),
)

zero-or : (b : ℕ) → bit_or 0 b ≡ b
zero-or b = bit_or-bitwise 0 b

or-zero_below : (n a : ℕ) → a ≤ n → bit_or a 0 ≡ a
or-zero_below n zero h = refl
or-zero_below zero (suc a) h = absurd (omega arith)
or-zero_below (suc n) (suc a) h =
    omega (arith, or_digit (suc a) 0, or-zero_below n (suc a / 2) (omega arith))

and-zero_below : (n a : ℕ) → a ≤ n → bit_and a 0 ≡ 0
and-zero_below n zero h = refl
and-zero_below zero (suc a) h = absurd (omega arith)
and-zero_below (suc n) (suc a) h =
    omega (arith, and_digit (suc a) 0, and-zero_below n (suc a / 2) (omega arith))

pub bit_and-zero : (a : ℕ) → bit_and a 0 ≡ 0
bit_and-zero a = and-zero_below a a (omega arith)

pow_double : (k q : ℕ) → q * 2 ^ suc k ≡ 2 * (q * 2 ^ k)
pow_double k q = omega (arith, ap (λ (t : ℕ). q * t) (pow-suc 2 k))

-- The low field stands first, as the source writes it: `low | (high << k)`.
pub or_low_high : (k r q : ℕ) → r < 2 ^ k → bit_or r (q * 2 ^ k) ≡ r + q * 2 ^ k
or_low_high zero r q h =
    let e : r ≡ 0 = omega arith in
    omega (arith, ap (λ (t : ℕ). bit_or t (q * 2 ^ 0)) e, zero-or (q * 2 ^ 0))
or_low_high (suc k) r q h = omega (
  arith,
  pow_double k q,
  pow-suc 2 k,
  or_digit r (q * 2 ^ suc k),
  ap (λ (t : ℕ). bit_or (r / 2) t) halved,
  or_low_high k (r / 2) q (omega (arith, pow-suc 2 k)),
)
  where
    halved : q * 2 ^ suc k / 2 ≡ q * 2 ^ k
    halved = omega (arith, pow_double k q)

-- A remainder by twice `p`, one binary digit off.
mod_double : (p a : ℕ) → 0 < p → a % (2 * p) ≡ a / 2 % p * 2 + a % 2
mod_double p a h = step (a / 2 / p) (a / 2 % p) (omega arith) (omega (arith, div-add-mod (a / 2) p))
  where
    parts : (q r : ℕ) → p * q + r ≡ a / 2 → a ≡ r * 2 + a % 2 + q * (2 * p)
    parts q r e = omega arith

    step : (q r : ℕ) → r < p → p * q + r ≡ a / 2 → a % (2 * p) ≡ r * 2 + a % 2
    step q r lt e = omega (
      arith,
      ap (λ (t : ℕ). t % (2 * p)) (parts q r e),
      add-mul-mod_self_right (r * 2 + a % 2) q (2 * p),
      mod-eq_of_lt {n = r * 2 + a % 2} {m = 2 * p} (omega arith),
    )

-- A mask of the `k` low bits.
pub and_mask : (k a : ℕ) → bit_and a (2 ^ k - 1) ≡ a % 2 ^ k
and_mask zero a = omega (arith, bit_and-zero a)
and_mask (suc k) a = omega (
  arith,
  pow-succ' 2 k,
  one-le-pow k 2 (omega arith),
  and_digit a (2 ^ suc k - 1),
  ap (λ (t : ℕ). bit_and (a / 2) t) halved,
  and_mask k (a / 2),
  ap (λ (t : ℕ). a % t) (pow-succ' 2 k),
  mod_double (2 ^ k) a (one-le-pow k 2 (omega arith)),
)
  where
    halved : (2 ^ suc k - 1) / 2 ≡ 2 ^ k - 1
    halved = omega (arith, pow-suc 2 k, one-le-pow k 2 (omega arith))

pub pow_add : (a b : ℕ) → 2 ^ (a + b) ≡ 2 ^ a * 2 ^ b
pow_add a zero = omega (arith, ap (λ (t : ℕ). 2 ^ t) (add-zero a))
pow_add a (suc b) = omega (
  arith,
  ap (λ (t : ℕ). 2 ^ t) shift,
  pow-suc 2 (a + b),
  pow-suc 2 b,
  ap (λ (t : ℕ). t * 2) (pow_add a b),
  ap (λ (t : ℕ). 2 ^ a * t) (pow-suc 2 b),
)
  where
    shift : a + suc b ≡ suc (a + b)
    shift = omega arith
