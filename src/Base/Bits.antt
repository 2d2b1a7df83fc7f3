-- ===== src/Base/Bits.antt =====
-- Flag words: Go's `&`, `|` and `&^` on unsigned numbers, with the laws that the flag tests rely on.
use Prim.Native.Nat.{
  ℕ, zero, suc, ◌+◌, ◌-◌, ◌*◌, ◌/◌, ◌%◌, ◌≤◌, min, max, bit_and, bit_or, digits, bitwise,
  bit_and-bitwise, bit_or-bitwise,
}
use mathlib.Core.Path.{◌≡◌, refl, sym, ap, ◌∙◌}
use native.Mathlib.Omega.{arith}

-- `a & b`, `a | b`, `a &^ b`.
abbrev pub and_bits : ℕ → ℕ → ℕ
and_bits a b = bit_and a b

abbrev pub or_bits : ℕ → ℕ → ℕ
or_bits a b = bit_or a b

abbrev pub clear_bits : ℕ → ℕ → ℕ
clear_bits a b = a - bit_and a b

-- Any operation by digits: a count that reaches the first number is as good as a larger one.
module _ (z : ℕ → ℕ) (f : ℕ → ℕ → ℕ) where
  no_digits : (n b : ℕ) → digits z f n 0 b ≡ z b
  no_digits zero b = refl
  no_digits (suc n) b = refl

  one_more : (n a b : ℕ) → a ≤ n → digits z f (suc n) a b ≡ digits z f n a b
  one_more n zero b h = no_digits (suc n) b ∙ sym (no_digits n b)
  one_more zero (suc a) b h = absurd (omega arith)
  one_more (suc n) (suc a) b h =
      ap (λ d. d * 2 + f (suc a % 2) (b % 2)) (one_more n (suc a / 2) (b / 2) (omega arith))

  any_more : (k n a b : ℕ) → a ≤ n → digits z f (n + k) a b ≡ digits z f n a b
  any_more zero n a b h = ap (λ m. digits z f m a b) (omega arith)
  any_more (suc k) n a b h =
      let e : n + suc k ≡ suc (n + k) = omega arith in
      ap (λ m. digits z f m a b) e ∙ (one_more (n + k) a b (omega arith) ∙ any_more k n a b h)

  -- The lowest digit, and the rest.
  abbrev bitwise_below : ℕ → ℕ → ℕ
  bitwise_below a b = bitwise z f (suc a / 2) (b / 2)

  bitwise-lowest : (a b : ℕ) → bitwise z f (suc a) b ≡ bitwise_below a b * 2 + f (suc a % 2) (b % 2)
  bitwise-lowest a b =
      let half : ℕ = suc a / 2 in
      let e : a ≡ half + (a - half) = omega arith in
      ap (λ d. d * 2 + f (suc a % 2) (b % 2))
        (ap (λ m. digits z f m half (b / 2)) e
          ∙ any_more (a - half) half half (b / 2) (omega arith))

-- The two operations by their lowest digits; the first number may be zero.
and_bits_lowest : (a b : ℕ) → and_bits a b ≡ and_bits (a / 2) (b / 2) * 2 + min (a % 2) (b % 2)
and_bits_lowest zero b = omega (arith, bit_and-bitwise 0 b, bit_and-bitwise 0 (b / 2))
and_bits_lowest (suc a) b =
    let below = bit_and-bitwise (suc a / 2) (b / 2) in
    omega (arith, bitwise-lowest (λ c. zero) min a b, below, bit_and-bitwise (suc a) b)

or_bits_lowest : (a b : ℕ) → or_bits a b ≡ or_bits (a / 2) (b / 2) * 2 + max (a % 2) (b % 2)
or_bits_lowest zero b = omega (arith, bit_or-bitwise 0 b, bit_or-bitwise 0 (b / 2))
or_bits_lowest (suc a) b =
    let below = bit_or-bitwise (suc a / 2) (b / 2) in
    omega (arith, bitwise-lowest (λ c. c) max a b, below, bit_or-bitwise (suc a) b)

-- A flag word holds all its own flags. `n` bounds the word.
self_below : (n a : ℕ) → a ≤ n → and_bits a a ≡ a
self_below n zero h = bit_and-bitwise 0 0
self_below zero (suc a) h = absurd (omega arith)
self_below (suc n) (suc a) h =
    omega (arith, and_bits_lowest (suc a) (suc a), self_below n (suc a / 2) (omega arith))

pub and_bits_self : (a : ℕ) → and_bits a a ≡ a
and_bits_self a = self_below a a (omega arith)

-- The two numbers that a word and one more flag make, halved.
or_bits-half : (a f : ℕ) → or_bits a f / 2 ≡ or_bits (a / 2) (f / 2)
or_bits-half a f = omega (arith, or_bits_lowest a f)

or_bits-parity : (a f : ℕ) → or_bits a f % 2 ≡ max (a % 2) (f % 2)
or_bits-parity a f = omega (arith, or_bits_lowest a f)

-- A flag that was set is found set.
found_below : (n a f : ℕ) → a ≤ n → and_bits (or_bits a f) f ≡ f
found_below n zero f h = rw (bit_or-bitwise 0 f) (and_bits_self f)
found_below zero (suc a) f h = absurd (omega arith)
found_below (suc n) (suc a) f h =
    and_bits_lowest (or_bits (suc a) f) f
    ∙ rw (or_bits-half (suc a) f, or_bits-parity (suc a) f)
        (omega (arith, found_below n (suc a / 2) (f / 2) (omega arith)))

pub and_bits-or_bits : (a f : ℕ) → and_bits (or_bits a f) f ≡ f
and_bits-or_bits a f = found_below a a f (omega arith)
