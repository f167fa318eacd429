-- ===== src/Bits.antt =====
-- Permission sets are `u64` masks (crates/rekindle-protocol/src/dht/community.rs). A mask is read
-- here one bit at a time: what `|`, `&` and `!` do to each bit.
use Prim.Native.Nat.{min, max, digits, bit_and, bit_or, bit_and-bitwise, bit_or-bitwise}
use native.Mathlib.Nat.{pow-suc}
use rekindle.Base.{
  ℕ, zero, suc, ◌+◌, ◌*◌, ◌/◌, ◌%◌, ◌-◌, ◌≤◌, ◌<◌, ◌≡◌, refl, ap, ◌∙◌, Bool, false, not, ◌&&◌, ◌||◌,
  arith, ◌==◌, ◌^◌, if◌then◌else◌,
}

-- Bit `i` of a number, counted from the lowest.
unfoldable pub has_bit : ℕ → ℕ → Bool
has_bit zero n = n % 2 == 1
has_bit (suc i) n = has_bit i (n / 2)

-- `!n` on a word of `w` bits: each of the `w` lowest digits turned over.
unfoldable pub complement : ℕ → ℕ → ℕ
complement zero n = 0
complement (suc w) n = complement w (n / 2) * 2 + (1 - n % 2)

has_bit-suc : (i d r : ℕ) → r < 2 → has_bit (suc i) (d * 2 + r) ≡ has_bit i d
unfolding has_bit
has_bit-suc i d r h = ap (has_bit i) (omega arith)

pub has_bit-zero : (i : ℕ) → has_bit i 0 ≡ false
unfolding has_bit
has_bit-zero zero = refl
has_bit-zero (suc i) = has_bit-zero i

has_bit-or_digits :
    (n i a b : ℕ) → a ≤ n → has_bit i (digits (λ y. y) max n a b) ≡ (has_bit i a || has_bit i b)
unfolding has_bit
has_bit-or_digits zero i zero b h = ground (arith, has_bit-zero i)
has_bit-or_digits zero i (suc a) b h = absurd (omega arith)
has_bit-or_digits (suc n) i zero b h = ground (arith, has_bit-zero i)
has_bit-or_digits (suc n) zero (suc a) b h = ground arith
has_bit-or_digits (suc n) (suc i) (suc a) b h =
    has_bit-suc i _ _ (omega arith) ∙ has_bit-or_digits n i (suc a / 2) (b / 2) (omega arith)

has_bit-and_digits :
    (n i a b : ℕ) → a ≤ n → has_bit i (digits (λ y. 0) min n a b) ≡ (has_bit i a && has_bit i b)
unfolding has_bit
has_bit-and_digits zero i zero b h = ground (arith, has_bit-zero i)
has_bit-and_digits zero i (suc a) b h = absurd (omega arith)
has_bit-and_digits (suc n) i zero b h = ground (arith, has_bit-zero i)
has_bit-and_digits (suc n) zero (suc a) b h = ground arith
has_bit-and_digits (suc n) (suc i) (suc a) b h =
    has_bit-suc i _ _ (omega arith) ∙ has_bit-and_digits n i (suc a / 2) (b / 2) (omega arith)

pub has_bit-bit_or : (i a b : ℕ) → has_bit i (bit_or a b) ≡ (has_bit i a || has_bit i b)
has_bit-bit_or i a b = ap (has_bit i) (bit_or-bitwise a b) ∙ has_bit-or_digits a i a b (omega arith)

pub has_bit-bit_and : (i a b : ℕ) → has_bit i (bit_and a b) ≡ (has_bit i a && has_bit i b)
has_bit-bit_and i a b =
    ap (has_bit i) (bit_and-bitwise a b) ∙ has_bit-and_digits a i a b (omega arith)

pub has_bit-complement : (w i n : ℕ) → i < w → has_bit i (complement w n) ≡ not (has_bit i n)
unfolding has_bit complement
has_bit-complement zero i n h = absurd (omega arith)
has_bit-complement (suc w) zero n h = ground arith
has_bit-complement (suc w) (suc i) n h =
    has_bit-suc i _ _ (omega arith) ∙ has_bit-complement w i (n / 2) (omega arith)

complement_test : complement 8 0b00001111 ≡ 0b11110000
unfolding complement
complement_test = refl

-- Numbers with the same bits are equal.
pub eq_of_bits : (n a b : ℕ) → a ≤ n → b ≤ n → ((i : ℕ) → has_bit i a ≡ has_bit i b) → a ≡ b
unfolding has_bit
eq_of_bits zero a b p q h = omega arith
eq_of_bits (suc n) zero zero p q h = refl
eq_of_bits (suc n) (suc a) b p q h =
    ground
      (arith, h 0, eq_of_bits n (suc a / 2) (b / 2) (omega arith) (omega arith) (λ i. h (suc i)))
eq_of_bits (suc n) zero (suc b) p q h =
    ground
      (arith, h 0, eq_of_bits n (zero / 2) (suc b / 2) (omega arith) (omega arith) (λ i. h (suc i)))

pub has_bit-pow : (i j : ℕ) → has_bit j (2 ^ i) ≡ (i == j)
unfolding has_bit
has_bit-pow zero zero = refl
has_bit-pow zero (suc j) = ground (arith, has_bit-zero j)
has_bit-pow (suc i) zero = ground (arith, pow-suc 2 i)
has_bit-pow (suc i) (suc j) =
    ap (has_bit j) (omega (arith, pow-suc 2 i)) ∙ has_bit-pow i j ∙ ground arith

-- A mask of one bit picks that bit.
pub bit_and-pow : (i n : ℕ) → bit_and n (2 ^ i) ≡ (if has_bit i n then 2 ^ i else 0)
bit_and-pow i n = eq_of_bits (bit_and n (2 ^ i) + 2 ^ i) _ _ (omega arith) (ground arith) same
  where
    same : (j : ℕ) → has_bit j (bit_and n (2 ^ i)) ≡ has_bit j (if has_bit i n then 2 ^ i else 0)
    same j = ground (arith, has_bit-bit_and j n (2 ^ i), has_bit-pow i j, has_bit-zero j)
