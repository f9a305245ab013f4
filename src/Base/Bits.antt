-- ===== src/Base/Bits.antt =====
-- The binary digits of a word, and what `|`, `&` and `&^` with `1 << k` do to each of them.
use Prim.Native.Nat.{
  ◌-◌, min, max, digits, differ, bitwise, bit_and, bit_or, bit_xor, bit_and-bitwise, bit_or-bitwise,
  bit_xor-bitwise,
}
use native.Mathlib.Nat.{pow-suc, one-le-pow}
use mpfpv.Base.{
  ℕ, zero, suc, ◌+◌, ◌*◌, ◌/◌, ◌%◌, ◌^◌, ◌≤◌, ◌<◌, ◌≡◌, refl, ap, arith, Bool, true, false, ◌⊎◌,
  inl, inr, ◌==◌, if◌then◌else◌,
}

-- Digit `k` of `w`, lowest first.
pub digit : ℕ → ℕ → ℕ
digit w zero = w % 2
digit w (suc k) = digit (w / 2) k

module _ (z : ℕ → ℕ) (f : ℕ → ℕ → ℕ) where
  enough_digits : (n m a b : ℕ) → a ≤ n → a ≤ m → digits z f n a b ≡ digits z f m a b
  enough_digits zero zero a b p q = refl
  enough_digits zero (suc m) zero b p q = refl
  enough_digits zero (suc m) (suc a) b p q = absurd (omega arith)
  enough_digits (suc n) zero zero b p q = refl
  enough_digits (suc n) zero (suc a) b p q = absurd (omega arith)
  enough_digits (suc n) (suc m) zero b p q = refl
  enough_digits (suc n) (suc m) (suc a) b p q =
      rw (enough_digits n m (suc a / 2) (b / 2) (omega arith) (omega arith))

  lowest_digit :
      (a b : ℕ)
      → bitwise z f (suc a) b ≡ bitwise z f (suc a / 2) (b / 2) * 2 + f (suc a % 2) (b % 2)
  lowest_digit a b =
      omega (arith, enough_digits a (suc a / 2) (suc a / 2) (b / 2) (omega arith) (omega arith))

or_lowest : (a b : ℕ) → bit_or a b ≡ bit_or (a / 2) (b / 2) * 2 + max (a % 2) (b % 2)
or_lowest zero b = simp bit_or-bitwise (omega arith)
or_lowest (suc a) b = simp bit_or-bitwise (lowest_digit (λ y. y) max a b)

and_lowest : (a b : ℕ) → bit_and a b ≡ bit_and (a / 2) (b / 2) * 2 + min (a % 2) (b % 2)
and_lowest zero b = simp bit_and-bitwise (omega arith)
and_lowest (suc a) b = simp bit_and-bitwise (lowest_digit (λ y. 0) min a b)

differ-zero : (x : ℕ) → differ x 0 ≡ x
differ-zero zero = refl
differ-zero (suc x) = refl

differ_bits : (x y : ℕ) → x < 2 → y < 2 → differ x y ≡ (x + y) % 2
differ_bits zero y h k = omega arith
differ_bits (suc zero) zero h k = refl
differ_bits (suc zero) (suc zero) h k = refl
differ_bits (suc zero) (suc (suc y)) h k = absurd (omega arith)
differ_bits (suc (suc x)) y h k = absurd (omega arith)

xor_lowest : (a b : ℕ) → bit_xor a b ≡ bit_xor (a / 2) (b / 2) * 2 + (a % 2 + b % 2) % 2
xor_lowest zero b = simp bit_xor-bitwise (omega arith)
xor_lowest (suc a) b = simp bit_xor-bitwise (
    omega (
      arith,
      lowest_digit (λ y. y) differ a b,
      differ_bits (suc a % 2) (b % 2) (omega arith) (omega arith),
    ))

pub digit-le : (w k : ℕ) → digit w k ≤ 1
unfolding digit
digit-le w zero = omega arith
digit-le w (suc k) = digit-le (w / 2) k

or-zero : (n w : ℕ) → w ≤ n → bit_or w 0 ≡ w
or-zero n zero h = refl
or-zero zero (suc w) h = absurd (omega arith)
or-zero (suc n) (suc w) h = omega (arith, or_lowest (suc w) 0, or-zero n (suc w / 2) (omega arith))

zero_or_one : (n : ℕ) → n ≤ 1 → (n ≡ 0) ⊎ (n ≡ 1)
zero_or_one n h = omega arith

half_or : (a b : ℕ) → bit_or a b / 2 ≡ bit_or (a / 2) (b / 2)
half_or a b = omega (arith, or_lowest a b)

half_and : (a b : ℕ) → bit_and a b / 2 ≡ bit_and (a / 2) (b / 2)
half_and a b = omega (arith, and_lowest a b)

half_xor : (a b : ℕ) → bit_xor a b / 2 ≡ bit_xor (a / 2) (b / 2)
half_xor a b = omega (arith, xor_lowest a b)

digit-or : (a b k : ℕ) → digit (bit_or a b) k ≡ max (digit a k) (digit b k)
unfolding digit
digit-or a b zero = omega (arith, or_lowest a b)
digit-or a b (suc k) = rw half_or (digit-or (a / 2) (b / 2) k)

digit-and : (a b k : ℕ) → digit (bit_and a b) k ≡ min (digit a k) (digit b k)
unfolding digit
digit-and a b zero = omega (arith, and_lowest a b)
digit-and a b (suc k) = rw half_and (digit-and (a / 2) (b / 2) k)

digit-xor : (a b k : ℕ) → digit (bit_xor a b) k ≡ (digit a k + digit b k) % 2
unfolding digit
digit-xor a b zero = omega (arith, xor_lowest a b)
digit-xor a b (suc k) = rw half_xor (digit-xor (a / 2) (b / 2) k)

pub digit-zero : (k : ℕ) → digit 0 k ≡ 0
unfolding digit
digit-zero zero = refl
digit-zero (suc k) = digit-zero k

half_pow : (k : ℕ) → 2 ^ suc k / 2 ≡ 2 ^ k
half_pow k = omega (arith, pow-suc 2 k)

digit-pow : (k j : ℕ) → digit (2 ^ k) j ≡ (if k == j then 1 else 0)
unfolding digit
digit-pow zero zero = refl
digit-pow zero (suc j) = ground (arith, digit-zero j)
digit-pow (suc k) zero = ground (arith, pow-suc 2 k)
digit-pow (suc k) (suc j) = rw half_pow (ground (arith, digit-pow k j))

-- `w |= 1 << k`, `w &^= 1 << k` and `w & (1 << k) != 0`. (`x &^ y` is `x` less its part in `y`.)
pub set_digit : ℕ → ℕ → ℕ
set_digit w k = bit_or w (2 ^ k)

pub clear_digit : ℕ → ℕ → ℕ
clear_digit w k = bit_xor w (bit_and w (2 ^ k))

pub has_digit : ℕ → ℕ → Bool
has_digit w k = if bit_and w (2 ^ k) == 0 then false else true

and-zero : (n w : ℕ) → w ≤ n → bit_and w 0 ≡ 0
and-zero n zero h = refl
and-zero zero (suc w) h = absurd (omega arith)
and-zero (suc n) (suc w) h =
    omega (arith, and_lowest (suc w) 0, and-zero n (suc w / 2) (omega arith))

half_and_pow : (w k : ℕ) → bit_and w (2 ^ suc k) ≡ 2 * bit_and (w / 2) (2 ^ k)
half_and_pow w k = ground (arith, and_lowest w (2 ^ suc k), half_pow k, pow-suc 2 k)

and-pow : (w k : ℕ) → bit_and w (2 ^ k) ≡ digit w k * 2 ^ k
unfolding digit
and-pow w zero = omega (arith, and_lowest w 1, and-zero (w / 2) (w / 2) (omega arith))
and-pow w (suc k) = omega (
  arith,
  half_and_pow w k,
  and-pow (w / 2) k,
  pow-suc 2 k,
  ap (λ (t : ℕ). digit (w / 2) k * t) (pow-suc 2 k),
)

pub has_digit-digit : (w k : ℕ) → has_digit w k ≡ (digit w k == 1)
unfolding has_digit
has_digit-digit w k = elim (zero_or_one (digit w k) (digit-le w k)) [
  | inl e ↦ ground (arith, and-pow w k, ap (λ (t : ℕ). t * 2 ^ k) e)
  | inr e ↦ ground (arith, and-pow w k, ap (λ (t : ℕ). t * 2 ^ k) e, one-le-pow k 2)
]

-- Setting a digit changes that digit alone.
pub has-set : (w k j : ℕ) → has_digit (set_digit w k) j ≡ (if k == j then true else has_digit w j)
unfolding set_digit
has-set w k j =
    rw (has_digit-digit (bit_or w (2 ^ k)) j, has_digit-digit w j)
      (ground (arith, digit-or w (2 ^ k) j, digit-pow k j, digit-le w j))

-- Clearing a digit changes that digit alone.
pub has-clear :
    (w k j : ℕ) → has_digit (clear_digit w k) j ≡ (if k == j then false else has_digit w j)
unfolding clear_digit
has-clear w k j =
    rw (has_digit-digit (bit_xor w (bit_and w (2 ^ k))) j, has_digit-digit w j)
      (ground (
        arith,
        digit-xor w (bit_and w (2 ^ k)) j,
        digit-and w (2 ^ k) j,
        digit-pow k j,
        digit-le w j,
      ))

pub has_digit-zero : (k : ℕ) → has_digit 0 k ≡ false
has_digit-zero k = rw has_digit-digit (ground (arith, digit-zero k))

-- `(q << k) | r` is a sum where `r` has no digit from `k` on.
pub or_disjoint : (k q r : ℕ) → r < 2 ^ k → bit_or (q * 2 ^ k) r ≡ q * 2 ^ k + r
or_disjoint zero q r h = ground (arith, or-zero q q (omega arith))
or_disjoint (suc k) q r h = ground (
  arith,
  or_lowest (q * 2 ^ suc k) r,
  ap (λ (t : ℕ). q * t) (pow-suc 2 k),
  pow-suc 2 k,
  or_disjoint k q (r / 2),
)

pow-positive : (k : ℕ) → 0 < 2 ^ k
pow-positive zero = omega arith
pow-positive (suc k) = omega (arith, pow-suc 2 k, pow-positive k)

-- `n & (2^k - 1)` is what is left of `n` below its digit `k`.
pub and-mask :
    (k n : ℕ)
    → (bit_and n (2 ^ k - 1) < 2 ^ k) × ((q : ℕ) × (n ≡ q * 2 ^ k + bit_and n (2 ^ k - 1)))
and-mask zero n =
    (omega (arith, and-zero n n (omega arith)), (n, omega (arith, and-zero n n (omega arith))))
and-mask (suc k) n =
    let (small, (q, e)) = and-mask k (n / 2) in
    let half : (2 ^ suc k - 1) / 2 ≡ 2 ^ k - 1 = omega (arith, pow-suc 2 k, pow-positive k) in
    let odd : (2 ^ suc k - 1) % 2 ≡ 1 = omega (arith, pow-suc 2 k, pow-positive k) in
    let low : bit_and n (2 ^ suc k - 1) ≡ bit_and (n / 2) (2 ^ k - 1) * 2 + n % 2 =
      omega (arith, and_lowest n (2 ^ suc k - 1), half, odd, ap (bit_and (n / 2)) half) in
    (
      omega (arith, low, small, pow-suc 2 k),
      (q, omega (arith, low, e, ap (λ (t : ℕ). q * t) (pow-suc 2 k))),
    )
