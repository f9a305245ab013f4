-- ===== src/Client/Checksum/Sums.antt =====
-- client/client.go, recalcIPv4Checksum: the sum of the words, and the folding of its carries.
use Prim.Native.Nat.{bit_and}
use mpfpv.Base.{
  ℕ, zero, suc, ◌+◌, ◌*◌, ◌/◌, ◌%◌, ◌^◌, ◌≤◌, ◌<◌, ◌≡◌, arith, inl, inr, ltb, Bool-cases, [], ◌∷◌,
  get_or, set, All,
}
use mpfpv.Base.Bits.{or_disjoint, and-mask}
use mpfpv.Base.Bytes.{Bytes, u32}
use mpfpv.Protocol.Wire.{join_u16}
use mpfpv.Client.Checksum.{sum_words, fold_carries}

abbrev pub IsByte : ℕ → Type 0
IsByte b = b < 256

-- The words' sum as a number without bound.
unfoldable pub total : Bytes → ℕ → ℕ → ℕ
total h i zero = 0
total h i (suc n) = get_or h i 0 * 256 + get_or h (i + 1) 0 + total h (i + 2) n

get_or-IsByte : (h : Bytes) (i : ℕ) → All IsByte h → get_or h i 0 < 256
get_or-IsByte [] i a = omega arith
get_or-IsByte (x ∷ h) zero a = a.0
get_or-IsByte (x ∷ h) (suc i) a = get_or-IsByte h i a.1

pub set-IsByte : (h : Bytes) (i v : ℕ) → v < 256 → All IsByte h → All IsByte (set h i v)
set-IsByte [] i v b a = tt
set-IsByte (x ∷ h) zero v b a = (b, a.1)
set-IsByte (x ∷ h) (suc i) v b a = (a.0, set-IsByte h i v b a.1)

join_u16-add : (hi lo : ℕ) → lo < 256 → join_u16 hi lo ≡ hi * 256 + lo
join_u16-add hi lo h = omega (arith, or_disjoint 8 hi lo h)

pub total_bound : (h : Bytes) (i n : ℕ) → All IsByte h → total h i n ≤ n * 0xffff
unfolding total
total_bound h i zero a = omega arith
total_bound h i (suc n) a =
    omega (arith, total_bound h (i + 2) n a, get_or-IsByte h i a, get_or-IsByte h (i + 1) a)

pub sum_words-total :
    (h : Bytes) (i n acc : ℕ)
    → All IsByte h
    → acc + n * 0xffff < 2 ^ 32
    → sum_words h i n acc ≡ acc + total h i n
unfolding sum_words total
sum_words-total h i zero acc a fits = omega arith
sum_words-total h i (suc n) acc a fits =
    let hi = get_or-IsByte h i a in
    let lo = get_or-IsByte h (i + 1) a in
    let word = join_u16-add (get_or h i 0) (get_or h (i + 1) 0) lo in
    let new : u32 (acc + join_u16 (get_or h i 0) (get_or h (i + 1) 0))
        ≡ acc + (get_or h i 0 * 256 + get_or h (i + 1) 0) =
      omega (arith, hi, lo, word) in
    rw new (
      omega (
        arith,
        hi,
        lo,
        sum_words-total h (i + 2) n (acc + (get_or h i 0 * 256 + get_or h (i + 1) 0)) a
            (omega (arith, hi, lo)),
      ))

mask16 : (n : ℕ) → bit_and n 0xffff ≡ n % 2 ^ 16
mask16 n = omega (arith, and-mask 16 n)

pub mask4 : (n : ℕ) → bit_and n 0x0f ≡ n % 2 ^ 4
mask4 n = omega (arith, and-mask 4 n)

-- Folding keeps the sum up to multiples of 0xffff, and keeps it from being 0.
pub fold_carries_lem :
    (s : ℕ)
    → s < 2 ^ 32
    → (fold_carries 2 s ≤ 0xffff)
      × (0 < s → 0 < fold_carries 2 s)
      × (k : ℕ) × (s ≡ fold_carries 2 s + k * 0xffff)
unfolding fold_carries
fold_carries_lem s h = elim (Bool-cases (ltb 0xffff s)) [
  | inr small ↦ rw small (ground arith, λ l. l, 0, omega arith)
  | inl large ↦
      let t : u32 (s / 2 ^ 16 + bit_and s 0xffff) ≡ s / 2 ^ 16 + s % 2 ^ 16 =
        omega (arith, mask16 s) in
      rw (large, t)
        (again (s / 2 ^ 16 + s % 2 ^ 16) (omega arith) (s / 2 ^ 16) (omega arith) (ground arith))
]
  where
    again :
        (t : ℕ)
        → t ≤ 2 * 0xffff
        → (j : ℕ) → (s ≡ t + j * 0xffff)
        → 0 < t
        → (fold_carries 1 t ≤ 0xffff)
          × (0 < s → 0 < fold_carries 1 t)
          × (k : ℕ) × (s ≡ fold_carries 1 t + k * 0xffff)
    again t le j e pos = elim (Bool-cases (ltb 0xffff t)) [
      | inr small ↦ rw small (ground arith, λ l. pos, j, e)
      | inl large ↦
          let u : u32 (t / 2 ^ 16 + bit_and t 0xffff) ≡ t / 2 ^ 16 + t % 2 ^ 16 =
            omega (arith, mask16 t) in
          rw (large, u) (ground arith, λ l. ground arith, j + t / 2 ^ 16, ground arith)
    ]
