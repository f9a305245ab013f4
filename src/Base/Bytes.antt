-- ===== src/Base/Bytes.antt =====
-- Byte strings (`[]byte`, `string`) as lists of numbers, and the big-endian words of encoding/binary.
use Prim.Native.Char.{code}
use Prim.Native.String.{String}
use mpfpv.Base.{
  ℕ, ◌+◌, ◌*◌, ◌/◌, ◌%◌, ◌^◌, ◌≡◌, refl, arith, Bool, true, false, ◌&&◌, ◌||◌, ◌==◌, List, [], ◌∷◌,
  get_or,
}

abbrev pub Bytes : Type 0
Bytes = List ℕ

-- The bytes of an ASCII text.
abbrev pub codes : String → Bytes
codes String.[] = []
codes (String.◌∷◌ c s) = code c ∷ codes s

-- `uint8(n)`, `uint16(n)`, `uint32(n)`, `uint64(n)`.
abbrev pub u8 : ℕ → ℕ
u8 n = n % 2 ^ 8

abbrev pub u16 : ℕ → ℕ
u16 n = n % 2 ^ 16

abbrev pub u32 : ℕ → ℕ
u32 n = n % 2 ^ 32

abbrev pub u64 : ℕ → ℕ
u64 n = n % 2 ^ 64

-- `a == b` on strings.
abbrev pub bytes_eq : Bytes → Bytes → Bool
bytes_eq [] [] = true
bytes_eq [] (y ∷ ys) = false
bytes_eq (x ∷ xs) [] = false
bytes_eq (x ∷ xs) (y ∷ ys) = x == y && bytes_eq xs ys

-- `s == ""`.
abbrev pub is_empty : Bytes → Bool
is_empty [] = true
is_empty (x ∷ xs) = false

pub bytes_eq_refl : (xs : Bytes) → bytes_eq xs xs ≡ true
bytes_eq_refl [] = refl
bytes_eq_refl (x ∷ xs) = ground (arith, bytes_eq_refl xs)

pub bytes_eq_sound : (xs ys : Bytes) → bytes_eq xs ys ≡ true → xs ≡ ys
bytes_eq_sound [] [] h = refl
bytes_eq_sound [] (y ∷ ys) h = cc
bytes_eq_sound (x ∷ xs) [] h = cc
bytes_eq_sound (x ∷ xs) (y ∷ ys) h = ground (arith, bytes_eq_sound xs ys)

-- `binary.BigEndian.PutUint16` and `PutUint32`, as the bytes that they store.
abbrev pub put_u16 : ℕ → Bytes
put_u16 v = u8 (v / 2 ^ 8) ∷ u8 v ∷ []

abbrev pub put_u32 : ℕ → Bytes
put_u32 v = u8 (v / 2 ^ 24) ∷ u8 (v / 2 ^ 16) ∷ u8 (v / 2 ^ 8) ∷ u8 v ∷ []

-- `binary.BigEndian.Uint16(b)` and `Uint32(b)`, on two or four bytes at least.
abbrev pub get_u16 : Bytes → ℕ
get_u16 b = get_or b 0 0 * 2 ^ 8 + get_or b 1 0

abbrev pub get_u32 : Bytes → ℕ
get_u32 b = get_or b 0 0 * 2 ^ 24 + get_or b 1 0 * 2 ^ 16 + get_or b 2 0 * 2 ^ 8 + get_or b 3 0

-- `copy(dst, src)`: what `dst` holds afterwards.
abbrev pub copy : Bytes → Bytes → Bytes
copy [] src = []
copy (d ∷ dst) [] = d ∷ dst
copy (d ∷ dst) (x ∷ src) = x ∷ copy dst src

-- `strings.HasPrefix(s, prefix)`.
abbrev pub has_prefix : Bytes → Bytes → Bool
has_prefix s [] = true
has_prefix [] (p ∷ prefix) = false
has_prefix (b ∷ s) (p ∷ prefix) = b == p && has_prefix s prefix

-- `strings.Contains(s, part)`.
abbrev pub contains_part : Bytes → Bytes → Bool
contains_part [] part = has_prefix [] part
contains_part (b ∷ s) part = has_prefix (b ∷ s) part || contains_part s part
