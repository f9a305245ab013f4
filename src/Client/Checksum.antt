-- ===== src/Client/Checksum.antt =====
-- client/client.go, recalcIPv4Checksum.
pub mod Sums
pub mod Valid
use Prim.Native.Nat.{bit_and}
use mpfpv.Base.{
  ℕ, zero, suc, ◌+◌, ◌-◌, ◌*◌, ◌/◌, ◌%◌, ◌^◌, ◌≤◌, ◌<◌, ◌≡◌, ◌≢◌, refl, ap, sym, ◌∙◌, arith, inl,
  inr, false, ◌||◌, ltb, if◌then◌else◌, Bool-cases, [], ◌∷◌, length, get_or, set, length-set,
  get_or-set_self, get_or-set_ne, All,
}
use mpfpv.Base.Bits.{or_disjoint, and-mask}
use mpfpv.Base.Bytes.{Bytes, u8, u32}
use mpfpv.Protocol.Wire.{join_u16}

-- `int(ipHeader[0]&0x0f) * 4`
abbrev pub header_length : Bytes → ℕ
header_length h = bit_and (get_or h 0 0) 0x0f * 4

-- The summing loop, from the byte `i` on, over `n` words of two bytes.
unfoldable pub sum_words : Bytes → ℕ → ℕ → ℕ → ℕ
sum_words h i zero acc = acc
sum_words h i (suc n) acc =
    sum_words h (i + 2) n (u32 (acc + join_u16 (get_or h i 0) (get_or h (i + 1) 0)))

-- `for sum > 0xffff { sum = (sum >> 16) + (sum & 0xffff) }`
unfoldable pub fold_carries : ℕ → ℕ → ℕ
fold_carries zero sum = sum
fold_carries (suc fuel) sum =
    let next = u32 (sum / 2 ^ 16 + bit_and sum 0xffff) in
    let rest = fold_carries fuel next in if ltb 0xffff sum then rest else sum

-- The folded sum of a header; two turns of the loop are enough for 32 bits.
unfoldable pub header_sum : Bytes → ℕ
unfolding sum_words fold_carries
header_sum h = fold_carries 2 (sum_words h 0 (header_length h / 2) 0)

-- `^uint16(sum)` is 0xffff - sum, once the sum fits.
unfoldable pub recalc_checksum : Bytes → Bytes
unfolding header_sum
recalc_checksum h =
    if ltb (header_length h) 20 || ltb (length h) (header_length h)
    then h
    else let cleared = set (set h 10 0) 11 0 in
      let cs = 0xffff - header_sum cleared in set (set cleared 10 (u8 (cs / 2 ^ 8))) 11 (u8 cs)
