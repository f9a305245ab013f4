-- ===== src/Client/Checksum/Valid.antt =====
-- client/client.go, recalcIPv4Checksum: the header that it leaves passes the checksum test of RFC 1071.
use Prim.Native.Nat.{bit_and}
use mpfpv.Base.{
  ℕ, zero, suc, ◌+◌, ◌-◌, ◌*◌, ◌/◌, ◌%◌, ◌^◌, ◌≤◌, ◌<◌, ◌≡◌, ◌≢◌, refl, ap, sym, ◌∙◌, arith, inl,
  inr, false, ◌||◌, ltb, Bool-cases, length, get_or, set, length-set, get_or-set_self,
  get_or-set_ne, All,
}
use mpfpv.Base.Bytes.{Bytes, u8}
use mpfpv.Client.Checksum.{header_length, sum_words, fold_carries, header_sum, recalc_checksum}
use mpfpv.Client.Checksum.Sums.{
  IsByte, total, set-IsByte, total_bound, sum_words-total, mask4, fold_carries_lem,
}

total-set : (h : Bytes) (i j n v : ℕ) → j < i → total (set h j v) i n ≡ total h i n
unfolding total
total-set h i j zero v l = refl
total-set h i j (suc n) v l = omega (
  arith,
  total-set h (i + 2) j n v (omega arith),
  get_or-set_ne h j i v 0 (omega arith),
  get_or-set_ne h j (i + 1) v 0 (omega arith),
)

put_checksum : Bytes → ℕ → ℕ → Bytes
put_checksum h hi lo = set (set h 10 hi) 11 lo

put_checksum-elsewhere :
    (h : Bytes) (hi lo i : ℕ) → i ≢ 10 → i ≢ 11 → get_or (put_checksum h hi lo) i 0 ≡ get_or h i 0
unfolding put_checksum
put_checksum-elsewhere h hi lo i a b =
    get_or-set_ne (set h 10 hi) 11 i lo 0 (λ e. b (sym e))
    ∙ get_or-set_ne h 10 i hi 0 (λ e. a (sym e))

-- The sum of the words but for the checksum.
others : Bytes → ℕ → ℕ
others h n =
    get_or h 0 0 * 256
    + get_or h 1 0
    + (get_or h 2 0 * 256 + get_or h 3 0)
    + (get_or h 4 0 * 256 + get_or h 5 0)
    + (get_or h 6 0 * 256 + get_or h 7 0)
    + (get_or h 8 0 * 256 + get_or h 9 0)
    + total h 12 n

total-split :
    (h : Bytes) (n : ℕ)
    → total h 0 (suc (suc (suc (suc (suc (suc n))))))
      ≡ others h n + (get_or h 10 0 * 256 + get_or h 11 0)
unfolding total others
total-split h n = omega arith

others-put_checksum : (h : Bytes) (hi lo n : ℕ) → others (put_checksum h hi lo) n ≡ others h n
unfolding others put_checksum
others-put_checksum h hi lo n =
    let same : (i : ℕ) → i < 10 → get_or (put_checksum h hi lo) i 0 ≡ get_or h i 0 =
      λ i l. put_checksum-elsewhere h hi lo i (omega arith) (omega arith) in
    let later : total (put_checksum h hi lo) 12 n ≡ total h 12 n =
      total-set (set h 10 hi) 12 11 n lo (omega arith) ∙ total-set h 12 10 n hi (omega arith) in
    omega
      (arith, same 0, same 1, same 2, same 3, same 4, same 5, same 6, same 7, same 8, same 9, later)

total-put_checksum :
    (h : Bytes) (hi lo n : ℕ)
    → 11 < length h
    → 6 ≤ n
    → total (put_checksum h hi lo) 0 n ≡ others h (n - 6) + (hi * 256 + lo)
unfolding put_checksum
total-put_checksum h hi lo n long six =
    ap (total (put_checksum h hi lo) 0) (omega arith)
    ∙ total-split (put_checksum h hi lo) (n - 6)
    ∙ omega (
      arith,
      others-put_checksum h hi lo (n - 6),
      get_or-set_ne (set h 10 hi) 11 10 lo 0 (omega arith),
      get_or-set_self h 10 hi 0 (omega arith),
      get_or-set_self (set h 10 hi) 11 lo 0 (omega (arith, length-set h 10 hi)),
    )

header_sum-total :
    (h : Bytes) → All IsByte h → header_sum h ≡ fold_carries 2 (total h 0 (header_length h / 2))
unfolding header_sum
header_sum-total h a =
    let exact : sum_words h 0 (header_length h / 2) 0 ≡ total h 0 (header_length h / 2) = omega (
      arith,
      sum_words-total h 0 (header_length h / 2) 0 a (omega (arith, mask4 (get_or h 0 0))),
    ) in
    ap (fold_carries 2) exact

put_checksum-IsByte :
    (h : Bytes) (hi lo : ℕ) → All IsByte h → hi < 256 → lo < 256 → All IsByte (put_checksum h hi lo)
unfolding put_checksum
put_checksum-IsByte h hi lo a x y = set-IsByte (set h 10 hi) 11 lo y (set-IsByte h 10 hi x a)

header_length-put_checksum :
    (h : Bytes) (hi lo : ℕ) → header_length (put_checksum h hi lo) ≡ header_length h
header_length-put_checksum h hi lo =
    ap (λ b. bit_and b 0x0f * 4) (put_checksum-elsewhere h hi lo 0 (omega arith) (omega arith))

length-put_checksum : (h : Bytes) (hi lo : ℕ) → length (put_checksum h hi lo) ≡ length h
unfolding put_checksum
length-put_checksum h hi lo = length-set (set h 10 hi) 11 lo ∙ length-set h 10 hi

header_sum-put_checksum :
    (h : Bytes) (cs : ℕ)
    → All IsByte h
    → 20 ≤ header_length h
    → header_length h ≤ length h
    → cs ≡ 0xffff - header_sum (put_checksum h 0 0)
    → let d = put_checksum (put_checksum h 0 0) (u8 (cs / 2 ^ 8)) (u8 cs) in
      let sum = total d 0 (header_length h / 2) in (0 < sum) × (sum % 0xffff ≡ 0)
header_sum-put_checksum h cs a long there e =
    let c : Bytes = put_checksum h 0 0 in
    let d : Bytes = put_checksum c (u8 (cs / 2 ^ 8)) (u8 cs) in
    let n : ℕ = header_length h / 2 in
    let ca : All IsByte c = put_checksum-IsByte h 0 0 a (omega arith) (omega arith) in
    let clen : header_length c ≡ header_length h = header_length-put_checksum h 0 0 in
    let six : 6 ≤ n = omega arith in
    let csum : header_sum c ≡ fold_carries 2 (others h (n - 6)) =
      header_sum-total c ca
      ∙ ap (λ l. fold_carries 2 (total c 0 (l / 2))) clen
      ∙ ap (fold_carries 2) (total-put_checksum h 0 0 n (omega arith) six ∙ omega arith) in
    let dsum : total d 0 n ≡ others h (n - 6) + (u8 (cs / 2 ^ 8) * 256 + u8 cs) =
      total-put_checksum c _ _ n (omega (arith, length-put_checksum h 0 0)) six
      ∙ ap (λ o. o + (u8 (cs / 2 ^ 8) * 256 + u8 cs)) (others-put_checksum h 0 0 (n - 6)) in
    let small : others h (n - 6) < 2 ^ 31 = omega (
      arith,
      total-split h (n - 6),
      total_bound h 0 (suc (suc (suc (suc (suc (suc (n - 6))))))) a,
      mask4 (get_or h 0 0),
    ) in
    let (f1, f2, k, f3) = fold_carries_lem (others h (n - 6)) (omega (arith, small)) in
    let word : u8 (cs / 2 ^ 8) * 256 + u8 cs ≡ cs = omega (arith, e) in
    let bound : fold_carries 2 (others h (n - 6)) ≤ 0xffff = f1 in
    let all : total d 0 n ≡ (k + 1) * 0xffff = omega (arith, e, csum, dsum, word, bound, f3) in
    (omega (arith, all), omega (arith, all))

-- A header of bytes whose length field names at least 20 bytes, all of them there, is turned into one
-- of the same length in which no other byte than the two of the checksum differs and which passes the test of
-- RFC 1071: the sum of all its 16-bit words, its addresses and options with them, is not 0 and is a multiple
-- of 0xffff.
pub recalc_checksum_lem :
    (h : Bytes)
    → All IsByte h
    → 20 ≤ header_length h
    → header_length h ≤ length h
    → let r = recalc_checksum h in
      let sum = total r 0 (header_length h / 2) in
      (0 < sum)
      × (sum % 0xffff ≡ 0)
      × (length r ≡ length h)
      × ((i : ℕ) → i ≢ 10 → i ≢ 11 → get_or r i 0 ≡ get_or h i 0)
unfolding recalc_checksum put_checksum
recalc_checksum_lem h a long there =
    let sound : (ltb (header_length h) 20 || ltb (length h) (header_length h)) ≡ false =
      ground arith in
    let (some, exact) = header_sum-put_checksum h (0xffff - header_sum c) a long there refl in
    rw sound (
      some,
      exact,
      length-set (set c 10 _) 11 _
          ∙ length-set c 10 _
          ∙ length-set (set h 10 0) 11 0
          ∙ length-set h 10 0,
      λ i x y. put_checksum-elsewhere c _ _ i x y ∙ put_checksum-elsewhere h 0 0 i x y,
    )
  where
    c : Bytes
    c = put_checksum h 0 0

-- No other byte than the checksum's two is touched.
pub recalc_checksum-elsewhere :
    (h : Bytes) (i : ℕ) → i ≢ 10 → i ≢ 11 → get_or (recalc_checksum h) i 0 ≡ get_or h i 0
unfolding recalc_checksum put_checksum
recalc_checksum-elsewhere h i a b =
    elim (Bool-cases (ltb (header_length h) 20 || ltb (length h) (header_length h))) [
      | inl bad ↦ rw bad refl
      | inr good ↦ rw good (
          put_checksum-elsewhere (put_checksum h 0 0) _ _ i a b
          ∙ put_checksum-elsewhere h 0 0 i a b)
    ]
