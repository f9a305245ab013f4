-- ===== src/Dedup/Bitmap.antt =====
-- protocol/dedup.go, the bitmap: what a write does to each slot, and which slot a sequence number
-- has, counted back from the newest.
use Prim.Native.Nat.{◌∣◌}
use native.Mathlib.Nat.{le_of_dvd, mod-mod_of_dvd, div-add-mod, mod-lt}
use mpfpv.Base.{
  ℕ, zero, suc, ◌+◌, ◌-◌, ◌*◌, ◌/◌, ◌%◌, ◌^◌, ◌≤◌, ◌<◌, ◌≡◌, refl, sym, ap, ◌∙◌, arith, true, false,
  ◌⊎◌, inl, inr, ◌==◌, ltb, if◌then◌else◌, List, [], ◌∷◌, length, get_or, length-set,
  get_or-set_self, get_or-set_ne,
}
use mpfpv.Base.Bits.{set_digit, clear_digit, has-set, has-clear, has_digit-zero}
use mpfpv.Base.Bytes.{u32}
use mpfpv.Dedup.{set_slot, clear_slot, slot, clear_bit, clear_all, clear_ahead}

pub slot-set_slot :
    (bm : List ℕ) (i j : ℕ)
    → i / 64 < length bm
    → slot (set_slot bm i) j ≡ (if i == j then true else slot bm j)
slot-set_slot bm i j h = ground (
  arith,
  get_or-set_self bm (i / 64) (set_digit (get_or bm (i / 64) 0) (i % 64)) 0,
  get_or-set_ne bm (i / 64) (j / 64) (set_digit (get_or bm (i / 64) 0) (i % 64)) 0,
  has-set (get_or bm (i / 64) 0) (i % 64) (j % 64),
)

pub slot-clear_slot :
    (bm : List ℕ) (i j : ℕ)
    → i / 64 < length bm
    → slot (clear_slot bm i) j ≡ (if i == j then false else slot bm j)
slot-clear_slot bm i j h = ground (
  arith,
  get_or-set_self bm (i / 64) (clear_digit (get_or bm (i / 64) 0) (i % 64)) 0,
  get_or-set_ne bm (i / 64) (j / 64) (clear_digit (get_or bm (i / 64) 0) (i % 64)) 0,
  has-clear (get_or bm (i / 64) 0) (i % 64) (j % 64),
)

get_or-clear_all : (bm : List ℕ) (i : ℕ) → get_or (clear_all bm) i 0 ≡ 0
unfolding clear_all
get_or-clear_all [] i = refl
get_or-clear_all (x ∷ bm) zero = refl
get_or-clear_all (x ∷ bm) (suc i) = get_or-clear_all bm i

pub slot-clear_all : (bm : List ℕ) (j : ℕ) → slot (clear_all bm) j ≡ false
slot-clear_all bm j = rw get_or-clear_all (has_digit-zero (j % 64))

pub length-clear_all : (bm : List ℕ) → length (clear_all bm) ≡ length bm
unfolding clear_all
length-clear_all [] = refl
length-clear_all (x ∷ bm) = ap suc (length-clear_all bm)

pub length-clear_ahead :
    (rounds : ℕ) (bm : List ℕ) (max i w : ℕ) → length (clear_ahead rounds bm max i w) ≡ length bm
unfolding clear_ahead clear_bit
length-clear_ahead zero bm max i w = refl
length-clear_ahead (suc rounds) bm max i w =
    length-clear_ahead rounds _ max (i + 1) w ∙ length-set bm _ _

-- Numbers less than `w` apart with one remainder are equal.
le_total : (a b : ℕ) → (a ≤ b) ⊎ (b ≤ a)
le_total a b = omega arith

pub eq_of_mod : (w a b : ℕ) → a ≤ b → b < a + w → a % w ≡ b % w → a ≡ b
eq_of_mod w a b le near e = grind (arith, div-add-mod a w, div-add-mod b w)

-- The window divides the range of the sequence numbers, so that the slots go round with them.
module _ (w : ℕ) (pos : 0 < w) (divides : w ∣ 2 ^ 32) where
  pub u32-mod : (x : ℕ) → u32 x % w ≡ x % w
  u32-mod x = mod-mod_of_dvd w x divides

  pub turn : (x : ℕ) → (x + 2 ^ 32) % w ≡ x % w
  turn x =
      let same : u32 (x + 2 ^ 32) ≡ u32 x = omega arith in
      sym (u32-mod (x + 2 ^ 32)) ∙ ap (λ t. t % w) same ∙ u32-mod x

  pub slot_in_range : (x n : ℕ) → w ≤ 64 * n → x % w / 64 < n
  slot_in_range x n h = omega (arith, mod-lt x pos)

  pub fits : w ≤ 2 ^ 32
  fits = le_of_dvd (omega arith) divides

  -- Two slots back from one place are one slot only if they are equally far back.
  pub ages_differ : (q d e : ℕ) → d < w → e < w → w ≤ q → (q - d) % w ≡ (q - e) % w → d ≡ e
  ages_differ q d e hd he hq same = elim (le_total d e) [
    | inl h ↦ omega (arith, eq_of_mod w (q - e) (q - d) (omega arith) (omega arith) (sym same))
    | inr h ↦ omega (arith, eq_of_mod w (q - d) (q - e) (omega arith) (omega arith) same)
  ]

  -- The loop's round `i` clears the slot that is `back` places back from `max + k`.
  cleared_slot :
      (max k i back : ℕ) → i + back ≡ k → u32 (max + u32 i) % w ≡ (max + k + 2 ^ 32 - back) % w
  cleared_slot max k i back e =
      let same : u32 (max + u32 i) ≡ u32 (max + i) = omega arith in
      let place : max + i + 2 ^ 32 ≡ max + k + 2 ^ 32 - back = omega arith in
      ap (λ t. t % w) same ∙ u32-mod (max + i) ∙ sym (turn (max + i)) ∙ ap (λ t. t % w) place

  -- After the loop that steps up to `max + k`, the last slots up to there are clear and the others
  -- of the window are as they were.
  pub slot-clear_ahead :
      (rounds : ℕ) (bm : List ℕ) (max k i d : ℕ)
      → w ≤ 64 * length bm
      → i + rounds ≡ k + 1
      → k < w
      → d < w
      → let j = (max + k + 2 ^ 32 - d) % w in
        slot (clear_ahead rounds bm max i w) j ≡ (if ltb d rounds then false else slot bm j)
  unfolding clear_ahead clear_bit
  slot-clear_ahead zero bm max k i d room e hk hd = ground arith
  slot-clear_ahead (suc rounds) bm max k i d room e hk hd =
      let seq = u32 (max + u32 i) in
      let q = max + k + 2 ^ 32 in
      let rest =
        slot-clear_ahead rounds (clear_slot bm (seq % w)) max k (i + 1) d (rw length-set room)
          (omega arith) hk hd in
      ground (
        arith,
        rest,
        slot-clear_slot bm (seq % w) ((q - d) % w) (slot_in_range seq (length bm) room),
        cleared_slot max k i rounds (omega arith),
        ages_differ q rounds d (omega arith) hd (omega (arith, fits)),
      )
