-- ===== src/Dedup/Refine.antt =====
-- protocol/dedup.go: the bitmap implements the window of `Dedup.Window`, for every window size that
-- divides 2^32 and is at most half of it, as the default 4096 is.
use Prim.Native.Nat.{◌∣◌}
use mpfpv.Base.{
  ℕ, suc, ◌+◌, ◌-◌, ◌*◌, ◌%◌, ◌^◌, ◌≤◌, ◌<◌, ◌≡◌, refl, sym, ap, ◌∙◌, arith, Bool, true, false, ◌⊎◌,
  inl, inr, ◌==◌, if◌then◌else◌, Bool-cases, le_or_lt, le→leb, lt→leb, List, length, length-set,
}
use mpfpv.Base.Int.{pos, negsuc, ◌+ℤ◌, ◌-ℤ◌}
use mpfpv.Dedup.{
  ClientState, slot, set_bit, get_bit, clear_all, clear_ahead, seq_diff, receive, check_seq,
}
use mpfpv.Dedup.Bitmap.{
  slot-set_slot, slot-clear_all, length-clear_all, length-clear_ahead, slot-clear_ahead,
  ages_differ, turn, slot_in_range, fits,
}
use mpfpv.Dedup.Window.{
  Window, only, moved, ahead_by, offer, offer_equal, offer_ahead, offer_far_behind, offer_behind,
}

-- The slot of each age holds what the window says of that age.
pub record Represents (w : ℕ) (cs : ClientState) (v : Window) : Type 0 where
  pub started : cs.inited ≡ true
  pub same_newest : cs.max_seq ≡ v.newest
  pub newest_fits : v.newest < 2 ^ 32
  pub room : w ≤ 64 * length cs.bitmap
  pub ages : (age : ℕ) → age < w → slot cs.bitmap ((v.newest + 2 ^ 32 - age) % w) ≡ v.seen age

order_cases :
    (a b : ℕ)
    → (a ≡ b)
      ⊎ ((b < a) × (a ≤ b + 2 ^ 31))
      ⊎ (b + 2 ^ 31 < a)
      ⊎ ((a < b) × (b ≤ a + 2 ^ 31))
      ⊎ (a + 2 ^ 31 < b)
order_cases a b = omega arith

-- The wrapped distance has the sign and the size of the way round that is at most half the range.
seq_diff_cases :
    (seq max : ℕ)
    → seq < 2 ^ 32
    → max < 2 ^ 32
    → let ahead = ahead_by seq max in
      ((seq_diff seq max ≡ pos 0) × (ahead ≡ 0))
      ⊎ ((n : ℕ) × (seq_diff seq max ≡ pos (suc n)) × (ahead ≡ suc n) × (suc n ≤ 2 ^ 31))
      ⊎ ((n : ℕ) × (seq_diff seq max ≡ negsuc n) × (ahead + suc n ≡ 2 ^ 32) × (suc n ≤ 2 ^ 31))
unfolding seq_diff ◌+ℤ◌ ◌-ℤ◌
seq_diff_cases seq max hs hm = elim (order_cases seq max) [
  | inl e ↦ inl (ground arith, omega arith)
  | inr (inl h) ↦ inr (inl (seq - max - 1, ground arith, omega arith, omega arith))
  | inr (inr (inl h)) ↦ inr (inr (2 ^ 32 - (seq - max) - 1, ground arith, omega arith, omega arith))
  | inr (inr (inr (inl h))) ↦ inr (inr (max - seq - 1, ground arith, omega arith, omega arith))
  | inr (inr (inr (inr h))) ↦
      inr (inl (2 ^ 32 - (max - seq) - 1, ground arith, omega arith, omega arith))
]

module _ (w : ℕ) (positive : 0 < w) (divides : w ∣ 2 ^ 32) where
  -- A write at the newest number, over a bitmap in which every other age is right.
  pub write_newest :
      (bm : List ℕ) (v : Window)
      → v.newest < 2 ^ 32
      → w ≤ 64 * length bm
      → v.seen 0 ≡ true
      → ((age : ℕ) → age < w → 0 < age → slot bm ((v.newest + 2 ^ 32 - age) % w) ≡ v.seen age)
      → Represents w
          (record { max_seq = v.newest; bitmap = set_bit bm v.newest w; inited = true })
          v
  unfolding set_bit
  write_newest bm v hv room now rest = record {
    started = refl;
    same_newest = refl;
    newest_fits = hv;
    room = rw length-set room;
    ages = λ age h. ground (
      arith,
      slot-set_slot bm (v.newest % w) ((v.newest + 2 ^ 32 - age) % w)
          (slot_in_range w positive divides v.newest (length bm) room),
      turn w positive divides v.newest,
      ages_differ w positive divides (v.newest + 2 ^ 32) 0 age,
      fits w positive divides,
      rest age h,
    );
  }

  -- What every branch keeps: the verdict is the window's, and the new state stands for its next one.
  abbrev pub Agrees : Bool × ClientState → Bool × Window → Type 0
  Agrees r s = (r.0 ≡ s.0) × Represents w r.1 s.1

  -- The slot of an age is the same from the new newest number and from the old one moved up.
  same_place :
      (seq max ahead age : ℕ)
      → max + ahead ≡ seq ⊎ max + ahead ≡ seq + 2 ^ 32
      → age ≤ 2 ^ 32
      → (seq + 2 ^ 32 - age) % w ≡ (max + ahead + 2 ^ 32 - age) % w
  same_place seq max ahead age (inl e) h = ap (λ t. (t + 2 ^ 32 - age) % w) (sym e)
  same_place seq max ahead age (inr e) h =
      let place : seq + 2 ^ 32 - age + 2 ^ 32 ≡ max + ahead + 2 ^ 32 - age = omega arith in
      sym (turn w positive divides (seq + 2 ^ 32 - age)) ∙ ap (λ t. t % w) place

  ahead_cases :
      (seq max : ℕ)
      → seq < 2 ^ 32
      → max < 2 ^ 32
      → max + ahead_by seq max ≡ seq ⊎ max + ahead_by seq max ≡ seq + 2 ^ 32
  ahead_cases seq max hs hm = omega arith

  -- A number behind by `back` has the slot of that age.
  slot_behind :
      (seq max back : ℕ)
      → seq < 2 ^ 32
      → max < 2 ^ 32
      → ahead_by seq max + back ≡ 2 ^ 32
      → seq % w ≡ (max + 2 ^ 32 - back) % w
  slot_behind seq max back hs hm e = elim (ahead_cases seq max hs hm) [
    | inl p ↦ let place : max + 2 ^ 32 - back ≡ seq = omega arith in ap (λ t. t % w) (sym place)
    | inr p ↦
        let place : max + 2 ^ 32 - back ≡ seq + 2 ^ 32 = omega arith in
        sym (turn w positive divides seq) ∙ ap (λ t. t % w) (sym place)
  ]

  module _ (half : w ≤ 2 ^ 31) (cs : ClientState) (v : Window) (r : Represents w cs v) where
    -- Over a cleared bitmap the new number is the only one in the window.
    restart :
        (u : Window)
        → u.newest < 2 ^ 32
        → u.seen 0 ≡ true
        → ((age : ℕ) → age < w → 0 < age → u.seen age ≡ false)
        → Represents w
            (record {
              max_seq = u.newest;
              bitmap = set_bit (clear_all cs.bitmap) u.newest w;
              inited = true;
            })
            u
    restart u hu now none_else =
        write_newest (clear_all cs.bitmap) u hu (rw length-clear_all r.room) now
          λ age h h0. rw slot-clear_all (sym (none_else age h h0))

    step_ahead :
        (seq n : ℕ)
        → seq < 2 ^ 32
        → ahead_by seq v.newest ≡ suc n
        → suc n < w
        → Represents w
            (record {
              max_seq = seq;
              bitmap = set_bit (clear_ahead (suc n) cs.bitmap cs.max_seq 1 w) seq w;
              inited = true;
            })
            (moved v seq (suc n))
    step_ahead seq n hs e hn =
        write_newest (clear_ahead (suc n) cs.bitmap cs.max_seq 1 w) (moved v seq (suc n)) hs
          (rw length-clear_ahead r.room) refl rest
      where
        place :
            (age : ℕ) → age < w → (seq + 2 ^ 32 - age) % w ≡ (cs.max_seq + suc n + 2 ^ 32 - age) % w
        place age h =
            same_place seq cs.max_seq (suc n) age
              (ground (arith, r.same_newest, ahead_cases seq v.newest hs r.newest_fits))
              (omega (arith, fits w positive divides))

        rest :
            (age : ℕ)
            → age < w
            → 0 < age
            → slot (clear_ahead (suc n) cs.bitmap cs.max_seq 1 w) ((seq + 2 ^ 32 - age) % w)
              ≡ (moved v seq (suc n)).seen age
        rest age h h0 = rw (place age h) (
            ground (
              arith,
              slot-clear_ahead w positive divides (suc n) cs.bitmap cs.max_seq (suc n) 1 age r.room,
              r.ages (age - suc n),
              r.same_newest,
            ))

    behind_cases :
        (n : ℕ) → suc n ≤ 2 ^ 31 → ((w ≤ suc n) × (suc n < 2 ^ 31) ⊎ (suc n ≡ 2 ^ 31)) ⊎ (suc n < w)
    behind_cases n h = omega arith

    bit_behind :
        (seq n : ℕ)
        → seq < 2 ^ 32
        → ahead_by seq v.newest + suc n ≡ 2 ^ 32
        → suc n < w
        → slot cs.bitmap (seq % w) ≡ v.seen (suc n)
    bit_behind seq n hs e hn =
        ap (slot cs.bitmap) (slot_behind seq v.newest (suc n) hs r.newest_fits e)
        ∙ r.ages (suc n) hn

    step_behind :
        (seq n : ℕ)
        → seq < 2 ^ 32
        → ahead_by seq v.newest + suc n ≡ 2 ^ 32
        → suc n < w
        → Agrees
            (if get_bit cs.bitmap seq w
              then (true, cs)
              else (false, record cs { bitmap = set_bit cs.bitmap seq w }))
            (if v.seen (suc n)
              then (true, v)
              else (false, record v { seen = λ age. if age == suc n then true else v.seen age }))
    unfolding get_bit set_bit
    step_behind seq n hs e hn = elim (Bool-cases (v.seen (suc n))) [
      | inl old ↦ rw (bit_behind seq n hs e hn, old) (refl, r)
      | inr new ↦
          rw (bit_behind seq n hs e hn, new)
            (
              refl,
              record {
                started = r.started;
                same_newest = r.same_newest;
                newest_fits = r.newest_fits;
                room = rw length-set r.room;
                ages = λ age h. ground (
                  arith,
                  slot-set_slot cs.bitmap (seq % w) ((v.newest + 2 ^ 32 - age) % w)
                      (slot_in_range w positive divides seq (length cs.bitmap) r.room),
                  slot_behind seq v.newest (suc n) hs r.newest_fits e,
                  ages_differ w positive divides (v.newest + 2 ^ 32) (suc n) age hn h,
                  fits w positive divides,
                  r.ages age h,
                );
              },
            )
    ]

    -- A number ahead by `suc n`.
    receive_ahead :
        (seq n : ℕ)
        → seq < 2 ^ 32
        → ahead_by seq v.newest ≡ suc n
        → suc n ≤ 2 ^ 31
        → Agrees (receive cs seq w (pos (suc n))) (offer w v seq)
    unfolding receive
    receive_ahead seq n hs e hn = elim (le_or_lt w (suc n)) [
      | inl far ↦
          rw (offer_ahead w v seq (suc n) e (omega arith) hn, le→leb w (suc n) far)
            (refl, restart (moved v seq (suc n)) hs refl (λ age h h0. ground arith))
      | inr near ↦
          rw (offer_ahead w v seq (suc n) e (omega arith) hn, lt→leb w (suc n) near)
            (refl, step_ahead seq n hs e near)
    ]

    -- A number behind by `suc n`.
    receive_behind :
        (seq n : ℕ)
        → seq < 2 ^ 32
        → ahead_by seq v.newest + suc n ≡ 2 ^ 32
        → suc n ≤ 2 ^ 31
        → Agrees (receive cs seq w (negsuc n)) (offer w v seq)
    unfolding receive
    receive_behind seq n hs e hn = elim (behind_cases n hn) [
      | inl (inl far) ↦
          rw (offer_far_behind w v seq (omega arith) (omega arith), le→leb w (suc n) (omega arith))
            (refl, restart (only seq) hs refl (λ age h h0. ground arith))
      | inl (inr tie) ↦
          rw
            (
              offer_ahead w v seq (suc n) (omega arith) (omega arith) hn,
              le→leb w (suc n) (omega arith),
            )
            (refl, restart (moved v seq (suc n)) hs refl (λ age h h0. ground arith))
      | inr near ↦
          rw (offer_behind w v seq (suc n) e (omega arith) near, lt→leb w (suc n) near)
            (step_behind seq n hs e near)
    ]

    -- For a window size that divides 2^32 and is at most half of it: from a state that stands for a
    -- window, the code gives to a 32-bit number the verdict of the window's specification, and ends in
    -- a state that stands for the specified next window.
    pub check_seq-offer : (seq : ℕ) → seq < 2 ^ 32 → Agrees (check_seq cs seq w) (offer w v seq)
    unfolding check_seq
    check_seq-offer seq hs = rw entered (elim (seq_diff_cases seq cs.max_seq hs (omega arith)) [
      | inl (e, a) ↦ rw (e, offer_equal w v seq (omega arith)) (unfold receive in (refl, r))
      | inr (inl (n, e, a, h)) ↦ rw e (receive_ahead seq n hs (omega arith) h)
      | inr (inr (n, e, a, h)) ↦ rw e (receive_behind seq n hs (omega arith) h)
    ])
      where
        entered : check_seq cs seq w ≡ receive cs seq w (seq_diff seq cs.max_seq)
        entered = ground arith
