-- ===== src/Dedup/Window.antt =====
-- What a client's window promises, without the bitmap: the highest sequence number and, for each
-- age counted back from it, whether the number of that age was accepted since the last restart.
use mpfpv.Base.{
  ℕ, ◌+◌, ◌-◌, ◌%◌, ◌^◌, ◌≤◌, ◌<◌, ◌≡◌, arith, Bool, true, false, ◌==◌, ltb, leb, if◌then◌else◌,
  Option, none, some,
}

pub record Window : Type 0 where
  pub newest : ℕ
  pub seen : ℕ → Bool

-- A window that has seen `seq` alone.
abbrev pub only : ℕ → Window
only seq = record { newest = seq; seen = λ age. age == 0 }

-- How far `seq` is ahead of `newest`, modulo 2^32; half the range or less counts as ahead.
abbrev pub ahead_by : ℕ → ℕ → ℕ
ahead_by seq newest = (seq + 2 ^ 32 - newest) % 2 ^ 32

-- The window moved up by `ahead` to `seq`: what fell between is not seen, the rest is older.
abbrev pub moved : Window → ℕ → ℕ → Window
moved v seq ahead = record {
  newest = seq;
  seen = λ age. if age == 0 then true else if ltb age ahead then false else v.seen (age - ahead);
}

-- Ahead: the window moves up. Equal: a duplicate. Behind by less than the window: a duplicate exactly
-- if it was seen. Further behind: the sender started again.
unfoldable pub offer : ℕ → Window → ℕ → Bool × Window
offer w v seq =
    let ahead = ahead_by seq v.newest in
    let behind = 2 ^ 32 - ahead in
    if ahead == 0
    then (true, v)
    else if leb ahead (2 ^ 31)
    then (false, moved v seq ahead)
    else if leb w behind
    then (false, only seq)
    else if v.seen behind
    then (true, v)
    else (false, record v { seen = λ age. if age == behind then true else v.seen age })

unfoldable pub offer_first : ℕ → Option Window → ℕ → Bool × Window
unfolding offer
offer_first w none seq = (false, only seq)
offer_first w (some v) seq = offer w v seq

module _ (w : ℕ) (v : Window) (seq : ℕ) where
  pub offer_equal : ahead_by seq v.newest ≡ 0 → offer w v seq ≡ (true, v)
  unfolding offer
  offer_equal e = ground arith

  pub offer_ahead :
      (ahead : ℕ)
      → ahead_by seq v.newest ≡ ahead
      → 0 < ahead
      → ahead ≤ 2 ^ 31
      → offer w v seq ≡ (false, moved v seq ahead)
  unfolding offer
  offer_ahead ahead e p h = rw e (ground arith)

  pub offer_far_behind :
      2 ^ 31 < ahead_by seq v.newest
      → w + ahead_by seq v.newest ≤ 2 ^ 32
      → offer w v seq ≡ (false, only seq)
  unfolding offer
  offer_far_behind h k = ground arith

  pub offer_behind :
      (behind : ℕ)
      → ahead_by seq v.newest + behind ≡ 2 ^ 32
      → behind < 2 ^ 31
      → behind < w
      → offer w v seq ≡ (
          if v.seen behind
          then (true, v)
          else (false, record v { seen = λ age. if age == behind then true else v.seen age }))
  unfolding offer
  offer_behind behind e h k =
      let e' : 2 ^ 32 - ahead_by seq v.newest ≡ behind = omega arith in rw e' (ground arith)
