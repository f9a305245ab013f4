-- ===== src/Client/Health.antt =====
-- client/transport.go: the health of a path under sends, acks and checks.
use native.Mathlib.Nat.{le-div_iff_mul-le, div-le_of_le-mul}
use mpfpv.Base.{
  ℕ, zero, suc, ◌+◌, ◌-◌, ◌*◌, ◌≤◌, ◌<◌, ◌≡◌, ◌≢◌, refl, ap, ◌∙◌, arith, inl, inr, Bool, true,
  false, ◌==◌, ◌&&◌, ◌||◌, not, ltb, if◌then◌else◌, Bool-cases, List, [], ◌∷◌, ◌++◌, none, some,
  length, drop, All, lookup, length-append, length-drop,
}
use mpfpv.Base.Bytes.{Bytes}
use mpfpv.Client.Paths.{
  down, NetPath, rtt_window_size, is_active, is_down, send_on, heartbeat_on, send_each, send, sum,
  average_duration, add_sample, count_received, recycle, check_path, remove_path, any_closed, stop,
  path_stale_timeout, recycle_max_attempts, recycle_min_interval,
}

drop-append_left : (n : ℕ) (xs ys : List ℕ) → n ≤ length xs → drop n (xs ++ ys) ≡ drop n xs ++ ys
drop-append_left zero xs ys h = refl
drop-append_left (suc n) [] ys h = absurd (omega arith)
drop-append_left (suc n) (x ∷ xs) ys h = drop-append_left n xs ys (omega arith)

-- The sample window gains the new sample at its end and, once it holds ten, loses its oldest; so it
-- never holds more than ten.
pub add_sample-window :
    (rtt : ℕ) (samples : List ℕ)
    → length samples ≤ rtt_window_size
    → (add_sample rtt samples
        ≡ drop (if length samples == rtt_window_size then 1 else 0) samples ++ (rtt ∷ []))
      × (length (add_sample rtt samples) ≤ rtt_window_size)
unfolding add_sample
add_sample-window rtt samples h =
    let len : length (samples ++ (rtt ∷ [])) ≡ length samples + 1 =
      length-append samples (rtt ∷ []) in
    elim (Bool-cases (length samples == rtt_window_size)) [
      | inl full ↦
          let over : ltb rtt_window_size (length samples + 1) ≡ true = ground arith in
          let one : length samples + 1 - rtt_window_size ≡ 1 = ground arith in
          rw (full, len, over)
            (
              ap (λ k. drop k (samples ++ (rtt ∷ []))) one
                  ∙ drop-append_left 1 samples (rtt ∷ []) (ground arith),
              ground (
                arith,
                length-drop (length samples + 1 - rtt_window_size) (samples ++ (rtt ∷ [])),
              ),
            )
      | inr short ↦
          let fits : ltb rtt_window_size (length samples + 1) ≡ false = ground arith in
          rw (short, len, fits) (refl, ground (arith, len))
    ]

-- Every sample lies between two bounds.
abbrev pub Between : ℕ → ℕ → List ℕ → Type 0
Between lo hi ds = All (λ d. (lo ≤ d) × (d ≤ hi)) ds

sum-Between :
    (lo hi : ℕ) (ds : List ℕ)
    → Between lo hi ds
    → (lo * length ds ≤ sum ds) × (sum ds ≤ hi * length ds)
sum-Between lo hi [] h = (omega arith, omega arith)
sum-Between lo hi (d ∷ ds) h =
    let (below, above) = sum-Between lo hi ds h.1 in
    (ground (arith, below, h.0), ground (arith, above, h.0))

-- The mean of one or more samples lies between any bounds that all of them keep.
pub average_duration-Between :
    (lo hi : ℕ) (ds : List ℕ)
    → 0 < length ds
    → Between lo hi ds
    → (lo ≤ average_duration ds) × (average_duration ds ≤ hi)
unfolding average_duration
average_duration-Between lo hi ds some_sample h =
    let (below, above) = sum-Between lo hi ds h in
    let some : (length ds == 0) ≡ false = ground arith in
    rw some
      ((le-div_iff_mul-le some_sample).1 below, div-le_of_le-mul (length ds) (omega (arith, above)))

-- Some active path whose write succeeds.
abbrev pub reaches : (Bytes → Bool) → List (ℕ × NetPath) → Bool
reaches write_ok [] = false
reaches write_ok ((k, p) ∷ m) = is_active p.status && write_ok p.iface_name || reaches write_ok m

send_each-count :
    (write_ok : Bytes → Bool) (pkt : Bytes) (m : List (ℕ × NetPath))
    → not ((send_each write_ok pkt m).1 == 0) ≡ reaches write_ok m
unfolding send_each
send_each-count write_ok pkt [] = ground arith
send_each-count write_ok pkt ((k, p) ∷ m) = ground (arith, send_each-count write_ok pkt m)

-- Send succeeds exactly if some active path takes the packet.
pub send-reaches :
    (write_ok : Bytes → Bool) (pkt : Bytes) (m : List (ℕ × NetPath))
    → (send write_ok pkt m).1 ≡ reaches write_ok m
unfolding send
send-reaches write_ok pkt [] = ground arith
send-reaches write_ok pkt ((j, q) ∷ m) =
    let more : (length ((j, q) ∷ m) == 0) ≡ false = ground arith in
    rw more (send_each-count write_ok pkt ((j, q) ∷ m))

-- What happens to a path between two acks: a send, a heartbeat, a datagram received and a check that
-- does not panic.
pub data PathStep (p q : NetPath) : Type 0 where
  sending : (write_ok : Bytes → Bool) (pkt : Bytes) → q ≡ (send_on write_ok pkt p).0 → PathStep p q
  heartbeat :
      (write_ok : Bytes → Bool) (base : Bytes) → q ≡ heartbeat_on write_ok base p → PathStep p q
  receiving : (n : ℕ) → q ≡ count_received n p → PathStep p q
  checking : (bind_ok : Bool) (now : ℕ) → check_path bind_ok now p ≡ some q → PathStep p q

pub data Steps (p : NetPath) : NetPath → Type 0 where
  stay : Steps p p
  step : {q r : NetPath} → Steps p q → PathStep q r → Steps p r

PathStep-inactive :
    {p q : NetPath} → PathStep p q → is_active p.status ≡ false → is_active q.status ≡ false
unfolding check_path
PathStep-inactive (sending write_ok pkt h) e = ground arith
PathStep-inactive (heartbeat write_ok base h) e = ground arith
PathStep-inactive (receiving n h) e = ground arith
PathStep-inactive (checking bind_ok now h) e = ground arith

-- Without a heartbeat ack, a path that is not active never becomes active, whatever is sent or received
-- and whenever it is checked.
pub activation :
    {p q : NetPath} → Steps p q → is_active p.status ≡ false → is_active q.status ≡ false
activation stay e = e
activation (step before last) e = PathStep-inactive last (activation before e)

-- A path that is up and has been heard from in the last eight seconds is left alone by a check.
pub check_path-fresh :
    (bind_ok : Bool) (now : ℕ) (p : NetPath)
    → is_down p.status ≡ false
    → now ≤ p.last_recv + path_stale_timeout
    → check_path bind_ok now p ≡ some p
unfolding check_path
check_path-fresh bind_ok now p up heard = ground arith

-- Two socket replacements of one path are more than ten seconds apart.
pub check_path-spacing :
    (bind_ok : Bool) (now t : ℕ) (p q : NetPath)
    → p.last_recycled ≡ some t
    → check_path bind_ok now p ≡ some q
    → q.recycle_count ≢ p.recycle_count
    → t + recycle_min_interval < now
unfolding check_path
check_path-spacing bind_ok now t p q e checked changed = ground arith

any_closed-true :
    (name : ℕ) (q : NetPath) (paths : List (ℕ × NetPath))
    → lookup name paths ≡ some q
    → q.closed ≡ true
    → any_closed paths ≡ true
any_closed-true name q [] there e = cc
any_closed-true name q ((k, p) ∷ m) there e = ground (arith, any_closed-true name q m)

-- A path that went down with attempts left, which is one whose socket could not be replaced.
pub record IsStranded (p : NetPath) : Type 0 where
  pub is_down_now : p.status ≡ down
  pub attempts_left : p.recycle_count < recycle_max_attempts

PathStep-IsStranded : {p q : NetPath} → PathStep p q → IsStranded p → IsStranded q
unfolding check_path
PathStep-IsStranded (sending write_ok pkt h) e = ground arith
PathStep-IsStranded (heartbeat write_ok base h) e = ground arith
PathStep-IsStranded (receiving n h) e = ground arith
PathStep-IsStranded (checking bind_ok now h) e = ground arith

Steps-IsStranded : {p q : NetPath} → Steps p q → IsStranded p → IsStranded q
Steps-IsStranded stay e = e
Steps-IsStranded (step before last) e = PathStep-IsStranded last (Steps-IsStranded before e)

-- Where a check takes a path down that was up and has attempts left, the path stays down through all later sends,
-- heartbeats, counted datagrams and checks, as long as no heartbeat ack is handled as this path's.
pub failed_recycle_strands :
    (bind_ok : Bool) (now : ℕ) (p q r : NetPath)
    → p.recycle_count < recycle_max_attempts
    → is_down p.status ≡ false
    → check_path bind_ok now p ≡ some q
    → q.status ≡ down
    → Steps q r
    → r.status ≡ down
unfolding check_path
failed_recycle_strands bind_ok now p q r left up checked went_down later =
    (Steps-IsStranded later (ground arith)).is_down_now

-- Where a path's socket could not be replaced, the next replacement panics, and so do the removal of
-- the path and Stop.
pub failed_recycle_panics :
    (now later name : ℕ) (bind_ok : Bool) (p q : NetPath) (paths : List (ℕ × NetPath))
    → recycle false now p ≡ some q
    → lookup name paths ≡ some q
    → (recycle bind_ok later q ≡ none) × (remove_path name paths ≡ none) × (stop paths ≡ none)
unfolding recycle remove_path stop
failed_recycle_panics now later name bind_ok p q paths failed there =
    (ground arith, ground arith, ground (arith, any_closed-true name q paths))
