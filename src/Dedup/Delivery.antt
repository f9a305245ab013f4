-- ===== src/Dedup/Delivery.antt =====
-- protocol/dedup.go over a whole stream of one client's packets, from its first one: which are let
-- through.
use Prim.Native.Nat.{◌∣◌}
use mpfpv.Base.{
  ℕ, ◌+◌, ◌-◌, ◌/◌, ◌%◌, ◌^◌, ◌≤◌, ◌<◌, ◌≡◌, refl, sym, arith, Bool, true, false, ◌==◌, ◌||◌, ◌∙◌,
  List, [], ◌∷◌, ◌++◌, Option, none, some, All, replicate, length-replicate, get_or-replicate,
}
use mathlib.Core.Path.{subst}
use mpfpv.Base.Bits.{has_digit-zero}
use mpfpv.Base.Bytes.{u32}
use mpfpv.Dedup.{ClientState, check_seq, new_client}
use mpfpv.Dedup.Refine.{Represents, write_newest, check_seq-offer}
use mpfpv.Dedup.Window.{Window, only, ahead_by, offer, offer_first}

-- The client's state after a stream of sequence numbers, and the specified window after it.
pub after : ℕ → ClientState → List ℕ → ClientState
after w cs [] = cs
after w cs (seq ∷ seqs) = after w (check_seq cs seq w).1 seqs

offered : ℕ → Option Window → List ℕ → Option Window
offered w o [] = o
offered w o (seq ∷ seqs) = offered w (some (offer_first w o seq).1) seqs

abbrev pub IsU32 : ℕ → Type 0
IsU32 n = n < 2 ^ 32

abbrev AllSome : (Window → Type 0) → Option Window → Type 0
AllSome P none = Unit
AllSome P (some v) = P v

abbrev pub contains : ℕ → List ℕ → Bool
contains x [] = false
contains x (y ∷ ys) = y == x || contains x ys

abbrev Stands : ℕ → ClientState → Option Window → Type 0
Stands w cs none = cs ≡ new_client w
Stands w cs (some v) = Represents w cs v

All-map : {P Q : ℕ → Type 0} → ((t : ℕ) → P t → Q t) → (ts : List ℕ) → All P ts → All Q ts
All-map f [] h = tt
All-map f (t ∷ ts) h = (f t h.0, All-map f ts h.1)

All-contained :
    (seqs : List ℕ) → All IsU32 seqs → All (λ t. IsU32 t × (contains t seqs ≡ true)) seqs
All-contained [] h = tt
All-contained (x ∷ xs) h =
    ((h.0, ground arith), All-map (λ t q. (q.0, ground arith)) xs (All-contained xs h.1))

after-append :
    (w : ℕ) (cs : ClientState) (xs ys : List ℕ) → after w cs (xs ++ ys) ≡ after w (after w cs xs) ys
unfolding after
after-append w cs [] ys = refl
after-append w cs (x ∷ xs) ys = after-append w (check_seq cs x w).1 xs ys

module _ (w : ℕ) where
  -- The window still knows that `seq` was accepted.
  abbrev Remembers : ℕ → Window → Type 0
  Remembers seq v =
      IsU32 v.newest × (ahead_by v.newest seq < w) × (v.seen (ahead_by v.newest seq) ≡ true)

  offer-Remembers :
      (half : w ≤ 2 ^ 31) (v : Window) (s t : ℕ)
      → IsU32 s
      → IsU32 t
      → ahead_by t s < w
      → Remembers s v
      → Remembers s (offer w v t).1
  unfolding offer
  offer-Remembers half v s t hs ht near m = ground arith

  offer-true :
      (half : w ≤ 2 ^ 31) (v : Window) (s : ℕ) → IsU32 s → Remembers s v → (offer w v s).0 ≡ true
  unfolding offer
  offer-true half v s hs m = ground arith

  offer_self :
      (half : w ≤ 2 ^ 31) (positive : 0 < w) (v : Window) (s : ℕ)
      → IsU32 s
      → IsU32 v.newest
      → v.seen 0 ≡ true
      → Remembers s (offer w v s).1
  unfolding offer
  offer_self half positive v s hs hv now = ground arith

  -- Whatever the window has seen passes the test `p`.
  abbrev Recorded : (ℕ → Bool) → Window → Type 0
  Recorded p v =
      IsU32 v.newest
      × (p v.newest ≡ true)
      × ((age : ℕ) → age < w → v.seen age ≡ true → p (u32 (v.newest + 2 ^ 32 - age)) ≡ true)

  offer-Recorded :
      (p : ℕ → Bool) (half : w ≤ 2 ^ 31) (v : Window) (t : ℕ)
      → IsU32 t
      → p t ≡ true
      → Recorded p v
      → Recorded p (offer w v t).1
  unfolding offer
  offer-Recorded p half v t ht pt (hv, here, old) = (
    ground arith,
    ground arith,
    λ age h e. ground (arith, old age, old (age - ahead_by t v.newest)),
  )

  offer-true-Recorded :
      (p : ℕ → Bool) (half : w ≤ 2 ^ 31) (v : Window) (t : ℕ)
      → IsU32 t
      → Recorded p v
      → (offer w v t).0 ≡ true
      → p t ≡ true
  unfolding offer
  offer-true-Recorded p half v t ht (hv, here, old) dup =
      ground (arith, old (2 ^ 32 - ahead_by t v.newest))

  module _ (positive : 0 < w) (divides : w ∣ 2 ^ 32) (half : w ≤ 2 ^ 31) where
    pub new_client-only :
        (seq : ℕ) → IsU32 seq → Represents w (check_seq (new_client w) seq w).1 (only seq)
    unfolding check_seq
    new_client-only seq h =
        write_newest w positive divides (replicate (u32 (w + 63) / 64) 0) (only seq) h
          (omega (arith, length-replicate {A = ℕ} (u32 (w + 63) / 64) 0)) refl
          (λ age k k0. ground (
            arith,
            get_or-replicate {A = ℕ} (u32 (w + 63) / 64) ((seq + 2 ^ 32 - age) % w / 64) 0,
            has_digit-zero ((seq + 2 ^ 32 - age) % w % 64),
          ))

    check_seq-Stands :
        (cs : ClientState) (o : Option Window) (seq : ℕ)
        → IsU32 seq
        → Stands w cs o
        → ((check_seq cs seq w).0 ≡ (offer_first w o seq).0)
          × Represents w (check_seq cs seq w).1 (offer_first w o seq).1
    unfolding offer_first
    check_seq-Stands cs none seq h e = rw e (unfold check_seq in refl, new_client-only seq h)
    check_seq-Stands cs (some v) seq h r = check_seq-offer w positive divides half cs v r seq h

    after-Stands :
        (cs : ClientState) (o : Option Window) (seqs : List ℕ)
        → All IsU32 seqs
        → Stands w cs o
        → Stands w (after w cs seqs) (offered w o seqs)
    unfolding after offered
    after-Stands cs o [] h st = st
    after-Stands cs o (seq ∷ seqs) h st =
        after-Stands (check_seq cs seq w).1 (some (offer_first w o seq).1) seqs h.1
          (check_seq-Stands cs o seq h.0 st).1

    offered-Remembers :
        (s : ℕ) (v : Window) (ts : List ℕ)
        → IsU32 s
        → All (λ t. IsU32 t × (ahead_by t s < w)) ts
        → Remembers s v
        → (u : Window) × (offered w (some v) ts ≡ some u) × Remembers s u
    unfolding offered offer_first
    offered-Remembers s v [] hs near m = (v, refl, m)
    offered-Remembers s v (t ∷ ts) hs near m =
        offered-Remembers s (offer w v t).1 ts hs near.1
          (offer-Remembers half v s t hs near.0.0 near.0.1 m)

    -- The newest number of a window is seen, whatever was offered.
    offered_newest :
        (o : Option Window) (seqs : List ℕ)
        → All IsU32 seqs
        → AllSome (λ v. IsU32 v.newest × (v.seen 0 ≡ true)) o
        → AllSome (λ v. IsU32 v.newest × (v.seen 0 ≡ true)) (offered w o seqs)
    unfolding offered offer_first offer
    offered_newest o [] h k = k
    offered_newest none (seq ∷ seqs) h k = offered_newest (some (only seq)) seqs h.1 (h.0, refl)
    offered_newest (some v) (seq ∷ seqs) h k =
        offered_newest (some (offer w v seq).1) seqs h.1 (ground arith)

    offer_first_self :
        (o : Option Window) (s : ℕ)
        → IsU32 s
        → AllSome (λ v. IsU32 v.newest × (v.seen 0 ≡ true)) o
        → Remembers s (offer_first w o s).1
    unfolding offer_first
    offer_first_self none s hs k = ground arith
    offer_first_self (some v) s hs k = offer_self half positive v s hs k.0 k.1

    offered-Recorded :
        (p : ℕ → Bool) (o : Option Window) (seqs : List ℕ)
        → All (λ t. IsU32 t × (p t ≡ true)) seqs
        → AllSome (Recorded p) o
        → AllSome (Recorded p) (offered w o seqs)
    unfolding offered offer_first
    offered-Recorded p o [] h k = k
    offered-Recorded p none (seq ∷ seqs) h k =
        offered-Recorded p (some (only seq)) seqs h.1 (h.0.0, h.0.1, λ age a e. ground arith)
    offered-Recorded p (some v) (seq ∷ seqs) h k =
        offered-Recorded p (some (offer w v seq).1) seqs h.1
          (offer-Recorded p half v seq h.0.0 h.0.1 k)

    offer_first-true :
        (p : ℕ → Bool) (o : Option Window) (s : ℕ)
        → IsU32 s
        → AllSome (Recorded p) o
        → (offer_first w o s).0 ≡ true
        → p s ≡ true
    unfolding offer_first
    offer_first-true p none s hs k e = cc
    offer_first-true p (some v) s hs k e = offer-true-Recorded p half v s hs k e

    -- For a window size that divides 2^32 and is at most half of it: a 32-bit sequence number that was
    -- let in or dropped once is dropped from then on, as long as the numbers that follow it are less
    -- than a window ahead of it, in whatever order and number they come.
    pub no_replay :
        (earlier : List ℕ) (s : ℕ) (later : List ℕ)
        → All IsU32 earlier
        → IsU32 s
        → All (λ t. IsU32 t × (ahead_by t s < w)) later
        → (check_seq (after w (new_client w) (earlier ++ s ∷ later)) s w).0 ≡ true
    unfolding after
    no_replay earlier s later he hs hl = rw (after-append w (new_client w) earlier (s ∷ later)) (
        still_dropped (offer_first w o s).1 (check_seq before s w).1
          (check_seq-Stands before o s hs (after-Stands (new_client w) none earlier he refl)).1
          (offer_first_self o s hs (offered_newest none earlier he tt)))
      where
        before : ClientState
        before = after w (new_client w) earlier

        o : Option Window
        o = offered w none earlier

        still_dropped :
            (v : Window) (cs : ClientState)
            → Represents w cs v
            → Remembers s v
            → (check_seq (after w cs later) s w).0 ≡ true
        still_dropped v cs r m =
            let (u, e, k) = offered-Remembers s v later hs hl m in
            let st = after-Stands cs (some v) later (All-map (λ t q. q.0) later hl) r in
            (check_seq-Stands (after w cs later) (some u) s hs
              (subst (Stands w (after w cs later)) e st)).0
            ∙ unfold offer_first in offer-true half u s hs k

    -- For a window size that divides 2^32 and is at most half of it: a 32-bit number that is dropped
    -- after a stream of such numbers is one of the stream.
    pub dropped_was_offered :
        (seqs : List ℕ) (s : ℕ)
        → All IsU32 seqs
        → IsU32 s
        → (check_seq (after w (new_client w) seqs) s w).0 ≡ true
        → contains s seqs ≡ true
    dropped_was_offered seqs s h hs e =
        let st = after-Stands (new_client w) none seqs h refl in
        let o = offered w none seqs in
        offer_first-true (λ x. contains x seqs) o s hs
          (offered-Recorded (λ x. contains x seqs) none seqs (All-contained seqs h) tt)
          (sym (check_seq-Stands (after w (new_client w) seqs) o s hs st).0 ∙ e)
