-- ===== src/Dedup/Tests.antt =====
-- The theorems about protocol/dedup.go at small windows and streams.
use Prim.Native.Nat.{◌∣◌}
use Prim.{∣◌∣₁}
use mpfpv.Base.{◌^◌, ◌≡◌, refl, arith, true, [], ◌∷◌, ◌++◌}
use mpfpv.Dedup.{Deduplicator, ClientState, new_client, check_seq}
use mpfpv.Dedup.Window.{only, offer}
use mpfpv.Dedup.Refine.{Agrees, check_seq-offer}
use mpfpv.Dedup.Delivery.{after, contains, new_client-only, no_replay, dropped_was_offered}

size_divides : 64 ∣ 2 ^ 32
size_divides = ∣ (2 ^ 26, refl) ∣₁

-- A window of 64 numbers that has seen 5.
abbrev seen_five : ClientState
seen_five = (check_seq (new_client 64) 5 64).1

check_seq-offer_example :
    Agrees 64 (omega arith) size_divides (check_seq seen_five 3 64) (offer 64 (only 5) 3)
check_seq-offer_example =
    check_seq-offer 64 (omega arith) size_divides (omega arith) seen_five (only 5)
      (new_client-only 64 (omega arith) size_divides (omega arith) 5 (omega arith)) 3 (omega arith)

no_replay_example :
    (check_seq (after 64 (new_client 64) ((1 ∷ 2 ∷ []) ++ 7 ∷ (9 ∷ 8 ∷ 70 ∷ []))) 7 64).0 ≡ true
no_replay_example =
    no_replay 64 (omega arith) size_divides (omega arith) (1 ∷ 2 ∷ []) 7 (9 ∷ 8 ∷ 70 ∷ [])
      (omega arith, (omega arith, tt)) (omega arith)
      ((omega arith, omega arith), ((omega arith, omega arith), ((omega arith, omega arith), tt)))

dropped_was_offered_example : contains 4 (5 ∷ 4 ∷ 6 ∷ []) ≡ true
dropped_was_offered_example =
    dropped_was_offered 64 (omega arith) size_divides (omega arith) (5 ∷ 4 ∷ 6 ∷ []) 4
      (omega arith, (omega arith, (omega arith, tt))) (omega arith)
      (no_replay 64 (omega arith) size_divides (omega arith) (5 ∷ []) 4 (6 ∷ []) (omega arith, tt)
        (omega arith) ((omega arith, omega arith), tt))

-- Client 7 has a window with 5 in it, client 9 has none.
abbrev one_client : Deduplicator
one_client = record { window_size = 64; clients = (7, seen_five) ∷ [] }
