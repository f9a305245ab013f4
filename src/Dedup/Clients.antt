-- ===== src/Dedup/Clients.antt =====
-- protocol/dedup.go, the map of clients: a call is the client's own window, and no other's.
use mpfpv.Base.{ℕ, ◌≡◌, ◌≢◌, refl, arith, false, lookup-insert, lookup-delete}
use mpfpv.Dedup.{Deduplicator, client_state, check_seq, is_duplicate, reset}

-- A call for one client decides by that client's window and moves it on; every other client's window,
-- and the window size, are as before.
pub is_duplicate_lem :
    (d : Deduplicator) (client_id other seq : ℕ)
    → other ≢ client_id
    → let r = is_duplicate d client_id seq in
      let own = check_seq (client_state d client_id) seq d.window_size in
      (r.0 ≡ own.0)
      × (client_state r.1 client_id ≡ own.1)
      × (client_state r.1 other ≡ client_state d other)
      × (r.1.window_size ≡ d.window_size)
unfolding is_duplicate
is_duplicate_lem d client_id other seq ne =
    let own = (check_seq (client_state d client_id) seq d.window_size).1 in
    (
      refl,
      ground (arith, lookup-insert client_id client_id own d.clients),
      ground (arith, lookup-insert client_id other own d.clients),
      refl,
    )

-- After a reset the client's next packet is let in, whatever its number; other clients keep theirs.
pub reset_lem :
    (d : Deduplicator) (client_id other seq : ℕ)
    → other ≢ client_id
    → ((is_duplicate (reset d client_id) client_id seq).0 ≡ false)
      × (client_state (reset d client_id) other ≡ client_state d other)
unfolding is_duplicate reset check_seq
reset_lem d client_id other seq ne = (
  ground (arith, lookup-delete client_id client_id d.clients),
  ground (arith, lookup-delete client_id other d.clients),
)
