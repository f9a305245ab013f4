-- ===== src/Client/Run/Panics.antt =====
-- client/client.go and client/transport.go: while the sockets of paths can be replaced, no tick and no end
-- of the client closes a channel twice.
use mpfpv.Base.{
  ℕ, ◌≡◌, refl, arith, inl, inr, Bool, true, false, Bool-cases, Option-cases, List, [], ◌∷◌, Option,
  some,
}
use mpfpv.Base.Bytes.{Bytes}
use mpfpv.Base.Results.{ok}
use mpfpv.Config.{Config}
use mpfpv.Client.Paths.{NetPath, confirm, check_path, check_paths, any_closed, stop}
use mpfpv.Client.Handlers.{Client}
use mpfpv.Client.Interfaces.{Interface, scan_interfaces}
use mpfpv.Client.Interfaces.Total.{detect_changes_total}
use mpfpv.Client.Every.{Every, lookup-Every}
use mpfpv.Client.Sockets.{System, Socket, open_sockets, is_v4, not_excluded}
use mpfpv.Client.Run.{make_client, send_heartbeat, heartbeat_tick, poll_tick, shutdown, Turns}
use mpfpv.Client.Run.Safety.{Kept, AllBind, send_heartbeat-Every, run-Every}

abbrev pub IsOpen : NetPath → Type 0
IsOpen p = p.closed ≡ false

abbrev pub Succeeds : Bool → Type 0
Succeeds b = b ≡ true

IsOpen-Kept : Kept IsOpen Succeeds
unfolding confirm check_path
IsOpen-Kept = record {
  fresh = λ name local_addr now. refl;
  sent = λ write_ok pkt p h. ground (arith, h);
  beaten = λ write_ok pkt p h. ground (arith, h);
  confirmed = λ rtt now p h. h;
  received = λ n p h. h;
  checked = λ bind_ok now p q b h e. ground (arith, b, h);
}

check_path_total :
    (bind_ok : Bool) (now : ℕ) (p : NetPath)
    → IsOpen p
    → (q : NetPath) × (check_path bind_ok now p ≡ some q)
unfolding check_path
check_path_total bind_ok now p h = elim (Option-cases (check_path bind_ok now p)) [
  | inl panic ↦ absurd (ground (arith, h))
  | inr (q, done) ↦ (q, done)
]

check_paths_total :
    (bind_ok : ℕ → Bool) (now : ℕ) (m : List (ℕ × NetPath))
    → Every IsOpen m
    → (after : List (ℕ × NetPath)) × (check_paths bind_ok now m ≡ some after)
unfolding check_paths
check_paths_total bind_ok now [] h = ([], refl)
check_paths_total bind_ok now ((k, p) ∷ m) h =
    let (q, checked) = check_path_total (bind_ok k) now p h.0 in
    let (rest, others) = check_paths_total bind_ok now m h.1 in
    ((k, q) ∷ rest, ground (arith, checked, others))

none_closed : (m : List (ℕ × NetPath)) → Every IsOpen m → any_closed m ≡ false
none_closed [] h = refl
none_closed ((k, p) ∷ m) h = rw (h.0) (none_closed m h.1)

module _ (d : Client) (open_all : Every IsOpen d.paths) where
  heartbeat_tick_total :
      (write_ok : Bytes → Bool) (bind_ok : ℕ → Bool) (resolved : Bool) (now : ℕ)
      → (e : Client) × (heartbeat_tick write_ok bind_ok resolved now d ≡ some e)
  unfolding heartbeat_tick
  heartbeat_tick_total write_ok bind_ok resolved now =
      let b = send_heartbeat write_ok resolved now d in
      let (after, done) =
        check_paths_total bind_ok now b.paths
          (send_heartbeat-Every IsOpen Succeeds IsOpen-Kept write_ok resolved now d open_all) in
      elim (Bool-cases b.use_multipath) [
        | inl many ↦ (record b { paths = after }, ground (arith, many, done))
        | inr one ↦ (b, ground (arith, one))
      ]

  poll_tick_total :
      (server : Bytes) (bind_ok : ℕ → Bool) (found : Option (List Interface)) (now : ℕ)
      → (e : Client) × (poll_tick server bind_ok found now d ≡ some e)
  unfolding poll_tick
  poll_tick_total server bind_ok found now =
      let (after, done, _) =
        detect_changes_total (is_v4 server) bind_ok now (scan_interfaces not_excluded found) d.paths
          (λ n p there. lookup-Every IsOpen n p d.paths open_all there) in
      (record d { paths = after }, rw done refl)

  shutdown_total : (e : Client) × (shutdown d ≡ some e)
  unfolding shutdown stop
  shutdown_total = elim (Bool-cases d.use_multipath) [
    | inl many ↦ (record d { paths = [] }, ground (arith, many, none_closed d.paths open_all))
    | inr one ↦ (d, ground (arith, one))
  ]

-- A client that New made, with the sockets that Run opens, closes no channel twice in the next tick of its
-- heartbeats, the next poll of the interfaces or at its end, provided that so far each check of its paths could
-- bind the sockets that it replaced. Each of the three is taken to be done before another begins.
pub run_total :
    (sha256 : Bytes → Bytes) (client_id : ℕ) (device_name : Bytes) (cfg : Config) (sys : System)
    (iface : Bytes) (server : Option Bytes) (sock : Socket) (made c d : Client)
    → make_client sha256 client_id device_name cfg ≡ some made
    → open_sockets sys iface server made ≡ ok (c, sock)
    → (t : Turns c d) → AllBind Succeeds t
    → ((write_ok : Bytes → Bool) (bind_ok : ℕ → Bool) (resolved : Bool) (now : ℕ)
        → (e : Client) × (heartbeat_tick write_ok bind_ok resolved now d ≡ some e))
      × ((to : Bytes) (bind_ok : ℕ → Bool) (found : Option (List Interface)) (now : ℕ)
          → (e : Client) × (poll_tick to bind_ok found now d ≡ some e))
      × ((e : Client) × (shutdown d ≡ some e))
run_total sha256 client_id device_name cfg sys iface server sock made c d new opened t binds =
    let open_all =
      run-Every IsOpen Succeeds IsOpen-Kept sha256 client_id device_name cfg sys iface server sock
        made c d new opened t binds in
    (heartbeat_tick_total d open_all, poll_tick_total d open_all, shutdown_total d open_all)
