-- ===== src/Client/Run/Safety.antt =====
-- client/client.go and client/transport.go over every run of the client: the bounds of its counters, and
-- that it does not panic on its paths while sockets can be replaced.
use mathlib.Core.Path.{subst}
use mpfpv.Base.{
  ℕ, ◌≡◌, sym, arith, inl, inr, Bool, true, false, Bool-cases, ◌-◌, ◌⊎◌, Option-cases, List, [],
  ◌∷◌, Option, none, some, length, drop, ltb, ◌==◌,
}
use mpfpv.Base.Bytes.{Bytes}
use mpfpv.Base.Results.{ok, Result-cases}
use mpfpv.Protocol.Wire.{header_size, decode_header, type_heartbeat_ack}
use mpfpv.Config.{Config}
use mpfpv.Client.Paths.{
  NetPath, new_path, send_on, heartbeat_on, confirm, count_received, check_path, check_paths,
  update_rtt,
}
use mpfpv.Client.Handlers.{
  Client, data_packet, heartbeat_packet, handle_heartbeat_ack, handle_data, measure, recv,
}
use mpfpv.Client.Interfaces.{scan_interfaces, detect_changes}
use mpfpv.Client.Every.{
  Every, send-Every, update-Every, check_paths-Every, add_each-Every, detect_changes-Every,
}
use mpfpv.Client.Sockets.{System, Socket, open_sockets, is_v4, not_excluded}
use mpfpv.Client.Sockets.Modes.{open_sockets_cases}
use mpfpv.Client.Run.{
  make_client, heartbeat_each, handle_tun_packet, send_heartbeat, heartbeat_tick, poll_tick, Turn,
  tun_packet, first_heartbeat, tick, datagram, counted, poll, Turns, start, turn,
}

-- What everything that is done with a path keeps; `B` is what is known of the replacing of a socket.
pub record Kept (P : NetPath → Type 0) (B : Bool → Type 0) : Type 0 where
  pub fresh : (name local_addr : Bytes) (now : ℕ) → P (new_path name local_addr now)
  pub sent :
      (write_ok : Bytes → Bool) (pkt : Bytes) (p : NetPath) → P p → P (send_on write_ok pkt p).0
  pub beaten :
      (write_ok : Bytes → Bool) (pkt : Bytes) (p : NetPath) → P p → P (heartbeat_on write_ok pkt p)
  pub confirmed : (rtt now : ℕ) (p : NetPath) → P p → P (confirm rtt now p)
  pub received : (n : ℕ) (p : NetPath) → P p → P (count_received n p)
  pub checked :
      (bind_ok : Bool) (now : ℕ) (p q : NetPath)
      → B bind_ok
      → P p
      → check_path bind_ok now p ≡ some q
      → P q

-- All sockets that a turn's check of the paths replaces are replaced as `B` says.
abbrev pub Binds : (Bool → Type 0) → {c d : Client} → Turn c d → Type 0
Binds B (tun_packet write_ok payload e) = Unit
Binds B (first_heartbeat write_ok resolved now e) = Unit
Binds B (tick write_ok bind_ok resolved now e) = (k : ℕ) → B (bind_ok k)
Binds B (datagram create bytes by now e) = Unit
Binds B (counted name n e) = Unit
Binds B (poll server bind_ok found now e) = Unit

abbrev pub AllBind : (Bool → Type 0) → {c d : Client} → Turns c d → Type 0
AllBind B start = Unit
AllBind B (turn before last) = AllBind B before × Binds B last

handle_heartbeat_ack-paths :
    (create : Option Bool) (payload : Bytes) (c d : Client)
    → handle_heartbeat_ack create payload c ≡ some d
    → d.paths ≡ c.paths
unfolding handle_heartbeat_ack
handle_heartbeat_ack-paths create payload c d e = ground arith

-- A datagram leaves the paths alone, but for measuring the one it came by.
recv-paths :
    (create : Option Bool) (bytes : Bytes) (by : Option ℕ) (now : ℕ) (c d : Client)
    → recv create bytes by now c ≡ some d
    → (d.paths ≡ c.paths) ⊎ ((a : Client) × (a.paths ≡ c.paths) × (d ≡ measure by now a))
unfolding recv handle_data
recv-paths create bytes by now c d e = elim (Bool-cases (ltb (length bytes) header_size)) [
  | inl short ↦ inl (ground (arith, short))
  | inr long ↦ elim (Result-cases (decode_header bytes)) [
    | inl (why, bad) ↦ inl (ground (arith, long, bad))
    | inr (hdr, good) ↦ elim (Bool-cases (hdr.type == type_heartbeat_ack)) [
      | inl ack ↦ elim (Option-cases (handle_heartbeat_ack create (drop header_size bytes) c)) [
        | inl panic ↦ absurd (ground (arith, long, good, ack, panic))
        | inr (a, done) ↦ inr (
          a,
          handle_heartbeat_ack-paths create (drop header_size bytes) c a done,
          ground (arith, long, good, ack, done),
        )
      ]
      | inr other ↦ inl (ground (arith, long, good, other))
    ]
  ]
]

make_client-paths :
    (sha256 : Bytes → Bytes) (client_id : ℕ) (device_name : Bytes) (cfg : Config) (c : Client)
    → make_client sha256 client_id device_name cfg ≡ some c
    → c.paths ≡ []
unfolding make_client
make_client-paths sha256 client_id device_name cfg c e = ground arith

module _ (P : NetPath → Type 0) (B : Bool → Type 0) (kept : Kept P B) where
  heartbeat_each-Every :
      (write_ok : Bytes → Bool) (base : Bytes) (m : List (ℕ × NetPath))
      → Every P m
      → Every P (heartbeat_each write_ok base m)
  unfolding heartbeat_each
  heartbeat_each-Every write_ok base [] h = tt
  heartbeat_each-Every write_ok base ((k, p) ∷ m) h =
      (kept.beaten write_ok base p h.0, heartbeat_each-Every write_ok base m h.1)

  handle_tun_packet-Every :
      (write_ok : Bytes → Bool) (payload : Bytes) (c : Client)
      → Every P c.paths
      → Every P (handle_tun_packet write_ok payload c).paths
  unfolding handle_tun_packet
  handle_tun_packet-Every write_ok payload c h = elim (Option-cases (data_packet c payload)) [
    | inl nothing ↦ rw (nothing, handle_tun_packet) h
    | inr (b, there) ↦ elim (Bool-cases c.use_multipath) [
      | inl many ↦
          rw (there, handle_tun_packet, many)
            (send-Every P write_ok b (kept.sent write_ok b) c.paths h)
      | inr one ↦ rw (there, handle_tun_packet, one) h
    ]
  ]

  pub send_heartbeat-Every :
      (write_ok : Bytes → Bool) (resolved : Bool) (now : ℕ) (c : Client)
      → Every P c.paths
      → Every P (send_heartbeat write_ok resolved now c).paths
  unfolding send_heartbeat
  send_heartbeat-Every write_ok false now c h = h
  send_heartbeat-Every write_ok true now c h = elim (Option-cases (heartbeat_packet c)) [
    | inl nothing ↦ rw (nothing, send_heartbeat) h
    | inr (b, there) ↦ elim (Bool-cases c.use_multipath) [
      | inl many ↦ rw (there, send_heartbeat, many) (heartbeat_each-Every write_ok b c.paths h)
      | inr one ↦ rw (there, send_heartbeat, one) h
    ]
  ]

  heartbeat_tick-Every :
      (write_ok : Bytes → Bool) (bind_ok : ℕ → Bool) (resolved : Bool) (now : ℕ) (c d : Client)
      → ((k : ℕ) → B (bind_ok k))
      → Every P c.paths
      → heartbeat_tick write_ok bind_ok resolved now c ≡ some d
      → Every P d.paths
  unfolding heartbeat_tick
  heartbeat_tick-Every write_ok bind_ok resolved now c d binds h e =
      let b = send_heartbeat write_ok resolved now c in
      let sent = send_heartbeat-Every write_ok resolved now c h in
      elim (Bool-cases b.use_multipath) [
        | inl many ↦ elim (Option-cases (check_paths bind_ok now b.paths)) [
          | inl panic ↦ absurd (ground (arith, many, panic))
          | inr (after, done) ↦
              let same : after ≡ d.paths = ground (arith, many, done) in
              subst (Every P) same (
                check_paths-Every P bind_ok now
                  (λ k p q. kept.checked (bind_ok k) now p q (binds k)) b.paths after sent done)
        ]
        | inr one ↦ let same : b ≡ d = ground (arith, one) in subst (λ c. Every P c.paths) same sent
      ]

  measure-Every :
      (by : Option ℕ) (now : ℕ) (c : Client) → Every P c.paths → Every P (measure by now c).paths
  unfolding update_rtt
  measure-Every none now c h = h
  measure-Every (some name) now c h = elim (Option-cases c.last_hb_sent) [
    | inl never ↦ rw never h
    | inr (t, sent) ↦
        rw sent
          (update-Every P name (confirm (now - t) now) c.paths (kept.confirmed (now - t) now) h)
  ]

  recv-Every :
      (create : Option Bool) (bytes : Bytes) (by : Option ℕ) (now : ℕ) (c d : Client)
      → Every P c.paths
      → recv create bytes by now c ≡ some d
      → Every P d.paths
  recv-Every create bytes by now c d h e = elim (recv-paths create bytes by now c d e) [
    | inl same ↦ subst (Every P) (sym same) h
    | inr (a, paths, same) ↦
        subst (λ b. Every P b.paths) (sym same)
          (measure-Every by now a (subst (Every P) (sym paths) h))
  ]

  open_sockets-Every :
      (sys : System) (iface : Bytes) (server : Option Bytes) (c d : Client) (sock : Socket)
      → c.paths ≡ []
      → open_sockets sys iface server c ≡ ok (d, sock)
      → Every P d.paths
  open_sockets-Every sys iface server c d sock none_yet e =
      let nothing : Every P c.paths = subst (Every P) (sym none_yet) tt in
      elim (open_sockets_cases sys c d sock iface server e) [
        | inl (same, _) ↦ subst (λ a. Every P a.paths) (sym same) nothing
        | inr (_, _, (ip, port, _, _, _, same)) ↦
            subst (λ a. Every P a.paths) (sym same)
              (add_each-Every P kept.fresh (is_v4 ip) sys.bind_ok sys.now
                (scan_interfaces not_excluded sys.interfaces) [] tt)
      ]

  Turn-Every : {c d : Client} (t : Turn c d) → Binds B t → Every P c.paths → Every P d.paths
  unfolding poll_tick
  Turn-Every {c} (tun_packet write_ok payload e) b h =
      subst (λ d. Every P d.paths) (sym e) (handle_tun_packet-Every write_ok payload c h)
  Turn-Every {c} (first_heartbeat write_ok resolved now e) b h =
      subst (λ d. Every P d.paths) (sym e) (send_heartbeat-Every write_ok resolved now c h)
  Turn-Every {c} {d} (tick write_ok bind_ok resolved now e) b h =
      heartbeat_tick-Every write_ok bind_ok resolved now c d b h e
  Turn-Every {c} {d} (datagram create bytes by now e) b h = recv-Every create bytes by now c d h e
  Turn-Every {c} (counted name n e) b h =
      subst (λ d. Every P d.paths) (sym e)
        (update-Every P name (count_received n) c.paths (kept.received n) h)
  Turn-Every {c} {d} (poll server bind_ok found now e) b h =
      let scan = scan_interfaces not_excluded found in
      elim (Option-cases (detect_changes (is_v4 server) bind_ok now scan c.paths)) [
        | inl panic ↦ absurd (ground (arith, panic))
        | inr (after, done) ↦
            let same : after ≡ d.paths = ground (arith, done) in
            subst (Every P) same (
              detect_changes-Every P kept.fresh (is_v4 server) bind_ok now scan c.paths after h
                done)
      ]

  Turns-Every : {c d : Client} (t : Turns c d) → AllBind B t → Every P c.paths → Every P d.paths
  Turns-Every start b h = h
  Turns-Every (turn before last) b h = Turn-Every last b.1 (Turns-Every before b.0 h)

  -- From New and the opening of the sockets on, every path has the property through all turns.
  pub run-Every :
      (sha256 : Bytes → Bytes) (client_id : ℕ) (device_name : Bytes) (cfg : Config) (sys : System)
      (iface : Bytes) (server : Option Bytes) (sock : Socket) (made c d : Client)
      → make_client sha256 client_id device_name cfg ≡ some made
      → open_sockets sys iface server made ≡ ok (c, sock)
      → (t : Turns c d) → AllBind B t
      → Every P d.paths
  run-Every sha256 client_id device_name cfg sys iface server sock made c d made_it opened t b =
      Turns-Every t b (
        open_sockets-Every sys iface server made c sock
          (make_client-paths sha256 client_id device_name cfg made made_it) opened)
