-- ===== src/Client/Run/Bounds.antt =====
-- client/client.go and client/transport.go: the bounds of what a client counts.
use mpfpv.Base.{ℕ, ◌^◌, ◌≤◌, ◌<◌, ◌≡◌, arith, inl, inr, Bool, Option, some, length, drop}
use mpfpv.Base.Bytes.{Bytes}
use mpfpv.Base.Results.{ok}
use mpfpv.Config.{Config}
use mpfpv.Client.Paths.{NetPath, rtt_window_size, confirm, check_path}
use mpfpv.Client.Health.{add_sample-window}
use mpfpv.Client.Handlers.{Client, handle_heartbeat_ack, handle_data, recv}
use mpfpv.Client.Every.{Every}
use mpfpv.Client.Sockets.{System, Socket, open_sockets}
use mpfpv.Client.Sockets.Modes.{open_sockets_cases}
use mpfpv.Client.Run.{
  make_client, handle_tun_packet, send_heartbeat, heartbeat_tick, poll_tick, Turn, tun_packet,
  first_heartbeat, tick, datagram, counted, poll, Turns, start, turn,
}
use mpfpv.Protocol.Wire.{header_size}
use mpfpv.Client.Run.Safety.{Kept, AllBind, run-Every}

-- The samples are few and the counters fit 64 bits.
abbrev pub InBounds : NetPath → Type 0
InBounds p =
    (length p.rtt_samples ≤ rtt_window_size) × (p.tx_bytes < 2 ^ 64) × (p.rx_bytes < 2 ^ 64)

abbrev AnyBind : Bool → Type 0
AnyBind b = Unit

InBounds-Kept : Kept InBounds AnyBind
unfolding confirm check_path
InBounds-Kept = record {
  fresh = λ name local_addr now. ground arith;
  sent = λ write_ok pkt p h. ground (arith, h);
  beaten = λ write_ok pkt p h. ground (arith, h);
  confirmed = λ rtt now p h. ((add_sample-window rtt p.rtt_samples h.0).1, h.1, h.2);
  received = λ n p h. (h.0, h.1, omega arith);
  checked = λ bind_ok now p q b h e. ground (arith, h);
}

-- The next sequence number fits 32 bits.
abbrev SeqFits : Client → Type 0
SeqFits c = c.seq < 2 ^ 32

handle_heartbeat_ack-seq :
    (create : Option Bool) (payload : Bytes) (c d : Client)
    → handle_heartbeat_ack create payload c ≡ some d
    → d.seq ≡ c.seq
unfolding handle_heartbeat_ack
handle_heartbeat_ack-seq create payload c d e = ground arith

recv-seq :
    (create : Option Bool) (bytes : Bytes) (by : Option ℕ) (now : ℕ) (c d : Client)
    → recv create bytes by now c ≡ some d
    → d.seq ≡ c.seq
unfolding recv handle_data
recv-seq create bytes by now c d e =
    ground (arith, handle_heartbeat_ack-seq create (drop header_size bytes) c)

Turn-SeqFits : {c d : Client} → Turn c d → SeqFits c → SeqFits d
unfolding handle_tun_packet send_heartbeat heartbeat_tick poll_tick
Turn-SeqFits (tun_packet write_ok payload e) h = ground (arith, h)
Turn-SeqFits (first_heartbeat write_ok resolved now e) h = ground (arith, h)
Turn-SeqFits (tick write_ok bind_ok resolved now e) h = ground (arith, h)
Turn-SeqFits {c} {d} (datagram create bytes by now e) h =
    ground (arith, h, recv-seq create bytes by now c d e)
Turn-SeqFits (counted name n e) h = ground (arith, h)
Turn-SeqFits (poll server bind_ok found now e) h = ground (arith, h)

Turns-SeqFits : {c d : Client} → Turns c d → SeqFits c → SeqFits d
Turns-SeqFits start h = h
Turns-SeqFits (turn before last) h = Turn-SeqFits last (Turns-SeqFits before h)

start-SeqFits :
    (sha256 : Bytes → Bytes) (client_id : ℕ) (device_name : Bytes) (cfg : Config) (sys : System)
    (iface : Bytes) (server : Option Bytes) (sock : Socket) (made c : Client)
    → make_client sha256 client_id device_name cfg ≡ some made
    → open_sockets sys iface server made ≡ ok (c, sock)
    → SeqFits c
unfolding make_client
start-SeqFits sha256 client_id device_name cfg sys iface server sock made c new opened =
    let zero_yet : made.seq ≡ 0 = ground arith in
    elim (open_sockets_cases sys made c sock iface server opened) [
      | inl (same, _) ↦ ground (arith, same)
      | inr (_, _, (ip, port, _, _, _, same)) ↦ ground (arith, same)
    ]

AnyBind-all : {c d : Client} (t : Turns c d) → AllBind AnyBind t
AnyBind-all start = tt
AnyBind-all (turn before (tun_packet write_ok payload e)) = (AnyBind-all before, tt)
AnyBind-all (turn before (first_heartbeat write_ok resolved now e)) = (AnyBind-all before, tt)
AnyBind-all (turn before (tick write_ok bind_ok resolved now e)) = (AnyBind-all before, λ k. tt)
AnyBind-all (turn before (datagram create bytes by now e)) = (AnyBind-all before, tt)
AnyBind-all (turn before (counted name n e)) = (AnyBind-all before, tt)
AnyBind-all (turn before (poll server bind_ok found now e)) = (AnyBind-all before, tt)

-- A client that New made, with the sockets that Run opens, has after any turns of its loops a sequence
-- number below 2^32, at most ten round-trip samples on each path, and byte counters below 2^64.
pub client_bounds :
    (sha256 : Bytes → Bytes) (client_id : ℕ) (device_name : Bytes) (cfg : Config) (sys : System)
    (iface : Bytes) (server : Option Bytes) (sock : Socket) (made c d : Client)
    → make_client sha256 client_id device_name cfg ≡ some made
    → open_sockets sys iface server made ≡ ok (c, sock)
    → Turns c d
    → (d.seq < 2 ^ 32) × Every InBounds d.paths
client_bounds sha256 client_id device_name cfg sys iface server sock made c d new opened t = (
  Turns-SeqFits t
      (start-SeqFits sha256 client_id device_name cfg sys iface server sock made c new opened),
  run-Every InBounds AnyBind InBounds-Kept sha256 client_id device_name cfg sys iface server sock
      made c d new opened t (AnyBind-all t),
)
