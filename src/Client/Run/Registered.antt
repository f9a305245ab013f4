-- ===== src/Client/Run/Registered.antt =====
-- client/client.go: the channel that tells of the registration, over every run of the client.
use mathlib.Core.Option
use mathlib.Core.Path.{subst}
use mpfpv.Base.{
  ℕ, ◌≡◌, refl, sym, ◌∙◌, arith, inl, inr, Bool, true, false, if◌then◌else◌, Bool-cases, ◌==◌, ltb,
  Option-cases, Option, none, some, length, drop,
}
use mpfpv.Base.Bytes.{Bytes}
use mpfpv.Base.Results.{Result, ok, err}
use mpfpv.Config.{Config}
use mpfpv.Protocol.Wire.{
  ProtocolError, Header, HeartbeatAck, header_size, type_data, type_heartbeat_ack, ack_status_ok,
  decode_header, decode_heartbeat_ack,
}
use mpfpv.Client.Handlers.{
  Client, setup_tun, on_registered, with_ack, handle_heartbeat_ack, handle_data, measure, recv,
}
use mpfpv.Client.Sockets.{System, Socket, open_sockets}
use mpfpv.Client.Sockets.Modes.{open_sockets_cases}
use mpfpv.Client.Run.{
  make_client, handle_tun_packet, send_heartbeat, heartbeat_tick, poll_tick, Turn, tun_packet,
  first_heartbeat, tick, datagram, counted, poll, Turns, start, turn,
}

-- The TUN channel is closed exactly if the client is registered.
abbrev pub InStep : Client → Type 0
InStep c = c.tun_ready ≡ c.registered

handle_heartbeat_ack-InStep :
    (create_ok : Bool) (payload : Bytes) (c : Client)
    → InStep c
    → (d : Client) × (handle_heartbeat_ack (some create_ok) payload c ≡ some d) × InStep d
unfolding handle_heartbeat_ack
handle_heartbeat_ack-InStep create_ok payload c h = by_ack (decode_heartbeat_ack payload) refl
  where
    accepted :
        (ack : HeartbeatAck)
        → (d : Client) × ((if c.registered
              then some (with_ack ack c)
              else on_registered (some create_ok) (with_ack ack c))
            ≡ some d)
          × InStep d
    accepted ack = elim (Bool-cases c.registered) [
      | inl before ↦ (with_ack ack c, rw before refl, h ∙ before)
      | inr new ↦
          let open_yet : c.tun_ready ≡ false = h ∙ new in
          (
            record (setup_tun create_ok (with_ack ack c)) { tun_ready = true },
            rw (new, open_yet) refl,
            ground arith,
          )
    ]

    by_ack :
        (r : Result ProtocolError HeartbeatAck)
        → decode_heartbeat_ack payload ≡ r
        → (d : Client) × (handle_heartbeat_ack (some create_ok) payload c ≡ some d) × InStep d
    by_ack (err x) e = (c, rw (e, handle_heartbeat_ack) refl, h)
    by_ack (ok ack) e = elim (Bool-cases (ack.status == ack_status_ok)) [
      | inl good ↦
          let (d, made, kept) = accepted ack in (d, rw (e, handle_heartbeat_ack, good) made, kept)
      | inr bad ↦ (c, rw (e, handle_heartbeat_ack, bad) refl, h)
    ]

handle_data-InStep :
    (hdr : Header) (payload : Bytes) (c : Client) → InStep c → InStep (handle_data hdr payload c)
unfolding handle_data
handle_data-InStep hdr payload c h = ground (arith, h)

measure-InStep : (by : Option ℕ) (now : ℕ) (c : Client) → InStep c → InStep (measure by now c)
measure-InStep none now c h = h
measure-InStep (some path) now c h = ground (arith, h)

-- A datagram of any bytes is handled without a panic, and keeps the channel in step.
recv-InStep :
    (create_ok : Bool) (bytes : Bytes) (by : Option ℕ) (now : ℕ) (c : Client)
    → InStep c
    → (d : Client) × (recv (some create_ok) bytes by now c ≡ some d) × InStep d
unfolding recv
recv-InStep create_ok bytes by now c h = elim (Bool-cases (ltb (length bytes) header_size)) [
  | inl short ↦ (c, rw (short, recv) refl, h)
  | inr long ↦ by_header long (decode_header bytes) refl
]
  where
    by_type :
        (hdr : Header)
        → (d : Client) × ((if hdr.type == type_heartbeat_ack
              then Option.map
                  (measure by now)
                  (handle_heartbeat_ack (some create_ok) (drop header_size bytes) c)
              else if hdr.type == type_data
              then some (handle_data hdr (drop header_size bytes) c)
              else some c)
            ≡ some d)
          × InStep d
    by_type hdr = elim (Bool-cases (hdr.type == type_heartbeat_ack)) [
      | inl ack ↦
          let (d, made, kept) =
            handle_heartbeat_ack-InStep create_ok (drop header_size bytes) c h in
          (measure by now d, rw (ack, made) refl, measure-InStep by now d kept)
      | inr no_ack ↦ elim (Bool-cases (hdr.type == type_data)) [
        | inl payload ↦ (
          handle_data hdr (drop header_size bytes) c,
          rw (no_ack, payload) refl,
          handle_data-InStep hdr (drop header_size bytes) c h,
        )
        | inr unknown ↦ (c, rw (no_ack, unknown) refl, h)
      ]
    ]

    by_header :
        ltb (length bytes) header_size ≡ false
        → (r : Result ProtocolError Header) → decode_header bytes ≡ r
        → (d : Client) × (recv (some create_ok) bytes by now c ≡ some d) × InStep d
    by_header long (err x) e = (c, rw (long, recv, e) refl, h)
    by_header long (ok hdr) e =
        let (d, made, kept) = by_type hdr in (d, rw (long, recv, e) made, kept)

-- If CreateTUN panics and the client goes on, then CreateTUN was not called.
crashed-InStep :
    (bytes : Bytes) (by : Option ℕ) (now : ℕ) (c d : Client)
    → InStep c
    → recv none bytes by now c ≡ some d
    → InStep d
unfolding recv handle_heartbeat_ack handle_data
crashed-InStep bytes by now c d h e = ground (arith, h)

send_heartbeat-InStep :
    (write_ok : Bytes → Bool) (resolved : Bool) (now : ℕ) (c : Client)
    → InStep c
    → InStep (send_heartbeat write_ok resolved now c)
unfolding send_heartbeat
send_heartbeat-InStep write_ok resolved now c h = ground (arith, h)

Turn-InStep : {c d : Client} → Turn c d → InStep c → InStep d
unfolding handle_tun_packet heartbeat_tick poll_tick
Turn-InStep (tun_packet write_ok payload e) h = ground (arith, h)
Turn-InStep {c} (first_heartbeat write_ok resolved now e) h =
    subst InStep (sym e) (send_heartbeat-InStep write_ok resolved now c h)
Turn-InStep {c} (tick write_ok bind_ok resolved now e) h =
    ground (arith, send_heartbeat-InStep write_ok resolved now c h)
Turn-InStep {c} {d} (datagram none bytes by now e) h = crashed-InStep bytes by now c d h e
Turn-InStep {c} {d} (datagram (some create_ok) bytes by now e) h =
    let (e', made, kept) = recv-InStep create_ok bytes by now c h in ground arith
Turn-InStep (counted name n e) h = ground (arith, h)
Turn-InStep (poll server bind_ok found now e) h = ground (arith, h)

Turns-InStep : {c d : Client} → Turns c d → InStep c → InStep d
Turns-InStep start h = h
Turns-InStep (turn before last) h = Turn-InStep last (Turns-InStep before h)

open_sockets-InStep :
    (sys : System) (iface : Bytes) (server : Option Bytes) (c d : Client) (sock : Socket)
    → InStep c
    → open_sockets sys iface server c ≡ ok (d, sock)
    → InStep d
open_sockets-InStep sys iface server c d sock h e =
    elim (open_sockets_cases sys c d sock iface server e) [
      | inl (same, _) ↦ ground (arith, same)
      | inr (_, _, (ip, port, _, _, _, same)) ↦ ground (arith, same)
    ]

-- A client that New made, with the sockets that Run opens, handles every datagram without a panic, whatever
-- turns its loops have had, unless CreateTUN itself panics, as on Windows for a prefix length over 32: the
-- channel that its first ack closes is closed exactly if the client is registered, before and after.
pub recv_total :
    (sha256 : Bytes → Bytes) (client_id : ℕ) (device_name : Bytes) (cfg : Config) (sys : System)
    (iface : Bytes) (server : Option Bytes) (sock : Socket) (made c d : Client) (create_ok : Bool)
    (bytes : Bytes) (by : Option ℕ) (now : ℕ)
    → make_client sha256 client_id device_name cfg ≡ some made
    → open_sockets sys iface server made ≡ ok (c, sock)
    → Turns c d
    → (d.tun_ready ≡ d.registered)
      × ((e : Client) × (recv (some create_ok) bytes by now d ≡ some e)
          × (e.tun_ready ≡ e.registered))
unfolding make_client
recv_total sha256 client_id device_name cfg sys iface server sock made c d create_ok bytes by now
      made_it opened turns =
    let fresh : InStep made = elim (Option-cases cfg.client) [
      | inl absent ↦ ground arith
      | inr (cc, there) ↦ ground arith
    ] in
    let h = Turns-InStep turns (open_sockets-InStep sys iface server made c sock fresh opened) in
    (h, recv-InStep create_ok bytes by now d h)
