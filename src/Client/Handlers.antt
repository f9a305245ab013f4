-- ===== src/Client/Handlers.antt =====
-- client/client.go: what the client sends for a TUN packet and for a heartbeat, and what it does with
-- a datagram of the server's. Reads and writes of sockets and devices are the caller's; each function
-- is one turn of its loop.
use mathlib.Core.Option
use mpfpv.Base.{
  ℕ, ◌+◌, ◌-◌, ◌/◌, ◌^◌, Bool, true, ◌==◌, ◌&&◌, not, ltb, if◌then◌else◌, List, [], ◌∷◌, ◌++◌,
  Option, none, some, length, get_or, take, drop, replicate,
}
use mpfpv.Base.Bytes.{Bytes, u32, bytes_eq}
use mpfpv.Base.Results.{ok, err}
use mpfpv.Protocol.Wire.{
  Header, Heartbeat, HeartbeatAck, header_size, heartbeat_payload_min, type_data, type_heartbeat,
  type_heartbeat_ack, ack_status_ok, encode_header, decode_header, encode_heartbeat_full,
  decode_heartbeat_ack, ipv4_zero,
}
use mpfpv.Dedup.{Deduplicator, is_duplicate}
use mpfpv.Client.Checksum.{recalc_checksum}
use mpfpv.Client.Paths.{NetPath, update_rtt}

-- `has_tun`: tunDev is not nil. `tun_ready`: that channel is closed. `last_hb_sent` is `none` while it
-- is the zero time. `tun_writes` lists the packets written to the device, the newest first.
pub record Client : Type 0 where
  pub client_id : ℕ
  pub dedup : Deduplicator
  pub team_key_hash : Bytes
  pub virtual_ip : Bytes
  pub prefix_len : ℕ
  pub device_name : Bytes
  pub seq : ℕ
  pub registered : Bool
  pub has_tun : Bool
  pub tun_ready : Bool
  pub use_multipath : Bool
  pub recv_port : ℕ
  pub paths : List (ℕ × NetPath)
  pub last_hb_sent : Option ℕ
  pub tun_writes : List Bytes

-- `c.seq.Add(1) - 1`
abbrev pub used_seq : Client → ℕ
used_seq c = u32 (u32 (c.seq + 1) + 2 ^ 32 - 1)

abbrev pub count_seq : Client → Client
count_seq c = record c { seq = u32 (c.seq + 1) }

-- The packet with the client's own address as its source, where it has one.
unfoldable pub with_source : Bytes → Bytes → Bytes
with_source vip payload =
    if length vip == 4 && not (bytes_eq vip ipv4_zero)
    then recalc_checksum (take 12 payload ++ (vip ++ drop 16 payload))
    else payload

-- The datagram for a packet that the TUN device delivers; `none` if it is not sent.
unfoldable pub data_packet : Client → Bytes → Option Bytes
unfolding with_source
data_packet c payload =
    if ltb (length payload) 20
    then none
    else if not (get_or payload 0 0 / 2 ^ 4 == 4)
    then none
    else encode_header (0 ∷ 0 ∷ 0 ∷ 0 ∷ 0 ∷ 0 ∷ 0 ∷ 0 ∷ with_source c.virtual_ip payload)
        (record { type = type_data; client_id = c.client_id; seq = used_seq c })

abbrev pub own_heartbeat : Client → Heartbeat
own_heartbeat c = record {
  virtual_ip = c.virtual_ip;
  prefix_len = c.prefix_len;
  reply_port = c.recv_port;
  team_key_hash = c.team_key_hash;
  device_name = [];
  path_rtts = [];
}

abbrev pub heartbeat_header : Client → Header
heartbeat_header c = record { type = type_heartbeat; client_id = c.client_id; seq = used_seq c }

-- The buffer that sendHeartbeat makes, cut to what was written into it.
unfoldable pub heartbeat_packet : Client → Option Bytes
heartbeat_packet c =
    elim (encode_header
      (replicate (header_size + heartbeat_payload_min + length c.device_name + 256) 0)
      (heartbeat_header c)) [
        | none ↦ none
        | some buf ↦
            elim (encode_heartbeat_full (drop header_size buf) (own_heartbeat c) c.device_name) [
              | none ↦ none
              | some full ↦ some (take header_size buf ++ take full.1 full.0)
            ]
      ]

-- setupTUN, where CreateTUN may return an error.
abbrev pub setup_tun : Bool → Client → Client
setup_tun create_ok c = if create_ok then record c { has_tun = true } else c

-- The first ack sets up the device and closes `tunReady`; `none` is the panic of closing it twice, or that
-- of CreateTUN, for which `create` is `none`; otherwise it says whether CreateTUN returns a device.
abbrev pub on_registered : Option Bool → Client → Option Client
on_registered create c = elim create [
  | none ↦ none
  | some create_ok ↦
      if c.tun_ready then none else some (record (setup_tun create_ok c) { tun_ready = true })
]

-- `To4` of an address of four bytes is that address.
abbrev pub with_ack : HeartbeatAck → Client → Client
with_ack ack c = record c {
  virtual_ip = ack.assigned_ip;
  prefix_len = ack.prefix_len;
  registered = true;
}

unfoldable pub handle_heartbeat_ack : Option Bool → Bytes → Client → Option Client
handle_heartbeat_ack create payload c = elim (decode_heartbeat_ack payload) [
  | err _ ↦ some c
  | ok ack ↦
      if ack.status == ack_status_ok
      then (if c.registered then some (with_ack ack c) else on_registered create (with_ack ack c))
      else some c
]

unfoldable pub handle_data : Header → Bytes → Client → Client
handle_data hdr payload c =
    let (dup, d) = is_duplicate c.dedup hdr.client_id hdr.seq in
    let e = record c { dedup = d } in
    if dup then e else if c.has_tun then record e { tun_writes = payload ∷ c.tun_writes } else e

-- An ack that came by a path's own socket measures this path; `now` is the time of the ack.
abbrev pub measure : Option ℕ → ℕ → Client → Client
measure none now c = c
measure (some path) now c = elim c.last_hb_sent [
  | none ↦ c
  | some t ↦ record c { paths = update_rtt path (now - t) now c.paths }
]

-- A datagram from the server: `from` is the path by whose socket it came, `none` for the central one
-- and in single-socket mode.
unfoldable pub recv : Option Bool → Bytes → Option ℕ → ℕ → Client → Option Client
unfolding handle_heartbeat_ack handle_data update_rtt
recv create packet from now c =
    if ltb (length packet) header_size then some c else elim (decode_header packet) [
      | err _ ↦ some c
      | ok hdr ↦
          let payload = drop header_size packet in
          if hdr.type == type_heartbeat_ack
          then Option.map (measure from now) (handle_heartbeat_ack create payload c)
          else if hdr.type == type_data
          then some (handle_data hdr payload c)
          else some c
    ]
