-- ===== src/Server/Data.antt =====
-- server/server.go, handleData, handlePacket and the body of tunReadLoop: what is forwarded, and where.
use mpfpv.Base.{
  ℕ, ◌+◌, ◌/◌, ◌^◌, Bool, ◌==◌, ◌&&◌, ◌||◌, not, ltb, if◌then◌else◌, List, ◌∷◌, Option, none, some,
  length, get_or, drop, lookup, insert,
}
use mpfpv.Base.Bytes.{Bytes, u64, get_u32}
use mpfpv.Base.Results.{ok, err}
use mpfpv.Protocol.Wire.{
  Header, header_size, type_data, type_heartbeat, encode_header, decode_header,
}
use mpfpv.Dedup.{is_duplicate}
use mpfpv.Server.State.{AddrInfo, Session, Server, tun_write, emit}
use mpfpv.Server.Send.{change_session, send_to_client, next_seq, bump_seq}
use mpfpv.Server.Heartbeat.{handle_heartbeat}

-- At least 20 bytes, and version 4 in the first (`payload[0]>>4`).
abbrev pub is_ipv4 : Bytes → Bool
is_ipv4 payload = not (ltb (length payload) 20 || not (get_or payload 0 0 / 2 ^ 4 == 4))

abbrev pub src_ip : Bytes → ℕ
src_ip payload = get_u32 (drop 12 payload)

abbrev pub dst_ip : Bytes → ℕ
dst_ip payload = get_u32 (drop 16 payload)

-- Changes the entry of a known endpoint.
abbrev pub change_addr : ℕ → (AddrInfo → AddrInfo) → List (ℕ × AddrInfo) → List (ℕ × AddrInfo)
change_addr from f addrs = elim (lookup from addrs) [
  | none ↦ addrs
  | some ai ↦ insert from (f ai) addrs
]

abbrev pub seen_now : ℕ → ℕ → Session → Session
seen_now from now sess = record sess {
  addrs = change_addr from (λ ai. record ai { last_seen = now }) sess.addrs;
  last_seen = now;
}

-- To the server's own device, to a client, or nowhere.
unfoldable pub route : (ℕ → Bool) → Bytes → Bytes → Server → Server
unfolding send_to_client
route write_ok payload raw s =
    if dst_ip payload == s.server_virtual_ip
    then (if s.has_tun then emit (tun_write payload) s else s)
    else elim (lookup (dst_ip payload) s.route_table) [
      | none ↦ s
      | some client_id ↦ send_to_client write_ok client_id raw s
    ]

abbrev pub from_client : (ℕ → Bool) → ℕ → Bytes → ℕ → ℕ → Bytes → Server → Option Session → Server
from_client write_ok client_id payload from now raw s none = s
from_client write_ok client_id payload from now raw s (some sess) =
    if is_ipv4 payload && src_ip payload == sess.virtual_ip
    then route write_ok payload raw
        (record s { sessions = insert client_id (seen_now from now sess) s.sessions })
    else s

unfoldable pub handle_data : (ℕ → Bool) → Header → Bytes → ℕ → ℕ → Bytes → Server → Server
unfolding route
handle_data write_ok hdr payload from now raw s =
    let (dup, d) = is_duplicate s.dedup hdr.client_id hdr.seq in
    let t = record s { dedup = d } in
    if dup
    then t
    else from_client write_ok hdr.client_id payload from now raw t (lookup hdr.client_id t.sessions)

abbrev pub count_rx : ℕ → ℕ → ℕ → Server → Server
count_rx client_id from n s =
    change_session client_id
      (λ sess. record sess {
        rx_bytes = u64 (sess.rx_bytes + n);
        addrs = change_addr from (λ ai. record ai { rx_bytes = u64 (ai.rx_bytes + n) }) sess.addrs;
      })
      (record s { total_rx = u64 (s.total_rx + n) })

-- A datagram from the socket.
unfoldable pub handle_packet : (ℕ → Bool) → Bytes → ℕ → ℕ → Server → Server
unfolding handle_heartbeat handle_data
handle_packet write_ok packet from now s =
    if ltb (length packet) header_size then s else elim (decode_header packet) [
      | err _ ↦ s
      | ok hdr ↦
          let t = count_rx hdr.client_id from (length packet) s in
          let payload = drop header_size packet in
          if hdr.type == type_heartbeat
          then handle_heartbeat write_ok hdr payload from now t
          else if hdr.type == type_data
          then handle_data write_ok hdr payload from now packet t
          else t
    ]

abbrev pub send_header : (ℕ → Bool) → ℕ → Option Bytes → Server → Server
send_header write_ok client_id none s = s
send_header write_ok client_id (some pkt) s = send_to_client write_ok client_id pkt s

-- A packet that the TUN device delivers: `payload`, read behind 8 bytes kept for the header.
unfoldable pub handle_tun_packet : (ℕ → Bool) → Bytes → Server → Server
unfolding send_to_client
handle_tun_packet write_ok payload s =
    if not (is_ipv4 payload) then s else elim (lookup (dst_ip payload) s.route_table) [
      | none ↦ s
      | some client_id ↦
          send_header write_ok client_id
            (encode_header (0 ∷ 0 ∷ 0 ∷ 0 ∷ 0 ∷ 0 ∷ 0 ∷ 0 ∷ payload)
              (record { type = type_data; client_id = 0; seq = next_seq s }))
            (bump_seq s)
    ]
