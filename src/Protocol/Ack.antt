-- ===== src/Protocol/Ack.antt =====
-- protocol/protocol.go, EncodeHeartbeatAck and DecodeHeartbeatAck.
use mathlib.Core.List.{append_assoc}
use mpfpv.Base.{
  ◌/◌, ◌^◌, ◌≤◌, ◌<◌, ◌≡◌, arith, ◌∷◌, ◌++◌, some, length, drop, length-append, get_or-append_right,
  take-length_append, drop-append_right,
}
use mpfpv.Base.Bytes.{Bytes, u8}
use mpfpv.Base.Results.{ok}
use mpfpv.Protocol.Wire.{
  HeartbeatAck, heartbeat_ack_size, ack_bytes, encode_heartbeat_ack, decode_heartbeat_ack,
}
use mpfpv.Protocol.Heartbeat.{join-split, to4_four}

-- An IPv4 address, two bytes and a `uint16`.
pub record IsAck (ack : HeartbeatAck) : Type 0 where
  pub ip_length : length ack.assigned_ip ≡ 4
  pub prefix_fits : ack.prefix_len < 256
  pub status_fits : ack.status < 256
  pub mtu_fits : ack.mtu < 2 ^ 16

ack_tail : HeartbeatAck → Bytes → Bytes
ack_tail ack rest = ack.prefix_len ∷ ack.status ∷ u8 (ack.mtu / 2 ^ 8) ∷ u8 ack.mtu ∷ rest

ack_bytes-append :
    (ack : HeartbeatAck) (rest : Bytes)
    → IsAck ack
    → ack_bytes ack ++ rest ≡ ack.assigned_ip ++ ack_tail ack rest
unfolding ack_tail
ack_bytes-append ack rest v = rw (to4_four ack.assigned_ip v.ip_length, append_assoc)

-- An ack with an IPv4 address and fields in range is written into any buffer of 8 bytes or more, behind which the buffer
-- keeps its bytes, and is read back from it.
pub decode-encode_ack :
    (buf : Bytes) (ack : HeartbeatAck)
    → heartbeat_ack_size ≤ length buf
    → IsAck ack
    → (b : Bytes) × (encode_heartbeat_ack buf ack ≡ some b)
      × (drop heartbeat_ack_size b ≡ drop heartbeat_ack_size buf)
      × (decode_heartbeat_ack b ≡ ok ack)
unfolding encode_heartbeat_ack decode_heartbeat_ack ack_tail
decode-encode_ack buf ack fits v = (ack_bytes ack ++ drop 8 buf, ground arith, ack_dropped, decoded)
  where
    tail : Bytes
    tail = ack_tail ack (drop 8 buf)

    ack_dropped : drop 8 (ack_bytes ack ++ drop 8 buf) ≡ drop 8 buf
    ack_dropped =
        rw (ack_bytes-append ack (drop 8 buf) v)
          (drop-append_right ack.assigned_ip tail 8 4 (omega arith))

    decoded : decode_heartbeat_ack (ack_bytes ack ++ drop 8 buf) ≡ ok ack
    decoded = rw (ack_bytes-append ack (drop 8 buf) v) (
        ground (
          arith,
          length-append ack.assigned_ip tail,
          take-length_append ack.assigned_ip tail 4,
          get_or-append_right ack.assigned_ip tail 4 0 0,
          get_or-append_right ack.assigned_ip tail 5 1 0,
          get_or-append_right ack.assigned_ip tail 6 2 0,
          get_or-append_right ack.assigned_ip tail 7 3 0,
          join-split ack.mtu,
        ))
