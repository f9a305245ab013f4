-- ===== src/Protocol/Tests.antt =====
-- The theorems about protocol/protocol.go at small packets.
use mpfpv.Base.{◌<◌, ◌≡◌, arith, [], ◌∷◌, some, length, drop, All}
use mpfpv.Base.Bytes.{Bytes}
use mpfpv.Base.Results.{ok}
use mpfpv.Protocol.Wire.{Header, Heartbeat, HeartbeatAck, header_size, encode_header, decode_header}
use mpfpv.Protocol.Header.{IsHeader, decode-encode_header}
use mpfpv.Protocol.Heartbeat.{IsHeartbeat}
use mpfpv.Protocol.Ack.{IsAck}

abbrev header : Header
header = record { type = 1; client_id = 0x0102; seq = 0x03040506 }

abbrev ten : Bytes
ten = 9 ∷ 9 ∷ 9 ∷ 9 ∷ 9 ∷ 9 ∷ 9 ∷ 9 ∷ 8 ∷ 7 ∷ []

abbrev wire : Bytes
wire = 0x11 ∷ 0 ∷ 1 ∷ 2 ∷ 3 ∷ 4 ∷ 5 ∷ 6 ∷ 42 ∷ []

wire_bytes : All (λ x. x < 256) wire
wire_bytes = omega arith

header-IsHeader : IsHeader header
header-IsHeader = omega arith

decode-encode_header_example :
    (b : Bytes) × (encode_header ten header ≡ some b)
    × (length b ≡ length ten)
    × (drop header_size b ≡ drop header_size ten)
    × (decode_header b ≡ ok header)
decode-encode_header_example = decode-encode_header ten header (omega arith) header-IsHeader

abbrev heartbeat : Heartbeat
heartbeat = record {
  virtual_ip = 10 ∷ 99 ∷ 0 ∷ 2 ∷ [];
  prefix_len = 24;
  reply_port = 9801;
  team_key_hash = 1 ∷ 2 ∷ 3 ∷ 4 ∷ 5 ∷ 6 ∷ 7 ∷ 8 ∷ [];
  device_name = [];
  path_rtts = [];
}

heartbeat-IsHeartbeat : IsHeartbeat heartbeat
heartbeat-IsHeartbeat = omega arith

abbrev ack : HeartbeatAck
ack = record { assigned_ip = 10 ∷ 99 ∷ 0 ∷ 2 ∷ []; prefix_len = 24; status = 0; mtu = 1400 }

ack-IsAck : IsAck ack
ack-IsAck = omega arith
