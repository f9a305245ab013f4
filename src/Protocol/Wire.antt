-- ===== src/Protocol/Wire.antt =====
-- protocol/protocol.go: constants and types of the wire format, and the functions that write and
-- read them. An encoder returns the buffer as it leaves it; `none` is the panic of an index past
-- the end. Numbers stand for the fixed-width fields, whose ranges the laws assume.
use Prim.Native.Nat.{bit_and, bit_or, min}
use mathlib.Core.Option
use mpfpv.Base.{
  ℕ, zero, suc, ◌+◌, ◌*◌, ◌/◌, ◌^◌, Bool, ◌&&◌, ◌==◌, ltb, leb, not, if◌then◌else◌, List, [], ◌∷◌,
  ◌++◌, Option, none, some, length, get_or, take, drop,
}
use mpfpv.Base.Bytes.{Bytes, u8, put_u16, put_u32, get_u16, get_u32, copy, is_empty}
use mpfpv.Base.Results.{Result, ok, err}

abbrev pub header_size : ℕ
header_size = 8

abbrev pub heartbeat_payload_min : ℕ
heartbeat_payload_min = 16

abbrev pub heartbeat_ack_size : ℕ
heartbeat_ack_size = 8

abbrev pub version1 : ℕ
version1 = 0x10

abbrev pub type_data : ℕ
type_data = 0x00

abbrev pub type_heartbeat : ℕ
type_heartbeat = 0x01

abbrev pub type_heartbeat_ack : ℕ
type_heartbeat_ack = 0x02

abbrev pub ack_status_ok : ℕ
ack_status_ok = 0x00

abbrev pub ack_status_bad_team_key : ℕ
ack_status_bad_team_key = 0x01

abbrev pub default_dedup_window : ℕ
default_dedup_window = 4096

abbrev pub mtu : ℕ
mtu = 1400

pub data ProtocolError : Type 0 where
  too_short : ProtocolError
  bad_version : ProtocolError

pub record Header : Type 0 where
  pub type : ℕ
  pub client_id : ℕ
  pub seq : ℕ

abbrev pub header_bytes : Header → Bytes
header_bytes h = bit_or version1 (bit_and h.type 0x0f) ∷ 0 ∷ (put_u16 h.client_id ++ put_u32 h.seq)

unfoldable pub encode_header : Bytes → Header → Option Bytes
encode_header buf h =
    if ltb (length buf) header_size then none else some (header_bytes h ++ drop header_size buf)

unfoldable pub decode_header : Bytes → Result ProtocolError Header
decode_header buf =
    if ltb (length buf) header_size
    then err too_short
    else if not (bit_and (get_or buf 0 0) 0xf0 == version1)
    then err bad_version
    else ok (record {
      type = bit_and (get_or buf 0 0) 0x0f;
      client_id = get_u16 (drop 2 buf);
      seq = get_u32 (drop 4 buf);
    })

pub record PathRtt : Type 0 where
  pub name : Bytes
  pub rtt_ms : ℕ
  pub tx_bytes : ℕ
  pub rx_bytes : ℕ

pub record Heartbeat : Type 0 where
  pub virtual_ip : Bytes
  pub prefix_len : ℕ
  pub reply_port : ℕ
  pub team_key_hash : Bytes
  pub device_name : Bytes
  pub path_rtts : List PathRtt

-- `net.IP.To4`: the four bytes of an IPv4 address, also in its 16-byte form; `none` is nil.
abbrev is_v4_prefix : ℕ → Bytes → Bool
is_v4_prefix zero b = get_or b 0 0 == 0xff && get_or b 1 0 == 0xff
is_v4_prefix (suc n) b = get_or b 0 0 == 0 && is_v4_prefix n (drop 1 b)

unfoldable pub to4 : Bytes → Option Bytes
to4 ip =
    if length ip == 4
    then some ip
    else if length ip == 16 && is_v4_prefix 10 ip
    then some (drop 12 ip)
    else none

abbrev pub ipv4_zero : Bytes
ipv4_zero = 0 ∷ 0 ∷ 0 ∷ 0 ∷ []

-- `ip := x.To4(); if ip == nil { ip = net.IPv4zero.To4() }`
abbrev pub to4_or_zero : Option Bytes → Bytes
to4_or_zero none = ipv4_zero
to4_or_zero (some ip) = ip

abbrev pub heartbeat_bytes : Heartbeat → Bytes
heartbeat_bytes hb =
    to4_or_zero (to4 hb.virtual_ip)
    ++ (hb.prefix_len ∷ 0 ∷ u8 (hb.reply_port / 2 ^ 8) ∷ u8 hb.reply_port ∷ hb.team_key_hash)

unfoldable pub encode_heartbeat : Bytes → Heartbeat → Option Bytes
unfolding to4
encode_heartbeat buf hb =
    if ltb (length buf) heartbeat_payload_min
    then none
    else some (heartbeat_bytes hb ++ drop heartbeat_payload_min buf)

-- Returns the buffer and the number of bytes written; the name is cut at the buffer's end.
unfoldable pub encode_heartbeat_full : Bytes → Heartbeat → Bytes → Option (Bytes × ℕ)
unfolding encode_heartbeat
encode_heartbeat_full buf hb device_name = elim (encode_heartbeat buf hb) [
  | none ↦ none
  | some b ↦
      let tail = drop heartbeat_payload_min b in
      if is_empty device_name
      then some (b, heartbeat_payload_min)
      else some (
        take heartbeat_payload_min b ++ copy tail device_name,
        heartbeat_payload_min + min (length tail) (length device_name),
      )
]

-- The index of the first zero byte (`sep`; `none` is -1).
unfoldable pub find_separator : Bytes → Option ℕ
find_separator [] = none
find_separator (b ∷ bs) = if b == 0 then some 0 else Option.map suc (find_separator bs)

-- `uint16(hi)<<8 | uint16(lo)`
abbrev pub join_u16 : ℕ → ℕ → ℕ
join_u16 hi lo = bit_or (hi * 2 ^ 8) lo

-- The entry at `pos`, behind a name of `name_len` bytes.
abbrev pub path_entry : Bytes → ℕ → PathRtt
path_entry d name_len =
    let pos = 1 + name_len in
    record {
      name = take name_len (drop 1 d);
      rtt_ms = join_u16 (get_or d pos 0) (get_or d (pos + 1) 0);
      tx_bytes = get_u32 (drop (pos + 2) d);
      rx_bytes = get_u32 (drop (pos + 2 + 4) d);
    }

-- [nameLen 1B] [name] [rtt 2B] [tx 4B] [rx 4B]; anything shorter is ignored.
unfoldable pub decode_path : Bytes → List PathRtt
decode_path d =
    if leb 1 (length d) && leb (1 + get_or d 0 0 + 10) (length d)
    then path_entry d (get_or d 0 0) ∷ []
    else []

abbrev pub decode_fixed : Bytes → Bytes → List PathRtt → Heartbeat
decode_fixed buf name paths = record {
  virtual_ip = take 4 buf;
  prefix_len = get_or buf 4 0;
  reply_port = join_u16 (get_or buf 6 0) (get_or buf 7 0);
  team_key_hash = take 8 (drop 8 buf);
  device_name = name;
  path_rtts = paths;
}

abbrev pub decode_extension : Bytes → Bytes → Heartbeat
decode_extension buf ext = elim (find_separator ext) [
  | none ↦ decode_fixed buf ext []
  | some sep ↦ decode_fixed buf (take sep ext) (decode_path (drop (sep + 1) ext))
]

unfoldable pub decode_heartbeat : Bytes → Result ProtocolError Heartbeat
unfolding find_separator decode_path
decode_heartbeat buf =
    if ltb (length buf) heartbeat_payload_min
    then err too_short
    else if leb (length buf) heartbeat_payload_min
    then ok (decode_fixed buf [] [])
    else ok (decode_extension buf (drop heartbeat_payload_min buf))

pub record HeartbeatAck : Type 0 where
  pub assigned_ip : Bytes
  pub prefix_len : ℕ
  pub status : ℕ
  pub mtu : ℕ

abbrev pub ack_bytes : HeartbeatAck → Bytes
ack_bytes ack =
    to4_or_zero (to4 ack.assigned_ip)
    ++ (ack.prefix_len ∷ ack.status ∷ u8 (ack.mtu / 2 ^ 8) ∷ u8 ack.mtu ∷ [])

unfoldable pub encode_heartbeat_ack : Bytes → HeartbeatAck → Option Bytes
unfolding to4
encode_heartbeat_ack buf ack =
    if ltb (length buf) heartbeat_ack_size
    then none
    else some (ack_bytes ack ++ drop heartbeat_ack_size buf)

unfoldable pub decode_heartbeat_ack : Bytes → Result ProtocolError HeartbeatAck
decode_heartbeat_ack buf =
    if ltb (length buf) heartbeat_ack_size
    then err too_short
    else ok (record {
      assigned_ip = take 4 buf;
      prefix_len = get_or buf 4 0;
      status = get_or buf 5 0;
      mtu = join_u16 (get_or buf 6 0) (get_or buf 7 0);
    })

-- The first 8 bytes of SHA-256, which is a parameter.
unfoldable pub team_key_hash : (Bytes → Bytes) → Bytes → Bytes
team_key_hash sha256 key = take 8 (sha256 key)
