-- ===== src/Protocol/Heartbeat.antt =====
-- protocol/protocol.go, EncodeHeartbeatFull and DecodeHeartbeat: what the server reads of what a
-- client wrote, the fixed part, the device name and the entry behind it.
use mathlib.Core.List.{append-nil, append_assoc}
use mpfpv.Base.{
  ℕ, suc, ◌+◌, ◌/◌, ◌^◌, ◌≤◌, ◌<◌, ◌≡◌, ◌≢◌, refl, ap, sym, ◌∙◌, arith, List, [], ◌∷◌, ◌++◌, none,
  some, length, take, drop, All, length-append, length-drop, get_or-append_right,
  take-length_append, drop-length_append, drop-append_right,
}
use mpfpv.Base.Bits.{or_disjoint}
use mpfpv.Base.Bytes.{Bytes, u8, copy}
use mpfpv.Base.Results.{ok}
use mpfpv.Protocol.Wire.{
  Heartbeat, PathRtt, heartbeat_payload_min, to4, heartbeat_bytes, encode_heartbeat_full,
  find_separator, join_u16, decode_path, decode_fixed, decode_extension, decode_heartbeat,
}

-- An IPv4 address, a byte, a `uint16` and an 8-byte hash.
pub record IsHeartbeat (hb : Heartbeat) : Type 0 where
  pub ip_length : length hb.virtual_ip ≡ 4
  pub prefix_fits : hb.prefix_len < 256
  pub port_fits : hb.reply_port < 2 ^ 16
  pub hash_length : length hb.team_key_hash ≡ 8

pub join-split : (v : ℕ) → v < 2 ^ 16 → join_u16 (u8 (v / 2 ^ 8)) (u8 v) ≡ v
join-split v h = omega (arith, or_disjoint 8 (u8 (v / 2 ^ 8)) (u8 v) (omega arith))

pub to4_four : (ip : Bytes) → length ip ≡ 4 → to4 ip ≡ some ip
unfolding to4
to4_four ip h = ground arith

abbrev pub NoZero : Bytes → Type 0
NoZero = All (λ x. x ≢ 0)

find_separator-NoZero : (s : Bytes) → NoZero s → find_separator s ≡ none
unfolding find_separator
find_separator-NoZero [] h = refl
find_separator-NoZero (x ∷ s) h = ground (arith, find_separator-NoZero s h.1)

find_separator-append : (s d : Bytes) → NoZero s → find_separator (s ++ 0 ∷ d) ≡ some (length s)
unfolding find_separator
find_separator-append [] d h = refl
find_separator-append (x ∷ s) d h = ground (arith, find_separator-append s d h.1)

module _ (hb : Heartbeat) (v : IsHeartbeat hb) where
  after_ip : Bytes
  after_ip = hb.prefix_len ∷ 0 ∷ u8 (hb.reply_port / 2 ^ 8) ∷ u8 hb.reply_port ∷ hb.team_key_hash

  heartbeat_bytes_split : heartbeat_bytes hb ≡ hb.virtual_ip ++ after_ip
  unfolding after_ip
  heartbeat_bytes_split = rw (to4_four hb.virtual_ip v.ip_length)

  pub length-heartbeat_bytes : length (heartbeat_bytes hb) ≡ heartbeat_payload_min
  unfolding after_ip
  length-heartbeat_bytes = omega (
    arith,
    ap length heartbeat_bytes_split,
    length-append hb.virtual_ip after_ip,
    v.ip_length,
    v.hash_length,
  )

  decode_fixed-append :
      (ext name : Bytes) (paths : List PathRtt)
      → decode_fixed (heartbeat_bytes hb ++ ext) name paths
        ≡ record hb { device_name = name; path_rtts = paths }
  unfolding after_ip
  decode_fixed-append ext name paths =
      rw (heartbeat_bytes_split, append_assoc)
        (ground (
          arith,
          take-length_append hb.virtual_ip (after_ip ++ ext) 4,
          get_or-append_right hb.virtual_ip (after_ip ++ ext) 4 0 0,
          get_or-append_right hb.virtual_ip (after_ip ++ ext) 6 2 0,
          get_or-append_right hb.virtual_ip (after_ip ++ ext) 7 3 0,
          drop-append_right hb.virtual_ip (after_ip ++ ext) 8 4,
          take-length_append hb.team_key_hash ext 8,
          join-split hb.reply_port,
        ))

  -- What the decoder sees behind the fixed part.
  decode-append :
      (ext : Bytes)
      → ext ≢ []
      → decode_heartbeat (heartbeat_bytes hb ++ ext)
        ≡ ok (decode_extension (heartbeat_bytes hb ++ ext) ext)
  unfolding decode_heartbeat
  decode-append [] h = absurd (h refl)
  decode-append (x ∷ ext) h = ground (
    arith,
    length-append (heartbeat_bytes hb) (x ∷ ext),
    length-heartbeat_bytes,
    drop-length_append (heartbeat_bytes hb) (x ∷ ext) 16,
  )

  -- A fixed part, a device name with no zero byte and a further zero-led part come back as they are.
  pub decode-name_path :
      (name d : Bytes)
      → NoZero name
      → decode_heartbeat (heartbeat_bytes hb ++ (name ++ 0 ∷ d))
        ≡ ok (record hb { device_name = name; path_rtts = decode_path d })
  decode-name_path name d z =
      decode-append (name ++ 0 ∷ d) (not-nil name)
      ∙ ap ok (
          ground (
            arith,
            find_separator-append name d z,
            take-length_append name (0 ∷ d) (length name),
            drop-append_right name (0 ∷ d) (length name + 1) 1,
            decode_fixed-append (name ++ 0 ∷ d) name (decode_path d),
          ))
    where
      not-nil : (s : Bytes) → s ++ 0 ∷ d ≢ []
      not-nil [] e = cc
      not-nil (x ∷ s) e = cc

  decode-name :
      (name : Bytes)
      → NoZero name
      → decode_heartbeat (heartbeat_bytes hb ++ name)
        ≡ ok (record hb { device_name = name; path_rtts = [] })
  unfolding decode_heartbeat
  decode-name [] z = ground (
    arith,
    length-append (heartbeat_bytes hb) [],
    length-heartbeat_bytes,
    decode_fixed-append [] [] [],
  )
  decode-name (x ∷ name) z =
      decode-append (x ∷ name) (λ e. cc)
      ∙ ap ok (
          ground (
            arith,
            find_separator-NoZero (x ∷ name) z,
            decode_fixed-append (x ∷ name) (x ∷ name) [],
          ))

copy-fits :
    (dst src : Bytes) → length src ≤ length dst → copy dst src ≡ src ++ drop (length src) dst
copy-fits [] [] h = refl
copy-fits [] (x ∷ src) h = absurd (omega arith)
copy-fits (y ∷ dst) [] h = refl
copy-fits (y ∷ dst) (x ∷ src) h = ap (◌∷◌ x) (copy-fits dst src (omega arith))

-- Into a buffer with room for the fixed part and the name, what is written is the one and then the
-- other, and the count returned is their length.
pub encode_heartbeat_full_lem :
    (buf : Bytes) (hb : Heartbeat) (name : Bytes)
    → IsHeartbeat hb
    → heartbeat_payload_min + length name ≤ length buf
    → (b : Bytes) × (encode_heartbeat_full buf hb name
        ≡ some (b, heartbeat_payload_min + length name))
      × (take (heartbeat_payload_min + length name) b ≡ heartbeat_bytes hb ++ name)
unfolding encode_heartbeat_full
encode_heartbeat_full_lem buf hb [] v room = (
  heartbeat_bytes hb ++ drop 16 buf,
  ground arith,
  rw append-nil (
      take-length_append (heartbeat_bytes hb) (drop 16 buf) 16 (sym (length-heartbeat_bytes hb v))),
)
encode_heartbeat_full_lem buf hb (x ∷ name) v room = (
  heartbeat_bytes hb ++ ((x ∷ name) ++ drop (length (x ∷ name)) (drop 16 buf)),
  ground (
    arith,
    length-heartbeat_bytes hb v,
    take-length_append (heartbeat_bytes hb) (drop 16 buf) 16,
    drop-length_append (heartbeat_bytes hb) (drop 16 buf) 16,
    length-drop 16 buf,
    copy-fits (drop 16 buf) (x ∷ name),
  ),
  rw (← append_assoc) (
      take-length_append (heartbeat_bytes hb ++ x ∷ name) _ (16 + suc (length name)) (
        omega (arith, length-append (heartbeat_bytes hb) (x ∷ name), length-heartbeat_bytes hb v))),
)

-- For a heartbeat whose fields are in range, where the buffer has room for the name and the name holds
-- no zero byte, the packet part that is written decodes to the heartbeat with that name and no paths.
pub decode-encode_full :
    (buf : Bytes) (hb : Heartbeat) (name : Bytes)
    → IsHeartbeat hb
    → NoZero name
    → heartbeat_payload_min + length name ≤ length buf
    → (b : Bytes) × (n : ℕ) × (encode_heartbeat_full buf hb name ≡ some (b, n))
      × (n ≡ heartbeat_payload_min + length name)
      × (decode_heartbeat (take n b) ≡ ok (record hb { device_name = name; path_rtts = [] }))
decode-encode_full buf hb name v z room =
    let (b, e, t) = encode_heartbeat_full_lem buf hb name v room in
    (b, heartbeat_payload_min + length name, e, refl, rw t (decode-name hb v name z))
