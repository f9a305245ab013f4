-- ===== src/Client/Stamp.antt =====
-- client/transport.go, SendAllHeartbeat, and protocol.DecodeHeartbeat: the server reads from each
-- copy of a heartbeat which path it came by and what this path has measured.
use mpfpv.Base.{
  ℕ, ◌+◌, ◌/◌, ◌^◌, ◌≤◌, ◌<◌, ◌≡◌, refl, ap, arith, [], ◌∷◌, ◌++◌, length, get_or, take, drop,
  length-append, get_or-append_right, take-length_append, drop-append_right, ◌&&◌, leb, true, some,
}
use mathlib.Core.List.{append_assoc}
use mpfpv.Base.Bytes.{Bytes, u8, u16, u32, put_u16, put_u32, get_u32}
use mpfpv.Base.Results.{ok}
use mpfpv.Protocol.Wire.{
  Heartbeat, PathRtt, heartbeat_payload_min, heartbeat_bytes, encode_heartbeat_full, path_entry,
  decode_path, decode_heartbeat, join_u16,
}
use mpfpv.Protocol.Heartbeat.{
  IsHeartbeat, NoZero, join-split, decode-name_path, encode_heartbeat_full_lem,
}
use mpfpv.Client.Paths.{NetPath, path_suffix, stamped}

-- What the server learns of a path: its counters and its round-trip time in milliseconds, as far as the fields are wide.
abbrev pub reported : NetPath → PathRtt
reported p = record {
  name = p.iface_name;
  rtt_ms = u16 (p.rtt / 10 ^ 6);
  tx_bytes = u32 p.tx_bytes;
  rx_bytes = u32 p.rx_bytes;
}

get-put_u32 : (v : ℕ) (d : Bytes) → get_u32 (put_u32 (u32 v) ++ d) ≡ u32 v
get-put_u32 v d = omega arith

abbrev numbers : NetPath → Bytes
numbers p = put_u16 (u16 (p.rtt / 10 ^ 6)) ++ (put_u32 (u32 p.tx_bytes) ++ put_u32 (u32 p.rx_bytes))

path_entry-numbers :
    (p : NetPath)
    → path_entry (length p.iface_name ∷ (p.iface_name ++ numbers p)) (length p.iface_name)
      ≡ reported p
path_entry-numbers p = λ i. record {
  name = take-length_append p.iface_name (numbers p) (length p.iface_name) refl i;
  rtt_ms = rtt i;
  tx_bytes = tx i;
  rx_bytes = rx i;
}
  where
    d : Bytes
    d = length p.iface_name ∷ p.iface_name

    len : ℕ
    len = 1 + length p.iface_name

    after : (n i : ℕ) → n ≡ len + i → drop n (d ++ numbers p) ≡ drop i (numbers p)
    after n i e = drop-append_right d (numbers p) n i (omega (arith, e))

    at : (n i : ℕ) → n ≡ len + i → get_or (d ++ numbers p) n 0 ≡ get_or (numbers p) i 0
    at n i e = get_or-append_right d (numbers p) n i 0 (omega (arith, e))

    rtt :
        join_u16 (get_or (d ++ numbers p) len 0) (get_or (d ++ numbers p) (len + 1) 0)
        ≡ u16 (p.rtt / 10 ^ 6)
    rtt =
        rw (at len 0 (omega arith), at (len + 1) 1 refl)
          (join-split (u16 (p.rtt / 10 ^ 6)) (omega arith))

    tx : get_u32 (drop (len + 2) (d ++ numbers p)) ≡ u32 p.tx_bytes
    tx = rw (after (len + 2) 2 refl) (get-put_u32 p.tx_bytes (put_u32 (u32 p.rx_bytes)))

    rx : get_u32 (drop (len + 2 + 4) (d ++ numbers p)) ≡ u32 p.rx_bytes
    rx = rw (after (len + 2 + 4) 6 (omega arith)) (get-put_u32 p.rx_bytes [])

decode-suffix :
    (p : NetPath)
    → length p.iface_name < 256
    → decode_path (u8 (length p.iface_name) ∷ (p.iface_name ++ numbers p)) ≡ reported p ∷ []
unfolding decode_path
decode-suffix p short =
    let small : u8 (length p.iface_name) ≡ length p.iface_name = omega arith in
    let fits : (leb 1 (length (length p.iface_name ∷ (p.iface_name ++ numbers p)))
          && leb (1 + length p.iface_name + 10)
              (length (length p.iface_name ∷ (p.iface_name ++ numbers p))))
        ≡ true =
      ground (arith, length-append p.iface_name (numbers p)) in
    rw (small, fits) (ap (λ e. e ∷ []) (path_entry-numbers p))

pub decode-stamped_bytes :
    (hb : Heartbeat) (name : Bytes) (p : NetPath)
    → IsHeartbeat hb
    → NoZero name
    → length p.iface_name < 256
    → decode_heartbeat (stamped (heartbeat_bytes hb ++ name) p)
      ≡ ok (record hb { device_name = name; path_rtts = reported p ∷ [] })
unfolding path_suffix
decode-stamped_bytes hb name p v z short =
    rw (append_assoc, decode-name_path hb v name _ z, decode-suffix p short) refl

-- A heartbeat with room for its name, stamped for a path, decodes at the server to the heartbeat with
-- that name and one entry for that path, provided neither the heartbeat's fields are out of range, nor
-- the name holds a zero byte, nor the interface's name is longer than 255 bytes.
pub decode-stamped :
    (buf : Bytes) (hb : Heartbeat) (name : Bytes) (p : NetPath)
    → IsHeartbeat hb
    → NoZero name
    → length p.iface_name < 256
    → heartbeat_payload_min + length name ≤ length buf
    → (b : Bytes) × (n : ℕ) × (encode_heartbeat_full buf hb name ≡ some (b, n))
      × (decode_heartbeat (stamped (take n b) p)
          ≡ ok (record hb { device_name = name; path_rtts = reported p ∷ [] }))
decode-stamped buf hb name p v z short room =
    let (b, e, t) = encode_heartbeat_full_lem buf hb name v room in
    (b, heartbeat_payload_min + length name, e, rw t (decode-stamped_bytes hb name p v z short))
