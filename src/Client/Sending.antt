-- ===== src/Client/Sending.antt =====
-- client/client.go, tunReadLoop and sendHeartbeat, against what the server does with their packets.
use mpfpv.Base.{
  ℕ, ◌+◌, ◌*◌, ◌^◌, ◌≤◌, ◌<◌, ◌≡◌, ◌≢◌, refl, ap, ◌∙◌, arith, true, ◌==◌, ◌&&◌, not, [], ◌∷◌, ◌++◌,
  some, length, get_or, take, drop, replicate, length-replicate, length-drop, length-take,
  get_or-append_right, get_or-append_left, get_or-drop,
}
use mpfpv.Base.Bytes.{Bytes, get_u32, bytes_eq, bytes_eq_sound}
use mpfpv.Base.Results.{ok}
use mpfpv.Protocol.Wire.{
  header_size, heartbeat_payload_min, decode_header, decode_heartbeat, ipv4_zero, heartbeat_bytes,
  header_bytes,
}
use mpfpv.Protocol.Header.{IsHeader, encode_header_bytes, decode-header_bytes}
use mpfpv.Protocol.Heartbeat.{IsHeartbeat, NoZero, encode_heartbeat_full_lem}
use mpfpv.Client.Checksum.{recalc_checksum}
use mpfpv.Client.Checksum.Valid.{recalc_checksum-elsewhere}
use mpfpv.Client.Paths.{NetPath, stamped}
use mpfpv.Client.Stamp.{reported, decode-stamped_bytes}
use mpfpv.Client.Handlers.{Client, with_source, own_heartbeat, heartbeat_header, heartbeat_packet}
use mpfpv.Server.Data.{src_ip, dst_ip}

readdressed : Bytes → Bytes → Bytes
readdressed vip payload = take 12 payload ++ (vip ++ drop 16 payload)

module _ (vip payload : Bytes) (four : length vip ≡ 4) (long : 20 ≤ length payload) where
  readdressed-src : (i : ℕ) → i < 4 → get_or (readdressed vip payload) (12 + i) 0 ≡ get_or vip i 0
  unfolding readdressed
  readdressed-src i h =
      get_or-append_right (take 12 payload) (vip ++ drop 16 payload) (12 + i) i 0
        (omega (arith, length-take 12 payload))
      ∙ get_or-append_left vip (drop 16 payload) i 0 (omega arith)

  readdressed-dst :
      (i : ℕ) → get_or (readdressed vip payload) (16 + i) 0 ≡ get_or payload (16 + i) 0
  unfolding readdressed
  readdressed-dst i =
      get_or-append_right (take 12 payload) (vip ++ drop 16 payload) (16 + i) (4 + i) 0
        (omega (arith, length-take 12 payload))
      ∙ get_or-append_right vip (drop 16 payload) (4 + i) i 0 (omega arith)
      ∙ get_or-drop payload 16 i (16 + i) 0 refl

-- A word read behind `n` bytes, through the bytes of the whole.
get_u32-drop :
    (p : Bytes) (n : ℕ)
    → get_u32 (drop n p)
      ≡ get_or p (n + 0) 0 * 2 ^ 24
        + get_or p (n + 1) 0 * 2 ^ 16
        + get_or p (n + 2) 0 * 2 ^ 8
        + get_or p (n + 3) 0
get_u32-drop p n = omega (
  arith,
  get_or-drop p n 0 (n + 0) 0 refl,
  get_or-drop p n 1 (n + 1) 0 refl,
  get_or-drop p n 2 (n + 2) 0 refl,
  get_or-drop p n 3 (n + 3) 0 refl,
)

-- A checksum written anew leaves the addresses as they are.
addresses_kept :
    (p : Bytes)
    → (get_u32 (drop 12 (recalc_checksum p)) ≡ get_u32 (drop 12 p))
      × (get_u32 (drop 16 (recalc_checksum p)) ≡ get_u32 (drop 16 p))
addresses_kept p =
    let same : (i : ℕ) → 12 ≤ i → get_or (recalc_checksum p) i 0 ≡ get_or p i 0 =
      λ i h. recalc_checksum-elsewhere p i (omega arith) (omega arith) in
    (
      rw (get_u32-drop (recalc_checksum p) 12, get_u32-drop p 12)
          (omega (arith, same 12, same 13, same 14, same 15)),
      rw (get_u32-drop (recalc_checksum p) 16, get_u32-drop p 16)
          (omega (arith, same 16, same 17, same 18, same 19)),
    )

-- Whatever source a TUN packet of 20 bytes or more names, the packet that is sent on names the client's
-- own address, which is of 4 bytes and not 0, and so passes the server's test of the source; its
-- destination is what it was.
pub with_source-src_ip :
    (vip payload : Bytes)
    → length vip ≡ 4
    → vip ≢ ipv4_zero
    → 20 ≤ length payload
    → (src_ip (with_source vip payload) ≡ get_u32 vip)
      × (dst_ip (with_source vip payload) ≡ dst_ip payload)
unfolding with_source readdressed
with_source-src_ip vip payload four set long =
    let own : (length vip == 4 && not (bytes_eq vip ipv4_zero)) ≡ true =
      ground (arith, bytes_eq_sound vip ipv4_zero) in
    let p : Bytes = readdressed vip payload in
    let src = readdressed-src vip payload four long in
    let dst = readdressed-dst vip payload four long in
    rw own (
      (addresses_kept p).0
          ∙ rw (get_u32-drop p 12) (
              omega (
                arith,
                src 0 (omega arith),
                src 1 (omega arith),
                src 2 (omega arith),
                src 3 (omega arith),
              )),
      (addresses_kept p).1
          ∙ rw (get_u32-drop p 16, get_u32-drop payload 16)
              (omega (arith, dst 0, dst 1, dst 2, dst 3)),
    )

-- The bytes of a heartbeat before it is stamped.
heartbeat_packet_bytes :
    (c : Client)
    → IsHeartbeat (own_heartbeat c)
    → heartbeat_packet c
      ≡ some (
          header_bytes (heartbeat_header c) ++ (heartbeat_bytes (own_heartbeat c) ++ c.device_name))
unfolding heartbeat_packet
heartbeat_packet_bytes c v =
    let room : ℕ = header_size + heartbeat_payload_min + length c.device_name + 256 in
    let big : Bytes = replicate room 0 in
    let made : length big ≡ room = length-replicate {A = ℕ} room 0 in
    let (b, e, t) =
      encode_heartbeat_full_lem (drop header_size big) (own_heartbeat c) c.device_name v
        (omega (arith, made, length-drop header_size big)) in
    rw (encode_header_bytes big (heartbeat_header c) (omega (arith, made)), heartbeat_packet)
      (rw e (ap (λ r. some (header_bytes (heartbeat_header c) ++ r)) t))

-- A client's heartbeat whose fields are in range, stamped for a path, decodes at the server to its
-- header and, behind it, to the client's heartbeat with its name and the entry for this path, provided
-- that the name holds no zero byte and the interface's name is at most 255 bytes long.
pub heartbeat_packet_lem :
    (c : Client) (p : NetPath)
    → IsHeader (heartbeat_header c)
    → IsHeartbeat (own_heartbeat c)
    → NoZero c.device_name
    → length p.iface_name < 256
    → (b : Bytes) × (heartbeat_packet c ≡ some b)
      × (decode_header (stamped b p) ≡ ok (heartbeat_header c))
      × (decode_heartbeat (drop header_size (stamped b p))
          ≡ ok (record (own_heartbeat c) {
            device_name = c.device_name;
            path_rtts = reported p ∷ [];
          }))
heartbeat_packet_lem c p vh vb z short = (
  header_bytes (heartbeat_header c) ++ (heartbeat_bytes (own_heartbeat c) ++ c.device_name),
  heartbeat_packet_bytes c vb,
  decode-header_bytes (heartbeat_header c) _ vh,
  decode-stamped_bytes (own_heartbeat c) c.device_name p vb z short,
)
