-- ===== src/Client/Delivery.antt =====
-- client/client.go and server/server.go together: a packet from one client's TUN device on its way to
-- another client's endpoints.
use mpfpv.Base.{
  ℕ, ◌^◌, ◌≤◌, ◌<◌, ◌≡◌, ◌≢◌, refl, ap, sym, ◌∙◌, arith, inl, inr, Bool, true, false, ◌==◌, ◌||◌,
  ◌&&◌, not, ltb, Bool-cases, Option-cases, [], ◌∷◌, ◌++◌, some, lookup, lookup-insert, length,
  get_or, take, drop, set, length-set, length-append, length-take, length-drop,
}
use mpfpv.Base.Bytes.{Bytes, bytes_eq, put_u32, get_u32}
use mpfpv.Protocol.Wire.{Header, header_bytes, encode_header, type_data, ipv4_zero}
use mpfpv.Protocol.Header.{IsHeader, decode-header_bytes}
use mpfpv.Dedup.{is_duplicate}
use mpfpv.Server.State.{Session, Server}
use mpfpv.Server.Send.{endpoints, change_session}
use mpfpv.Server.Data.{is_ipv4, dst_ip, count_rx, handle_packet}
use mpfpv.Server.Invariant.Same.{Inv, Same-Inv, count_rx-Same}
use mpfpv.Server.Routing.{delivered, handle_data_delivers}
use mpfpv.Client.Checksum.{header_length, recalc_checksum}
use mpfpv.Client.Checksum.Valid.{recalc_checksum-elsewhere}
use mpfpv.Client.Handlers.{Client, used_seq, with_source, data_packet}
use mpfpv.Client.Sending.{with_source-src_ip}
use mpfpv.Client.Registration.{decode_header-long}

length-recalc_checksum : (h : Bytes) → length (recalc_checksum h) ≡ length h
unfolding recalc_checksum
length-recalc_checksum h =
    elim (Bool-cases (ltb (header_length h) 20 || ltb (length h) (header_length h))) [
      | inl bad ↦ rw bad refl
      | inr good ↦ rw good (
          length-set (set (set (set h 10 0) 11 0) 10 _) 11 _
          ∙ length-set (set (set h 10 0) 11 0) 10 _
          ∙ length-set (set h 10 0) 11 0
          ∙ length-set h 10 0)
    ]

is_ipv4-long : (p : Bytes) → is_ipv4 p ≡ true → 20 ≤ length p
is_ipv4-long p v = ground arith

is_ipv4-same :
    (p q : Bytes)
    → length q ≡ length p
    → get_or q 0 0 ≡ get_or p 0 0
    → is_ipv4 p ≡ true
    → is_ipv4 q ≡ true
is_ipv4-same p q len first v = ground arith

get_or-take_first : (p rest : Bytes) → 0 < length p → get_or (take 12 p ++ rest) 0 0 ≡ get_or p 0 0
get_or-take_first [] rest h = absurd (omega arith)
get_or-take_first (x ∷ p) rest h = refl

-- The rewritten packet is still an IPv4 packet.
with_source-is_ipv4 :
    (vip payload : Bytes)
    → length vip ≡ 4
    → is_ipv4 payload ≡ true
    → is_ipv4 (with_source vip payload) ≡ true
unfolding with_source
with_source-is_ipv4 vip payload four v =
    elim (Bool-cases (length vip == 4 && not (bytes_eq vip ipv4_zero))) [
      | inl set ↦
          let q : Bytes = take 12 payload ++ (vip ++ drop 16 payload) in
          let long = is_ipv4-long payload v in
          let len : length q ≡ length payload = omega (
            arith,
            length-append (take 12 payload) (vip ++ drop 16 payload),
            length-append vip (drop 16 payload),
            length-take 12 payload,
            length-drop 16 payload,
          ) in
          rw set (
            is_ipv4-same payload (recalc_checksum q) (length-recalc_checksum q ∙ len)
              (recalc_checksum-elsewhere q 0 (λ e. omega arith) (λ e. omega arith)
                ∙ get_or-take_first payload (vip ++ drop 16 payload) (omega arith))
              v)
      | inr not_set ↦ rw not_set v
    ]

get-put : (ip : ℕ) → ip < 2 ^ 32 → get_u32 (put_u32 ip) ≡ ip
get-put ip h = omega arith

put-set : (ip : ℕ) → ip < 2 ^ 32 → ip ≢ 0 → put_u32 ip ≢ ipv4_zero
put-set ip h n e = n (sym (get-put ip h) ∙ ap get_u32 e)

abbrev pub data_header : Client → Header
data_header c = record { type = type_data; client_id = c.client_id; seq = used_seq c }

data_packet_bytes :
    (c : Client) (payload : Bytes)
    → is_ipv4 payload ≡ true
    → data_packet c payload
      ≡ some (header_bytes (data_header c) ++ with_source c.virtual_ip payload)
unfolding data_packet encode_header
data_packet_bytes c payload v = ground arith

-- What a change of one session leaves of the sessions.
change_session-own :
    (c : ℕ) (f : Session → Session) (s : Server) (x : Session)
    → lookup c s.sessions ≡ some x
    → lookup c (change_session c f s).sessions ≡ some (f x)
change_session-own c f s x e =
    rw (e, change_session) (lookup-insert c c (f x) s.sessions ∙ ground arith)

change_session-other :
    (c d : ℕ) (f : Session → Session) (s : Server)
    → d ≢ c
    → lookup d (change_session c f s).sessions ≡ lookup d s.sessions
change_session-other c d f s ne = elim (Option-cases (lookup c s.sessions)) [
  | inl absent ↦ rw (absent, change_session) refl
  | inr (x, there) ↦ rw (there, change_session) (lookup-insert c d (f x) s.sessions ∙ ground arith)
]

count_rx-own :
    (c from n : ℕ) (s : Server) (x : Session)
    → lookup c s.sessions ≡ some x
    → (z : Session) × (lookup c (count_rx c from n s).sessions ≡ some z)
      × (z.virtual_ip ≡ x.virtual_ip)
count_rx-own c from n s x e = (_, change_session-own c _ _ x e, refl)

count_rx-other :
    (c d from n : ℕ) (s : Server)
    → d ≢ c
    → lookup d (count_rx c from n s).sessions ≡ lookup d s.sessions
count_rx-other c d from n s ne = change_session-other c d _ _ ne

count_rx-rest :
    (c from n : ℕ) (s : Server)
    → ((count_rx c from n s).dedup ≡ s.dedup) × ((count_rx c from n s).effects ≡ s.effects)
count_rx-rest c from n s = (ground arith, ground arith)

-- An IPv4 packet that a client's TUN device delivers, for the virtual IP of another client, is sent as a
-- datagram that the server, its addresses in order, sends on unchanged to each endpoint of that client
-- and to nothing else, whatever source the packet named; provided that the client has the virtual IP of
-- its session, other than 0, and that the datagram's number is new to the server.
pub tun_to_endpoints :
    (write_ok : ℕ → Bool) (c : Client) (payload : Bytes) (from now : ℕ) (s : Server) (x y : Session)
    (d : ℕ)
    → Inv s
    → IsHeader (data_header c)
    → is_ipv4 payload ≡ true
    → lookup c.client_id s.sessions ≡ some x
    → x.virtual_ip < 2 ^ 32
    → x.virtual_ip ≢ 0
    → c.virtual_ip ≡ put_u32 x.virtual_ip
    → (is_duplicate s.dedup c.client_id (used_seq c)).0 ≡ false
    → lookup d s.sessions ≡ some y
    → d ≢ c.client_id
    → dst_ip payload ≡ y.virtual_ip
    → y.virtual_ip ≢ 0
    → (b : Bytes) × (data_packet c payload ≡ some b)
      × ((handle_packet write_ok b from now s).effects
          ≡ delivered write_ok b (endpoints y.addrs) s.effects)
unfolding handle_packet
tun_to_endpoints write_ok c payload from now s x y d v vh ipv4 hx fits given own new hy ne dst
      nonzero =
    let inner : Bytes = with_source c.virtual_ip payload in
    let b : Bytes = header_bytes (data_header c) ++ inner in
    let head = decode-header_bytes (data_header c) inner vh in
    let long = decode_header-long b (data_header c) head in
    let t : Server = count_rx c.client_id from (length b) s in
    let (z, hz, same) = count_rx-own c.client_id from (length b) s x hx in
    let (dedup, effects) = count_rx-rest c.client_id from (length b) s in
    let four : length c.virtual_ip ≡ 4 = ap length own in
    let set : c.virtual_ip ≢ ipv4_zero = λ e. put-set x.virtual_ip fits given (sym own ∙ e) in
    let (src, to) = with_source-src_ip c.virtual_ip payload four set (is_ipv4-long payload ipv4) in
    let sent_on =
      handle_data_delivers write_ok (data_header c) inner from now b t z y d
        (Same-Inv (count_rx-Same c.client_id from (length b) s) v)
        (ap (λ q. (is_duplicate q c.client_id (used_seq c)).0) dedup ∙ new) hz
        (with_source-is_ipv4 c.virtual_ip payload four ipv4)
        (src ∙ ap get_u32 own ∙ get-put x.virtual_ip fits ∙ sym same)
        (count_rx-other c.client_id d from (length b) s ne ∙ hy) (to ∙ dst) nonzero in
    (
      b,
      data_packet_bytes c payload ipv4,
      rw (long, handle_packet, head)
          (sent_on ∙ ap (delivered write_ok b (endpoints y.addrs)) effects),
    )
