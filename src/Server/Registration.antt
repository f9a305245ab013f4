-- ===== src/Server/Registration.antt =====
-- server/server.go, handleHeartbeat and sendHeartbeatAck: whom a heartbeat registers, and what the ack
-- tells the client.
use mpfpv.Base.{
  ℕ, ◌^◌, ◌<◌, ◌≡◌, ◌≢◌, refl, ap, ◌∙◌, arith, Bool, true, false, ◌==◌, List, [], ◌∷◌, ◌++◌, some,
  lookup, insert, lookup-insert, drop,
}
use mpfpv.Base.Bytes.{Bytes, put_u32, bytes_eq}
use mpfpv.Base.Results.{ok}
use mpfpv.Protocol.Wire.{
  PathRtt, Header, Heartbeat, HeartbeatAck, mtu, to4, type_heartbeat_ack, header_size, header_bytes,
  encode_header, decode_header, encode_heartbeat_ack, decode_heartbeat, decode_heartbeat_ack,
  ack_status_ok, ack_status_bad_team_key, ack_bytes,
}
use mpfpv.Protocol.Header.{decode-header_bytes}
use mpfpv.Server.State.{AddrInfo, Session, Server, Effect, sent}
use mpfpv.Server.Send.{ack_packet, next_seq, send_heartbeat_ack}
use mpfpv.Server.Invariant.Same.{send_heartbeat_ack-Same}
use mpfpv.Server.Heartbeat.{touch_addr, known_or_new, accept_heartbeat, handle_heartbeat}

abbrev pub ack_header : ℕ → Header
ack_header seq = record { type = type_heartbeat_ack; client_id = 0; seq = seq }

abbrev pub ack_for : ℕ → ℕ → ℕ → HeartbeatAck
ack_for ip prefix_len status = record {
  assigned_ip = put_u32 ip;
  prefix_len = prefix_len;
  status = status;
  mtu = mtu;
}

ack_packet_bytes :
    (seq ip len status : ℕ)
    → ack_packet seq ip len status
      ≡ some (header_bytes (ack_header seq) ++ ack_bytes (ack_for ip len status))
unfolding ack_packet encode_header encode_heartbeat_ack
ack_packet_bytes seq ip len status = refl

decode-ack_packet :
    (seq ip len status : ℕ)
    → seq < 2 ^ 32
    → (b : Bytes) × (ack_packet seq ip len status ≡ some b)
      × (decode_header b ≡ ok (ack_header seq))
      × (decode_heartbeat_ack (drop header_size b) ≡ ok (ack_for ip len status))
unfolding decode_heartbeat_ack to4
decode-ack_packet seq ip len status h = (
  header_bytes (ack_header seq) ++ ack_bytes (ack_for ip len status),
  ack_packet_bytes seq ip len status,
  decode-header_bytes (ack_header seq) (ack_bytes (ack_for ip len status)) (omega arith),
  refl,
)

-- A datagram that tells its receiver the given address, prefix length and status.
pub record IsAckOf (ip prefix_len status : ℕ) (b : Bytes) : Type 0 where
  pub header_of : (seq : ℕ) × (decode_header b ≡ ok (ack_header seq))
  pub body_of : decode_heartbeat_ack (drop header_size b) ≡ ok (ack_for ip prefix_len status)

send_heartbeat_ack_lem :
    (write_ok : ℕ → Bool) (to ip len status : ℕ) (s : Server)
    → write_ok to ≡ true
    → let t = send_heartbeat_ack write_ok to ip len status s in
      (b : Bytes) × (t.effects ≡ sent to b ∷ s.effects)
      × IsAckOf ip len status b
      × (t.sessions ≡ s.sessions)
unfolding send_heartbeat_ack
send_heartbeat_ack_lem write_ok to ip len status s good =
    let (b, made, head, body) = decode-ack_packet (next_seq s) ip len status (omega arith) in
    rw (made, good) (b, refl, record { header_of = (next_seq s, head); body_of = body }, refl)

lookup-insert_self :
    (k : ℕ) (v : AddrInfo) (m : List (ℕ × AddrInfo)) → lookup k (insert k v m) ≡ some v
lookup-insert_self k v m = ground (arith, lookup-insert k k v m)

touch_addr-seen :
    (from now : ℕ) (ps : List PathRtt) (addrs : List (ℕ × AddrInfo))
    → (ai : AddrInfo) × (lookup from (touch_addr from now ps addrs) ≡ some ai)
      × (ai.last_seen ≡ now)
unfolding touch_addr
touch_addr-seen from now [] addrs = (_, lookup-insert_self from _ addrs, refl)
touch_addr-seen from now (p ∷ ps) addrs = (_, lookup-insert_self from _ _, refl)

-- A session that an endpoint was heard from at a time.
pub record HeardFrom (from now : ℕ) (sess : Session) : Type 0 where
  pub entry : (ai : AddrInfo) × (lookup from sess.addrs ≡ some ai) × (ai.last_seen ≡ now)

accept_heartbeat_lem :
    (write_ok : ℕ → Bool) (c from now : ℕ) (hb : Heartbeat) (s : Server)
    → write_ok from ≡ true
    → let t = accept_heartbeat write_ok c from now hb s in
      (sess : Session) × (lookup c t.sessions ≡ some sess)
      × HeardFrom from now sess
      × ((b : Bytes) × (es : List Effect) × (t.effects ≡ sent from b ∷ es)
          × IsAckOf sess.virtual_ip sess.prefix_len ack_status_ok b)
unfolding accept_heartbeat
accept_heartbeat_lem write_ok c from now hb s good =
    let (sess, t) = known_or_new c now hb s (lookup c s.sessions) in
    let touched : Session = record sess { addrs = touch_addr from now hb.path_rtts sess.addrs } in
    let u : Server = record t { sessions = insert c touched t.sessions } in
    let (b, out, ack, same) =
      send_heartbeat_ack_lem write_ok from sess.virtual_ip sess.prefix_len ack_status_ok u good in
    (
      touched,
      ap (lookup c) same ∙ lookup-insert c c touched t.sessions ∙ ground arith,
      record { entry = touch_addr-seen from now hb.path_rtts sess.addrs },
      (b, t.effects, out, ack),
    )

-- Where writes to the endpoint succeed, a heartbeat with the server's key from a client with an id leaves
-- the client with a session in which the endpoint was heard from now, and the last thing sent is an ack
-- to this endpoint with the session's virtual IP and prefix length.
pub handle_heartbeat_accepted :
    (write_ok : ℕ → Bool) (hdr : Header) (payload : Bytes) (from now : ℕ) (hb : Heartbeat)
    (s : Server)
    → write_ok from ≡ true
    → decode_heartbeat payload ≡ ok hb
    → bytes_eq hb.team_key_hash s.team_key_hash ≡ true
    → hdr.client_id ≢ 0
    → let t = handle_heartbeat write_ok hdr payload from now s in
      (sess : Session) × (lookup hdr.client_id t.sessions ≡ some sess)
      × HeardFrom from now sess
      × ((b : Bytes) × (es : List Effect) × (t.effects ≡ sent from b ∷ es)
          × IsAckOf sess.virtual_ip sess.prefix_len ack_status_ok b)
unfolding handle_heartbeat
handle_heartbeat_accepted write_ok hdr payload from now hb s good e key id =
    let named : (hdr.client_id == 0) ≡ false = ground arith in
    rw (e, handle_heartbeat, key, named)
      (accept_heartbeat_lem write_ok hdr.client_id from now hb s good)

-- Where writes to the endpoint succeed, a heartbeat with another key than the server's changes nothing
-- of the sessions, the routes and the pool; all that is sent is one ack to the endpoint, with the status
-- for a wrong key and without an address.
pub handle_heartbeat_refused :
    (write_ok : ℕ → Bool) (hdr : Header) (payload : Bytes) (from now : ℕ) (hb : Heartbeat)
    (s : Server)
    → write_ok from ≡ true
    → decode_heartbeat payload ≡ ok hb
    → bytes_eq hb.team_key_hash s.team_key_hash ≡ false
    → let t = handle_heartbeat write_ok hdr payload from now s in
      (t.sessions ≡ s.sessions)
      × (t.route_table ≡ s.route_table)
      × (t.ip_pool ≡ s.ip_pool)
      × ((b : Bytes) × (t.effects ≡ sent from b ∷ s.effects)
          × IsAckOf 0 0 ack_status_bad_team_key b)
unfolding handle_heartbeat
handle_heartbeat_refused write_ok hdr payload from now hb s good e key =
    let (b, out, ack, same) =
      send_heartbeat_ack_lem write_ok from 0 0 ack_status_bad_team_key s good in
    let kept = send_heartbeat_ack-Same write_ok from 0 0 ack_status_bad_team_key s in
    rw (e, handle_heartbeat, key) (same, kept.same_routes, kept.same_pool, (b, out, ack))
