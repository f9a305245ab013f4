-- ===== src/Client/Registration.antt =====
-- client/client.go and server/server.go together: a heartbeat on its way to the server and the ack on
-- its way back.
use mpfpv.Base.{
  ℕ, ◌<◌, ◌≡◌, ◌≢◌, refl, ap, ◌∙◌, arith, inl, inr, Bool, true, false, ltb, Bool-cases, List, ◌∷◌,
  Option, none, some, lookup, length, drop,
}
use mpfpv.Base.Bytes.{Bytes, put_u32, bytes_eq}
use mpfpv.Base.Results.{ok}
use mpfpv.Protocol.Wire.{Header, header_size, decode_header, decode_heartbeat_ack, ack_status_ok}
use mpfpv.Protocol.Header.{IsHeader}
use mpfpv.Protocol.Heartbeat.{IsHeartbeat, NoZero}
use mpfpv.Server.State.{Session, Server, Effect, sent}
use mpfpv.Server.Data.{count_rx, handle_packet}
use mpfpv.Server.Registration.{ack_for, IsAckOf, HeardFrom, handle_heartbeat_accepted}
use mpfpv.Client.Paths.{NetPath, stamped}
use mpfpv.Client.Handlers.{
  Client, own_heartbeat, heartbeat_header, heartbeat_packet, setup_tun, with_ack,
  handle_heartbeat_ack, measure, recv,
}
use mpfpv.Client.Sending.{heartbeat_packet_lem}

pub decode_header-long :
    (b : Bytes) (h : Header) → decode_header b ≡ ok h → ltb (length b) header_size ≡ false
unfolding decode_header
decode_header-long b h e = ground arith

-- A client that an ack has told its address.
pub record HasAddress (ip prefix_len : ℕ) (c : Client) : Type 0 where
  pub address : c.virtual_ip ≡ put_u32 ip
  pub prefix : c.prefix_len ≡ prefix_len
  pub is_registered : c.registered ≡ true

handle_heartbeat_ack-HasAddress :
    (create_ok : Bool) (payload : Bytes) (ip len : ℕ) (c : Client)
    → decode_heartbeat_ack payload ≡ ok (ack_for ip len ack_status_ok)
    → c.tun_ready ≡ c.registered
    → (d : Client) × (handle_heartbeat_ack (some create_ok) payload c ≡ some d)
      × HasAddress ip len d
unfolding handle_heartbeat_ack
handle_heartbeat_ack-HasAddress create_ok payload ip len c e ready =
    rw (e, handle_heartbeat_ack)
      (elim (Bool-cases c.registered) [
        | inl before ↦ (
          with_ack (ack_for ip len ack_status_ok) c,
          rw before refl,
          record { address = refl; prefix = refl; is_registered = refl },
        )
        | inr new ↦
            let ready_not : c.tun_ready ≡ false = ready ∙ new in
            let d = with_ack (ack_for ip len ack_status_ok) c in
            (
              record (setup_tun create_ok d) { tun_ready = true },
              rw (new, ready_not) refl,
              record {
                address = ground arith;
                prefix = ground arith;
                is_registered = ground arith;
              },
            )
      ])

measure-HasAddress :
    (by : Option ℕ) (now ip len : ℕ) (c : Client)
    → HasAddress ip len c
    → HasAddress ip len (measure by now c)
measure-HasAddress none now ip len c h = h
measure-HasAddress (some path) now ip len c h = record {
  address = ground (arith, h.address);
  prefix = ground (arith, h.prefix);
  is_registered = ground (arith, h.is_registered);
}

-- Where the TUN channel is closed exactly if the client is registered, an ack registers it with the
-- address that the ack names, by whichever socket it comes.
pub recv-HasAddress :
    (create_ok : Bool) (b : Bytes) (by : Option ℕ) (now ip len : ℕ) (c : Client)
    → IsAckOf ip len ack_status_ok b
    → c.tun_ready ≡ c.registered
    → (d : Client) × (recv (some create_ok) b by now c ≡ some d) × HasAddress ip len d
unfolding recv
recv-HasAddress create_ok b by now ip len c a ready =
    let (seq, head) = a.header_of in
    let (d, handled, has) =
      handle_heartbeat_ack-HasAddress create_ok (drop header_size b) ip len c a.body_of ready in
    (
      measure by now d,
      rw (decode_header-long b _ head, recv, head, handled) refl,
      measure-HasAddress by now ip len d has,
    )

count_rx-key : (c from n : ℕ) (s : Server) → (count_rx c from n s).team_key_hash ≡ s.team_key_hash
count_rx-key c from n s = ground arith

-- A client whose team key is the server's, whose id is not 0, whose fields are in range and whose
-- device's name holds no zero byte sends a heartbeat that, stamped for a path with an interface's name of
-- at most 255 bytes and handled by the server, leaves the client with a session; the last thing that the
-- server sends is an ack to where the heartbeat came from, and this ack gives the client that session's
-- address and prefix length when it comes in, by whichever socket. It is provided that the server's
-- write succeeds and that the client's TUN channel is closed exactly if it is registered.
pub handshake :
    (write_ok : ℕ → Bool) (create_ok : Bool) (c : Client) (p : NetPath) (s : Server)
    (from now later : ℕ) (by : Option ℕ)
    → write_ok from ≡ true
    → bytes_eq c.team_key_hash s.team_key_hash ≡ true
    → c.client_id ≢ 0
    → IsHeader (heartbeat_header c)
    → IsHeartbeat (own_heartbeat c)
    → NoZero c.device_name
    → length p.iface_name < 256
    → c.tun_ready ≡ c.registered
    → (b : Bytes) × (heartbeat_packet c ≡ some b)
      × (let t = handle_packet write_ok (stamped b p) from now s in
          (sess : Session) × (lookup c.client_id t.sessions ≡ some sess)
          × HeardFrom from now sess
          × ((a : Bytes) × (es : List Effect) × (t.effects ≡ sent from a ∷ es)
              × ((d : Client) × (recv (some create_ok) a by later c ≡ some d)
                  × HasAddress sess.virtual_ip sess.prefix_len d)))
unfolding handle_packet
handshake write_ok create_ok c p s from now later by good key id vh vb z short ready =
    let (b, made, head, body) = heartbeat_packet_lem c p vh vb z short in
    let t : Server = count_rx c.client_id from (length (stamped b p)) s in
    let same : bytes_eq c.team_key_hash t.team_key_hash ≡ true =
      ap (bytes_eq c.team_key_hash) (count_rx-key c.client_id from (length (stamped b p)) s)
      ∙ key in
    let (sess, there, heard, (a, es, out, ack)) =
      handle_heartbeat_accepted write_ok (heartbeat_header c) (drop header_size (stamped b p)) from
        now _ t good body same id in
    let (d, got, has) =
      recv-HasAddress create_ok a by later sess.virtual_ip sess.prefix_len c ack ready in
    let long = decode_header-long (stamped b p) (heartbeat_header c) head in
    (b, made, rw (long, handle_packet, head) (sess, there, heard, (a, es, out, (d, got, has))))
