-- ===== src/Server/Run.antt =====
-- server/server.go and server/web.go as one machine: whatever packets, TUN reads, clock ticks and
-- requests of the web interface come, in whatever order.
use mpfpv.Base.{
  ℕ, ◌≡◌, ◌≢◌, arith, Bool, true, false, ◌==◌, ltb, Bool-cases, refl, inl, inr, some, length, drop,
  lookup,
}
use mpfpv.Base.Bytes.{Bytes}
use mpfpv.Base.Results.{Result, ok, err}
use mpfpv.Protocol.Wire.{
  ProtocolError, Header, decode_header, type_heartbeat, type_data, header_size,
}
use mpfpv.Server.State.{Session, Server}
use mpfpv.Server.Addressing.{unique_address}
use mpfpv.Server.Data.{handle_packet, handle_tun_packet, count_rx}
use mpfpv.Server.Cleanup.{cleanup}
use mpfpv.Server.Invariant.Same.{
  Inv, Same-Inv, unchanged, handle_data-Same, count_rx-Same, handle_tun_packet-Same,
  lookup-session_ips,
}
use mpfpv.Server.Invariant.Register.{handle_heartbeat-Inv}
use mpfpv.Server.Invariant.Ending.{cleanup-Inv}
use mpfpv.Server.Api.{Env, Request, handle_request}
use mpfpv.Server.Api.Requests.{handle_request-Inv}

-- One step, with the outcome of its socket writes. A cleanup and a request run as a whole here, though
-- cleanup and deleteClient let go of the sessions before they are done. `tun_made`: Run has made the
-- TUN device.
pub data Step (s t : Server) : Type 0 where
  packet :
      (write_ok : ℕ → Bool) (bytes : Bytes) (from now : ℕ)
      → t ≡ handle_packet write_ok bytes from now s
      → Step s t
  tun_read :
      (write_ok : ℕ → Bool) (payload : Bytes) → t ≡ handle_tun_packet write_ok payload s → Step s t
  tick : (now : ℕ) → t ≡ cleanup now s → Step s t
  tun_made : t ≡ record s { has_tun = true } → Step s t
  request : (e : Env) (now : ℕ) (r : Request) → t ≡ (handle_request e now r s).0 → Step s t

pub data Reach (s : Server) : Server → Type 0 where
  here : Reach s s
  next : {t u : Server} → Reach s t → Step t u → Reach s u

handle_packet-Inv :
    (write_ok : ℕ → Bool) (s : Server) (bytes : Bytes) (from now : ℕ)
    → Inv s
    → Inv (handle_packet write_ok bytes from now s)
unfolding handle_packet
handle_packet-Inv write_ok s bytes from now v = elim (Bool-cases (ltb (length bytes) header_size)) [
  | inl short ↦ rw short v
  | inr long ↦ go long (decode_header bytes) refl
]
  where
    go :
        ltb (length bytes) header_size ≡ false
        → (r : Result ProtocolError Header) → decode_header bytes ≡ r
        → Inv (handle_packet write_ok bytes from now s)
    go long (err x) e = rw (long, e, handle_packet) v
    go long (ok hdr) e =
        let w = Same-Inv (count_rx-Same hdr.client_id from (length bytes) s) v in
        let t = count_rx hdr.client_id from (length bytes) s in
        rw (long, e, handle_packet)
          (elim (Bool-cases (hdr.type == type_heartbeat)) [
            | inl heartbeat ↦
                rw heartbeat (handle_heartbeat-Inv write_ok t hdr (drop 8 bytes) from now w)
            | inr other ↦ rw other (elim (Bool-cases (hdr.type == type_data)) [
              | inl payload ↦
                  rw payload
                    (Same-Inv (handle_data-Same write_ok hdr (drop 8 bytes) from now bytes t) w)
              | inr unknown ↦ rw unknown w
            ])
          ])

-- Every step keeps the virtual IPs in order.
pub Step-Inv : {s t : Server} → Step s t → Inv s → Inv t
Step-Inv {s} (packet write_ok bytes from now e) v =
    rw e (handle_packet-Inv write_ok s bytes from now v)
Step-Inv {s} (tun_read write_ok payload e) v =
    rw e (Same-Inv (handle_tun_packet-Same write_ok payload s) v)
Step-Inv {s} (tick now e) v = rw e (cleanup-Inv now s v)
Step-Inv {s} (tun_made e) v = rw e (Same-Inv (unchanged refl refl refl refl refl) v)
Step-Inv {s} (request a now r e) v = rw e (handle_request-Inv a now r s v)

-- From a server whose addresses are in order, they are in order after every run of packets, TUN reads,
-- cleanups and requests of the web interface, one after another.
pub Reach-Inv : {s t : Server} → Inv s → Reach s t → Inv t
Reach-Inv v here = v
Reach-Inv v (next r st) = Step-Inv st (Reach-Inv v r)

-- From a server whose addresses are in order, after any run of packets, TUN reads, cleanups and requests
-- of the web interface in which no other handler acts before a cleanup or a deletion is done, no two sessions have one virtual IP, other than the 0 of a
-- client that was given none; the route of such a virtual IP is its session's client, and it is not the
-- server's own.
pub addresses_unique :
    {s t : Server} (v : Inv s) (r : Reach s t) (c d : ℕ) (x y : Session)
    → lookup c t.sessions ≡ some x
    → lookup d t.sessions ≡ some y
    → x.virtual_ip ≡ y.virtual_ip
    → x.virtual_ip ≢ 0
    → (c ≡ d) × (lookup x.virtual_ip t.route_table ≡ some c) × (x.virtual_ip ≢ t.server_virtual_ip)
addresses_unique {t} v r c d x y hx hy same n =
    let a = (Reach-Inv v r).addressing in
    let hc = lookup-session_ips c t.sessions x hx in
    let hd = lookup-session_ips d t.sessions y hy in
    (
      unique_address a c d x.virtual_ip hc (ground arith) n,
      a.routed c x.virtual_ip hc n,
      a.not_server c x.virtual_ip hc n,
    )
