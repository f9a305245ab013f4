-- ===== src/Server/Invariant/Same.antt =====
-- server/server.go: sending and forwarding change counters, times and the deduplicator, and leave
-- sessions, routes and pool as they were.
use mpfpv.Base.{
  ℕ, ◌≡◌, refl, sym, ap, ◌∙◌, arith, inl, inr, Bool, ◌==◌, ◌&&◌, not, Bool-cases, Option-cases,
  List, [], ◌∷◌, Option, none, some, lookup, insert, delete,
}
use mpfpv.Base.Bytes.{Bytes}
use mpfpv.Protocol.Wire.{Header}
use mpfpv.Dedup.{is_duplicate}
use mpfpv.Server.State.{Session, Server, Subnet, session_ips, save_ip_pool}
use mpfpv.Server.Send.{
  change_session, count_tx, write_all, send_to_client, send_packet, send_heartbeat_ack, ack_packet,
  next_seq, bump_seq, endpoints,
}
use mpfpv.Server.Data.{
  route, handle_data, count_rx, handle_tun_packet, seen_now, from_client, send_header, is_ipv4,
  src_ip, dst_ip,
}
use mpfpv.Server.Pool.Alloc.{IsSubnet}
use mpfpv.Server.Addressing.{Addressing}

-- The addresses of a server are in order, and its subnet, if it has one, is an IPv4 network.
pub record Inv (s : Server) : Type 0 where
  pub addressing : Addressing (session_ips s.sessions) s.route_table s.ip_pool s.server_virtual_ip
  pub subnet_valid : (n : Subnet) → s.subnet ≡ some n → IsSubnet n

pub record Same (s t : Server) : Type 0 where
  pub same_vips : session_ips t.sessions ≡ session_ips s.sessions
  pub same_routes : t.route_table ≡ s.route_table
  pub same_pool : t.ip_pool ≡ s.ip_pool
  pub same_server : t.server_virtual_ip ≡ s.server_virtual_ip
  pub same_subnet : t.subnet ≡ s.subnet

-- The same for a handler that does not touch the sessions at all.
pub unchanged :
    {s t : Server}
    → t.sessions ≡ s.sessions
    → t.route_table ≡ s.route_table
    → t.ip_pool ≡ s.ip_pool
    → t.server_virtual_ip ≡ s.server_virtual_ip
    → t.subnet ≡ s.subnet
    → Same s t
unchanged a b c d e = record {
  same_vips = ap session_ips a;
  same_routes = b;
  same_pool = c;
  same_server = d;
  same_subnet = e;
}

pub Same-Inv : {s t : Server} → Same s t → Inv s → Inv t
Same-Inv e v = record {
  addressing = rw (e.same_vips, e.same_routes, e.same_pool, e.same_server) v.addressing;
  subnet_valid = λ n h. v.subnet_valid n (sym e.same_subnet ∙ h);
}

pub Same-refl : (s : Server) → Same s s
Same-refl s = unchanged refl refl refl refl refl

pub Same-trans : {s t u : Server} → Same s t → Same t u → Same s u
Same-trans e f = record {
  same_vips = f.same_vips ∙ e.same_vips;
  same_routes = f.same_routes ∙ e.same_routes;
  same_pool = f.same_pool ∙ e.same_pool;
  same_server = f.same_server ∙ e.same_server;
  same_subnet = f.same_subnet ∙ e.same_subnet;
}

pub session_ips-insert :
    (c : ℕ) (x : Session) (m : List (ℕ × Session))
    → session_ips (insert c x m) ≡ insert c x.virtual_ip (session_ips m)
session_ips-insert c x [] = refl
session_ips-insert c x ((k, y) ∷ m) = ground (arith, session_ips-insert c x m)

pub session_ips-delete :
    (c : ℕ) (m : List (ℕ × Session)) → session_ips (delete c m) ≡ delete c (session_ips m)
session_ips-delete c [] = refl
session_ips-delete c ((k, y) ∷ m) = ground (arith, session_ips-delete c m)

pub lookup-session_ips :
    (c : ℕ) (m : List (ℕ × Session)) (x : Session)
    → lookup c m ≡ some x
    → lookup c (session_ips m) ≡ some x.virtual_ip
lookup-session_ips c [] x e = cc
lookup-session_ips c ((k, y) ∷ m) x e = ground (arith, lookup-session_ips c m x)

pub lookup-session_ips-none :
    (c : ℕ) (m : List (ℕ × Session)) → lookup c m ≡ none → lookup c (session_ips m) ≡ none
lookup-session_ips-none c [] e = refl
lookup-session_ips-none c ((k, y) ∷ m) e = ground (arith, lookup-session_ips-none c m)

insert_same : (c x : ℕ) (m : List (ℕ × ℕ)) → lookup c m ≡ some x → insert c x m ≡ m
insert_same c x [] e = cc
insert_same c x ((k, y) ∷ m) e = ground (arith, insert_same c x m)

-- A session is put back with its own address.
pub put_back :
    (c : ℕ) (x y : Session) (m : List (ℕ × Session))
    → lookup c m ≡ some x
    → y.virtual_ip ≡ x.virtual_ip
    → session_ips (insert c y m) ≡ session_ips m
put_back c x y m e v =
    session_ips-insert c y m
    ∙ ap (λ ip. insert c ip (session_ips m)) v
    ∙ insert_same c x.virtual_ip (session_ips m) (lookup-session_ips c m x e)

pub change_session-Same :
    (c : ℕ) (f : Session → Session) (s : Server)
    → ((x : Session) → (f x).virtual_ip ≡ x.virtual_ip)
    → Same s (change_session c f s)
change_session-Same c f s keep = elim (Option-cases (lookup c s.sessions)) [
  | inl e ↦ rw (e, change_session) (Same-refl s)
  | inr (x, e) ↦
      rw (e, change_session)
        (record {
          same_vips = put_back c x (f x) s.sessions e (keep x);
          same_routes = refl;
          same_pool = refl;
          same_server = refl;
          same_subnet = refl;
        })
]

count_tx-Same : (c addr : ℕ) (pkt : Bytes) (s : Server) → Same s (count_tx c addr pkt s)
count_tx-Same c addr pkt s =
    Same-trans (unchanged refl refl refl refl refl) (change_session-Same c _ _ (λ x. refl))

pub write_all-Same :
    (write_ok : ℕ → Bool) (c : ℕ) (pkt : Bytes) (addrs : List ℕ) (s : Server)
    → Same s (write_all write_ok c pkt addrs s)
unfolding write_all
write_all-Same write_ok c pkt [] s = Same-refl s
write_all-Same write_ok c pkt (addr ∷ addrs) s = elim (Bool-cases (write_ok addr)) [
  | inl e ↦ rw e (
      Same-trans (count_tx-Same c addr pkt s)
        (write_all-Same write_ok c pkt addrs (count_tx c addr pkt s)))
  | inr e ↦ rw e (write_all-Same write_ok c pkt addrs s)
]

pub send_to_client-Same :
    (write_ok : ℕ → Bool) (c : ℕ) (pkt : Bytes) (s : Server)
    → Same s (send_to_client write_ok c pkt s)
unfolding send_to_client
send_to_client-Same write_ok c pkt s = elim (Option-cases (lookup c s.sessions)) [
  | inl e ↦ rw (e, send_to_client) (Same-refl s)
  | inr (x, e) ↦ rw (e, send_to_client) (write_all-Same write_ok c pkt (endpoints x.addrs) s)
]

send_packet-Same :
    (write_ok : ℕ → Bool) (to : ℕ) (o : Option Bytes) (s : Server)
    → Same s (send_packet write_ok to o s)
send_packet-Same write_ok to none s = Same-refl s
send_packet-Same write_ok to (some pkt) s = ground arith

pub send_heartbeat_ack-Same :
    (write_ok : ℕ → Bool) (to ip len status : ℕ) (s : Server)
    → Same s (send_heartbeat_ack write_ok to ip len status s)
unfolding send_heartbeat_ack
send_heartbeat_ack-Same write_ok to ip len status s =
    Same-trans (unchanged refl refl refl refl refl)
      (send_packet-Same write_ok to (ack_packet (next_seq s) ip len status) (bump_seq s))

pub route-Same :
    (write_ok : ℕ → Bool) (payload raw : Bytes) (s : Server) → Same s (route write_ok payload raw s)
unfolding route
route-Same write_ok payload raw s = elim (Bool-cases (dst_ip payload == s.server_virtual_ip)) [
  | inl own ↦ rw own (ground arith)
  | inr other ↦ rw other (elim (Option-cases (lookup (dst_ip payload) s.route_table)) [
    | inl e ↦ rw (e, route) (Same-refl s)
    | inr (c, e) ↦ rw (e, route) (send_to_client-Same write_ok c raw s)
  ])
]

from_client-Same :
    (write_ok : ℕ → Bool) (c : ℕ) (payload : Bytes) (from now : ℕ) (raw : Bytes) (s : Server)
    (o : Option Session)
    → lookup c s.sessions ≡ o
    → Same s (from_client write_ok c payload from now raw s o)
from_client-Same write_ok c payload from now raw s none e = Same-refl s
from_client-Same write_ok c payload from now raw s (some x) e =
    elim (Bool-cases (is_ipv4 payload && src_ip payload == x.virtual_ip)) [
      | inl fine ↦ rw fine (
          Same-trans
            (record {
              same_vips = put_back c x (seen_now from now x) s.sessions e refl;
              same_routes = refl;
              same_pool = refl;
              same_server = refl;
              same_subnet = refl;
            })
            (route-Same write_ok payload raw _))
      | inr bad ↦ rw bad (Same-refl s)
    ]

pub handle_data-Same :
    (write_ok : ℕ → Bool) (hdr : Header) (payload : Bytes) (from now : ℕ) (raw : Bytes) (s : Server)
    → Same s (handle_data write_ok hdr payload from now raw s)
unfolding handle_data
handle_data-Same write_ok hdr payload from now raw s =
    elim (Bool-cases (is_duplicate s.dedup hdr.client_id hdr.seq).0) [
      | inl dup ↦ rw dup (unchanged refl refl refl refl refl)
      | inr new ↦ rw new (
          Same-trans (unchanged refl refl refl refl refl)
            (from_client-Same write_ok hdr.client_id payload from now raw _ _ refl))
    ]

pub count_rx-Same : (c from n : ℕ) (s : Server) → Same s (count_rx c from n s)
count_rx-Same c from n s =
    Same-trans (unchanged refl refl refl refl refl) (change_session-Same c _ _ (λ x. refl))

send_header-Same :
    (write_ok : ℕ → Bool) (c : ℕ) (o : Option Bytes) (s : Server)
    → Same s (send_header write_ok c o s)
send_header-Same write_ok c none s = Same-refl s
send_header-Same write_ok c (some pkt) s = send_to_client-Same write_ok c pkt s

pub handle_tun_packet-Same :
    (write_ok : ℕ → Bool) (payload : Bytes) (s : Server)
    → Same s (handle_tun_packet write_ok payload s)
unfolding handle_tun_packet
handle_tun_packet-Same write_ok payload s = elim (Bool-cases (not (is_ipv4 payload))) [
  | inl bad ↦ rw bad (Same-refl s)
  | inr fine ↦ rw fine (elim (Option-cases (lookup (dst_ip payload) s.route_table)) [
    | inl e ↦ rw (e, handle_tun_packet) (Same-refl s)
    | inr (c, e) ↦
        rw (e, handle_tun_packet)
          (Same-trans (unchanged refl refl refl refl refl)
            (send_header-Same write_ok c _ (bump_seq s)))
  ])
]

pub save_ip_pool_fields :
    (s : Server)
    → let t = save_ip_pool s in
      (t.sessions ≡ s.sessions)
      × (t.route_table ≡ s.route_table)
      × (t.ip_pool ≡ s.ip_pool)
      × (t.server_virtual_ip ≡ s.server_virtual_ip)
      × (t.subnet ≡ s.subnet)
unfolding save_ip_pool
save_ip_pool_fields s = ground arith

pub save_ip_pool-Same : (s : Server) → Same s (save_ip_pool s)
save_ip_pool-Same s = let (a, b, c, d, e) = save_ip_pool_fields s in unchanged a b c d e
