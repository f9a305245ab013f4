-- ===== src/Server/Tests.antt =====
-- A server with two clients, 7 and 9, and the theorems about server/ at it.
use mpfpv.Base.{
  not, ◌&&◌, ◌⊎◌, if◌then◌else◌, ℕ, ◌*◌, ◌^◌, ◌≡◌, ◌≢◌, refl, arith, inl, inr, true, false, List,
  [], ◌∷◌, Option, none, some, lookup,
}
use mpfpv.Base.Bytes.{Bytes, codes}
use mpfpv.Base.Int.{pos}
use mpfpv.Config.{ServerConfig, Config}
use mpfpv.Server.State.{Effect, sent}
use mpfpv.Server.Expiry.{ends_now, ended_by, expired, cleanup-pool}
use mpfpv.Server.Timeouts.{unless_silent, cleanup-keeps}
use mpfpv.Server.Heartbeat.{handle_heartbeat}
use mpfpv.Server.Registration.{
  HeardFrom, IsAckOf, handle_heartbeat_accepted, handle_heartbeat_refused,
}
use mpfpv.Protocol.Wire.{
  Heartbeat, decode_heartbeat, ack_status_ok, ack_status_bad_team_key, Header, decode_header,
}
use mpfpv.Dedup.{is_duplicate, check_seq}
use mpfpv.Server.State.{AddrInfo, Session, Server, Subnet, session_ips, load_ip_pool}
use mpfpv.Server.Pool.Alloc.{IsSubnet}
use mpfpv.Server.Invariant.Same.{Inv}
use mpfpv.Server.Data.{handle_data, handle_packet, route}
use mpfpv.Server.Overlap.{deletion_overlapped}
use mpfpv.Server.Cleanup.{
  take_session, forget_client, cleanup, live_sessions, ended_sessions, end_sessions, expire_pool,
  overdue, forget,
}
use mpfpv.Server.Run.{packet, tick, Reach, here, next, addresses_unique}
use mpfpv.Server.Pool.{holds, ips, allocate_ip, first_free}
use mpfpv.Server.Pool.Alloc.{IsHost, allocate_ip_fresh, allocate_ip_finds}
use mpfpv.Server.Start.{Cidr, fresh_server}
use mpfpv.Server.Send.{endpoints, write_all, send_to_client}
use mpfpv.Server.Routing.{delivered, handle_data_delivers, handle_data_refused}

abbrev addr_of : ℕ → AddrInfo
addr_of a = record {
  addr = a;
  last_seen = 100;
  nic_name = [];
  nic_rtt_ms = 0;
  nic_tx_bytes = 0;
  nic_rx_bytes = 0;
  rx_bytes = 0;
  tx_bytes = 0;
}

abbrev session_of : ℕ → ℕ → List (ℕ × AddrInfo) → Session
session_of c ip addrs = record {
  client_id = c;
  virtual_ip = ip;
  prefix_len = 24;
  device_name = [];
  addrs = addrs;
  last_seen = 100;
  rx_bytes = 0;
  tx_bytes = 0;
}

-- 10.99.0.0/24, the server at its first address.
abbrev net : Subnet
net = record { base = 0x0a630000; ones = 24 }

abbrev pub seven : Session
seven = session_of 7 0x0a630002 ((501, addr_of 501) ∷ [])

abbrev pub nine : Session
nine = session_of 9 0x0a630003 ((601, addr_of 601) ∷ (602, addr_of 602) ∷ [])

abbrev config : Config
config = record {
  mode = codes "server";
  team_key = codes "k";
  client = none;
  server = some (record {
    listen_addr = codes "0.0.0.0:9800";
    virtual_ip = codes "10.99.0.1/24";
    subnet = codes "10.99.0.0/24";
    client_timeout = pos 30;
    addr_timeout = pos 15;
    dedup_window = pos 64;
    ip_pool_file = [];
    web_ui = [];
  });
}

abbrev pub two_clients : Server
two_clients = record {
  cfg = config;
  cfg_path = [];
  sessions = (7, seven) ∷ (9, nine) ∷ [];
  route_table = (0x0a630002, 7) ∷ (0x0a630003, 9) ∷ [];
  dedup = record { window_size = 64; clients = [] };
  team_key_hash = 1 ∷ 2 ∷ 3 ∷ 4 ∷ 5 ∷ 6 ∷ 7 ∷ 8 ∷ [];
  has_tun = true;
  server_virtual_ip = 0x0a630001;
  prefix_len = 24;
  ip_pool = (7, 0x0a630002) ∷ (9, 0x0a630003) ∷ [];
  ip_pool_names = [];
  ip_pool_expiry = [];
  subnet = some net;
  ip_pool_file = [];
  seq = 0;
  total_rx = 0;
  total_tx = 0;
  client_timeout = 30 * 10 ^ 9;
  addr_timeout = 15 * 10 ^ 9;
  ip_pool_retention = 300 * 10 ^ 9;
  effects = [];
}

net-IsSubnet : IsSubnet net
net-IsSubnet = omega arith

pub two_clients-Inv : Inv two_clients
two_clients-Inv = record {
  addressing = record {
    distinct = (refl, (refl, tt));
    routed = λ c ip e n. ground arith;
    owned = λ c ip e. ground arith;
    not_server = λ c ip e n. ground arith;
    pool_apart = λ c d ip e f. ground arith;
    pool_usable = λ c ip e. ground arith;
    reserved = λ c d ip e f. ground arith;
  };
  subnet_valid = λ n e. ground arith;
}

-- A packet of 20 bytes from 10.99.0.2 to 10.99.0.3.
abbrev pub inner : Bytes
inner = 0x45 ∷ 0 ∷ 0 ∷ 20 ∷ 0 ∷ 0 ∷ 0 ∷ 0 ∷ 64 ∷ 17 ∷ 0 ∷ 0 ∷ 10 ∷ 99 ∷ 0 ∷ 2 ∷ 10 ∷ 99 ∷ 0 ∷ 3 ∷ []

abbrev data_header : Header
data_header = record { type = 0; client_id = 7; seq = 40 }

handle_data_delivers_example :
    (handle_data (λ a. true) data_header inner 501 200 inner two_clients).effects
    ≡ delivered (λ a. true) inner (endpoints nine.addrs) []
unfolding is_duplicate check_seq
handle_data_delivers_example =
    handle_data_delivers (λ a. true) data_header inner 501 200 inner two_clients seven nine 9
      two_clients-Inv refl refl refl refl refl refl (omega arith)

handle_data_refused_example :
    let t = handle_data (λ a. true) data_header (0x60 ∷ []) 501 200 (0x60 ∷ []) two_clients in
    (t.effects ≡ []) × (t.sessions ≡ two_clients.sessions)
handle_data_refused_example =
    handle_data_refused (λ a. true) data_header (0x60 ∷ []) 501 200 (0x60 ∷ []) two_clients
      (inr (inr (inl refl)))

-- Client 8 asks for an address: the first free one is 10.99.0.4.
allocate_ip_fresh_example :
    IsHost net 0x0a630004
    × (0x0a630004 ≢ two_clients.server_virtual_ip)
    × (holds 0x0a630004 (ips two_clients.ip_pool) ≡ false)
    × (holds 0x0a630004 (ips (session_ips two_clients.sessions)) ≡ false)
    × (two_clients.prefix_len ≡ two_clients.prefix_len)
    × (lookup 8 (allocate_ip two_clients 8 [] (ips (session_ips two_clients.sessions))).1.ip_pool
        ≡ some 0x0a630004)
unfolding allocate_ip first_free
allocate_ip_fresh_example =
    allocate_ip_fresh two_clients 8 [] (ips (session_ips two_clients.sessions)) net 0x0a630004 24
      refl net-IsSubnet refl refl

allocate_ip_finds_example :
    (ip : ℕ) × ((allocate_ip two_clients 8 [] (ips (session_ips two_clients.sessions))).0
      ≡ some (ip, 24))
allocate_ip_finds_example =
    allocate_ip_finds two_clients 8 [] (ips (session_ips two_clients.sessions)) net 0x0a630009 refl
      net-IsSubnet refl (omega arith, omega arith) (λ e. omega arith) refl refl

-- The packet of `inner` that client 7 sends.
abbrev datagram : Bytes
datagram = 0x10 ∷ 0 ∷ 0 ∷ 7 ∷ 0 ∷ 0 ∷ 0 ∷ 40 ∷ inner

abbrev later : Server
later = cleanup 210 (handle_packet (λ a. true) datagram 501 200 two_clients)

later-Reach : Reach two_clients later
later-Reach = next (next here (packet (λ a. true) datagram 501 200 refl)) (tick 210 refl)

-- Client 9 by then, with the datagram sent to both of its endpoints.
abbrev later_nine : Session
later_nine = record nine { tx_bytes = 56 }

later-nine : lookup 9 later.sessions ≡ some later_nine
unfolding handle_packet decode_header handle_data is_duplicate check_seq route send_to_client
    write_all cleanup live_sessions ended_sessions end_sessions expire_pool overdue forget
later-nine = refl

addresses_unique_example :
    (later_nine.client_id ≡ 9)
    × (lookup later_nine.virtual_ip later.route_table ≡ some 9)
    × (later_nine.virtual_ip ≢ later.server_virtual_ip)
addresses_unique_example =
    addresses_unique two_clients-Inv later-Reach 9 9 later_nine later_nine later-nine later-nine
      refl (λ e. omega arith)

abbrev stored : List (ℕ × Option ℕ × Bytes)
stored = (7, some 0x0a630002, codes "pi") ∷ (9, none, []) ∷ []

abbrev starting : ServerConfig
starting = record {
  listen_addr = codes "0.0.0.0:9800";
  virtual_ip = codes "10.99.0.1/24";
  subnet = codes "10.99.0.0/24";
  client_timeout = pos 30;
  addr_timeout = pos 15;
  dedup_window = pos 64;
  ip_pool_file = codes "p";
  web_ui = [];
}

abbrev start_config : Config
start_config = record config { server = some starting }

abbrev one_net : Bytes → Option Cidr
one_net text = some (record { ip4 = some 0x0a630001; network = net })

abbrev hash : Bytes → Bytes
hash text = text

abbrev started : Server
started =
    load_ip_pool (some stored) (fresh_server hash start_config starting (0x0a630001, 24) (some net))

-- A heartbeat of client 8 with the server's key, and one with another.
abbrev joining : ℕ → Bytes
joining key = 0 ∷ 0 ∷ 0 ∷ 0 ∷ 24 ∷ 0 ∷ 0 ∷ 0 ∷ key ∷ 2 ∷ 3 ∷ 4 ∷ 5 ∷ 6 ∷ 7 ∷ 8 ∷ codes "pi"

abbrev joining_fields : ℕ → Heartbeat
joining_fields key = record {
  virtual_ip = 0 ∷ 0 ∷ 0 ∷ 0 ∷ [];
  prefix_len = 24;
  reply_port = 0;
  team_key_hash = key ∷ 2 ∷ 3 ∷ 4 ∷ 5 ∷ 6 ∷ 7 ∷ 8 ∷ [];
  device_name = codes "pi";
  path_rtts = [];
}

abbrev joining_header : Header
joining_header = record { type = 1; client_id = 8; seq = 0 }

handle_heartbeat_accepted_example :
    let t = handle_heartbeat (λ a. true) joining_header (joining 1) 701 300 two_clients in
    (sess : Session) × (lookup 8 t.sessions ≡ some sess)
    × HeardFrom 701 300 sess
    × ((b : Bytes) × (es : List Effect) × (t.effects ≡ sent 701 b ∷ es)
        × IsAckOf sess.virtual_ip sess.prefix_len ack_status_ok b)
unfolding decode_heartbeat
handle_heartbeat_accepted_example =
    handle_heartbeat_accepted (λ a. true) joining_header (joining 1) 701 300 (joining_fields 1)
      two_clients refl refl refl (λ e. omega arith)

handle_heartbeat_refused_example :
    let t = handle_heartbeat (λ a. true) joining_header (joining 9) 701 300 two_clients in
    (t.sessions ≡ two_clients.sessions)
    × (t.route_table ≡ two_clients.route_table)
    × (t.ip_pool ≡ two_clients.ip_pool)
    × ((b : Bytes) × (t.effects ≡ sent 701 b ∷ []) × IsAckOf 0 0 ack_status_bad_team_key b)
unfolding decode_heartbeat
handle_heartbeat_refused_example =
    handle_heartbeat_refused (λ a. true) joining_header (joining 9) 701 300 (joining_fields 9)
      two_clients refl refl refl

-- Client 7 is deleted, and is heard from before the deletion is done.
deletion_overlapped_example :
    let t =
      handle_heartbeat
        (λ a. true)
        (record joining_header { client_id = 7 })
        (joining 1)
        501
        300
        (take_session 7 two_clients) in
    let u = forget_client 7 seven.virtual_ip t in
    (sess : Session) × (lookup 7 u.sessions ≡ some sess)
    × (sess.virtual_ip ≡ seven.virtual_ip)
    × (lookup sess.virtual_ip u.route_table ≡ none)
    × (lookup 7 u.ip_pool ≡ none)
unfolding decode_heartbeat
deletion_overlapped_example =
    deletion_overlapped (λ a. true) (record joining_header { client_id = 7 }) (joining 1) 501 300
      (joining_fields 1) two_clients seven refl refl refl refl (λ e. omega arith) (inl refl)

cleanup-keeps_example :
    (y : Session) × (lookup 7 (cleanup (10 ^ 10) two_clients).sessions ≡ some y)
    × ((k : ℕ)
        → lookup k y.addrs
          ≡ unless_silent (10 ^ 10) two_clients.addr_timeout (lookup k seven.addrs))
    × (record y { addrs = seven.addrs } ≡ seven)
cleanup-keeps_example = cleanup-keeps (10 ^ 10) 7 two_clients seven refl (omega arith) (refl, tt)

-- Client 8 is gone since the fifth nanosecond, and its address is kept for 300 seconds.
abbrev left_once : Server
left_once = record two_clients {
  ip_pool = (8, 0x0a630004) ∷ two_clients.ip_pool;
  ip_pool_expiry = (8, 5) ∷ [];
}

cleanup-pool_example :
    let t = cleanup (100 * 10 ^ 9) left_once in
    let lost =
      not (ends_now 8 (ended_by (100 * 10 ^ 9) left_once))
      && expired (100 * 10 ^ 9) left_once.ip_pool_retention (lookup 8 left_once.ip_pool_expiry) in
    (lookup 8 t.ip_pool ≡ (if lost then none else some 0x0a630004))
    × ((lost ≡ true) ⊎ ((allocate_ip t 8 [] []).0 ≡ some (0x0a630004, t.prefix_len)))
cleanup-pool_example = cleanup-pool (100 * 10 ^ 9) 8 0x0a630004 [] [] left_once (refl, tt) refl
