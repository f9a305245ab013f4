-- ===== src/Server/Heartbeat.antt =====
-- server/server.go, handleHeartbeat: sessions, their addresses, and the address each is given.
use mpfpv.Base.{
  ℕ, Bool, false, ◌==◌, ◌&&◌, ◌||◌, not, if◌then◌else◌, List, [], ◌∷◌, Option, none, some, lookup,
  insert, delete,
}
use mpfpv.Base.Bytes.{Bytes, get_u32, is_empty, bytes_eq}
use mpfpv.Base.Results.{ok, err}
use mpfpv.Protocol.Wire.{
  Header, Heartbeat, PathRtt, decode_heartbeat, ack_status_ok, ack_status_bad_team_key,
}
use mpfpv.Server.State.{AddrInfo, Session, Server, session_ips, save_ip_pool}
use mpfpv.Server.Pool.{ips, allocate_ip}
use mpfpv.Server.Send.{send_heartbeat_ack}

-- Whether a client other than `client_id` has the address `ip` in the map.
abbrev pub held_by_other : ℕ → ℕ → List (ℕ × ℕ) → Bool
held_by_other client_id ip [] = false
held_by_other client_id ip ((c, x) ∷ m) =
    (not (c == client_id) && x == ip) || held_by_other client_id ip m

unfoldable pub conflicts : Server → ℕ → ℕ → Bool
conflicts s client_id ip =
    ip == s.server_virtual_ip
    || (held_by_other client_id ip (session_ips s.sessions) || held_by_other client_id ip s.ip_pool)

-- The address that a new client asks for, or 0 where it asks for none or may not have it.
unfoldable pub requested_ip : Server → ℕ → ℕ → ℕ
unfolding conflicts
requested_ip s client_id vip = if vip == 0 then 0 else if conflicts s client_id vip then 0 else vip

-- A new client's address and prefix length: the requested address, or one of the pool. Where the pool
-- has none the address stays 0 and the prefix length the requested one.
abbrev pub from_pool : ℕ → Option (ℕ × ℕ) × Server → (ℕ × ℕ) × Server
from_pool prefix_len (none, s) = ((0, prefix_len), s)
from_pool prefix_len (some (ip, len), s) = ((ip, len), s)

unfoldable pub assign_ip : Server → ℕ → ℕ → ℕ → Bytes → (ℕ × ℕ) × Server
unfolding requested_ip allocate_ip
assign_ip s client_id vip prefix_len device_name =
    let ip = requested_ip s client_id vip in
    if ip == 0
    then from_pool prefix_len (allocate_ip s client_id device_name (ips (session_ips s.sessions)))
    else ((ip, prefix_len), s)

-- Persists an address that is not in the pool yet.
abbrev pub keep_in_pool : ℕ → ℕ → Bytes → Server → Server
keep_in_pool client_id ip name s = elim (lookup client_id s.ip_pool) [
  | some _ ↦ s
  | none ↦ save_ip_pool (record s {
    ip_pool = insert client_id ip s.ip_pool;
    ip_pool_names =
        if is_empty name then s.ip_pool_names else insert client_id name s.ip_pool_names;
  })
]

-- Route, expiry and pool of a new session's address.
unfoldable pub publish : ℕ → ℕ → Bytes → Server → Server
unfolding save_ip_pool
publish client_id ip name s =
    if ip == 0
    then s
    else keep_in_pool client_id ip name (record s {
      route_table = insert ip client_id s.route_table;
      ip_pool_expiry = delete client_id s.ip_pool_expiry;
    })

abbrev pub new_session : ℕ → ℕ → ℕ → Bytes → ℕ → Session
new_session client_id ip prefix_len name now = record {
  client_id = client_id;
  virtual_ip = ip;
  prefix_len = prefix_len;
  device_name = name;
  addrs = [];
  last_seen = now;
  rx_bytes = 0;
  tx_bytes = 0;
}

unfoldable pub register : ℕ → ℕ → Heartbeat → Server → Session × Server
unfolding assign_ip publish
register client_id now hb s =
    let ((ip, len), t) =
      assign_ip s client_id (get_u32 hb.virtual_ip) hb.prefix_len hb.device_name in
    let sess = new_session client_id ip len hb.device_name now in
    (
      sess,
      publish client_id ip hb.device_name
          (record t { sessions = insert client_id sess t.sessions }),
    )

abbrev pub refresh : ℕ → Heartbeat → Session → Session
refresh now hb sess = record sess {
  last_seen = now;
  device_name = if is_empty hb.device_name then sess.device_name else hb.device_name;
}

abbrev pub new_addr : ℕ → AddrInfo
new_addr from = record {
  addr = from;
  last_seen = 0;
  nic_name = [];
  nic_rtt_ms = 0;
  nic_tx_bytes = 0;
  nic_rx_bytes = 0;
  rx_bytes = 0;
  tx_bytes = 0;
}

abbrev pub addr_or_new : ℕ → Option AddrInfo → AddrInfo
addr_or_new from none = new_addr from
addr_or_new from (some ai) = ai

-- Removes the other endpoints of the same NIC.
unfoldable pub drop_stale : ℕ → Bytes → List (ℕ × AddrInfo) → List (ℕ × AddrInfo)
drop_stale from name [] = []
drop_stale from name ((k, ai) ∷ m) =
    let rest = drop_stale from name m in
    if not (k == from) && bytes_eq ai.nic_name name then rest else (k, ai) ∷ rest

abbrev pub with_path : ℕ → PathRtt → AddrInfo → List (ℕ × AddrInfo) → List (ℕ × AddrInfo)
with_path from p ai addrs =
    insert from
      (record ai {
        nic_name = p.name;
        nic_rtt_ms = p.rtt_ms;
        nic_tx_bytes = p.tx_bytes;
        nic_rx_bytes = p.rx_bytes;
      })
      (if is_empty p.name then addrs else drop_stale from p.name addrs)

-- The session's addresses after a heartbeat from `from`.
unfoldable pub touch_addr : ℕ → ℕ → List PathRtt → List (ℕ × AddrInfo) → List (ℕ × AddrInfo)
unfolding drop_stale
touch_addr from now [] addrs =
    insert from (record (addr_or_new from (lookup from addrs)) { last_seen = now }) addrs
touch_addr from now (p ∷ _) addrs =
    with_path from p (record (addr_or_new from (lookup from addrs)) { last_seen = now }) addrs

abbrev pub known_or_new : ℕ → ℕ → Heartbeat → Server → Option Session → Session × Server
known_or_new client_id now hb s none = register client_id now hb s
known_or_new client_id now hb s (some sess) = (refresh now hb sess, s)

-- A heartbeat with the right key from a client with an id.
unfoldable pub accept_heartbeat : (ℕ → Bool) → ℕ → ℕ → ℕ → Heartbeat → Server → Server
unfolding register touch_addr send_heartbeat_ack
accept_heartbeat write_ok client_id from now hb s =
    let (sess, t) = known_or_new client_id now hb s (lookup client_id s.sessions) in
    let touched = record sess { addrs = touch_addr from now hb.path_rtts sess.addrs } in
    send_heartbeat_ack write_ok from sess.virtual_ip sess.prefix_len ack_status_ok
      (record t { sessions = insert client_id touched t.sessions })

unfoldable pub handle_heartbeat : (ℕ → Bool) → Header → Bytes → ℕ → ℕ → Server → Server
unfolding accept_heartbeat send_heartbeat_ack
handle_heartbeat write_ok hdr payload from now s = elim (decode_heartbeat payload) [
  | err _ ↦ s
  | ok hb ↦
      if not (bytes_eq hb.team_key_hash s.team_key_hash)
      then send_heartbeat_ack write_ok from 0 0 ack_status_bad_team_key s
      else if hdr.client_id == 0
      then s
      else accept_heartbeat write_ok hdr.client_id from now hb s
]
