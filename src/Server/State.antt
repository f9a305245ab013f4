-- ===== src/Server/State.antt =====
-- server/server.go: the server's data. An IPv4 address, and the `[4]byte` key made of one, is the
-- number that its four bytes spell, big-endian; every `net.IP` of the server is one. A UDP endpoint is
-- a number too: `addr.String()` is one-to-one, so the endpoint serves as its own key. Times are
-- nanoseconds. The locks make each handler one step.
use mpfpv.Base.{ℕ, Bool, if◌then◌else◌, List, [], ◌∷◌, Option, none, some, lookup, insert}
use mpfpv.Base.Bytes.{Bytes, is_empty}
use mpfpv.Config.{Config}
use mpfpv.Dedup.{Deduplicator}

pub record AddrInfo : Type 0 where
  pub addr : ℕ
  pub last_seen : ℕ
  pub nic_name : Bytes
  pub nic_rtt_ms : ℕ
  pub nic_tx_bytes : ℕ
  pub nic_rx_bytes : ℕ
  pub rx_bytes : ℕ
  pub tx_bytes : ℕ

pub record Session : Type 0 where
  pub client_id : ℕ
  pub virtual_ip : ℕ
  pub prefix_len : ℕ
  pub device_name : Bytes
  pub addrs : List (ℕ × AddrInfo)
  pub last_seen : ℕ
  pub rx_bytes : ℕ
  pub tx_bytes : ℕ

-- An entry of the pool file; the address stands for its text.
pub record IpPoolEntry : Type 0 where
  pub client_id : ℕ
  pub ip : ℕ
  pub name : Bytes

-- An IPv4 `net.IPNet`: its first address and the ones of its mask.
pub record Subnet : Type 0 where
  pub base : ℕ
  pub ones : ℕ

-- What leaves the process.
pub data Effect : Type 0 where
  sent : ℕ → Bytes → Effect
  tun_write : Bytes → Effect
  pool_file : List IpPoolEntry → Effect
  config_file : Config → Effect

-- `effects` lists what left the process, the newest first; `has_tun` is `tunDev != nil`.
pub record Server : Type 0 where
  pub cfg : Config
  pub cfg_path : Bytes
  pub sessions : List (ℕ × Session)
  pub route_table : List (ℕ × ℕ)
  pub dedup : Deduplicator
  pub team_key_hash : Bytes
  pub has_tun : Bool
  pub server_virtual_ip : ℕ
  pub prefix_len : ℕ
  pub ip_pool : List (ℕ × ℕ)
  pub ip_pool_names : List (ℕ × Bytes)
  pub ip_pool_expiry : List (ℕ × ℕ)
  pub subnet : Option Subnet
  pub ip_pool_file : Bytes
  pub seq : ℕ
  pub total_rx : ℕ
  pub total_tx : ℕ
  pub client_timeout : ℕ
  pub addr_timeout : ℕ
  pub ip_pool_retention : ℕ
  pub effects : List Effect

abbrev pub emit : Effect → Server → Server
emit e s = record s { effects = e ∷ s.effects }

-- The virtual IP of each session.
abbrev pub session_ips : List (ℕ × Session) → List (ℕ × ℕ)
session_ips [] = []
session_ips ((c, sess) ∷ m) = (c, sess.virtual_ip) ∷ session_ips m

abbrev pub name_or_empty : Option Bytes → Bytes
name_or_empty none = []
name_or_empty (some n) = n

abbrev pub pool_entries : List (ℕ × Bytes) → List (ℕ × ℕ) → List IpPoolEntry
pool_entries names [] = []
pool_entries names ((c, ip) ∷ pool) =
    record { client_id = c; ip = ip; name = name_or_empty (lookup c names) }
    ∷ pool_entries names pool

unfoldable pub save_ip_pool : Server → Server
save_ip_pool s =
    if is_empty s.ip_pool_file
    then s
    else emit (pool_file (pool_entries s.ip_pool_names s.ip_pool)) s

abbrev pub load_entries : List (ℕ × Option ℕ × Bytes) → Server → Server
load_entries [] s = s
load_entries ((c, none, name) ∷ es) s = load_entries es s
load_entries ((c, some ip, name) ∷ es) s = load_entries es (record s {
  ip_pool = insert c ip s.ip_pool;
  ip_pool_names = if is_empty name then s.ip_pool_names else insert c name s.ip_pool_names;
})

-- `none` is a pool file that is missing, unreadable or not JSON; an entry's IP is `none` where
-- `net.ParseIP(e.IP).To4()` is nil.
unfoldable pub load_ip_pool : Option (List (ℕ × Option ℕ × Bytes)) → Server → Server
load_ip_pool none s = s
load_ip_pool (some entries) s = if is_empty s.ip_pool_file then s else load_entries entries s
