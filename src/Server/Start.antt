-- ===== src/Server/Start.antt =====
-- server/server.go, New: a server from its configuration and the pool file. SHA-256 and net.ParseCIDR
-- are parameters.
pub mod Pool
use mpfpv.Base.{ℕ, ◌*◌, ◌%◌, ◌^◌, false, if◌then◌else◌, List, [], ◌∷◌, Option, none, some}
use mpfpv.Base.Int.{pos_part}
use mpfpv.Base.Bytes.{Bytes, u8, is_empty}
use mpfpv.Base.Results.{Result, ok, err, ◌>>=◌}
use mpfpv.Config.{ServerConfig, Config}
use mpfpv.Protocol.Wire.{team_key_hash}
use mpfpv.Dedup.{new_deduplicator}
use mpfpv.Server.State.{Subnet, Server, load_ip_pool}

pub data ServerError : Type 0 where
  no_config : ServerError
  bad_virtual_ip : ServerError
  not_ipv4 : ServerError
  bad_subnet : ServerError

-- What `net.ParseCIDR` returns: the address, `none` if `To4` of it is nil, and the network, which for
-- `subnet` is taken to be an IPv4 one.
pub record Cidr : Type 0 where
  pub ip4 : Option ℕ
  pub network : Subnet

abbrev pub parse_subnet : (Bytes → Option Cidr) → Bytes → Result ServerError (Option Subnet)
parse_subnet parse_cidr text =
    if is_empty text
    then ok none
    else elim (parse_cidr text) [ none ↦ err bad_subnet | some c ↦ ok (some c.network) ]

abbrev pub own_ip : Option Cidr → Result ServerError (ℕ × ℕ)
own_ip none = err bad_virtual_ip
own_ip (some c) = elim c.ip4 [ none ↦ err not_ipv4 | some ip ↦ ok (ip, u8 c.network.ones) ]

-- `time.Duration(n) * time.Second`, for a timeout that is not negative, as LoadFile leaves it, and less
-- than the 2^63 nanoseconds at which the product wraps.
abbrev pub second : ℕ
second = 10 ^ 9

abbrev pub fresh_server : (Bytes → Bytes) → Config → ServerConfig → ℕ × ℕ → Option Subnet → Server
fresh_server sha256 cfg sc (ip, prefix_len) subnet = record {
  cfg = cfg;
  cfg_path = [];
  sessions = [];
  route_table = [];
  dedup = new_deduplicator sc.dedup_window;
  team_key_hash = team_key_hash sha256 cfg.team_key;
  has_tun = false;
  server_virtual_ip = ip;
  prefix_len = prefix_len;
  ip_pool = [];
  ip_pool_names = [];
  ip_pool_expiry = [];
  subnet = subnet;
  ip_pool_file = sc.ip_pool_file;
  seq = 0;
  total_rx = 0;
  total_tx = 0;
  client_timeout = pos_part sc.client_timeout * second;
  addr_timeout = pos_part sc.addr_timeout * second;
  ip_pool_retention = 5 * 60 * second;
  effects = [];
}

abbrev pub with_config :
    (Bytes → Bytes)
    → (Bytes → Option Cidr)
    → Option (List (ℕ × Option ℕ × Bytes))
    → Config
    → Option ServerConfig
    → Result ServerError Server
with_config sha256 parse_cidr file cfg none = err no_config
with_config sha256 parse_cidr file cfg (some sc) = do
  own ← own_ip (parse_cidr sc.virtual_ip)
  subnet ← parse_subnet parse_cidr sc.subnet
  ok (load_ip_pool file (fresh_server sha256 cfg sc own subnet))

-- `file` is what the pool file holds, `none` if it is missing, unreadable or not JSON.
unfoldable pub new_server :
    (Bytes → Bytes)
    → (Bytes → Option Cidr)
    → Option (List (ℕ × Option ℕ × Bytes))
    → Config
    → Result ServerError Server
new_server sha256 parse_cidr file cfg = with_config sha256 parse_cidr file cfg cfg.server
