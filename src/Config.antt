-- ===== src/Config.antt =====
-- config/config.go: the configuration, its defaults and its validation, and the connection strings.
-- Reading files, YAML, url.Parse and net.SplitHostPort are parameters.
pub mod Loading
pub mod Strings
mod Tests
use mpfpv.Base.{
  ℕ, zero, suc, ◌+◌, Bool, true, false, ◌==◌, ◌&&◌, not, if◌then◌else◌, List, [], ◌∷◌, Option, none,
  some, take, drop,
}
use mpfpv.Base.Int.{ℤ, pos, negsuc}
use mpfpv.Base.Bytes.{Bytes, codes, bytes_eq, is_empty, has_prefix}
use mpfpv.Base.Results.{Result, ok, err, ◌>>=◌, ◌>>◌}

pub record ClientConfig : Type 0 where
  pub server_addr : Bytes
  pub bind_interface : Bytes
  pub dedup_window : ℤ
  pub web_ui : Bytes

pub record ServerConfig : Type 0 where
  pub listen_addr : Bytes
  pub virtual_ip : Bytes
  pub subnet : Bytes
  pub client_timeout : ℤ
  pub addr_timeout : ℤ
  pub dedup_window : ℤ
  pub ip_pool_file : Bytes
  pub web_ui : Bytes

-- `none` is a nil section.
pub record Config : Type 0 where
  pub mode : Bytes
  pub team_key : Bytes
  pub client : Option ClientConfig
  pub server : Option ServerConfig

pub data ConfigError : Type 0 where
  unreadable : ConfigError
  not_yaml : ConfigError
  bad_mode : ConfigError
  no_client : ConfigError
  no_server_addr : ConfigError
  no_server : ConfigError
  no_listen_addr : ConfigError
  no_virtual_ip : ConfigError
  no_subnet : ConfigError
  bad_conn_string : ConfigError
  no_host : ConfigError
  bad_server_addr : ConfigError

-- `if n <= 0 { n = d }`
abbrev pub or_default : ℤ → ℕ → ℤ
or_default (pos n) d = if n == 0 then pos d else pos n
or_default (negsuc n) d = pos d

abbrev pub default_pool_file : Bytes
default_pool_file = codes "ip_pool.json"

abbrev pub client_defaults : Option ClientConfig → Option ClientConfig
client_defaults none = none
client_defaults (some c) = some (record c { dedup_window = or_default c.dedup_window 4096 })

abbrev pub filled_server : ServerConfig → ServerConfig
filled_server s = record s {
  client_timeout = or_default s.client_timeout 30;
  addr_timeout = or_default s.addr_timeout 15;
  dedup_window = or_default s.dedup_window 4096;
  ip_pool_file = if is_empty s.ip_pool_file then default_pool_file else s.ip_pool_file;
}

abbrev pub server_defaults : Option ServerConfig → Option ServerConfig
server_defaults none = none
server_defaults (some s) = some (filled_server s)

unfoldable pub apply_defaults : Config → Config
apply_defaults cfg = record cfg {
  client = client_defaults cfg.client;
  server = server_defaults cfg.server;
}

abbrev pub mode_client : Bytes
mode_client = codes "client"

abbrev pub mode_server : Bytes
mode_server = codes "server"

-- `if s == "" { return e }`
abbrev pub required : Bytes → ConfigError → Result ConfigError (Unit {0})
required s e = if is_empty s then err e else ok tt

abbrev pub validate_client : Option ClientConfig → Result ConfigError (Unit {0})
validate_client none = err no_client
validate_client (some c) = required c.server_addr no_server_addr

abbrev pub validate_server : Option ServerConfig → Result ConfigError (Unit {0})
validate_server none = err no_server
validate_server (some s) = do
  required s.listen_addr no_listen_addr
  required s.virtual_ip no_virtual_ip
  required s.subnet no_subnet

unfoldable pub validate : Config → Result ConfigError (Unit {0})
validate cfg =
    if not (bytes_eq cfg.mode mode_client) && not (bytes_eq cfg.mode mode_server)
    then err bad_mode
    else if bytes_eq cfg.mode mode_client
    then validate_client cfg.client
    else validate_server cfg.server

-- `data` is what the file holds, `none` if it cannot be read; `unmarshal` is `yaml.Unmarshal`.
unfoldable pub load_file : (Bytes → Option Config) → Option Bytes → Result ConfigError Config
unfolding apply_defaults validate
load_file unmarshal none = err unreadable
load_file unmarshal (some text) = elim (unmarshal text) [
  | none ↦ err not_yaml
  | some cfg ↦ validate (apply_defaults cfg) >> ok (apply_defaults cfg)
]

-- What the source reads of a `*url.URL`: the user's name, empty without a user, and the host.
pub record Url : Type 0 where
  pub username : Bytes
  pub host : Bytes

-- The index of the last `b` of a text.
abbrev pub last_index : ℕ → Bytes → Option ℕ
last_index b [] = none
last_index b (x ∷ xs) = elim (last_index b xs) [
  | some i ↦ some (suc i)
  | none ↦ if x == b then some 0 else none
]

abbrev pub scheme : Bytes
scheme = codes "mpfpv://"

-- The address and the key behind its last slash; a slash in front of everything does not count.
abbrev pub split_key : Bytes → Bytes × Bytes
split_key s = elim (last_index b'/' s) [
  | none ↦ ([], s)
  | some zero ↦ ([], s)
  | some (suc i) ↦ (drop (suc i + 1) s, take (suc i) s)
]

abbrev pub from_url : Option Url → Result ConfigError (Bytes × Bytes)
from_url none = err bad_conn_string
from_url (some u) = if is_empty u.host then err no_host else ok (u.username, u.host)

abbrev pub checked_addr :
    (Bytes → Option (Bytes × Bytes)) → Bytes × Bytes → Result ConfigError (Bytes × Bytes)
checked_addr split_host_port (key, addr) = elim (split_host_port addr) [
  | none ↦ err bad_server_addr
  | some _ ↦ ok (key, addr)
]

-- The team key and the server's address.
unfoldable pub parse_conn_string :
    (Bytes → Option Url)
    → (Bytes → Option (Bytes × Bytes))
    → Bytes
    → Result ConfigError (Bytes × Bytes)
parse_conn_string url_parse split_host_port s =
    if has_prefix s scheme
    then from_url (url_parse s)
    else checked_addr split_host_port (split_key s)

abbrev pub conn_config : Bytes × Bytes → Config
conn_config (key, addr) = record {
  mode = mode_client;
  team_key = key;
  client =
      some
        (record { server_addr = addr; bind_interface = []; dedup_window = pos 4096; web_ui = [] });
  server = none;
}

unfoldable pub from_conn_string :
    (Bytes → Option Url) → (Bytes → Option (Bytes × Bytes)) → Bytes → Result ConfigError Config
unfolding parse_conn_string
from_conn_string url_parse split_host_port s =
    parse_conn_string url_parse split_host_port s >>= λ p. ok (conn_config p)
