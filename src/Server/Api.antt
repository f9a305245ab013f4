-- ===== src/Server/Api.antt =====
-- server/web.go, registerRoutes: a request of the web interface, its endpoint, and what each handler
-- answers and does to the server. Decoding JSON, net.SplitHostPort, SHA-256 and whether the
-- configuration file can be written are parameters, as are the answers of the file servers.
pub mod Requests
pub mod Clients
pub mod Routes
pub mod ConnString
pub mod Tests
use mpfpv.Base.{
  ℕ, Bool, true, false, leb, if◌then◌else◌, List, [], ◌∷◌, ◌++◌, Option, none, some, length,
}
use mpfpv.Base.Sorting.{sort_by}
use mpfpv.Base.Bytes.{Bytes, codes, bytes_eq, is_empty, has_prefix}
use mpfpv.Base.Text.{decimal, parse_digits, parse_uint16, trim_prefix, trim_slash}
use mpfpv.Base.Results.{Result, ok, err}
use mpfpv.Config.{ServerConfig}
use mpfpv.Server.State.{Server}
use mpfpv.Server.Cleanup.{delete_client}
use mpfpv.Server.Web.{
  ClientInfo, ClientDetail, Stats, get_client, get_clients, get_stats, update_server_config,
}

-- `routeResp`.
pub record RouteInfo : Type 0 where
  pub virtual_ip : ℕ
  pub client_id : ℕ

-- The list before it is sorted, in the order of the map.
abbrev pub route_infos : List (ℕ × ℕ) → List RouteInfo
route_infos [] = []
route_infos ((ip, c) ∷ m) = record { virtual_ip = ip; client_id = c } ∷ route_infos m

abbrev pub route_id : RouteInfo → ℕ
route_id r = r.client_id

unfoldable pub get_routes : Server → List RouteInfo
unfolding sort_by
get_routes s = sort_by route_id (route_infos s.route_table)

-- `serverConfigResp`, which is also the body of the request that changes the configuration.
pub record ConfigInfo : Type 0 where
  pub team_key : Bytes
  pub listen_addr : Bytes

-- A server that New made has a server section.
abbrev pub listen_addr_of : Option ServerConfig → Bytes
listen_addr_of none = []
listen_addr_of (some sc) = sc.listen_addr

unfoldable pub get_server_config : Server → ConfigInfo
get_server_config s = record {
  team_key = s.cfg.team_key;
  listen_addr = listen_addr_of s.cfg.server;
}

pub data Method : Type 0 where
  get_method : Method
  post_method : Method
  delete_method : Method
  other_method : Method

-- A request whose path is clean, as ServeMux sees to.
pub record Request : Type 0 where
  pub method : Method
  pub path : Bytes
  pub host : Bytes
  pub body : Bytes

-- What is written to the client: a JSON value or an error's text, or a file.
pub data Body : Type 0 where
  clients : List ClientInfo → Body
  detail : ClientDetail → Body
  routes : List RouteInfo → Body
  stats : Stats → Body
  config : ConfigInfo → Body
  conn_string : Bytes → Body
  status : Bytes → Body
  message : Bytes → Body
  file : Bytes → Body

pub record Response : Type 0 where
  pub code : ℕ
  pub body : Body

-- `writeJSON` and `http.Error`.
abbrev pub json : Body → Response
json b = record { code = 200; body = b }

abbrev pub error : ℕ → Bytes → Response
error code text = record { code = code; body = message text }

abbrev pub method_not_allowed : Response
method_not_allowed = error 405 (codes "method not allowed")

-- A handler that answers GET only.
abbrev pub get_only : Method → Body → Response
get_only get_method b = json b
get_only post_method b = method_not_allowed
get_only delete_method b = method_not_allowed
get_only other_method b = method_not_allowed

abbrev pub clients_path : Bytes
clients_path = codes "/api/clients/"

abbrev pub devices_path : Bytes
devices_path = codes "/api/devices/"

-- The patterns of registerRoutes, with the path where the handler reads it.
pub data Endpoint : Type 0 where
  clients_endpoint : Endpoint
  client_endpoint : Endpoint
  routes_endpoint : Endpoint
  stats_endpoint : Endpoint
  conn_string_endpoint : Endpoint
  devices_endpoint : Endpoint
  device_endpoint : Endpoint
  config_endpoint : Endpoint
  file_endpoint : Endpoint

unfoldable pub endpoint_of : Bytes → Endpoint
endpoint_of path =
    if bytes_eq path (codes "/api/clients")
    then clients_endpoint
    else if has_prefix path clients_path
    then client_endpoint
    else if bytes_eq path (codes "/api/routes")
    then routes_endpoint
    else if bytes_eq path (codes "/api/stats")
    then stats_endpoint
    else if bytes_eq path (codes "/api/connection-string")
    then conn_string_endpoint
    else if bytes_eq path (codes "/api/devices")
    then devices_endpoint
    else if has_prefix path devices_path
    then device_endpoint
    else if bytes_eq path (codes "/api/server-config")
    then config_endpoint
    else file_endpoint

-- The id that a path names behind a prefix.
unfoldable pub path_id : Bytes → Bytes → Option ℕ
unfolding trim_slash parse_digits
path_id prefix path = parse_uint16 (trim_slash (trim_prefix path prefix))

abbrev pub shown : Bytes → Option ClientDetail → Response
shown missing none = error 404 missing
shown missing (some d) = json (detail d)

abbrev pub deleted : ℕ → Server → Option Server → Server × Response
deleted id s none = (s, error 404 (codes "client " ++ (decimal 4 id ++ codes " not found")))
deleted id s (some t) = (t, json (status (codes "deleted")))

-- The handler of /api/clients/.
unfoldable pub client_request : ℕ → Method → Option ℕ → Server → Server × Response
client_request now m none s = (s, error 400 (codes "invalid client ID"))
client_request now get_method (some id) s =
    (s, shown (codes "client not found") (get_client now id s))
client_request now delete_method (some id) s = deleted id s (delete_client id s)
client_request now post_method (some id) s = (s, method_not_allowed)
client_request now other_method (some id) s = (s, method_not_allowed)

-- The handler of /api/devices/.
unfoldable pub device_request : ℕ → Method → Option ℕ → Server → Server × Response
device_request now m none s = (s, error 400 (codes "invalid ID"))
device_request now get_method (some id) s = (s, shown (codes "not found") (get_client now id s))
device_request now delete_method (some id) s = deleted id s (delete_client id s)
device_request now post_method (some id) s = (s, method_not_allowed)
device_request now other_method (some id) s = (s, method_not_allowed)

-- The text of connection-string: the public host of the request with the relay's UDP port.
abbrev pub host_or : Bytes → Bytes → Bytes
host_or host listen_addr = if is_empty host then listen_addr else host

abbrev pub host_part : (Bytes → Option (Bytes × Bytes)) → Bytes → Bytes
host_part split_host_port host = elim (split_host_port host) [ none ↦ host | some (h, _) ↦ h ]

abbrev pub port_part : (Bytes → Option (Bytes × Bytes)) → Bytes → Bytes
port_part split_host_port addr = elim (split_host_port addr) [ none ↦ [] | some (_, p) ↦ p ]

abbrev pub or_port : Bytes → Bytes
or_port p = if is_empty p then codes "9800" else p

unfoldable pub conn_string_of : (Bytes → Option (Bytes × Bytes)) → Bytes → Bytes → Bytes → Bytes
conn_string_of split_host_port team_key listen_addr host =
    let h = host_part split_host_port (host_or host listen_addr) in
    let port = or_port (port_part split_host_port listen_addr) in
    codes "mpfpv://" ++ (team_key ++ (b'@' ∷ (h ++ (b':' ∷ port))))

-- What the handlers take from outside: `team_key` and `listen_addr` are the arguments of StartWebUI,
-- `decode` gives the body's two texts or the error's text, `save_error` is that of writing the file, and
-- `files` what the file servers answer.
pub record Env : Type 0 where
  pub team_key : Bytes
  pub listen_addr : Bytes
  pub split_host_port : Bytes → Option (Bytes × Bytes)
  pub decode : Bytes → Result Bytes ConfigInfo
  pub sha256 : Bytes → Bytes
  pub save_ok : Bool
  pub save_error : Bytes
  pub files : Bytes → Response

abbrev pub posted : Bytes → Server × Bool → Server × Response
posted why (t, true) = (t, json (status (codes "saved")))
posted why (t, false) = (t, error 500 why)

abbrev pub post_config : Env → Result Bytes ConfigInfo → Server → Server × Response
post_config e (err why) s = (s, error 400 (codes "invalid JSON: " ++ why))
post_config e (ok c) s =
    posted e.save_error (update_server_config e.sha256 e.save_ok c.team_key c.listen_addr s)

unfoldable pub config_request : Env → Method → Bytes → Server → Server × Response
config_request e get_method body s = (s, json (config (get_server_config s)))
config_request e post_method body s = post_config e (e.decode body) s
config_request e delete_method body s = (s, method_not_allowed)
config_request e other_method body s = (s, method_not_allowed)

unfoldable pub serve : Env → ℕ → Request → Endpoint → Server → Server × Response
unfolding client_request device_request config_request
serve e now r clients_endpoint s = (s, get_only r.method (clients (get_clients now s)))
serve e now r client_endpoint s = client_request now r.method (path_id clients_path r.path) s
serve e now r routes_endpoint s = (s, get_only r.method (routes (get_routes s)))
serve e now r stats_endpoint s = (s, get_only r.method (stats (get_stats now s)))
serve e now r conn_string_endpoint s = (
  s,
  get_only r.method
      (conn_string (conn_string_of e.split_host_port e.team_key e.listen_addr r.host)),
)
serve e now r devices_endpoint s = (s, get_only r.method (clients (get_clients now s)))
serve e now r device_endpoint s = device_request now r.method (path_id devices_path r.path) s
serve e now r config_endpoint s = config_request e r.method r.body s
serve e now r file_endpoint s = (s, e.files r.path)

unfoldable pub handle_request : Env → ℕ → Request → Server → Server × Response
unfolding endpoint_of serve
handle_request e now r s = serve e now r (endpoint_of r.path) s
