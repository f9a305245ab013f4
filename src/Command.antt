-- ===== src/Command.antt =====
-- client/cmd/main.go, client/cmd-windows/main.go and server/cmd/main.go: how each program comes by its
-- configuration, and what it starts. The arguments stand after flag.Parse; files, YAML, the parsers of
-- the standard library and SHA-256 are parameters.
pub mod Starts
pub mod HandedOut
mod Tests
use mpfpv.Base.{ℕ, Bool, true, false, not, if◌then◌else◌, List, [], ◌∷◌, ◌++◌, Option, none, some}
use mpfpv.Base.Bytes.{Bytes, codes, bytes_eq, is_empty}
use mpfpv.Base.Results.{Result, ok, err, ◌>>=◌}
use mpfpv.Config.{
  ClientConfig, Config, ConfigError, Url, mode_client, mode_server, load_file, from_conn_string,
}
use mpfpv.Server.State.{Server}
use mpfpv.Server.Start.{ServerError, Cidr, new_server}
use mpfpv.Client.Handlers.{Client}
use mpfpv.Client.Run.{make_client}

-- The -config flag and the arguments behind the flags, of a program that is not asked for its version; the
-- value of a flag that was not given is its default.
pub record Arguments : Type 0 where
  pub config_path : Bytes
  pub rest : List Bytes

-- What the programs find outside: `read` is the contents of a file, `none` if it cannot be read, and
-- `exists` what os.Stat says of it; `exe_dir` is the folder of the program's file.
pub record Outside : Type 0 where
  pub read : Bytes → Option Bytes
  pub exists : Bytes → Bool
  pub exe_dir : Bytes
  pub unmarshal : Bytes → Option Config
  pub url_parse : Bytes → Option Url
  pub split_host_port : Bytes → Option (Bytes × Bytes)
  pub sha256 : Bytes → Bytes
  pub parse_cidr : Bytes → Option Cidr

-- Why a program ends before it runs.
pub data Exit : Type 0 where
  usage : Exit
  config_failed : ConfigError → Exit
  not_a_server : Bytes → Exit
  server_failed : ServerError → Exit
  no_client_section : Exit

abbrev pub default_file : Bytes
default_file = codes "mpfpv.yml"

abbrev pub config_result : Result ConfigError Config → Result Exit Config
config_result (ok cfg) = ok cfg
config_result (err why) = err (config_failed why)

abbrev pub from_file : Outside → Bytes → Result Exit Config
from_file o path = config_result (load_file o.unmarshal (o.read path))

abbrev pub from_text : Outside → Bytes → Result Exit Config
from_text o text = config_result (from_conn_string o.url_parse o.split_host_port text)

-- The path of the -config flag, or mpfpv.yml where that is empty and the file is there.
abbrev pub client_file : Outside → Bytes → Bytes
client_file o path =
    if is_empty path then (if o.exists default_file then default_file else []) else path

abbrev pub file_or_usage : Outside → Bytes → Result Exit Config
file_or_usage o path = if is_empty path then err usage else from_file o path

unfoldable pub client_config : Outside → List Bytes → Bytes → Result Exit Config
client_config o (text ∷ texts) path = from_text o text
client_config o [] path = file_or_usage o (client_file o path)

-- `cfg.Mode = "client"`
abbrev pub as_client : Config → Config
as_client cfg = record cfg { mode = mode_client }

-- The error of New.
abbrev pub made : Option Client → Result Exit Client
made none = err no_client_section
made (some c) = ok c

-- client/cmd/main.go up to `c.Run`; New loads the client's id, which `client_id` stands for.
unfoldable pub client_main : Outside → ℕ → Bytes → Arguments → Result Exit Client
unfolding client_config
client_main o client_id device_name a = client_config o a.rest a.config_path >>= λ cfg.
    made (make_client o.sha256 client_id device_name (as_client cfg))

-- `filepath.Join` of the program's folder and the default file.
abbrev pub windows_file : Outside → Bytes → Bytes
windows_file o path = if is_empty path then o.exe_dir ++ (b'\\' ∷ default_file) else path

unfoldable pub windows_config : Outside → List Bytes → Bytes → Result Exit Config
windows_config o (text ∷ texts) path = from_text o text
windows_config o [] path = from_file o (windows_file o path)

-- `cfg.Client.BindInterface = "auto"`, and before it the reading of `cfg.Client.ServerAddr`; `none` is the
-- panic of a nil section.
abbrev pub auto_bound : Config → Option Config
auto_bound cfg = elim cfg.client [
  | none ↦ none
  | some cc ↦ some (record cfg { client = some (record cc { bind_interface = codes "auto" }) })
]

abbrev pub windows_start : Outside → ℕ → Bytes → Result Exit Config → Option (Result Exit Client)
windows_start o client_id device_name (err why) = some (err why)
windows_start o client_id device_name (ok cfg) = elim (auto_bound cfg) [
  | none ↦ none
  | some cfg' ↦ some (made (make_client o.sha256 client_id device_name (as_client cfg')))
]

-- client/cmd-windows/main.go, as administrator, up to `c.Run`.
unfoldable pub windows_main : Outside → ℕ → Bytes → Arguments → Option (Result Exit Client)
unfolding windows_config
windows_main o client_id device_name a =
    windows_start o client_id device_name (windows_config o a.rest a.config_path)

abbrev pub started : Result ServerError Server → Result Exit Server
started (ok s) = ok s
started (err why) = err (server_failed why)

abbrev pub with_path : Bytes → Server → Server
with_path path s = record s { cfg_path = path }

abbrev pub start_server :
    Outside → Option (List (ℕ × Option ℕ × Bytes)) → Bytes → Config → Result Exit Server
start_server o pool path cfg =
    if not (bytes_eq cfg.mode mode_server)
    then err (not_a_server cfg.mode)
    else started (new_server o.sha256 o.parse_cidr pool cfg) >>= λ s. ok (with_path path s)

-- server/cmd/main.go up to the start of the web interface; `pool` is what the pool file holds.
unfoldable pub server_main :
    Outside → Option (List (ℕ × Option ℕ × Bytes)) → Arguments → Result Exit Server
server_main o pool a = from_file o a.config_path >>= start_server o pool a.config_path
