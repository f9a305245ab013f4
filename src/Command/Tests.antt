-- ===== src/Command/Tests.antt =====
-- The programs at one configuration for a server and one connection string.
use mpfpv.Base.{ℕ, lookup, ◌≢◌, ◌≡◌, ◌↔◌, refl, arith, true, [], ◌∷◌, none, some}
use mpfpv.Base.Bytes.{Bytes, codes}
use mpfpv.Base.Int.{pos}
use mpfpv.Base.Results.{ok}
use mpfpv.Config.{
  ServerConfig, Config, filled_server, apply_defaults, validate, load_file, mode_server,
}
use mpfpv.Config.Loading.{IsUsable}
use mpfpv.Protocol.Wire.{team_key_hash}
use mpfpv.Server.State.{Server, Subnet, load_ip_pool}
use mpfpv.Server.Start.{fresh_server, new_server}
use mpfpv.Server.Invariant.Same.{Inv}
use mpfpv.Server.Api.{conn_string, get_method, handle_request}
use mpfpv.Server.Api.ConnString.{conn_string_path}
use mpfpv.Server.Api.Tests.{env, split, request, parse_url, parse_url-ParsesUrls, keyed}
use mpfpv.Client.Handlers.{Client}
use mpfpv.Command.{
  Arguments, Outside, client_main, windows_main, windows_file, server_main, with_path,
}
use mpfpv.Command.Starts.{windows_panics, server_main_lem}
use mpfpv.Command.HandedOut.{handed_out_key}

abbrev section_of_server : ServerConfig
section_of_server = record {
  listen_addr = codes "0.0.0.0:9800";
  virtual_ip = codes "10.99.0.1/24";
  subnet = codes "10.99.0.0/24";
  client_timeout = pos 30;
  addr_timeout = pos 0;
  dedup_window = pos 64;
  ip_pool_file = [];
  web_ui = [];
}

abbrev server_config : Config
server_config = record {
  mode = codes "server";
  team_key = codes "k";
  client = none;
  server = some section_of_server;
}

abbrev loaded : Config
loaded = record server_config { server = some (filled_server section_of_server) }

abbrev net : Subnet
net = record { base = 0x0a630000; ones = 24 }

-- Every file holds the same.
abbrev outside : Outside
outside = record {
  read = λ path. some [];
  exists = λ path. true;
  exe_dir = [];
  unmarshal = λ text. some server_config;
  url_parse = parse_url;
  split_host_port = split;
  sha256 = λ text. text;
  parse_cidr = λ text. some (record { ip4 = some 0x0a630001; network = net });
}

abbrev no_arguments : Arguments
no_arguments = record { config_path = codes "mpfpv.yml"; rest = [] }

windows_panics_example : (windows_main outside 8 [] no_arguments ≡ none) ↔ (
    (no_arguments.rest ≡ [])
    × ((cfg : Config) × (load_file outside.unmarshal
            (outside.read (windows_file outside no_arguments.config_path))
          ≡ ok cfg)
        × (cfg.client ≡ none)))
windows_panics_example = windows_panics outside 8 [] no_arguments

abbrev begun : Server
begun = with_path (codes "mpfpv.yml") (
    fresh_server (λ text. text) loaded (filled_server section_of_server) (0x0a630001, 24)
      (some net))

begins : server_main outside none no_arguments ≡ ok begun
unfolding server_main load_file apply_defaults validate new_server load_ip_pool
begins = refl

server_main_lem_example :
    IsUsable begun.cfg
    × (begun.cfg.mode ≡ mode_server)
    × (begun.cfg_path ≡ codes "mpfpv.yml")
    × (begun.team_key_hash ≡ team_key_hash (λ text. text) begun.cfg.team_key)
    × Inv begun
    × ((c d ip : ℕ) → lookup c begun.ip_pool ≡ some ip → lookup d begun.ip_pool ≡ some ip → c ≡ d)
    × ((c ip : ℕ) → lookup c begun.ip_pool ≡ some ip → (ip ≢ 0) × (ip ≢ begun.server_virtual_ip))
server_main_lem_example =
    server_main_lem outside none no_arguments begun begins (λ t c e. ground arith)
      (record { one_owner = λ c d ip e f. ground arith; usable = λ c ip e. ground arith })

handed_out_key_example :
    (text : Bytes) × ((handle_request env 200 (request get_method conn_string_path) keyed).1.body
      ≡ conn_string text)
    × ((c : Client) × (client_main outside 8
            (codes "pi")
            (record { config_path = []; rest = text ∷ [] })
          ≡ ok c)
        × (c.team_key_hash ≡ keyed.team_key_hash))
handed_out_key_example =
    handed_out_key outside env 200 8 (codes "pi") [] (codes "relay") (codes "9800")
      (request get_method conn_string_path) keyed parse_url-ParsesUrls refl refl refl refl refl refl
      refl (ground arith) (ground arith) (ground arith)
