-- ===== src/Command/Starts.antt =====
-- client/cmd, client/cmd-windows and server/cmd: what the programs start with.
use mathlib.Core.Path.{subst}
use mpfpv.Base.{
  ℕ, ◌≡◌, refl, sym, ap, ◌∙◌, ◌≢◌, arith, inl, inr, lookup, true, Bool-cases, Option-cases, List,
  [], ◌∷◌, ◌↔◌, Option, none, some,
}
use mpfpv.Base.Int.{pos}
use mpfpv.Base.Bytes.{Bytes, is_empty, bytes_eq, bytes_eq_sound}
use mpfpv.Base.Results.{Result, ok, err, ◌>>=◌, Result-cases, bind-ok}
use mpfpv.Config.{
  ClientConfig, ServerConfig, Config, mode_server, load_file, from_conn_string, parse_conn_string,
  conn_config,
}
use mpfpv.Config.Loading.{IsUsable, load_file-IsUsable}
use mpfpv.Protocol.Wire.{team_key_hash}
use mpfpv.Server.State.{Server, load_entries, load_ip_pool}
use mpfpv.Server.Start.{
  ServerError, Cidr, own_ip, parse_subnet, fresh_server, with_config, new_server,
}
use mpfpv.Server.Start.Pool.{IsPoolFile, entries_of, new_server-Inv}
use mpfpv.Server.Pool.Alloc.{IsSubnet}
use mpfpv.Server.Invariant.Same.{Inv, Same-Inv, unchanged}
use mpfpv.Client.Run.{fresh_client, make_client}
use mpfpv.Command.{
  Arguments, Outside, Exit, client_main, client_config, windows_main, windows_config, windows_file,
  windows_start, from_file, from_text, started, with_path, server_main, start_server,
}

from_file_ok :
    (o : Outside) (path : Bytes) (cfg : Config)
    → from_file o path ≡ ok cfg
    → load_file o.unmarshal (o.read path) ≡ ok cfg
from_file_ok o path cfg e = elim (Result-cases (load_file o.unmarshal (o.read path))) [
  | inl (why, bad) ↦ absurd (ground (arith, bad))
  | inr (found, good) ↦ ground (arith, good)
]

from_text_client :
    (o : Outside) (text : Bytes) (cfg : Config) → from_text o text ≡ ok cfg → cfg.client ≢ none
unfolding from_conn_string
from_text_client o text cfg e =
    elim (Result-cases (parse_conn_string o.url_parse o.split_host_port text)) [
      | inl (why, bad) ↦ absurd (ground (arith, bad))
      | inr (p, good) ↦ ground (arith, good)
    ]

-- A configuration with no client section is what stops the program.
start_panics :
    (o : Outside) (client_id : ℕ) (device_name : Bytes) (r : Result Exit Config)
    → windows_start o client_id device_name r ≡ none
    → (cfg : Config) × (r ≡ ok cfg) × (cfg.client ≡ none)
start_panics o client_id device_name (err why) e = absurd (ground arith)
start_panics o client_id device_name (ok cfg) e = elim (Option-cases cfg.client) [
  | inl absent ↦ (cfg, refl, absent)
  | inr (cc, there) ↦ absurd (ground (arith, there))
]

panic_file :
    (o : Outside) (client_id : ℕ) (device_name : Bytes) (texts : List Bytes) (path : Bytes)
    → windows_start o client_id device_name (windows_config o texts path) ≡ none
    → (texts ≡ [])
      × ((cfg : Config) × (load_file o.unmarshal (o.read (windows_file o path)) ≡ ok cfg)
          × (cfg.client ≡ none))
unfolding windows_config
panic_file o client_id device_name (text ∷ texts) path e =
    let (cfg, given, absent) = start_panics o client_id device_name (from_text o text) e in
    absurd (from_text_client o text cfg given absent)
panic_file o client_id device_name [] path e =
    let (cfg, loaded, absent) =
      start_panics o client_id device_name (from_file o (windows_file o path)) e in
    (refl, (cfg, from_file_ok o (windows_file o path) cfg loaded, absent))

-- Up to the start of the client, the Windows program panics exactly where it is given no connection string
-- and its file loads, as a file for a server may, without a client section.
pub windows_panics :
    (o : Outside) (client_id : ℕ) (device_name : Bytes) (a : Arguments)
    → (windows_main o client_id device_name a ≡ none) ↔ (
        (a.rest ≡ [])
        × ((cfg : Config) × (load_file o.unmarshal (o.read (windows_file o a.config_path)) ≡ ok cfg)
            × (cfg.client ≡ none)))
unfolding windows_main windows_config
windows_panics o client_id device_name a = (
  λ e. panic_file o client_id device_name a.rest a.config_path e,
  λ h. rw (h.0) (rw (h.1.1) (ground (arith, h.1.2))),
)

-- The configuration, and the hash of its key.
abbrev Configured : (Bytes → Bytes) → Config → Server → Type 0
Configured sha256 cfg s = (s.cfg ≡ cfg) × (s.team_key_hash ≡ team_key_hash sha256 cfg.team_key)

load_entries-Configured :
    (sha256 : Bytes → Bytes) (cfg : Config) (entries : List (ℕ × Option ℕ × Bytes)) (s : Server)
    → Configured sha256 cfg s
    → Configured sha256 cfg (load_entries entries s)
load_entries-Configured sha256 cfg [] s h = h
load_entries-Configured sha256 cfg ((c, none, name) ∷ es) s h =
    load_entries-Configured sha256 cfg es s h
load_entries-Configured sha256 cfg ((c, some ip, name) ∷ es) s h =
    load_entries-Configured sha256 cfg es _ h

load_ip_pool-Configured :
    (sha256 : Bytes → Bytes) (cfg : Config) (file : Option (List (ℕ × Option ℕ × Bytes)))
    (s : Server)
    → Configured sha256 cfg s
    → Configured sha256 cfg (load_ip_pool file s)
unfolding load_ip_pool
load_ip_pool-Configured sha256 cfg none s h = h
load_ip_pool-Configured sha256 cfg (some es) s h = elim (Bool-cases (is_empty s.ip_pool_file)) [
  | inl no_file ↦ rw no_file h
  | inr named ↦ rw named (load_entries-Configured sha256 cfg es s h)
]

new_server-Configured :
    (sha256 : Bytes → Bytes) (parse_cidr : Bytes → Option Cidr)
    (file : Option (List (ℕ × Option ℕ × Bytes))) (cfg : Config) (s : Server)
    → new_server sha256 parse_cidr file cfg ≡ ok s
    → Configured sha256 cfg s
unfolding new_server
new_server-Configured sha256 parse_cidr file cfg s e = by_section cfg.server e
  where
    by_section :
        (sc : Option ServerConfig)
        → with_config sha256 parse_cidr file cfg sc ≡ ok s
        → Configured sha256 cfg s
    by_section none h = absurd (ground arith)
    by_section (some sc) h =
        let (own, rest, _) = bind-ok (own_ip (parse_cidr sc.virtual_ip)) _ s h in
        let (subnet, done, _) = bind-ok (parse_subnet parse_cidr sc.subnet) _ s rest in
        let start : Server = fresh_server sha256 cfg sc own subnet in
        let same : load_ip_pool file start ≡ s = ground arith in
        subst (Configured sha256 cfg) same
          (load_ip_pool-Configured sha256 cfg file start (refl, refl))

started_ok : (r : Result ServerError Server) (s : Server) → started r ≡ ok s → r ≡ ok s
started_ok (err why) s e = absurd (ground arith)
started_ok (ok t) s e = ground arith

begun_server :
    (o : Outside) (pool : Option (List (ℕ × Option ℕ × Bytes))) (path : Bytes) (cfg : Config)
    (s : Server)
    → start_server o pool path cfg ≡ ok s
    → (bytes_eq cfg.mode mode_server ≡ true)
      × ((t : Server) × (new_server o.sha256 o.parse_cidr pool cfg ≡ ok t) × (with_path path t ≡ s))
begun_server o pool path cfg s e = elim (Bool-cases (bytes_eq cfg.mode mode_server)) [
  | inl server ↦
      let begins : (started (new_server o.sha256 o.parse_cidr pool cfg) >>= λ t.
      ok (with_path path t))
          ≡ ok s =
        ground (arith, server) in
      let (t, same, done) =
        bind-ok (started (new_server o.sha256 o.parse_cidr pool cfg)) _ s begins in
      (server, (t, started_ok _ t done, ground arith))
  | inr other ↦ absurd (ground (arith, other))
]

-- What the server program starts with is a complete configuration for a server, the hash of its team key, and
-- the file for later changes. If the pool file gives no address to two clients, and neither 0 nor the
-- server's own to any, and the parser's networks lie within 32 bits, then its addresses are in order: no
-- address stands twice in its pool, and none is 0 or its own.
pub server_main_lem :
    (o : Outside) (pool : Option (List (ℕ × Option ℕ × Bytes))) (a : Arguments) (s : Server)
    → server_main o pool a ≡ ok s
    → ((t : Bytes) (c : Cidr) → o.parse_cidr t ≡ some c → IsSubnet c.network)
    → IsPoolFile s.server_virtual_ip (entries_of pool)
    → IsUsable s.cfg
      × (s.cfg.mode ≡ mode_server)
      × (s.cfg_path ≡ a.config_path)
      × (s.team_key_hash ≡ team_key_hash o.sha256 s.cfg.team_key)
      × Inv s
      × ((c d ip : ℕ) → lookup c s.ip_pool ≡ some ip → lookup d s.ip_pool ≡ some ip → c ≡ d)
      × ((c ip : ℕ) → lookup c s.ip_pool ≡ some ip → (ip ≢ 0) × (ip ≢ s.server_virtual_ip))
unfolding server_main
server_main_lem o pool a s e networks file =
    let (cfg, begun, read) = bind-ok (from_file o a.config_path) _ s e in
    let loaded = from_file_ok o a.config_path cfg read in
    let usable = load_file-IsUsable o.unmarshal (o.read a.config_path) cfg loaded in
    let (server, (u, made, same)) = begun_server o pool a.config_path cfg s begun in
    let (its_cfg, hash) = new_server-Configured o.sha256 o.parse_cidr pool cfg u made in
    let there : s.cfg ≡ cfg = ap (λ (x : Server). x.cfg) (sym same) ∙ its_cfg in
    let own : u.server_virtual_ip ≡ s.server_virtual_ip =
      ap (λ (x : Server). x.server_virtual_ip) same in
    let fine : Inv u =
      new_server-Inv o.sha256 o.parse_cidr pool cfg u networks made
        (subst (λ ip. IsPoolFile ip (entries_of pool)) (sym own) file) in
    let kept : Inv (with_path a.config_path u) =
      Same-Inv (unchanged refl refl refl refl refl) fine in
    (
      subst IsUsable (sym there) usable,
      ap (λ (c : Config). c.mode) there ∙ bytes_eq_sound cfg.mode mode_server server,
      ap (λ (x : Server). x.cfg_path) (sym same),
      ap (λ (x : Server). x.team_key_hash) (sym same)
          ∙ hash
          ∙ ap (λ (c : Config). team_key_hash o.sha256 c.team_key) (sym there),
      subst Inv same kept,
      (subst Inv same kept).addressing.pool_apart,
      (subst Inv same kept).addressing.pool_usable,
    )

-- A client program that is given a connection string which FromConnString reads.
pub text_client :
    (o : Outside) (client_id : ℕ) (device_name text key addr : Bytes) (texts : List Bytes)
    (a : Arguments)
    → a.rest ≡ text ∷ texts
    → from_conn_string o.url_parse o.split_host_port text ≡ ok (conn_config (key, addr))
    → (cc : ClientConfig) × (client_main o client_id device_name a
        ≡ ok (fresh_client o.sha256 client_id device_name key cc))
      × (windows_main o client_id device_name a
          ≡ some (ok (fresh_client o.sha256 client_id device_name key cc)))
unfolding client_main client_config windows_main windows_config make_client
text_client o client_id device_name text key addr texts a given reads = (
  record { server_addr = addr; bind_interface = []; dedup_window = pos 4096; web_ui = [] },
  rw given (rw reads refl),
  rw given (rw reads refl),
)
