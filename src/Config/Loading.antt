-- ===== src/Config/Loading.antt =====
-- config/config.go, LoadFile: what holds of a configuration that it returns.
use mathlib.Core.Path.{subst}
use mpfpv.Base.{
  ℕ, ◌<◌, ◌≡◌, ◌≢◌, refl, arith, ◌⊎◌, inl, inr, Bool-cases, [], Option, none, some, Option-cases,
}
use mpfpv.Base.Int.{ℤ, pos, negsuc}
use mpfpv.Base.Bytes.{Bytes, bytes_eq, bytes_eq_sound}
use mpfpv.Base.Results.{Result, ok, err, ◌>>◌}
use mpfpv.Config.{
  ClientConfig, ServerConfig, Config, or_default, client_defaults, filled_server, ConfigError,
  server_defaults, apply_defaults, mode_client, mode_server, validate_client, validate_server,
  validate, load_file,
}

abbrev pub IsPositive : ℤ → Type 0
IsPositive (pos n) = 0 < n
IsPositive (negsuc n) = ⊥

pub record IsClientConfig (c : ClientConfig) : Type 0 where
  pub has_server_addr : c.server_addr ≢ []
  pub window_positive : IsPositive c.dedup_window

pub record IsServerConfig (s : ServerConfig) : Type 0 where
  pub has_listen_addr : s.listen_addr ≢ []
  pub has_virtual_ip : s.virtual_ip ≢ []
  pub has_subnet : s.subnet ≢ []
  pub client_timeout_positive : IsPositive s.client_timeout
  pub addr_timeout_positive : IsPositive s.addr_timeout
  pub window_positive : IsPositive s.dedup_window
  pub has_pool_file : s.ip_pool_file ≢ []

-- The section of its mode is there and complete.
abbrev pub IsUsable : Config → Type 0
IsUsable cfg =
    ((cfg.mode ≡ mode_client) × ((c : ClientConfig) × (cfg.client ≡ some c) × IsClientConfig c))
    ⊎ ((cfg.mode ≡ mode_server) × ((s : ServerConfig) × (cfg.server ≡ some s) × IsServerConfig s))

or_default-IsPositive : (n : ℤ) (d : ℕ) → 0 < d → IsPositive (or_default n d)
or_default-IsPositive (pos n) d h = ground arith
or_default-IsPositive (negsuc n) d h = h

client_usable :
    (o : Option ClientConfig)
    → validate_client (client_defaults o) ≡ ok tt
    → (c : ClientConfig) × (client_defaults o ≡ some c) × IsClientConfig c
client_usable none e = cc
client_usable (some c) e = (
  record c { dedup_window = or_default c.dedup_window 4096 },
  refl,
  record {
    has_server_addr = ground arith;
    window_positive = or_default-IsPositive c.dedup_window 4096 (omega arith);
  },
)

server_usable :
    (o : Option ServerConfig)
    → validate_server (server_defaults o) ≡ ok tt
    → (s : ServerConfig) × (server_defaults o ≡ some s) × IsServerConfig s
server_usable none e = cc
server_usable (some s) e = (
  filled_server s,
  refl,
  record {
    has_listen_addr = ground arith;
    has_virtual_ip = ground arith;
    has_subnet = ground arith;
    client_timeout_positive = or_default-IsPositive s.client_timeout 30 (omega arith);
    addr_timeout_positive = or_default-IsPositive s.addr_timeout 15 (omega arith);
    window_positive = or_default-IsPositive s.dedup_window 4096 (omega arith);
    has_pool_file = ground arith;
  },
)

valid-IsUsable :
    (cfg : Config) → validate (apply_defaults cfg) ≡ ok tt → IsUsable (apply_defaults cfg)
unfolding validate apply_defaults
valid-IsUsable cfg e = elim (Bool-cases (bytes_eq cfg.mode mode_client)) [
  | inl client ↦
      inl (bytes_eq_sound cfg.mode mode_client client, client_usable cfg.client (ground arith))
  | inr other ↦ elim (Bool-cases (bytes_eq cfg.mode mode_server)) [
    | inl server ↦ inr (
      bytes_eq_sound cfg.mode mode_server server,
      server_usable cfg.server (rw (other, server) at e),
    )
    | inr bad ↦ let no_mode = rw (other, bad) at e in cc
  ]
]

checked_ok :
    (r : Result ConfigError (Unit {0})) (d cfg : Config)
    → (r >> ok d) ≡ ok cfg
    → (r ≡ ok tt) × (d ≡ cfg)
checked_ok (ok tt) d cfg e = (refl, ground arith)
checked_ok (err x) d cfg e = cc

-- A configuration that loads is in one of the two modes, its section is there with all that it
-- requires, and its windows and timeouts are positive.
pub load_file-IsUsable :
    (unmarshal : Bytes → Option Config) (file : Option Bytes) (cfg : Config)
    → load_file unmarshal file ≡ ok cfg
    → IsUsable cfg
unfolding load_file
load_file-IsUsable unmarshal none cfg e = cc
load_file-IsUsable unmarshal (some text) cfg e = elim (Option-cases (unmarshal text)) [
  | inl bad ↦ ground arith
  | inr (raw, parsed) ↦
      let loaded : (validate (apply_defaults raw) >> ok (apply_defaults raw)) ≡ ok cfg =
        ground arith in
      let (valid, same) =
        checked_ok (validate (apply_defaults raw)) (apply_defaults raw) cfg loaded in
      subst IsUsable same (valid-IsUsable raw valid)
]
