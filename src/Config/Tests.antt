-- ===== src/Config/Tests.antt =====
-- The theorems about config/config.go at a client's file and at small connection strings.
use mpfpv.Base.{[], ◌∷◌, Option, none, some}
use mpfpv.Base.Int.{pos}
use mpfpv.Base.Bytes.{Bytes, codes}
use mpfpv.Config.{Config, Url}

-- A client's file that leaves the window to its default.
abbrev raw : Config
raw = record {
  mode = codes "client";
  team_key = codes "k";
  client = some (record {
    server_addr = codes "h:1";
    bind_interface = [];
    dedup_window = pos 0;
    web_ui = [];
  });
  server = none;
}

abbrev yaml : Bytes → Option Config
yaml text = some raw

abbrev no_url : Bytes → Option Url
no_url text = none

abbrev host_port : Bytes → Option (Bytes × Bytes)
host_port [] = none
host_port (b ∷ s) = elim s [ [] ↦ none | x ∷ rest ↦ some (b ∷ [], x ∷ rest) ]
