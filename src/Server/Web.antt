-- ===== src/Server/Web.antt =====
-- server/web.go: what the handlers of the web interface read of the server, and the change of its
-- configuration. Addresses and times stay numbers; the source prints them.
pub mod Lists
pub mod Change
use mathlib.Core.Option
use mpfpv.Base.{
  ℕ, suc, ◌-◌, ◌≡◌, refl, ap, sym, ◌∙◌, arith, Bool, true, false, ◌&&◌, not, ltb, if◌then◌else◌,
  inl, inr, Bool-cases, List, [], ◌∷◌, Option, lookup,
}
use mpfpv.Base.Sorting.{
  sort_by, IsSorted, Rearranged, none_left, keep, swap, then_again, sort_by-IsSorted,
  sort_by-Rearranged,
}
use mpfpv.Base.Bytes.{Bytes, bytes_eq, bytes_eq_sound, is_empty}
use mpfpv.Config.{ServerConfig}
use mpfpv.Protocol.Wire.{PathRtt, team_key_hash}
use mpfpv.Server.State.{AddrInfo, Session, Server, config_file, emit}
use mpfpv.Server.Invariant.Same.{Same, unchanged}

-- `clientInfoResp`.
pub record ClientInfo : Type 0 where
  pub client_id : ℕ
  pub virtual_ip : ℕ
  pub device_name : Bytes
  pub online : Bool
  pub addr_count : ℕ
  pub rx_bytes : ℕ
  pub tx_bytes : ℕ
  pub last_seen : ℕ
  pub path_rtts : List PathRtt

-- `statsResp`.
pub record Stats : Type 0 where
  pub rx_bytes : ℕ
  pub tx_bytes : ℕ
  pub device_count : ℕ
  pub online_count : ℕ

-- The test of getClients.
abbrev pub is_online : ℕ → ℕ → Session → Bool
is_online now timeout sess = ltb (now - sess.last_seen) timeout

abbrev pub nic_paths : List (ℕ × AddrInfo) → List PathRtt
nic_paths [] = []
nic_paths ((k, ai) ∷ m) =
    if is_empty ai.nic_name
    then nic_paths m
    else record {
      name = ai.nic_name;
      rtt_ms = ai.nic_rtt_ms;
      tx_bytes = ai.nic_tx_bytes;
      rx_bytes = ai.nic_rx_bytes;
    }
      ∷ nic_paths m

abbrev pub addr_count_of : List (ℕ × AddrInfo) → ℕ
addr_count_of [] = 0
addr_count_of (x ∷ m) = suc (addr_count_of m)

abbrev pub client_info : ℕ → ℕ → Session → ClientInfo
client_info now timeout sess = record {
  client_id = sess.client_id;
  virtual_ip = sess.virtual_ip;
  device_name = sess.device_name;
  online = is_online now timeout sess;
  addr_count = addr_count_of sess.addrs;
  rx_bytes = sess.rx_bytes;
  tx_bytes = sess.tx_bytes;
  last_seen = sess.last_seen;
  path_rtts = nic_paths sess.addrs;
}

-- The list before it is sorted, in the order of the map.
abbrev pub infos : ℕ → ℕ → List (ℕ × Session) → List ClientInfo
infos now timeout [] = []
infos now timeout ((c, sess) ∷ m) = client_info now timeout sess ∷ infos now timeout m

abbrev pub info_id : ClientInfo → ℕ
info_id x = x.client_id

unfoldable pub get_clients : ℕ → Server → List ClientInfo
unfolding sort_by
get_clients now s = sort_by info_id (infos now s.client_timeout s.sessions)

abbrev pub addrs_of : List (ℕ × AddrInfo) → List AddrInfo
addrs_of [] = []
addrs_of ((k, ai) ∷ m) = ai ∷ addrs_of m

-- `clientDetailResp`: an endpoint's entry shows all that `AddrInfo` holds.
pub record ClientDetail : Type 0 where
  pub info : ClientInfo
  pub addrs : List AddrInfo

abbrev pub detail_of : ℕ → ℕ → Session → ClientDetail
detail_of now timeout sess = record {
  info = client_info now timeout sess;
  addrs = addrs_of sess.addrs;
}

-- `none` is nil.
unfoldable pub get_client : ℕ → ℕ → Server → Option ClientDetail
get_client now id s = Option.map (detail_of now s.client_timeout) (lookup id s.sessions)

-- The test of getStats.
abbrev pub counts_online : ℕ → ℕ → Session → Bool
counts_online now timeout sess = ltb (now - sess.last_seen) timeout

abbrev pub online_sessions : ℕ → ℕ → List (ℕ × Session) → ℕ
online_sessions now timeout [] = 0
online_sessions now timeout ((c, sess) ∷ m) =
    let rest = online_sessions now timeout m in
    if counts_online now timeout sess then suc rest else rest

abbrev pub pool_count : List (ℕ × ℕ) → ℕ
pool_count [] = 0
pool_count (x ∷ m) = suc (pool_count m)

unfoldable pub get_stats : ℕ → Server → Stats
get_stats now s = record {
  rx_bytes = s.total_rx;
  tx_bytes = s.total_tx;
  device_count = pool_count s.ip_pool;
  online_count = online_sessions now s.client_timeout s.sessions;
}

unfoldable pub with_key : (Bytes → Bytes) → Bytes → Server → Server
with_key sha256 key s =
    if not (is_empty key) && not (bytes_eq key s.cfg.team_key)
    then record s {
      cfg = record s.cfg { team_key = key };
      team_key_hash = team_key_hash sha256 key;
    }
    else s

-- A server that New made has a server section.
unfoldable pub with_listen_addr : Bytes → Server → Server
with_listen_addr addr s = if is_empty addr then s else record s {
  cfg = record s.cfg {
    server = Option.map (λ (sc : ServerConfig). record sc { listen_addr = addr }) s.cfg.server;
  };
}

-- `save_ok` says whether the file can be written; the Boolean, whether there is no error.
unfoldable pub saved : Bool → Server → Server × Bool
saved save_ok t =
    if is_empty t.cfg_path
    then (t, true)
    else if save_ok
    then (emit (config_file t.cfg) t, true)
    else (t, false)

unfoldable pub update_server_config :
    (Bytes → Bytes) → Bool → Bytes → Bytes → Server → Server × Bool
unfolding with_key with_listen_addr saved
update_server_config sha256 save_ok key addr s =
    saved save_ok (with_listen_addr addr (with_key sha256 key s))
