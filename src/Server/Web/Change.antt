-- ===== src/Server/Web/Change.antt =====
-- server/web.go, updateServerConfig: the key and its hash stay together, and nothing else changes.
use mpfpv.Base.{
  ◌≡◌, refl, ap, sym, ◌∙◌, arith, Bool, ◌&&◌, not, if◌then◌else◌, inl, inr, Bool-cases,
}
use mpfpv.Base.Bytes.{Bytes, bytes_eq, bytes_eq_sound, is_empty}
use mpfpv.Protocol.Wire.{team_key_hash}
use mpfpv.Server.State.{Server}
use mpfpv.Server.Invariant.Same.{Same, unchanged}
use mpfpv.Server.Web.{with_key, with_listen_addr, saved, update_server_config}

-- What of the server no stage of the update changes.
record Untouched (s t : Server) : Type 0 where
  same_sessions : t.sessions ≡ s.sessions
  same_routes : t.route_table ≡ s.route_table
  same_pool : t.ip_pool ≡ s.ip_pool
  same_server : t.server_virtual_ip ≡ s.server_virtual_ip
  same_subnet : t.subnet ≡ s.subnet

with_key_lem :
    (sha256 : Bytes → Bytes) (key : Bytes) (s : Server)
    → s.team_key_hash ≡ team_key_hash sha256 s.cfg.team_key
    → let t = with_key sha256 key s in
      (t.team_key_hash ≡ team_key_hash sha256 t.cfg.team_key)
      × (t.cfg.team_key ≡ (if is_empty key then s.cfg.team_key else key))
unfolding with_key
with_key_lem sha256 key s h =
    elim (Bool-cases (not (is_empty key) && not (bytes_eq key s.cfg.team_key))) [
      | inl new ↦ rw new (refl, ground arith)
      | inr old ↦ rw old (h, ground (arith, bytes_eq_sound key s.cfg.team_key))
    ]

with_listen_addr_lem :
    (addr : Bytes) (s : Server)
    → let t = with_listen_addr addr s in
      (t.team_key_hash ≡ s.team_key_hash) × (t.cfg.team_key ≡ s.cfg.team_key)
unfolding with_listen_addr
with_listen_addr_lem addr s = (ground arith, ground arith)

saved_lem :
    (save_ok : Bool) (s : Server)
    → let t = (saved save_ok s).0 in
      (t.team_key_hash ≡ s.team_key_hash) × (t.cfg.team_key ≡ s.cfg.team_key)
unfolding saved
saved_lem save_ok s = (ground arith, ground arith)

update_server_config-Untouched :
    (sha256 : Bytes → Bytes) (save_ok : Bool) (key addr : Bytes) (s : Server)
    → Untouched s (update_server_config sha256 save_ok key addr s).0
unfolding update_server_config with_key with_listen_addr saved
update_server_config-Untouched sha256 save_ok key addr s = record {
  same_sessions = ground arith;
  same_routes = ground arith;
  same_pool = ground arith;
  same_server = ground arith;
  same_subnet = ground arith;
}

pub update_server_config-Same :
    (sha256 : Bytes → Bytes) (save_ok : Bool) (key addr : Bytes) (s : Server)
    → Same s (update_server_config sha256 save_ok key addr s).0
update_server_config-Same sha256 save_ok key addr s =
    let u = update_server_config-Untouched sha256 save_ok key addr s in
    unchanged u.same_sessions u.same_routes u.same_pool u.same_server u.same_subnet

-- Where the stored hash is that of the configured key, it is after a change of the configuration, and
-- the configured key is the new one unless this is empty; no session, route or pool entry changes.
pub update_server_config_lem :
    (sha256 : Bytes → Bytes) (save_ok : Bool) (key addr : Bytes) (s : Server)
    → s.team_key_hash ≡ team_key_hash sha256 s.cfg.team_key
    → let t = (update_server_config sha256 save_ok key addr s).0 in
      (t.team_key_hash ≡ team_key_hash sha256 t.cfg.team_key)
      × (t.cfg.team_key ≡ (if is_empty key then s.cfg.team_key else key))
      × (t.sessions ≡ s.sessions)
      × (t.route_table ≡ s.route_table)
      × (t.ip_pool ≡ s.ip_pool)
unfolding update_server_config
update_server_config_lem sha256 save_ok key addr s h =
    let t = with_key sha256 key s in
    let u = with_listen_addr addr t in
    let (hash, name) = with_key_lem sha256 key s h in
    let (hash', name') = with_listen_addr_lem addr t in
    let (hash'', name'') = saved_lem save_ok u in
    let a = update_server_config-Untouched sha256 save_ok key addr s in
    (
      hash'' ∙ hash' ∙ hash ∙ ap (team_key_hash sha256) (sym (name'' ∙ name')),
      name'' ∙ name' ∙ name,
      a.same_sessions,
      a.same_routes,
      a.same_pool,
    )
