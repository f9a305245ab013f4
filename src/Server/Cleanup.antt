-- ===== src/Server/Cleanup.antt =====
-- server/server.go, cleanup, and server/web.go, deleteClient: how sessions, routes and pool entries go.
use mpfpv.Base.{
  ℕ, ◌-◌, Bool, true, false, ◌&&◌, ltb, if◌then◌else◌, List, [], ◌∷◌, Option, none, some, lookup,
  insert, delete,
}
use mpfpv.Dedup.{reset}
use mpfpv.Server.State.{AddrInfo, Session, Server, save_ip_pool}

-- `now.Sub(t) > limit`, for a limit that is not negative.
abbrev pub older : ℕ → ℕ → ℕ → Bool
older now t limit = ltb limit (now - t)

abbrev pub live_addrs : ℕ → ℕ → List (ℕ × AddrInfo) → List (ℕ × AddrInfo)
live_addrs now limit [] = []
live_addrs now limit ((k, ai) ∷ m) =
    let rest = live_addrs now limit m in
    if older now ai.last_seen limit then rest else (k, ai) ∷ rest

abbrev pub no_addrs : List (ℕ × AddrInfo) → Bool
no_addrs [] = true
no_addrs (x ∷ m) = false

abbrev pub prune : ℕ → ℕ → Session → Session
prune now addr_timeout sess = record sess { addrs = live_addrs now addr_timeout sess.addrs }

-- Whether a pruned session ends.
abbrev pub ends : ℕ → ℕ → Session → Bool
ends now client_timeout sess = no_addrs sess.addrs && older now sess.last_seen client_timeout

-- The sessions that stay, and those that end, with their addresses (`expSess`).
unfoldable pub live_sessions : ℕ → ℕ → ℕ → List (ℕ × Session) → List (ℕ × Session)
live_sessions now at ct [] = []
live_sessions now at ct ((c, sess) ∷ m) =
    let rest = live_sessions now at ct m in
    if ends now ct (prune now at sess) then rest else (c, prune now at sess) ∷ rest

unfoldable pub ended_sessions : ℕ → ℕ → ℕ → List (ℕ × Session) → List (ℕ × ℕ)
ended_sessions now at ct [] = []
ended_sessions now at ct ((c, sess) ∷ m) =
    let rest = ended_sessions now at ct m in
    if ends now ct (prune now at sess) then (c, sess.virtual_ip) ∷ rest else rest

abbrev pub mark_expiry : ℕ → ℕ → Server → Server
mark_expiry client_id now s = elim (lookup client_id s.ip_pool) [
  | none ↦ s
  | some _ ↦ record s { ip_pool_expiry = insert client_id now s.ip_pool_expiry }
]

unfoldable pub end_sessions : ℕ → List (ℕ × ℕ) → Server → Server
end_sessions now [] s = s
end_sessions now ((client_id, ip) ∷ ended) s = end_sessions now ended (
    mark_expiry client_id now
      (record s { route_table = delete ip s.route_table; dedup = reset s.dedup client_id }))

-- The clients whose pool entry has outlived its retention.
unfoldable pub overdue : ℕ → ℕ → List (ℕ × ℕ) → List ℕ
overdue now retention [] = []
overdue now retention ((c, at) ∷ m) =
    let rest = overdue now retention m in if older now at retention then c ∷ rest else rest

unfoldable pub forget : List ℕ → Server → Server
forget [] s = s
forget (c ∷ cs) s = forget cs (record s {
  ip_pool = delete c s.ip_pool;
  ip_pool_names = delete c s.ip_pool_names;
  ip_pool_expiry = delete c s.ip_pool_expiry;
})

abbrev pub save_if_any : List ℕ → Server → Server
save_if_any [] s = s
save_if_any (c ∷ cs) s = save_ip_pool s

unfoldable pub expire_pool : ℕ → Server → Server
unfolding overdue forget save_ip_pool
expire_pool now s =
    let old = overdue now s.ip_pool_retention s.ip_pool_expiry in save_if_any old (forget old s)

-- cleanup while it holds `sessionsLock`.
abbrev pub cleanup_sessions : ℕ → Server → Server
cleanup_sessions now s = record s {
  sessions = live_sessions now s.addr_timeout s.client_timeout s.sessions;
}

-- The rest of cleanup, which takes the lock of the routes, the deduplicator and the pool in turn.
abbrev pub cleanup_ended : ℕ → List (ℕ × ℕ) → Server → Server
cleanup_ended now ended s = expire_pool now (end_sessions now ended s)

-- A cleanup with no other handler between the two.
unfoldable pub cleanup : ℕ → Server → Server
unfolding live_sessions ended_sessions end_sessions expire_pool
cleanup now s =
    let ended = ended_sessions now s.addr_timeout s.client_timeout s.sessions in
    cleanup_ended now ended (cleanup_sessions now s)

-- deleteClient while it holds `sessionsLock`, and the rest of it.
abbrev pub take_session : ℕ → Server → Server
take_session id s = record s { sessions = delete id s.sessions }

unfoldable pub forget_client : ℕ → ℕ → Server → Server
unfolding save_ip_pool
forget_client id ip s = save_ip_pool (record s {
  route_table = delete ip s.route_table;
  dedup = reset s.dedup id;
  ip_pool = delete id s.ip_pool;
  ip_pool_names = delete id s.ip_pool_names;
})

-- A deletion with no other handler between the two. The error of a missing client is `none`.
unfoldable pub delete_client : ℕ → Server → Option Server
unfolding forget_client
delete_client id s = elim (lookup id s.sessions) [
  | none ↦ none
  | some sess ↦ some (forget_client id sess.virtual_ip (take_session id s))
]
