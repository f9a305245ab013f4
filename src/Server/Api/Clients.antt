-- ===== src/Server/Api/Clients.antt =====
-- server/web.go, the handlers of /api/clients/ and /api/devices/: their status codes, that they agree,
-- and what a deletion leaves.
use mpfpv.Base.{
  delete, Bool-cases, Option-cases, ◌==◌, ℕ, ◌≡◌, ◌≢◌, refl, ◌∙◌, arith, inl, inr, ◌⊎◌, true,
  if◌then◌else◌, List, ◌++◌, Option, none, some, lookup, has_key, lookup-delete,
}
use mpfpv.Base.Bytes.{Bytes, codes}
use mpfpv.Base.Text.{parse_uint16, trim_slash}
use mpfpv.Server.State.{session_ips, Session, Server, save_ip_pool}
use mpfpv.Server.Cleanup.{take_session, forget_client, delete_client}
use mpfpv.Dedup.{reset}
use mpfpv.Server.Addressing.{unique_address}
use mpfpv.Server.Invariant.Same.{Inv, lookup-session_ips, lookup-session_ips-none}
use mpfpv.Server.Web.{get_client}
use mpfpv.Server.Api.{
  Method, get_method, post_method, delete_method, other_method, Request, endpoint_of, path_id,
  clients_path, devices_path, deleted, shown, client_request, Env, serve, handle_request,
}
use mpfpv.Server.Api.Requests.{device_as_client, handle_request-Inv}

-- The code by the method, the id that the path names and the sessions.
abbrev pub expected_code : Method → Option ℕ → List (ℕ × Session) → ℕ
expected_code m none sessions = 400
expected_code get_method (some id) sessions = if has_key id sessions then 200 else 404
expected_code delete_method (some id) sessions = if has_key id sessions then 200 else 404
expected_code post_method (some id) sessions = 405
expected_code other_method (some id) sessions = 405

get_client-code :
    (missing : Bytes) (now id : ℕ) (s : Server)
    → (shown missing (get_client now id s)).code ≡ (if has_key id s.sessions then 200 else 404)
unfolding get_client
get_client-code missing now id s = ground arith

delete_client-code :
    (id : ℕ) (s : Server)
    → (deleted id s (delete_client id s)).1.code ≡ (if has_key id s.sessions then 200 else 404)
unfolding delete_client
delete_client-code id s = ground arith

client_request-code :
    (now : ℕ) (m : Method) (o : Option ℕ) (s : Server)
    → (client_request now m o s).1.code ≡ expected_code m o s.sessions
unfolding client_request
client_request-code now m none s = refl
client_request-code now get_method (some id) s = get_client-code (codes "client not found") now id s
client_request-code now delete_method (some id) s = delete_client-code id s
client_request-code now post_method (some id) s = refl
client_request-code now other_method (some id) s = refl

-- A path of one of the two handlers, with its rest.
abbrev pub Names : Bytes → Bytes → Type 0
Names path tail = (path ≡ clients_path ++ tail) ⊎ (path ≡ devices_path ++ tail)

-- A request for one client, under /api/clients/ or /api/devices/, is answered with 400 if the rest of its path
-- is no 16-bit number, and otherwise with 200 or 404 to GET and DELETE, as the client has a session or not,
-- and with 405 to every other method.
pub client_answers :
    (e : Env) (now : ℕ) (r : Request) (s : Server) (tail : Bytes)
    → Names r.path tail
    → (handle_request e now r s).1.code
      ≡ expected_code r.method (parse_uint16 (trim_slash tail)) s.sessions
unfolding handle_request serve endpoint_of path_id
client_answers e now r s tail (inl path) = rw path (client_request-code now r.method _ s)
client_answers e now r s tail (inr path) =
    let id = parse_uint16 (trim_slash tail) in
    let (_, same, _) = device_as_client now r.method id s in
    rw path (same ∙ client_request-code now r.method id s)

-- Of a request that asks for one client under /api/devices/ the effect is the same as under
-- /api/clients/, and so is the answer, but for the text of errors 400 and 404.
pub devices_as_clients :
    (e : Env) (now : ℕ) (r : Request) (s : Server) (tail : Bytes)
    → let a = handle_request e now (record r { path = clients_path ++ tail }) s in
      let b = handle_request e now (record r { path = devices_path ++ tail }) s in
      (b.0 ≡ a.0) × (b.1.code ≡ a.1.code) × ((b.1 ≡ a.1) ⊎ ((a.1.code ≡ 400) ⊎ (a.1.code ≡ 404)))
unfolding handle_request serve endpoint_of path_id
devices_as_clients e now r s tail = device_as_client now r.method (parse_uint16 (trim_slash tail)) s

-- What a deletion leaves: the client has nothing, and every other client all that it had.
pub record Left (id : ℕ) (s t : Server) : Type 0 where
  pub sessions : (d : ℕ) → lookup d t.sessions ≡ (if id == d then none else lookup d s.sessions)
  pub pool : (d : ℕ) → lookup d t.ip_pool ≡ (if id == d then none else lookup d s.ip_pool)
  pub names :
      (d : ℕ) → lookup d t.ip_pool_names ≡ (if id == d then none else lookup d s.ip_pool_names)
  pub windows :
      (d : ℕ) → lookup d t.dedup.clients ≡ (if id == d then none else lookup d s.dedup.clients)
  pub other_routes :
      (d ip : ℕ) → d ≢ id → lookup ip s.route_table ≡ some d → lookup ip t.route_table ≡ some d
  pub same_config : (t.cfg ≡ s.cfg) × (t.team_key_hash ≡ s.team_key_hash)

-- The route of another client leads by another address.
kept_route :
    (id d ip : ℕ) (s : Server) (x : Session)
    → Inv s
    → lookup id s.sessions ≡ some x
    → d ≢ id
    → lookup ip s.route_table ≡ some d
    → lookup ip (delete x.virtual_ip s.route_table) ≡ some d
kept_route id d ip s x v there other h =
    let (its_ip, nonzero) = v.addressing.owned d ip h in
    let own = lookup-session_ips id s.sessions x there in
    elim (Bool-cases (x.virtual_ip == ip)) [
      | inl same ↦
          let here : lookup id (session_ips s.sessions) ≡ some ip = ground (arith, own) in
          absurd (other (unique_address v.addressing d id ip its_ip here nonzero))
      | inr apart ↦ ground (arith, lookup-delete x.virtual_ip ip s.route_table)
    ]

forget_client-Left :
    (id : ℕ) (s : Server) (x : Session)
    → Inv s
    → lookup id s.sessions ≡ some x
    → Left id s (forget_client id x.virtual_ip (take_session id s))
unfolding forget_client save_ip_pool reset
forget_client-Left id s x v there = record {
  sessions = λ d. ground (arith, lookup-delete id d s.sessions);
  pool = λ d. ground (arith, lookup-delete id d s.ip_pool);
  names = λ d. ground (arith, lookup-delete id d s.ip_pool_names);
  windows = λ d. ground (arith, lookup-delete id d s.dedup.clients);
  other_routes = λ d ip other e. ground (arith, kept_route id d ip s x v there other e);
  same_config = (ground arith, ground arith);
}

delete_client-Left :
    (id : ℕ) (s : Server)
    → Inv s
    → has_key id s.sessions ≡ true
    → Left id s (deleted id s (delete_client id s)).0
unfolding delete_client
delete_client-Left id s v h = elim (Option-cases (lookup id s.sessions)) [
  | inl gone ↦ absurd (ground (arith, gone))
  | inr (x, there) ↦ rw (there, deleted) (forget_client-Left id s x v there)
]

no_route :
    (id ip : ℕ) (t : Server)
    → lookup id t.sessions ≡ none
    → Inv t
    → lookup ip t.route_table ≢ some id
no_route id ip t gone w h =
    let owner = (w.addressing.owned id ip h).0 in
    let nobody = lookup-session_ips-none id t.sessions gone in cc

missing_code :
    (m : Method) (id : ℕ) (t : Server)
    → lookup id t.sessions ≡ none
    → (m ≡ get_method) ⊎ (m ≡ delete_method)
    → expected_code m (some id) t.sessions ≡ 404
missing_code m id t gone (inl get) = rw get (ground (arith, gone))
missing_code m id t gone (inr del) = rw del (ground (arith, gone))

after_delete :
    (e : Env) (now : ℕ) (r : Request) (s : Server) (tail : Bytes) (id : ℕ)
    → Names r.path tail
    → parse_uint16 (trim_slash tail) ≡ some id
    → r.method ≡ delete_method
    → has_key id s.sessions ≡ true
    → Inv s
    → Left id s (handle_request e now r s).0
unfolding handle_request serve endpoint_of path_id client_request
after_delete e now r s tail id (inl path) parsed deletes present v =
    rw (path, parsed, deletes) (delete_client-Left id s v present)
after_delete e now r s tail id (inr path) parsed deletes present v =
    rw (path, parsed, deletes) (delete_client-Left id s v present)

-- On a server whose addresses are in order, a request to delete a client that has a session, with no other
-- handler before it is done, takes this client's session, pool entry, name and deduplication window, and
-- those of no other client. No route leads to the client any more; the routes to others, the configuration and
-- the key stay. A GET or a second DELETE of the client that follows, under either path, is answered
-- with 404.
pub deleted_is_gone :
    (e e' : Env) (now later : ℕ) (r r' : Request) (s : Server) (tail tail' : Bytes) (id : ℕ)
    → Inv s
    → Names r.path tail
    → parse_uint16 (trim_slash tail) ≡ some id
    → r.method ≡ delete_method
    → has_key id s.sessions ≡ true
    → Names r'.path tail'
    → parse_uint16 (trim_slash tail') ≡ some id
    → (r'.method ≡ get_method) ⊎ (r'.method ≡ delete_method)
    → let t = (handle_request e now r s).0 in
      Left id s t
      × ((ip : ℕ) → lookup ip t.route_table ≢ some id)
      × ((handle_request e' later r' t).1.code ≡ 404)
deleted_is_gone e e' now later r r' s tail tail' id v names parsed deletes present names' parsed'
      m =
    let t = (handle_request e now r s).0 in
    let w : Inv t = handle_request-Inv e now r s v in
    let left = after_delete e now r s tail id names parsed deletes present v in
    let gone : lookup id t.sessions ≡ none = left.sessions id ∙ ground arith in
    (
      left,
      λ ip h. no_route id ip t gone w h,
      client_answers e' later r' t tail' names' ∙ rw parsed' (missing_code r'.method id t gone m),
    )
