-- ===== src/Server/Api/Requests.antt =====
-- server/web.go, registerRoutes: what a request may change, what it is answered, and the two copies of
-- the client handlers.
use mathlib.Core.Path.{subst}
use mpfpv.Base.{ℕ, ◌≡◌, ◌≢◌, refl, sym, ◌∙◌, inl, inr, ◌⊎◌, Bool, true, false, Option, none, some}
use mpfpv.Base.Bytes.{Bytes, codes}
use mpfpv.Base.Results.{Result, ok, err}
use mpfpv.Server.State.{Server}
use mpfpv.Server.Cleanup.{delete_client}
use mpfpv.Server.Invariant.Same.{Inv, Same-Inv}
use mpfpv.Server.Invariant.Ending.{delete_client-Inv}
use mpfpv.Server.Web.{ClientDetail, get_client}
use mpfpv.Server.Web.Change.{update_server_config-Same}
use mpfpv.Server.Api.{
  Method, get_method, post_method, delete_method, other_method, Request, Response, Endpoint,
  clients_endpoint, client_endpoint, routes_endpoint, stats_endpoint, conn_string_endpoint,
  devices_endpoint, device_endpoint, config_endpoint, file_endpoint, endpoint_of, deleted, shown,
  path_id, devices_path, client_request, device_request, Env, ConfigInfo, posted, post_config,
  config_request, serve, handle_request,
}

shown_texts :
    (missing missing' : Bytes) (s : Server) (o : Option ClientDetail)
    → (s ≡ s)
      × ((shown missing' o).code ≡ (shown missing o).code)
      × ((shown missing' o ≡ shown missing o)
          ⊎ (((shown missing o).code ≡ 400) ⊎ ((shown missing o).code ≡ 404)))
shown_texts missing missing' s none = (refl, refl, inr (inr refl))
shown_texts missing missing' s (some d) = (refl, refl, inl refl)

-- The two handlers of one client agree but for the text of errors 400 and 404.
pub device_as_client :
    (now : ℕ) (m : Method) (o : Option ℕ) (s : Server)
    → let a = client_request now m o s in
      let b = device_request now m o s in
      (b.0 ≡ a.0) × (b.1.code ≡ a.1.code) × ((b.1 ≡ a.1) ⊎ ((a.1.code ≡ 400) ⊎ (a.1.code ≡ 404)))
unfolding client_request device_request
device_as_client now m none s = (refl, refl, inr (inl refl))
device_as_client now get_method (some id) s =
    shown_texts (codes "client not found") (codes "not found") s (get_client now id s)
device_as_client now delete_method (some id) s = (refl, refl, inl refl)
device_as_client now post_method (some id) s = (refl, refl, inl refl)
device_as_client now other_method (some id) s = (refl, refl, inl refl)

deleted-Inv :
    (id : ℕ) (s : Server) (o : Option Server)
    → delete_client id s ≡ o
    → Inv s
    → Inv (deleted id s o).0
deleted-Inv id s none e v = v
deleted-Inv id s (some t) e v = delete_client-Inv id s t v e

client_request-Inv :
    (now : ℕ) (m : Method) (o : Option ℕ) (s : Server) → Inv s → Inv (client_request now m o s).0
unfolding client_request
client_request-Inv now m none s v = v
client_request-Inv now get_method (some id) s v = v
client_request-Inv now delete_method (some id) s v = deleted-Inv id s (delete_client id s) refl v
client_request-Inv now post_method (some id) s v = v
client_request-Inv now other_method (some id) s v = v

-- A configuration that cannot be saved is kept all the same.
pub posted-server : (why : Bytes) (r : Server × Bool) → (posted why r).0 ≡ r.0
posted-server why (t, true) = refl
posted-server why (t, false) = refl

post_config-Inv :
    (e : Env) (d : Result Bytes ConfigInfo) (s : Server) → Inv s → Inv (post_config e d s).0
post_config-Inv e (err why) s v = v
post_config-Inv e (ok c) s v =
    subst Inv (sym (posted-server e.save_error _))
      (Same-Inv (update_server_config-Same e.sha256 e.save_ok c.team_key c.listen_addr s) v)

config_request-Inv :
    (e : Env) (m : Method) (body : Bytes) (s : Server) → Inv s → Inv (config_request e m body s).0
unfolding config_request
config_request-Inv e get_method body s v = v
config_request-Inv e post_method body s v = post_config-Inv e (e.decode body) s v
config_request-Inv e delete_method body s v = v
config_request-Inv e other_method body s v = v

serve-Inv :
    (e : Env) (now : ℕ) (r : Request) (ep : Endpoint) (s : Server)
    → Inv s
    → Inv (serve e now r ep s).0
unfolding serve
serve-Inv e now r clients_endpoint s v = v
serve-Inv e now r client_endpoint s v = client_request-Inv now r.method _ s v
serve-Inv e now r routes_endpoint s v = v
serve-Inv e now r stats_endpoint s v = v
serve-Inv e now r conn_string_endpoint s v = v
serve-Inv e now r devices_endpoint s v = v
serve-Inv e now r device_endpoint s v =
    let id = path_id devices_path r.path in
    subst Inv (sym (device_as_client now r.method id s).0) (client_request-Inv now r.method id s v)
serve-Inv e now r config_endpoint s v = config_request-Inv e r.method r.body s v
serve-Inv e now r file_endpoint s v = v

-- Every request keeps the virtual IPs in order.
pub handle_request-Inv :
    (e : Env) (now : ℕ) (r : Request) (s : Server) → Inv s → Inv (handle_request e now r s).0
unfolding handle_request
handle_request-Inv e now r s v = serve-Inv e now r (endpoint_of r.path) s v

-- Nothing but an answer that says so changes the server.
abbrev IsError : Response → Type 0
IsError a = (a.code ≢ 200) × (a.code ≢ 500)

deleted_refused :
    (id : ℕ) (s : Server) (o : Option Server) → IsError (deleted id s o).1 → (deleted id s o).0 ≡ s
deleted_refused id s none h = refl
deleted_refused id s (some t) h = absurd (h.0 refl)

client_request_refused :
    (now : ℕ) (m : Method) (o : Option ℕ) (s : Server)
    → IsError (client_request now m o s).1
    → (client_request now m o s).0 ≡ s
unfolding client_request
client_request_refused now m none s h = refl
client_request_refused now get_method (some id) s h = refl
client_request_refused now delete_method (some id) s h = deleted_refused id s (delete_client id s) h
client_request_refused now post_method (some id) s h = refl
client_request_refused now other_method (some id) s h = refl

posted_refused :
    (s : Server) (why : Bytes) (r : Server × Bool) → IsError (posted why r).1 → (posted why r).0 ≡ s
posted_refused s why (t, true) h = absurd (h.0 refl)
posted_refused s why (t, false) h = absurd (h.1 refl)

post_config_refused :
    (e : Env) (d : Result Bytes ConfigInfo) (s : Server)
    → IsError (post_config e d s).1
    → (post_config e d s).0 ≡ s
post_config_refused e (err why) s h = refl
post_config_refused e (ok c) s h = posted_refused s e.save_error _ h

config_request_refused :
    (e : Env) (m : Method) (body : Bytes) (s : Server)
    → IsError (config_request e m body s).1
    → (config_request e m body s).0 ≡ s
unfolding config_request
config_request_refused e get_method body s h = refl
config_request_refused e post_method body s h = post_config_refused e (e.decode body) s h
config_request_refused e delete_method body s h = refl
config_request_refused e other_method body s h = refl

serve_refused :
    (e : Env) (now : ℕ) (r : Request) (ep : Endpoint) (s : Server)
    → IsError (serve e now r ep s).1
    → (serve e now r ep s).0 ≡ s
unfolding serve config_request
serve_refused e now r clients_endpoint s h = refl
serve_refused e now r client_endpoint s h = client_request_refused now r.method _ s h
serve_refused e now r routes_endpoint s h = refl
serve_refused e now r stats_endpoint s h = refl
serve_refused e now r conn_string_endpoint s h = refl
serve_refused e now r devices_endpoint s h = refl
serve_refused e now r device_endpoint s h =
    let id = path_id devices_path r.path in
    let (effect, code, _) = device_as_client now r.method id s in
    effect ∙ client_request_refused now r.method id s (λ c. h.0 (code ∙ c), λ c. h.1 (code ∙ c))
serve_refused e now r config_endpoint s h = config_request_refused e r.method r.body s h
serve_refused e now r file_endpoint s h = refl

-- A GET reads only.
client_request-get :
    (now : ℕ) (o : Option ℕ) (s : Server) → (client_request now get_method o s).0 ≡ s
unfolding client_request
client_request-get now none s = refl
client_request-get now (some id) s = refl

serve-get :
    (e : Env) (now : ℕ) (r : Request) (ep : Endpoint) (s : Server)
    → r.method ≡ get_method
    → (serve e now r ep s).0 ≡ s
unfolding serve config_request
serve-get e now r clients_endpoint s h = refl
serve-get e now r client_endpoint s h = rw h (client_request-get now _ s)
serve-get e now r routes_endpoint s h = refl
serve-get e now r stats_endpoint s h = refl
serve-get e now r conn_string_endpoint s h = refl
serve-get e now r devices_endpoint s h = refl
serve-get e now r device_endpoint s h =
    let id = path_id devices_path r.path in
    rw h ((device_as_client now get_method id s).0 ∙ client_request-get now id s)
serve-get e now r config_endpoint s h = rw h refl
serve-get e now r file_endpoint s h = refl

-- A GET leaves the server as it is, and so does every request that is answered with an error, other than
-- a configuration that was taken over but could not be saved (code 500).
pub handle_request-unchanged :
    (e : Env) (now : ℕ) (r : Request) (s : Server)
    → (r.method ≡ get_method)
      ⊎ (((handle_request e now r s).1.code ≢ 200) × ((handle_request e now r s).1.code ≢ 500))
    → (handle_request e now r s).0 ≡ s
unfolding handle_request
handle_request-unchanged e now r s (inl get) = serve-get e now r (endpoint_of r.path) s get
handle_request-unchanged e now r s (inr refused) =
    serve_refused e now r (endpoint_of r.path) s refused
