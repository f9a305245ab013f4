-- ===== src/Server/Api/ConnString.antt =====
-- server/web.go, the handler of /api/connection-string, and config/config.go, FromConnString: the text
-- that the server hands out is the one a client reads.
use mpfpv.Base.{
  ℕ, ◌≡◌, refl, ap, ◌∙◌, arith, Bool, true, false, ◌==◌, ◌&&◌, ◌||◌, leb, [], ◌∷◌, ◌++◌, Option,
  some, All,
}
use mpfpv.Base.Bytes.{Bytes, codes, is_empty}
use mpfpv.Base.Results.{ok}
use mpfpv.Config.{Url, conn_config, from_conn_string}
use mpfpv.Protocol.Wire.{team_key_hash}
use mpfpv.Server.State.{Server}
use mpfpv.Server.Web.{update_server_config}
use mpfpv.Server.Web.Change.{update_server_config_lem}
use mpfpv.Server.Api.{
  Env, ConfigInfo, Request, conn_string, get_method, post_method, host_or, host_part, port_part,
  or_port, conn_string_of, endpoint_of, config_request, serve, handle_request,
}
use mpfpv.Server.Api.Requests.{posted-server}

abbrev pub conn_string_path : Bytes
conn_string_path = codes "/api/connection-string"

-- A byte that a URL takes as it is, in a user and in a host.
abbrev pub is_plain : ℕ → Bool
is_plain b =
    (leb b'a' b && leb b b'z')
    || ((leb b'A' b && leb b b'Z') || ((leb b'0' b && leb b b'9') || (b == b'-' || b == b'.')))

abbrev pub IsPlain : Bytes → Type 0
IsPlain = All (λ b. is_plain b ≡ true)

abbrev pub IsPort : Bytes → Type 0
IsPort = All (λ b. (leb b'0' b && leb b b'9') ≡ true)

abbrev pub host_port : Bytes → Bytes → Bytes
host_port host port = host ++ (b':' ∷ port)

-- url.Parse on a user, a host and a port that need no escaping.
abbrev pub ParsesUrls : (Bytes → Option Url) → Type 0
ParsesUrls url_parse =
    (user host port : Bytes)
    → IsPlain user
    → IsPlain host
    → IsPort port
    → url_parse (codes "mpfpv://" ++ (user ++ (b'@' ∷ host_port host port)))
      ≡ some (record { username = user; host = host_port host port })

host_port-is_empty : (host port : Bytes) → is_empty (host_port host port) ≡ false
host_port-is_empty [] port = refl
host_port-is_empty (b ∷ host) port = refl

or_port-IsPort : (p : Bytes) → IsPort p → IsPort (or_port p)
or_port-IsPort [] h = ground arith
or_port-IsPort (b ∷ p) h = h

-- If the key, the host of the request and the port of the listening address need no escaping in a URL, a
-- GET of the connection string is answered with a text from which FromConnString makes a client's
-- configuration with this key, for the host by which the server was asked and the port on which it
-- listens (9800 if the address has none).
pub conn_string-from_conn_string :
    (url_parse : Bytes → Option Url) (e : Env) (now : ℕ) (r : Request) (s : Server)
    (host port : Bytes)
    → ParsesUrls url_parse
    → r.path ≡ conn_string_path
    → r.method ≡ get_method
    → host_part e.split_host_port (host_or r.host e.listen_addr) ≡ host
    → port_part e.split_host_port e.listen_addr ≡ port
    → IsPlain e.team_key
    → IsPlain host
    → IsPort port
    → (text : Bytes) × ((handle_request e now r s).1.body ≡ conn_string text)
      × (from_conn_string url_parse e.split_host_port text
          ≡ ok (conn_config (e.team_key, host_port host (or_port port))))
unfolding handle_request serve endpoint_of conn_string_of from_conn_string
conn_string-from_conn_string url_parse e now r s host port parse path get its_host its_port k h p =
    (
      conn_string_of e.split_host_port e.team_key e.listen_addr r.host,
      rw (path, get) refl,
      rw
          (
            its_host,
            its_port,
            parse e.team_key host (or_port port) k h (or_port-IsPort port p),
            host_port-is_empty host (or_port port),
          )
          refl,
    )

posted_key :
    (e : Env) (now : ℕ) (r : Request) (s : Server) (c : ConfigInfo)
    → s.team_key_hash ≡ team_key_hash e.sha256 s.cfg.team_key
    → r.path ≡ codes "/api/server-config"
    → r.method ≡ post_method
    → e.decode r.body ≡ ok c
    → is_empty c.team_key ≡ false
    → let t = (handle_request e now r s).0 in
      (t.team_key_hash ≡ team_key_hash e.sha256 c.team_key) × (t.cfg.team_key ≡ c.team_key)
unfolding handle_request serve endpoint_of config_request
posted_key e now r s c hash path post body new =
    let (h, n, _, _, _) =
      update_server_config_lem e.sha256 e.save_ok c.team_key c.listen_addr s hash in
    let t = (update_server_config e.sha256 e.save_ok c.team_key c.listen_addr s).0 in
    let named : t.cfg.team_key ≡ c.team_key = ground (arith, n, new) in
    rw (path, post, body, posted-server e.save_error) (h ∙ ap (team_key_hash e.sha256) named, named)

conn_string_fixed :
    (e : Env) (now : ℕ) (r : Request) (s t : Server)
    → r.path ≡ conn_string_path
    → (handle_request e now r t).1 ≡ (handle_request e now r s).1
unfolding handle_request serve endpoint_of
conn_string_fixed e now r s t path = rw path refl

-- After a request that changes the team key, the server takes heartbeats with the new key only, but its
-- connection string stays the one with the key that StartWebUI was given.
pub conn_string_stale :
    (e : Env) (now later : ℕ) (r r' : Request) (s : Server) (c : ConfigInfo)
    → s.team_key_hash ≡ team_key_hash e.sha256 s.cfg.team_key
    → r.path ≡ codes "/api/server-config"
    → r.method ≡ post_method
    → e.decode r.body ≡ ok c
    → is_empty c.team_key ≡ false
    → r'.path ≡ conn_string_path
    → let t = (handle_request e now r s).0 in
      (t.team_key_hash ≡ team_key_hash e.sha256 c.team_key)
      × (t.cfg.team_key ≡ c.team_key)
      × ((handle_request e later r' t).1 ≡ (handle_request e later r' s).1)
conn_string_stale e now later r r' s c hash path post body new path' =
    let (hashed, named) = posted_key e now r s c hash path post body new in
    (hashed, named, conn_string_fixed e later r' s (handle_request e now r s).0 path')
