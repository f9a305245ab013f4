-- ===== src/Command/HandedOut.antt =====
-- server/web.go and client/cmd: a client that is started with the connection string of a server.
use mpfpv.Base.{ℕ, ◌≡◌, refl, sym, ap, ◌∙◌, [], ◌∷◌}
use mpfpv.Base.Bytes.{Bytes}
use mpfpv.Base.Results.{ok}
use mpfpv.Config.{conn_config, from_conn_string}
use mpfpv.Protocol.Wire.{team_key_hash}
use mpfpv.Server.State.{Server}
use mpfpv.Server.Api.{
  Env, Request, conn_string, get_method, host_or, host_part, port_part, or_port, handle_request,
}
use mpfpv.Server.Api.ConnString.{
  conn_string_path, host_port, IsPlain, IsPort, ParsesUrls, conn_string-from_conn_string,
}
use mpfpv.Client.Handlers.{Client}
use mpfpv.Command.{Outside, client_main}
use mpfpv.Command.Starts.{text_client}

-- Where the server still has the team key with which its web interface was started, and no part of the connection
-- string needs escaping in a URL, a client that is started with the string that the server hands out has
-- the hash of the key that the server asks for.
pub handed_out_key :
    (o : Outside) (e : Env) (now client_id : ℕ) (device_name path host port : Bytes) (r : Request)
    (s : Server)
    → ParsesUrls o.url_parse
    → o.split_host_port ≡ e.split_host_port
    → o.sha256 ≡ e.sha256
    → s.team_key_hash ≡ team_key_hash e.sha256 e.team_key
    → r.path ≡ conn_string_path
    → r.method ≡ get_method
    → host_part e.split_host_port (host_or r.host e.listen_addr) ≡ host
    → port_part e.split_host_port e.listen_addr ≡ port
    → IsPlain e.team_key
    → IsPlain host
    → IsPort port
    → (text : Bytes) × ((handle_request e now r s).1.body ≡ conn_string text)
      × ((c : Client) × (client_main o client_id device_name
              (record { config_path = path; rest = text ∷ [] })
            ≡ ok c)
          × (c.team_key_hash ≡ s.team_key_hash))
handed_out_key o e now client_id device_name path host port r s parses split sha hash asks get h p
      plain_key plain_host plain_port =
    let (text, shown, reads) =
      conn_string-from_conn_string o.url_parse e now r s host port parses asks get h p plain_key
        plain_host plain_port in
    let addr = host_port host (or_port port) in
    let reads' : from_conn_string o.url_parse o.split_host_port text
        ≡ ok (conn_config (e.team_key, addr)) =
      ap (λ f. from_conn_string o.url_parse f text) split ∙ reads in
    let (cc, starts, _) =
      text_client o client_id device_name text e.team_key addr []
        (record { config_path = path; rest = text ∷ [] }) refl reads' in
    (text, shown, (_, starts, ap (λ f. team_key_hash f e.team_key) sha ∙ sym hash))
