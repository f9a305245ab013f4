-- ===== src/Server/Api/Tests.antt =====
-- Requests to the web interface of a server with two clients, 7 and 9.
use mathlib.Core.Option
use mpfpv.Base.{
  ℕ, ◌≡◌, ◌≢◌, refl, arith, inl, inr, ◌⊎◌, true, false, ◌==◌, if◌then◌else◌, List, [], ◌∷◌, ◌++◌,
  Option, none, some, lookup, drop,
}
use mpfpv.Base.Bytes.{Bytes, codes, bytes_eq}
use mpfpv.Base.Text.{parse_digits, trim_slash}
use mpfpv.Base.Sorting.{Rearranged, swap, IsSorted}
use mpfpv.Base.Results.{ok}
use mpfpv.Config.{Url, conn_config, from_conn_string}
use mpfpv.Protocol.Wire.{team_key_hash}
use mpfpv.Server.State.{Server}
use mpfpv.Server.Cleanup.{delete_client}
use mpfpv.Server.Tests.{two_clients, two_clients-Inv}
use mpfpv.Server.Api.{
  Method, get_method, post_method, delete_method, Request, Env, conn_string, error, clients_path,
  devices_path, route_infos, route_id, get_routes, endpoint_of, path_id, client_request, serve,
  handle_request,
}
use mpfpv.Server.Api.Requests.{handle_request-unchanged}
use mpfpv.Server.Api.Clients.{Left, client_answers, devices_as_clients, deleted_is_gone}
use mpfpv.Server.Api.Routes.{get_routes_lem}
use mpfpv.Server.Api.ConnString.{
  conn_string_path, host_port, IsPlain, ParsesUrls, conn_string-from_conn_string, conn_string_stale,
}

-- The only address of the tests.
abbrev pub listening : Bytes
listening = codes "0.0.0.0:9800"

abbrev pub split : Bytes → Option (Bytes × Bytes)
split text =
    if bytes_eq text listening
    then some (codes "0.0.0.0", codes "9800")
    else if bytes_eq text (codes "relay:9801")
    then some (codes "relay", codes "9801")
    else none

abbrev pub env : Env
env = record {
  team_key = codes "k";
  listen_addr = listening;
  split_host_port = split;
  decode = λ body. ok (record { team_key = body; listen_addr = [] });
  sha256 = λ text. text;
  save_ok = true;
  save_error = [];
  files = λ path. error 404 [];
}

abbrev pub request : Method → Bytes → Request
request m path = record { method = m; path = path; host = codes "relay:9801"; body = codes "new" }

handle_request-unchanged_example :
    (handle_request env 200 (request delete_method (clients_path ++ codes "8")) two_clients).0
    ≡ two_clients
unfolding handle_request serve endpoint_of path_id client_request parse_digits trim_slash
    delete_client
handle_request-unchanged_example =
    handle_request-unchanged env 200 (request delete_method (clients_path ++ codes "8")) two_clients
      (inr (λ e. omega arith, λ e. omega arith))

client_answers_example :
    (handle_request env 200 (request get_method (devices_path ++ codes "70000")) two_clients).1.code
    ≡ 400
unfolding parse_digits trim_slash
client_answers_example =
    client_answers env 200 (request get_method (devices_path ++ codes "70000")) two_clients
      (codes "70000") (inr refl)

devices_as_clients_example :
    let r = request get_method [] in
    let a = handle_request env 200 (record r { path = clients_path ++ codes "7/" }) two_clients in
    let b = handle_request env 200 (record r { path = devices_path ++ codes "7/" }) two_clients in
    (b.0 ≡ a.0) × (b.1.code ≡ a.1.code) × ((b.1 ≡ a.1) ⊎ ((a.1.code ≡ 400) ⊎ (a.1.code ≡ 404)))
devices_as_clients_example =
    devices_as_clients env 200 (request get_method []) two_clients (codes "7/")

deleted_is_gone_example :
    let t =
      (handle_request env 200 (request delete_method (clients_path ++ codes "7")) two_clients).0 in
    Left 7 two_clients t
    × ((ip : ℕ) → lookup ip t.route_table ≢ some 7)
    × ((handle_request env 300 (request get_method (devices_path ++ codes "7/")) t).1.code ≡ 404)
unfolding parse_digits trim_slash
deleted_is_gone_example =
    deleted_is_gone env env 200 300 (request delete_method (clients_path ++ codes "7"))
      (request get_method (devices_path ++ codes "7/")) two_clients (codes "7") (codes "7/") 7
      two_clients-Inv (inl refl) refl refl refl (inr refl) refl (inl refl)

-- The table read in the other order.
abbrev read_otherwise : List (ℕ × ℕ)
read_otherwise = (0x0a630003, 9) ∷ (0x0a630002, 7) ∷ []

get_routes_lem_example :
    IsSorted route_id (get_routes two_clients)
    × Rearranged (get_routes two_clients) (route_infos two_clients.route_table)
    × (get_routes (record two_clients { route_table = read_otherwise }) ≡ get_routes two_clients)
get_routes_lem_example =
    get_routes_lem two_clients read_otherwise two_clients-Inv (refl, (refl, tt))
      (swap (0x0a630002, 7) (0x0a630003, 9) [])

-- A parser of such URLs: a user up to the first at sign, and the host.
abbrev pub upto_at : Bytes → Option Url
upto_at [] = none
upto_at (b ∷ s) =
    let rest = upto_at s in
    if b == b'@'
    then some (record { username = []; host = s })
    else Option.map (λ (u : Url). record u { username = b ∷ u.username }) rest

abbrev pub parse_url : Bytes → Option Url
parse_url text = upto_at (drop 8 text)

upto_at-plain :
    (user rest : Bytes)
    → IsPlain user
    → upto_at (user ++ (b'@' ∷ rest)) ≡ some (record { username = user; host = rest })
upto_at-plain [] rest h = refl
upto_at-plain (b ∷ user) rest h =
    let other : (b == b'@') ≡ false = ground (arith, h.0) in
    rw (other, upto_at-plain user rest h.1) refl

pub parse_url-ParsesUrls : ParsesUrls parse_url
parse_url-ParsesUrls user host port k h p = upto_at-plain user (host_port host port) k

conn_string-from_conn_string_example :
    (text : Bytes) × ((handle_request env 200
        (request get_method conn_string_path)
        two_clients).1.body
      ≡ conn_string text)
    × (from_conn_string parse_url split text
        ≡ ok (conn_config (codes "k", host_port (codes "relay") (codes "9800"))))
conn_string-from_conn_string_example =
    conn_string-from_conn_string parse_url env 200 (request get_method conn_string_path) two_clients
      (codes "relay") (codes "9800") parse_url-ParsesUrls refl refl refl refl (ground arith)
      (ground arith) (ground arith)

abbrev pub keyed : Server
keyed = record two_clients { team_key_hash = team_key_hash (λ text. text) (codes "k") }

conn_string_stale_example :
    let t = (handle_request env 200 (request post_method (codes "/api/server-config")) keyed).0 in
    (t.team_key_hash ≡ team_key_hash (λ text. text) (codes "new"))
    × (t.cfg.team_key ≡ codes "new")
    × ((handle_request env 300 (request get_method conn_string_path) t).1
        ≡ (handle_request env 300 (request get_method conn_string_path) keyed).1)
conn_string_stale_example =
    conn_string_stale env 200 300 (request post_method (codes "/api/server-config"))
      (request get_method conn_string_path) keyed
      (record { team_key = codes "new"; listen_addr = [] }) refl refl refl refl refl refl
