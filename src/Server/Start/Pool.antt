-- ===== src/Server/Start/Pool.antt =====
-- server/server.go, New, loadIPPool and saveIPPool: a server starts with its addresses in order if its
-- pool file gives each usable address to one client, and a saved pool whose addresses
-- are read back as they were written is the pool that is loaded again.
use mathlib.Core.Path.{subst}
use mpfpv.Base.{
  ℕ, ◌≡◌, ◌≢◌, refl, sym, ◌∙◌, arith, ◌⊎◌, inl, inr, Bool, true, false, ◌==◌, ◌&&◌, ◌||◌,
  if◌then◌else◌, Option-cases, Bool-cases, List, [], ◌∷◌, Option, none, some, lookup, insert,
  lookup-insert, Distinct,
}
use mpfpv.Base.Bytes.{Bytes, is_empty}
use mpfpv.Base.Results.{ok, bind-ok}
use mpfpv.Config.{Config}
use mpfpv.Server.State.{
  Server, Subnet, IpPoolEntry, pool_entries, name_or_empty, load_entries, load_ip_pool,
}
use mpfpv.Server.Pool.Alloc.{IsSubnet}
use mpfpv.Server.Invariant.Same.{Inv}
use mpfpv.Server.Start.{Cidr, own_ip, parse_subnet, fresh_server, with_config, new_server}

-- Some entry gives the address to the client.
abbrev pub gives : ℕ → ℕ → List (ℕ × Option ℕ × Bytes) → Bool
gives c ip [] = false
gives c ip ((k, none, name) ∷ es) = gives c ip es
gives c ip ((k, some x, name) ∷ es) = (k == c && x == ip) || gives c ip es

-- Each address has one owner, and none is 0 or the server's.
pub record IsPoolFile (server : ℕ) (es : List (ℕ × Option ℕ × Bytes)) : Type 0 where
  pub one_owner : (c d ip : ℕ) → gives c ip es ≡ true → gives d ip es ≡ true → c ≡ d
  pub usable : (c ip : ℕ) → gives c ip es ≡ true → (ip ≢ 0) × (ip ≢ server)

abbrev pub entries_of : Option (List (ℕ × Option ℕ × Bytes)) → List (ℕ × Option ℕ × Bytes)
entries_of none = []
entries_of (some es) = es

-- Loading changes the pool and its names alone.
record Loaded (s t : Server) (es : List (ℕ × Option ℕ × Bytes)) : Type 0 where
  same_sessions : t.sessions ≡ s.sessions
  same_routes : t.route_table ≡ s.route_table
  same_server : t.server_virtual_ip ≡ s.server_virtual_ip
  same_subnet : t.subnet ≡ s.subnet
  from_file :
      (c ip : ℕ)
      → lookup c t.ip_pool ≡ some ip
      → (lookup c s.ip_pool ≡ some ip) ⊎ (gives c ip es ≡ true)

load_entries-Loaded :
    (es : List (ℕ × Option ℕ × Bytes)) (s : Server) → Loaded s (load_entries es s) es
load_entries-Loaded [] s = record {
  same_sessions = refl;
  same_routes = refl;
  same_server = refl;
  same_subnet = refl;
  from_file = λ c ip e. inl e;
}
load_entries-Loaded ((k, none, name) ∷ es) s =
    let l = load_entries-Loaded es s in
    record {
      same_sessions = l.same_sessions;
      same_routes = l.same_routes;
      same_server = l.same_server;
      same_subnet = l.same_subnet;
      from_file = l.from_file;
    }
load_entries-Loaded ((k, some x, name) ∷ es) s =
    let u = record s {
      ip_pool = insert k x s.ip_pool;
      ip_pool_names = if is_empty name then s.ip_pool_names else insert k name s.ip_pool_names;
    } in
    let l = load_entries-Loaded es u in
    record {
      same_sessions = l.same_sessions;
      same_routes = l.same_routes;
      same_server = l.same_server;
      same_subnet = l.same_subnet;
      from_file = λ c ip e. ground (arith, l.from_file c ip e, lookup-insert k c x s.ip_pool);
    }

load_ip_pool-Loaded :
    (file : Option (List (ℕ × Option ℕ × Bytes))) (s : Server)
    → Loaded s (load_ip_pool file s) (entries_of file)
unfolding load_ip_pool
load_ip_pool-Loaded none s = load_entries-Loaded [] s
load_ip_pool-Loaded (some es) s = elim (Bool-cases (is_empty s.ip_pool_file)) [
  | inl unnamed ↦ rw unnamed (record {
    same_sessions = refl;
    same_routes = refl;
    same_server = refl;
    same_subnet = refl;
    from_file = λ c ip e. inl e;
  })
  | inr named ↦ rw named (load_entries-Loaded es s)
]

-- A server with no session and no route is in order if its pool is.
Loaded-Inv :
    (es : List (ℕ × Option ℕ × Bytes)) (s t : Server)
    → s.sessions ≡ []
    → s.route_table ≡ []
    → s.ip_pool ≡ []
    → ((n : Subnet) → s.subnet ≡ some n → IsSubnet n)
    → Loaded s t es
    → IsPoolFile t.server_virtual_ip es
    → Inv t
Loaded-Inv es s t no_sessions no_routes no_pool valid l f =
    let sessions : t.sessions ≡ [] = l.same_sessions ∙ no_sessions in
    let routes : t.route_table ≡ [] = l.same_routes ∙ no_routes in
    let given : (c ip : ℕ) → lookup c t.ip_pool ≡ some ip → gives c ip es ≡ true =
      λ c ip e. ground (arith, l.from_file c ip e) in
    record {
      addressing =
          rw (sessions, routes)
            (record {
              distinct = tt;
              routed = λ c ip e n. cc;
              owned = λ c ip e. cc;
              not_server = λ c ip e n. cc;
              pool_apart = λ c d ip e h. f.one_owner c d ip (given c ip e) (given d ip h);
              pool_usable = λ c ip e. f.usable c ip (given c ip e);
              reserved = λ c d ip e h. cc;
            });
      subnet_valid = λ n e. valid n (sym l.same_subnet ∙ e);
    }

parse_subnet-IsSubnet :
    (parse_cidr : Bytes → Option Cidr) (text : Bytes) (o : Option Subnet) (n : Subnet)
    → ((t : Bytes) (c : Cidr) → parse_cidr t ≡ some c → IsSubnet c.network)
    → parse_subnet parse_cidr text ≡ ok o
    → o ≡ some n
    → IsSubnet n
parse_subnet-IsSubnet parse_cidr text o n networks e there = elim (Option-cases (parse_cidr text)) [
  | inl bad ↦ ground arith
  | inr (c, parsed) ↦ let v = networks text c parsed in ground arith
]

-- A new server has its addresses in order, provided that its pool file gives no address to two clients,
-- and neither 0 nor the server's own to any, and that the parser's networks lie within 32 bits.
pub new_server-Inv :
    (sha256 : Bytes → Bytes) (parse_cidr : Bytes → Option Cidr)
    (file : Option (List (ℕ × Option ℕ × Bytes))) (cfg : Config) (s : Server)
    → ((t : Bytes) (c : Cidr) → parse_cidr t ≡ some c → IsSubnet c.network)
    → new_server sha256 parse_cidr file cfg ≡ ok s
    → IsPoolFile s.server_virtual_ip (entries_of file)
    → Inv s
unfolding new_server
new_server-Inv sha256 parse_cidr file cfg s networks e f = elim (Option-cases cfg.server) [
  | inl absent ↦ ground arith
  | inr (sc, there) ↦
      let made : with_config sha256 parse_cidr file cfg (some sc) ≡ ok s =
        subst (λ o. with_config sha256 parse_cidr file cfg o ≡ ok s) there e in
      let (own, rest, _) = bind-ok (own_ip (parse_cidr sc.virtual_ip)) _ s made in
      let (subnet, done, parsed) = bind-ok (parse_subnet parse_cidr sc.subnet) _ s rest in
      let start : Server = fresh_server sha256 cfg sc own subnet in
      let same : load_ip_pool file start ≡ s = ground arith in
      subst Inv same (
        Loaded-Inv (entries_of file) start (load_ip_pool file start) refl refl refl
          (λ n h. parse_subnet-IsSubnet parse_cidr sc.subnet subnet n networks parsed h)
          (load_ip_pool-Loaded file start) (rw same f))
]

-- A saved file as it is read again.
abbrev pub as_read : List IpPoolEntry → List (ℕ × Option ℕ × Bytes)
as_read [] = []
as_read (e ∷ es) = (e.client_id, some e.ip, e.name) ∷ as_read es

abbrev or_else : Option ℕ → Option ℕ → Option ℕ
or_else none o = o
or_else (some x) o = some x

reloaded :
    (names : List (ℕ × Bytes)) (pool : List (ℕ × ℕ)) (c : ℕ) (s : Server)
    → Distinct pool
    → lookup c (load_entries (as_read (pool_entries names pool)) s).ip_pool
      ≡ or_else (lookup c pool) (lookup c s.ip_pool)
reloaded names [] c s d = refl
reloaded names ((k, x) ∷ pool) c s d =
    let name = name_or_empty (lookup k names) in
    let u = record s {
      ip_pool = insert k x s.ip_pool;
      ip_pool_names = if is_empty name then s.ip_pool_names else insert k name s.ip_pool_names;
    } in
    reloaded names pool c u d.1 ∙ ground (arith, lookup-insert k c x s.ip_pool)

-- If each address that saveIPPool writes is read back as itself, then what it writes of a pool that lists no
-- client twice, a server with an empty pool and a pool file loads as the same pool.
pub load-save_pool :
    (names : List (ℕ × Bytes)) (pool : List (ℕ × ℕ)) (c : ℕ) (s : Server)
    → Distinct pool
    → s.ip_pool ≡ []
    → is_empty s.ip_pool_file ≡ false
    → lookup c (load_ip_pool (some (as_read (pool_entries names pool))) s).ip_pool ≡ lookup c pool
unfolding load_ip_pool
load-save_pool names pool c s d empty named = rw named (reloaded names pool c s d ∙ ground arith)
