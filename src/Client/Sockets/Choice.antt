-- ===== src/Client/Sockets/Choice.antt =====
-- client/client.go, Run, and client/transport.go, Start: when a client has one socket, and on which address,
-- and when it has paths, and which.
use mpfpv.Base.{
  ℕ, ◌≡◌, ◌≢◌, refl, ap, sym, ◌∙◌, arith, inl, inr, ◌⊎◌, Bool, true, false, Bool-cases,
  Option-cases, List, [], ◌∷◌, ◌++◌, Option, none, some, lookup, Distinct, All,
}
use mpfpv.Base.Bytes.{Bytes, codes, bytes_eq, bytes_eq_refl, bytes_eq_sound, is_empty, u16}
use mpfpv.Base.Results.{ok, ◌>>=◌, bind-ok}
use mpfpv.Protocol.Wire.{to4}
use mpfpv.Client.Paths.{NetPath}
use mpfpv.Client.Handlers.{Client}
use mpfpv.Client.Interfaces.{IfaceInfo, scan_interfaces, add_path}
use mpfpv.Client.Interfaces.Scan.{scan_interfaces-Distinct}
use mpfpv.Client.Interfaces.Reconcile.{fresh_of, or_else, lookup-add_path}
use mpfpv.Client.Sockets.{
  System, Socket, any_address, on_address, own_paths, first_ip4, resolve_interface_addr,
  listen_any_address, listen_on_address, is_loopback, is_v4, add_each, not_excluded, first_paths,
  central_port, without_interface, open_sockets,
}

abbrev pub ip4_of : Option Bytes → Option Bytes
ip4_of none = none
ip4_of (some ip) = to4 ip

-- The first address of the list that is an IPv4 one.
pub record IsFirstV4 (ips : List (Option Bytes)) (ip : Bytes) : Type 0 where
  pub earlier : List (Option Bytes)
  pub found : Option Bytes
  pub later : List (Option Bytes)
  pub split : ips ≡ earlier ++ (found ∷ later)
  pub is_v4 : ip4_of found ≡ some ip
  pub none_before : All (λ o. ip4_of o ≡ none) earlier

-- One socket on any address: `auto`, or no interface is named and there is nothing to have paths to, which is
-- an unknown server, one on this host, or no central socket.
pub record AnySocket (sys : System) (iface : Bytes) (server : Option Bytes) (c d : Client)
    (sock : Socket) : Type 0 where
  pub socket : sock ≡ any_address
  pub opened : sys.listen_any ≡ true
  pub same : d ≡ c
  pub why :
      (iface ≡ codes "auto")
      ⊎ ((is_empty iface ≡ true)
          × ((server ≡ none)
              ⊎ ((ip : Bytes) × (server ≡ some ip)
                  × ((is_loopback ip ≡ true) ⊎ (central_port sys ≡ none)))))

-- One socket on the first IPv4 address of the named interface.
pub record NamedSocket (sys : System) (iface : Bytes) (c d : Client) (sock : Socket) : Type 0 where
  pub named : (iface ≢ codes "auto") × (is_empty iface ≡ false)
  pub ips : List (Option Bytes)
  pub ip : Bytes
  pub listed : sys.interface iface ≡ some ips
  pub first : IsFirstV4 ips ip
  pub socket : sock ≡ on_address ip
  pub opened : sys.listen_on ip ≡ true
  pub same : d ≡ c

-- A path for each interface of the scan that has an address of the server's family and a socket for it.
pub record ManyPaths (sys : System) (iface : Bytes) (server : Option Bytes) (c d : Client)
    (sock : Socket) : Type 0 where
  pub socket : sock ≡ own_paths
  pub unnamed : is_empty iface ≡ true
  pub ip : Bytes
  pub port : ℕ
  pub known : (server ≡ some ip) × (is_loopback ip ≡ false)
  pub central : central_port sys ≡ some port
  pub each_path :
      (n : ℕ)
      → lookup n d.paths
        ≡ fresh_of
            (is_v4 ip)
            sys.bind_ok
            sys.now
            n
            (lookup n (scan_interfaces not_excluded sys.interfaces))
  pub same : d ≡ record c { use_multipath = true; paths = d.paths; recv_port = u16 port }

abbrev pub Chosen : System → Bytes → Option Bytes → Client → Client → Socket → Type 0
Chosen sys iface server c d sock =
    AnySocket sys iface server c d sock
    ⊎ (NamedSocket sys iface c d sock ⊎ ManyPaths sys iface server c d sock)

first_ip4_lem : (ips : List (Option Bytes)) (ip : Bytes) → first_ip4 ips ≡ ok ip → IsFirstV4 ips ip
first_ip4_lem [] ip e = absurd (ground arith)
first_ip4_lem (none ∷ ips) ip e =
    let r = first_ip4_lem ips ip e in
    record {
      earlier = none ∷ r.earlier;
      found = r.found;
      later = r.later;
      split = ap (λ l. none ∷ l) r.split;
      is_v4 = r.is_v4;
      none_before = (refl, r.none_before);
    }
first_ip4_lem (some raw ∷ ips) ip e = elim (Option-cases (to4 raw)) [
  | inl other ↦
      let r = first_ip4_lem ips ip (ground (arith, other)) in
      record {
        earlier = some raw ∷ r.earlier;
        found = r.found;
        later = r.later;
        split = ap (λ l. some raw ∷ l) r.split;
        is_v4 = r.is_v4;
        none_before = (other, r.none_before);
      }
  | inr (ip4, fits) ↦ record {
    earlier = [];
    found = some raw;
    later = ips;
    split = refl;
    is_v4 = fits ∙ ground (arith, fits);
    none_before = tt;
  }
]

lookup-add_each :
    (v4 : Bool) (bind_ok : ℕ → Bool) (now n : ℕ) (found : List (ℕ × IfaceInfo))
    (m : List (ℕ × NetPath))
    → Distinct found
    → lookup n (add_each v4 bind_ok now found m)
      ≡ or_else v4 bind_ok now (fresh_of v4 bind_ok now n (lookup n found)) (lookup n m)
unfolding add_each
lookup-add_each v4 bind_ok now n [] m d = refl
lookup-add_each v4 bind_ok now n ((k, info) ∷ found) m d =
    lookup-add_each v4 bind_ok now n found (add_path v4 bind_ok now k info m) d.1
    ∙ ground (arith, lookup-add_path v4 bind_ok now k n info m)

or_else-none :
    (v4 : Bool) (bind_ok : ℕ → Bool) (now : ℕ) (o : Option NetPath)
    → or_else v4 bind_ok now o none ≡ o
or_else-none v4 bind_ok now none = refl
or_else-none v4 bind_ok now (some p) = refl

lookup-first_paths :
    (sys : System) (ip : Bytes) (n : ℕ)
    → lookup n (first_paths sys ip)
      ≡ fresh_of
          (is_v4 ip)
          sys.bind_ok
          sys.now
          n
          (lookup n (scan_interfaces not_excluded sys.interfaces))
lookup-first_paths sys ip n =
    lookup-add_each (is_v4 ip) sys.bind_ok sys.now n (scan_interfaces not_excluded sys.interfaces)
      [] (scan_interfaces-Distinct not_excluded sys.interfaces)
    ∙ or_else-none (is_v4 ip) sys.bind_ok sys.now _

module _ (sys : System) (c d : Client) (sock : Socket) (iface : Bytes) where
  any_socket :
      (server : Option Bytes)
      → (iface ≡ codes "auto")
        ⊎ ((is_empty iface ≡ true)
            × ((server ≡ none)
                ⊎ ((ip : Bytes) × (server ≡ some ip)
                    × ((is_loopback ip ≡ true) ⊎ (central_port sys ≡ none)))))
      → listen_any_address sys c ≡ ok (d, sock)
      → AnySocket sys iface server c d sock
  any_socket server why e = elim (Bool-cases sys.listen_any) [
    | inl works ↦ record {
      socket = ground (arith, works);
      opened = works;
      same = ground (arith, works);
      why = why;
    }
    | inr fails ↦ absurd (ground (arith, fails))
  ]

  named_socket :
      (iface ≢ codes "auto") × (is_empty iface ≡ false)
      → (resolve_interface_addr sys iface >>= listen_on_address sys c) ≡ ok (d, sock)
      → NamedSocket sys iface c d sock
  unfolding resolve_interface_addr
  named_socket named e =
      let (ip, made, resolved) = bind-ok (resolve_interface_addr sys iface) _ (d, sock) e in
      elim (Option-cases (sys.interface iface)) [
        | inl absent ↦ absurd (ground (arith, absent))
        | inr (ips, listed) ↦ elim (Bool-cases (sys.listen_on ip)) [
          | inr fails ↦ absurd (ground (arith, fails))
          | inl works ↦ record {
            named = named;
            ips = ips;
            ip = ip;
            listed = listed;
            first = first_ip4_lem ips ip (ground (arith, listed));
            socket = ground (arith, works);
            opened = works;
            same = ground (arith, works);
          }
        ]
      ]

  unnamed_sockets :
      (server : Option Bytes)
      → is_empty iface ≡ true
      → without_interface sys server c ≡ ok (d, sock)
      → Chosen sys iface server c d sock
  unnamed_sockets none h e = inl (any_socket none (inr (h, inl refl)) e)
  unnamed_sockets (some ip) h e = elim (Bool-cases (is_loopback ip)) [
    | inl here ↦
        inl (any_socket (some ip) (inr (h, inr (ip, refl, inl here))) (ground (arith, here)))
    | inr away ↦ elim (Option-cases (central_port sys)) [
      | inl closed ↦ inl (
          any_socket (some ip) (inr (h, inr (ip, refl, inr closed))) (ground (arith, away, closed)))
      | inr (port, open_port) ↦
          let same : d ≡ record c {
            use_multipath = true;
            paths = first_paths sys ip;
            recv_port = u16 port;
          } =
            ground (arith, away, open_port) in
          inr (
            inr (record {
              socket = ground (arith, away, open_port);
              unnamed = h;
              ip = ip;
              port = port;
              known = (refl, away);
              central = open_port;
              each_path =
                  λ n. ap (λ (x : Client). lookup n x.paths) same ∙ lookup-first_paths sys ip n;
              same =
                  same
                  ∙ ap
                      (λ (x : Client). record c {
                        use_multipath = true;
                        paths = x.paths;
                        recv_port = u16 port;
                      })
                      (sym same);
            }))
    ]
  ]

  -- If Run gets its sockets, then it has one socket on any address, where the interface is `auto` or it
  -- is not named and there is nothing to have paths to; or one on the first IPv4 address of the interface that is
  -- named; or, with no interface named, a server that is known and not this host, and a central socket's port to
  -- reply to, a path for each interface of the scan that can have one, and for no other. With one socket the
  -- client is as it was.
  pub open_sockets_lem :
      (server : Option Bytes)
      → open_sockets sys iface server c ≡ ok (d, sock)
      → Chosen sys iface server c d sock
  unfolding open_sockets
  open_sockets_lem server e = elim (Bool-cases (bytes_eq iface (codes "auto"))) [
    | inl auto ↦
        inl (
          any_socket server (inl (bytes_eq_sound iface (codes "auto") auto)) (ground (arith, auto)))
    | inr other ↦ elim (Bool-cases (is_empty iface)) [
      | inl unnamed ↦ unnamed_sockets server unnamed (ground (arith, other, unnamed))
      | inr named ↦
          let distinct : iface ≢ codes "auto" = λ same. absurd (
            ground
              (arith, ap (λ b. bytes_eq b (codes "auto")) same, bytes_eq_refl (codes "auto"))) in
          inr (inl (named_socket (distinct, named) (ground (arith, other, named))))
    ]
  ]
