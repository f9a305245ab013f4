-- ===== src/Client/Sockets/Modes.antt =====
-- client/client.go, Run: which sockets a client ends up with.
use mpfpv.Base.{
  ℕ, ◌≡◌, refl, arith, inl, inr, ◌⊎◌, true, false, Bool-cases, Option-cases, Option, none, some,
}
use mpfpv.Base.Bytes.{Bytes, codes, bytes_eq, is_empty, u16}
use mpfpv.Base.Results.{Result, ok, err, ◌>>=◌}
use mpfpv.Client.Handlers.{Client}
use mpfpv.Client.Sockets.{
  System, RunError, Socket, any_address, on_address, own_paths, resolve_interface_addr,
  listen_any_address, listen_on_address, is_loopback, first_paths, central_port, without_interface,
  open_sockets,
}

-- One socket, and a client as it was.
abbrev pub OneSocket : Client → Client → Socket → Type 0
OneSocket c d sock = (d ≡ c) × ((sock ≡ any_address) ⊎ ((ip : Bytes) × (sock ≡ on_address ip)))

-- Paths to a server that is known and not this host, and the port of a central socket to reply to.
abbrev pub ManyPaths : System → Bytes → Option Bytes → Client → Client → Socket → Type 0
ManyPaths sys iface server c d sock =
    (sock ≡ own_paths)
    × (is_empty iface ≡ true)
    × ((ip : Bytes) × (port : ℕ) × (server ≡ some ip)
        × (is_loopback ip ≡ false)
        × (central_port sys ≡ some port)
        × (d ≡ record c { use_multipath = true; paths = first_paths sys ip; recv_port = u16 port }))

abbrev pub Opened : System → Bytes → Option Bytes → Client → Client → Socket → Type 0
Opened sys iface server c d sock = OneSocket c d sock ⊎ ManyPaths sys iface server c d sock

module _ (sys : System) (c d : Client) (sock : Socket) where
  any_address_lem : listen_any_address sys c ≡ ok (d, sock) → OneSocket c d sock
  any_address_lem e = (ground arith, inl (ground arith))

  on_address_lem : (ip : Bytes) → listen_on_address sys c ip ≡ ok (d, sock) → OneSocket c d sock
  on_address_lem ip e = (ground arith, inr (ip, ground arith))

  named_lem :
      (r : Result RunError Bytes)
      → (r >>= listen_on_address sys c) ≡ ok (d, sock)
      → OneSocket c d sock
  named_lem (err x) e = absurd (ground arith)
  named_lem (ok ip) e = on_address_lem ip e

  unnamed_lem :
      (iface : Bytes) (server : Option Bytes)
      → is_empty iface ≡ true
      → without_interface sys server c ≡ ok (d, sock)
      → Opened sys iface server c d sock
  unnamed_lem iface none h e = inl (any_address_lem e)
  unnamed_lem iface (some ip) h e = elim (Bool-cases (is_loopback ip)) [
    | inl here ↦ inl (any_address_lem (ground (arith, here)))
    | inr away ↦ elim (Option-cases (central_port sys)) [
      | inl closed ↦ inl (any_address_lem (ground (arith, away, closed)))
      | inr (port, open_port) ↦ inr (
        ground (arith, away, open_port),
        h,
        (ip, port, refl, away, open_port, ground (arith, away, open_port)),
      )
    ]
  ]

  -- If Run gets its sockets, then the client is as it was, with one socket, or no interface is named, the server's
  -- address is known and no loopback, and the client has the scan's paths and a central socket's port.
  pub open_sockets_cases :
      (iface : Bytes) (server : Option Bytes)
      → open_sockets sys iface server c ≡ ok (d, sock)
      → Opened sys iface server c d sock
  unfolding open_sockets
  open_sockets_cases iface server e = elim (Bool-cases (bytes_eq iface (codes "auto"))) [
    | inl auto ↦ inl (any_address_lem (ground (arith, auto)))
    | inr other ↦ elim (Bool-cases (is_empty iface)) [
      | inl unnamed ↦ unnamed_lem iface server unnamed (ground (arith, other, unnamed))
      | inr named ↦
          inl (named_lem (resolve_interface_addr sys iface) (ground (arith, other, named)))
    ]
  ]
