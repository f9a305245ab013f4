-- ===== src/Client/Sockets.antt =====
-- client/client.go, the socket set-up of Run, and client/transport.go, NewMultiPath and Start: one socket
-- or several paths. What the system says of interfaces and sockets is a parameter.
pub mod Modes
pub mod Choice
use mpfpv.Base.{
  ℕ, Bool, true, false, ◌==◌, if◌then◌else◌, List, [], ◌∷◌, Option, none, some, get_or,
}
use mpfpv.Base.Bytes.{Bytes, codes, bytes_eq, is_empty, u16}
use mpfpv.Base.Results.{Result, ok, err, ◌>>=◌}
use mpfpv.Protocol.Wire.{to4}
use mpfpv.Client.Paths.{NetPath}
use mpfpv.Client.Interfaces.{Interface, IfaceInfo, ipv6_loopback, scan_interfaces, add_path}
use mpfpv.Client.Handlers.{Client}

-- What the calls to the system return. `interface` gives an interface's addresses by its name, `none`
-- without such an interface or where they cannot be read; `listen_any` and `listen_on` say whether a UDP
-- socket can be had, on any address or on one; `central6` and `central4` are the ports of the central
-- receive socket.
pub record System : Type 0 where
  pub interface : Bytes → Option (List (Option Bytes))
  pub listen_any : Bool
  pub listen_on : Bytes → Bool
  pub central6 : Option ℕ
  pub central4 : Option ℕ
  pub interfaces : Option (List Interface)
  pub bind_ok : ℕ → Bool
  pub now : ℕ

pub data RunError : Type 0 where
  no_socket : RunError
  no_interface : RunError
  no_ipv4 : RunError

-- `c.conn`: a socket on any address or on one; the paths have their own.
pub data Socket : Type 0 where
  any_address : Socket
  on_address : Bytes → Socket
  own_paths : Socket

abbrev pub first_ip4 : List (Option Bytes) → Result RunError Bytes
first_ip4 [] = err no_ipv4
first_ip4 (none ∷ ips) = first_ip4 ips
first_ip4 (some ip ∷ ips) =
    let rest = first_ip4 ips in elim (to4 ip) [ some ip4 ↦ ok ip4 | none ↦ rest ]

unfoldable pub resolve_interface_addr : System → Bytes → Result RunError Bytes
resolve_interface_addr sys name = elim (sys.interface name) [
  | none ↦ err no_interface
  | some ips ↦ first_ip4 ips
]

abbrev pub listen_any_address : System → Client → Result RunError (Client × Socket)
listen_any_address sys c = if sys.listen_any then ok (c, any_address) else err no_socket

abbrev pub listen_on_address : System → Client → Bytes → Result RunError (Client × Socket)
listen_on_address sys c ip = if sys.listen_on ip then ok (c, on_address ip) else err no_socket

-- `net.IP.IsLoopback`.
abbrev pub is_loopback : Bytes → Bool
is_loopback ip = elim (to4 ip) [
  | some ip4 ↦ get_or ip4 0 0 == 127
  | none ↦ bytes_eq ip ipv6_loopback
]

-- `serverAddr.IP.To4() != nil`.
abbrev pub is_v4 : Bytes → Bool
is_v4 server = elim (to4 server) [ some _ ↦ true | none ↦ false ]

-- The loop of Start over the scanned interfaces.
unfoldable pub add_each :
    Bool → (ℕ → Bool) → ℕ → List (ℕ × IfaceInfo) → List (ℕ × NetPath) → List (ℕ × NetPath)
add_each v4 bind_ok now [] paths = paths
add_each v4 bind_ok now ((key, info) ∷ found) paths =
    add_each v4 bind_ok now found (add_path v4 bind_ok now key info paths)

-- No interface is excluded.
abbrev pub not_excluded : ℕ → Bool
not_excluded key = false

abbrev pub first_paths : System → Bytes → List (ℕ × NetPath)
first_paths sys server =
    add_each (is_v4 server) sys.bind_ok sys.now (scan_interfaces not_excluded sys.interfaces) []

abbrev pub central_port : System → Option ℕ
central_port sys = elim sys.central6 [ some port ↦ some port | none ↦ sys.central4 ]

-- NewMultiPath and Start, with the fallback to one socket.
abbrev pub start_multipath : System → Bytes → Client → Result RunError (Client × Socket)
start_multipath sys server c = elim (central_port sys) [
  | none ↦ listen_any_address sys c
  | some port ↦ ok (
    record c { use_multipath = true; paths = first_paths sys server; recv_port = u16 port },
    own_paths,
  )
]

-- `server` is the address that the server's name was resolved to, `none` while it is not.
abbrev pub without_interface : System → Option Bytes → Client → Result RunError (Client × Socket)
without_interface sys none c = listen_any_address sys c
without_interface sys (some server) c =
    if is_loopback server then listen_any_address sys c else start_multipath sys server c

unfoldable pub open_sockets :
    System → Bytes → Option Bytes → Client → Result RunError (Client × Socket)
unfolding resolve_interface_addr add_each
open_sockets sys bind_interface server c =
    if bytes_eq bind_interface (codes "auto")
    then listen_any_address sys c
    else if is_empty bind_interface
    then without_interface sys server c
    else resolve_interface_addr sys bind_interface >>= listen_on_address sys c
