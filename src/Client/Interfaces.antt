-- ===== src/Client/Interfaces.antt =====
-- client/transport.go: which interfaces count (scanInterfaces) and how the paths follow them
-- (detectChanges). The system's list of interfaces and the binding of sockets are parameters.
pub mod Scan
pub mod Reconcile
pub mod Total
use Prim.Native.Nat.{bit_and}
use mathlib.Core.Option
use mpfpv.Base.{
  ℕ, zero, suc, ◌+◌, Bool, true, false, ◌==◌, ◌&&◌, ◌||◌, not, ltb, leb, if◌then◌else◌, List, [],
  ◌∷◌, ◌++◌, Option, none, some, length, get_or, take, lookup, insert, has_key,
}
use mpfpv.Base.Bytes.{Bytes, codes, bytes_eq, has_prefix, contains_part}
use mpfpv.Protocol.Wire.{to4}
use mpfpv.Client.Paths.{NetPath, new_path, remove_path}

-- What the source reads of a `net.Interface`. `key` stands for the name as a key of maps; an address is
-- `none` where it is nil, and `addrs` where `Addrs` fails.
pub record Interface : Type 0 where
  pub key : ℕ
  pub name : Bytes
  pub is_loopback : Bool
  pub is_up : Bool
  pub addrs : Option (List (Option Bytes))

-- `ifaceInfo`, with the name that is its key in the source.
pub record IfaceInfo : Type 0 where
  pub name : Bytes
  pub addrs4 : List Bytes
  pub addrs6 : List Bytes

abbrev pub any_prefix : Bytes → List Bytes → Bool
any_prefix s [] = false
any_prefix s (p ∷ ps) = has_prefix s p || any_prefix s ps

abbrev pub any_part : Bytes → List Bytes → Bool
any_part s [] = false
any_part s (p ∷ ps) = contains_part s p || any_part s ps

abbrev pub linux_prefixes : List Bytes
linux_prefixes =
    codes "eth"
    ∷ codes "enp"
    ∷ codes "ens"
    ∷ codes "eno"
    ∷ codes "enx"
    ∷ codes "wlan"
    ∷ codes "wlp"
    ∷ codes "wlx"
    ∷ codes "usb"
    ∷ []

-- The sixth is the UTF-8 of the Chinese word for Ethernet.
abbrev pub windows_words : List Bytes
windows_words =
    codes "Wi-Fi"
    ∷ codes "WiFi"
    ∷ codes "Wireless"
    ∷ codes "WLAN"
    ∷ codes "Ethernet"
    ∷ (0xe4 ∷ 0xbb ∷ 0xa5 ∷ 0xe5 ∷ 0xa4 ∷ 0xaa ∷ 0xe7 ∷ 0xbd ∷ 0x91 ∷ [])
    ∷ codes "USB"
    ∷ []

unfoldable pub is_physical_interface : Bytes → Bool
is_physical_interface name =
    any_prefix name linux_prefixes
    || any_part name windows_words
    || (leb 2 (length name) && bytes_eq (take 2 name) (codes "en"))

-- Link-local, CGNAT and the program's own addresses do not count.
unfoldable pub usable4 : Bytes → Bool
usable4 ip =
    not (get_or ip 0 0 == 169 && get_or ip 1 0 == 254)
    && (not (get_or ip 0 0 == 100 && (leb 64 (get_or ip 1 0) && leb (get_or ip 1 0) 127))
        && not (get_or ip 0 0 == 10 && get_or ip 1 0 == 99))

abbrev pub ipv6_loopback : Bytes
ipv6_loopback = 0 ∷ 0 ∷ 0 ∷ 0 ∷ 0 ∷ 0 ∷ 0 ∷ 0 ∷ 0 ∷ 0 ∷ 0 ∷ 0 ∷ 0 ∷ 0 ∷ 0 ∷ 1 ∷ []

-- Neither link-local nor the loopback, and global or unique local.
unfoldable pub usable6 : Bytes → Bool
usable6 ip =
    not (get_or ip 0 0 == 0xfe && bit_and (get_or ip 1 0) 0xc0 == 0x80)
    && (not (bytes_eq ip ipv6_loopback)
        && (bit_and (get_or ip 0 0) 0xe0 == 0x20 || bit_and (get_or ip 0 0) 0xfe == 0xfc))

abbrev pub add4 : Bytes → IfaceInfo → IfaceInfo
add4 ip info = if usable4 ip then record info { addrs4 = info.addrs4 ++ (ip ∷ []) } else info

-- `To16` of what is no IPv4 address is nil but for 16 bytes.
abbrev pub add6 : Bytes → IfaceInfo → IfaceInfo
add6 ip info =
    if length ip == 16 && usable6 ip
    then record info { addrs6 = info.addrs6 ++ (ip ∷ []) }
    else info

-- The loop over an interface's addresses.
unfoldable pub collect : List (Option Bytes) → IfaceInfo → IfaceInfo
collect [] info = info
collect (none ∷ ips) info = collect ips info
collect (some ip ∷ ips) info =
    collect ips (elim (to4 ip) [ some ip4 ↦ add4 ip4 info | none ↦ add6 ip info ])

abbrev pub has_addrs : IfaceInfo → Bool
has_addrs info = not (length info.addrs4 == 0 && length info.addrs6 == 0)

-- What an interface adds to the scan, if anything.
unfoldable pub info_of : (ℕ → Bool) → Interface → Option IfaceInfo
info_of excluded i =
    if excluded i.key || (not (is_physical_interface i.name) || (i.is_loopback || not i.is_up))
    then none
    else elim i.addrs [
      | none ↦ none
      | some ips ↦
          let info = collect ips (record { name = i.name; addrs4 = []; addrs6 = [] }) in
          if has_addrs info then some info else none
    ]

unfoldable pub scan_all : (ℕ → Bool) → List Interface → List (ℕ × IfaceInfo) → List (ℕ × IfaceInfo)
scan_all excluded [] found = found
scan_all excluded (i ∷ is) found =
    scan_all excluded is
      (elim (info_of excluded i) [ none ↦ found | some info ↦ insert i.key info found ])

-- `none`: `net.Interfaces` fails.
unfoldable pub scan_interfaces : (ℕ → Bool) → Option (List Interface) → List (ℕ × IfaceInfo)
unfolding scan_all
scan_interfaces excluded none = []
scan_interfaces excluded (some is) = scan_all excluded is []

-- The first address of the server's family (`v4`: it has an IPv4 address).
abbrev pub first_addr : List Bytes → Option Bytes
first_addr [] = none
first_addr (a ∷ rest) = some a

abbrev pub pick_addr : Bool → IfaceInfo → Option Bytes
pick_addr v4 info = first_addr (if v4 then info.addrs4 else info.addrs6)

-- The path that addPath would put under `key`: none without an address, or where no socket can be bound.
unfoldable pub fresh_path : Bool → (ℕ → Bool) → ℕ → ℕ → IfaceInfo → Option NetPath
fresh_path v4 bind_ok now key info = elim (pick_addr v4 info) [
  | none ↦ none
  | some a ↦ if bind_ok key then some (new_path info.name a now) else none
]

module _ (v4 : Bool) (bind_ok : ℕ → Bool) (now : ℕ) where
  unfoldable pub add_path : ℕ → IfaceInfo → List (ℕ × NetPath) → List (ℕ × NetPath)
  unfolding fresh_path
  add_path key info paths = elim (fresh_path v4 bind_ok now key info) [
    | none ↦ paths
    | some p ↦ insert key p paths
  ]

  -- `names` are the paths before the scan; `none` is the panic of closing a closed channel.
  unfoldable pub remove_gone :
      List (ℕ × IfaceInfo) → List (ℕ × NetPath) → List (ℕ × NetPath) → Option (List (ℕ × NetPath))
  remove_gone found [] paths = some paths
  remove_gone found ((key, _) ∷ names) paths =
      if has_key key found
      then remove_gone found names paths
      else elim (remove_path key paths) [ none ↦ none | some rest ↦ remove_gone found names rest ]

  unfoldable pub add_new :
      List (ℕ × NetPath) → List (ℕ × IfaceInfo) → List (ℕ × NetPath) → List (ℕ × NetPath)
  add_new names [] paths = paths
  add_new names ((key, info) ∷ found) paths =
      add_new names found (if has_key key names then paths else add_path key info paths)

  -- The interface's first address is no longer the path's.
  abbrev pub changed : IfaceInfo → NetPath → Bool
  changed info p = elim (pick_addr v4 info) [
    | none ↦ false
    | some a ↦ not (bytes_eq a p.local_addr)
  ]

  abbrev pub replace_path : ℕ → IfaceInfo → List (ℕ × NetPath) → Option (List (ℕ × NetPath))
  replace_path key info paths = Option.map (add_path key info) (remove_path key paths)

  abbrev pub recheck : ℕ → IfaceInfo → List (ℕ × NetPath) → Option (List (ℕ × NetPath))
  recheck key info paths = elim (lookup key paths) [
    | none ↦ some paths
    | some p ↦ if changed info p then replace_path key info paths else some paths
  ]

  unfoldable pub replace_changed :
      List (ℕ × IfaceInfo) → List (ℕ × NetPath) → Option (List (ℕ × NetPath))
  replace_changed [] paths = some paths
  replace_changed ((key, info) ∷ found) paths = elim (recheck key info paths) [
    | none ↦ none
    | some rest ↦ replace_changed found rest
  ]

  unfoldable pub detect_changes :
      List (ℕ × IfaceInfo) → List (ℕ × NetPath) → Option (List (ℕ × NetPath))
  detect_changes found paths = elim (remove_gone found paths paths) [
    | none ↦ none
    | some rest ↦ replace_changed found (add_new paths found rest)
  ]
