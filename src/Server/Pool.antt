-- ===== src/Server/Pool.antt =====
-- server/server.go, allocateIP.
pub mod Alloc
use mpfpv.Base.{
  ℕ, zero, suc, ◌+◌, ◌-◌, ◌*◌, ◌%◌, ◌^◌, Bool, true, false, ◌==◌, ◌||◌, if◌then◌else◌, List, [],
  ◌∷◌, ◌++◌, Option, none, some, lookup, insert, delete,
}
use mpfpv.Base.Bytes.{Bytes, u32, is_empty}
use mpfpv.Server.State.{Server, Subnet, save_ip_pool}

-- `used[ip]` of a set of addresses, and the values of a map of them.
abbrev pub holds : ℕ → List ℕ → Bool
holds ip [] = false
holds ip (x ∷ xs) = x == ip || holds ip xs

abbrev pub ips : List (ℕ × ℕ) → List ℕ
ips [] = []
ips ((c, ip) ∷ m) = ip ∷ ips m

-- The loop at `offset`, with `rounds` rounds left; a candidate is a `uint32` sum.
unfoldable pub first_free : ℕ → ℕ → ℕ → List ℕ → Option ℕ
first_free zero offset base used = none
first_free (suc rounds) offset base used = elim (holds (u32 (base + offset)) used) [
  | true ↦ first_free rounds (offset + 1) base used
  | false ↦ some (u32 (base + offset))
]

-- `(uint32(1) << hostBits) - 1`, with the wrap of both operations.
abbrev pub max_hosts : Subnet → ℕ
max_hosts n = u32 (u32 (2 ^ (32 - n.ones)) + 2 ^ 32 - 1)

-- Addresses held by the pool, by active sessions and by the server.
abbrev pub used_ips : Server → List ℕ → List ℕ
used_ips s session_ips = s.server_virtual_ip ∷ (ips s.ip_pool ++ session_ips)

abbrev pub remember_name : ℕ → Bytes → Server → Server
remember_name client_id name s =
    if is_empty name then s else record s { ip_pool_names = insert client_id name s.ip_pool_names }

abbrev pub pooled : ℕ → Bytes → ℕ → Server → Server
pooled client_id name ip s =
    let t = record s { ip_pool_expiry = delete client_id s.ip_pool_expiry } in
    if is_empty name then t else save_ip_pool t

abbrev pub allocated : ℕ → Option ℕ → Server → Option (ℕ × ℕ) × Server
allocated client_id none s = (none, s)
allocated client_id (some ip) s =
    (some (ip, s.prefix_len), save_ip_pool (record s { ip_pool = insert client_id ip s.ip_pool }))

abbrev pub free_in : Option Subnet → List ℕ → Option ℕ
free_in none used = none
free_in (some n) used = first_free (max_hosts n - 1) 1 n.base used

-- `none` is the nil IP. The client's old address comes back, or the first free one of the subnet.
unfoldable pub allocate_ip : Server → ℕ → Bytes → List ℕ → Option (ℕ × ℕ) × Server
unfolding save_ip_pool
allocate_ip s client_id device_name session_ips =
    let t = remember_name client_id device_name s in
    elim (lookup client_id s.ip_pool) [
      | some ip ↦ (some (ip, s.prefix_len), pooled client_id device_name ip t)
      | none ↦ allocated client_id (free_in s.subnet (used_ips s session_ips)) t
    ]
