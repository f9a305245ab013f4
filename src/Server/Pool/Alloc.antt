-- ===== src/Server/Pool/Alloc.antt =====
-- server/server.go, allocateIP: the address that comes out of the pool, and when none does.
use native.Mathlib.Nat.{one-le-pow}
use mpfpv.Base.{
  ℕ, zero, suc, ◌+◌, ◌-◌, ◌^◌, ◌≤◌, ◌<◌, ◌≡◌, ◌≢◌, refl, sym, ap, ◌∙◌, arith, inl, inr, true, false,
  ◌||◌, List, [], ◌∷◌, ◌++◌, none, some, Bool-cases, Option-cases, lookup, insert, lookup-insert,
}
use mpfpv.Base.Bytes.{Bytes, u32}
use mpfpv.Server.State.{Server, Subnet, save_ip_pool}
use mpfpv.Server.Pool.{
  holds, ips, first_free, max_hosts, used_ips, free_in, allocated, pooled, remember_name,
  allocate_ip,
}

pub first_free-some :
    (rounds offset base : ℕ) (used : List ℕ) (ip : ℕ)
    → first_free rounds offset base used ≡ some ip
    → (o : ℕ) × (offset ≤ o)
      × (o < offset + rounds)
      × (ip ≡ u32 (base + o))
      × (holds ip used ≡ false)
unfolding first_free
first_free-some zero offset base used ip e = cc
first_free-some (suc rounds) offset base used ip e =
    elim (Bool-cases (holds (u32 (base + offset)) used)) [
      | inl taken ↦
          let (o, lo, hi, at, new) =
            first_free-some rounds (offset + 1) base used ip (ground arith) in
          (o, omega arith, omega arith, at, new)
      | inr unused ↦ (offset, omega arith, omega arith, ground arith, ground arith)
    ]

pub first_free-none :
    (rounds offset base : ℕ) (used : List ℕ) (o : ℕ)
    → first_free rounds offset base used ≡ none
    → offset ≤ o
    → o < offset + rounds
    → holds (u32 (base + o)) used ≡ true
unfolding first_free
first_free-none zero offset base used o e lo hi = absurd (omega arith)
first_free-none (suc rounds) offset base used o e lo hi =
    ground (arith, first_free-none rounds (offset + 1) base used o)

pub holds-lookup : (c ip : ℕ) (m : List (ℕ × ℕ)) → lookup c m ≡ some ip → holds ip (ips m) ≡ true
holds-lookup c ip [] e = cc
holds-lookup c ip ((k, x) ∷ m) e = ground (arith, holds-lookup c ip m)

pub holds-append : (ip : ℕ) (xs ys : List ℕ) → holds ip (xs ++ ys) ≡ (holds ip xs || holds ip ys)
holds-append ip [] ys = refl
holds-append ip (x ∷ xs) ys = ground (arith, holds-append ip xs ys)

-- An IPv4 network: it lies within the 32-bit addresses.
pub record IsSubnet (n : Subnet) : Type 0 where
  pub ones_fit : n.ones ≤ 32
  pub range_fits : n.base + 2 ^ (32 - n.ones) ≤ 2 ^ 32

pow_positive : (k : ℕ) → 1 ≤ 2 ^ k
pow_positive k = one-le-pow k 2 (omega arith)

-- A host address: neither the first of the network nor its last, the broadcast address.
abbrev pub IsHost : Subnet → ℕ → Type 0
IsHost n ip = (n.base < ip) × (ip + 1 < n.base + 2 ^ (32 - n.ones))

-- The search of a network gives a host address that is not in use, and gives none only when all are.
pub free_in_lem :
    (n : Subnet) (used : List ℕ)
    → IsSubnet n
    → ((ip : ℕ) → free_in (some n) used ≡ some ip → IsHost n ip × (holds ip used ≡ false))
      × (free_in (some n) used ≡ none → (ip : ℕ) → IsHost n ip → holds ip used ≡ true)
free_in_lem n used v = (
  λ ip e.
      let (o, lo, hi, at, new) = first_free-some (max_hosts n - 1) 1 n.base used ip e in
      (omega (arith, pow_positive (32 - n.ones)), new),
  λ e ip h.
      let at : u32 (n.base + (ip - n.base)) ≡ ip = omega arith in
      ap (λ t. holds t used) (sym at)
      ∙ first_free-none (max_hosts n - 1) 1 n.base used (ip - n.base) e (omega arith)
          (omega (arith, pow_positive (32 - n.ones))),
)

module _ (s : Server) (c : ℕ) (name : Bytes) (session_ips : List ℕ) where
  pub allocate_ip-pooled :
      (old : ℕ)
      → lookup c s.ip_pool ≡ some old
      → allocate_ip s c name session_ips
        ≡ (some (old, s.prefix_len), pooled c name old (remember_name c name s))
  unfolding allocate_ip
  allocate_ip-pooled old e = ground arith

  pub allocate_ip-new :
      lookup c s.ip_pool ≡ none
      → allocate_ip s c name session_ips
        ≡ allocated c (free_in s.subnet (used_ips s session_ips)) (remember_name c name s)
  unfolding allocate_ip
  allocate_ip-new e = ground arith

save_ip_pool-pool : (s : Server) → (save_ip_pool s).ip_pool ≡ s.ip_pool
unfolding save_ip_pool
save_ip_pool-pool s = ground arith

allocated-some :
    (c ip : ℕ) (t : Server)
    → let r = allocated c (some ip) t in
      (r.0 ≡ some (ip, t.prefix_len)) × (lookup c r.1.ip_pool ≡ some ip)
allocated-some c ip t =
    (refl, rw save_ip_pool-pool (ground (arith, lookup-insert c c ip t.ip_pool)))

unused_lem :
    (s : Server) (session_ips : List ℕ) (ip : ℕ)
    → holds ip (used_ips s session_ips) ≡ false
    → (ip ≢ s.server_virtual_ip)
      × (holds ip (ips s.ip_pool) ≡ false)
      × (holds ip session_ips ≡ false)
unused_lem s session_ips ip e = ground (arith, holds-append ip (ips s.ip_pool) session_ips)

-- A client without a pool entry that gets an address gets a host address of the subnet that neither the
-- server nor the pool nor a session uses, with the server's prefix length, and has it in the pool from
-- then on.
pub allocate_ip_fresh :
    (s : Server) (c : ℕ) (name : Bytes) (session_ips : List ℕ) (n : Subnet) (ip len : ℕ)
    → s.subnet ≡ some n
    → IsSubnet n
    → lookup c s.ip_pool ≡ none
    → (allocate_ip s c name session_ips).0 ≡ some (ip, len)
    → IsHost n ip
      × (ip ≢ s.server_virtual_ip)
      × (holds ip (ips s.ip_pool) ≡ false)
      × (holds ip session_ips ≡ false)
      × (len ≡ s.prefix_len)
      × (lookup c (allocate_ip s c name session_ips).1.ip_pool ≡ some ip)
allocate_ip_fresh s c name session_ips n ip len e v new got =
    let used = used_ips s session_ips in
    let t = remember_name c name s in
    let made = allocate_ip-new s c name session_ips new in
    elim (Option-cases (free_in s.subnet used)) [
      | inl full ↦
          let r : allocate_ip s c name session_ips ≡ allocated c none t = made ∙ rw full refl in
          ground arith
      | inr (x, found) ↦
          let host = (free_in_lem n used v).0 x (ap (λ o. free_in o used) (sym e) ∙ found) in
          let r : allocate_ip s c name session_ips ≡ allocated c (some x) t =
            made ∙ rw found refl in
          rw r (ground (arith, host, unused_lem s session_ips x, allocated-some c x t))
    ]

-- As long as some host address of the subnet is used by neither the server nor the pool nor a session, a
-- client without a pool entry gets an address, with the server's prefix length.
pub allocate_ip_finds :
    (s : Server) (c : ℕ) (name : Bytes) (session_ips : List ℕ) (n : Subnet) (free : ℕ)
    → s.subnet ≡ some n
    → IsSubnet n
    → lookup c s.ip_pool ≡ none
    → IsHost n free
    → free ≢ s.server_virtual_ip
    → holds free (ips s.ip_pool) ≡ false
    → holds free session_ips ≡ false
    → (ip : ℕ) × ((allocate_ip s c name session_ips).0 ≡ some (ip, s.prefix_len))
allocate_ip_finds s c name session_ips n free e v new host own pool sessions =
    let used = used_ips s session_ips in
    let t = remember_name c name s in
    let made = allocate_ip-new s c name session_ips new in
    elim (Option-cases (free_in s.subnet used)) [
      | inl full ↦
          let taken =
            (free_in_lem n used v).1 (ap (λ o. free_in o used) (sym e) ∙ full) free host in
          ground (arith, holds-append free (ips s.ip_pool) session_ips)
      | inr (x, found) ↦ (x, rw (made, found) (ground arith))
    ]

pooled_lem :
    (s : Server) (c : ℕ) (name : Bytes) (ip : ℕ)
    → let t = pooled c name ip (remember_name c name s) in
      (t.ip_pool ≡ s.ip_pool) × (t.prefix_len ≡ s.prefix_len)
unfolding save_ip_pool
pooled_lem s c name ip = (ground arith, ground arith)

save_ip_pool-prefix_len : (s : Server) → (save_ip_pool s).prefix_len ≡ s.prefix_len
unfolding save_ip_pool
save_ip_pool-prefix_len s = ground arith

-- Whoever gets an address has it in the pool from then on.
allocate_ip_pool :
    (s : Server) (c : ℕ) (name : Bytes) (session_ips : List ℕ) (ip len : ℕ)
    → (allocate_ip s c name session_ips).0 ≡ some (ip, len)
    → let t = (allocate_ip s c name session_ips).1 in
      (lookup c t.ip_pool ≡ some ip) × (t.prefix_len ≡ len)
allocate_ip_pool s c name session_ips ip len got = elim (Option-cases (lookup c s.ip_pool)) [
  | inl new ↦
      let t = remember_name c name s in
      let made = allocate_ip-new s c name session_ips new in
      elim (Option-cases (free_in s.subnet (used_ips s session_ips))) [
        | inl full ↦
            let r : allocate_ip s c name session_ips ≡ allocated c none t = made ∙ rw full refl in
            ground arith
        | inr (x, found) ↦
            let r : allocate_ip s c name session_ips ≡ allocated c (some x) t =
              made ∙ rw found refl in
            let kept = save_ip_pool-prefix_len (record t { ip_pool = insert c x t.ip_pool }) in
            rw r (ground (arith, allocated-some c x t, kept))
      ]
  | inr (old, there) ↦
      let r = allocate_ip-pooled s c name session_ips old there in
      let (same_pool, same_len) = pooled_lem s c name old in rw r (ground arith)
]

-- An address that was given once is given again, whatever sessions and name there are by then.
pub allocate_ip_again :
    (s : Server) (c : ℕ) (name later : Bytes) (session_ips now_ips : List ℕ) (ip len : ℕ)
    → (allocate_ip s c name session_ips).0 ≡ some (ip, len)
    → (allocate_ip (allocate_ip s c name session_ips).1 c later now_ips).0 ≡ some (ip, len)
allocate_ip_again s c name later session_ips now_ips ip len got =
    let t = (allocate_ip s c name session_ips).1 in
    let (there, same) = allocate_ip_pool s c name session_ips ip len got in
    ap (λ r. r.0) (allocate_ip-pooled t c later now_ips ip there) ∙ ap (λ l. some (ip, l)) same
