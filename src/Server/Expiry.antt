-- ===== src/Server/Expiry.antt =====
-- server/server.go, cleanup and allocateIP: how long the pool keeps an address for a client that is gone.
use mpfpv.Base.{
  ℕ, ◌≡◌, refl, ap, ◌∙◌, arith, inl, inr, Bool, true, false, not, ◌⊎◌, ◌==◌, ◌||◌, ◌&&◌,
  if◌then◌else◌, Bool-cases, Option-cases, List, [], ◌∷◌, Option, none, some, lookup, delete,
  lookup-insert, lookup-delete, has_key, Distinct, insert-Distinct,
}
use mpfpv.Base.Bytes.{Bytes}
use mpfpv.Server.State.{Server, save_ip_pool}
use mpfpv.Dedup.{reset}
use mpfpv.Server.Pool.{holds, allocate_ip}
use mpfpv.Server.Pool.Alloc.{allocate_ip-pooled}
use mpfpv.Server.Cleanup.{
  older, mark_expiry, live_sessions, ended_sessions, end_sessions, overdue, forget, save_if_any,
  expire_pool, cleanup,
}

-- The client's session is among those that end.
abbrev pub ends_now : ℕ → List (ℕ × ℕ) → Bool
ends_now c [] = false
ends_now c ((k, ip) ∷ ended) = k == c || ends_now c ended

-- The time since the client is gone is longer than the limit; a client with no such time is not gone.
abbrev pub expired : ℕ → ℕ → Option ℕ → Bool
expired now limit none = false
expired now limit (some t) = older now t limit

mark_expiry_lem :
    (k now c : ℕ) (s : Server)
    → ((mark_expiry k now s).ip_pool ≡ s.ip_pool)
      × (lookup c (mark_expiry k now s).ip_pool_expiry
          ≡ (if k == c && has_key k s.ip_pool then some now else lookup c s.ip_pool_expiry))
mark_expiry_lem k now c s = elim (Option-cases (lookup k s.ip_pool)) [
  | inl absent ↦ (ground (arith, absent), ground (arith, absent))
  | inr (ip, there) ↦
      (ground (arith, there), ground (arith, there, lookup-insert k c now s.ip_pool_expiry))
]

mark_expiry-Distinct :
    (k now : ℕ) (s : Server)
    → Distinct s.ip_pool_expiry
    → Distinct (mark_expiry k now s).ip_pool_expiry
mark_expiry-Distinct k now s h = elim (Option-cases (lookup k s.ip_pool)) [
  | inl absent ↦ rw (absent, mark_expiry) h
  | inr (ip, there) ↦ rw (there, mark_expiry) (insert-Distinct k now s.ip_pool_expiry h)
]

end_sessions-Distinct :
    (now : ℕ) (ended : List (ℕ × ℕ)) (s : Server)
    → Distinct s.ip_pool_expiry
    → Distinct (end_sessions now ended s).ip_pool_expiry
unfolding end_sessions
end_sessions-Distinct now [] s h = h
end_sessions-Distinct now ((k, ip) ∷ ended) s h =
    end_sessions-Distinct now ended _ (mark_expiry-Distinct k now _ h)

-- The end of a session notes the time of the client's pool entry, and leaves the pool.
end_sessions-pool :
    (now c x : ℕ) (ended : List (ℕ × ℕ)) (s : Server)
    → lookup c s.ip_pool ≡ some x
    → ((end_sessions now ended s).ip_pool ≡ s.ip_pool)
      × (lookup c (end_sessions now ended s).ip_pool_expiry
          ≡ (if ends_now c ended then some now else lookup c s.ip_pool_expiry))
unfolding end_sessions
end_sessions-pool now c x [] s h = (refl, refl)
end_sessions-pool now c x ((k, ip) ∷ ended) s h =
    let u = record s { route_table = delete ip s.route_table; dedup = reset s.dedup k } in
    let (pool, noted) = mark_expiry_lem k now c u in
    let (same, at) =
      end_sessions-pool now c x ended (mark_expiry k now u)
        (ap (λ (m : List (ℕ × ℕ)). lookup c m) pool ∙ h) in
    (same ∙ pool, at ∙ ground (arith, noted, h))

overdue-holds :
    (now limit c : ℕ) (m : List (ℕ × ℕ))
    → Distinct m
    → holds c (overdue now limit m) ≡ expired now limit (lookup c m)
unfolding overdue
overdue-holds now limit c [] h = refl
overdue-holds now limit c ((k, t) ∷ m) h = ground (arith, overdue-holds now limit c m h.1, h.0)

forget-pool :
    (c : ℕ) (cs : List ℕ) (s : Server)
    → lookup c (forget cs s).ip_pool ≡ (if holds c cs then none else lookup c s.ip_pool)
unfolding forget
forget-pool c [] s = refl
forget-pool c (k ∷ cs) s = forget-pool c cs _ ∙ ground (arith, lookup-delete k c s.ip_pool)

save_if_any-pool : (cs : List ℕ) (s : Server) → (save_if_any cs s).ip_pool ≡ s.ip_pool
unfolding save_ip_pool
save_if_any-pool [] s = refl
save_if_any-pool (c ∷ cs) s = ground arith

expire_pool-pool :
    (now c : ℕ) (s : Server)
    → Distinct s.ip_pool_expiry
    → lookup c (expire_pool now s).ip_pool ≡ (
        if expired now s.ip_pool_retention (lookup c s.ip_pool_expiry)
        then none
        else lookup c s.ip_pool)
unfolding expire_pool
expire_pool-pool now c s h =
    let old = overdue now s.ip_pool_retention s.ip_pool_expiry in
    ap (λ (m : List (ℕ × ℕ)). lookup c m) (save_if_any-pool old (forget old s))
    ∙ forget-pool c old s
    ∙ ground (arith, overdue-holds now s.ip_pool_retention c s.ip_pool_expiry h)

end_sessions-retention :
    (now : ℕ) (ended : List (ℕ × ℕ)) (s : Server)
    → (end_sessions now ended s).ip_pool_retention ≡ s.ip_pool_retention
unfolding end_sessions
end_sessions-retention now [] s = refl
end_sessions-retention now ((k, ip) ∷ ended) s = end_sessions-retention now ended _ ∙ ground arith

-- A session that ends now is not gone for long.
unless_ended :
    (now limit ip : ℕ) (ends : Bool) (at : Option ℕ)
    → (if expired now limit (if ends then some now else at) then Option.none else some ip)
      ≡ (if not ends && expired now limit at then none else some ip)
unless_ended now limit ip true at =
    let fresh : older now now limit ≡ false = ground arith in rw fresh refl
unless_ended now limit ip false at = refl

-- The sessions that a cleanup ends.
abbrev pub ended_by : ℕ → Server → List (ℕ × ℕ)
ended_by now s = ended_sessions now s.addr_timeout s.client_timeout s.sessions

-- A cleanup keeps the address that the pool holds for a client exactly if the client's session ends with it or
-- the client is not gone for longer than the retention time; then a heartbeat that asks for an address
-- gets that one again.
pub cleanup-pool :
    (now c ip : ℕ) (name : Bytes) (used : List ℕ) (s : Server)
    → Distinct s.ip_pool_expiry
    → lookup c s.ip_pool ≡ some ip
    → let t = cleanup now s in
      let lost =
        not (ends_now c (ended_by now s))
        && expired now s.ip_pool_retention (lookup c s.ip_pool_expiry) in
      (lookup c t.ip_pool ≡ (if lost then none else some ip))
      × ((lost ≡ true) ⊎ ((allocate_ip t c name used).0 ≡ some (ip, t.prefix_len)))
unfolding cleanup
cleanup-pool now c ip name used s distinct there =
    let ended = ended_by now s in
    let u = record s { sessions = live_sessions now s.addr_timeout s.client_timeout s.sessions } in
    let v = end_sessions now ended u in
    let (pool, at) = end_sessions-pool now c ip ended u there in
    let left = expire_pool-pool now c v (end_sessions-Distinct now ended u distinct) in
    let limit = end_sessions-retention now ended u in
    let held : lookup c v.ip_pool ≡ some ip = ap (λ (m : List (ℕ × ℕ)). lookup c m) pool ∙ there in
    let gone = expired now s.ip_pool_retention (lookup c s.ip_pool_expiry) in
    let after =
      left
      ∙ (λ i. if expired now (limit i) (at i) then none else held i)
      ∙ unless_ended now s.ip_pool_retention ip (ends_now c ended) (lookup c s.ip_pool_expiry) in
    (
      after,
      elim (Bool-cases (not (ends_now c ended) && gone)) [
        | inl lost ↦ inl lost
        | inr kept ↦
            let still : lookup c (cleanup now s).ip_pool ≡ some ip = after ∙ rw kept refl in
            inr (ap (λ r. r.0) (allocate_ip-pooled (cleanup now s) c name used ip still))
      ],
    )
