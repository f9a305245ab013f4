-- ===== src/Server/Timeouts.antt =====
-- server/server.go, cleanup: whose sessions outlive it.
use mpfpv.Base.{
  ◌≤◌, ◌-◌, ltb, if◌then◌else◌, Option, none, sym, Distinct, ℕ, ◌≡◌, refl, ap, ◌∙◌, arith, false,
  ◌==◌, inl, inr, Bool-cases, List, [], ◌∷◌, some, lookup,
}
use mpfpv.Server.State.{AddrInfo, Session, Server, save_ip_pool}
use mpfpv.Server.Cleanup.{
  live_addrs, prune, ends, live_sessions, ended_sessions, end_sessions, overdue, forget,
  save_if_any, expire_pool, cleanup,
}

lookup-live_sessions :
    (now at ct c : ℕ) (m : List (ℕ × Session)) (x : Session)
    → lookup c m ≡ some x
    → ends now ct (prune now at x) ≡ false
    → lookup c (live_sessions now at ct m) ≡ some (prune now at x)
unfolding live_sessions
lookup-live_sessions now at ct c [] x there stays = cc
lookup-live_sessions now at ct c ((k, y) ∷ m) x there stays = elim (Bool-cases (k == c)) [
  | inl here ↦
      let same : y ≡ x = ground arith in
      let kept : ends now ct (prune now at y) ≡ false =
        ap (λ (z : Session). ends now ct (prune now at z)) same ∙ stays in
      rw (kept, here) (ap (λ (z : Session). some (prune now at z)) same)
  | inr further ↦
      let tail : lookup c m ≡ some x = ground arith in
      let found = lookup-live_sessions now at ct c m x tail stays in
      elim (Bool-cases (ends now ct (prune now at y))) [
        | inl gone ↦ rw gone found
        | inr kept ↦ rw (kept, further) found
      ]
]

end_sessions-sessions :
    (now : ℕ) (ended : List (ℕ × ℕ)) (s : Server) → (end_sessions now ended s).sessions ≡ s.sessions
unfolding end_sessions
end_sessions-sessions now [] s = refl
end_sessions-sessions now ((c, ip) ∷ ended) s = end_sessions-sessions now ended _ ∙ ground arith

forget-sessions : (cs : List ℕ) (s : Server) → (forget cs s).sessions ≡ s.sessions
unfolding forget
forget-sessions [] s = refl
forget-sessions (c ∷ cs) s = forget-sessions cs _

save_ip_pool-sessions : (s : Server) → (save_ip_pool s).sessions ≡ s.sessions
unfolding save_ip_pool
save_ip_pool-sessions s = ground arith

save_if_any-sessions : (cs : List ℕ) (s : Server) → (save_if_any cs s).sessions ≡ s.sessions
save_if_any-sessions [] s = refl
save_if_any-sessions (c ∷ cs) s = save_ip_pool-sessions s

expire_pool-sessions : (now : ℕ) (s : Server) → (expire_pool now s).sessions ≡ s.sessions
unfolding expire_pool
expire_pool-sessions now s =
    let old = overdue now s.ip_pool_retention s.ip_pool_expiry in
    save_if_any-sessions old (forget old s) ∙ forget-sessions old s

-- An endpoint that a client had, after a cleanup.
abbrev pub unless_silent : ℕ → ℕ → Option AddrInfo → Option AddrInfo
unless_silent now timeout none = none
unless_silent now timeout (some ai) = if ltb timeout (now - ai.last_seen) then none else some ai

absent-live_addrs :
    (now limit k : ℕ) (m : List (ℕ × AddrInfo))
    → lookup k m ≡ none
    → lookup k (live_addrs now limit m) ≡ none
absent-live_addrs now limit k [] h = refl
absent-live_addrs now limit k ((j, ai) ∷ m) h = ground (arith, absent-live_addrs now limit k m)

lookup-live_addrs :
    (now limit k : ℕ) (m : List (ℕ × AddrInfo))
    → Distinct m
    → lookup k (live_addrs now limit m) ≡ unless_silent now limit (lookup k m)
lookup-live_addrs now limit k [] h = refl
lookup-live_addrs now limit k ((j, ai) ∷ m) h = elim (Bool-cases (j == k)) [
  | inl here ↦
      let same : j ≡ k = ground (arith, here) in
      let once : lookup k m ≡ none = ap (λ i. lookup i m) (sym same) ∙ h.0 in
      ground (arith, here, absent-live_addrs now limit k m once)
  | inr further ↦ ground (arith, further, lookup-live_addrs now limit k m h.1)
]

-- A client that was heard from within the client timeout, and whose endpoints are listed once each, keeps
-- its session through a cleanup, with its virtual IP, prefix length, name, byte counts and the time it was
-- last heard from. Each of its endpoints is kept, with all that was noted of it, if it was heard from within
-- the endpoint timeout, and is lost if not; no other endpoint is added.
pub cleanup-keeps :
    (now c : ℕ) (s : Server) (x : Session)
    → lookup c s.sessions ≡ some x
    → now - x.last_seen ≤ s.client_timeout
    → Distinct x.addrs
    → (y : Session) × (lookup c (cleanup now s).sessions ≡ some y)
      × ((k : ℕ) → lookup k y.addrs ≡ unless_silent now s.addr_timeout (lookup k x.addrs))
      × (record y { addrs = x.addrs } ≡ x)
unfolding cleanup
cleanup-keeps now c s x there heard once =
    let live = live_sessions now s.addr_timeout s.client_timeout s.sessions in
    let ended = ended_sessions now s.addr_timeout s.client_timeout s.sessions in
    let t : Server = record s { sessions = live } in
    (
      prune now s.addr_timeout x,
      ap (lookup c) (
            expire_pool-sessions now (end_sessions now ended t) ∙ end_sessions-sessions now ended t)
          ∙ lookup-live_sessions now s.addr_timeout s.client_timeout c s.sessions x there
              (ground arith),
      λ k. lookup-live_addrs now s.addr_timeout k x.addrs once,
      refl,
    )
