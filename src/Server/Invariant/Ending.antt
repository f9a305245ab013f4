-- ===== src/Server/Invariant/Ending.antt =====
-- server/server.go, cleanup, and server/web.go, deleteClient: a session that ends takes its route
-- with it, and no other.
use mathlib.Core.Path.{subst}
use mpfpv.Base.{
  ℕ, ◌≡◌, refl, sym, ap, ◌∙◌, arith, inl, inr, Bool, false, ◌==◌, ◌||◌, Bool-cases, Option-cases,
  List, [], ◌∷◌, none, some, lookup, Distinct, delete,
}
use mpfpv.Dedup.{reset}
use mpfpv.Server.State.{Session, Server, session_ips, save_ip_pool}
use mpfpv.Server.Addressing.{Addressing, end_session, forget_entry}
use mpfpv.Server.Cleanup.{
  prune, ends, live_sessions, ended_sessions, mark_expiry, end_sessions, overdue, forget,
  save_if_any, expire_pool, cleanup, delete_client,
}
use mpfpv.Server.Invariant.Same.{
  Inv, Same-Inv, session_ips-delete, lookup-session_ips, save_ip_pool-Same,
}

abbrev has_entry : ℕ → List (ℕ × ℕ) → Bool
has_entry c [] = false
has_entry c ((k, x) ∷ m) = k == c || has_entry c m

-- The ended sessions have, one after the other, the addresses that the list gives them.
abbrev Listed : List (ℕ × ℕ) → List (ℕ × ℕ) → Type 0
Listed [] vips = Unit
Listed ((c, ip) ∷ es) vips = (lookup c vips ≡ some ip) × Listed es (delete c vips)

abbrev delete_all : List (ℕ × ℕ) → List (ℕ × ℕ) → List (ℕ × ℕ)
delete_all [] vips = vips
delete_all ((c, ip) ∷ es) vips = delete_all es (delete c vips)

delete_absent : (c : ℕ) (m : List (ℕ × ℕ)) → lookup c m ≡ none → delete c m ≡ m
delete_absent c [] h = refl
delete_absent c ((k, x) ∷ m) h = ground (arith, delete_absent c m)

head_deleted : (c ip : ℕ) (m : List (ℕ × ℕ)) → lookup c m ≡ none → delete c ((c, ip) ∷ m) ≡ m
head_deleted c ip m h = ground (arith, delete_absent c m)

Listed-cons :
    (c ip : ℕ) (es vips : List (ℕ × ℕ))
    → has_entry c es ≡ false
    → Listed es vips
    → Listed es ((c, ip) ∷ vips)
Listed-cons c ip [] vips h l = tt
Listed-cons c ip ((k, x) ∷ es) vips h l = ground (arith, Listed-cons c ip es (delete k vips))

delete_all-cons :
    (c ip : ℕ) (es vips : List (ℕ × ℕ))
    → has_entry c es ≡ false
    → delete_all es ((c, ip) ∷ vips) ≡ (c, ip) ∷ delete_all es vips
delete_all-cons c ip [] vips h = refl
delete_all-cons c ip ((k, x) ∷ es) vips h = ground (arith, delete_all-cons c ip es (delete k vips))

module _ (now at ct : ℕ) where
  ended-absent :
      (c : ℕ) (m : List (ℕ × Session))
      → lookup c (session_ips m) ≡ none
      → has_entry c (ended_sessions now at ct m) ≡ false
  unfolding ended_sessions
  ended-absent c [] h = refl
  ended-absent c ((k, x) ∷ m) h = ground (arith, ended-absent c m)

  ended-Listed :
      (m : List (ℕ × Session))
      → Distinct (session_ips m)
      → Listed (ended_sessions now at ct m) (session_ips m)
  unfolding ended_sessions
  ended-Listed [] h = tt
  ended-Listed ((c, x) ∷ m) h = elim (Bool-cases (ends now ct (prune now at x))) [
    | inl over ↦ rw over (
      ground arith,
      subst (Listed (ended_sessions now at ct m))
          (sym (head_deleted c x.virtual_ip (session_ips m) h.0)) (ended-Listed m h.1),
    )
    | inr stays ↦
        rw stays (Listed-cons c x.virtual_ip _ _ (ended-absent c m h.0) (ended-Listed m h.1))
  ]

  live-delete_all :
      (m : List (ℕ × Session))
      → Distinct (session_ips m)
      → session_ips (live_sessions now at ct m)
        ≡ delete_all (ended_sessions now at ct m) (session_ips m)
  unfolding ended_sessions live_sessions
  live-delete_all [] h = refl
  live-delete_all ((c, x) ∷ m) h = elim (Bool-cases (ends now ct (prune now at x))) [
    | inl over ↦ rw over (
        live-delete_all m h.1
        ∙ ap (delete_all (ended_sessions now at ct m))
            (sym (head_deleted c x.virtual_ip (session_ips m) h.0)))
    | inr stays ↦
        rw
          (
            stays,
            delete_all-cons c x.virtual_ip (ended_sessions now at ct m) (session_ips m)
                (ended-absent c m h.0),
          )
          (ap (◌∷◌ (c, x.virtual_ip)) (live-delete_all m h.1))
  ]

mark_expiry_fields :
    (c now : ℕ) (s : Server)
    → let t = mark_expiry c now s in
      (t.sessions ≡ s.sessions)
      × (t.route_table ≡ s.route_table)
      × (t.ip_pool ≡ s.ip_pool)
      × (t.server_virtual_ip ≡ s.server_virtual_ip)
      × (t.subnet ≡ s.subnet)
mark_expiry_fields c now s = ground arith

-- Routes, pool and subnet after the loop over the ended sessions.
end_sessions-Addressing :
    (now : ℕ) (es vips : List (ℕ × ℕ)) (s : Server)
    → Listed es vips
    → Addressing vips s.route_table s.ip_pool s.server_virtual_ip
    → let t = end_sessions now es s in
      Addressing (delete_all es vips) t.route_table t.ip_pool t.server_virtual_ip
      × (t.sessions ≡ s.sessions)
      × (t.subnet ≡ s.subnet)
unfolding end_sessions
end_sessions-Addressing now [] vips s l a = (a, refl, refl)
end_sessions-Addressing now ((c, ip) ∷ es) vips s l a =
    let u = record s { route_table = delete ip s.route_table; dedup = reset s.dedup c } in
    let f = mark_expiry_fields c now u in
    let (order, sessions, subnet) =
      end_sessions-Addressing now es (delete c vips) (mark_expiry c now u) l.1
        (rw (f.1, f.2, f.3) (end_session a c ip l.0)) in
    (order, sessions ∙ f.0, subnet ∙ f.4)

forget-Inv : (cs : List ℕ) (s : Server) → Inv s → Inv (forget cs s)
unfolding forget
forget-Inv [] s v = v
forget-Inv (c ∷ cs) s v =
    forget-Inv cs _
      (record { addressing = forget_entry v.addressing c; subnet_valid = v.subnet_valid })

expire_pool-Inv : (now : ℕ) (s : Server) → Inv s → Inv (expire_pool now s)
unfolding expire_pool
expire_pool-Inv now s v =
    saved (overdue now s.ip_pool_retention s.ip_pool_expiry) _
      (forget-Inv (overdue now s.ip_pool_retention s.ip_pool_expiry) s v)
  where
    saved : (cs : List ℕ) (t : Server) → Inv t → Inv (save_if_any cs t)
    saved [] t w = w
    saved (c ∷ cs) t w = Same-Inv (save_ip_pool-Same t) w

-- A cleanup at any time keeps the virtual IPs in order.
pub cleanup-Inv : (now : ℕ) (s : Server) → Inv s → Inv (cleanup now s)
unfolding cleanup
cleanup-Inv now s v =
    let ended = ended_sessions now s.addr_timeout s.client_timeout s.sessions in
    let live = live_sessions now s.addr_timeout s.client_timeout s.sessions in
    let (order, sessions, subnet) =
      end_sessions-Addressing now ended (session_ips s.sessions) (record s { sessions = live })
        (ended-Listed now s.addr_timeout s.client_timeout s.sessions v.addressing.distinct)
        v.addressing in
    expire_pool-Inv now (end_sessions now ended (record s { sessions = live })) (record {
      addressing =
          rw
            (
              sessions,
              live-delete_all now s.addr_timeout s.client_timeout s.sessions v.addressing.distinct,
            )
            order;
      subnet_valid = λ n h. v.subnet_valid n (sym subnet ∙ h);
    })

-- Deleting a client keeps them in order.
pub delete_client-Inv : (id : ℕ) (s t : Server) → Inv s → delete_client id s ≡ some t → Inv t
unfolding delete_client
delete_client-Inv id s t v e = elim (Option-cases (lookup id s.sessions)) [
  | inl missing ↦ ground arith
  | inr (x, there) ↦
      let u = record s {
        sessions = delete id s.sessions;
        route_table = delete x.virtual_ip s.route_table;
        dedup = reset s.dedup id;
        ip_pool = delete id s.ip_pool;
        ip_pool_names = delete id s.ip_pool_names;
      } in
      let gone : save_ip_pool u ≡ t = ground arith in
      rw (← gone) (Same-Inv (save_ip_pool-Same u) (deleted x there))
]
  where
    deleted :
        (x : Session)
        → lookup id s.sessions ≡ some x
        → Inv (record s {
          sessions = delete id s.sessions;
          route_table = delete x.virtual_ip s.route_table;
          dedup = reset s.dedup id;
          ip_pool = delete id s.ip_pool;
          ip_pool_names = delete id s.ip_pool_names;
        })
    deleted x there = record {
      addressing = rw (session_ips-delete id s.sessions) (
          forget_entry
            (end_session v.addressing id x.virtual_ip (lookup-session_ips id s.sessions x there))
            id);
      subnet_valid = v.subnet_valid;
    }
