-- ===== src/Server/Invariant/Register.antt =====
-- server/server.go, handleHeartbeat: the address of a new session is one that nobody else has.
use mpfpv.Base.{
  ℕ, ◌≡◌, ◌≢◌, refl, sym, ap, ◌∙◌, arith, ◌⊎◌, inl, inr, Bool, false, ◌==◌, not, Bool-cases,
  Option-cases, List, [], ◌∷◌, Option, none, some, lookup, insert, delete, lookup-insert,
}
use mpfpv.Base.Bytes.{Bytes, get_u32, bytes_eq}
use mpfpv.Base.Results.{Result, ok, err}
use mpfpv.Protocol.Wire.{
  ProtocolError, Header, Heartbeat, decode_heartbeat, ack_status_ok, ack_status_bad_team_key,
}
use mpfpv.Server.State.{AddrInfo, Session, Server, Subnet, session_ips}
use mpfpv.Server.Addressing.{Addressing, Free, assign, assign_none, add_to_pool}
use mpfpv.Server.Pool.{holds, ips, used_ips, free_in, allocate_ip, allocated, pooled, remember_name}
use mpfpv.Server.Pool.Alloc.{
  allocate_ip-pooled, allocate_ip-new, holds-lookup, holds-append, free_in_lem,
}
use mpfpv.Server.Send.{send_heartbeat_ack}
use mpfpv.Server.Heartbeat.{
  held_by_other, requested_ip, from_pool, assign_ip, keep_in_pool, publish, new_session, register,
  refresh, known_or_new, accept_heartbeat, handle_heartbeat,
}
use mpfpv.Server.Invariant.Same.{
  Inv, Same-Inv, Same-trans, session_ips-insert, put_back, lookup-session_ips-none,
  send_heartbeat_ack-Same, save_ip_pool-Same, save_ip_pool_fields,
}

held_by_other-lookup :
    (c d ip : ℕ) (m : List (ℕ × ℕ)) → held_by_other c ip m ≡ false → lookup d m ≡ some ip → d ≡ c
held_by_other-lookup c d ip [] h e = cc
held_by_other-lookup c d ip ((k, x) ∷ m) h e = ground (arith, held_by_other-lookup c d ip m)

-- What a new client is given: 0, or an address free for it; and the pool stays in order.
pub record Given (s : Server) (c ip : ℕ) (t : Server) : Type 0 where
  pub sessions_same : t.sessions ≡ s.sessions
  pub routes_same : t.route_table ≡ s.route_table
  pub server_same : t.server_virtual_ip ≡ s.server_virtual_ip
  pub subnet_same : t.subnet ≡ s.subnet
  pub in_order : Addressing (session_ips s.sessions) s.route_table t.ip_pool s.server_virtual_ip
  pub free_or_none : (ip ≡ 0) ⊎ Free (session_ips s.sessions) t.ip_pool s.server_virtual_ip c ip

-- Every field that addressing reads is the same, but for the pool.
abbrev ButPool : Server → Server → Type 0
ButPool s t =
    (t.sessions ≡ s.sessions)
    × (t.route_table ≡ s.route_table)
    × (t.server_virtual_ip ≡ s.server_virtual_ip)
    × (t.subnet ≡ s.subnet)

given :
    {s : Server} {c ip : ℕ} {t : Server} (pool : List (ℕ × ℕ))
    → ButPool s t
    → t.ip_pool ≡ pool
    → Addressing (session_ips s.sessions) s.route_table pool s.server_virtual_ip
    → (ip ≡ 0) ⊎ Free (session_ips s.sessions) pool s.server_virtual_ip c ip
    → Given s c ip t
given pool (a, b, d, e) same order free = record {
  sessions_same = a;
  routes_same = b;
  server_same = d;
  subnet_same = e;
  in_order = rw same order;
  free_or_none = rw same free;
}

module _ (s : Server) (c : ℕ) (v : Inv s) (new : lookup c (session_ips s.sessions) ≡ none) where
  requested_ip-Free :
      (vip : ℕ)
      → requested_ip s c vip ≢ 0
      → Free (session_ips s.sessions) s.ip_pool s.server_virtual_ip c (requested_ip s c vip)
  unfolding requested_ip
  requested_ip-Free vip n = record {
    nonzero = n;
    no_server = ground arith;
    no_session = λ d e. ground (arith, held_by_other-lookup c d vip (session_ips s.sessions));
    no_pool = λ d e. ground (arith, held_by_other-lookup c d vip s.ip_pool);
  }

  pooled-Free :
      (old : ℕ)
      → lookup c s.ip_pool ≡ some old
      → Free (session_ips s.sessions) s.ip_pool s.server_virtual_ip c old
  pooled-Free old e = record {
    nonzero = (v.addressing.pool_usable c old e).0;
    no_server = (v.addressing.pool_usable c old e).1;
    no_session = λ d h. v.addressing.reserved d c old h e;
    no_pool = λ d h. v.addressing.pool_apart d c old h e;
  }

  unused-Free :
      (ip : ℕ)
      → ip ≢ 0
      → holds ip (used_ips s (ips (session_ips s.sessions))) ≡ false
      → Free (session_ips s.sessions) s.ip_pool s.server_virtual_ip c ip
  unused-Free ip n unused = record {
    nonzero = n;
    no_server = ground arith;
    no_session = λ d h. ground (
      arith,
      holds-append ip (ips s.ip_pool) (ips (session_ips s.sessions)),
      holds-lookup d ip (session_ips s.sessions),
    );
    no_pool = λ d h. ground (
      arith,
      holds-append ip (ips s.ip_pool) (ips (session_ips s.sessions)),
      holds-lookup d ip s.ip_pool,
    );
  }

  pooled-Given :
      (name : Bytes) (len old : ℕ)
      → lookup c s.ip_pool ≡ some old
      → Given s c old (pooled c name old (remember_name c name s))
  pooled-Given name len old there =
      let u = record (remember_name c name s) { ip_pool_expiry = delete c s.ip_pool_expiry } in
      given s.ip_pool (ground (arith, save_ip_pool_fields u))
        (ground (arith, save_ip_pool_fields u)) v.addressing (inr (pooled-Free old there))

  found-Given :
      (name : Bytes) (ip : ℕ)
      → Free (session_ips s.sessions) s.ip_pool s.server_virtual_ip c ip
      → Given s c ip (allocated c (some ip) (remember_name c name s)).1
  found-Given name ip f =
      let u = record (remember_name c name s) {
        ip_pool = insert c ip (remember_name c name s).ip_pool;
      } in
      given (insert c ip s.ip_pool) (ground (arith, save_ip_pool_fields u))
        (ground (arith, save_ip_pool_fields u)) (add_to_pool v.addressing c ip f)
        (inr (record {
          nonzero = f.nonzero;
          no_server = f.no_server;
          no_session = f.no_session;
          no_pool = λ d h. ground (arith, lookup-insert c d ip s.ip_pool, f.no_pool d);
        }))

  found_in-Free :
      (o : Option Subnet) (ip : ℕ)
      → s.subnet ≡ o
      → free_in o (used_ips s (ips (session_ips s.sessions))) ≡ some ip
      → Free (session_ips s.sessions) s.ip_pool s.server_virtual_ip c ip
  found_in-Free none ip e found = cc
  found_in-Free (some n) ip e found =
      let (host, unused) =
        (free_in_lem n (used_ips s (ips (session_ips s.sessions))) (v.subnet_valid n e)).0 ip
          found in
      unused-Free ip (omega (arith, host.0)) unused

  allocate_ip-Given :
      (name : Bytes) (len : ℕ)
      → let r = from_pool len (allocate_ip s c name (ips (session_ips s.sessions))) in
        Given s c r.0.0 r.1
  allocate_ip-Given name len =
      let used = used_ips s (ips (session_ips s.sessions)) in
      let t = remember_name c name s in
      elim (Option-cases (lookup c s.ip_pool)) [
        | inr (old, there) ↦
            rw (allocate_ip-pooled s c name (ips (session_ips s.sessions)) old there)
              (pooled-Given name len old there)
        | inl absent ↦
            rw (allocate_ip-new s c name (ips (session_ips s.sessions)) absent)
              (elim (Option-cases (free_in s.subnet used)) [
                | inl full ↦
                    rw full (given s.ip_pool (ground arith) (ground arith) v.addressing (inl refl))
                | inr (ip, found) ↦
                    rw found (found-Given name ip (found_in-Free s.subnet ip refl found))
              ])
      ]

  assign_ip-Given :
      (vip len : ℕ) (name : Bytes) → let r = assign_ip s c vip len name in Given s c r.0.0 r.1
  unfolding assign_ip
  assign_ip-Given vip len name = elim (Bool-cases (requested_ip s c vip == 0)) [
    | inl none_asked ↦ rw none_asked (allocate_ip-Given name len)
    | inr asked ↦ rw asked (record {
      sessions_same = refl;
      routes_same = refl;
      server_same = refl;
      subnet_same = refl;
      in_order = v.addressing;
      free_or_none = inr (requested_ip-Free vip (ground arith));
    })
  ]

  vips_after :
      (ip : ℕ) (sess : Session) (t : Server)
      → Given s c ip t
      → sess.virtual_ip ≡ ip
      → session_ips (insert c sess t.sessions) ≡ insert c ip (session_ips s.sessions)
  vips_after ip sess t g e =
      session_ips-insert c sess t.sessions
      ∙ ap (λ m. insert c sess.virtual_ip (session_ips m)) g.sessions_same
      ∙ ap (λ x. insert c x (session_ips s.sessions)) e

  -- With the new session and its route in place, the pool entry follows.
  keep_in_pool-Inv :
      (ip : ℕ) (name : Bytes) (u : Server)
      → Inv u
      → Free (session_ips u.sessions) u.ip_pool u.server_virtual_ip c ip
      → Inv (keep_in_pool c ip name u)
  keep_in_pool-Inv ip name u w f = elim (Option-cases (lookup c u.ip_pool)) [
    | inr (old, there) ↦ rw (there, keep_in_pool) w
    | inl absent ↦
        rw (absent, keep_in_pool)
          (Same-Inv (save_ip_pool-Same _) (record {
            addressing = add_to_pool w.addressing c ip f;
            subnet_valid = w.subnet_valid;
          }))
  ]

  publish-Inv :
      (ip : ℕ) (name : Bytes) (sess : Session) (t : Server)
      → Given s c ip t
      → sess.virtual_ip ≡ ip
      → Inv (publish c ip name (record t { sessions = insert c sess t.sessions }))
  unfolding publish
  publish-Inv ip name sess t g e = elim (Bool-cases (ip == 0)) [
    | inl zero ↦
        let none_given : ip ≡ 0 = ground arith in
        rw zero (record {
          addressing =
              rw (vips_after ip sess t g e, none_given, g.routes_same, g.server_same)
                (assign_none g.in_order c new);
          subnet_valid = λ n h. v.subnet_valid n (sym g.subnet_same ∙ h);
        })
    | inr nonzero ↦
        rw nonzero
          (keep_in_pool-Inv ip name _ (with_route (a_free nonzero)) (still_free (a_free nonzero)))
  ]
    where
      vips : List (ℕ × ℕ)
      vips = session_ips s.sessions

      a_free : (ip == 0) ≡ false → Free vips t.ip_pool s.server_virtual_ip c ip
      a_free nonzero = elim g.free_or_none [ inl z ↦ absurd (ground arith) | inr f ↦ f ]

      with_route :
          Free vips t.ip_pool s.server_virtual_ip c ip
          → Inv (record t {
            sessions = insert c sess t.sessions;
            route_table = insert ip c t.route_table;
            ip_pool_expiry = delete c t.ip_pool_expiry;
          })
      with_route f = record {
        addressing =
            rw (vips_after ip sess t g e, g.routes_same, g.server_same)
              (assign g.in_order c ip new f);
        subnet_valid = λ n h. v.subnet_valid n (sym g.subnet_same ∙ h);
      }

      still_free :
          Free vips t.ip_pool s.server_virtual_ip c ip
          → Free (session_ips (insert c sess t.sessions)) t.ip_pool t.server_virtual_ip c ip
      still_free f =
          rw (vips_after ip sess t g e, g.server_same)
            (record {
              nonzero = f.nonzero;
              no_server = f.no_server;
              no_session = λ d h. ground (arith, lookup-insert c d ip vips, f.no_session d);
              no_pool = f.no_pool;
            })

publish-sessions :
    (c ip : ℕ) (name : Bytes) (u : Server) → (publish c ip name u).sessions ≡ u.sessions
unfolding publish
publish-sessions c ip name u = elim (Bool-cases (ip == 0)) [
  | inl zero ↦ rw zero
  | inr nonzero ↦ rw nonzero (elim (Option-cases (lookup c u.ip_pool)) [
    | inl absent ↦ rw (absent, keep_in_pool) (save_ip_pool_fields _).0
    | inr (old, there) ↦ rw (there, keep_in_pool)
  ])
]

found_there : (c : ℕ) (x : Session) (m : List (ℕ × Session)) → lookup c (insert c x m) ≡ some x
found_there c x m = ground (arith, lookup-insert c c x m)

-- The handler's first half: a session for the client, and the addresses in order with it.
register-Inv :
    (s : Server) (c now : ℕ) (hb : Heartbeat)
    → Inv s
    → lookup c s.sessions ≡ none
    → let r = register c now hb s in Inv r.1 × (lookup c r.1.sessions ≡ some r.0)
unfolding register
register-Inv s c now hb v new =
    let fresh = lookup-session_ips-none c s.sessions new in
    let ((ip, len), t) = assign_ip s c (get_u32 hb.virtual_ip) hb.prefix_len hb.device_name in
    let g = assign_ip-Given s c v fresh (get_u32 hb.virtual_ip) hb.prefix_len hb.device_name in
    let sess = new_session c ip len hb.device_name now in
    (
      publish-Inv s c v fresh ip hb.device_name sess t g refl,
      ap (lookup c) (
            publish-sessions c ip hb.device_name (record t { sessions = insert c sess t.sessions }))
          ∙ found_there c sess t.sessions,
    )

-- The rest of the handler: a known client's session is put back with its address, and the ack is sent.
touched-Inv :
    (write_ok : ℕ → Bool) (s : Server) (c from : ℕ) (old sess : Session)
    (addrs : List (ℕ × AddrInfo))
    → Inv s
    → lookup c s.sessions ≡ some old
    → sess.virtual_ip ≡ old.virtual_ip
    → Inv (
        send_heartbeat_ack write_ok from sess.virtual_ip sess.prefix_len ack_status_ok
          (record s { sessions = insert c (record sess { addrs = addrs }) s.sessions }))
touched-Inv write_ok s c from old sess addrs v there same =
    Same-Inv
      (Same-trans
        (record {
          same_vips = put_back c old (record sess { addrs = addrs }) s.sessions there same;
          same_routes = refl;
          same_pool = refl;
          same_server = refl;
          same_subnet = refl;
        })
        (send_heartbeat_ack-Same write_ok from sess.virtual_ip sess.prefix_len ack_status_ok _))
      v

accept_heartbeat-Inv :
    (write_ok : ℕ → Bool) (s : Server) (c from now : ℕ) (hb : Heartbeat)
    → Inv s
    → Inv (accept_heartbeat write_ok c from now hb s)
unfolding accept_heartbeat
accept_heartbeat-Inv write_ok s c from now hb v = elim (Option-cases (lookup c s.sessions)) [
  | inl new ↦
      rw (new, known_or_new)
        (touched-Inv write_ok (register c now hb s).1 c from (register c now hb s).0
          (register c now hb s).0 _ (register-Inv s c now hb v new).0
          (register-Inv s c now hb v new).1 refl)
  | inr (old, there) ↦
      rw (there, known_or_new)
        (touched-Inv write_ok s c from old (refresh now hb old) _ v there refl)
]

-- A heartbeat, whatever its bytes and its sender, keeps the virtual IPs in order.
pub handle_heartbeat-Inv :
    (write_ok : ℕ → Bool) (s : Server) (hdr : Header) (payload : Bytes) (from now : ℕ)
    → Inv s
    → Inv (handle_heartbeat write_ok hdr payload from now s)
unfolding handle_heartbeat
handle_heartbeat-Inv write_ok s hdr payload from now v = go (decode_heartbeat payload) refl
  where
    go :
        (r : Result ProtocolError Heartbeat)
        → decode_heartbeat payload ≡ r
        → Inv (handle_heartbeat write_ok hdr payload from now s)
    go (err x) e = rw (e, handle_heartbeat) v
    go (ok hb) e =
        rw (e, handle_heartbeat)
          (elim (Bool-cases (not (bytes_eq hb.team_key_hash s.team_key_hash))) [
            | inl bad ↦
                rw bad
                  (Same-Inv (send_heartbeat_ack-Same write_ok from 0 0 ack_status_bad_team_key s) v)
            | inr good ↦ rw good (elim (Bool-cases (hdr.client_id == 0)) [
              | inl zero ↦ rw zero v
              | inr known ↦ rw known (accept_heartbeat-Inv write_ok s hdr.client_id from now hb v)
            ])
          ])
