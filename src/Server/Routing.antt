-- ===== src/Server/Routing.antt =====
-- server/server.go, handleData and sendToClient: which packets go on, and to whom.
use mpfpv.Base.{
  ℕ, ◌≡◌, ◌≢◌, refl, ap, ◌∙◌, arith, ◌⊎◌, inl, inr, Bool, true, false, ◌==◌, ◌&&◌, if◌then◌else◌,
  Bool-cases, Option-cases, List, [], ◌∷◌, Option, none, some, lookup, insert, lookup-insert,
}
use mpfpv.Base.Bytes.{Bytes}
use mpfpv.Protocol.Wire.{Header}
use mpfpv.Dedup.{is_duplicate}
use mpfpv.Server.State.{AddrInfo, Session, Server, Effect, sent, session_ips}
use mpfpv.Server.Send.{change_session, count_tx, endpoints, write_all, send_to_client}
use mpfpv.Server.Data.{
  is_ipv4, src_ip, dst_ip, change_addr, seen_now, route, from_client, handle_data,
}
use mpfpv.Server.Invariant.Same.{Inv, lookup-session_ips}

-- What leaves when `pkt` is offered to each endpoint in turn: a datagram for each write that succeeds.
abbrev pub delivered : (ℕ → Bool) → Bytes → List ℕ → List Effect → List Effect
delivered write_ok pkt [] es = es
delivered write_ok pkt (addr ∷ addrs) es =
    delivered write_ok pkt addrs (if write_ok addr then sent addr pkt ∷ es else es)

change_session-effects :
    (c : ℕ) (f : Session → Session) (s : Server) → (change_session c f s).effects ≡ s.effects
change_session-effects c f s = ground arith

write_all-effects :
    (write_ok : ℕ → Bool) (c : ℕ) (pkt : Bytes) (addrs : List ℕ) (s : Server)
    → (write_all write_ok c pkt addrs s).effects ≡ delivered write_ok pkt addrs s.effects
unfolding write_all
write_all-effects write_ok c pkt [] s = refl
write_all-effects write_ok c pkt (addr ∷ addrs) s = elim (Bool-cases (write_ok addr)) [
  | inl good ↦
      rw (good, write_all)
        (write_all-effects write_ok c pkt addrs (count_tx c addr pkt s)
          ∙ ap (delivered write_ok pkt addrs) (change_session-effects c _ _))
  | inr bad ↦ rw (bad, write_all) (write_all-effects write_ok c pkt addrs s)
]

-- A send offers the packet once to each endpoint that the client is known under, and to nobody else.
pub send_to_client_lem :
    (write_ok : ℕ → Bool) (c : ℕ) (pkt : Bytes) (s : Server) (x : Session)
    → lookup c s.sessions ≡ some x
    → (send_to_client write_ok c pkt s).effects
      ≡ delivered write_ok pkt (endpoints x.addrs) s.effects
unfolding send_to_client
send_to_client_lem write_ok c pkt s x e =
    rw (e, send_to_client) (write_all-effects write_ok c pkt (endpoints x.addrs) s)

endpoints-insert :
    (k : ℕ) (old new : AddrInfo) (m : List (ℕ × AddrInfo))
    → lookup k m ≡ some old
    → new.addr ≡ old.addr
    → endpoints (insert k new m) ≡ endpoints m
endpoints-insert k old new [] e h = cc
endpoints-insert k old new ((j, x) ∷ m) e h = ground (arith, endpoints-insert k old new m)

endpoints-seen_now :
    (from now : ℕ) (x : Session) → endpoints (seen_now from now x).addrs ≡ endpoints x.addrs
endpoints-seen_now from now x = elim (Option-cases (lookup from x.addrs)) [
  | inl e ↦ rw (e, change_addr)
  | inr (ai, e) ↦ rw (e, change_addr) (endpoints-insert from ai _ x.addrs e refl)
]

-- A packet is dropped, with nothing sent, if it is a duplicate, if its client has no session, if it is
-- not IPv4 of 20 bytes or more, or if its source is not the virtual IP that the client was given.
pub handle_data_refused :
    (write_ok : ℕ → Bool) (hdr : Header) (payload : Bytes) (from now : ℕ) (raw : Bytes) (s : Server)
    → ((is_duplicate s.dedup hdr.client_id hdr.seq).0 ≡ true)
      ⊎ (lookup hdr.client_id s.sessions ≡ none)
      ⊎ (is_ipv4 payload ≡ false)
      ⊎ ((x : Session) × (lookup hdr.client_id s.sessions ≡ some x)
          × (src_ip payload ≢ x.virtual_ip))
    → let t = handle_data write_ok hdr payload from now raw s in
      (t.effects ≡ s.effects) × (t.sessions ≡ s.sessions)
unfolding handle_data
handle_data_refused write_ok hdr payload from now raw s (inl dup) = rw dup (refl, refl)
handle_data_refused write_ok hdr payload from now raw s (inr why) =
    elim (Bool-cases (is_duplicate s.dedup hdr.client_id hdr.seq).0) [
      | inl dup ↦ rw dup (refl, refl)
      | inr new ↦ rw new (refused (lookup hdr.client_id s.sessions) refl why)
    ]
  where
    u : Server
    u = record s { dedup = (is_duplicate s.dedup hdr.client_id hdr.seq).1 }

    refused :
        (o : Option Session)
        → lookup hdr.client_id s.sessions ≡ o
        → ((lookup hdr.client_id s.sessions ≡ none)
            ⊎ (is_ipv4 payload ≡ false)
            ⊎ ((x : Session) × (lookup hdr.client_id s.sessions ≡ some x)
                × (src_ip payload ≢ x.virtual_ip)))
        → let t = from_client write_ok hdr.client_id payload from now raw u o in
          (t.effects ≡ s.effects) × (t.sessions ≡ s.sessions)
    refused none e w = (refl, refl)
    refused (some x) e (inl missing) = cc
    refused (some x) e (inr (inl other)) = rw other (refl, refl)
    refused (some x) e (inr (inr (y, there, wrong))) =
        let differs : (src_ip payload == x.virtual_ip) ≡ false = ground arith in
        let stopped : (is_ipv4 payload && src_ip payload == x.virtual_ip) ≡ false = ground arith in
        rw stopped (refl, refl)

-- Dispatch of a packet for the virtual IP of a client that has a session.
route_lem :
    (write_ok : ℕ → Bool) (payload raw : Bytes) (s : Server) (d : ℕ) (y : Session)
    → (dst_ip payload == s.server_virtual_ip) ≡ false
    → lookup (dst_ip payload) s.route_table ≡ some d
    → lookup d s.sessions ≡ some y
    → (route write_ok payload raw s).effects ≡ delivered write_ok raw (endpoints y.addrs) s.effects
unfolding route
route_lem write_ok payload raw s d y away there here =
    rw (away, there) (send_to_client_lem write_ok d raw s y here)

-- On a server whose addresses are in order, a new IPv4 packet with its sender's own address, for the
-- virtual IP of some client, which is not 0, goes unchanged to each endpoint that this client is known
-- under, and to nothing else.
pub handle_data_delivers :
    (write_ok : ℕ → Bool) (hdr : Header) (payload : Bytes) (from now : ℕ) (raw : Bytes) (s : Server)
    (x y : Session) (d : ℕ)
    → Inv s
    → (is_duplicate s.dedup hdr.client_id hdr.seq).0 ≡ false
    → lookup hdr.client_id s.sessions ≡ some x
    → is_ipv4 payload ≡ true
    → src_ip payload ≡ x.virtual_ip
    → lookup d s.sessions ≡ some y
    → dst_ip payload ≡ y.virtual_ip
    → y.virtual_ip ≢ 0
    → (handle_data write_ok hdr payload from now raw s).effects
      ≡ delivered write_ok raw (endpoints y.addrs) s.effects
unfolding handle_data
handle_data_delivers write_ok hdr payload from now raw s x y d v new hx ipv4 own hy dst nonzero =
    let vip : lookup d (session_ips s.sessions) ≡ some y.virtual_ip =
      lookup-session_ips d s.sessions y hy in
    let away : (dst_ip payload == s.server_virtual_ip) ≡ false =
      ground (arith, v.addressing.not_server d y.virtual_ip vip nonzero) in
    let there : lookup (dst_ip payload) s.route_table ≡ some d =
      cc (v.addressing.routed d y.virtual_ip vip nonzero) in
    let same : (src_ip payload == x.virtual_ip) ≡ true = ground arith in
    rw (new, hx, ipv4, same)
      (elim (Bool-cases (hdr.client_id == d)) [
        | inl self ↦
            route_lem write_ok payload raw seen d (seen_now from now x) away there
              (ground (arith, lookup-insert hdr.client_id d (seen_now from now x) s.sessions))
            ∙ ap (λ l. delivered write_ok raw l s.effects)
                (endpoints-seen_now from now x
                  ∙ ap (λ (z : Session). endpoints z.addrs) (same_client x y self hx hy))
        | inr other ↦
            route_lem write_ok payload raw seen d y away there
              (ground (arith, lookup-insert hdr.client_id d (seen_now from now x) s.sessions))
      ])
  where
    same_client :
        (x y : Session)
        → (hdr.client_id == d) ≡ true
        → lookup hdr.client_id s.sessions ≡ some x
        → lookup d s.sessions ≡ some y
        → x ≡ y
    same_client x y e h k = ground arith

    seen : Server
    seen = record s {
      dedup = (is_duplicate s.dedup hdr.client_id hdr.seq).1;
      sessions = insert hdr.client_id (seen_now from now x) s.sessions;
    }
