-- ===== src/Server/Overlap.antt =====
-- server/web.go, deleteClient: it lets go of the sessions before it takes the client's route and pool entry;
-- what a heartbeat of the client in between leads to.
use mathlib.Core.Path.{subst}
use mpfpv.Base.{
  ℕ, ◌≡◌, ◌≢◌, refl, ap, sym, ◌∙◌, arith, inl, inr, ◌⊎◌, Bool, true, false, ◌==◌, Bool-cases, none,
  some, lookup, insert, delete, lookup-insert, lookup-delete,
}
use mpfpv.Base.Bytes.{Bytes, get_u32, bytes_eq}
use mpfpv.Base.Results.{ok}
use mpfpv.Protocol.Wire.{Header, Heartbeat, decode_heartbeat, ack_status_ok}
use mpfpv.Server.State.{Session, Server, session_ips, save_ip_pool}
use mpfpv.Server.Send.{send_heartbeat_ack}
use mpfpv.Server.Pool.{ips}
use mpfpv.Server.Pool.Alloc.{allocate_ip-pooled}
use mpfpv.Server.Heartbeat.{
  requested_ip, assign_ip, register, touch_addr, accept_heartbeat, handle_heartbeat,
}
use mpfpv.Server.Cleanup.{take_session, forget_client}

-- A client in the pool that asks for its address, or for none, is given it.
assign_ip-pooled :
    (s : Server) (c vip len ip : ℕ) (name : Bytes)
    → lookup c s.ip_pool ≡ some ip
    → (vip ≡ 0) ⊎ (vip ≡ ip)
    → (assign_ip s c vip len name).0.0 ≡ ip
unfolding assign_ip requested_ip
assign_ip-pooled s c vip len ip name pooled asks =
    let given = allocate_ip-pooled s c name (ips (session_ips s.sessions)) ip pooled in
    elim (Bool-cases (requested_ip s c vip == 0)) [
      | inl nothing ↦ rw (nothing, given) refl
      | inr wanted ↦ elim asks [
        | inl none_asked ↦ absurd (ground (arith, none_asked))
        | inr own ↦ rw wanted (ground arith)
      ]
    ]

register-address :
    (c now ip : ℕ) (hb : Heartbeat) (s : Server)
    → lookup c s.ip_pool ≡ some ip
    → (get_u32 hb.virtual_ip ≡ 0) ⊎ (get_u32 hb.virtual_ip ≡ ip)
    → (register c now hb s).0.virtual_ip ≡ ip
unfolding register
register-address c now ip hb s pooled asks =
    assign_ip-pooled s c (get_u32 hb.virtual_ip) hb.prefix_len ip hb.device_name pooled asks

send_heartbeat_ack-sessions :
    (write_ok : ℕ → Bool) (to ip len status : ℕ) (s : Server)
    → (send_heartbeat_ack write_ok to ip len status s).sessions ≡ s.sessions
unfolding send_heartbeat_ack
send_heartbeat_ack-sessions write_ok to ip len status s = ground arith

accept_heartbeat-address :
    (write_ok : ℕ → Bool) (c from now ip : ℕ) (hb : Heartbeat) (s : Server)
    → lookup c s.sessions ≡ none
    → lookup c s.ip_pool ≡ some ip
    → (get_u32 hb.virtual_ip ≡ 0) ⊎ (get_u32 hb.virtual_ip ≡ ip)
    → (sess : Session) × (lookup c (accept_heartbeat write_ok c from now hb s).sessions ≡ some sess)
      × (sess.virtual_ip ≡ ip)
unfolding accept_heartbeat
accept_heartbeat-address write_ok c from now ip hb s new pooled asks =
    let (sess, t) = register c now hb s in
    let touched : Session = record sess { addrs = touch_addr from now hb.path_rtts sess.addrs } in
    let u : Server = record t { sessions = insert c touched t.sessions } in
    rw new (
      touched,
      ap (lookup c) (
            send_heartbeat_ack-sessions write_ok from sess.virtual_ip sess.prefix_len ack_status_ok
              u)
          ∙ lookup-insert c c touched t.sessions
          ∙ ground arith,
      register-address c now ip hb s pooled asks,
    )

forget_client-lost :
    (id ip : ℕ) (s : Server)
    → let u = forget_client id ip s in
      (u.sessions ≡ s.sessions) × (lookup ip u.route_table ≡ none) × (lookup id u.ip_pool ≡ none)
unfolding forget_client save_ip_pool
forget_client-lost id ip s = (
  ground arith,
  ground (arith, lookup-delete ip ip s.route_table),
  ground (arith, lookup-delete id id s.ip_pool),
)

-- If a heartbeat with the right key comes from a client while deleteClient, having taken its session, has not
-- yet taken its route and its pool entry, and the heartbeat asks for the address that the client has in the
-- pool or for none, then after the deletion the client has a session with this address, to which no route leads,
-- and which the pool no longer keeps for it.
pub deletion_overlapped :
    (write_ok : ℕ → Bool) (hdr : Header) (payload : Bytes) (from now : ℕ) (hb : Heartbeat)
    (s : Server) (x : Session)
    → lookup hdr.client_id s.sessions ≡ some x
    → lookup hdr.client_id s.ip_pool ≡ some x.virtual_ip
    → decode_heartbeat payload ≡ ok hb
    → bytes_eq hb.team_key_hash s.team_key_hash ≡ true
    → hdr.client_id ≢ 0
    → (get_u32 hb.virtual_ip ≡ 0) ⊎ (get_u32 hb.virtual_ip ≡ x.virtual_ip)
    → let id = hdr.client_id in
      let t = handle_heartbeat write_ok hdr payload from now (take_session id s) in
      let u = forget_client id x.virtual_ip t in
      (sess : Session) × (lookup id u.sessions ≡ some sess)
      × (sess.virtual_ip ≡ x.virtual_ip)
      × (lookup sess.virtual_ip u.route_table ≡ none)
      × (lookup id u.ip_pool ≡ none)
unfolding handle_heartbeat
deletion_overlapped write_ok hdr payload from now hb s x there pooled e key id asks =
    let named : (hdr.client_id == 0) ≡ false = ground arith in
    let gone : lookup hdr.client_id (delete hdr.client_id s.sessions) ≡ none =
      lookup-delete hdr.client_id hdr.client_id s.sessions ∙ ground arith in
    let (sess, back, own) =
      accept_heartbeat-address write_ok hdr.client_id from now x.virtual_ip hb
        (take_session hdr.client_id s) gone pooled asks in
    rw (e, handle_heartbeat, key, named)
      (let t = accept_heartbeat write_ok hdr.client_id from now hb (take_session hdr.client_id s) in
        let (same, no_route, no_entry) = forget_client-lost hdr.client_id x.virtual_ip t in
        (
          sess,
          ap (lookup hdr.client_id) same ∙ back,
          own,
          subst (λ ip. lookup ip (forget_client hdr.client_id x.virtual_ip t).route_table ≡ none)
              (sym own) no_route,
          no_entry,
        ))
