-- ===== src/Server/Send.antt =====
-- server/server.go, sendToClient and sendHeartbeatAck. `write_ok` says of an endpoint whether the
-- socket's write to it succeeds within its deadline.
use mathlib.Core.Option
use mpfpv.Base.{
  ℕ, ◌+◌, ◌-◌, ◌^◌, Bool, if◌then◌else◌, List, [], ◌∷◌, ◌++◌, Option, none, some, length, take,
  drop, replicate, lookup, insert,
}
use mpfpv.Base.Bytes.{Bytes, u32, u64, put_u32}
use mpfpv.Protocol.Wire.{
  header_size, heartbeat_ack_size, type_heartbeat_ack, mtu, encode_header, encode_heartbeat_ack,
}
use mpfpv.Server.State.{AddrInfo, Session, Server, sent, emit}

-- Applies a change to a session that is there.
abbrev pub change_session : ℕ → (Session → Session) → Server → Server
change_session client_id f s = elim (lookup client_id s.sessions) [
  | none ↦ s
  | some sess ↦ record s { sessions = insert client_id (f sess) s.sessions }
]

abbrev pub endpoints : List (ℕ × AddrInfo) → List ℕ
endpoints [] = []
endpoints ((k, ai) ∷ m) = ai.addr ∷ endpoints m

-- One successful write of `pkt`: the packet goes out and the counters grow.
abbrev pub count_tx : ℕ → ℕ → Bytes → Server → Server
count_tx client_id addr pkt s =
    change_session client_id (λ sess. record sess { tx_bytes = u64 (sess.tx_bytes + length pkt) })
      (emit (sent addr pkt) (record s { total_tx = u64 (s.total_tx + length pkt) }))

unfoldable pub write_all : (ℕ → Bool) → ℕ → Bytes → List ℕ → Server → Server
write_all write_ok client_id pkt [] s = s
write_all write_ok client_id pkt (addr ∷ addrs) s =
    write_all write_ok client_id pkt addrs
      (if write_ok addr then count_tx client_id addr pkt s else s)

-- A redundant send, to every endpoint that the client is known under.
unfoldable pub send_to_client : (ℕ → Bool) → ℕ → Bytes → Server → Server
unfolding write_all
send_to_client write_ok client_id pkt s = elim (lookup client_id s.sessions) [
  | none ↦ s
  | some sess ↦ write_all write_ok client_id pkt (endpoints sess.addrs) s
]

-- The header and the ack, written one behind the other into a buffer of their size. Every byte of it
-- is written, so what the buffer held before does not matter.
unfoldable pub ack_packet : ℕ → ℕ → ℕ → ℕ → Option Bytes
ack_packet ack_seq assigned_ip prefix_len status =
    elim (encode_header (replicate (header_size + heartbeat_ack_size) 0)
      (record { type = type_heartbeat_ack; client_id = 0; seq = ack_seq })) [
        | none ↦ none
        | some buf ↦
            Option.map (λ ack. take header_size buf ++ ack)
              (encode_heartbeat_ack (drop header_size buf) (record {
                assigned_ip = put_u32 assigned_ip;
                prefix_len = prefix_len;
                status = status;
                mtu = mtu;
              }))
      ]

-- `atomic.AddUint32(&s.seq, 1) - 1`: the number to use, and the server after it.
abbrev pub next_seq : Server → ℕ
next_seq s = u32 (u32 (s.seq + 1) + 2 ^ 32 - 1)

abbrev pub bump_seq : Server → Server
bump_seq s = record s { seq = u32 (s.seq + 1) }

abbrev pub send_packet : (ℕ → Bool) → ℕ → Option Bytes → Server → Server
send_packet write_ok to none s = s
send_packet write_ok to (some pkt) s = if write_ok to then emit (sent to pkt) s else s

unfoldable pub send_heartbeat_ack : (ℕ → Bool) → ℕ → ℕ → ℕ → ℕ → Server → Server
unfolding ack_packet
send_heartbeat_ack write_ok to assigned_ip prefix_len status s =
    send_packet write_ok to (ack_packet (next_seq s) assigned_ip prefix_len status) (bump_seq s)
