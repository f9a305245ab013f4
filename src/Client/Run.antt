-- ===== src/Client/Run.antt =====
-- client/client.go, New, and the turns of tunReadLoop, heartbeatLoop, the receive loops and the polling
-- of interfaces, as one machine. Whether the server's name resolves, a write succeeds, a socket can be
-- bound and a device can be made are parameters of each turn.
pub mod Registered
pub mod Safety
pub mod Bounds
pub mod Panics
mod Tests
use mathlib.Core.Option
use mathlib.Core.Path.{subst}
use mpfpv.Base.{
  ℕ, ◌≡◌, refl, sym, ◌∙◌, arith, inl, inr, Bool, true, false, if◌then◌else◌, Bool-cases,
  Option-cases, List, [], ◌∷◌, Option, none, some,
}
use mpfpv.Base.Bytes.{Bytes}
use mpfpv.Config.{ClientConfig, Config}
use mpfpv.Base.{◌==◌, ltb, length, drop}
use mpfpv.Base.Results.{Result, ok, err}
use mpfpv.Protocol.Wire.{
  ProtocolError, Header, HeartbeatAck, header_size, type_data, type_heartbeat_ack, ack_status_ok,
  decode_header, decode_heartbeat_ack, ipv4_zero, team_key_hash,
}
use mpfpv.Dedup.{new_deduplicator}
use mpfpv.Client.Paths.{NetPath, send, heartbeat_on, check_paths, update, count_received, stop}
use mpfpv.Client.Interfaces.{Interface, scan_interfaces, detect_changes}
use mpfpv.Client.Sockets.{is_v4, not_excluded}
use mpfpv.Client.Handlers.{
  Client, count_seq, data_packet, heartbeat_packet, setup_tun, on_registered, with_ack,
  handle_heartbeat_ack, handle_data, measure, recv,
}

abbrev pub fresh_client : (Bytes → Bytes) → ℕ → Bytes → Bytes → ClientConfig → Client
fresh_client sha256 client_id device_name team_key cc = record {
  client_id = client_id;
  dedup = new_deduplicator cc.dedup_window;
  team_key_hash = team_key_hash sha256 team_key;
  virtual_ip = ipv4_zero;
  prefix_len = 0;
  device_name = device_name;
  seq = 0;
  registered = false;
  has_tun = false;
  tun_ready = false;
  use_multipath = false;
  recv_port = 0;
  paths = [];
  last_hb_sent = none;
  tun_writes = [];
}

-- The client that New makes of a configuration with a client section.
abbrev client_of : (Bytes → Bytes) → ℕ → Bytes → Config → Option ClientConfig → Option Client
client_of sha256 client_id device_name cfg none = none
client_of sha256 client_id device_name cfg (some cc) =
    some (fresh_client sha256 client_id device_name cfg.team_key cc)

unfoldable pub make_client : (Bytes → Bytes) → ℕ → Bytes → Config → Option Client
make_client sha256 client_id device_name cfg = client_of sha256 client_id device_name cfg cfg.client

-- SendAllHeartbeat.
unfoldable pub heartbeat_each : (Bytes → Bool) → Bytes → List (ℕ × NetPath) → List (ℕ × NetPath)
heartbeat_each write_ok base [] = []
heartbeat_each write_ok base ((k, p) ∷ m) =
    (k, heartbeat_on write_ok base p) ∷ heartbeat_each write_ok base m

-- A packet that the TUN device delivers.
unfoldable pub handle_tun_packet : (Bytes → Bool) → Bytes → Client → Client
handle_tun_packet write_ok payload c = elim (data_packet c payload) [
  | none ↦ c
  | some b ↦ record (count_seq c) {
    paths = if c.use_multipath then (send write_ok b c.paths).0 else c.paths;
  }
]

-- `resolved`: the server's name is known.
unfoldable pub send_heartbeat : (Bytes → Bool) → Bool → ℕ → Client → Client
unfolding heartbeat_each
send_heartbeat write_ok resolved now c =
    if resolved
    then elim (heartbeat_packet c) [
      | none ↦ c
      | some b ↦ record (count_seq c) {
        last_hb_sent = some now;
        paths = if c.use_multipath then heartbeat_each write_ok b c.paths else c.paths;
      }
    ]
    else c

-- A tick of heartbeatLoop; `none` is the panic of closing a closed channel.
unfoldable pub heartbeat_tick : (Bytes → Bool) → (ℕ → Bool) → Bool → ℕ → Client → Option Client
unfolding send_heartbeat
heartbeat_tick write_ok bind_ok resolved now c =
    let d = send_heartbeat write_ok resolved now c in
    if d.use_multipath
    then Option.map (λ ps. record d { paths = ps }) (check_paths bind_ok now d.paths)
    else some d

-- A tick of pollInterfaces: `found` is what the system lists. `server` is the address of the paths.
unfoldable pub poll_tick : Bytes → (ℕ → Bool) → Option (List Interface) → ℕ → Client → Option Client
poll_tick server bind_ok found now c =
    Option.map (λ ps. record c { paths = ps })
      (detect_changes (is_v4 server) bind_ok now (scan_interfaces not_excluded found) c.paths)

-- The end of Run: the deferred Stop.
unfoldable pub shutdown : Client → Option Client
shutdown c =
    if c.use_multipath then Option.map (λ ps. record c { paths = ps }) (stop c.paths) else some c

-- One turn of one of the loops, which run in goroutines of their own: here a turn is done before the next
-- begins; a datagram of `n` bytes is first counted on the path it came by, and
-- then handled, unless the channel between the two loops is full.
pub data Turn (c d : Client) : Type 0 where
  tun_packet :
      (write_ok : Bytes → Bool) (payload : Bytes)
      → d ≡ handle_tun_packet write_ok payload c
      → Turn c d
  first_heartbeat :
      (write_ok : Bytes → Bool) (resolved : Bool) (now : ℕ)
      → d ≡ send_heartbeat write_ok resolved now c
      → Turn c d
  tick :
      (write_ok : Bytes → Bool) (bind_ok : ℕ → Bool) (resolved : Bool) (now : ℕ)
      → heartbeat_tick write_ok bind_ok resolved now c ≡ some d
      → Turn c d
  datagram :
      (create : Option Bool) (bytes : Bytes) (by : Option ℕ) (now : ℕ)
      → recv create bytes by now c ≡ some d
      → Turn c d
  counted :
      (name n : ℕ) → d ≡ record c { paths = update name (count_received n) c.paths } → Turn c d
  poll :
      (server : Bytes) (bind_ok : ℕ → Bool) (found : Option (List Interface)) (now : ℕ)
      → poll_tick server bind_ok found now c ≡ some d
      → Turn c d

pub data Turns (c : Client) : Client → Type 0 where
  start : Turns c c
  turn : {d e : Client} → Turns c d → Turn d e → Turns c e
