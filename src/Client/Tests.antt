-- ===== src/Client/Tests.antt =====
-- The theorems about client/ at one path, one client and two interfaces.
use mpfpv.Base.{◌/◌, ◌<◌, ◌%◌, ◌≢◌, get_or}
use mpfpv.Base.{
  ℕ, ◌*◌, ◌^◌, ◌≡◌, refl, arith, Bool, true, false, List, [], ◌∷◌, Option, none, some, length, drop,
  lookup,
}
use mpfpv.Base.Bytes.{Bytes, codes, get_u32}
use mpfpv.Base.Results.{ok}
use mpfpv.Protocol.Wire.{Heartbeat, header_size, decode_header, decode_heartbeat}
use mpfpv.Protocol.Heartbeat.{IsHeartbeat}
use mpfpv.Server.Data.{src_ip, dst_ip}
use mpfpv.Client.Checksum.{header_length, recalc_checksum}
use mpfpv.Client.Checksum.Sums.{total}
use mpfpv.Client.Checksum.Valid.{recalc_checksum_lem}
use mpfpv.Client.Bind.{closed_times, create_bound_udp_conn, create_bound_udp_conn_lem}
use mpfpv.Client.Paths.{
  judge, check_paths, begin_removal, NetPath, down, stamped, recycle, remove_path, stop, new_path,
}
use mpfpv.Client.Overlap.{removal_overlapped}
use mpfpv.Client.Health.{failed_recycle_panics}
use mpfpv.Client.Stamp.{reported}
use mpfpv.Client.Handlers.{Client, with_source, own_heartbeat, heartbeat_header, heartbeat_packet}
use mpfpv.Dedup.{is_duplicate, check_seq}
use mpfpv.Server.State.{Session, Effect, sent}
use mpfpv.Server.Send.{endpoints}
use mpfpv.Server.Data.{handle_packet}
use mpfpv.Server.Routing.{delivered}
use mpfpv.Server.Registration.{HeardFrom}
use mpfpv.Server.Tests.{seven, nine, two_clients, two_clients-Inv}
use mpfpv.Client.Handlers.{recv, data_packet}
use mpfpv.Client.Registration.{HasAddress, handshake}
use mpfpv.Client.Delivery.{tun_to_endpoints}
use mpfpv.Client.Sending.{with_source-src_ip, heartbeat_packet_lem}
use mpfpv.Client.Identity.{load_or_generate_id}
use mpfpv.Client.Identity.Stable.{load_or_generate_id_stable}
use mpfpv.Client.Interfaces.{
  Interface, IfaceInfo, fresh_path, add_path, remove_gone, add_new, replace_changed, detect_changes,
}
use mpfpv.Client.Interfaces.Reconcile.{reconciled, detect_changes-reconciled}
use mpfpv.Client.Interfaces.Total.{AllOpen}

-- A path over eth0, on probation since its first second.
abbrev fresh : NetPath
fresh = new_path (codes "eth0") (192 ∷ 168 ∷ 0 ∷ 5 ∷ []) (10 ^ 9)

abbrev second_of : ℕ → ℕ
second_of n = n * 10 ^ 9

-- The same path with its socket replaced once, in its tenth second, and heard from no more.
abbrev replaced : NetPath
replaced = record fresh { last_recycled = some (second_of 10); recycle_count = 1 }

abbrev replaced_twice : NetPath
replaced_twice = record replaced { last_recycled = some (second_of 21); recycle_count = 2 }

-- Its socket could not be replaced.
abbrev stranded : NetPath
stranded = record fresh { closed = true; status = down }

failed_recycle_panics_example :
    (recycle true (second_of 100) stranded ≡ none)
    × (remove_path 1 ((1, stranded) ∷ []) ≡ none)
    × (stop ((1, stranded) ∷ []) ≡ none)
unfolding recycle
failed_recycle_panics_example =
    failed_recycle_panics (second_of 10) (second_of 100) 1 true fresh stranded ((1, stranded) ∷ [])
      refl refl

-- Its removal has begun.
abbrev half_removed : List (ℕ × NetPath)
half_removed = (1, record fresh { closed = true }) ∷ []

removal_overlapped_example :
    (stop half_removed ≡ none)
    × ((bind_ok : ℕ → Bool) (now : ℕ)
        → (judge now fresh).1 ≡ true
        → check_paths bind_ok now half_removed ≡ none)
    × (begin_removal 1 half_removed ≡ none)
unfolding begin_removal
removal_overlapped_example = removal_overlapped 1 fresh ((1, fresh) ∷ []) half_removed refl refl

abbrev hb : Heartbeat
hb = record {
  virtual_ip = 10 ∷ 99 ∷ 0 ∷ 2 ∷ [];
  prefix_len = 24;
  reply_port = 9801;
  team_key_hash = 1 ∷ 2 ∷ 3 ∷ 4 ∷ 5 ∷ 6 ∷ 7 ∷ 8 ∷ [];
  device_name = [];
  path_rtts = [];
}

hb-IsHeartbeat : IsHeartbeat hb
hb-IsHeartbeat = omega arith

abbrev client : Client
client = record {
  client_id = 7;
  dedup = record { window_size = 64; clients = [] };
  team_key_hash = 1 ∷ 2 ∷ 3 ∷ 4 ∷ 5 ∷ 6 ∷ 7 ∷ 8 ∷ [];
  virtual_ip = 10 ∷ 99 ∷ 0 ∷ 2 ∷ [];
  prefix_len = 24;
  device_name = codes "pi";
  seq = 40;
  registered = true;
  has_tun = true;
  tun_ready = true;
  use_multipath = true;
  recv_port = 9801;
  paths = (1, fresh) ∷ [];
  last_hb_sent = none;
  tun_writes = [];
}

heartbeat_packet_lem_example :
    (b : Bytes) × (heartbeat_packet client ≡ some b)
    × (decode_header (stamped b fresh) ≡ ok (heartbeat_header client))
    × (decode_heartbeat (drop header_size (stamped b fresh))
        ≡ ok (record (own_heartbeat client) {
          device_name = client.device_name;
          path_rtts = reported fresh ∷ [];
        }))
heartbeat_packet_lem_example =
    heartbeat_packet_lem client fresh (omega arith) (omega arith)
      (λ e. omega arith, (λ e. omega arith, tt)) (omega arith)

-- A packet of 20 bytes from 172.16.0.1 to 10.99.0.3.
abbrev inner : Bytes
inner =
    0x45 ∷ 0 ∷ 0 ∷ 20 ∷ 0 ∷ 0 ∷ 0 ∷ 0 ∷ 64 ∷ 17 ∷ 0 ∷ 0 ∷ 172 ∷ 16 ∷ 0 ∷ 1 ∷ 10 ∷ 99 ∷ 0 ∷ 3 ∷ []

with_source-src_ip_example :
    (src_ip (with_source client.virtual_ip inner) ≡ get_u32 client.virtual_ip)
    × (dst_ip (with_source client.virtual_ip inner) ≡ dst_ip inner)
with_source-src_ip_example = with_source-src_ip client.virtual_ip inner refl (λ e. cc) (omega arith)

recalc_checksum_lem_example :
    let r = recalc_checksum inner in
    let sum = total r 0 (header_length inner / 2) in
    (0 < sum)
    × (sum % 0xffff ≡ 0)
    × (length r ≡ length inner)
    × ((i : ℕ) → i ≢ 10 → i ≢ 11 → get_or r i 0 ≡ get_or inner i 0)
recalc_checksum_lem_example = recalc_checksum_lem inner (omega arith) (omega arith) (omega arith)

load_or_generate_id_stable_example :
    let r = load_or_generate_id true none (codes "pi") (codes "x") in
    load_or_generate_id false r.1 (codes "po") (codes "y") ≡ r
load_or_generate_id_stable_example =
    load_or_generate_id_stable false none (codes "pi") (codes "x") (codes "po") (codes "y")

abbrev wired : IfaceInfo
wired = record { name = codes "eth0"; addrs4 = (192 ∷ 168 ∷ 0 ∷ 6 ∷ []) ∷ []; addrs6 = [] }

abbrev wireless : IfaceInfo
wireless = record { name = codes "wlan0"; addrs4 = (192 ∷ 168 ∷ 1 ∷ 7 ∷ []) ∷ []; addrs6 = [] }

abbrev listed : Option (List Interface)
listed = some (
    record {
      key = 2;
      name = codes "wlan0";
      is_loopback = false;
      is_up = true;
      addrs = some (some (169 ∷ 254 ∷ 0 ∷ 1 ∷ []) ∷ some (192 ∷ 168 ∷ 1 ∷ 7 ∷ []) ∷ []);
    }
    ∷ [])

abbrev none_excluded : ℕ → Bool
none_excluded k = false

abbrev found : List (ℕ × IfaceInfo)
found = (1, wired) ∷ (2, wireless) ∷ []

abbrev binds : ℕ → Bool
binds k = true

abbrev moved_on : List (ℕ × NetPath)
moved_on =
    (2, new_path (codes "wlan0") (192 ∷ 168 ∷ 1 ∷ 7 ∷ []) (second_of 5))
    ∷ (1, new_path (codes "eth0") (192 ∷ 168 ∷ 0 ∷ 6 ∷ []) (second_of 5))
    ∷ []

-- eth0 has a new address, and wlan0 is new.
detect_changes-reconciled_example :
    lookup 1 moved_on ≡ reconciled true binds (second_of 5) 1 (some wired) (some fresh)
unfolding detect_changes remove_gone add_new add_path fresh_path replace_changed remove_path
detect_changes-reconciled_example =
    detect_changes-reconciled true binds (second_of 5) found ((1, fresh) ∷ []) moved_on 1
      (refl, (refl, tt)) refl

fresh-AllOpen : AllOpen ((1, fresh) ∷ [])
fresh-AllOpen n p e = ground arith

-- A client that has not heard from the server.
abbrev unregistered : Client
unregistered = record client {
  client_id = 8;
  virtual_ip = 0 ∷ 0 ∷ 0 ∷ 0 ∷ [];
  registered = false;
  has_tun = false;
  tun_ready = false;
}

handshake_example :
    (b : Bytes) × (heartbeat_packet unregistered ≡ some b)
    × (let t = handle_packet (λ a. true) (stamped b fresh) 701 300 two_clients in
        (sess : Session) × (lookup 8 t.sessions ≡ some sess)
        × HeardFrom 701 300 sess
        × ((a : Bytes) × (es : List Effect) × (t.effects ≡ sent 701 a ∷ es)
            × ((d : Client) × (recv (some true) a (some 1) 400 unregistered ≡ some d)
                × HasAddress sess.virtual_ip sess.prefix_len d)))
handshake_example =
    handshake (λ a. true) true unregistered fresh two_clients 701 300 400 (some 1) refl refl
      (λ e. omega arith) (omega arith) (omega arith) (λ e. omega arith, (λ e. omega arith, tt))
      (omega arith) refl

tun_to_endpoints_example :
    (b : Bytes) × (data_packet client inner ≡ some b)
    × ((handle_packet (λ a. true) b 501 200 two_clients).effects
        ≡ delivered (λ a. true) b (endpoints nine.addrs) [])
unfolding is_duplicate check_seq
tun_to_endpoints_example =
    tun_to_endpoints (λ a. true) client inner 501 200 two_clients seven nine 9 two_clients-Inv
      (omega arith) refl refl (omega arith) (λ e. omega arith) refl refl refl (λ e. omega arith)
      refl (λ e. omega arith)

-- All calls succeed but the last.
create_bound_udp_conn_lem_example :
    closed_times
      (create_bound_udp_conn
        (record {
          socket_ok = true;
          reuse_ok = true;
          device_ok = true;
          bind_ok = true;
          wrapped = false;
        })
        (codes "eth0")).0
    ≡ 2
unfolding create_bound_udp_conn
create_bound_udp_conn_lem_example =
    create_bound_udp_conn_lem
      (record {
        socket_ok = true;
        reuse_ok = true;
        device_ok = true;
        bind_ok = true;
        wrapped = false;
      })
      (codes "eth0")
