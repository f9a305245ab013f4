-- ===== src/Client/Run/Tests.antt =====
-- Runs of a client with one path, over eth0.
use mpfpv.Base.{ℕ, ◌*◌, ◌^◌, ◌<◌, ◌≡◌, refl, Bool, true, false, List, [], ◌∷◌, Option, none, some}
use mpfpv.Base.Bytes.{Bytes, codes}
use mpfpv.Base.Int.{pos}
use mpfpv.Base.Results.{ok}
use mpfpv.Config.{Config}
use mpfpv.Protocol.Wire.{to4, decode_header, decode_heartbeat_ack, team_key_hash}
use mpfpv.Dedup.{new_deduplicator}
use mpfpv.Client.Paths.{NetPath, new_path, check_path, check_paths}
use mpfpv.Client.Interfaces.{
  Interface, is_physical_interface, usable4, collect, info_of, scan_all, scan_interfaces,
  fresh_path, add_path,
}
use mpfpv.Client.Handlers.{Client, handle_heartbeat_ack, recv}
use mpfpv.Client.Every.{Every}
use mpfpv.Client.Sockets.{System, own_paths, add_each, open_sockets}
use mpfpv.Client.Sockets.Choice.{Chosen, open_sockets_lem}
use mpfpv.Client.Run.{
  make_client, heartbeat_tick, poll_tick, shutdown, Turns, start, turn, tick, datagram,
  send_heartbeat,
}
use mpfpv.Client.Run.Registered.{recv_total}
use mpfpv.Client.Run.Bounds.{InBounds, client_bounds}
use mpfpv.Client.Run.Panics.{run_total}

abbrev client_config : Config
client_config = record {
  mode = codes "client";
  team_key = codes "k";
  client = some (record {
    server_addr = codes "h:1";
    bind_interface = [];
    dedup_window = pos 64;
    web_ui = [];
  });
  server = none;
}

abbrev hash : Bytes → Bytes
hash text = text

abbrev eth0 : Interface
eth0 = record {
  key = 1;
  name = codes "eth0";
  is_loopback = false;
  is_up = true;
  addrs = some (some (192 ∷ 168 ∷ 0 ∷ 5 ∷ []) ∷ []);
}

abbrev system : System
system = record {
  interface = λ name. none;
  listen_any = true;
  listen_on = λ ip. true;
  central6 = none;
  central4 = some 40000;
  interfaces = some (eth0 ∷ []);
  bind_ok = λ key. true;
  now = 5;
}

abbrev relay : Bytes
relay = 203 ∷ 0 ∷ 113 ∷ 9 ∷ []

abbrev made : Client
made = record {
  client_id = 8;
  dedup = record { window_size = 64; clients = [] };
  team_key_hash = codes "k";
  virtual_ip = 0 ∷ 0 ∷ 0 ∷ 0 ∷ [];
  prefix_len = 0;
  device_name = codes "pi";
  seq = 0;
  registered = false;
  has_tun = false;
  tun_ready = false;
  use_multipath = false;
  recv_port = 0;
  paths = [];
  last_hb_sent = none;
  tun_writes = [];
}

abbrev opened : Client
opened = record made {
  use_multipath = true;
  recv_port = 40000;
  paths = (1, new_path (codes "eth0") (192 ∷ 168 ∷ 0 ∷ 5 ∷ []) 5) ∷ [];
}

abbrev ack_datagram : Bytes
ack_datagram = 0x12 ∷ 0 ∷ 0 ∷ 0 ∷ 0 ∷ 0 ∷ 0 ∷ 0 ∷ 10 ∷ 99 ∷ 0 ∷ 4 ∷ 24 ∷ 0 ∷ 5 ∷ 120 ∷ []

abbrev acked : Client
acked = record opened {
  virtual_ip = 10 ∷ 99 ∷ 0 ∷ 4 ∷ [];
  prefix_len = 24;
  registered = true;
  has_tun = true;
  tun_ready = true;
}

makes : make_client hash 8 (codes "pi") client_config ≡ some made
unfolding make_client new_deduplicator team_key_hash
makes = refl

opens : open_sockets system [] (some relay) made ≡ ok (opened, own_paths)
unfolding open_sockets to4 scan_interfaces scan_all info_of collect usable4 is_physical_interface
    add_each add_path fresh_path
opens = refl

is_acked : recv (some true) ack_datagram none 8 opened ≡ some acked
unfolding recv decode_header handle_heartbeat_ack decode_heartbeat_ack
is_acked = refl

abbrev acks : Turns opened acked
acks = turn start (datagram (some true) ack_datagram none 8 is_acked)

open_sockets_lem_example : Chosen system [] (some relay) made opened own_paths
open_sockets_lem_example = open_sockets_lem system made opened own_paths [] (some relay) opens

recv_total_example :
    (acked.tun_ready ≡ acked.registered)
    × ((e : Client) × (recv (some true) ack_datagram none 9 acked ≡ some e)
        × (e.tun_ready ≡ e.registered))
recv_total_example =
    recv_total hash 8 (codes "pi") client_config system [] (some relay) own_paths made opened acked
      true ack_datagram none 9 makes opens acks

client_bounds_example : (acked.seq < 2 ^ 32) × Every InBounds acked.paths
client_bounds_example =
    client_bounds hash 8 (codes "pi") client_config system [] (some relay) own_paths made opened
      acked makes opens acks

-- Its path is silent for twenty seconds, and gets a new socket.
abbrev silent : NetPath
silent = new_path (codes "eth0") (192 ∷ 168 ∷ 0 ∷ 5 ∷ []) 5

abbrev ticked : Client
ticked = record acked {
  paths = (1, record silent { last_recycled = some (20 * 10 ^ 9); recycle_count = 1 }) ∷ [];
}

ticks : heartbeat_tick (λ name. true) (λ key. true) false (20 * 10 ^ 9) acked ≡ some ticked
unfolding heartbeat_tick send_heartbeat check_paths check_path
ticks = refl

abbrev recycled : Turns opened ticked
recycled = turn acks (tick (λ name. true) (λ key. true) false (20 * 10 ^ 9) ticks)

run_total_example :
    ((write_ok : Bytes → Bool) (bind_ok : ℕ → Bool) (resolved : Bool) (now : ℕ)
      → (e : Client) × (heartbeat_tick write_ok bind_ok resolved now ticked ≡ some e))
    × ((to : Bytes) (bind_ok : ℕ → Bool) (found : Option (List Interface)) (now : ℕ)
        → (e : Client) × (poll_tick to bind_ok found now ticked ≡ some e))
    × ((e : Client) × (shutdown ticked ≡ some e))
run_total_example =
    run_total hash 8 (codes "pi") client_config system [] (some relay) own_paths made opened ticked
      makes opens recycled ((tt, tt), λ k. refl)
