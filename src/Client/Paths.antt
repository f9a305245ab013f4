-- ===== src/Client/Paths.antt =====
-- client/transport.go: the paths of a MultiPath and what is done with them. Each function on a path
-- is the part of its method's loop body that works on this path. A write to a path's socket may fail,
-- which is a parameter; times are nanoseconds, as time.Duration has them. A number stands for an
-- interface's name as the key of the map of paths.
use mathlib.Core.Option
use mpfpv.Base.{
  ℕ, ◌+◌, ◌-◌, ◌*◌, ◌/◌, ◌^◌, Bool, true, false, ◌==◌, ◌&&◌, ◌||◌, not, ltb, leb, if◌then◌else◌,
  List, [], ◌∷◌, ◌++◌, Option, none, some, length, drop, lookup, insert, delete,
}
use mpfpv.Base.Bytes.{Bytes, u8, u16, u32, u64, put_u16, put_u32}

pub data PathStatus : Type 0 where
  probing : PathStatus
  active : PathStatus
  suspect : PathStatus
  down : PathStatus

abbrev pub rtt_window_size : ℕ
rtt_window_size = 10

abbrev pub path_stale_timeout : ℕ
path_stale_timeout = 8 * 10 ^ 9

abbrev pub recycle_min_interval : ℕ
recycle_min_interval = 10 * 10 ^ 9

abbrev pub recycle_max_attempts : ℕ
recycle_max_attempts = 2

abbrev pub recycle_backoff : ℕ
recycle_backoff = 60 * 10 ^ 9

-- `last_recycled` is `none` while it is the zero time. `closed`: the channel of that name is closed.
-- The socket is left to the system.
pub record NetPath : Type 0 where
  pub iface_name : Bytes
  pub local_addr : Bytes
  pub rtt : ℕ
  pub rtt_samples : List ℕ
  pub last_recv : ℕ
  pub status : PathStatus
  pub miss_count : ℕ
  pub tx_bytes : ℕ
  pub rx_bytes : ℕ
  pub last_recycled : Option ℕ
  pub recycle_count : ℕ
  pub closed : Bool

abbrev pub is_active : PathStatus → Bool
is_active probing = false
is_active active = true
is_active suspect = false
is_active down = false

abbrev pub is_down : PathStatus → Bool
is_down probing = false
is_down active = false
is_down suspect = false
is_down down = true

-- The body of Send's loop, with the number of writes that succeeded so far.
abbrev pub send_on : (Bytes → Bool) → Bytes → NetPath → NetPath × ℕ
send_on write_ok pkt p =
    if not (is_active p.status)
    then (p, 0)
    else if not (write_ok p.iface_name)
    then (record p { status = suspect }, 0)
    else (record p { tx_bytes = u64 (p.tx_bytes + length pkt) }, 1)

unfoldable pub send_each : (Bytes → Bool) → Bytes → List (ℕ × NetPath) → List (ℕ × NetPath) × ℕ
send_each write_ok pkt [] = ([], 0)
send_each write_ok pkt ((k, p) ∷ m) =
    let (q, n) = send_on write_ok pkt p in
    let (rest, sent) = send_each write_ok pkt m in ((k, q) ∷ rest, n + sent)

-- The paths afterwards, and whether Send returns nil.
unfoldable pub send : (Bytes → Bool) → Bytes → List (ℕ × NetPath) → List (ℕ × NetPath) × Bool
unfolding send_each
send write_ok pkt paths =
    if length paths == 0
    then (paths, false)
    else let (after, sent) = send_each write_ok pkt paths in (after, not (sent == 0))

-- \x00 [nameLen] [name] [rtt 2B] [tx 4B] [rx 4B]; a Duration's Milliseconds divides by 10^6.
unfoldable pub path_suffix : NetPath → Bytes
path_suffix p =
    0
    ∷ u8 (length p.iface_name)
    ∷ (p.iface_name
        ++ (put_u16 (u16 (p.rtt / 10 ^ 6))
            ++ (put_u32 (u32 p.tx_bytes) ++ put_u32 (u32 p.rx_bytes))))

-- The packet that SendAllHeartbeat writes to a path.
abbrev pub stamped : Bytes → NetPath → Bytes
stamped base p = base ++ path_suffix p

-- The body of SendAllHeartbeat's loop.
abbrev pub heartbeat_on : (Bytes → Bool) → Bytes → NetPath → NetPath
heartbeat_on write_ok base p =
    if is_down p.status
    then p
    else if write_ok p.iface_name
    then record p { tx_bytes = u64 (p.tx_bytes + length (stamped base p)) }
    else record p { status = suspect }

abbrev pub sum : List ℕ → ℕ
sum [] = 0
sum (d ∷ ds) = d + sum ds

unfoldable pub average_duration : List ℕ → ℕ
average_duration ds = if length ds == 0 then 0 else sum ds / length ds

-- The newest samples, at most `rtt_window_size` of them.
unfoldable pub add_sample : ℕ → List ℕ → List ℕ
add_sample rtt samples =
    let ds = samples ++ (rtt ∷ []) in
    if ltb rtt_window_size (length ds) then drop (length ds - rtt_window_size) ds else ds

-- UpdateRTT on the path that it finds.
unfoldable pub confirm : ℕ → ℕ → NetPath → NetPath
unfolding add_sample average_duration
confirm rtt now p = record p {
  rtt_samples = add_sample rtt p.rtt_samples;
  rtt = average_duration (add_sample rtt p.rtt_samples);
  last_recv = now;
  miss_count = 0;
  recycle_count = 0;
  status = active;
}

-- Changes the path under a name, if there is one.
abbrev pub update : ℕ → (NetPath → NetPath) → List (ℕ × NetPath) → List (ℕ × NetPath)
update name f paths = elim (lookup name paths) [ none ↦ paths | some p ↦ insert name (f p) paths ]

unfoldable pub update_rtt : ℕ → ℕ → ℕ → List (ℕ × NetPath) → List (ℕ × NetPath)
unfolding confirm
update_rtt name rtt now paths = update name (confirm rtt now) paths

-- `now.Sub(lrc) > d`, which holds of the zero time, and `!lrc.IsZero() && now.Sub(lrc) <= d`.
abbrev pub later_than : ℕ → Option ℕ → ℕ → Bool
later_than now none d = true
later_than now (some t) d = ltb d (now - t)

abbrev pub too_early : ℕ → Option ℕ → ℕ → Bool
too_early now none d = false
too_early now (some t) d = leb (now - t) d

-- `close(p.closed); p.Conn.Close()`: `none` is the panic of closing a closed channel.
abbrev pub close_path : NetPath → Option NetPath
close_path p = if p.closed then none else some (record p { closed = true })

-- What recyclePath does with a path that it has closed: a new socket, if one can be made (`bind_ok`),
-- puts it on probation, with a new channel.
abbrev pub reopen : Bool → ℕ → NetPath → NetPath
reopen bind_ok now p =
    if bind_ok
    then record p {
      closed = false;
      status = probing;
      last_recycled = some now;
      recycle_count = p.recycle_count + 1;
    }
    else record p { status = down }

unfoldable pub recycle : Bool → ℕ → NetPath → Option NetPath
recycle bind_ok now p = Option.map (reopen bind_ok now) (close_path p)

-- The body of CheckAndRecycleStalePaths' first loop: the path, and whether it is put on the list.
unfoldable pub judge : ℕ → NetPath → NetPath × Bool
judge now p =
    if is_down p.status
    then (
      p,
      leb recycle_max_attempts p.recycle_count && later_than now p.last_recycled recycle_backoff,
    )
    else if leb (now - p.last_recv) path_stale_timeout
    then (p, false)
    else if leb recycle_max_attempts p.recycle_count
    then (record p { status = down }, false)
    else if too_early now p.last_recycled recycle_min_interval
    then (p, false)
    else (p, true)

-- Both loops, on one path.
unfoldable pub check_path : Bool → ℕ → NetPath → Option NetPath
unfolding judge recycle
check_path bind_ok now p =
    let (q, stale) = judge now p in if stale then recycle bind_ok now q else some q

-- CheckAndRecycleStalePaths; `bind_ok` says of an interface whether a socket can be bound to it.
unfoldable pub check_paths : (ℕ → Bool) → ℕ → List (ℕ × NetPath) → Option (List (ℕ × NetPath))
unfolding check_path
check_paths bind_ok now [] = some []
check_paths bind_ok now ((k, p) ∷ m) =
    let rest = check_paths bind_ok now m in
    elim (check_path (bind_ok k) now p) [ none ↦ none | some q ↦ Option.map (λ l. (k, q) ∷ l) rest ]

-- The body of perPathRecvLoop, for a datagram of `n` bytes.
abbrev pub count_received : ℕ → NetPath → NetPath
count_received n p = record p { rx_bytes = u64 (p.rx_bytes + n) }

-- The path that addPath makes once its socket is bound.
abbrev pub new_path : Bytes → Bytes → ℕ → NetPath
new_path name local_addr now = record {
  iface_name = name;
  local_addr = local_addr;
  rtt = 0;
  rtt_samples = [];
  last_recv = now;
  status = probing;
  miss_count = 0;
  tx_bytes = 0;
  rx_bytes = 0;
  last_recycled = none;
  recycle_count = 0;
  closed = false;
}

-- removePath up to its second lock: the path that was found is closed, and still in the map.
unfoldable pub begin_removal : ℕ → List (ℕ × NetPath) → Option (List (ℕ × NetPath))
begin_removal name paths = elim (lookup name paths) [
  | none ↦ some paths
  | some p ↦ Option.map (λ q. insert name q paths) (close_path p)
]

-- All of removePath, with no other goroutine between.
unfoldable pub remove_path : ℕ → List (ℕ × NetPath) → Option (List (ℕ × NetPath))
remove_path name paths = elim (lookup name paths) [
  | none ↦ some paths
  | some p ↦ Option.map (λ _. delete name paths) (close_path p)
]

abbrev pub any_closed : List (ℕ × NetPath) → Bool
any_closed [] = false
any_closed ((k, p) ∷ m) = p.closed || any_closed m

-- Stop, where it was not called before.
unfoldable pub stop : List (ℕ × NetPath) → Option (List (ℕ × NetPath))
stop paths = if any_closed paths then none else some []
