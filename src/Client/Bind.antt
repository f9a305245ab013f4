-- ===== src/Client/Bind.antt =====
-- client/transport_linux.go, createBoundUDPConn, and client/machineid_linux.go, machineid_windows.go and
-- machineid_other.go. What each system call answers is a parameter; what becomes of the socket's
-- descriptor is a list of what was done with it, in order.
use mpfpv.Base.{
  ℕ, ◌+◌, ◌≡◌, arith, Bool, true, false, not, ◌&&◌, ◌||◌, if◌then◌else◌, List, [], ◌∷◌, ◌++◌,
  Option, none, some,
}
use mpfpv.Base.Bytes.{Bytes, codes, is_empty}
use mpfpv.Base.Text.{trim_space}

-- What the calls answer; `wrapped` is whether net.FilePacketConn makes a connection of the descriptor.
pub record BindCalls : Type 0 where
  pub socket_ok : Bool
  pub reuse_ok : Bool
  pub device_ok : Bool
  pub bind_ok : Bool
  pub wrapped : Bool

-- What is done with the descriptor; a connection has its own copy of it.
pub data Use : Type 0 where
  created : Use
  closed : Use
  copied : Use

abbrev pub Bound : Type 0
Bound = List Use × Bool

-- From the wrapping on; `f.Close` closes the descriptor whether it was wrapped or not.
abbrev pub wrap : BindCalls → Bound
wrap b = if b.wrapped then (copied ∷ closed ∷ [], true) else (closed ∷ closed ∷ [], false)

abbrev pub bind_step : BindCalls → Bound
bind_step b = if b.bind_ok then wrap b else (closed ∷ [], false)

abbrev pub device_step : BindCalls → Bytes → Bound
device_step b iface_name =
    if is_empty iface_name
    then bind_step b
    else if b.device_ok
    then bind_step b
    else (closed ∷ [], false)

abbrev pub reuse_step : BindCalls → Bytes → Bound
reuse_step b iface_name = if b.reuse_ok then device_step b iface_name else (closed ∷ [], false)

-- The second result: a connection, or an error.
unfoldable pub create_bound_udp_conn : BindCalls → Bytes → Bound
create_bound_udp_conn b iface_name =
    if b.socket_ok
    then (created ∷ (reuse_step b iface_name).0, (reuse_step b iface_name).1)
    else ([], false)

abbrev pub created_times : List Use → ℕ
created_times [] = 0
created_times (created ∷ us) = 1 + created_times us
created_times (closed ∷ us) = created_times us
created_times (copied ∷ us) = created_times us

abbrev pub closed_times : List Use → ℕ
closed_times [] = 0
closed_times (created ∷ us) = closed_times us
closed_times (closed ∷ us) = 1 + closed_times us
closed_times (copied ∷ us) = closed_times us

-- The descriptor is closed as often as it is made, but where all calls succeed and the wrapping fails: there
-- it is closed twice.
pub create_bound_udp_conn_lem :
    (b : BindCalls) (iface_name : Bytes)
    → let us = (create_bound_udp_conn b iface_name).0 in
      closed_times us
      ≡ created_times us
        + (if b.socket_ok
              && (b.reuse_ok
                  && ((is_empty iface_name || b.device_ok) && (b.bind_ok && not b.wrapped)))
            then 1
            else 0)
unfolding create_bound_udp_conn
create_bound_udp_conn_lem b iface_name = ground arith

-- The first file with a text that is not blank; `none` is a file that cannot be read.
abbrev pub first_text : List (Option Bytes) → Bytes
first_text [] = codes "linux-unknown"
first_text (none ∷ files) = first_text files
first_text (some text ∷ files) =
    let rest = first_text files in if is_empty (trim_space text) then rest else trim_space text

-- machineid_linux.go: the files are /etc/machine-id and /var/lib/dbus/machine-id.
unfoldable pub linux_machine_id : Option Bytes → Option Bytes → Bytes
unfolding trim_space
linux_machine_id etc dbus = first_text (etc ∷ dbus ∷ [])

-- machineid_windows.go: the value of the registry, `none` where it cannot be read.
abbrev pub windows_machine_id : Option Bytes → Bytes
windows_machine_id none = codes "windows-unknown"
windows_machine_id (some value) = if is_empty value then codes "windows-unknown" else value

-- machineid_other.go.
abbrev pub other_machine_id : Option Bytes → Bytes
other_machine_id none = codes "unknown"
other_machine_id (some name) = codes "other-" ++ name
