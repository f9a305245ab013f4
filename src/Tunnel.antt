-- ===== src/Tunnel.antt =====
-- tunnel/tun.go, tun_linux.go and tun_windows.go: how a TUN device is made and what happens to it on an
-- error, and the reading of packets on Windows. What the system answers is a parameter; what is asked of
-- it is a list, in order.
pub mod Devices
mod Tests
use mpfpv.Base.{
  ℕ, ◌*◌, ◌-◌, ◌/◌, ◌^◌, ◌%◌, suc, zero, Bool, true, false, ◌==◌, ltb, if◌then◌else◌, List, [], ◌∷◌,
  ◌++◌, Option, none, some, length, take, replicate,
}
use mpfpv.Base.Int.{ℤ, pos, negsuc, pos_part}
use mpfpv.Base.Bytes.{Bytes, codes, copy, is_empty}
use mpfpv.Base.Text.{decimal}
use mpfpv.Base.Results.{Result, ok, err}

-- `virtual_ip` is `none` where it is nil, and else the address and its text.
pub record TunConfig : Type 0 where
  pub name : Bytes
  pub mtu : ℤ
  pub virtual_ip : Option Bytes
  pub prefix_len : ℕ

abbrev pub default_name : Bytes
default_name = codes "mpfpv0"

abbrev pub positive_or : ℤ → ℕ → ℤ
positive_or (pos n) d = if n == 0 then pos d else pos n
positive_or (negsuc n) d = pos d

-- What CreateTUN hands to the platform.
unfoldable pub with_defaults : TunConfig → TunConfig
with_defaults cfg = record cfg {
  name = if is_empty cfg.name then default_name else cfg.name;
  mtu = positive_or cfg.mtu 1400;
}

-- What is asked of the system: a device is opened or closed, an interface named, a command run.
pub data Call : Type 0 where
  opened : Call
  named : Bytes → Call
  ran : List Bytes → Call
  closed : Call

pub data TunError : Type 0 where
  not_opened : TunError
  not_named : TunError
  failed : List Bytes → TunError

-- The calls, and the device's name or the error.
abbrev pub Made : Type 0
Made = List Call × Result TunError Bytes

-- Each command in turn; the first that fails closes the device.
unfoldable pub run_all : (List Bytes → Bool) → Bytes → List (List Bytes) → Made
run_all command_ok name [] = ([], ok name)
run_all command_ok name (c ∷ cs) =
    let (calls, r) = run_all command_ok name cs in
    if command_ok c then (ran c ∷ calls, r) else (ran c ∷ closed ∷ [], err (failed c))

abbrev pub before : Call → Made → Made
before c (calls, r) = (c ∷ calls, r)

-- `fmt.Sprint` of a number of at most ten digits.
abbrev pub number_text : ℕ → Bytes
number_text n = decimal 9 n

-- The bytes up to the first 0; `none` without one.
unfoldable pub until_zero : Bytes → Option Bytes
until_zero [] = none
until_zero (b ∷ bs) = elim (until_zero bs) [
  | some s ↦ if b == 0 then some [] else some (b ∷ s)
  | none ↦ if b == 0 then some [] else none
]

abbrev pub device_name : Bytes → Bytes → Bytes
device_name wanted field = elim (until_zero field) [ some name ↦ name | none ↦ wanted ]

abbrev pub addr_command : TunConfig → Bytes → List (List Bytes)
addr_command cfg name = elim cfg.virtual_ip [
  | none ↦ []
  | some ip ↦
      (codes "ip"
        ∷ codes "addr"
        ∷ codes "add"
        ∷ (ip ++ (b'/' ∷ number_text cfg.prefix_len))
        ∷ codes "dev"
        ∷ name
        ∷ [])
      ∷ []
]

abbrev pub link_commands : TunConfig → Bytes → List (List Bytes)
link_commands cfg name =
    (codes "ip"
      ∷ codes "link"
      ∷ codes "set"
      ∷ name
      ∷ codes "mtu"
      ∷ number_text (pos_part cfg.mtu)
      ∷ [])
    ∷ (codes "ip" ∷ codes "link" ∷ codes "set" ∷ name ∷ codes "up" ∷ [])
    ∷ []

abbrev pub linux_commands : TunConfig → Bytes → List (List Bytes)
linux_commands cfg name = addr_command cfg name ++ link_commands cfg name

-- tun_linux.go, createPlatformTUN: `set_iff` is the name field as the ioctl leaves it, `none` where it
-- fails.
unfoldable pub create_linux : Bool → (Bytes → Option Bytes) → (List Bytes → Bool) → TunConfig → Made
unfolding run_all until_zero
create_linux open_ok set_iff command_ok cfg =
    let field = copy (replicate 16 0) cfg.name in
    if open_ok
    then elim (set_iff field) [
      | none ↦ (opened ∷ named field ∷ closed ∷ [], err not_named)
      | some given ↦
          let name = device_name cfg.name given in
          before opened (before (named field) (run_all command_ok name (linux_commands cfg name)))
    ]
    else ([], err not_opened)

-- `mask[0]` where `net.CIDRMask(ones, 32)` is nil, as it is for more than 32 ones.
abbrev pub mask_panics : TunConfig → Bool
mask_panics cfg = elim cfg.virtual_ip [ none ↦ false | some _ ↦ ltb 32 cfg.prefix_len ]

-- `net.CIDRMask(ones, 32)` as a number, for at most 32 ones, and its four bytes in decimal.
abbrev pub mask_number : ℕ → ℕ
mask_number ones = 2 ^ 32 - 2 ^ (32 - ones)

abbrev pub mask_text : ℕ → Bytes
mask_text ones =
    let m = mask_number ones in
    decimal 2 (m / 2 ^ 24 % 2 ^ 8)
    ++ (b'.'
        ∷ (decimal 2 (m / 2 ^ 16 % 2 ^ 8)
            ++ (b'.' ∷ (decimal 2 (m / 2 ^ 8 % 2 ^ 8) ++ (b'.' ∷ decimal 2 (m % 2 ^ 8))))))

abbrev pub netsh_command : TunConfig → Bytes → List (List Bytes)
netsh_command cfg name = elim cfg.virtual_ip [
  | none ↦ []
  | some ip ↦
      (codes "netsh"
        ∷ codes "interface"
        ∷ codes "ip"
        ∷ codes "set"
        ∷ codes "address"
        ∷ (codes "name=" ++ name)
        ∷ codes "static"
        ∷ ip
        ∷ mask_text cfg.prefix_len
        ∷ [])
      ∷ []
]

-- tun_windows.go, createPlatformTUN: `open_ok` says whether wintun.dll is in place and the device can be
-- made, `its_name` is the device's name, `none` where it cannot be had. The whole is `none` where it panics.
unfoldable pub create_windows : Bool → Option Bytes → (List Bytes → Bool) → TunConfig → Option Made
unfolding run_all
create_windows open_ok its_name command_ok cfg =
    if open_ok
    then elim its_name [
      | none ↦ some (opened ∷ closed ∷ [], err not_named)
      | some name ↦
          if mask_panics cfg
          then none
          else some (before opened (run_all command_ok name (netsh_command cfg name)))
    ]
    else some ([], err not_opened)

-- What the Windows device answers to a read.
pub data Answer : Type 0 where
  broken : Answer
  nothing : Answer
  packet : Bytes → Answer

-- tun_windows.go, Read: the packet as far as the caller's buffer of `room` bytes holds it, and `none` for an
-- error. The device's answers stand in order; without a further one Read waits.
unfoldable pub windows_read : ℕ → List Answer → Option (Option Bytes)
windows_read room [] = none
windows_read room (broken ∷ rest) = some none
windows_read room (nothing ∷ rest) = windows_read room rest
windows_read room (packet p ∷ rest) = some (some (take room p))
