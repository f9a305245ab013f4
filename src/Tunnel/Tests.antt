-- ===== src/Tunnel/Tests.antt =====
-- A device whose first command works and whose second fails.
use mpfpv.Base.{true, [], ◌++◌, some, replicate, length, leb}
use mpfpv.Base.Int.{pos}
use mpfpv.Base.Bytes.{codes}
use mpfpv.Tunnel.{TunConfig, create_linux, linux_commands}
use mpfpv.Tunnel.Devices.{Settled, create_linux-Settled}

abbrev config : TunConfig
config = record {
  name = [];
  mtu = pos 1300;
  virtual_ip = some (codes "10.99.0.2");
  prefix_len = 24;
}

create_linux-Settled_example : Settled (linux_commands config) (
    create_linux true
      (λ field. some (codes "tun0" ++ replicate 12 0))
      (λ c. leb 7 (length c))
      config)
create_linux-Settled_example =
    create_linux-Settled true (λ field. some (codes "tun0" ++ replicate 12 0))
      (λ c. leb 7 (length c)) config
