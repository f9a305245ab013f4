-- ===== src/Tunnel/Devices.antt =====
-- tunnel/: a device that cannot be set up is closed, and one that can be has had all its commands.
use mathlib.Core.Path.{subst}
use mpfpv.Base.{
  ◌↔◌, ◌≢◌, ◌<◌, ℕ, ◌+◌, ◌≡◌, refl, ap, arith, inl, inr, Bool, true, false, Bool-cases, ◌⊎◌,
  replicate, List, [], ◌∷◌, Option, none, some,
}
use mpfpv.Base.Bytes.{Bytes, copy}
use mpfpv.Base.Results.{ok, err}
use mpfpv.Tunnel.{
  TunConfig, Call, opened, named, ran, closed, TunError, not_opened, not_named, failed, Made,
  run_all, before, device_name, linux_commands, netsh_command, mask_panics, create_linux,
  create_windows,
}

abbrev pub opens : List Call → ℕ
opens [] = 0
opens (opened ∷ cs) = 1 + opens cs
opens (named b ∷ cs) = opens cs
opens (ran c ∷ cs) = opens cs
opens (closed ∷ cs) = opens cs

abbrev pub closes : List Call → ℕ
closes [] = 0
closes (opened ∷ cs) = closes cs
closes (named b ∷ cs) = closes cs
closes (ran c ∷ cs) = closes cs
closes (closed ∷ cs) = 1 + closes cs

-- The commands that were run, in order.
abbrev pub commands : List Call → List (List Bytes)
commands [] = []
commands (opened ∷ cs) = commands cs
commands (named b ∷ cs) = commands cs
commands (ran c ∷ cs) = c ∷ commands cs
commands (closed ∷ cs) = commands cs

-- After an error nothing is left open; on success one device is, and the commands for its name were run.
abbrev pub Settled : (Bytes → List (List Bytes)) → Made → Type 0
Settled wanted (calls, ok name) =
    (opens calls ≡ 1) × (closes calls ≡ 0) × (commands calls ≡ wanted name)
Settled wanted (calls, err why) = closes calls ≡ opens calls

-- The commands of an open device.
abbrev RunsOn : List (List Bytes) → Made → Type 0
RunsOn cs (calls, ok name) = (opens calls ≡ 0) × (closes calls ≡ 0) × (commands calls ≡ cs)
RunsOn cs (calls, err why) = (opens calls ≡ 0) × (closes calls ≡ 1)

ran-RunsOn :
    (c : List Bytes) (cs : List (List Bytes)) (m : Made)
    → RunsOn cs m
    → RunsOn (c ∷ cs) (ran c ∷ m.0, m.1)
ran-RunsOn c cs (calls, ok name) h = (h.0, h.1, ap (◌∷◌ c) h.2)
ran-RunsOn c cs (calls, err why) h = h

run_all-RunsOn :
    (command_ok : List Bytes → Bool) (name : Bytes) (cs : List (List Bytes))
    → RunsOn cs (run_all command_ok name cs)
unfolding run_all
run_all-RunsOn command_ok name [] = (refl, refl, refl)
run_all-RunsOn command_ok name (c ∷ cs) = elim (Bool-cases (command_ok c)) [
  | inl runs ↦
      rw runs (ran-RunsOn c cs (run_all command_ok name cs) (run_all-RunsOn command_ok name cs))
  | inr fails ↦ rw fails (refl, refl)
]

-- What the caller has done by then, it has done in vain or for good.
opened-Settled :
    (wanted : Bytes → List (List Bytes)) (name : Bytes) (m : Made)
    → RunsOn (wanted name) m
    → (m.1 ≡ ok name) ⊎ ((why : TunError) × (m.1 ≡ err why))
    → Settled wanted (before opened m)
opened-Settled wanted name (calls, ok given) h (inl same) =
    (ground (arith, h.0), h.1, ground (arith, h.2, same))
opened-Settled wanted name (calls, ok given) h (inr (why, bad)) = absurd (ground arith)
opened-Settled wanted name (calls, err why) h r = ground (arith, h.0, h.1)

run_all-result :
    (command_ok : List Bytes → Bool) (name : Bytes) (cs : List (List Bytes))
    → ((run_all command_ok name cs).1 ≡ ok name)
      ⊎ ((why : TunError) × ((run_all command_ok name cs).1 ≡ err why))
unfolding run_all
run_all-result command_ok name [] = inl refl
run_all-result command_ok name (c ∷ cs) = elim (Bool-cases (command_ok c)) [
  | inl runs ↦ rw runs (run_all-result command_ok name cs)
  | inr fails ↦ rw fails (inr (failed c, refl))
]

named-Settled :
    (wanted : Bytes → List (List Bytes)) (field : Bytes) (m : Made)
    → Settled wanted (before opened m)
    → Settled wanted (before opened (before (named field) m))
named-Settled wanted field (calls, ok name) h = h
named-Settled wanted field (calls, err why) h = h

-- On Linux a device that cannot be named or set up is closed again, exactly once, and one that is handed
-- out is open and has had its commands, in order and with the name that is handed out.
pub create_linux-Settled :
    (open_ok : Bool) (set_iff : Bytes → Option Bytes) (command_ok : List Bytes → Bool)
    (cfg : TunConfig)
    → Settled (linux_commands cfg) (create_linux open_ok set_iff command_ok cfg)
unfolding create_linux
create_linux-Settled false set_iff command_ok cfg = refl
create_linux-Settled true set_iff command_ok cfg =
    by_field (set_iff (copy (replicate 16 0) cfg.name))
  where
    by_field :
        (given : Option Bytes)
        → Settled (linux_commands cfg) (elim given [
          | none ↦ (opened ∷ named (copy (replicate 16 0) cfg.name) ∷ closed ∷ [], err not_named)
          | some f ↦
              let name = device_name cfg.name f in
              before opened (
                before
                  (named (copy (replicate 16 0) cfg.name))
                  (run_all command_ok name (linux_commands cfg name)))
        ])
    by_field none = refl
    by_field (some f) =
        let name = device_name cfg.name f in
        let done = run_all command_ok name (linux_commands cfg name) in
        named-Settled (linux_commands cfg) (copy (replicate 16 0) cfg.name) done (
          opened-Settled (linux_commands cfg) name done
            (run_all-RunsOn command_ok name (linux_commands cfg name))
            (run_all-result command_ok name (linux_commands cfg name)))

-- The same on Windows, where it does not panic.
pub create_windows-Settled :
    (open_ok : Bool) (its_name : Option Bytes) (command_ok : List Bytes → Bool) (cfg : TunConfig)
    (m : Made)
    → create_windows open_ok its_name command_ok cfg ≡ some m
    → Settled (netsh_command cfg) m
unfolding create_windows
create_windows-Settled false its_name command_ok cfg m e =
    let same : ([], err not_opened) ≡ m = ground arith in
    subst (Settled (netsh_command cfg)) same refl
create_windows-Settled true none command_ok cfg m e =
    let same : (opened ∷ closed ∷ [], err not_named) ≡ m = ground arith in
    subst (Settled (netsh_command cfg)) same refl
create_windows-Settled true (some name) command_ok cfg m e = elim (Bool-cases (mask_panics cfg)) [
  | inl panics ↦ absurd (ground (arith, panics))
  | inr fits ↦
      let made : before opened (run_all command_ok name (netsh_command cfg name)) ≡ m =
        ground (arith, fits) in
      subst (Settled (netsh_command cfg)) made (
        opened-Settled (netsh_command cfg) name (run_all command_ok name (netsh_command cfg name))
          (run_all-RunsOn command_ok name (netsh_command cfg name))
          (run_all-result command_ok name (netsh_command cfg name)))
]

-- It panics exactly for a device that was made and named, with an address and a prefix length over 32.
pub create_windows_panics :
    (its_name : Option Bytes) (command_ok : List Bytes → Bool) (cfg : TunConfig) (ip : Bytes)
    → cfg.virtual_ip ≡ some ip
    → (create_windows true its_name command_ok cfg ≡ none)
      ↔ ((its_name ≢ none) × (32 < cfg.prefix_len))
unfolding create_windows
create_windows_panics none command_ok cfg ip there =
    (λ e. absurd (ground arith), λ h. absurd (h.0 refl))
create_windows_panics (some name) command_ok cfg ip there =
    (λ e. (λ f. absurd (ground arith), ground (arith, there)), λ h. ground (arith, there, h.1))
