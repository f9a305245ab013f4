-- ===== src/Client/Interfaces/Scan.antt =====
-- client/transport.go, scanInterfaces: what holds of every interface that a scan returns.
use mathlib.Core.Path.{subst}
use mpfpv.Base.{
  ℕ, ◌≡◌, refl, ap, sym, ◌∙◌, arith, inl, inr, Bool, true, false, ◌==◌, ◌&&◌, Bool-cases,
  Option-cases, List, [], ◌∷◌, ◌++◌, Option, none, some, All, lookup, insert, lookup-insert,
  Distinct, insert-Distinct, length,
}
use mpfpv.Base.Bytes.{Bytes}
use mpfpv.Protocol.Wire.{to4}
use mpfpv.Client.Interfaces.{
  Interface, IfaceInfo, is_physical_interface, usable4, usable6, add4, add6, collect, has_addrs,
  info_of, scan_all, scan_interfaces,
}

-- A physical interface's usable addresses, one at least.
pub record IsUsable (info : IfaceInfo) : Type 0 where
  pub physical : is_physical_interface info.name ≡ true
  pub usable_v4 : All (λ ip. usable4 ip ≡ true) info.addrs4
  pub usable_v6 : All (λ ip. usable6 ip ≡ true) info.addrs6
  pub some_addr : has_addrs info ≡ true

All-snoc :
    (p : Bytes → Bool) (xs : List Bytes) (x : Bytes)
    → All (λ ip. p ip ≡ true) xs
    → p x ≡ true
    → All (λ ip. p ip ≡ true) (xs ++ (x ∷ []))
All-snoc p [] x h e = (e, tt)
All-snoc p (y ∷ ys) x h e = (h.0, All-snoc p ys x h.1 e)

abbrev Kept : Bytes → IfaceInfo → Type 0
Kept name info =
    (info.name ≡ name)
    × All (λ ip. usable4 ip ≡ true) info.addrs4
    × All (λ ip. usable6 ip ≡ true) info.addrs6

add4-Kept : (name ip : Bytes) (info : IfaceInfo) → Kept name info → Kept name (add4 ip info)
add4-Kept name ip info (n, v4, v6) = elim (Bool-cases (usable4 ip)) [
  | inl good ↦ rw good (n, All-snoc usable4 info.addrs4 ip v4 good, v6)
  | inr bad ↦ rw bad (n, v4, v6)
]

add6-Kept : (name ip : Bytes) (info : IfaceInfo) → Kept name info → Kept name (add6 ip info)
add6-Kept name ip info (n, v4, v6) = elim (Bool-cases (length ip == 16 && usable6 ip)) [
  | inl good ↦ rw good (n, v4, All-snoc usable6 info.addrs6 ip v6 (ground arith))
  | inr bad ↦ rw bad (n, v4, v6)
]

collect-Kept :
    (name : Bytes) (ips : List (Option Bytes)) (info : IfaceInfo)
    → Kept name info
    → Kept name (collect ips info)
unfolding collect
collect-Kept name [] info k = k
collect-Kept name (none ∷ ips) info k = collect-Kept name ips info k
collect-Kept name (some ip ∷ ips) info k = elim (Option-cases (to4 ip)) [
  | inl six ↦ rw (six, collect) (collect-Kept name ips (add6 ip info) (add6-Kept name ip info k))
  | inr (ip4, four) ↦
      rw (four, collect) (collect-Kept name ips (add4 ip4 info) (add4-Kept name ip4 info k))
]

info_of-IsUsable :
    (excluded : ℕ → Bool) (i : Interface) (info : IfaceInfo)
    → info_of excluded i ≡ some info
    → IsUsable info × (excluded i.key ≡ false)
unfolding info_of
info_of-IsUsable excluded i info e = elim (Option-cases i.addrs) [
  | inl failed ↦ ground arith
  | inr (ips, given) ↦
      let start : IfaceInfo = record { name = i.name; addrs4 = []; addrs6 = [] } in
      let kept : Kept i.name (collect ips start) = collect-Kept i.name ips start (refl, tt, tt) in
      let same : collect ips start ≡ info = ground arith in
      let (name, v4, v6) = subst (Kept i.name) same kept in
      (
        record {
          physical = ground arith;
          usable_v4 = v4;
          usable_v6 = v6;
          some_addr = ground arith;
        },
        ground arith,
      )
]

-- What holds of each entry of a map from keys to interfaces.
abbrev AllUsable : (ℕ → Bool) → List (ℕ × IfaceInfo) → Type 0
AllUsable excluded m =
    (k : ℕ) (info : IfaceInfo) → lookup k m ≡ some info → IsUsable info × (excluded k ≡ false)

scan_all_lem :
    (excluded : ℕ → Bool) (is : List Interface) (m : List (ℕ × IfaceInfo))
    → AllUsable excluded m
    → Distinct m
    → AllUsable excluded (scan_all excluded is m) × Distinct (scan_all excluded is m)
unfolding scan_all
scan_all_lem excluded [] m all d = (all, d)
scan_all_lem excluded (i ∷ is) m all d = elim (Option-cases (info_of excluded i)) [
  | inl skipped ↦ rw (skipped, scan_all) (scan_all_lem excluded is m all d)
  | inr (found, e) ↦
      rw (e, scan_all)
        (scan_all_lem excluded is (insert i.key found m)
          (λ k info there. elim (Bool-cases (i.key == k)) [
            | inl new ↦
                let same : found ≡ info = ground (arith, lookup-insert i.key k found m) in
                let key : i.key ≡ k = ground arith in
                let (good, free) = info_of-IsUsable excluded i found e in
                (subst IsUsable same good, ap excluded (sym key) ∙ free)
            | inr old ↦ all k info (ground (arith, lookup-insert i.key k found m))
          ])
          (insert-Distinct i.key found m d))
]

-- Every interface that a scan returns, whatever the system lists, is a physical one that is not
-- excluded, with one or more addresses, all of them usable.
pub scan_interfaces-IsUsable :
    (excluded : ℕ → Bool) (listed : Option (List Interface)) (k : ℕ) (info : IfaceInfo)
    → lookup k (scan_interfaces excluded listed) ≡ some info
    → IsUsable info × (excluded k ≡ false)
unfolding scan_interfaces
scan_interfaces-IsUsable excluded none k info there = cc
scan_interfaces-IsUsable excluded (some is) k info there =
    (scan_all_lem excluded is [] (λ j x e. cc) tt).0 k info there

pub scan_interfaces-Distinct :
    (excluded : ℕ → Bool) (listed : Option (List Interface))
    → Distinct (scan_interfaces excluded listed)
unfolding scan_interfaces
scan_interfaces-Distinct excluded none = tt
scan_interfaces-Distinct excluded (some is) = (scan_all_lem excluded is [] (λ j x e. cc) tt).1
