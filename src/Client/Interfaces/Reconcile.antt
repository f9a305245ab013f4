-- ===== src/Client/Interfaces/Reconcile.antt =====
-- client/transport.go, scanInterfaces and detectChanges: which addresses a scan keeps, and that the
-- three loops of detectChanges bring each path to where its interface's scan says.
use mpfpv.Base.{
  ℕ, ◌≡◌, ◌∙◌, arith, inl, inr, Bool, true, false, ◌==◌, ◌&&◌, not, if◌then◌else◌, Bool-cases,
  Option-cases, List, [], ◌∷◌, Option, none, some, lookup, lookup-insert, lookup-delete, Distinct,
  has_key,
}
use mpfpv.Base.Bytes.{bytes_eq_refl}
use mpfpv.Client.Paths.{NetPath, remove_path}
use mpfpv.Client.Interfaces.{
  IfaceInfo, pick_addr, fresh_path, add_path, remove_gone, add_new, changed, replace_path, recheck,
  replace_changed, detect_changes,
}

pub lookup-remove_path :
    (k n : ℕ) (m q : List (ℕ × NetPath))
    → remove_path k m ≡ some q
    → lookup n q ≡ (if k == n then none else lookup n m)
unfolding remove_path
lookup-remove_path k n m q e = ground (arith, lookup-delete k n m)

abbrev kept {ℓ} : {A : Type ℓ} → Option A → Bool
kept none = false
kept (some a) = true

module _ (v4 : Bool) (bind_ok : ℕ → Bool) (now : ℕ) where
  abbrev pub fresh_of : ℕ → Option IfaceInfo → Option NetPath
  fresh_of key none = none
  fresh_of key (some info) = fresh_path v4 bind_ok now key info

  abbrev pub or_else : Option NetPath → Option NetPath → Option NetPath
  or_else none o = o
  or_else (some p) o = some p

  -- Where a path should be, by its interface's scan and where it is.
  abbrev pub reconciled : ℕ → Option IfaceInfo → Option NetPath → Option NetPath
  reconciled key none o = none
  reconciled key (some info) none = fresh_path v4 bind_ok now key info
  reconciled key (some info) (some p) =
      if changed v4 bind_ok now info p then fresh_path v4 bind_ok now key info else some p

  pub lookup-add_path :
      (k n : ℕ) (info : IfaceInfo) (m : List (ℕ × NetPath))
      → lookup n (add_path v4 bind_ok now k info m)
        ≡ (if k == n then or_else (fresh_path v4 bind_ok now k info) (lookup n m) else lookup n m)
  unfolding add_path
  lookup-add_path k n info m = elim (Option-cases (fresh_path v4 bind_ok now k info)) [
    | inl e ↦ rw (e, add_path) (ground arith)
    | inr (p, e) ↦ rw (e, add_path) (ground (arith, lookup-insert k n p m))
  ]

  lookup-remove_gone :
      (found : List (ℕ × IfaceInfo)) (names m q : List (ℕ × NetPath)) (n : ℕ)
      → remove_gone v4 bind_ok now found names m ≡ some q
      → lookup n q ≡ (if has_key n names && not (has_key n found) then none else lookup n m)
  unfolding remove_gone
  lookup-remove_gone found [] m q n e = ground arith
  lookup-remove_gone found ((k, p) ∷ names) m q n e = elim (Bool-cases (has_key k found)) [
    | inl stays ↦ ground (arith, lookup-remove_gone found names m q n)
    | inr gone ↦ elim (Option-cases (remove_path k m)) [
      | inl panic ↦ ground arith
      | inr (rest, removed) ↦
          ground (arith, lookup-remove_gone found names rest q n, lookup-remove_path k n m rest)
    ]
  ]

  lookup-add_new :
      (names : List (ℕ × NetPath)) (found : List (ℕ × IfaceInfo)) (m : List (ℕ × NetPath)) (n : ℕ)
      → Distinct found
      → lookup n (add_new v4 bind_ok now names found m) ≡ (
          if has_key n names
          then lookup n m
          else or_else (fresh_of n (lookup n found)) (lookup n m))
  unfolding add_new
  lookup-add_new names [] m n d = ground arith
  lookup-add_new names ((k, info) ∷ found) m n d =
      let kept = if has_key k names then m else add_path v4 bind_ok now k info m in
      lookup-add_new names found kept n d.1 ∙ ground (arith, lookup-add_path k n info m)

  abbrev rechecked : ℕ → Option IfaceInfo → Option NetPath → Option NetPath
  rechecked key none o = o
  rechecked key (some info) none = none
  rechecked key (some info) (some p) =
      if changed v4 bind_ok now info p then fresh_path v4 bind_ok now key info else some p

  lookup-replace_path :
      (k n : ℕ) (info : IfaceInfo) (m q : List (ℕ × NetPath))
      → replace_path v4 bind_ok now k info m ≡ some q
      → lookup n q ≡ (if k == n then fresh_path v4 bind_ok now n info else lookup n m)
  lookup-replace_path k n info m q e = elim (Option-cases (remove_path k m)) [
    | inl panic ↦ ground arith
    | inr (rest, removed) ↦
        ground (arith, lookup-add_path k n info rest, lookup-remove_path k n m rest)
  ]

  lookup-recheck :
      (k n : ℕ) (info : IfaceInfo) (m q : List (ℕ × NetPath))
      → recheck v4 bind_ok now k info m ≡ some q
      → lookup n q ≡ (if k == n then rechecked n (some info) (lookup n m) else lookup n m)
  lookup-recheck k n info m q e = elim (Option-cases (lookup k m)) [
    | inl absent ↦ ground arith
    | inr (p, there) ↦ elim (Bool-cases (changed v4 bind_ok now info p)) [
      | inl moved ↦ ground (arith, lookup-replace_path k n info m q)
      | inr same ↦ ground arith
    ]
  ]

  lookup-replace_changed :
      (found : List (ℕ × IfaceInfo)) (m q : List (ℕ × NetPath)) (n : ℕ)
      → Distinct found
      → replace_changed v4 bind_ok now found m ≡ some q
      → lookup n q ≡ rechecked n (lookup n found) (lookup n m)
  unfolding replace_changed
  lookup-replace_changed [] m q n d e = ground arith
  lookup-replace_changed ((k, info) ∷ found) m q n d e =
      elim (Option-cases (recheck v4 bind_ok now k info m)) [
        | inl panic ↦ ground arith
        | inr (rest, done) ↦
            ground
              (arith, lookup-replace_changed found rest q n d.1, lookup-recheck k n info m rest)
      ]

  -- A path on the address that was picked for it has not changed.
  fresh_unchanged :
      (n : ℕ) (info : IfaceInfo) (p : NetPath)
      → fresh_path v4 bind_ok now n info ≡ some p
      → changed v4 bind_ok now info p ≡ false
  unfolding fresh_path
  fresh_unchanged n info p e = elim (Option-cases (pick_addr v4 info)) [
    | inl bare ↦ ground arith
    | inr (a, picked) ↦ ground (arith, bytes_eq_refl a)
  ]

  -- What the three loops do to one interface's path, one after the other.
  loops_reconcile :
      (n : ℕ) (i : Option IfaceInfo) (o r a : Option NetPath)
      → r ≡ (if kept o && not (kept i) then none else o)
      → a ≡ (if kept o then r else or_else (fresh_of n i) r)
      → rechecked n i a ≡ reconciled n i o
  loops_reconcile n none none r a e f = ground arith
  loops_reconcile n none (some p) r a e f = ground arith
  loops_reconcile n (some info) (some p) r a e f = ground arith
  loops_reconcile n (some info) none r a e f =
      elim (Option-cases (fresh_path v4 bind_ok now n info)) [
        | inl bare ↦ ground arith
        | inr (p, made) ↦ ground (arith, fresh_unchanged n info p)
      ]

  -- After detectChanges with a scan that lists no interface twice, unless it panics, each interface has the path that its scan and its old path
  -- ask for: none if the scan lacks it, the old one if its address is still the first of the server's
  -- family or there is none to change to, and a new one otherwise, if it has an address and a socket.
  pub detect_changes-reconciled :
      (found : List (ℕ × IfaceInfo)) (paths after : List (ℕ × NetPath)) (n : ℕ)
      → Distinct found
      → detect_changes v4 bind_ok now found paths ≡ some after
      → lookup n after ≡ reconciled n (lookup n found) (lookup n paths)
  unfolding detect_changes
  detect_changes-reconciled found paths after n d e =
      elim (Option-cases (remove_gone v4 bind_ok now found paths paths)) [
        | inl panic ↦ ground arith
        | inr (rest, removed) ↦
            let added = add_new v4 bind_ok now paths found rest in
            lookup-replace_changed found added after n d (ground arith)
            ∙ loops_reconcile n (lookup n found) (lookup n paths) (lookup n rest) (lookup n added)
                (lookup-remove_gone found paths paths rest n removed)
                (lookup-add_new paths found rest n d)
      ]
