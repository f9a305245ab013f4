-- ===== src/Client/Interfaces/Total.antt =====
-- client/transport.go, detectChanges: it does not panic where no path's channel is closed.
use mpfpv.Base.{
  ℕ, ◌≡◌, refl, arith, inl, inr, Bool, false, Bool-cases, Option-cases, List, [], ◌∷◌, Option, some,
  lookup, delete, lookup-delete, has_key,
}
use mpfpv.Client.Paths.{NetPath, remove_path}
use mpfpv.Client.Interfaces.{
  IfaceInfo, fresh_path, add_path, remove_gone, add_new, changed, replace_path, recheck,
  replace_changed, detect_changes,
}
use mpfpv.Client.Interfaces.Reconcile.{lookup-add_path}

-- No path's channel is closed.
abbrev pub AllOpen : List (ℕ × NetPath) → Type 0
AllOpen m = (n : ℕ) (p : NetPath) → lookup n m ≡ some p → p.closed ≡ false

-- A result that is there, with every channel open.
abbrev Opens : Option (List (ℕ × NetPath)) → Type 0
Opens r = (q : List (ℕ × NetPath)) × (r ≡ some q) × AllOpen q

remove_path-Opens : (k : ℕ) (m : List (ℕ × NetPath)) → AllOpen m → Opens (remove_path k m)
unfolding remove_path
remove_path-Opens k m open_all = elim (Option-cases (lookup k m)) [
  | inl absent ↦ (m, ground arith, open_all)
  | inr (p, there) ↦ (
    delete k m,
    ground (arith, open_all k p),
    λ n x e. ground (arith, lookup-delete k n m, open_all n x),
  )
]

module _ (v4 : Bool) (bind_ok : ℕ → Bool) (now : ℕ) where
  fresh_open :
      (k : ℕ) (info : IfaceInfo) (p : NetPath)
      → fresh_path v4 bind_ok now k info ≡ some p
      → p.closed ≡ false
  unfolding fresh_path
  fresh_open k info p made = ground arith

  add_path-AllOpen :
      (k : ℕ) (info : IfaceInfo) (m : List (ℕ × NetPath))
      → AllOpen m
      → AllOpen (add_path v4 bind_ok now k info m)
  add_path-AllOpen k info m open_all n x e =
      ground (arith, lookup-add_path v4 bind_ok now k n info m, open_all n x, fresh_open k info x)

  remove_gone-Opens :
      (found : List (ℕ × IfaceInfo)) (names m : List (ℕ × NetPath))
      → AllOpen m
      → Opens (remove_gone v4 bind_ok now found names m)
  unfolding remove_gone
  remove_gone-Opens found [] m open_all = (m, refl, open_all)
  remove_gone-Opens found ((k, p) ∷ names) m open_all = elim (Bool-cases (has_key k found)) [
    | inl stays ↦ rw stays (remove_gone-Opens found names m open_all)
    | inr gone ↦
        let (rest, removed, left) = remove_path-Opens k m open_all in
        rw gone (rw (removed, remove_gone) (remove_gone-Opens found names rest left))
  ]

  add_new-AllOpen :
      (names : List (ℕ × NetPath)) (found : List (ℕ × IfaceInfo)) (m : List (ℕ × NetPath))
      → AllOpen m
      → AllOpen (add_new v4 bind_ok now names found m)
  unfolding add_new
  add_new-AllOpen names [] m open_all = open_all
  add_new-AllOpen names ((k, info) ∷ found) m open_all = elim (Bool-cases (has_key k names)) [
    | inl old ↦ rw old (add_new-AllOpen names found m open_all)
    | inr new ↦ rw new (add_new-AllOpen names found _ (add_path-AllOpen k info m open_all))
  ]

  replace_path-Opens :
      (k : ℕ) (info : IfaceInfo) (m : List (ℕ × NetPath))
      → AllOpen m
      → Opens (replace_path v4 bind_ok now k info m)
  replace_path-Opens k info m open_all =
      let (rest, removed, left) = remove_path-Opens k m open_all in
      (add_path v4 bind_ok now k info rest, rw removed, add_path-AllOpen k info rest left)

  recheck-Opens :
      (k : ℕ) (info : IfaceInfo) (m : List (ℕ × NetPath))
      → AllOpen m
      → Opens (recheck v4 bind_ok now k info m)
  recheck-Opens k info m open_all = elim (Option-cases (lookup k m)) [
    | inl absent ↦ (m, ground arith, open_all)
    | inr (p, there) ↦ elim (Bool-cases (changed v4 bind_ok now info p)) [
      | inl moved ↦
          let (q, e, left) = replace_path-Opens k info m open_all in (q, ground arith, left)
      | inr same ↦ (m, ground arith, open_all)
    ]
  ]

  replace_changed-Opens :
      (found : List (ℕ × IfaceInfo)) (m : List (ℕ × NetPath))
      → AllOpen m
      → Opens (replace_changed v4 bind_ok now found m)
  unfolding replace_changed
  replace_changed-Opens [] m open_all = (m, refl, open_all)
  replace_changed-Opens ((k, info) ∷ found) m open_all =
      let (rest, done, left) = recheck-Opens k info m open_all in
      let (q, e, kept) = replace_changed-Opens found rest left in (q, ground arith, kept)

  -- Where every path's channel is open, detectChanges does not panic, and they are all open afterwards.
  pub detect_changes_total :
      (found : List (ℕ × IfaceInfo)) (paths : List (ℕ × NetPath))
      → AllOpen paths
      → (after : List (ℕ × NetPath)) × (detect_changes v4 bind_ok now found paths ≡ some after)
        × AllOpen after
  unfolding detect_changes
  detect_changes_total found paths open_all =
      let (rest, removed, left) = remove_gone-Opens found paths paths open_all in
      let (q, e, kept) =
        replace_changed-Opens found (add_new v4 bind_ok now paths found rest)
          (add_new-AllOpen paths found rest left) in
      (q, ground arith, kept)
