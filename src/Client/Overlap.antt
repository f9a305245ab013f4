-- ===== src/Client/Overlap.antt =====
-- client/transport.go: removePath closes a path without the lock of the paths and takes it out of the map
-- later; what another goroutine meets in between.
use mathlib.Core.Option
use mpfpv.Base.{
  ℕ, ◌≡◌, refl, ap, sym, ◌∙◌, arith, inl, inr, Bool, true, false, ◌==◌, Bool-cases, List, [], ◌∷◌,
  none, some, lookup, insert, delete, lookup-insert,
}
use mpfpv.Client.Paths.{
  NetPath, judge, check_path, check_paths, begin_removal, remove_path, any_closed, stop,
}

delete-insert :
    (name : ℕ) (q : NetPath) (m : List (ℕ × NetPath))
    → delete name (insert name q m) ≡ delete name m
delete-insert name q [] = ground arith
delete-insert name q ((k, p) ∷ m) = ground (arith, delete-insert name q m)

-- The whole is the first part and then the deletion, for a path that there is.
pub remove_path-sections :
    (name : ℕ) (paths : List (ℕ × NetPath)) (p : NetPath)
    → lookup name paths ≡ some p
    → remove_path name paths ≡ Option.map (delete name) (begin_removal name paths)
unfolding remove_path begin_removal
remove_path-sections name paths p there = elim (Bool-cases p.closed) [
  | inl closed ↦ ground (arith, there, closed)
  | inr fresh ↦ ground (arith, there, fresh, delete-insert name (record p { closed = true }) paths)
]

-- A path that a check wants to replace is closed once more.
recheck_panics :
    (bind_ok : Bool) (now : ℕ) (p : NetPath)
    → (judge now p).1 ≡ true
    → check_path bind_ok now (record p { closed = true }) ≡ none
unfolding judge check_path
recheck_panics bind_ok now p stale = ground (arith, stale)

check_paths_panics :
    (bind_ok : ℕ → Bool) (now name : ℕ) (q : NetPath) (m : List (ℕ × NetPath))
    → lookup name m ≡ some q
    → ((b : Bool) → check_path b now q ≡ none)
    → check_paths bind_ok now m ≡ none
unfolding check_paths
check_paths_panics bind_ok now name q [] there panics = cc
check_paths_panics bind_ok now name q ((k, p) ∷ m) there panics = elim (Bool-cases (k == name)) [
  | inl here ↦
      let same : p ≡ q = ground (arith, here) in
      let dead : check_path (bind_ok k) now p ≡ none =
        ap (λ x. check_path (bind_ok k) now x) same ∙ panics (bind_ok k) in
      ground (arith, dead)
  | inr further ↦
      let rest : check_paths bind_ok now m ≡ none =
        check_paths_panics bind_ok now name q m (ground (arith, further)) panics in
      ground (arith, rest)
]

any_closed-there :
    (name : ℕ) (q : NetPath) (m : List (ℕ × NetPath))
    → lookup name m ≡ some q
    → q.closed ≡ true
    → any_closed m ≡ true
any_closed-there name q [] there e = cc
any_closed-there name q ((k, p) ∷ m) there e = ground (arith, any_closed-there name q m)

-- Between the close and the deletion of removePath, another goroutine panics: the end of the client, a check
-- of the paths that wants to replace this one, and another removal of it.
pub removal_overlapped :
    (name : ℕ) (p : NetPath) (paths mid : List (ℕ × NetPath))
    → lookup name paths ≡ some p
    → begin_removal name paths ≡ some mid
    → (stop mid ≡ none)
      × ((bind_ok : ℕ → Bool) (now : ℕ)
          → (judge now p).1 ≡ true
          → check_paths bind_ok now mid ≡ none)
      × (begin_removal name mid ≡ none)
unfolding begin_removal stop
removal_overlapped name p paths mid there begun =
    let dead : NetPath = record p { closed = true } in
    let open_yet : p.closed ≡ false = ground (arith, there) in
    let made : insert name dead paths ≡ mid = ground (arith, there, open_yet) in
    let found : lookup name mid ≡ some dead =
      ap (lookup name) (sym made) ∙ lookup-insert name name dead paths ∙ ground arith in
    let closed : any_closed mid ≡ true = any_closed-there name dead mid found refl in
    (
      ground (arith, closed),
      λ bind_ok now stale.
          check_paths_panics bind_ok now name dead mid found (λ b. recheck_panics b now p stale),
      ground (arith, found),
    )
