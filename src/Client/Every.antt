-- ===== src/Client/Every.antt =====
-- client/transport.go: what every path of a client keeps, through everything that is done with paths.
use mathlib.Core.Path.{subst}
use mpfpv.Base.{
  ℕ, ◌≡◌, arith, inl, inr, Bool, Bool-cases, Option-cases, List, [], ◌∷◌, some, lookup, insert,
  delete, has_key, length, ◌==◌,
}
use mpfpv.Base.Bytes.{Bytes}
use mpfpv.Client.Paths.{
  NetPath, new_path, send_on, send_each, send, update, check_path, check_paths, remove_path,
}
use mpfpv.Client.Interfaces.{
  IfaceInfo, pick_addr, fresh_path, add_path, remove_gone, add_new, changed, replace_path, recheck,
  replace_changed, detect_changes,
}
use mpfpv.Client.Sockets.{add_each}

abbrev pub Every : (NetPath → Type 0) → List (ℕ × NetPath) → Type 0
Every P [] = Unit
Every P ((k, p) ∷ m) = P p × Every P m

module _ (P : NetPath → Type 0) where
  pub lookup-Every :
      (n : ℕ) (p : NetPath) (m : List (ℕ × NetPath)) → Every P m → lookup n m ≡ some p → P p
  lookup-Every n p [] h e = absurd (cc)
  lookup-Every n p ((k, q) ∷ m) h e = elim (Bool-cases (k == n)) [
    | inl here ↦ let same : q ≡ p = ground (arith, here) in subst P same h.0
    | inr apart ↦ lookup-Every n p m h.1 (ground (arith, apart))
  ]

  insert-Every :
      (n : ℕ) (p : NetPath) (m : List (ℕ × NetPath)) → P p → Every P m → Every P (insert n p m)
  insert-Every n p [] x h = (x, tt)
  insert-Every n p ((k, q) ∷ m) x h = elim (Bool-cases (k == n)) [
    | inl here ↦ rw here (x, h.1)
    | inr apart ↦ rw apart (h.0, insert-Every n p m x h.1)
  ]

  delete-Every : (n : ℕ) (m : List (ℕ × NetPath)) → Every P m → Every P (delete n m)
  delete-Every n [] h = tt
  delete-Every n ((k, q) ∷ m) h = elim (Bool-cases (k == n)) [
    | inl here ↦ rw here (delete-Every n m h.1)
    | inr apart ↦ rw apart (h.0, delete-Every n m h.1)
  ]

  pub send_each-Every :
      (write_ok : Bytes → Bool) (pkt : Bytes)
      → ((p : NetPath) → P p → P (send_on write_ok pkt p).0)
      → (m : List (ℕ × NetPath)) → Every P m
      → Every P (send_each write_ok pkt m).0
  unfolding send_each
  send_each-Every write_ok pkt keeps [] h = tt
  send_each-Every write_ok pkt keeps ((k, p) ∷ m) h =
      (keeps p h.0, send_each-Every write_ok pkt keeps m h.1)

  pub send-Every :
      (write_ok : Bytes → Bool) (pkt : Bytes)
      → ((p : NetPath) → P p → P (send_on write_ok pkt p).0)
      → (m : List (ℕ × NetPath)) → Every P m
      → Every P (send write_ok pkt m).0
  unfolding send
  send-Every write_ok pkt keeps m h = elim (Bool-cases (length m == 0)) [
    | inl no_paths ↦ rw no_paths h
    | inr some_paths ↦ rw some_paths (send_each-Every write_ok pkt keeps m h)
  ]

  pub update-Every :
      (name : ℕ) (f : NetPath → NetPath) (m : List (ℕ × NetPath))
      → ((p : NetPath) → P p → P (f p))
      → Every P m
      → Every P (update name f m)
  update-Every name f m keeps h = elim (Option-cases (lookup name m)) [
    | inl absent ↦ rw (absent, update) h
    | inr (p, there) ↦
        rw (there, update) (insert-Every name (f p) m (keeps p (lookup-Every name p m h there)) h)
  ]

  pub check_paths-Every :
      (bind_ok : ℕ → Bool) (now : ℕ)
      → ((k : ℕ) (p q : NetPath) → P p → check_path (bind_ok k) now p ≡ some q → P q)
      → (m after : List (ℕ × NetPath)) → Every P m
      → check_paths bind_ok now m ≡ some after
      → Every P after
  unfolding check_paths
  check_paths-Every bind_ok now keeps [] after h e =
      let done : [] ≡ after = ground arith in subst (Every P) done tt
  check_paths-Every bind_ok now keeps ((k, p) ∷ m) after h e =
      elim (Option-cases (check_path (bind_ok k) now p)) [
        | inl panic ↦ absurd (ground (arith, panic))
        | inr (q, checked) ↦ elim (Option-cases (check_paths bind_ok now m)) [
          | inl panic ↦ absurd (ground (arith, panic, checked))
          | inr (rest, others) ↦
              let done : (k, q) ∷ rest ≡ after = ground (arith, checked, others) in
              subst (Every P) done
                (keeps k p q h.0 checked, check_paths-Every bind_ok now keeps m rest h.1 others)
        ]
      ]

  remove_path-Every :
      (k : ℕ) (m after : List (ℕ × NetPath))
      → Every P m
      → remove_path k m ≡ some after
      → Every P after
  unfolding remove_path
  remove_path-Every k m after h e = elim (Option-cases (lookup k m)) [
    | inl absent ↦ let same : m ≡ after = ground (arith, absent) in subst (Every P) same h
    | inr (p, there) ↦
        let done : delete k m ≡ after = ground (arith, there) in
        subst (Every P) done (delete-Every k m h)
  ]

  -- Whatever a path of a new socket has, every path has after detectChanges.
  module _ (fresh : (name local_addr : Bytes) (now : ℕ) → P (new_path name local_addr now))
      (v4 : Bool) (bind_ok : ℕ → Bool) (now : ℕ) where
    fresh_path-keeps :
        (k : ℕ) (info : IfaceInfo) (p : NetPath) → fresh_path v4 bind_ok now k info ≡ some p → P p
    unfolding fresh_path
    fresh_path-keeps k info p made = elim (Option-cases (pick_addr v4 info)) [
      | inl nothing ↦ absurd (ground (arith, nothing))
      | inr (a, there) ↦ elim (Bool-cases (bind_ok k)) [
        | inl bound ↦
            let same : new_path info.name a now ≡ p = ground (arith, there, bound) in
            subst P same (fresh info.name a now)
        | inr unbound ↦ absurd (ground (arith, there, unbound))
      ]
    ]

    add_path-Every :
        (k : ℕ) (info : IfaceInfo) (m : List (ℕ × NetPath))
        → Every P m
        → Every P (add_path v4 bind_ok now k info m)
    unfolding add_path
    add_path-Every k info m h = elim (Option-cases (fresh_path v4 bind_ok now k info)) [
      | inl nothing ↦ rw (nothing, add_path) h
      | inr (p, made) ↦ rw (made, add_path) (insert-Every k p m (fresh_path-keeps k info p made) h)
    ]

    pub add_each-Every :
        (found : List (ℕ × IfaceInfo)) (m : List (ℕ × NetPath))
        → Every P m
        → Every P (add_each v4 bind_ok now found m)
    unfolding add_each
    add_each-Every [] m h = h
    add_each-Every ((k, info) ∷ found) m h = add_each-Every found _ (add_path-Every k info m h)

    remove_gone-Every :
        (found : List (ℕ × IfaceInfo)) (names m after : List (ℕ × NetPath))
        → Every P m
        → remove_gone v4 bind_ok now found names m ≡ some after
        → Every P after
    unfolding remove_gone
    remove_gone-Every found [] m after h e =
        let same : m ≡ after = ground arith in subst (Every P) same h
    remove_gone-Every found ((k, p) ∷ names) m after h e = elim (Bool-cases (has_key k found)) [
      | inl stays ↦ remove_gone-Every found names m after h (ground (arith, stays))
      | inr gone ↦ elim (Option-cases (remove_path k m)) [
        | inl panic ↦ absurd (ground (arith, gone, panic))
        | inr (rest, removed) ↦
            remove_gone-Every found names rest after (remove_path-Every k m rest h removed)
              (ground (arith, gone, removed))
      ]
    ]

    add_new-Every :
        (names : List (ℕ × NetPath)) (found : List (ℕ × IfaceInfo)) (m : List (ℕ × NetPath))
        → Every P m
        → Every P (add_new v4 bind_ok now names found m)
    unfolding add_new
    add_new-Every names [] m h = h
    add_new-Every names ((k, info) ∷ found) m h = elim (Bool-cases (has_key k names)) [
      | inl old ↦ rw old (add_new-Every names found m h)
      | inr new ↦ rw new (add_new-Every names found _ (add_path-Every k info m h))
    ]

    replace_path-Every :
        (k : ℕ) (info : IfaceInfo) (m after : List (ℕ × NetPath))
        → Every P m
        → replace_path v4 bind_ok now k info m ≡ some after
        → Every P after
    replace_path-Every k info m after h e = elim (Option-cases (remove_path k m)) [
      | inl panic ↦ absurd (ground (arith, panic))
      | inr (rest, removed) ↦
          let same : add_path v4 bind_ok now k info rest ≡ after = ground (arith, removed) in
          subst (Every P) same (add_path-Every k info rest (remove_path-Every k m rest h removed))
    ]

    recheck-Every :
        (k : ℕ) (info : IfaceInfo) (m after : List (ℕ × NetPath))
        → Every P m
        → recheck v4 bind_ok now k info m ≡ some after
        → Every P after
    recheck-Every k info m after h e = elim (Option-cases (lookup k m)) [
      | inl absent ↦ let same : m ≡ after = ground (arith, absent) in subst (Every P) same h
      | inr (p, there) ↦ elim (Bool-cases (changed v4 bind_ok now info p)) [
        | inl moved ↦ replace_path-Every k info m after h (ground (arith, there, moved))
        | inr same ↦ let kept : m ≡ after = ground (arith, there, same) in subst (Every P) kept h
      ]
    ]

    replace_changed-Every :
        (found : List (ℕ × IfaceInfo)) (m after : List (ℕ × NetPath))
        → Every P m
        → replace_changed v4 bind_ok now found m ≡ some after
        → Every P after
    unfolding replace_changed
    replace_changed-Every [] m after h e =
        let same : m ≡ after = ground arith in subst (Every P) same h
    replace_changed-Every ((k, info) ∷ found) m after h e =
        elim (Option-cases (recheck v4 bind_ok now k info m)) [
          | inl panic ↦ absurd (ground (arith, panic))
          | inr (rest, done) ↦
              replace_changed-Every found rest after (recheck-Every k info m rest h done)
                (ground (arith, done))
        ]

    pub detect_changes-Every :
        (found : List (ℕ × IfaceInfo)) (m after : List (ℕ × NetPath))
        → Every P m
        → detect_changes v4 bind_ok now found m ≡ some after
        → Every P after
    unfolding detect_changes
    detect_changes-Every found m after h e =
        elim (Option-cases (remove_gone v4 bind_ok now found m m)) [
          | inl panic ↦ absurd (ground (arith, panic))
          | inr (rest, removed) ↦
              replace_changed-Every found (add_new v4 bind_ok now m found rest) after
                (add_new-Every m found rest (remove_gone-Every found m m rest h removed))
                (ground (arith, removed))
        ]
