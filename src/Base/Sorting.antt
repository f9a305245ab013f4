-- ===== src/Base/Sorting.antt =====
-- `sort.Slice` by a number of each element, as an insertion sort; equal numbers keep no promised order.
use mpfpv.Base.{
  ℕ, ◌≤◌, ◌≡◌, ◌≢◌, refl, sym, ap, ◌∙◌, arith, leb, if◌then◌else◌, inl, inr, Bool-cases, List, [],
  ◌∷◌, All,
}

-- The same elements in another order, as two readings of one map may have them.
pub data Rearranged {ℓ} {A : Type ℓ} : List A → List A → Type ℓ where
  none_left : Rearranged [] []
  keep : (x : A) {xs ys : List A} → Rearranged xs ys → Rearranged (x ∷ xs) (x ∷ ys)
  swap : (x y : A) (xs : List A) → Rearranged (x ∷ y ∷ xs) (y ∷ x ∷ xs)
  then_again : {xs ys zs : List A} → Rearranged xs ys → Rearranged ys zs → Rearranged xs zs

pub unmoved {ℓ} : {A : Type ℓ} (xs : List A) → Rearranged xs xs
unmoved [] = none_left
unmoved (x ∷ xs) = keep x (unmoved xs)

-- What holds of all elements holds in any order.
Rearranged-All {ℓ κ} :
    {A : Type ℓ} (P : A → Type κ) {xs ys : List A} → Rearranged xs ys → All P xs → All P ys
Rearranged-All P none_left h = tt
Rearranged-All P (keep x d) h = (h.0, Rearranged-All P d h.1)
Rearranged-All P (swap x y xs) h = (h.1.0, (h.0, h.1.1))
Rearranged-All P (then_again d d') h = Rearranged-All P d' (Rearranged-All P d h)

module _ {ℓ} {A : Type ℓ} (key : A → ℕ) where
  unfoldable pub insert_by : A → List A → List A
  insert_by x [] = x ∷ []
  insert_by x (y ∷ ys) =
      let rest = insert_by x ys in if leb (key x) (key y) then x ∷ y ∷ ys else y ∷ rest

  unfoldable pub sort_by : List A → List A
  unfolding insert_by
  sort_by [] = []
  sort_by (x ∷ xs) = insert_by x (sort_by xs)

  -- The numbers grow along the list, or stay.
  abbrev pub AllFrom : ℕ → List A → Type 0
  AllFrom n [] = Unit
  AllFrom n (x ∷ xs) = (n ≤ key x) × AllFrom n xs

  abbrev pub IsSorted : List A → Type 0
  IsSorted [] = Unit
  IsSorted (x ∷ xs) = AllFrom (key x) xs × IsSorted xs

  -- No two elements have the same number.
  abbrev pub Apart : List A → Type 0
  Apart [] = Unit
  Apart (x ∷ xs) = All (λ y. key x ≢ key y) xs × Apart xs

  AllFrom-lower : (m n : ℕ) (xs : List A) → m ≤ n → AllFrom n xs → AllFrom m xs
  AllFrom-lower m n [] h a = tt
  AllFrom-lower m n (x ∷ xs) h a = (omega (arith, h, a.0), AllFrom-lower m n xs h a.1)

  insert_by-AllFrom :
      (n : ℕ) (x : A) (ys : List A) → n ≤ key x → AllFrom n ys → AllFrom n (insert_by x ys)
  unfolding insert_by
  insert_by-AllFrom n x [] h a = (h, tt)
  insert_by-AllFrom n x (y ∷ ys) h a = elim (Bool-cases (leb (key x) (key y))) [
    | inl low ↦ rw low (h, a)
    | inr high ↦ rw high (a.0, insert_by-AllFrom n x ys h a.1)
  ]

  insert_by-IsSorted : (x : A) (ys : List A) → IsSorted ys → IsSorted (insert_by x ys)
  unfolding insert_by
  insert_by-IsSorted x [] h = (tt, tt)
  insert_by-IsSorted x (y ∷ ys) h = elim (Bool-cases (leb (key x) (key y))) [
    | inl low ↦
        let less : key x ≤ key y = ground arith in
        rw low ((less, AllFrom-lower (key x) (key y) ys less h.0), h)
    | inr high ↦
        rw high (insert_by-AllFrom (key y) x ys (ground arith) h.0, insert_by-IsSorted x ys h.1)
  ]

  pub sort_by-IsSorted : (xs : List A) → IsSorted (sort_by xs)
  unfolding sort_by
  sort_by-IsSorted [] = tt
  sort_by-IsSorted (x ∷ xs) = insert_by-IsSorted x (sort_by xs) (sort_by-IsSorted xs)

  insert_by-Rearranged : (x : A) (ys : List A) → Rearranged (insert_by x ys) (x ∷ ys)
  unfolding insert_by
  insert_by-Rearranged x [] = unmoved (x ∷ [])
  insert_by-Rearranged x (y ∷ ys) = elim (Bool-cases (leb (key x) (key y))) [
    | inl low ↦ rw low (unmoved (x ∷ y ∷ ys))
    | inr high ↦ rw high (then_again (keep y (insert_by-Rearranged x ys)) (swap y x ys))
  ]

  pub sort_by-Rearranged : (xs : List A) → Rearranged (sort_by xs) xs
  unfolding sort_by
  sort_by-Rearranged [] = none_left
  sort_by-Rearranged (x ∷ xs) =
      then_again (insert_by-Rearranged x (sort_by xs)) (keep x (sort_by-Rearranged xs))

  insert_by_comm :
      (x y : A) (zs : List A)
      → key x ≢ key y
      → insert_by x (insert_by y zs) ≡ insert_by y (insert_by x zs)
  unfolding insert_by
  insert_by_comm x y [] h = ground (arith, h)
  insert_by_comm x y (z ∷ zs) h = ground (arith, h, insert_by_comm x y zs)

  Rearranged-Apart : {xs ys : List A} → Rearranged xs ys → Apart xs → Apart ys
  Rearranged-Apart none_left h = tt
  Rearranged-Apart (keep x d) h =
      (Rearranged-All (λ y. key x ≢ key y) d h.0, Rearranged-Apart d h.1)
  Rearranged-Apart (swap x y xs) h = ((λ e. h.0.0 (sym e), h.1.0), (h.0.1, h.1.1))
  Rearranged-Apart (then_again d d') h = Rearranged-Apart d' (Rearranged-Apart d h)

  -- Where no two elements have the same number, the order of the input does not show.
  pub sort_by-canonical : {xs ys : List A} → Rearranged xs ys → Apart xs → sort_by xs ≡ sort_by ys
  unfolding sort_by
  sort_by-canonical none_left h = refl
  sort_by-canonical (keep x d) h = ap (insert_by x) (sort_by-canonical d h.1)
  sort_by-canonical (swap x y xs) h = insert_by_comm x y (sort_by xs) h.0.0
  sort_by-canonical (then_again d d') h =
      sort_by-canonical d h ∙ sort_by-canonical d' (Rearranged-Apart d h)
