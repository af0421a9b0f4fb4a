-- ===== src/Base/Sorts.antt =====
-- The order of a table to which a row with the largest key is appended.
use chmabapay.Base.Tests.{Bool-cases, leb}
use chmabapay.Base.Lists.{select, sort_by, insert_by, All, All-insert, All-map, update_where}
use Prim.Native.Nat.{ℕ, ◌≤◌}
use mathlib.Core.Path.{◌≡◌, refl, ap, ◌∙◌}
use mathlib.Core.Bool.{Bool}
use mathlib.Core.List.{List, [], ◌∷◌, ◌++◌}
use mathlib.Core.Logic.{inl, inr}
use native.Mathlib.Omega.{arith}

module _ {ℓ} {A : Type ℓ} where
  insert_by-append :
      (key : A → ℕ) (y x : A) (zs : List A)
      → key y ≤ key x
      → insert_by key y (zs ++ x ∷ []) ≡ insert_by key y zs ++ x ∷ []
  unfolding insert_by
  insert_by-append key y x [] h = ground (arith, h)
  insert_by-append key y x (z ∷ zs) h = ground (arith, insert_by-append key y x zs h)

  pub sort_by-append :
      (key : A → ℕ) (x : A) (ys : List A)
      → All (λ y. key y ≤ key x) ys
      → sort_by key (ys ++ x ∷ []) ≡ sort_by key ys ++ x ∷ []
  unfolding sort_by
  sort_by-append key x [] h = refl
  sort_by-append key x (y ∷ ys) (h, t) =
      ap (insert_by key y) (sort_by-append key x ys t) ∙ insert_by-append key y x (sort_by key ys) h

  pub select-append :
      (p : A → Bool) (xs ys : List A) → select p (xs ++ ys) ≡ select p xs ++ select p ys
  select-append p [] ys = refl
  select-append p (x ∷ xs) ys = ground (arith, select-append p xs ys)

  pub All-selected {κ} :
      (P : A → Type κ) (p : A → Bool) (xs : List A) → All P xs → All P (select p xs)
  All-selected P p [] h = tt
  All-selected P p (x ∷ xs) (h, t) = elim (Bool-cases (p x)) [
    | inl e ↦ rw e (h, All-selected P p xs t)
    | inr e ↦ rw e (All-selected P p xs t)
  ]

  pub All-update {κ} :
      (P : A → Type κ) (m : A → Bool) (f : A → A) (xs : List A)
      → ((x : A) → P x → P (f x))
      → All P xs
      → All P (update_where m f xs)
  All-update P m f [] keep h = tt
  All-update P m f (x ∷ xs) keep (h, t) = elim (Bool-cases (m x)) [
    | inl e ↦ rw e (keep x h, All-update P m f xs keep t)
    | inr e ↦ rw e (h, All-update P m f xs keep t)
  ]

  -- Each key is at most those of the rows behind it.
  abbrev pub IsSorted : (A → ℕ) → List A → Type 0
  IsSorted key [] = Unit
  IsSorted key (x ∷ xs) = All (λ y. key x ≤ key y) xs × IsSorted key xs

  insert_by-IsSorted :
      (key : A → ℕ) (x : A) (ys : List A) → IsSorted key ys → IsSorted key (insert_by key x ys)
  unfolding insert_by
  insert_by-IsSorted key x [] h = (tt, tt)
  insert_by-IsSorted key x (y ∷ ys) (first, sorted) = elim (Bool-cases (leb (key x) (key y))) [
    | inl e ↦
        let le : key x ≤ key y = ground (arith, e) in
        rw e (
          (
            le,
            All-map (λ z. key y ≤ key z) (λ z. key x ≤ key z) ys (λ z h. omega (arith, le, h))
                first,
          ),
          (first, sorted),
        )
    | inr e ↦
        let le : key y ≤ key x = ground (arith, e) in
        rw e (All-insert (λ z. key y ≤ key z) key x ys le first, insert_by-IsSorted key x ys sorted)
  ]

  pub sort_by-IsSorted : (key : A → ℕ) (xs : List A) → IsSorted key (sort_by key xs)
  unfolding sort_by
  sort_by-IsSorted key [] = tt
  sort_by-IsSorted key (x ∷ xs) =
      insert_by-IsSorted key x (sort_by key xs) (sort_by-IsSorted key xs)
