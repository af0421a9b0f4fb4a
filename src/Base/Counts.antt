-- ===== src/Base/Counts.antt =====
-- How many rows have a property, after each operation on a list.
use chmabapay.Base.Tests.{if◌then◌else◌}
use chmabapay.Base.Lists.{
  length, take, select, count_where, update_where, sort_by, insert_by, count_where-append,
  length-append,
}
use Prim.Native.Nat.{ℕ, zero, suc, ◌+◌, ◌≤◌, min}
use mathlib.Core.Path.{◌≡◌, refl}
use mathlib.Core.Bool.{Bool, false, not, ◌&&◌}
use mathlib.Core.List.{List, [], ◌∷◌, reverse, reverse-cons}
use native.Mathlib.Omega.{arith}

module _ {ℓ} {A : Type ℓ} where
  pub length-take_le : (n : ℕ) (xs : List A) → length (take n xs) ≡ min n (length xs)
  length-take_le zero xs = omega arith
  length-take_le (suc n) [] = omega arith
  length-take_le (suc n) (x ∷ xs) = omega (arith, length-take_le n xs)

  pub count_where-select :
      (p q : A → Bool) (xs : List A)
      → count_where q (select p xs) ≡ count_where (λ x. p x && q x) xs
  count_where-select p q [] = refl
  count_where-select p q (x ∷ xs) = ground (arith, count_where-select p q xs)

  pub count_where-split :
      (p q : A → Bool) (xs : List A)
      → count_where (λ x. p x && q x) xs + count_where (λ x. p x && not (q x)) xs ≡ count_where p xs
  count_where-split p q [] = refl
  count_where-split p q (x ∷ xs) = ground (arith, count_where-split p q xs)

  pub count_where-ext :
      (p q : A → Bool) (xs : List A) → ((x : A) → p x ≡ q x) → count_where p xs ≡ count_where q xs
  count_where-ext p q [] h = refl
  count_where-ext p q (x ∷ xs) h = ground (arith, h x, count_where-ext p q xs h)

  pub count_where-le :
      (p q : A → Bool) (xs : List A) → count_where (λ x. p x && q x) xs ≤ count_where q xs
  count_where-le p q [] = omega arith
  count_where-le p q (x ∷ xs) = ground (arith, count_where-le p q xs)

  pub count_where-none :
      (p : A → Bool) (xs : List A) → ((x : A) → p x ≡ false) → count_where p xs ≡ 0
  count_where-none p [] h = refl
  count_where-none p (x ∷ xs) h = ground (arith, h x, count_where-none p xs h)

  pub count_where-add :
      (r p q : A → Bool) (xs : List A)
      → ((x : A) → (if r x then 1 else 0) ≡ (if p x then 1 else 0) + (if q x then 1 else 0))
      → count_where r xs ≡ count_where p xs + count_where q xs
  count_where-add r p q [] h = omega arith
  count_where-add r p q (x ∷ xs) h = omega (arith, h x, count_where-add r p q xs h)

  -- A count after an update, as a count before it.
  pub count_where-update :
      (p m : A → Bool) (f : A → A) (xs : List A)
      → count_where p (update_where m f xs) ≡ count_where (λ x. if m x then p (f x) else p x) xs
  count_where-update p m f [] = refl
  count_where-update p m f (x ∷ xs) = ground (arith, count_where-update p m f xs)

  count_where-insert :
      (p : A → Bool) (key : A → ℕ) (x : A) (ys : List A)
      → count_where p (insert_by key x ys) ≡ (if p x then 1 else 0) + count_where p ys
  unfolding insert_by
  count_where-insert p key x [] = refl
  count_where-insert p key x (y ∷ ys) = ground (arith, count_where-insert p key x ys)

  pub count_where-sort :
      (p : A → Bool) (key : A → ℕ) (xs : List A) → count_where p (sort_by key xs) ≡ count_where p xs
  unfolding sort_by
  count_where-sort p key [] = refl
  count_where-sort p key (x ∷ xs) =
      omega (arith, count_where-insert p key x (sort_by key xs), count_where-sort p key xs)

  length-insert :
      (key : A → ℕ) (x : A) (ys : List A) → length (insert_by key x ys) ≡ suc (length ys)
  unfolding insert_by
  length-insert key x [] = refl
  length-insert key x (y ∷ ys) = ground (arith, length-insert key x ys)

  pub length-sort : (key : A → ℕ) (xs : List A) → length (sort_by key xs) ≡ length xs
  unfolding sort_by
  length-sort key [] = refl
  length-sort key (x ∷ xs) = omega (arith, length-insert key x (sort_by key xs), length-sort key xs)

  pub length-reverse : (xs : List A) → length (reverse xs) ≡ length xs
  length-reverse [] = refl
  length-reverse (x ∷ xs) =
      rw (reverse-cons x xs) (omega (arith, length-append (reverse xs) (x ∷ []), length-reverse xs))

  pub count_where-reverse :
      (p : A → Bool) (xs : List A) → count_where p (reverse xs) ≡ count_where p xs
  count_where-reverse p [] = refl
  count_where-reverse p (x ∷ xs) =
      rw (reverse-cons x xs)
        (omega (arith, count_where-append p (reverse xs) (x ∷ []), count_where-reverse p xs))

  pub count_where-take :
      (p : A → Bool) (n : ℕ) (xs : List A) → count_where p (take n xs) ≤ count_where p xs
  count_where-take p zero xs = omega arith
  count_where-take p (suc n) [] = omega arith
  count_where-take p (suc n) (x ∷ xs) = ground (arith, count_where-take p n xs)

pub count_where_le_add :
    {A : Type 0} (r p n : A → Bool) (xs : List A)
    → ((x : A) → (if r x then 1 else 0) ≤ (if p x then 1 else 0) + (if n x then 1 else 0))
    → count_where r xs ≤ count_where p xs + count_where n xs
count_where_le_add r p n [] h = omega arith
count_where_le_add r p n (x ∷ xs) h = omega (arith, h x, count_where_le_add r p n xs h)
