-- ===== src/Base/Finds.antt =====
-- Looking rows up in a table that was changed.
use chmabapay.Base.Tests.{◌==◌, if◌then◌else◌}
use chmabapay.Base.Lists.{find_by, find_by-holds, find_by-counted, count_where, update_where}
use Prim.Native.Nat.{ℕ, ◌≤◌}
use mathlib.Core.Path.{◌≡◌, refl}
use mathlib.Core.Bool.{Bool, true, false, not, ◌&&◌}
use mathlib.Core.List.{List, [], ◌∷◌, ◌++◌}
use mathlib.Core.Option.{none, some}
use native.Mathlib.Omega.{arith}
use chmabapay.Base.Counts.{count_where-split}
use chmabapay.Base.Keys.{HasUniqueKeys}

module _ {ℓ} {A : Type ℓ} where
  -- Where the key is unique, the row that was found is the only one with it.
  pub count_where_unique :
      (key : A → ℕ) (k : ℕ) (q : A → Bool) (xs : List A) (x : A)
      → HasUniqueKeys key xs
      → find_by (λ y. key y == k) xs ≡ some x
      → count_where (λ y. (key y == k) && q y) xs ≡ (if q x then 1 else 0)
  count_where_unique key k q xs x u found =
      let has = λ (y : A). key y == k in
      ground (
        arith,
        u k,
        count_where-split has q xs,
        find_by-holds has xs x found,
        find_by-counted has (λ y. has y && q y) xs x found,
        find_by-counted has (λ y. has y && not (q y)) xs x found,
      )

  -- A look-up of one key after an update of another.
  pub find_by-update_ne :
      (p m : A → Bool) (f : A → A) (xs : List A)
      → ((x : A) → p (f x) ≡ p x)
      → ((x : A) → p x ≡ true → m x ≡ false)
      → find_by p (update_where m f xs) ≡ find_by p xs
  find_by-update_ne p m f [] keep apart = refl
  find_by-update_ne p m f (x ∷ xs) keep apart =
      ground (arith, keep x, apart x, find_by-update_ne p m f xs keep apart)

  -- A look-up of the rows that an update reaches.
  pub find_by-update :
      (p m : A → Bool) (f : A → A) (xs : List A) (x : A)
      → ((y : A) → p (f y) ≡ p y)
      → find_by p xs ≡ some x
      → m x ≡ true
      → find_by p (update_where m f xs) ≡ some (f x)
  find_by-update p m f [] x keep found h = ground arith
  find_by-update p m f (y ∷ xs) x keep found h =
      ground (arith, keep y, find_by-update p m f xs x keep)

  pub find_by-append_none :
      (p : A → Bool) (xs ys : List A) → find_by p xs ≡ none → find_by p (xs ++ ys) ≡ find_by p ys
  find_by-append_none p [] ys h = refl
  find_by-append_none p (x ∷ xs) ys h = ground (arith, find_by-append_none p xs ys)

  pub find_by-append_some :
      (p : A → Bool) (xs ys : List A) (x : A)
      → find_by p xs ≡ some x
      → find_by p (xs ++ ys) ≡ some x
  find_by-append_some p [] ys x h = ground arith
  find_by-append_some p (y ∷ xs) ys x h = ground (arith, find_by-append_some p xs ys x)

  pub count_where-zero→find_by :
      (p : A → Bool) (xs : List A) → count_where p xs ≡ 0 → find_by p xs ≡ none
  count_where-zero→find_by p [] h = refl
  count_where-zero→find_by p (x ∷ xs) h = ground (arith, count_where-zero→find_by p xs)

  pub find_by-none→count : (p : A → Bool) (xs : List A) → find_by p xs ≡ none → count_where p xs ≡ 0
  find_by-none→count p [] h = refl
  find_by-none→count p (x ∷ xs) h = ground (arith, find_by-none→count p xs)

  -- An update that keeps what is counted.
  pub count_where-update_same :
      (p m : A → Bool) (f : A → A) (xs : List A)
      → ((x : A) → p (f x) ≡ p x)
      → count_where p (update_where m f xs) ≡ count_where p xs
  count_where-update_same p m f [] keep = refl
  count_where-update_same p m f (x ∷ xs) keep =
      ground (arith, keep x, count_where-update_same p m f xs keep)

  pub count_where_mono :
      (p q : A → Bool) (xs : List A)
      → ((x : A) → p x ≡ true → q x ≡ true)
      → count_where p xs ≤ count_where q xs
  count_where_mono p q [] h = omega arith
  count_where_mono p q (x ∷ xs) h = ground (arith, h x, count_where_mono p q xs h)

  pub count_where-update_le :
      (p m : A → Bool) (f : A → A) (xs : List A)
      → ((x : A) → p (f x) ≡ true → p x ≡ true)
      → count_where p (update_where m f xs) ≤ count_where p xs
  count_where-update_le p m f [] h = omega arith
  count_where-update_le p m f (x ∷ xs) h = ground (arith, h x, count_where-update_le p m f xs h)
