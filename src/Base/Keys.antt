-- ===== src/Base/Keys.antt =====
-- How often a primary key stands in a table, and how many rows a list of keys picks.
use chmabapay.Base.Tests.{◌==◌, if◌then◌else◌}
use chmabapay.Base.Lists.{length, length-select, take, select, count_where, sort_by}
use Prim.Native.Nat.{ℕ, suc, ◌+◌, ◌≤◌, min}
use mathlib.Core.Path.{◌≡◌, refl, sym, ◌∙◌}
use mathlib.Core.Bool.{Bool, true, false, ◌&&◌}
use mathlib.Core.List.{List, [], ◌∷◌, map, reverse}
use native.Mathlib.Omega.{arith}
use chmabapay.Base.Counts.{
  length-take_le, count_where-select, count_where-ext, count_where-le, count_where-none,
  count_where-sort, length-sort, length-reverse, count_where-reverse, count_where-take,
}

-- `k in ks`
abbrev pub is_mem : ℕ → List ℕ → Bool
is_mem k [] = false
is_mem k (j ∷ ks) = if k == j then true else is_mem k ks

module _ {ℓ} {A : Type ℓ} (key : A → ℕ) where
  -- The rows with the key `k`.
  abbrev pub occ : ℕ → List A → ℕ
  occ k xs = count_where (λ x. key x == k) xs

  -- No two rows share a key.
  abbrev pub HasUniqueKeys : List A → Type 0
  HasUniqueKeys xs = (k : ℕ) → occ k xs ≤ 1

  is_mem-absent : (j k : ℕ) (zs : List A) → occ k zs ≡ 0 → j ≡ k → is_mem j (map key zs) ≡ false
  is_mem-absent j k [] h e = refl
  is_mem-absent j k (z ∷ zs) h e = ground (arith, is_mem-absent j k zs)

  count_mem-cons :
      (z : A) (zs ys : List A)
      → occ (key z) zs ≡ 0
      → count_where (λ y. is_mem (key y) (map key (z ∷ zs))) ys
        ≡ occ (key z) ys + count_where (λ y. is_mem (key y) (map key zs)) ys
  count_mem-cons z zs [] h = refl
  count_mem-cons z zs (y ∷ ys) h =
      ground (arith, is_mem-absent (key y) (key z) zs h, count_mem-cons z zs ys h)

  count_mem-nil : (ys : List A) → count_where (λ y. is_mem (key y) []) ys ≡ 0
  count_mem-nil [] = refl
  count_mem-nil (y ∷ ys) = omega (arith, count_mem-nil ys)

  -- A list of rows of a table picks, by its keys, as many rows as it has.
  pub count_mem :
      (zs ys : List A)
      → HasUniqueKeys ys
      → ((k : ℕ) → occ k zs ≤ occ k ys)
      → count_where (λ y. is_mem (key y) (map key zs)) ys ≡ length zs
  count_mem [] ys u h = count_mem-nil ys
  count_mem (z ∷ zs) ys u h =
      let once = h (key z) in
      let unique = u (key z) in
      let head : occ (key z) (z ∷ zs) ≡ suc (occ (key z) zs) = ground arith in
      let rest = count_mem zs ys u (λ k. ground (arith, h k)) in
      omega (arith, count_mem-cons z zs ys (omega arith), rest)

module _ {ℓ} {A : Type ℓ} (key : A → ℕ) (q p : A → Bool) (n : ℕ) where
  -- The rows of a table with `q` and `p`, the last keys first, at most `n` of them.
  abbrev pub last_rows : List A → List A
  last_rows xs = take n (reverse (sort_by key (select p (sort_by key (select q xs)))))

  count-sorted :
      (r : A → Bool) (xs : List A)
      → count_where r (select p (sort_by key (select q xs)))
        ≡ count_where (λ x. q x && (p x && r x)) xs
  count-sorted r xs =
      count_where-select p r (sort_by key (select q xs))
      ∙ count_where-sort (λ x. p x && r x) key (select q xs)
      ∙ count_where-select q (λ x. p x && r x) xs

  and_assoc : (a b c : Bool) → (a && (b && c)) ≡ ((a && b) && c)
  and_assoc a b c = ground arith

  occ-last_rows :
      (k : ℕ) (xs : List A) → occ key k (last_rows xs) ≤ occ key k (select (λ x. q x && p x) xs)
  occ-last_rows k xs =
      let rows = select p (sort_by key (select q xs)) in
      let has = λ (x : A). key x == k in
      omega (
        arith,
        count_where-take has n (reverse (sort_by key rows)),
        count_where-reverse has (sort_by key rows),
        count_where-sort has key rows,
        count-sorted has xs,
        count_where-ext (λ x. q x && (p x && has x)) (λ x. (q x && p x) && has x) xs
            (λ x. and_assoc (q x) (p x) (has x)),
        count_where-select (λ x. q x && p x) has xs,
      )

  length-last_rows :
      (xs : List A) → length (last_rows xs) ≡ min n (count_where (λ x. q x && p x) xs)
  length-last_rows xs =
      let rows = select p (sort_by key (select q xs)) in
      omega (
        arith,
        length-take_le n (reverse (sort_by key rows)),
        length-reverse (sort_by key rows),
        length-sort key rows,
        length-select p (sort_by key (select q xs)),
        count_where-sort p key (select q xs),
        count_where-select q p xs,
      )

  -- With unique keys, an update by those keys reaches exactly those rows.
  pub count-last_rows :
      (xs : List A)
      → HasUniqueKeys key xs
      → count_where (λ x. (q x && p x) && is_mem (key x) (map key (last_rows xs))) xs
        ≡ min n (count_where (λ x. q x && p x) xs)
  count-last_rows xs u =
      let ys = select (λ x. q x && p x) xs in
      sym (count_where-select (λ x. q x && p x) (λ x. is_mem (key x) (map key (last_rows xs))) xs)
      ∙ count_mem key (last_rows xs) ys
          (λ k. omega (
            arith,
            u k,
            count_where-select (λ x. q x && p x) (λ x. key x == k) xs,
            count_where-le (λ x. q x && p x) (λ x. key x == k) xs,
          ))
          (λ k. occ-last_rows k xs)
      ∙ length-last_rows xs

  -- A key that no row with `p` has is not among them.
  pub last_rows-absent :
      (k j : ℕ) (xs : List A)
      → ((x : A) → ((q x && p x) && (key x == k)) ≡ false)
      → j ≡ k
      → is_mem j (map key (last_rows xs)) ≡ false
  last_rows-absent k j xs h e =
      is_mem-absent key j k (last_rows xs)
        (omega (
          arith,
          occ-last_rows k xs,
          count_where-select (λ x. q x && p x) (λ x. key x == k) xs,
          count_where-none (λ x. (q x && p x) && (key x == k)) xs h,
        ))
        e
