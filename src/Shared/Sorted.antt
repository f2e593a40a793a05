-- ===== src/Shared/Sorted.antt =====
-- Strictly increasing lists of byte strings, and `slice::binary_search` on them.
use Prim.Native.Nat.{ℕ, suc, ◌+◌, ◌≤◌}
use mathlib.Core.Path.{◌≡◌, refl}
use mathlib.Core.Bool.{Bool, true, false, not, ◌&&◌, ◌||◌}
use mathlib.Core.List.{List, [], ◌∷◌}
use native.Mathlib.Omega.{arith}
use werewolfproxy.Shared.Tests.{if◌then◌else◌}
use werewolfproxy.Shared.Lists.{length, insert_at, remove_at}
use werewolfproxy.Shared.Bytes.{
  Bytes, bytes_eq, bytes_lt, bytes_eq_sound, bytes_eq_refl, bytes_lt_irrefl, bytes_lt_trans,
  bytes_lt_total,
}

-- `slice::contains`
unfoldable pub contains : List Bytes → Bytes → Bool
contains [] k = false
contains (x ∷ xs) k = bytes_eq x k || contains xs k

-- `Ok(position)` and `Err(where to insert)` of `binary_search`.
pub data Search : Type 0 where
  found : ℕ → Search
  missing : ℕ → Search

abbrev later : Search → Search
later (found i) = found (suc i)
later (missing i) = missing (suc i)

-- The documented result on an increasing slice, found from the front: the first entry that is not
-- below `k`. On any other slice Rust leaves the result open.
unfoldable pub binary_search : List Bytes → Bytes → Search
binary_search [] k = missing 0
binary_search (x ∷ xs) k =
    let rest = later (binary_search xs k) in
    if bytes_lt x k then rest else if bytes_eq x k then found 0 else missing 0

-- `binary_search(..).is_ok()`
abbrev pub is_found : Search → Bool
is_found (found i) = true
is_found (missing i) = false

-- `if let Err(at) = v.binary_search(k) { v.insert(at, k) }`
abbrev insert_if_missing : Search → Bytes → List Bytes → List Bytes
insert_if_missing (found i) k xs = xs
insert_if_missing (missing i) k xs = insert_at i k xs

-- `if let Ok(at) = v.binary_search(k) { v.remove(at) }`
abbrev remove_if_found : Search → List Bytes → List Bytes
remove_if_found (found i) xs = remove_at i xs
remove_if_found (missing i) xs = xs

unfoldable pub insert_key : Bytes → List Bytes → List Bytes
unfolding binary_search
insert_key k xs = insert_if_missing (binary_search xs k) k xs

unfoldable pub remove_key : Bytes → List Bytes → List Bytes
unfolding binary_search
remove_key k xs = remove_if_found (binary_search xs k) xs

-- Every neighbouring pair increases: `!windows(2).any(|p| p[0] >= p[1])`.
unfoldable pub increasing : List Bytes → Bool
increasing [] = true
increasing (x ∷ []) = true
increasing (x ∷ y ∷ ys) = bytes_lt x y && increasing (y ∷ ys)

-- `x` is below all of `ys`, by the order's transitivity below its first.
abbrev below : Bytes → List Bytes → Bool
below x [] = true
below x (y ∷ ys) = bytes_lt x y

increasing-cons :
    (x : Bytes) (ys : List Bytes) → increasing (x ∷ ys) ≡ (below x ys && increasing ys)
unfolding increasing
increasing-cons x [] = refl
increasing-cons x (y ∷ ys) = refl

contains_above :
    (x k : Bytes) (ys : List Bytes)
    → below x ys ≡ true
    → increasing ys ≡ true
    → contains ys k ≡ true
    → bytes_lt x k ≡ true
unfolding contains
contains_above x k [] b s h = cc
contains_above x k (y ∷ ys) b s h =
    ground
      (arith, increasing-cons y ys, contains_above y k ys, bytes_eq_sound y k, bytes_lt_trans x y k)

-- On an increasing list the search finds exactly the entries.
pub is_found-binary_search :
    (xs : List Bytes) (k : Bytes)
    → increasing xs ≡ true
    → is_found (binary_search xs k) ≡ contains xs k
unfolding contains binary_search
is_found-binary_search [] k s = refl
is_found-binary_search (x ∷ xs) k s = ground (
  arith,
  increasing-cons x xs,
  is_found-binary_search xs k,
  contains_above x k xs,
  bytes_eq_sound x k,
  bytes_lt_irrefl k,
)

-- The recursion that the insertion at the searched position amounts to.
insert_key-cons :
    (k x : Bytes) (xs : List Bytes)
    → insert_key k (x ∷ xs)
      ≡ (if bytes_lt x k then x ∷ insert_key k xs else if bytes_eq x k then x ∷ xs else k ∷ x ∷ xs)
unfolding insert_key
insert_key-cons k x xs = ground arith

remove_key-cons :
    (k x : Bytes) (xs : List Bytes)
    → remove_key k (x ∷ xs)
      ≡ (if bytes_lt x k then x ∷ remove_key k xs else if bytes_eq x k then xs else x ∷ xs)
unfolding remove_key
remove_key-cons k x xs = ground arith

pub contains-insert_key :
    (k j : Bytes) (xs : List Bytes) → contains (insert_key k xs) j ≡ (bytes_eq k j || contains xs j)
unfolding contains
contains-insert_key k j [] = unfold insert_key in refl
contains-insert_key k j (x ∷ xs) =
    rw insert_key-cons
      (ground (arith, contains-insert_key k j xs, bytes_eq_sound x k, bytes_eq_sound k j))

below-insert_key :
    (k x : Bytes) (xs : List Bytes)
    → below x xs ≡ true
    → bytes_lt x k ≡ true
    → below x (insert_key k xs) ≡ true
below-insert_key k x [] b h = unfold insert_key in h
below-insert_key k x (y ∷ ys) b h = rw insert_key-cons (ground arith)

pub increasing-insert_key :
    (k : Bytes) (xs : List Bytes) → increasing xs ≡ true → increasing (insert_key k xs) ≡ true
increasing-insert_key k [] s = unfold insert_key increasing in refl
increasing-insert_key k (x ∷ xs) s = rw insert_key-cons (
    ground (
      arith,
      increasing-cons x xs,
      increasing-cons x (insert_key k xs),
      increasing-cons k (x ∷ xs),
      below-insert_key k x xs,
      increasing-insert_key k xs,
      bytes_lt_total x k,
    ))

pub length-insert_key : (k : Bytes) (xs : List Bytes) → length (insert_key k xs) ≤ length xs + 1
length-insert_key k [] = unfold insert_key in omega arith
length-insert_key k (x ∷ xs) = rw insert_key-cons (ground (arith, length-insert_key k xs))

-- A removed key is gone, and no other is.
pub contains-remove_key :
    (k j : Bytes) (xs : List Bytes)
    → increasing xs ≡ true
    → contains (remove_key k xs) j ≡ (not (bytes_eq k j) && contains xs j)
unfolding contains
contains-remove_key k j [] s = unfold remove_key in ground arith
contains-remove_key k j (x ∷ xs) s = rw remove_key-cons (
    ground (
      arith,
      increasing-cons x xs,
      contains-remove_key k j xs,
      contains_above x k xs,
      contains_above x j xs,
      bytes_eq_sound x k,
      bytes_eq_sound k j,
      bytes_eq_sound x j,
      bytes_lt_irrefl j,
      bytes_lt_irrefl k,
      bytes_eq_refl k,
      bytes_lt_total x k,
      bytes_lt_trans k x k,
      bytes_eq_refl x,
      bytes_lt_irrefl x,
    ))

below_trans :
    (x y : Bytes) (ys : List Bytes) → bytes_lt x y ≡ true → below y ys ≡ true → below x ys ≡ true
below_trans x y [] h b = refl
below_trans x y (z ∷ zs) h b = bytes_lt_trans x y z h b

below-remove_key :
    (k x : Bytes) (xs : List Bytes)
    → below x xs ≡ true
    → increasing xs ≡ true
    → below x (remove_key k xs) ≡ true
below-remove_key k x [] b s = unfold remove_key in refl
below-remove_key k x (y ∷ ys) b s =
    rw remove_key-cons (ground (arith, increasing-cons y ys, below_trans x y ys))

pub increasing-remove_key :
    (k : Bytes) (xs : List Bytes) → increasing xs ≡ true → increasing (remove_key k xs) ≡ true
increasing-remove_key k [] s = unfold remove_key increasing in refl
increasing-remove_key k (x ∷ xs) s = rw remove_key-cons (
    ground (
      arith,
      increasing-cons x xs,
      increasing-cons x (remove_key k xs),
      below-remove_key k x xs,
      increasing-remove_key k xs,
    ))

pub length-remove_key : (k : Bytes) (xs : List Bytes) → length (remove_key k xs) ≤ length xs
length-remove_key k [] = unfold remove_key in omega arith
length-remove_key k (x ∷ xs) = rw remove_key-cons (ground (arith, length-remove_key k xs))

-- The first of an increasing list does not stand in the rest.
pub increasing-head-ne :
    (x k : Bytes) (ys : List Bytes)
    → increasing (x ∷ ys) ≡ true
    → contains ys k ≡ true
    → bytes_eq x k ≡ false
increasing-head-ne x k ys s c =
    ground
      (arith, increasing-cons x ys, contains_above x k ys, bytes_eq_sound x k, bytes_lt_irrefl k)

pub increasing-tail :
    (x : Bytes) (ys : List Bytes) → increasing (x ∷ ys) ≡ true → increasing ys ≡ true
increasing-tail x ys s = ground (arith, increasing-cons x ys)
