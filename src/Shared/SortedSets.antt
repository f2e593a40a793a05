-- ===== src/Shared/SortedSets.antt =====
-- Loops that insert or remove many keys of an increasing list.
use werewolfproxy.Shared.Lists.{length}
use Prim.Native.Nat.{◌+◌, ◌≤◌}
use mathlib.Core.Path.{◌≡◌, refl}
use mathlib.Core.Bool.{true, not, ◌&&◌, ◌||◌}
use mathlib.Core.List.{List, [], ◌∷◌}
use native.Mathlib.Omega.{arith}
use werewolfproxy.Shared.Bytes.{Bytes}
use werewolfproxy.Shared.Sorted.{
  contains, increasing, insert_key, remove_key, contains-insert_key, contains-remove_key,
  increasing-insert_key, increasing-remove_key, length-insert_key, length-remove_key,
}

unfoldable pub insert_all : List Bytes → List Bytes → List Bytes
insert_all [] xs = xs
insert_all (k ∷ ks) xs = insert_all ks (insert_key k xs)

unfoldable pub remove_all : List Bytes → List Bytes → List Bytes
remove_all [] xs = xs
remove_all (k ∷ ks) xs = remove_all ks (remove_key k xs)

pub contains-insert_all :
    (ks xs : List Bytes) (j : Bytes)
    → contains (insert_all ks xs) j ≡ (contains ks j || contains xs j)
unfolding insert_all contains
contains-insert_all [] xs j = refl
contains-insert_all (k ∷ ks) xs j =
    ground (arith, contains-insert_all ks (insert_key k xs) j, contains-insert_key k j xs)

pub increasing-insert_all :
    (ks xs : List Bytes) → increasing xs ≡ true → increasing (insert_all ks xs) ≡ true
unfolding insert_all
increasing-insert_all [] xs h = h
increasing-insert_all (k ∷ ks) xs h =
    increasing-insert_all ks (insert_key k xs) (increasing-insert_key k xs h)

pub length-insert_all : (ks xs : List Bytes) → length (insert_all ks xs) ≤ length xs + length ks
unfolding insert_all
length-insert_all [] xs = omega arith
length-insert_all (k ∷ ks) xs =
    omega (arith, length-insert_all ks (insert_key k xs), length-insert_key k xs)

pub increasing-remove_all :
    (ks xs : List Bytes) → increasing xs ≡ true → increasing (remove_all ks xs) ≡ true
unfolding remove_all
increasing-remove_all [] xs h = h
increasing-remove_all (k ∷ ks) xs h =
    increasing-remove_all ks (remove_key k xs) (increasing-remove_key k xs h)

pub contains-remove_all :
    (ks xs : List Bytes) (j : Bytes)
    → increasing xs ≡ true
    → contains (remove_all ks xs) j ≡ (not (contains ks j) && contains xs j)
unfolding remove_all contains
contains-remove_all [] xs j h = refl
contains-remove_all (k ∷ ks) xs j h = ground (
  arith,
  contains-remove_all ks (remove_key k xs) j,
  increasing-remove_key k xs,
  contains-remove_key k j xs,
)

pub length-remove_all : (ks xs : List Bytes) → length (remove_all ks xs) ≤ length xs
unfolding remove_all
length-remove_all [] xs = omega arith
length-remove_all (k ∷ ks) xs =
    omega (arith, length-remove_all ks (remove_key k xs), length-remove_key k xs)
