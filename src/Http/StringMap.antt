-- ===== src/Http/StringMap.antt =====
-- The `std::map<string, string>` of HttpRequest.h and HttpResponse.h: entries in the order of their
-- keys. A string is the list of its bytes; `std::less<string>` compares them as unsigned bytes.
use rfcs.Common.{
  ℕ, ◌≡◌, refl, Bool, true, false, ◌&&◌, List, [], ◌∷◌, Option, some, none, arith, ltb, ◌==◌,
  if◌then◌else◌,
}

abbrev pub Bytes : Type 0
Bytes = List ℕ

unfoldable pub same : Bytes → Bytes → Bool
same [] [] = true
same [] (y ∷ ys) = false
same (x ∷ xs) [] = false
same (x ∷ xs) (y ∷ ys) = (x == y) && same xs ys

pub less : Bytes → Bytes → Bool
less [] [] = false
less [] (y ∷ ys) = true
less (x ∷ xs) [] = false
less (x ∷ xs) (y ∷ ys) =
    let rest = less xs ys in if ltb x y then true else if ltb y x then false else rest

abbrev pub StringMap : Type 0
StringMap = List (Bytes × Bytes)

unfoldable pub find : Bytes → StringMap → Option Bytes
unfolding same
find k [] = none
find k ((j, v) ∷ m) = if same j k then some v else find k m

-- `map[k] = v`
unfoldable pub insert : Bytes → Bytes → StringMap → StringMap
unfolding same less
insert k v [] = (k, v) ∷ []
insert k v ((j, w) ∷ m) =
    let rest = (j, w) ∷ insert k v m in
    if same j k then (k, v) ∷ m else if less k j then (k, v) ∷ (j, w) ∷ m else rest

-- Ascending keys.
abbrev pub From : Bytes → StringMap → Type 0
From k [] = Unit {0}
From k ((j, v) ∷ m) = (less k j ≡ true) × From j m

abbrev pub IsSorted : StringMap → Type 0
IsSorted [] = Unit {0}
IsSorted ((k, v) ∷ m) = From k m

pub same_eq : (x y : Bytes) → same x y ≡ true → x ≡ y
unfolding same
same_eq [] [] h = refl
same_eq [] (y ∷ ys) h = cc
same_eq (x ∷ xs) [] h = cc
same_eq (x ∷ xs) (y ∷ ys) h = ground (arith, same_eq xs ys)

pub same_refl : (x : Bytes) → same x x ≡ true
unfolding same
same_refl [] = refl
same_refl (x ∷ xs) = ground (arith, same_refl xs)

less_total : (x y : Bytes) → same x y ≡ false → less y x ≡ false → less x y ≡ true
unfolding same less
less_total [] [] h k = cc
less_total [] (y ∷ ys) h k = refl
less_total (x ∷ xs) [] h k = cc
less_total (x ∷ xs) (y ∷ ys) h k = ground (arith, less_total xs ys)

-- After `map[k] = v` a lookup of `k` gives `v`, and any other lookup what it gave before.
pub find-insert :
    (k j v : Bytes) (m : StringMap)
    → find j (insert k v m) ≡ (if same k j then some v else find j m)
unfolding find insert
find-insert k j v [] = refl
find-insert k j v ((i, w) ∷ m) =
    ground (arith, same_eq i k, same_eq i j, same_eq k j, same_refl i, find-insert k j v m)

insert-From : (l k v : Bytes) (m : StringMap) → less l k ≡ true → From l m → From l (insert k v m)
unfolding insert
insert-From l k v [] h s = (h, tt)
insert-From l k v ((i, w) ∷ m) h s =
    ground (arith, insert-From i k v m, less_total i k, same_eq i k)

pub insert-IsSorted : (k v : Bytes) (m : StringMap) → IsSorted m → IsSorted (insert k v m)
unfolding insert
insert-IsSorted k v [] s = tt
insert-IsSorted k v ((i, w) ∷ m) s =
    ground (arith, insert-From i k v m, less_total i k, same_eq i k)
