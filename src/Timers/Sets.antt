-- ===== src/Timers/Sets.antt =====
-- `std::set` of pairs of numbers in their lexicographic order, as a sorted list with no duplicates.
use rfcs.Common.{
  ℕ, ◌+◌, ◌≡◌, refl, Bool, true, false, not, ◌&&◌, ◌||◌, List, [], ◌∷◌, ◌++◌, ltb, ◌==◌,
  if◌then◌else◌, length, arith,
}

abbrev pub PairSet : Type 0
PairSet = List (ℕ × ℕ)

abbrev pub same : ℕ → ℕ → ℕ → ℕ → Bool
same a b x y = (a == x) && (b == y)

-- `operator<` of a pair
abbrev pub less : ℕ → ℕ → ℕ → ℕ → Bool
less a b x y = ltb a x || ((a == x) && ltb b y)

abbrev pub has : ℕ → ℕ → PairSet → Bool
has a b [] = false
has a b ((x, y) ∷ s) = same a b x y || has a b s

-- A pair that is there already is not put in again.
unfoldable pub insert : ℕ → ℕ → PairSet → PairSet
insert a b [] = (a, b) ∷ []
insert a b ((x, y) ∷ s) =
    let rest = insert a b s in
    if less a b x y then (a, b) ∷ (x, y) ∷ s else if same a b x y then (x, y) ∷ s else (x, y) ∷ rest

unfoldable pub erase : ℕ → ℕ → PairSet → PairSet
erase a b [] = []
erase a b ((x, y) ∷ s) = let rest = erase a b s in if same a b x y then s else (x, y) ∷ rest

-- All pairs are above this one.
abbrev pub Above : ℕ → ℕ → PairSet → Type 0
Above a b [] = Unit {0}
Above a b ((x, y) ∷ s) = (less a b x y ≡ true) × Above a b s

abbrev pub IsSorted : PairSet → Type 0
IsSorted [] = Unit {0}
IsSorted ((x, y) ∷ s) = Above x y s × IsSorted s

Above-trans : (a b x y : ℕ) (s : PairSet) → less a b x y ≡ true → Above x y s → Above a b s
Above-trans a b x y [] h k = tt
Above-trans a b x y ((u, v) ∷ s) h (k, ks) = (ground arith, Above-trans a b x y s h ks)

pub Above-not_has : (a b : ℕ) (s : PairSet) → Above a b s → has a b s ≡ false
Above-not_has a b [] h = refl
Above-not_has a b ((x, y) ∷ s) (h, hs) = ground (arith, Above-not_has a b s hs)

Above-insert :
    (a b u v : ℕ) (s : PairSet) → less a b u v ≡ true → Above a b s → Above a b (insert u v s)
unfolding insert
Above-insert a b u v [] h k = (h, tt)
Above-insert a b u v ((x, y) ∷ s) h (k, ks) = ground (arith, Above-insert a b u v s h ks)

Above-erase : (a b u v : ℕ) (s : PairSet) → Above a b s → Above a b (erase u v s)
unfolding erase
Above-erase a b u v [] k = tt
Above-erase a b u v ((x, y) ∷ s) (k, ks) = ground (arith, Above-erase a b u v s ks)

pub has-insert : (a b u v : ℕ) (s : PairSet) → has a b (insert u v s) ≡ (same a b u v || has a b s)
unfolding insert
has-insert a b u v [] = refl
has-insert a b u v ((x, y) ∷ s) = ground (arith, has-insert a b u v s)

pub insert-IsSorted : (u v : ℕ) (s : PairSet) → IsSorted s → IsSorted (insert u v s)
unfolding insert
insert-IsSorted u v [] k = (tt, tt)
insert-IsSorted u v ((x, y) ∷ s) (k, ks) =
    ground (arith, insert-IsSorted u v s ks, Above-trans u v x y s, Above-insert x y u v s)

pub length-insert :
    (u v : ℕ) (s : PairSet) → has u v s ≡ false → length (insert u v s) ≡ length s + 1
unfolding insert
length-insert u v [] h = refl
length-insert u v ((x, y) ∷ s) h = ground (arith, length-insert u v s)

pub has-erase :
    (a b u v : ℕ) (s : PairSet)
    → IsSorted s
    → has a b (erase u v s) ≡ (not (same a b u v) && has a b s)
unfolding erase
has-erase a b u v [] k = ground arith
has-erase a b u v ((x, y) ∷ s) (k, ks) =
    ground (arith, has-erase a b u v s ks, Above-not_has x y s k)

pub erase-IsSorted : (u v : ℕ) (s : PairSet) → IsSorted s → IsSorted (erase u v s)
unfolding erase
erase-IsSorted u v [] k = tt
erase-IsSorted u v ((x, y) ∷ s) (k, ks) =
    ground (arith, erase-IsSorted u v s ks, Above-erase x y u v s k)

pub length-erase : (u v : ℕ) (s : PairSet) → has u v s ≡ true → length (erase u v s) + 1 ≡ length s
unfolding erase
length-erase u v [] h = ground arith
length-erase u v ((x, y) ∷ s) h = ground (arith, length-erase u v s)

-- Where `lower_bound` stands: the pairs less than this one come before it.
unfoldable pub before : ℕ → ℕ → PairSet → PairSet
before a b [] = []
before a b ((x, y) ∷ s) = let rest = before a b s in if less x y a b then (x, y) ∷ rest else []

unfoldable pub from : ℕ → ℕ → PairSet → PairSet
from a b [] = []
from a b ((x, y) ∷ s) = let rest = from a b s in if less x y a b then rest else (x, y) ∷ s

not_less_trans :
    (a b x y u v : ℕ) → less x y a b ≡ false → less x y u v ≡ true → less u v a b ≡ false
not_less_trans a b x y u v h k = ground arith

has-Above :
    (a b x y u v : ℕ) (s : PairSet)
    → less x y a b ≡ false
    → Above x y s
    → (less u v a b && has u v s) ≡ false
has-Above a b x y u v [] h k = ground arith
has-Above a b x y u v ((p, q) ∷ s) h (k, ks) =
    ground (arith, has-Above a b x y u v s h ks, not_less_trans a b x y p q h k)

pub has-before :
    (a b u v : ℕ) (s : PairSet) → IsSorted s → has u v (before a b s) ≡ (less u v a b && has u v s)
unfolding before
has-before a b u v [] k = ground arith
has-before a b u v ((x, y) ∷ s) (k, ks) =
    ground (arith, has-before a b u v s ks, has-Above a b x y u v s)

pub has-from :
    (a b u v : ℕ) (s : PairSet)
    → IsSorted s
    → has u v (from a b s) ≡ (not (less u v a b) && has u v s)
unfolding from
has-from a b u v [] k = ground arith
has-from a b u v ((x, y) ∷ s) (k, ks) =
    ground (arith, has-from a b u v s ks, has-Above a b x y u v s)

Above-from : (a b u v : ℕ) (s : PairSet) → Above u v s → Above u v (from a b s)
unfolding from
Above-from a b u v [] k = tt
Above-from a b u v ((x, y) ∷ s) (k, ks) = ground (arith, Above-from a b u v s ks)

pub from-IsSorted : (a b : ℕ) (s : PairSet) → IsSorted s → IsSorted (from a b s)
unfolding from
from-IsSorted a b [] k = tt
from-IsSorted a b ((x, y) ∷ s) (k, ks) = ground (arith, from-IsSorted a b s ks)

Above-before : (a b u v : ℕ) (s : PairSet) → Above u v s → Above u v (before a b s)
unfolding before
Above-before a b u v [] k = tt
Above-before a b u v ((x, y) ∷ s) (k, ks) = ground (arith, Above-before a b u v s ks)

pub before-IsSorted : (a b : ℕ) (s : PairSet) → IsSorted s → IsSorted (before a b s)
unfolding before
before-IsSorted a b [] k = tt
before-IsSorted a b ((x, y) ∷ s) (k, ks) =
    ground (arith, before-IsSorted a b s ks, Above-before a b x y s k)

pub length-before :
    (a b : ℕ) (s : PairSet) → IsSorted s → length (before a b s) + length (from a b s) ≡ length s
unfolding before from
length-before a b [] k = refl
length-before a b ((x, y) ∷ s) (k, ks) = ground (arith, length-before a b s ks)

-- The pairs before the place, and those from it on, are all of them in their order.
pub before-append-from : (a b : ℕ) (s : PairSet) → before a b s ++ from a b s ≡ s
unfolding before from
before-append-from a b [] = refl
before-append-from a b ((x, y) ∷ s) = ground (arith, before-append-from a b s)
