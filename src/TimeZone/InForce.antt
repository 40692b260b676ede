-- ===== src/TimeZone/InForce.antt =====
-- The rule that a zone's data state, read off without a search, and that `findLocalTime` finds it.
use rfcs.Common.{
  ℕ, zero, suc, ◌-◌, ◌≡◌, refl, sym, ap, ◌∙◌, Bool, true, false, not, ◌&&◌, List, [], ◌∷◌, Option,
  none, some, if◌then◌else◌, ◌==◌, length, get_elem?, arith, Bool-cases, assert, ◌>>◌, inl, inr,
}
use rfcs.Common.Int.{ℤ, ltb_ℤ}
use rfcs.TimeZone.{Transition, LocalTime, Data, at}
use rfcs.TimeZone.Lookup.{
  first_after, all_after, is_partitioned, upper_bound, before_all, local_of, transition, back,
  find_by_utc,
}

-- The last transition at or before `t`.
abbrev pub latest : ℤ → List Transition → Option Transition → Option Transition
latest t [] best = best
latest t (x ∷ xs) best = latest t xs (if ltb_ℤ t x.utctime then best else some x)

-- The local time of that transition, or the first one where there is none.
abbrev pub in_force : Data → ℤ → Option LocalTime
in_force z t = elim (latest t z.transitions none) [
  | none ↦ get_elem? z.localtimes 0
  | some tr ↦ at z.localtimes tr.localtime_idx
]

module _ (key : Transition → ℤ) where
  -- No key of the list is less than `v`; none is less than one that stands before it.
  abbrev pub all_from : ℤ → List Transition → Bool
  all_from v [] = true
  all_from v (x ∷ xs) = not (ltb_ℤ (key x) v) && all_from v xs

  abbrev pub ascending : List Transition → Bool
  ascending [] = true
  ascending (x ∷ xs) = all_from (key x) xs && ascending xs

  all_after-from :
      (v w : ℤ) (xs : List Transition)
      → ltb_ℤ v w ≡ true
      → all_from w xs ≡ true
      → all_after key v xs ≡ true
  all_after-from v w [] h a = refl
  all_after-from v w (x ∷ xs) h a = ground (arith, all_after-from v w xs h)

  pub ascending-partitioned :
      (v : ℤ) (xs : List Transition) → ascending xs ≡ true → is_partitioned key v xs ≡ true
  unfolding is_partitioned
  ascending-partitioned v [] a = refl
  ascending-partitioned v (x ∷ xs) a = elim (Bool-cases (ltb_ℤ v (key x))) [
    | inl h ↦ rw h (all_after-from v (key x) xs h (ground arith))
    | inr h ↦ rw h (ascending-partitioned v xs (ground arith))
  ]

latest_above :
    (t v : ℤ) (xs : List Transition) (best : Option Transition)
    → ltb_ℤ t v ≡ true
    → all_from (λ tr. tr.utctime) v xs ≡ true
    → latest t xs best ≡ best
latest_above t v [] best h a = refl
latest_above t v (x ∷ xs) best h a =
    let above : ltb_ℤ t x.utctime ≡ true = ground arith in
    rw above (latest_above t v xs best h (ground arith))

-- What `first_after` finds, one index before it.
abbrev before_bound : ℕ → List Transition → Option Transition → Option Transition
before_bound zero xs best = best
before_bound (suc i) xs best = get_elem? xs i

before_bound_cons :
    (i : ℕ) (x : Transition) (xs : List Transition)
    → before_bound i xs (some x) ≡ get_elem? (x ∷ xs) i
before_bound_cons zero x xs = refl
before_bound_cons (suc i) x xs = refl

latest-first_after :
    (t : ℤ) (xs : List Transition) (best : Option Transition)
    → ascending (λ tr. tr.utctime) xs ≡ true
    → latest t xs best ≡ before_bound (first_after (λ tr. tr.utctime) t xs) xs best
unfolding first_after
latest-first_after t [] best a = refl
latest-first_after t (x ∷ xs) best a = elim (Bool-cases (ltb_ℤ t x.utctime)) [
  | inl h ↦ rw h (latest_above t x.utctime xs best h (ground arith))
  | inr h ↦ rw h (
      latest-first_after t xs (some x) (ground arith)
      ∙ before_bound_cons (first_after (λ tr. tr.utctime) t xs) x xs)
]

bound_first :
    (t : ℤ) (xs : List Transition)
    → before_all (λ tr. tr.utctime) t xs ≡ (first_after (λ tr. tr.utctime) t xs == 0)
unfolding first_after
bound_first t [] = refl
bound_first t (x ∷ xs) = elim (Bool-cases (ltb_ℤ t x.utctime)) [
  | inl h ↦ rw h refl
  | inr h ↦ rw h (ground arith)
]

get_some :
    (i : ℕ) (t : ℤ) (xs : List Transition)
    → first_after (λ tr. tr.utctime) t xs ≡ suc i
    → (tr : Transition) × (get_elem? xs i ≡ some tr)
unfolding first_after
get_some i t [] e = absurd (omega arith)
get_some zero t (x ∷ xs) e = (x, refl)
get_some (suc i) t (x ∷ xs) e = get_some i t xs (ground arith)

-- The two ways in which the code reads off the transition before the bound are one.
unfoldable pub code_from : Data → ℕ → Option LocalTime
code_from z i = if i == 0 then get_elem? z.localtimes 0 else do
  assert (not (i == 0))
  if not (i == length z.transitions) then local_of z (transition z (i - 1)) else local_of z (back z)

pub code_from-suc :
    (z : Data) (i : ℕ) (tr : Transition)
    → get_elem? z.transitions i ≡ some tr
    → code_from z (suc i) ≡ at z.localtimes tr.localtime_idx
unfolding code_from
code_from-suc z i tr g =
    let nonzero : (suc i == 0) ≡ false = ground arith in
    let index : suc i - 1 ≡ i = omega arith in
    elim (Bool-cases (suc i == length z.transitions)) [
      | inl e ↦
          let last : length z.transitions - 1 ≡ i = ground arith in rw (nonzero, e, last, g) refl
      | inr n ↦ rw (nonzero, n, index, g) refl
    ]

pub find_by_utc-code_from :
    (z : Data) (t : ℤ)
    → is_partitioned (λ tr. tr.utctime) t z.transitions ≡ true
    → find_by_utc z t ≡ code_from z (first_after (λ tr. tr.utctime) t z.transitions)
unfolding find_by_utc code_from upper_bound
find_by_utc-code_from z t p = rw (p, bound_first t z.transitions) refl

latest-eq :
    (z : Data) (t : ℤ) (best : Option Transition)
    → latest t z.transitions none ≡ best
    → in_force z t
      ≡ elim best [ none ↦ get_elem? z.localtimes 0 | some x ↦ at z.localtimes x.localtime_idx ]
latest-eq z t best e = rw (in_force, e) refl

code_from-in_force :
    (z : Data) (t : ℤ) (i : ℕ)
    → ascending (λ tr. tr.utctime) z.transitions ≡ true
    → first_after (λ tr. tr.utctime) t z.transitions ≡ i
    → code_from z i ≡ in_force z t
unfolding code_from
code_from-in_force z t zero a e = sym (
    latest-eq z t none
      (latest-first_after t z.transitions none a ∙ ap (λ i. before_bound i z.transitions none) e))
code_from-in_force z t (suc i) a e =
    let (tr, g) = get_some i t z.transitions e in
    code_from-suc z i tr g
    ∙ sym (
        latest-eq z t (some tr) (
          latest-first_after t z.transitions none a
          ∙ ap (λ i. before_bound i z.transitions none) e
          ∙ g))

-- Where the transitions are in the order of their moments, `findLocalTime` of a moment finds the local
-- time of the last transition at or before it, and the first local time where there is none.
pub find_by_utc-in_force :
    (z : Data) (t : ℤ)
    → ascending (λ tr. tr.utctime) z.transitions ≡ true
    → find_by_utc z t ≡ in_force z t
find_by_utc-in_force z t a =
    find_by_utc-code_from z t (ascending-partitioned (λ tr. tr.utctime) t z.transitions a)
    ∙ code_from-in_force z t (first_after (λ tr. tr.utctime) t z.transitions) a refl
