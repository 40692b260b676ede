-- ===== src/TimeZone/File/Total.antt =====
-- A zone that is loaded from a file, with its transitions in order, converts moments and local times.
use rfcs.Common.{
  ℕ, zero, suc, ◌-◌, ◌≤◌, ◌<◌, ◌≡◌, refl, subst, Bool, true, false, List, [], ◌∷◌, Option, some,
  length, get_elem?, ◌>>=◌, ◌>>◌, assert, arith, not, ◌==◌, if◌then◌else◌,
}
use rfcs.Common.Int.{ℤ, pos, ◌+ℤ◌, ◌-ℤ◌, ltb_ℤ}
use rfcs.TimeZone.{DateTime, Data, Transition, LocalTime, at}
use rfcs.TimeZone.Clock.{InRange, civil_time, from_utc_time, break_time-from}
use rfcs.TimeZone.InForce.{ascending, ascending-partitioned}
use rfcs.TimeZone.Moderate.{
  is_moderate, in_int, IsClear, IsClear-InRange, moderate-offset, prior_second-eq,
  add_int64-InRange, sub_int64-InRange,
}
use rfcs.TimeZone.Lookup.{
  upper_bound, first_after, before_all, local_of, transition, back, prior_second, look_back, choose,
  find_between, find_by_utc, find_by_local, to_local_time, from_local_time,
}
use rfcs.TimeZone.File.{load_zone_file}
use rfcs.TimeZone.File.Loaded.{AllName, IsNamed, Then, load_zone_file-IsNamed}

-- The result is there.
abbrev pub Gives : {A : Type 0} → Option A → Type 0
Gives {A = A} o = (a : A) × (o ≡ some a)

-- The result is there, and its offset is an `int`.
abbrev Finds : Option LocalTime → Type 0
Finds o = (lt : LocalTime) × (o ≡ some lt) × (in_int lt.utc_offset ≡ true)

Finds-bind :
    {A : Type 0} (m : Option A) (f : A → Option LocalTime)
    → Gives m
    → ((a : A) → m ≡ some a → Finds (f a))
    → Finds (m >>= f)
Finds-bind m f (a, e) h = let (b, e', o) = h a e in (b, rw (e, e') refl, o)

Finds-assert : (b : Bool) (k : Option LocalTime) → b ≡ true → Finds k → Finds (assert b >> k)
Finds-assert b k e g = rw e g

Finds-if :
    (b : Bool) (x y : Option LocalTime)
    → (b ≡ true → Finds x)
    → (b ≡ false → Finds y)
    → Finds (if b then x else y)
Finds-if true x y g h = g refl
Finds-if false x y g h = h refl

get_elem?-in : {A : Type 0} (xs : List A) (i : ℕ) → i < length xs → Gives (get_elem? xs i)
get_elem?-in [] i h = absurd (omega arith)
get_elem?-in (x ∷ xs) zero h = (x, refl)
get_elem?-in (x ∷ xs) (suc i) h = get_elem?-in xs i (omega arith)

AllName-at :
    (ls : List LocalTime) (xs : List Transition) (i : ℕ) (x : Transition)
    → AllName ls xs
    → get_elem? xs i ≡ some x
    → Gives (at ls x.localtime_idx)
AllName-at ls [] i x a g = cc
AllName-at ls (y ∷ xs) zero x (n, a) g = (n.local, cc)
AllName-at ls (y ∷ xs) (suc i) x (n, a) g = AllName-at ls xs i x a g

first_after_le :
    (key : Transition → ℤ) (v : ℤ) (xs : List Transition) → first_after key v xs ≤ length xs
unfolding first_after
first_after_le key v [] = omega arith
first_after_le key v (x ∷ xs) = ground (arith, first_after_le key v xs)

first_after_pos :
    (key : Transition → ℤ) (v : ℤ) (xs : List Transition)
    → before_all key v xs ≡ false
    → 1 ≤ first_after key v xs
unfolding first_after
first_after_pos key v [] h = cc
first_after_pos key v (x ∷ xs) h = ground arith

upper_bound-ascending :
    (key : Transition → ℤ) (v : ℤ) (xs : List Transition)
    → ascending key xs ≡ true
    → upper_bound key v xs ≡ some (first_after key v xs)
unfolding upper_bound
upper_bound-ascending key v xs a = rw (ascending-partitioned key v xs a) refl

module _ (z : Data) (named : IsNamed z) (moderate : is_moderate z ≡ true)
    (some_local : 1 ≤ length z.localtimes) where
  named-Finds :
      (i : ℕ) (x : Transition) → transition z i ≡ some x → Finds (at z.localtimes x.localtime_idx)
  named-Finds i x e =
      let (lt, f) = AllName-at z.localtimes z.transitions i x named e in
      (lt, f, moderate-offset z moderate x.localtime_idx lt f)

  first-Finds : Finds (get_elem? z.localtimes 0)
  first-Finds =
      let (lt, f) = get_elem?-in z.localtimes 0 some_local in
      (lt, f, moderate-offset z moderate (pos 0) lt f)

  local-Finds : (i : ℕ) → i < length z.transitions → Finds (local_of z (transition z i))
  local-Finds i h =
      Finds-bind (transition z i) _ (get_elem?-in z.transitions i h) (λ x e. named-Finds i x e)

  prior_second-Gives :
      (i j : ℕ) (x : Transition)
      → i < length z.transitions
      → transition z j ≡ some x
      → Gives (prior_second z i x)
  prior_second-Gives i j x h e =
      let (next, g) = get_elem?-in z.transitions i h in
      let (lt, f) = AllName-at z.localtimes z.transitions j x named e in
      (_, prior_second-eq z moderate i x next lt g f)

  choose-Finds :
      (post : Bool) (i j : ℕ) (x : Transition)
      → i < length z.transitions
      → transition z j ≡ some x
      → Finds (choose z post i x)
  choose-Finds true i j x h e = local-Finds i h
  choose-Finds false i j x h e = named-Finds j x e

  back-Finds : 1 ≤ length z.transitions → Finds (local_of z (back z))
  back-Finds h = local-Finds (length z.transitions - 1) (omega arith)

  find_by_utc-Finds :
      (t : ℤ) → ascending (λ tr. tr.utctime) z.transitions ≡ true → Finds (find_by_utc z t)
  unfolding find_by_utc
  find_by_utc-Finds t a =
      let key : Transition → ℤ = λ tr. tr.utctime in
      let i = first_after key t z.transitions in
      Finds-if (before_all key t z.transitions) _ _ (λ _. first-Finds)
        (λ b.
          let up = first_after_pos key t z.transitions b in
          let le = first_after_le key t z.transitions in
          rw (upper_bound-ascending key t z.transitions a) (
            Finds-assert (not (i == 0)) _ (ground arith) (
              Finds-if (not (i == length z.transitions)) _ _
                (λ n. local-Finds (i - 1) (ground arith)) (λ _. back-Finds (omega arith)))))

  look_back-Gives :
      (i : ℕ) (x : Transition) (prior : ℤ)
      → i < length z.transitions
      → transition z i ≡ some x
      → (y : Transition) × (p : ℤ) × (j : ℕ) × (look_back z i x prior ≡ some (y, p))
        × (transition z j ≡ some y)
  look_back-Gives zero x prior h e = (x, prior, zero, refl, e)
  look_back-Gives (suc i) x prior h e =
      let (y, q) = get_elem?-in z.transitions i (omega arith) in
      let (p, r) = prior_second-Gives (suc i) i y h q in (y, p, i, rw (q, r) refl, q)

  find_between-Finds :
      (l : ℤ) (post : Bool) (i : ℕ)
      → 1 ≤ i
      → i < length z.transitions
      → Finds (find_between z l post i)
  unfolding find_between
  find_between-Finds l post i h k =
      Finds-bind (transition z (i - 1)) _ (get_elem?-in z.transitions (i - 1) (omega arith)) (λ x e.
        Finds-bind (prior_second z i x) _ (prior_second-Gives i (i - 1) x k e) (λ prior _.
          Finds-if (ltb_ℤ prior l) _ _ (λ _. choose-Finds post i (i - 1) x k e)
            (λ _.
              let (y, p, j, q, r) = look_back-Gives (i - 1) x prior (omega arith) e in
              rw q (
                Finds-if (not (ltb_ℤ p l)) _ _ (λ _. choose-Finds post (i - 1) j y (omega arith) r)
                  (λ _. local-Finds (i - 1) (omega arith))))))

  find_by_local-Finds :
      (dt : DateTime) (l : ℤ) (post : Bool)
      → from_utc_time dt ≡ some l
      → ascending (λ tr. tr.localtime) z.transitions ≡ true
      → Finds (find_by_local z dt post)
  unfolding find_by_local
  find_by_local-Finds dt l post e a =
      let key : Transition → ℤ = λ tr. tr.localtime in
      let i = first_after key l z.transitions in
      rw e (
        Finds-if (before_all key l z.transitions) _ _ (λ _. first-Finds)
          (λ b.
            let up = first_after_pos key l z.transitions b in
            let le = first_after_le key l z.transitions in
            rw (upper_bound-ascending key l z.transitions a) (
              Finds-assert (not (i == 0)) _ (ground arith) (
                Finds-if (i == length z.transitions) _ _ (λ _. back-Finds (omega arith))
                  (λ n. find_between-Finds l post i up (ground arith))))))

Then-at : (o : Option Data) (z : Data) → o ≡ some z → Then IsNamed o → IsNamed z
Then-at o z e h = subst (Then IsNamed) e h

-- What a zone must be, beside loaded from a file, for its two conversions: it has a local time, its
-- transitions are in order, by their moments and by their local seconds, and these are within 2 ^ 62.
pub record IsOrdered (z : Data) : Type 0 where
  pub some_local : 1 ≤ length z.localtimes
  pub by_utc : ascending (λ tr. tr.utctime) z.transitions ≡ true
  pub by_local : ascending (λ tr. tr.localtime) z.transitions ≡ true
  pub moderate : is_moderate z ≡ true

-- A zone that is loaded from a file, has a local time at all and its transitions in order, by moments
-- (within 2 ^ 62 seconds) and by local seconds, converts a moment to a local time and a local time to
-- a moment, on either side of a transition: no assertion fails, nothing outside the two vectors is
-- read, and nothing overflows. The moment is an `int` of seconds at least inside the years that
-- `BreakTime` handles, and the local time is one whose seconds are in them.
pub load_zone_file-Gives :
    (contents : Option (List ℕ)) (z : Data) (t l : ℤ) (dt : DateTime) (post : Bool)
    → (load_zone_file contents).zone_data ≡ some z
    → IsOrdered z
    → IsClear t
    → from_utc_time dt ≡ some l
    → InRange l
    → Gives (to_local_time (load_zone_file contents) t)
      × Gives (from_local_time (load_zone_file contents) dt post)
unfolding to_local_time from_local_time
load_zone_file-Gives contents z t l dt post e o c el r =
    let named = Then-at _ z e (load_zone_file-IsNamed contents) in
    let (lt, q, k) = find_by_utc-Finds z named o.moderate o.some_local t o.by_utc in
    let (lt', q', k') =
      find_by_local-Finds z named o.moderate o.some_local dt l post el o.by_local in
    let inside = IsClear-InRange t lt.utc_offset c k in
    let (y, m, d, h, mi, s, moment) = break_time-from (t +ℤ lt.utc_offset) inside in
    (
      (
        (civil_time y m d h mi s, lt.utc_offset),
        rw (e, q, add_int64-InRange t lt.utc_offset inside, moment.broken) refl,
      ),
      (l -ℤ lt'.utc_offset, rw (e, q', el) (sub_int64-InRange l lt'.utc_offset r k')),
    )
