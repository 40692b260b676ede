-- ===== src/TimeZone/RoundTrip.antt =====
-- The local time of a moment, taken back to the moment.
use rfcs.Common.{
  ℕ, zero, suc, ◌-◌, ◌≡◌, ◌⊎◌, refl, ap, ◌∙◌, Bool, true, false, not, ◌&&◌, List, [], ◌∷◌, Option,
  none, some, ◌==◌, length, get_elem?, ◌>>=◌, arith, Bool-cases, inl, inr, >>=-eq-some,
  get_elem?_lt,
}
use rfcs.Common.Int.{ℤ, pos, negsuc, ◌+ℤ◌, ◌-ℤ◌, ltb_ℤ}
use rfcs.TimeZone.{DateTime, Transition, LocalTime, Data, TimeZone, at}
use rfcs.TimeZone.Clock.{InRange, from_utc_time, break_time-from, civil_time}
use rfcs.TimeZone.InForce.{code_from, code_from-suc, find_by_utc-code_from}
use rfcs.TimeZone.Moderate.{
  is_moderate, in_int, moderate-offset, prior_second-eq, add_int64-InRange, sub_int64-back,
}
use rfcs.TimeZone.Lookup.{
  upper_bound, first_after, all_after, is_partitioned, before_all, local_of, transition,
  prior_second, find_between, find_by_utc, find_by_local, to_local_time, from_local_time,
}

module _ (key : Transition → ℤ) (v : ℤ) where
  -- The transitions up to the index `n` are at or before `v`, and all the others are after it.
  abbrev pub spans : ℕ → List Transition → Bool
  spans n [] = false
  spans zero (x ∷ xs) = not (ltb_ℤ v (key x)) && all_after key v xs
  spans (suc n) (x ∷ xs) = not (ltb_ℤ v (key x)) && spans n xs

abbrev pub is_before : Option ℤ → ℤ → Bool
is_before none l = false
is_before (some prior) l = ltb_ℤ prior l

-- The last second before the transition `n`, told in the local time before it, is before `l`.
abbrev pub clear_of_repeat : Data → ℕ → ℤ → Bool
clear_of_repeat z zero l = true
clear_of_repeat z (suc m) l = is_before (transition z m >>= prior_second z (suc m)) l

-- The moment `t` has the local time `lt`, in no hour that a transition skips or repeats: the moment
-- and its local seconds are both before the transitions, or both at the same place among them.
pub data IsPlain (z : Data) (t : ℤ) (lt : LocalTime) : Type 0 where
  early :
      before_all (λ tr. tr.utctime) t z.transitions ≡ true
      → before_all (λ tr. tr.localtime) (t +ℤ lt.utc_offset) z.transitions ≡ true
      → get_elem? z.localtimes 0 ≡ some lt
      → IsPlain z t lt
  during :
      (n : ℕ)
      → spans (λ tr. tr.utctime) t n z.transitions ≡ true
      → spans (λ tr. tr.localtime) (t +ℤ lt.utc_offset) n z.transitions ≡ true
      → local_of z (transition z n) ≡ some lt
      → clear_of_repeat z n (t +ℤ lt.utc_offset) ≡ true
      → IsPlain z t lt

module _ (key : Transition → ℤ) (v : ℤ) where
  spans-before_all :
      (n : ℕ) (xs : List Transition) → spans key v n xs ≡ true → before_all key v xs ≡ false
  spans-before_all zero (x ∷ xs) h = ground arith
  spans-before_all (suc n) (x ∷ xs) h = ground arith
  spans-before_all n [] h = cc

  first_after-all : (xs : List Transition) → all_after key v xs ≡ true → first_after key v xs ≡ 0
  unfolding first_after
  first_after-all [] h = refl
  first_after-all (x ∷ xs) h = ground arith

  first_after-spans :
      (n : ℕ) (xs : List Transition) → spans key v n xs ≡ true → first_after key v xs ≡ suc n
  unfolding first_after
  first_after-spans n [] h = cc
  first_after-spans zero (x ∷ xs) h =
      let after : ltb_ℤ v (key x) ≡ false = ground arith in
      rw after (ap suc (first_after-all xs (ground arith)))
  first_after-spans (suc n) (x ∷ xs) h =
      let after : ltb_ℤ v (key x) ≡ false = ground arith in
      rw after (ap suc (first_after-spans n xs (ground arith)))

  all_after-partitioned :
      (xs : List Transition) → all_after key v xs ≡ true → is_partitioned key v xs ≡ true
  unfolding is_partitioned
  all_after-partitioned [] h = refl
  all_after-partitioned (x ∷ xs) h =
      let after : ltb_ℤ v (key x) ≡ true = ground arith in rw after (ground arith)

  spans-partitioned :
      (n : ℕ) (xs : List Transition) → spans key v n xs ≡ true → is_partitioned key v xs ≡ true
  unfolding is_partitioned
  spans-partitioned n [] h = refl
  spans-partitioned zero (x ∷ xs) h =
      let after : ltb_ℤ v (key x) ≡ false = ground arith in
      rw after (all_after-partitioned xs (ground arith))
  spans-partitioned (suc n) (x ∷ xs) h =
      let after : ltb_ℤ v (key x) ≡ false = ground arith in
      rw after (spans-partitioned n xs (ground arith))

  upper_bound-spans :
      (n : ℕ) (xs : List Transition) → spans key v n xs ≡ true → upper_bound key v xs ≡ some (suc n)
  unfolding upper_bound
  upper_bound-spans n xs h = rw (spans-partitioned n xs h, first_after-spans n xs h) refl

  -- The next transition, where there is one, is after `v`.
  spans-next :
      (n : ℕ) (xs : List Transition) (x : Transition)
      → spans key v n xs ≡ true
      → get_elem? xs (suc n) ≡ some x
      → ltb_ℤ v (key x) ≡ true
  spans-next n [] x h g = cc
  spans-next zero (y ∷ []) x h g = cc
  spans-next zero (y ∷ x' ∷ xs) x h g = ground arith
  spans-next (suc n) (y ∷ xs) x h g = spans-next n xs x (ground arith) g

  -- Where the next transition is the end, the transition is the last.
  spans-end :
      (n : ℕ) (xs : List Transition)
      → spans key v n xs ≡ true
      → (suc n ≡ length xs) ⊎ ((x : Transition) × (get_elem? xs (suc n) ≡ some x))
  spans-end n [] h = cc
  spans-end zero (y ∷ []) h = inl refl
  spans-end zero (y ∷ x ∷ xs) h = inr (x, refl)
  spans-end (suc n) (y ∷ xs) h = elim (spans-end n xs (ground arith)) [
    | inl e ↦ inl (ap suc e)
    | inr r ↦ inr r
  ]

prior-not_before : (u t o : ℤ) → ltb_ℤ t u ≡ true → ltb_ℤ (u -ℤ pos 1 +ℤ o) (t +ℤ o) ≡ false
unfolding ◌+ℤ◌ ◌-ℤ◌
prior-not_before (pos u) t o h = ground arith
prior-not_before (negsuc u) t o h = ground arith

is_before-parts :
    (o : Option ℤ) (l : ℤ)
    → is_before o l ≡ true
    → (prior : ℤ) × (o ≡ some prior) × (ltb_ℤ prior l ≡ true)
is_before-parts none l h = cc
is_before-parts (some prior) l h = (prior, refl, h)

-- The transition before, and its last second, that the test for a repeat reads.
clear_of_repeat-parts :
    (z : Data) (n : ℕ) (l : ℤ)
    → clear_of_repeat z (suc n) l ≡ true
    → (prev : Transition) × (prior : ℤ) × (transition z n ≡ some prev)
      × (prior_second z (suc n) prev ≡ some prior)
      × (ltb_ℤ prior l ≡ true)
clear_of_repeat-parts z n l c =
    let (prior, e, k) = is_before-parts (transition z n >>= prior_second z (suc n)) l c in
    let (prev, g, q) = >>=-eq-some (transition z n) (prior_second z (suc n)) e in
    (prev, prior, g, q, k)

module _ (z : Data) (moderate : is_moderate z ≡ true) (t : ℤ) (lt : LocalTime) (post : Bool) where
  find_by_utc-IsPlain : IsPlain z t lt → find_by_utc z t ≡ some lt
  unfolding find_by_utc
  find_by_utc-IsPlain (early b c f) = rw b f
  find_by_utc-IsPlain (during n s s' f c) =
      let (cur, g, f') = >>=-eq-some (transition z n) (λ tr. at z.localtimes tr.localtime_idx) f in
      find_by_utc-code_from z t (spans-partitioned _ t n z.transitions s)
      ∙ ap (code_from z) (first_after-spans _ t n z.transitions s)
      ∙ code_from-suc z n cur g
      ∙ f'

  find_between-first :
      (cur next : Transition)
      → transition z 0 ≡ some cur
      → at z.localtimes cur.localtime_idx ≡ some lt
      → transition z 1 ≡ some next
      → ltb_ℤ t next.utctime ≡ true
      → find_between z (t +ℤ lt.utc_offset) post 1 ≡ some lt
  unfolding find_between
  find_between-first cur next g f g' h =
      let prior = prior-not_before next.utctime t lt.utc_offset h in
      let second = prior_second-eq z moderate 1 cur next lt g' f in
      elim (Bool-cases post) [
        | inl p ↦ rw (g, second, prior, p, f) refl
        | inr p ↦ rw (g, second, prior, p, f) refl
      ]

  find_between-later :
      (n : ℕ) (cur next : Transition)
      → transition z (suc n) ≡ some cur
      → at z.localtimes cur.localtime_idx ≡ some lt
      → transition z (suc (suc n)) ≡ some next
      → ltb_ℤ t next.utctime ≡ true
      → clear_of_repeat z (suc n) (t +ℤ lt.utc_offset) ≡ true
      → find_between z (t +ℤ lt.utc_offset) post (suc (suc n)) ≡ some lt
  unfolding find_between
  find_between-later n cur next g f g' h c =
      let before = prior-not_before next.utctime t lt.utc_offset h in
      let index : suc (suc n) - 1 ≡ suc n = omega arith in
      let (prev, prior, e, q, k) = clear_of_repeat-parts z n (t +ℤ lt.utc_offset) c in
      let second = prior_second-eq z moderate (suc (suc n)) cur next lt g' f in
      rw (index, g, second, before, e, q, k, f) refl

  find_between-IsPlain :
      (n : ℕ) (cur next : Transition)
      → transition z n ≡ some cur
      → at z.localtimes cur.localtime_idx ≡ some lt
      → transition z (suc n) ≡ some next
      → ltb_ℤ t next.utctime ≡ true
      → clear_of_repeat z n (t +ℤ lt.utc_offset) ≡ true
      → find_between z (t +ℤ lt.utc_offset) post (suc n) ≡ some lt
  find_between-IsPlain zero cur next g f g' h c = find_between-first cur next g f g' h
  find_between-IsPlain (suc n) cur next g f g' h c = find_between-later n cur next g f g' h c

  find_by_local-IsPlain :
      (dt : DateTime)
      → from_utc_time dt ≡ some (t +ℤ lt.utc_offset)
      → IsPlain z t lt
      → find_by_local z dt post ≡ some lt
  unfolding find_by_local
  find_by_local-IsPlain dt e (early b c f) = rw (e, c) f
  find_by_local-IsPlain dt e (during n s s' f c) =
      let (cur, g, f') = >>=-eq-some (transition z n) (λ tr. at z.localtimes tr.localtime_idx) f in
      let nonzero : (suc n == 0) ≡ false = ground arith in
      let start = spans-before_all _ (t +ℤ lt.utc_offset) n z.transitions s' in
      let bound = upper_bound-spans _ (t +ℤ lt.utc_offset) n z.transitions s' in
      elim (spans-end _ t n z.transitions s) [
        | inl q ↦
            let last : length z.transitions - 1 ≡ n = omega arith in
            let end : (suc n == length z.transitions) ≡ true = ground arith in
            rw (e, start, bound, nonzero, end, last) f
        | inr (next, g') ↦
            let inside : (suc n == length z.transitions) ≡ false =
              ground (arith, get_elem?_lt z.transitions (suc n) g') in
            rw (e, start, bound, nonzero, inside)
              (find_between-IsPlain n cur next g f' g' (spans-next _ t n z.transitions next s g') c)
      ]

IsPlain-offset :
    (z : Data) (t : ℤ) (lt : LocalTime)
    → is_moderate z ≡ true
    → IsPlain z t lt
    → in_int lt.utc_offset ≡ true
IsPlain-offset z t lt m (early b c f) = moderate-offset z m (pos 0) lt f
IsPlain-offset z t lt m (during n s s' f c) =
    let (cur, g, f') = >>=-eq-some (transition z n) (λ tr. at z.localtimes tr.localtime_idx) f in
    moderate-offset z m cur.localtime_idx lt f'

-- The local time of a moment that is in no skipped or repeated hour goes back to the moment,
-- whichever side of a transition is asked for, and nothing overflows: in the years that `BreakTime`
-- handles, where either the first transition is after the moment, if there is one, or those up to some
-- index are not after it and all the others are, by their moments and by their local seconds, and the
-- moments of the transitions are within 2 ^ 62 seconds.
pub to_local_time-from_local_time :
    (zone : TimeZone) (z : Data) (t : ℤ) (lt : LocalTime) (post : Bool)
    → zone.zone_data ≡ some z
    → is_moderate z ≡ true
    → IsPlain z t lt
    → InRange (t +ℤ lt.utc_offset)
    → (to_local_time zone t >>= λ r. from_local_time zone (r.0) post) ≡ some t
unfolding to_local_time from_local_time
to_local_time-from_local_time zone z t lt post e c p r =
    let (y, m, d, h, mi, s, moment) = break_time-from (t +ℤ lt.utc_offset) r in
    rw
      (
        e,
        find_by_utc-IsPlain z c t lt post p,
        add_int64-InRange t lt.utc_offset r,
        moment.broken,
        find_by_local-IsPlain z c t lt post (civil_time y m d h mi s) moment.seconds p,
        moment.seconds,
      )
      (sub_int64-back t lt.utc_offset r (IsPlain-offset z t lt c p))
