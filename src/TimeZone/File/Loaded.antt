-- ===== src/TimeZone/File/Loaded.antt =====
-- What `readTimeZoneFile` makes of a file: the transitions name local times of the zone.
use rfcs.Common.{
  ℕ, zero, suc, ◌≡◌, Bool, true, false, List, [], ◌∷◌, ◌++◌, Option, none, some, ◌>>=◌, ◌>>◌,
  assert, not, inl, inr, Option-cases, ◌==◌, if◌then◌else◌,
}
use rfcs.Common.Int.{ℤ, pos, negsuc, ◌+ℤ◌, add_int64, add_int64-value}
use rfcs.TimeZone.{Data, Transition, LocalTime, at, empty_data, add_local_time, add_transition}
use rfcs.TimeZone.File.{
  File, Counts, as_count, read_bytes, read_int32, read_uint8, read_counts, read_times, read_indices,
  read_local_times, add_transitions, is_handled, read_data, read_data_block, read_version2,
  read_time_zone_file, load_zone_file, same_bytes, block_size, magic,
}

-- The transition is one to a local time of the list, whose offset its local seconds have.
pub record Names (locals : List LocalTime) (tr : Transition) : Type 0 where
  pub local : LocalTime
  pub found : at locals tr.localtime_idx ≡ some local
  pub shifted : tr.localtime ≡ tr.utctime +ℤ local.utc_offset

abbrev pub AllName : List LocalTime → List Transition → Type 0
AllName locals [] = Unit {0}
AllName locals (x ∷ xs) = Names locals x × AllName locals xs

abbrev pub IsNamed : Data → Type 0
IsNamed z = AllName z.localtimes z.transitions

at-append :
    (ls ms : List LocalTime) (i : ℤ) (l : LocalTime) → at ls i ≡ some l → at (ls ++ ms) i ≡ some l
at-append [] ms (pos i) l h = cc
at-append (x ∷ ls) ms (pos zero) l h = h
at-append (x ∷ ls) ms (pos (suc i)) l h = at-append ls ms (pos i) l h
at-append ls ms (negsuc i) l h = cc

AllName-append_locals :
    (ls ms : List LocalTime) (xs : List Transition) → AllName ls xs → AllName (ls ++ ms) xs
AllName-append_locals ls ms [] a = tt
AllName-append_locals ls ms (x ∷ xs) (n, a) = (
  record {
    local = n.local;
    found = at-append ls ms x.localtime_idx n.local n.found;
    shifted = n.shifted;
  },
  AllName-append_locals ls ms xs a,
)

AllName-append :
    (ls : List LocalTime) (xs : List Transition) (x : Transition)
    → AllName ls xs
    → Names ls x
    → AllName ls (xs ++ x ∷ [])
AllName-append ls [] x a n = (n, tt)
AllName-append ls (y ∷ xs) x (m, a) n = (m, AllName-append ls xs x a n)

add_local_time-IsNamed :
    (o : ℤ) (d : Bool) (i : ℤ) (z : Data) → IsNamed z → IsNamed (add_local_time o d i z)
unfolding add_local_time
add_local_time-IsNamed o d i z a = AllName-append_locals z.localtimes _ z.transitions a

-- What a result of an operation that may fail has.
abbrev pub Then {ℓ} : {A : Type ℓ} → (A → Type 0) → Option A → Type 0
Then P none = Unit {0}
Then P (some z) = P z

Then-bind :
    {A B : Type 0} (Q : B → Type 0) (m : Option A) (f : A → Option B)
    → ((a : A) → Then Q (f a))
    → Then Q (m >>= f)
Then-bind Q none f h = tt
Then-bind Q (some a) f h = h a

Then-bind_of :
    {A B : Type 0} {P : A → Type 0} (Q : B → Type 0) (m : Option A) (f : A → Option B)
    → Then P m
    → ((a : A) → P a → Then Q (f a))
    → Then Q (m >>= f)
Then-bind_of Q none f p h = tt
Then-bind_of Q (some a) f p h = h a p

add_transition-local :
    (t i : ℤ) (z : Data) (lt : LocalTime)
    → at z.localtimes i ≡ some lt
    → IsNamed z
    → Then IsNamed (
        add_int64 t lt.utc_offset >>= λ localtime. some (record z {
          transitions =
              z.transitions
              ++ record { utctime = t; localtime = localtime; localtime_idx = i } ∷ [];
        }))
add_transition-local t i z lt e a = elim (Option-cases (add_int64 t lt.utc_offset)) [
  | inl o ↦ rw o tt
  | inr (l, o) ↦ rw o (
      AllName-append z.localtimes z.transitions _ a
        (record { local = lt; found = e; shifted = add_int64-value t lt.utc_offset l o }))
]

add_transition-IsNamed :
    (t : ℤ) (i : ℤ) (z : Data) → IsNamed z → Then IsNamed (add_transition t i z)
unfolding add_transition
add_transition-IsNamed t i z a = elim (Option-cases (at z.localtimes i)) [
  | inl e ↦ rw e tt
  | inr (lt, e) ↦ rw e (add_transition-local t i z lt e a)
]

add_transitions-IsNamed :
    (ts : List ℤ) (is : List ℕ) (z : Data) → IsNamed z → Then IsNamed (add_transitions ts is z)
unfolding add_transitions
add_transitions-IsNamed [] is z a = a
add_transitions-IsNamed (t ∷ ts) [] z a = a
add_transitions-IsNamed (t ∷ ts) (i ∷ is) z a =
    Then-bind_of IsNamed (add_transition t (pos i) z) _ (add_transition-IsNamed t (pos i) z a)
      (λ z' a'. add_transitions-IsNamed ts is z' a')

read_local_times-IsNamed :
    (n : ℕ) (f : File) (z : Data) → IsNamed z → Then (λ r. IsNamed (r.1)) (read_local_times n f z)
unfolding read_local_times
read_local_times-IsNamed zero f z a = a
read_local_times-IsNamed (suc n) f z a =
    Then-bind (λ r. IsNamed (r.1)) (read_int32 f) _
      (λ r.
        Then-bind (λ r. IsNamed (r.1)) (read_uint8 (r.1)) _
          (λ d.
            Then-bind (λ r. IsNamed (r.1)) (read_uint8 (d.1)) _
              (λ i.
                read_local_times-IsNamed n (i.1) _
                  (add_local_time-IsNamed (r.0) (not (d.0 == 0)) (pos (i.0)) z a))))

Then-assert :
    {B : Type 0} (Q : B → Type 0) (b : Bool) (k : Option B) → Then Q k → Then Q (assert b >> k)
Then-assert Q true k h = h
Then-assert Q false k h = tt

Then-if :
    {A : Type 0} (P : A → Type 0) (b : Bool) (x y : Option A)
    → Then P x
    → Then P y
    → Then P (if b then x else y)
Then-if P true x y p q = p
Then-if P false x y p q = q

strings-IsNamed :
    (v1 : Bool) (z : Data) (a b : List ℕ)
    → IsNamed z
    → IsNamed
        (if v1 then record z { abbreviation = a } else record z { abbreviation = a; tzstring = b })
strings-IsNamed true z a b n = n
strings-IsNamed false z a b n = n

read_data-IsNamed :
    (f : File) (z : Data) (c : Counts) (v1 : Bool) → IsNamed z → Then IsNamed (read_data f z c v1)
unfolding read_data
read_data-IsNamed f z c v1 a = Then-bind IsNamed (as_count c.timecnt) _ (λ n.
    Then-bind IsNamed (read_times v1 n f) _ (λ t. Then-bind IsNamed (read_indices n (t.1)) _ (λ i.
      Then-bind IsNamed (as_count c.typecnt) _ (λ k.
        Then-bind_of IsNamed (read_local_times k (i.1) z) _ (read_local_times-IsNamed k (i.1) z a)
          (λ r ra.
            Then-bind_of IsNamed (add_transitions (t.0) (i.0) (r.1)) _
              (add_transitions-IsNamed (t.0) (i.0) (r.1) ra)
              (λ z' za.
                Then-bind IsNamed (read_bytes c.charcnt (r.0)) _
                  (λ s. strings-IsNamed v1 z' (s.0) _ za)))))))

read_data_block-IsNamed :
    (f : File) (z : Data) (v1 : Bool) → IsNamed z → Then IsNamed (read_data_block f z v1)
unfolding read_data_block
read_data_block-IsNamed f z v1 a =
    Then-bind IsNamed (read_counts f) _
      (λ c. Then-if IsNamed (is_handled (c.0)) _ _ (read_data-IsNamed (c.1) z (c.0) v1 a) tt)

read_version2-IsNamed :
    (f : File) (c : Counts) (z : Data) → IsNamed z → Then IsNamed (read_version2 f c z)
unfolding read_version2
read_version2-IsNamed f c z a = Then-bind IsNamed (block_size c) _ (λ size.
    Then-bind IsNamed (read_bytes (pos 4) _) _
      (λ h. Then-assert IsNamed (same_bytes (h.0) magic) _ (read_data_block-IsNamed _ z false a)))

read_time_zone_file-IsNamed :
    (contents : Option (List ℕ)) (z : Data)
    → IsNamed z
    → Then IsNamed (read_time_zone_file contents z)
unfolding read_time_zone_file
read_time_zone_file-IsNamed contents z a = Then-bind IsNamed contents _ (λ bytes.
    Then-bind IsNamed (read_bytes (pos 4) _) _ (λ h.
      Then-assert IsNamed (same_bytes (h.0) magic) _ (
        Then-bind IsNamed (read_bytes (pos 1) _) _ (λ v.
          Then-bind IsNamed (read_bytes (pos 15) _) _ (λ r.
            Then-bind IsNamed (read_counts _) _ (λ c.
              Then-if IsNamed (same_bytes (v.0) _) _ _ (read_version2-IsNamed _ _ z a)
                (read_data_block-IsNamed _ z true a)))))))

-- In the data of a zone that is loaded, each transition names a local time, whose offset its local
-- seconds have.
pub load_zone_file-IsNamed :
    (contents : Option (List ℕ)) → Then IsNamed (load_zone_file contents).zone_data
unfolding load_zone_file
load_zone_file-IsNamed contents = read_time_zone_file-IsNamed contents empty_data tt
