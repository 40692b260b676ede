-- ===== src/TimeZone/Moderate.antt =====
-- Data of a zone whose seconds keep clear of the ends of `int64_t`, for muduo/base/TimeZone.cc.
use rfcs.Common.{ℕ, zero, suc, ◌≡◌, refl, Bool, true, ◌&&◌, List, [], ◌∷◌, some, get_elem?, arith}
use rfcs.Common.Int.{ℤ, pos, negsuc, ◌+ℤ◌, ◌-ℤ◌, ◌≤ℤ◌, ◌<ℤ◌, in_word, add_int64, sub_int64}
use rfcs.TimeZone.{Transition, LocalTime, Data, at}
use rfcs.TimeZone.Clock.{InRange}
use rfcs.TimeZone.Lookup.{transition, prior_second}

abbrev pub in_int : ℤ → Bool
in_int v = in_word 2147483648 v

-- 2 ^ 62
abbrev pub in_half : ℤ → Bool
in_half v = in_word 4611686018427387904 v

abbrev pub all_times : List Transition → Bool
all_times [] = true
all_times (x ∷ xs) = in_half x.utctime && all_times xs

abbrev pub all_offsets : List LocalTime → Bool
all_offsets [] = true
all_offsets (x ∷ xs) = in_int x.utc_offset && all_offsets xs

-- The moments of the transitions are within 2 ^ 62 seconds, and the offsets are values of `int32_t`.
abbrev pub is_moderate : Data → Bool
is_moderate z = all_times z.transitions && all_offsets z.localtimes

all_times-at :
    (xs : List Transition) (i : ℕ) (x : Transition)
    → all_times xs ≡ true
    → get_elem? xs i ≡ some x
    → in_half x.utctime ≡ true
all_times-at [] i x a g = cc
all_times-at (y ∷ xs) zero x a g = ground arith
all_times-at (y ∷ xs) (suc i) x a g = all_times-at xs i x (ground arith) g

all_offsets-get :
    (xs : List LocalTime) (i : ℕ) (x : LocalTime)
    → all_offsets xs ≡ true
    → get_elem? xs i ≡ some x
    → in_int x.utc_offset ≡ true
all_offsets-get [] i x a g = cc
all_offsets-get (y ∷ xs) zero x a g = ground arith
all_offsets-get (y ∷ xs) (suc i) x a g = all_offsets-get xs i x (ground arith) g

all_offsets-at :
    (xs : List LocalTime) (i : ℤ) (x : LocalTime)
    → all_offsets xs ≡ true
    → at xs i ≡ some x
    → in_int x.utc_offset ≡ true
all_offsets-at xs (pos i) x a g = all_offsets-get xs i x a g
all_offsets-at xs (negsuc i) x a g = cc

sub_one : (u : ℤ) → in_half u ≡ true → sub_int64 u (pos 1) ≡ some (u -ℤ pos 1)
unfolding sub_int64 ◌-ℤ◌
sub_one (pos u) h = ground arith
sub_one (negsuc u) h = ground arith

add_offset :
    (u o : ℤ)
    → in_half u ≡ true
    → in_int o ≡ true
    → add_int64 (u -ℤ pos 1) o ≡ some (u -ℤ pos 1 +ℤ o)
unfolding add_int64 ◌-ℤ◌ ◌+ℤ◌
add_offset (pos u) (pos o) h k = ground arith
add_offset (pos u) (negsuc o) h k = ground arith
add_offset (negsuc u) (pos o) h k = ground arith
add_offset (negsuc u) (negsuc o) h k = ground arith

pub add_int64-InRange : (t o : ℤ) → InRange (t +ℤ o) → add_int64 t o ≡ some (t +ℤ o)
unfolding add_int64
add_int64-InRange t o r = ground (arith, r.late, r.early)

pub +ℤ--ℤ : (t o : ℤ) → t +ℤ o -ℤ o ≡ t
unfolding ◌+ℤ◌ ◌-ℤ◌
+ℤ--ℤ (pos t) o = ground arith
+ℤ--ℤ (negsuc t) o = ground arith

within_word : (t o : ℤ) → InRange (t +ℤ o) → in_int o ≡ true → in_word 9223372036854775808 t ≡ true
unfolding ◌+ℤ◌
within_word (pos t) (pos o) r h = ground (arith, r.late, r.early)
within_word (pos t) (negsuc o) r h = ground (arith, r.late, r.early)
within_word (negsuc t) (pos o) r h = ground (arith, r.late, r.early)
within_word (negsuc t) (negsuc o) r h = ground (arith, r.late, r.early)

pub sub_int64-back : (t o : ℤ) → InRange (t +ℤ o) → in_int o ≡ true → sub_int64 (t +ℤ o) o ≡ some t
unfolding sub_int64
sub_int64-back t o r h = rw (+ℤ--ℤ t o, within_word t o r h) refl

-- The second and all that are an `int` of seconds from it are those `BreakTime` handles.
pub record IsClear (t : ℤ) : Type 0 where
  pub late : negsuc 60014551551 ≤ℤ t
  pub early : t <ℤ pos 46169863908353

pub IsClear-InRange : (t o : ℤ) → IsClear t → in_int o ≡ true → InRange (t +ℤ o)
unfolding ◌+ℤ◌
IsClear-InRange (pos t) (pos o) c h = record {
  late = ground (arith, c.late, c.early);
  early = ground (arith, c.late, c.early);
}
IsClear-InRange (pos t) (negsuc o) c h = record {
  late = ground (arith, c.late, c.early);
  early = ground (arith, c.late, c.early);
}
IsClear-InRange (negsuc t) (pos o) c h = record {
  late = ground (arith, c.late, c.early);
  early = ground (arith, c.late, c.early);
}
IsClear-InRange (negsuc t) (negsuc o) c h = record {
  late = ground (arith, c.late, c.early);
  early = ground (arith, c.late, c.early);
}

pub sub_int64-InRange : (l o : ℤ) → InRange l → in_int o ≡ true → sub_int64 l o ≡ some (l -ℤ o)
unfolding sub_int64 ◌-ℤ◌
sub_int64-InRange (pos l) (pos o) r h = ground (arith, r.late, r.early)
sub_int64-InRange (pos l) (negsuc o) r h = ground (arith, r.late, r.early)
sub_int64-InRange (negsuc l) (pos o) r h = ground (arith, r.late, r.early)
sub_int64-InRange (negsuc l) (negsuc o) r h = ground (arith, r.late, r.early)

module _ (z : Data) (m : is_moderate z ≡ true) where
  times : all_times z.transitions ≡ true
  times = ground arith

  offsets : all_offsets z.localtimes ≡ true
  offsets = ground arith

  pub moderate-offset :
      (i : ℤ) (lt : LocalTime) → at z.localtimes i ≡ some lt → in_int lt.utc_offset ≡ true
  moderate-offset i lt e = all_offsets-at z.localtimes i lt offsets e

  pub prior_second-eq :
      (i : ℕ) (cur next : Transition) (lt : LocalTime)
      → transition z i ≡ some next
      → at z.localtimes cur.localtime_idx ≡ some lt
      → prior_second z i cur ≡ some (next.utctime -ℤ pos 1 +ℤ lt.utc_offset)
  unfolding prior_second
  prior_second-eq i cur next lt g f =
      let time = all_times-at z.transitions i next times g in
      let offset = moderate-offset cur.localtime_idx lt f in
      rw (g, f, sub_one next.utctime time, add_offset next.utctime lt.utc_offset time offset) refl
