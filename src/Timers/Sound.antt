-- ===== src/Timers/Sound.antt =====
-- What holds of a timer queue between the calls of its loop, and while the expired timers run.
use rfcs.Common.{
  ℕ, ◌<◌, ◌≡◌, Bool, true, false, not, ◌&&◌, ◌||◌, [], ◌∷◌, Option, some, none, ltb, ◌==◌, length,
  arith,
}
use rfcs.Timers.Sets.{PairSet, IsSorted, has, insert, has-insert, insert-IsSorted, length-insert}
use rfcs.Timers.Queue.{Timer, TimerQueue, max_address, store, insert_timer, earliest_changed}

-- The entry is that of a timer which may be cancelled, at a valid time and address.
abbrev pub entry_ok : TimerQueue → ℕ → ℕ → Bool
entry_ok q when p = elim (q.heap p) [
  | none ↦ false
  | some t ↦ (t.expiration == when) && has p t.sequence q.active && ltb p max_address && ltb 0 when
]

-- The timer is there, is this one, and waits for its expiration.
abbrev pub active_ok : TimerQueue → ℕ → ℕ → Bool
active_ok q p sequence = elim (q.heap p) [
  | none ↦ false
  | some t ↦ (t.sequence == sequence) && has t.expiration p q.timers
]

-- The timer is there and is in neither set.
abbrev pub loose_ok : TimerQueue → ℕ → ℕ → Bool
loose_ok q when p = elim (q.heap p) [
  | none ↦ false
  | some t ↦ (t.expiration == when) && not (has p t.sequence q.active) && ltb p max_address
]

-- The fields of the timer at an address, for the lemmas that need its numbers.
abbrev pub sequence_at : TimerQueue → ℕ → ℕ
sequence_at q p = elim (q.heap p) [ none ↦ 0 | some t ↦ t.sequence ]

abbrev pub expiration_at : TimerQueue → ℕ → ℕ
expiration_at q p = elim (q.heap p) [ none ↦ 0 | some t ↦ t.expiration ]

abbrev pub mentions : ℕ → PairSet → Bool
mentions p [] = false
mentions p ((when, p') ∷ s) = (p == p') || mentions p s

-- Each address is there once, and each entry passes the test.
abbrev pub Each : (ℕ → ℕ → Bool) → PairSet → Type 0
Each f [] = Unit {0}
Each f ((when, p) ∷ s) = (f when p ≡ true) × (mentions p s ≡ false) × Each f s

-- Timers that have been taken out of the sets, each once.
abbrev pub Loose : TimerQueue → PairSet → Type 0
Loose q s = Each (loose_ok q) s

pub record Sound (q : TimerQueue) (out : PairSet) : Type 0 where
  pub timers_sorted : IsSorted q.timers
  pub active_sorted : IsSorted q.active
  pub same_size : length q.timers ≡ length q.active
  pub entries : (when p : ℕ) → has when p q.timers ≡ true → entry_ok q when p ≡ true
  pub actives : (p sequence : ℕ) → has p sequence q.active ≡ true → active_ok q p sequence ≡ true
  pub loose : Loose q out

-- An address that neither set mentions.
pub record Free (q : TimerQueue) (p : ℕ) : Type 0 where
  pub no_entry : (when : ℕ) → has when p q.timers ≡ false
  pub no_active : (sequence : ℕ) → has p sequence q.active ≡ false

pub Free-none : (q : TimerQueue) (out : PairSet) (p : ℕ) → Sound q out → q.heap p ≡ none → Free q p
Free-none q out p s e = record {
  no_entry = λ when. ground (arith, s.entries when p, e);
  no_active = λ sequence. ground (arith, s.actives p sequence, e);
}

pub Free-loose :
    (q : TimerQueue) (out : PairSet) (p : ℕ) (t : Timer)
    → Sound q out
    → q.heap p ≡ some t
    → has p t.sequence q.active ≡ false
    → Free q p
Free-loose q out p t s e h = record {
  no_entry = λ when. ground (arith, s.entries when p, e);
  no_active = λ sequence. ground (arith, s.actives p sequence, e);
}

-- Other objects may change.
store-Loose :
    (q : TimerQueue) (p : ℕ) (o : Option Timer) (out : PairSet)
    → mentions p out ≡ false
    → Loose q out
    → Loose (store p o q) out
store-Loose q p o [] m l = tt
store-Loose q p o ((when, p') ∷ out) m (h, once, l) =
    (ground arith, once, store-Loose q p o out (ground arith) l)

pub store-Sound :
    (q : TimerQueue) (out : PairSet) (p : ℕ) (o : Option Timer)
    → Sound q out
    → Free q p
    → mentions p out ≡ false
    → Sound (store p o q) out
store-Sound q out p o s f m = record {
  timers_sorted = s.timers_sorted;
  active_sorted = s.active_sorted;
  same_size = s.same_size;
  entries = λ when p' h. ground (arith, s.entries when p' h, f.no_entry when);
  actives = λ p' sequence h. ground (arith, s.actives p' sequence h, f.no_active sequence);
  loose = store-Loose q p o out m s.loose;
}

abbrev pub inserted : ℕ → Timer → TimerQueue → TimerQueue
inserted p t q = record q {
  timers = insert t.expiration p q.timers;
  active = insert p t.sequence q.active;
}

insert-Loose :
    (q : TimerQueue) (p : ℕ) (t : Timer) (out : PairSet)
    → mentions p out ≡ false
    → Loose q out
    → Loose (inserted p t q) out
insert-Loose q p t [] m l = tt
insert-Loose q p t ((when, p') ∷ out) m (h, once, l) = (
  ground (arith, has-insert p' (sequence_at q p') p t.sequence q.active),
  once,
  insert-Loose q p t out (ground arith) l,
)

pub insert-Sound :
    (q : TimerQueue) (out : PairSet) (p : ℕ) (t : Timer)
    → Sound q out
    → Free q p
    → mentions p out ≡ false
    → q.heap p ≡ some t
    → p < max_address
    → 0 < t.expiration
    → Sound (inserted p t q) out
insert-Sound q out p t s f m e small valid = record {
  timers_sorted = insert-IsSorted t.expiration p q.timers s.timers_sorted;
  active_sorted = insert-IsSorted p t.sequence q.active s.active_sorted;
  same_size = omega (
    arith,
    s.same_size,
    length-insert t.expiration p q.timers (f.no_entry t.expiration),
    length-insert p t.sequence q.active (f.no_active t.sequence),
  );
  entries = λ when p' h. ground (
    arith,
    s.entries when p',
    e,
    has-insert when p' t.expiration p q.timers,
    has-insert p' (sequence_at q p') p t.sequence q.active,
  );
  actives = λ p' sequence h. ground (
    arith,
    s.actives p' sequence,
    e,
    has-insert p' sequence p t.sequence q.active,
    has-insert (expiration_at q p') p' t.expiration p q.timers,
  );
  loose = insert-Loose q p t out m s.loose;
}

pub insert_timer-returns :
    (q : TimerQueue) (out : PairSet) (p : ℕ) (t : Timer)
    → Sound q out
    → Free q p
    → q.heap p ≡ some t
    → insert_timer p q ≡ some (earliest_changed t.expiration q.timers, inserted p t q)
unfolding insert_timer
insert_timer-returns q out p t s f e = ground (
  arith,
  e,
  f.no_entry t.expiration,
  f.no_active t.sequence,
  length-insert t.expiration p q.timers,
  length-insert p t.sequence q.active,
)
