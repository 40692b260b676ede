-- ===== src/Timers/Erase.antt =====
-- A timer taken out of the sets: what the others keep.
use rfcs.Common.{
  ℕ, ◌<◌, ◌≡◌, ◌≢◌, ℕ_discrete, refl, sym, ◌∙◌, Bool, true, false, [], ◌∷◌, Option, some, none,
  if◌then◌else◌, arith, subst,
}
use rfcs.Timers.Sets.{PairSet, IsSorted, has, erase, has-erase, erase-IsSorted, length-erase}
use rfcs.Timers.Queue.{
  Timer, TimerQueue, max_address, store, earliest_changed, add_timer_in_loop, reset_timerfd,
}
use rfcs.Timers.Sound.{
  Sound, Free, Loose, loose_ok, mentions, inserted, insert-Sound, insert_timer-returns, sequence_at,
  expiration_at,
}

-- A call that returns a queue in order, with these timers out of the sets and as they were.
pub record Keeps (q : TimerQueue) (r : Option TimerQueue) (out : PairSet) : Type 0 where
  pub after : TimerQueue
  pub returns : r ≡ some after
  pub sound : Sound after out
  pub kept : (p : ℕ) → mentions p out ≡ true → after.heap p ≡ q.heap p

others-Loose :
    (q : TimerQueue) (out c : PairSet) (b : Bool) (n : ℕ) (o : Option ℕ)
    → Loose q out
    → Loose (record q { canceling = c; calling_expired = b; num_created = n; armed = o }) out
others-Loose q [] c b n o l = tt
others-Loose q ((when, p) ∷ out) c b n o (h, once, l) = (h, once, others-Loose q out c b n o l)

-- The other fields may change.
pub others-Sound :
    (q : TimerQueue) (out c : PairSet) (b : Bool) (n : ℕ) (o : Option ℕ)
    → Sound q out
    → Sound (record q { canceling = c; calling_expired = b; num_created = n; armed = o }) out
others-Sound q out c b n o s = record {
  timers_sorted = s.timers_sorted;
  active_sorted = s.active_sorted;
  same_size = s.same_size;
  entries = s.entries;
  actives = s.actives;
  loose = others-Loose q out c b n o s.loose;
}

armed-if-Sound :
    (q : TimerQueue) (out : PairSet) (b : Bool) (n : ℕ)
    → Sound q out
    → Sound (if b then reset_timerfd n q else q) out
armed-if-Sound q out true n s =
    others-Sound q out q.canceling q.calling_expired q.num_created (some n) s
armed-if-Sound q out false n s = s

pub add_timer_in_loop-Keeps :
    (q : TimerQueue) (out : PairSet) (p : ℕ) (t : Timer)
    → Sound q out
    → Free q p
    → mentions p out ≡ false
    → q.heap p ≡ some t
    → p < max_address
    → 0 < t.expiration
    → Keeps q (add_timer_in_loop p q) out
unfolding add_timer_in_loop
add_timer_in_loop-Keeps q out p t s f m e small valid = record {
  after =
      if earliest_changed t.expiration q.timers
      then reset_timerfd t.expiration (inserted p t q)
      else inserted p t q;
  returns = rw (insert_timer-returns q out p t s f e, e) refl;
  sound =
      armed-if-Sound (inserted p t q) out (earliest_changed t.expiration q.timers) t.expiration
        (insert-Sound q out p t s f m e small valid);
  kept = λ p' h. ground arith;
}

-- `cancelInLoop` on a timer that waits.
abbrev pub erased : ℕ → ℕ → ℕ → TimerQueue → TimerQueue
erased when p sequence q =
    store p none (record q { timers = erase when p q.timers; active = erase p sequence q.active })

loose_waits_not :
    (q : TimerQueue) (when p : ℕ)
    → loose_ok q when p ≡ true
    → has p (sequence_at q p) q.active ≡ false
loose_waits_not q when p h = ground arith

pub true-ne-false : true ≢ false
true-ne-false e = cc

-- A timer that waits is at no address of the timers that are out.
pub not_mentioned :
    (q : TimerQueue) (out : PairSet) (p : ℕ)
    → has p (sequence_at q p) q.active ≡ true
    → Loose q out
    → mentions p out ≡ false
not_mentioned q [] p h l = refl
not_mentioned q ((when, p') ∷ out) p h (k, once, l) = elim (ℕ_discrete p p') [
  | yes e ↦ absurd (
      true-ne-false
        (sym h ∙ loose_waits_not q when p (subst (λ a. loose_ok q when a ≡ true) (sym e) k)))
  | no n ↦ ground (arith, not_mentioned q out p h l)
]

erased-Loose :
    (q : TimerQueue) (out : PairSet) (when p sequence : ℕ)
    → IsSorted q.active
    → mentions p out ≡ false
    → Loose q out
    → Loose (erased when p sequence q) out
erased-Loose q [] when p sequence a m l = tt
erased-Loose q ((when', p') ∷ out) when p sequence a m (h, once, l) = (
  ground (arith, has-erase p' (sequence_at q p') p sequence q.active a),
  once,
  erased-Loose q out when p sequence a (ground arith) l,
)

pub erased-Sound :
    (q : TimerQueue) (out : PairSet) (p : ℕ) (t : Timer)
    → Sound q out
    → q.heap p ≡ some t
    → has p t.sequence q.active ≡ true
    → Sound (erased t.expiration p t.sequence q) out
erased-Sound q out p t s e h =
    let there : has t.expiration p q.timers ≡ true = ground (arith, s.actives p t.sequence h, e) in
    record {
      timers_sorted = erase-IsSorted t.expiration p q.timers s.timers_sorted;
      active_sorted = erase-IsSorted p t.sequence q.active s.active_sorted;
      same_size = omega (
        arith,
        s.same_size,
        length-erase t.expiration p q.timers there,
        length-erase p t.sequence q.active h,
      );
      entries = λ when p' k. ground (
        arith,
        s.entries when p',
        e,
        has-erase when p' t.expiration p q.timers s.timers_sorted,
        has-erase p' (sequence_at q p') p t.sequence q.active s.active_sorted,
      );
      actives = λ p' sequence k. ground (
        arith,
        s.actives p' sequence,
        e,
        has-erase p' sequence p t.sequence q.active s.active_sorted,
        has-erase (expiration_at q p') p' t.expiration p q.timers s.timers_sorted,
      );
      loose =
          erased-Loose q out t.expiration p t.sequence s.active_sorted
            (not_mentioned q out p (ground (arith, e, h)) s.loose) s.loose;
    }
