-- ===== src/Timers/Reset.antt =====
-- `reset`: the timers that have run are put in again, or deleted.
use rfcs.Common.{
  ℕ, ◌+◌, ◌<◌, ◌≡◌, ◌≢◌, ℕ_discrete, refl, sym, ◌∙◌, Bool, true, false, not, ◌&&◌, [], ◌∷◌, Option,
  some, none, arith, subst, Bool-cases, Option-cases, inl, inr, ◌⊎◌,
}
use rfcs.Timers.Sets.{PairSet, has, has-insert}
use rfcs.Timers.Queue.{Timer, TimerQueue, max_address, store, restart, reset_timer, reset_timers}
use rfcs.Timers.Sound.{
  Sound, Free, Free-loose, loose_ok, mentions, inserted, insert-Sound, insert_timer-returns,
  store-Sound, sequence_at,
}

-- Whether the timer at an address is to run again.
abbrev pub runs_again : TimerQueue → ℕ → Bool
runs_again q p = elim (q.heap p) [
  | none ↦ false
  | some t ↦ t.repeat && not (has p t.sequence q.canceling)
]

abbrev pub next_time : ℕ → TimerQueue → ℕ → ℕ
next_time now q p = elim (q.heap p) [ none ↦ 0 | some t ↦ now + t.interval ]

-- What `reset` returns: a timer at another address is as it was, one that runs again waits in both sets for its
-- next time, and the others have been deleted.
pub record Resets (now : ℕ) (q : TimerQueue) (out : PairSet) (r : Option TimerQueue) : Type 0 where
  pub after : TimerQueue
  pub returns : r ≡ some after
  pub sound : Sound after []
  pub others :
      (p sequence : ℕ)
      → mentions p out ≡ false
      → (after.heap p ≡ q.heap p) × (has p sequence after.active ≡ has p sequence q.active)
  pub again :
      (p : ℕ)
      → mentions p out ≡ true
      → runs_again q p ≡ true
      → (has (next_time now q p) p after.timers ≡ true)
        × (has p (sequence_at q p) after.active ≡ true)
  pub gone : (p : ℕ) → mentions p out ≡ true → runs_again q p ≡ false → after.heap p ≡ none

loose_cases :
    (q : TimerQueue) (when p : ℕ)
    → loose_ok q when p ≡ true
    → (t : Timer) × (q.heap p ≡ some t) × (has p t.sequence q.active ≡ false) × (p < max_address)
loose_cases q when p h = by_timer (Option-cases (q.heap p))
  where
    by_timer :
        (q.heap p ≡ none) ⊎ ((t : Timer) × (q.heap p ≡ some t))
        → (t : Timer) × (q.heap p ≡ some t)
          × (has p t.sequence q.active ≡ false)
          × (p < max_address)
    by_timer (inl e) = ground (arith, e, h)
    by_timer (inr (t, e)) = (t, e, ground (arith, e, h), ground (arith, e, h))

tail-Sound : (q : TimerQueue) (when p : ℕ) (out : PairSet) → Sound q ((when, p) ∷ out) → Sound q out
tail-Sound q when p out s = record {
  timers_sorted = s.timers_sorted;
  active_sorted = s.active_sorted;
  same_size = s.same_size;
  entries = s.entries;
  actives = s.actives;
  loose = s.loose.2;
}

-- What one round of the loop does to the timer at its address.
abbrev put_again : ℕ → ℕ → Timer → TimerQueue → TimerQueue
put_again now p t q = inserted p (restart now t) (store p (some (restart now t)) q)

module _ (now : ℕ) (q : TimerQueue) (when p : ℕ) (out : PairSet) (t : Timer) (valid : 0 < now)
    (s : Sound q ((when, p) ∷ out)) (e : q.heap p ≡ some t)
    (idle : has p t.sequence q.active ≡ false) (small : p < max_address) where
  free : Free q p
  free = Free-loose q ((when, p) ∷ out) p t s e idle

  stored-Sound : (o : Option Timer) → Sound (store p o q) out
  stored-Sound o = store-Sound q out p o (tail-Sound q when p out s) free s.loose.1

  again-Sound : t.repeat ≡ true → Sound (put_again now p t q) out
  again-Sound h =
      insert-Sound (store p (some (restart now t)) q) out p (restart now t)
        (stored-Sound (some (restart now t)))
        (record { no_entry = free.no_entry; no_active = free.no_active }) s.loose.1 (ground arith)
        small (ground (arith, h))

  reset_timer_again : runs_again q p ≡ true → reset_timer now p q ≡ some (put_again now p t q)
  unfolding reset_timer
  reset_timer_again h =
      let r =
        insert_timer-returns (store p (some (restart now t)) q) out p (restart now t)
          (stored-Sound (some (restart now t)))
          (record { no_entry = free.no_entry; no_active = free.no_active }) (ground arith) in
      ground (arith, e, h, r)

  reset_timer_gone : runs_again q p ≡ false → reset_timer now p q ≡ some (store p none q)
  unfolding reset_timer
  reset_timer_gone h = ground (arith, e, h)

reset_timers-step :
    (now when p : ℕ) (out : PairSet) (q q' : TimerQueue)
    → reset_timer now p q ≡ some q'
    → reset_timers now ((when, p) ∷ out) q ≡ reset_timers now out q'
unfolding reset_timers
reset_timers-step now when p out q q' e = rw e refl

-- Behind a first round that puts the timer in again.
module _ (now : ℕ) (q : TimerQueue) (when p : ℕ) (out : PairSet) (t : Timer) (e : q.heap p ≡ some t)
    (once : mentions p out ≡ false) (h : runs_again q p ≡ true)
    (r : Resets now (put_again now p t q) out (reset_timers now out (put_again now p t q))) where
  again_here :
      (has (next_time now q p) p r.after.timers ≡ true)
      × (has p (sequence_at q p) r.after.active ≡ true)
  again_here =
      let (heap_is, active_is) = r.others p t.sequence once in
      let there : has p t.sequence r.after.active ≡ true =
        active_is ∙ ground (arith, has-insert p t.sequence p t.sequence q.active) in
      let ok = r.sound.actives p t.sequence there in
      (ground (arith, e, heap_is, ok, h), ground (arith, e, there))

  again_rest :
      (p' : ℕ)
      → p' ≢ p
      → mentions p' out ≡ true
      → runs_again q p' ≡ true
      → (has (next_time now q p') p' r.after.timers ≡ true)
        × (has p' (sequence_at q p') r.after.active ≡ true)
  again_rest p' n m k = ground (arith, r.again p' m)

  put_again-Resets :
      reset_timer now p q ≡ some (put_again now p t q)
      → Resets now q ((when, p) ∷ out) (reset_timers now ((when, p) ∷ out) q)
  put_again-Resets step = record {
    after = r.after;
    returns = reset_timers-step now when p out q (put_again now p t q) step ∙ r.returns;
    sound = r.sound;
    others = λ p' n m. ground (arith, r.others p' n, has-insert p' n p t.sequence q.active);
    again = λ p' m k. elim (ℕ_discrete p' p) [
      | yes same ↦
          subst
            (λ a.
              (has (next_time now q a) a r.after.timers ≡ true)
              × (has a (sequence_at q a) r.after.active ≡ true))
            (sym same) again_here
      | no n ↦ again_rest p' n (ground arith) k
    ];
    gone = λ p' m k. elim (ℕ_discrete p' p) [
      | yes same ↦ ground (arith, h, subst (λ a. runs_again q a ≡ false) same k)
      | no n ↦ ground (arith, r.gone p')
    ];
  }

-- Behind a first round that deletes the timer.
module _ (now : ℕ) (q : TimerQueue) (when p : ℕ) (out : PairSet) (once : mentions p out ≡ false)
    (h : runs_again q p ≡ false)
    (r : Resets now (store p none q) out (reset_timers now out (store p none q))) where
  again_other :
      (p' : ℕ)
      → p' ≢ p
      → mentions p' out ≡ true
      → runs_again q p' ≡ true
      → (has (next_time now q p') p' r.after.timers ≡ true)
        × (has p' (sequence_at q p') r.after.active ≡ true)
  again_other p' n m k = ground (arith, r.again p' m)

  deleted-Resets :
      reset_timer now p q ≡ some (store p none q)
      → Resets now q ((when, p) ∷ out) (reset_timers now ((when, p) ∷ out) q)
  deleted-Resets step = record {
    after = r.after;
    returns = reset_timers-step now when p out q (store p none q) step ∙ r.returns;
    sound = r.sound;
    others = λ p' n m. ground (arith, r.others p' n);
    again = λ p' m k. elim (ℕ_discrete p' p) [
      | yes same ↦ ground (arith, h, subst (λ a. runs_again q a ≡ true) same k)
      | no n ↦ again_other p' n (ground arith) k
    ];
    gone = λ p' m k. elim (ℕ_discrete p' p) [
      | yes same ↦
          subst (λ a. r.after.heap a ≡ none) (sym same) (ground (arith, (r.others p 0 once).0))
      | no n ↦ ground (arith, r.gone p')
    ];
  }

-- `reset` up to its last part, for the timers that are out: no assertion fails.
pub reset_timers-Resets :
    (now : ℕ) (out : PairSet) (q : TimerQueue)
    → 0 < now
    → Sound q out
    → Resets now q out (reset_timers now out q)
unfolding reset_timers
reset_timers-Resets now [] q valid s = record {
  after = q;
  returns = refl;
  sound = s;
  others = λ p n m. (refl, refl);
  again = λ p m k. ground arith;
  gone = λ p m k. ground arith;
}
reset_timers-Resets now ((when, p) ∷ out) q valid s =
    let (t, e, idle, small) = loose_cases q when p s.loose.0 in
    by_case t e idle small (Bool-cases (runs_again q p))
      (λ h. reset_timers-Resets now out (put_again now p t q) valid h)
      (λ h. reset_timers-Resets now out (store p none q) valid h)
  where
    by_case :
        (t : Timer)
        → q.heap p ≡ some t
        → has p t.sequence q.active ≡ false
        → p < max_address
        → (runs_again q p ≡ true) ⊎ (runs_again q p ≡ false)
        → (Sound (put_again now p t q) out
            → Resets now (put_again now p t q) out (reset_timers now out (put_again now p t q)))
        → (Sound (store p none q) out
            → Resets now (store p none q) out (reset_timers now out (store p none q)))
        → Resets now q ((when, p) ∷ out) (reset_timers now ((when, p) ∷ out) q)
    by_case t e idle small (inl h) again gone =
        put_again-Resets now q when p out t e s.loose.1 h
          (again (again-Sound now q when p out t valid s e idle small (ground (arith, e, h))))
          (reset_timer_again now q when p out t valid s e idle small h)
    by_case t e idle small (inr h) again gone =
        deleted-Resets now q when p out s.loose.1 h
          (gone (stored-Sound now q when p out t valid s e idle small none))
          (reset_timer_gone now q when p out t valid s e idle small h)
