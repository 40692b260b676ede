-- ===== src/Timers/Calls.antt =====
-- The calls of a timer queue: a timer is added, and one is cancelled.
use rfcs.Common.{
  ℕ, ◌+◌, ◌<◌, ◌≡◌, ℕ_discrete, refl, sym, ◌∙◌, Bool, true, false, [], ◌∷◌, Option, some, none,
  if◌then◌else◌, arith, subst, Bool-cases, Option-cases, inl, inr, ◌⊎◌,
}
use rfcs.Timers.Sets.{PairSet, has, insert, has-insert, has-erase, length-erase}
use rfcs.Timers.Queue.{Timer, TimerQueue, max_address, store, add_timer, cancel_in_loop}
use rfcs.Timers.Sound.{Sound, Free-none, Loose, loose_ok, mentions, store-Sound}
use rfcs.Timers.Erase.{
  Keeps, others-Sound, add_timer_in_loop-Keeps, erased, true-ne-false, not_mentioned, erased-Sound,
}

active_cases :
    (q : TimerQueue) (out : PairSet) (p sequence : ℕ)
    → Sound q out
    → has p sequence q.active ≡ true
    → (t : Timer) × (q.heap p ≡ some t) × (t.sequence ≡ sequence)
active_cases q out p sequence s h = by_timer (Option-cases (q.heap p))
  where
    by_timer :
        (q.heap p ≡ none) ⊎ ((t : Timer) × (q.heap p ≡ some t))
        → (t : Timer) × (q.heap p ≡ some t) × (t.sequence ≡ sequence)
    by_timer (inl e) = absurd (true-ne-false (ground (arith, e, s.actives p sequence h)))
    by_timer (inr (t, e)) = (t, e, ground (arith, e, s.actives p sequence h))

cancel_waiting :
    (q : TimerQueue) (out : PairSet) (p sequence : ℕ) (t : Timer)
    → Sound q out
    → q.heap p ≡ some t
    → t.sequence ≡ sequence
    → has p sequence q.active ≡ true
    → cancel_in_loop (p, sequence) q ≡ some (erased t.expiration p sequence q)
unfolding cancel_in_loop
cancel_waiting q out p sequence t s e same h =
    let there : has t.expiration p q.timers ≡ true = ground (arith, s.actives p sequence h, e) in
    ground (
      arith,
      s.same_size,
      e,
      there,
      length-erase t.expiration p q.timers there,
      length-erase p sequence q.active h,
    )

cancel_other :
    (q : TimerQueue) (out : PairSet) (p sequence : ℕ)
    → Sound q out
    → has p sequence q.active ≡ false
    → cancel_in_loop (p, sequence) q
      ≡ some
          (if q.calling_expired then record q { canceling = insert p sequence q.canceling } else q)
unfolding cancel_in_loop
cancel_other q out p sequence s h = ground (arith, s.same_size)

other-Sound :
    (q : TimerQueue) (out c : PairSet) (b : Bool)
    → Sound q out
    → Sound (if b then record q { canceling = c } else q) out
other-Sound q out c true s = others-Sound q out c q.calling_expired q.num_created q.armed s
other-Sound q out c false s = s

kept_others :
    (q : TimerQueue) (out : PairSet) (p p' : ℕ) (o : Option Timer)
    → mentions p' out ≡ true
    → mentions p out ≡ false
    → (store p o q).heap p' ≡ q.heap p'
kept_others q out p p' o k m = elim (ℕ_discrete p p') [
  | yes e ↦ absurd (true-ne-false (sym k ∙ subst (λ a. mentions a out ≡ false) e m))
  | no n ↦ ground arith
]

-- `cancel` in the loop's thread, of any timer that is or was there: no assertion fails.
pub cancel_in_loop-Keeps :
    (q : TimerQueue) (out : PairSet) (id : ℕ × ℕ) → Sound q out → Keeps q (cancel_in_loop id q) out
cancel_in_loop-Keeps q out (p, sequence) s = by_case (Bool-cases (has p sequence q.active))
  where
    by_case :
        (has p sequence q.active ≡ true) ⊎ (has p sequence q.active ≡ false)
        → Keeps q (cancel_in_loop (p, sequence) q) out
    by_case (inl h) =
        let (t, e, same) = active_cases q out p sequence s h in
        record {
          after = erased t.expiration p sequence q;
          returns = cancel_waiting q out p sequence t s e same h;
          sound =
              subst (λ n. Sound (erased t.expiration p n q) out) same
                (erased-Sound q out p t s e (subst (λ n. has p n q.active ≡ true) (sym same) h));
          kept = λ p' k.
              kept_others q out p p' none k
                (not_mentioned q out p (ground (arith, e, h, same)) s.loose);
        }
    by_case (inr h) = record {
      after =
          if q.calling_expired then record q { canceling = insert p sequence q.canceling } else q;
      returns = cancel_other q out p sequence s h;
      sound = other-Sound q out (insert p sequence q.canceling) q.calling_expired s;
      kept = λ p' k. ground arith;
    }

nothing_mentioned :
    (q : TimerQueue) (out : PairSet) (p : ℕ)
    → q.heap p ≡ none
    → Loose q out
    → mentions p out ≡ false
nothing_mentioned q [] p e l = refl
nothing_mentioned q ((when, p') ∷ out) p e (k, once, l) = elim (ℕ_discrete p p') [
  | yes same ↦ absurd (
      true-ne-false
        (sym (subst (λ a. loose_ok q when a ≡ true) (sym same) k) ∙ loose_none q when p e))
  | no n ↦ ground (arith, nothing_mentioned q out p e l)
]
  where
    loose_none : (q : TimerQueue) (when p : ℕ) → q.heap p ≡ none → loose_ok q when p ≡ false
    loose_none q when p e = ground (arith, e)

-- `addTimer` at a free address, for a valid time: no assertion fails, and the id is a new one.
pub add_timer-Keeps :
    (q : TimerQueue) (out : PairSet) (address callback when interval : ℕ) (repeat : Bool)
    → Sound q out
    → q.heap address ≡ none
    → address < max_address
    → 0 < when
    → (after : TimerQueue) × (add_timer address callback when interval repeat q
        ≡ some ((address, q.num_created + 1), after))
      × Sound after out
      × ((p : ℕ) → mentions p out ≡ true → after.heap p ≡ q.heap p)
unfolding add_timer
add_timer-Keeps q out address callback when interval repeat s free small valid =
    let t : Timer = record {
      callback = callback;
      expiration = when;
      interval = interval;
      repeat = repeat;
      sequence = q.num_created + 1;
    } in
    let f = Free-none q out address s free in
    let q1 = store address (some t) (record q { num_created = q.num_created + 1 }) in
    let m = nothing_mentioned q out address free s.loose in
    let s1 : Sound q1 out =
      store-Sound (record q { num_created = q.num_created + 1 }) out address (some t)
        (others-Sound q out q.canceling q.calling_expired (q.num_created + 1) q.armed s)
        (record { no_entry = f.no_entry; no_active = f.no_active }) m in
    let k =
      add_timer_in_loop-Keeps q1 out address t s1
        (record { no_entry = f.no_entry; no_active = f.no_active }) m (ground arith) small valid in
    (
      k.after,
      rw k.returns refl,
      k.sound,
      λ p h. k.kept p h ∙ kept_others q out address p (some t) h m,
    )

-- `cancel` of any id, in the loop's thread: the timer with this address and number does not wait after it, and when it
-- was not waiting because the expired timers run, it is among those that are not to run again.
pub cancel_in_loop-stops :
    (q : TimerQueue) (out : PairSet) (p sequence : ℕ)
    → Sound q out
    → (after : TimerQueue) × (cancel_in_loop (p, sequence) q ≡ some after)
      × Sound after out
      × (has p sequence after.active ≡ false)
      × (has p sequence q.active ≡ false
          → q.calling_expired ≡ true
          → has p sequence after.canceling ≡ true)
cancel_in_loop-stops q out p sequence s = by_case (Bool-cases (has p sequence q.active))
  where
    by_case :
        (has p sequence q.active ≡ true) ⊎ (has p sequence q.active ≡ false)
        → (after : TimerQueue) × (cancel_in_loop (p, sequence) q ≡ some after)
          × Sound after out
          × (has p sequence after.active ≡ false)
          × (has p sequence q.active ≡ false
              → q.calling_expired ≡ true
              → has p sequence after.canceling ≡ true)
    by_case (inl h) =
        let (t, e, same) = active_cases q out p sequence s h in
        (
          erased t.expiration p sequence q,
          cancel_waiting q out p sequence t s e same h,
          subst (λ n. Sound (erased t.expiration p n q) out) same
              (erased-Sound q out p t s e (subst (λ n. has p n q.active ≡ true) (sym same) h)),
          ground (arith, has-erase p sequence p sequence q.active s.active_sorted),
          λ n c. ground (arith, h, n),
        )
    by_case (inr h) = (
      if q.calling_expired then record q { canceling = insert p sequence q.canceling } else q,
      cancel_other q out p sequence s h,
      other-Sound q out (insert p sequence q.canceling) q.calling_expired s,
      ground (arith, h),
      λ n c. ground (arith, c, has-insert p sequence p sequence q.canceling),
    )
