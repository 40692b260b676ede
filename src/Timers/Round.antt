-- ===== src/Timers/Round.antt =====
-- `handleRead`: one round of the timers, with the callbacks that run in it.
use rfcs.Common.{
  ℕ, ◌<◌, ◌≤◌, ◌≡◌, ℕ_discrete, refl, sym, ap, ap₂, ◌∙◌, Bool, true, false, ◌&&◌, List, [], ◌∷◌,
  Option, some, none, ltb, leb, arith, subst, Option-cases, inl, inr, ◌⊎◌,
}
use rfcs.Timers.Sets.{PairSet, has, IsSorted, Above}
use rfcs.Timers.Queue.{
  Timer, TimerQueue, max_address, get_expired, run_expired, reset, rearm, reset_timerfd, Command,
  adds, cancels, perform, perform_all, handle_read,
}
use rfcs.Timers.Sound.{Sound, Loose, entry_ok, mentions}
use rfcs.Timers.Erase.{Keeps, others-Sound}
use rfcs.Timers.Calls.{add_timer-Keeps, cancel_in_loop-Keeps}
use rfcs.Timers.Expiry.{due, get_expired-Sound}
use rfcs.Timers.Reset.{reset_timers-Resets}

-- `new` has found a free address, and the time is valid.
abbrev pub fits : Command → TimerQueue → Bool
fits (cancels id) q = true
fits (adds address callback when interval repeat) q =
    elim (q.heap address) [ none ↦ true | some t ↦ false ] && ltb address max_address && ltb 0 when

unfoldable pub fits_all : List Command → TimerQueue → Bool
fits_all [] q = true
fits_all (c ∷ cs) q = fits c q && elim (perform c q) [ none ↦ true | some q' ↦ fits_all cs q' ]

unfoldable pub fits_round : (ℕ → List Command) → PairSet → TimerQueue → Bool
unfolding fits_all
fits_round does [] q = true
fits_round does ((when, p) ∷ out) q = elim (q.heap p) [
  | none ↦ true
  | some t ↦
      fits_all (does t.callback) q
      && elim (perform_all (does t.callback) q) [ none ↦ true | some q' ↦ fits_round does out q' ]
]

abbrev pub callback_at : TimerQueue → ℕ → ℕ
callback_at q p = elim (q.heap p) [ none ↦ 0 | some t ↦ t.callback ]

unfoldable pub callbacks : TimerQueue → PairSet → List ℕ
callbacks q [] = []
callbacks q ((when, p) ∷ out) = callback_at q p ∷ callbacks q out

perform-Keeps :
    (c : Command) (q : TimerQueue) (out : PairSet)
    → fits c q ≡ true
    → Sound q out
    → Keeps q (perform c q) out
unfolding perform
perform-Keeps (cancels id) q out f s = cancel_in_loop-Keeps q out id s
perform-Keeps (adds address callback when interval repeat) q out f s =
    let (after, e, t, k) =
      add_timer-Keeps q out address callback when interval repeat s (ground (arith, f))
        (ground (arith, f)) (ground (arith, f)) in
    record { after = after; returns = rw e refl; sound = t; kept = k }

perform_all-Keeps :
    (cs : List Command) (q : TimerQueue) (out : PairSet)
    → fits_all cs q ≡ true
    → Sound q out
    → Keeps q (perform_all cs q) out
unfolding perform_all fits_all
perform_all-Keeps [] q out f s = record { after = q; returns = refl; sound = s; kept = λ p m. refl }
perform_all-Keeps (c ∷ cs) q out f s =
    let k = perform-Keeps c q out (ground (arith, f)) s in
    let l = perform_all-Keeps cs k.after out (ground (arith, f, k.returns)) k.sound in
    record {
      after = l.after;
      returns = rw k.returns l.returns;
      sound = l.sound;
      kept = λ p m. l.kept p m ∙ k.kept p m;
    }

Loose-at :
    (q : TimerQueue) (out : PairSet) (p : ℕ)
    → Loose q out
    → mentions p out ≡ true
    → (t : Timer) × (q.heap p ≡ some t)
Loose-at q [] p l m = ground arith
Loose-at q ((when, p') ∷ out) p (h, once, l) m = elim (ℕ_discrete p p') [
  | yes same ↦
      subst (λ a. (t : Timer) × (q.heap a ≡ some t)) (sym same)
        (by_timer (Option-cases (q.heap p')))
  | no n ↦ Loose-at q out p l (ground arith)
]
  where
    by_timer :
        (q.heap p' ≡ none) ⊎ ((t : Timer) × (q.heap p' ≡ some t))
        → (t : Timer) × (q.heap p' ≡ some t)
    by_timer (inl e) = ground (arith, e, h)
    by_timer (inr there) = there

callbacks-kept :
    (q q' : TimerQueue) (todo : PairSet)
    → ((p : ℕ) → mentions p todo ≡ true → q'.heap p ≡ q.heap p)
    → callbacks q' todo ≡ callbacks q todo
unfolding callbacks
callbacks-kept q q' [] k = refl
callbacks-kept q q' ((when, p) ∷ todo) k =
    ap₂ (λ c l. c ∷ l)
      (ap (λ (o : Option Timer). elim o as (λ _. ℕ) [ none ↦ 0 | some t ↦ t.callback ])
        (k p (ground arith)))
      (callbacks-kept q q' todo (λ p' m. k p' (ground (arith, m))))

-- An entry that is in order is that of a timer that is there.
entry_timer :
    (q : TimerQueue) (when p : ℕ) → entry_ok q when p ≡ true → (t : Timer) × (q.heap p ≡ some t)
entry_timer q when p h = by_timer (Option-cases (q.heap p))
  where
    by_timer :
        (q.heap p ≡ none) ⊎ ((t : Timer) × (q.heap p ≡ some t)) → (t : Timer) × (q.heap p ≡ some t)
    by_timer (inl e) = ground (arith, e, h)
    by_timer (inr there) = there

-- The callbacks of some of the timers that are out, one after the other.
record Ran (q : TimerQueue) (todo out : PairSet) (r : Option (List ℕ × TimerQueue)) : Type 0 where
  after : TimerQueue
  returns : r ≡ some (callbacks q todo, after)
  sound : Sound after out

run_expired-Ran :
    (does : ℕ → List Command) (todo : PairSet) (q : TimerQueue) (out : PairSet)
    → ((p : ℕ) → mentions p todo ≡ true → mentions p out ≡ true)
    → fits_round does todo q ≡ true
    → Sound q out
    → Ran q todo out (run_expired does todo q)
unfolding run_expired fits_round callbacks
run_expired-Ran does [] q out sub f s = record { after = q; returns = refl; sound = s }
run_expired-Ran does ((when, p) ∷ todo) q out sub f s =
    let (t, e) = Loose-at q out p s.loose (sub p (ground arith)) in
    let k = perform_all-Keeps (does t.callback) q out (ground (arith, f, e)) s in
    let r =
      run_expired-Ran does todo k.after out (λ p' m. sub p' (ground (arith, m)))
        (ground (arith, f, e, k.returns)) k.sound in
    record {
      after = r.after;
      returns =
          ran_step does when p todo q t k.after r.after (callbacks k.after todo) e k.returns
            r.returns
          ∙ ap₂ (λ c l. some (c ∷ l, r.after)) (ground (arith, e))
              (callbacks-kept q k.after todo (λ p' m. k.kept p' (sub p' (ground (arith, m)))));
      sound = r.sound;
    }
  where
    ran_step :
        (does : ℕ → List Command) (when p : ℕ) (todo : PairSet) (q : TimerQueue) (t : Timer)
        (q' q'' : TimerQueue) (ran : List ℕ)
        → q.heap p ≡ some t
        → perform_all (does t.callback) q ≡ some q'
        → run_expired does todo q' ≡ some (ran, q'')
        → run_expired does ((when, p) ∷ todo) q ≡ some (t.callback ∷ ran, q'')
    ran_step does when p todo q t q' q'' ran e k r = rw (e, k, r) refl

-- The timerfd is set for a time that is not after that of any timer.
abbrev pub armed_by : TimerQueue → ℕ → Bool
armed_by q when = elim q.armed [ none ↦ false | some a ↦ leb a when ]

pub Alarm : TimerQueue → Type 0
Alarm q = (when p : ℕ) → has when p q.timers ≡ true → armed_by q when ≡ true

first-least : (w p when p' : ℕ) (s : PairSet) → Above w p s → has when p' s ≡ true → w ≤ when
first-least w p when p' [] k h = ground arith
first-least w p when p' ((x, y) ∷ s) (k, ks) h = ground (arith, first-least w p when p' s ks)

rearm_none : (q : TimerQueue) → q.timers ≡ [] → rearm q ≡ some q
unfolding rearm
rearm_none q e = ground (arith, e)

rearm-some :
    (q : TimerQueue) (w p : ℕ) (s : PairSet) (t : Timer)
    → q.timers ≡ (w, p) ∷ s
    → q.heap p ≡ some t
    → t.expiration ≡ w
    → 0 < w
    → rearm q ≡ some (reset_timerfd w q)
unfolding rearm
rearm-some q w p s t e h same valid = ground (arith, e, h, same)

rearm-Alarm :
    (q : TimerQueue)
    → Sound q []
    → (after : TimerQueue) × (rearm q ≡ some after) × Sound after [] × Alarm after
unfolding Alarm
rearm-Alarm q s = by_timers q.timers refl s.timers_sorted
  where
    by_timers :
        (l : PairSet)
        → q.timers ≡ l
        → IsSorted l
        → (after : TimerQueue) × (rearm q ≡ some after)
          × Sound after []
          × ((when p : ℕ) → has when p after.timers ≡ true → armed_by after when ≡ true)
    by_timers [] e k = (q, rearm_none q e, s, λ when p h. ground (arith, e, h))
    by_timers ((w, p) ∷ l) e (k, ks) =
        let ok = s.entries w p (ground (arith, e)) in
        let (t, there) = entry_timer q w p ok in
        (
          reset_timerfd w q,
          rearm-some q w p l t e there (ground (arith, ok, there)) (ground (arith, ok, there)),
          others-Sound q [] q.canceling q.calling_expired q.num_created (some w) s,
          λ when p' h. ground (arith, first-least w p when p' l k, e, h),
        )

-- The commands of the callbacks fit, where they are run.
unfoldable pub round_fits : (ℕ → List Command) → ℕ → TimerQueue → Bool
unfolding fits_round
round_fits does now q = elim (get_expired now (record q { armed = none })) [
  | none ↦ true
  | some (out, q1) ↦ fits_round does out (record q1 { calling_expired = true; canceling = [] })
]

-- `handleRead` on a queue in order, at a valid time, when the callbacks add timers at free addresses and for valid times:
-- no assertion fails, and no timer is used after it has been deleted; the callbacks of the timers that are due run, each
-- once and in the order of the times, and no others; the queue is in order after it; and the timerfd is set for a time
-- that is not after that of any timer.
pub handle_read-runs :
    (does : ℕ → List Command) (now : ℕ) (q : TimerQueue)
    → Sound q []
    → 0 < now
    → round_fits does now q ≡ true
    → (after : TimerQueue) × (handle_read does now q ≡ some (callbacks q (due now q), after))
      × Sound after []
      × Alarm after
unfolding handle_read reset round_fits
handle_read-runs does now q s valid f =
    let (q1, e1, s1, same) =
      get_expired-Sound now (record q { armed = none })
        (others-Sound q [] q.canceling q.calling_expired q.num_created none s) in
    let r =
      run_expired-Ran does (due now q) (record q1 { calling_expired = true; canceling = [] })
        (due now q) (λ p m. m) (ground (arith, f, e1))
        (others-Sound q1 (due now q) [] true q1.num_created q1.armed s1) in
    let t =
      reset_timers-Resets now (due now q) (record r.after { calling_expired = false }) valid
        (others-Sound r.after (due now q) r.after.canceling false r.after.num_created r.after.armed
          r.sound) in
    let (q3, e3, s3, a3) = rearm-Alarm t.after t.sound in
    (
      q3,
      rw (e1, r.returns, t.returns, e3)
          (ap (λ l. some (l, q3))
            (callbacks-kept q (record q1 { calling_expired = true; canceling = [] }) (due now q)
              (λ p m. ap (λ h. h p) same))),
      s3,
      a3,
    )
