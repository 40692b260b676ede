-- ===== src/Loop/Wakeup.antt =====
-- The functors of a loop run once each and in order, and none waits while the loop sleeps.
use rfcs.Common.{
  ℕ, ◌+◌, ◌<◌, ◌≡◌, ◌≢◌, refl, sym, ap, ◌∙◌, Bool, true, false, List, [], ◌∷◌, ◌++◌, some, arith,
  append_assoc, append-nil, ◌⊎◌, inl, inr,
}
use rfcs.Loop.{
  EventLoop, Phase, stopped, polling, handling, swapping, running, init, handle_read, queue_in_loop,
  queue_from_outside, quit_from_outside, wake_from_outside, quit_in_loop, begin_loop, poll_returns,
  begin_pending, swap_pending, run_functor, end_round,
}

-- The steps. The loop's thread queues functors and quits from the handler of an event or from a functor.
pub data Step (l : EventLoop) : EventLoop → Type 0 where
  begins :
      {l' : EventLoop} → l.phase ≡ stopped → l.pending ≡ [] → begin_loop l ≡ some l' → Step l l'
  poll_ends : l.phase ≡ polling → Step l (poll_returns l)
  reads_wakeup : l.phase ≡ handling → Step l (handle_read l)
  handler_queues : (f : ℕ) → l.phase ≡ handling → Step l (queue_in_loop f l)
  handler_quits : l.phase ≡ handling → Step l (quit_in_loop l)
  handlers_end : l.phase ≡ handling → Step l (begin_pending l)
  swaps : l.phase ≡ swapping → Step l (swap_pending l)
  functor_queues : (f : ℕ) {fs : List ℕ} → l.phase ≡ running fs → Step l (queue_in_loop f l)
  functor_quits : {fs : List ℕ} → l.phase ≡ running fs → Step l (quit_in_loop l)
  runs : (f : ℕ) (fs : List ℕ) → l.phase ≡ running (f ∷ fs) → Step l (run_functor f fs l)
  ends : l.phase ≡ running [] → Step l (end_round l)
  outside_queues : (f : ℕ) → Step l (queue_from_outside f l)
  outside_quits : Step l (quit_from_outside l)
  outside_wakes : (left : ℕ) → l.wakers ≡ left + 1 → Step l (wake_from_outside left l)

pub data Reaches : EventLoop → Type 0 where
  at_start : Reaches init
  after : {l m : EventLoop} → Reaches l → Step l m → Reaches m

-- The functors that the loop has taken and not yet run.
abbrev pub taken : Phase → List ℕ
taken (running fs) = fs
taken stopped = []
taken polling = []
taken handling = []
taken swapping = []

abbrev pub is_calling : Phase → Bool
is_calling (running fs) = true
is_calling swapping = true
is_calling stopped = false
is_calling polling = false
is_calling handling = false

-- The loop's thread sleeps in `poll`, or will do so without taking the functors again.
abbrev pub sleeps_next : Phase → Bool
sleeps_next polling = true
sleeps_next (running fs) = true
sleeps_next stopped = false
sleeps_next handling = false
sleeps_next swapping = false

-- The functors are accounted for, the flag agrees with the phase, and if a functor waits, the eventfd
-- has been written or a thread is about to write it.
pub record Awake (l : EventLoop) : Type 0 where
  pub whole : l.ran ++ (taken l.phase ++ l.pending) ≡ l.history
  pub flag : l.calling_pending_functors ≡ is_calling l.phase
  pub woken : sleeps_next l.phase ≡ true → l.pending ≢ [] → 0 < l.woken + l.wakers

push-whole :
    (ran taken pending history : List ℕ) (f : ℕ)
    → ran ++ (taken ++ pending) ≡ history
    → ran ++ (taken ++ (pending ++ f ∷ [])) ≡ history ++ f ∷ []
push-whole ran taken pending history f e =
    ap (λ k. ran ++ k) (sym (append_assoc taken pending (f ∷ [])))
    ∙ sym (append_assoc ran (taken ++ pending) (f ∷ []))
    ∙ ap (λ k. k ++ f ∷ []) e

queue_in_loop-Awake :
    (f : ℕ) (l : EventLoop)
    → Awake l
    → (l.phase ≡ handling) ⊎ (is_calling l.phase ≡ true)
    → Awake (queue_in_loop f l)
unfolding queue_in_loop
queue_in_loop-Awake f l s awake = record {
  whole = ground (arith, push-whole l.ran (taken l.phase) l.pending l.history f s.whole);
  flag = ground (arith, s.flag);
  woken = λ e n. ground (arith, s.flag, awake);
}

queue_from_outside-Awake : (f : ℕ) (l : EventLoop) → Awake l → Awake (queue_from_outside f l)
unfolding queue_from_outside
queue_from_outside-Awake f l s = record {
  whole = push-whole l.ran (taken l.phase) l.pending l.history f s.whole;
  flag = s.flag;
  woken = λ e n. omega arith;
}

begin_loop-Awake :
    (l l' : EventLoop)
    → l.phase ≡ stopped
    → l.pending ≡ []
    → Awake l
    → begin_loop l ≡ some l'
    → Awake l'
unfolding begin_loop
begin_loop-Awake l l' at nothing s e = record {
  whole = ground (arith, s.whole, ap taken at);
  flag = ground (arith, s.flag);
  woken = λ k n. absurd (ground (arith, n));
}

poll_returns-Awake : (l : EventLoop) → l.phase ≡ polling → Awake l → Awake (poll_returns l)
unfolding poll_returns
poll_returns-Awake l at s = record {
  whole = ap (λ k. l.ran ++ (k ++ l.pending)) (sym (ap taken at)) ∙ s.whole;
  flag = s.flag ∙ ap is_calling at;
  woken = λ e n. ground (arith, e);
}

begin_pending-Awake : (l : EventLoop) → l.phase ≡ handling → Awake l → Awake (begin_pending l)
unfolding begin_pending
begin_pending-Awake l at s = record {
  whole = ap (λ k. l.ran ++ (k ++ l.pending)) (sym (ap taken at)) ∙ s.whole;
  flag = refl;
  woken = λ e n. ground (arith, e);
}

swap_pending-Awake : (l : EventLoop) → l.phase ≡ swapping → Awake l → Awake (swap_pending l)
unfolding swap_pending
swap_pending-Awake l at s = record {
  whole =
      ap (λ k. l.ran ++ k) (append-nil l.pending)
      ∙ ap (λ k. l.ran ++ (k ++ l.pending)) (sym (ap taken at))
      ∙ s.whole;
  flag = s.flag ∙ ap is_calling at;
  woken = λ e n. absurd (n refl);
}

run_functor-Awake :
    (f : ℕ) (fs : List ℕ) (l : EventLoop)
    → l.phase ≡ running (f ∷ fs)
    → Awake l
    → Awake (run_functor f fs l)
unfolding run_functor
run_functor-Awake f fs l at s = record {
  whole =
      append_assoc l.ran (f ∷ []) (fs ++ l.pending)
      ∙ ap (λ k. l.ran ++ (k ++ l.pending)) (sym (ap taken at))
      ∙ s.whole;
  flag = s.flag ∙ ap is_calling at;
  woken = λ e n. s.woken (ap sleeps_next at) n;
}

end_round-Awake : (l : EventLoop) → l.phase ≡ running [] → Awake l → Awake (end_round l)
unfolding end_round
end_round-Awake l at s =
    let same = ap (λ k. l.ran ++ (k ++ l.pending)) (sym (ap taken at)) ∙ s.whole in
    record {
      whole = ground (arith, same);
      flag = ground arith;
      woken = λ e n. ground (arith, s.woken (ap sleeps_next at), n);
    }

handle_read-Awake : (l : EventLoop) → l.phase ≡ handling → Awake l → Awake (handle_read l)
handle_read-Awake l at s = record {
  whole = s.whole;
  flag = s.flag;
  woken = λ e n. ground (arith, ap sleeps_next at);
}

quit_in_loop-Awake : (l : EventLoop) → Awake l → Awake (quit_in_loop l)
unfolding quit_in_loop
quit_in_loop-Awake l s = record { whole = s.whole; flag = s.flag; woken = s.woken }

quit_from_outside-Awake : (l : EventLoop) → Awake l → Awake (quit_from_outside l)
unfolding quit_from_outside
quit_from_outside-Awake l s = record { whole = s.whole; flag = s.flag; woken = λ e n. omega arith }

wake_from_outside-Awake : (left : ℕ) (l : EventLoop) → Awake l → Awake (wake_from_outside left l)
unfolding wake_from_outside
wake_from_outside-Awake left l s = record {
  whole = s.whole;
  flag = s.flag;
  woken = λ e n. omega arith;
}

Step-Awake : (l m : EventLoop) → Awake l → Step l m → Awake m
Step-Awake l m s (begins at nothing e) = begin_loop-Awake l m at nothing s e
Step-Awake l m s (poll_ends at) = poll_returns-Awake l at s
Step-Awake l m s (reads_wakeup at) = handle_read-Awake l at s
Step-Awake l m s (handler_queues f at) = queue_in_loop-Awake f l s (inl at)
Step-Awake l m s (handler_quits at) = quit_in_loop-Awake l s
Step-Awake l m s (handlers_end at) = begin_pending-Awake l at s
Step-Awake l m s (swaps at) = swap_pending-Awake l at s
Step-Awake l m s (functor_queues f at) = queue_in_loop-Awake f l s (inr (ap is_calling at))
Step-Awake l m s (functor_quits at) = quit_in_loop-Awake l s
Step-Awake l m s (runs f fs at) = run_functor-Awake f fs l at s
Step-Awake l m s (ends at) = end_round-Awake l at s
Step-Awake l m s (outside_queues f) = queue_from_outside-Awake f l s
Step-Awake l m s outside_quits = quit_from_outside-Awake l s
Step-Awake l m s (outside_wakes left e) = wake_from_outside-Awake left l s

-- In every interleaving of the loop's thread, whose `loop` begins with no functor waiting, with the
-- other threads: the functors that have run, then those that the loop has taken, then those that
-- wait, are those that were queued, each once and in order; and while the loop's thread is in `poll`,
-- or runs functors that it took before, and another functor waits, the eventfd has been written or a
-- thread is about to write it, so that no functor is left waiting for the timeout.
pub Reaches-Awake : (l : EventLoop) → Reaches l → Awake l
Reaches-Awake _ at_start = record { whole = refl; flag = refl; woken = λ e n. ground (arith, e) }
Reaches-Awake l (after before step) = Step-Awake _ l (Reaches-Awake _ before) step
