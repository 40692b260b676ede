-- ===== src/Timers/Expiry.antt =====
-- `getExpired`: the timers that are due leave both sets.
use rfcs.Common.{
  ℕ, ◌+◌, ◌<◌, ◌≡◌, ℕ_discrete, refl, sym, ◌∙◌, Bool, true, false, not, ◌&&◌, [], ◌∷◌, some, none,
  leb, ◌==◌, length, arith, subst, Bool-cases, Option-cases, inl, inr, ◌⊎◌,
}
use rfcs.Timers.Sets.{
  PairSet, IsSorted, Above-not_has, has, less, erase, has-erase, erase-IsSorted, length-erase,
  before, from, has-before, has-from, from-IsSorted, before-IsSorted, length-before,
}
use rfcs.Timers.Queue.{Timer, TimerQueue, max_address, erase_active, get_expired, is_after}
use rfcs.Timers.Sound.{Sound, Each, entry_ok, loose_ok, mentions, sequence_at, expiration_at}

mentions-has : (p : ℕ) (s : PairSet) → mentions p s ≡ true → (when : ℕ) × (has when p s ≡ true)
mentions-has p [] h = (0, h)
mentions-has p ((when, p') ∷ s) h = elim (ℕ_discrete p p') [
  | yes e ↦ (when, ground (arith, e))
  | no n ↦ let (w, k) = mentions-has p s (ground arith) in (w, ground (arith, k))
]

pub has-mentions : (when p : ℕ) (s : PairSet) → has when p s ≡ true → mentions p s ≡ true
has-mentions when p [] h = h
has-mentions when p ((when', p') ∷ s) h = ground (arith, has-mentions when p s)

-- A sorted set whose entries pass a test that fixes the time of each address.
pub Each-of :
    (f : ℕ → ℕ → Bool) (g : ℕ → ℕ) (s : PairSet)
    → IsSorted s
    → ((when p : ℕ) → f when p ≡ true → when ≡ g p)
    → ((when p : ℕ) → has when p s ≡ true → f when p ≡ true)
    → Each f s
Each-of f g [] k one all = tt
Each-of f g ((when, p) ∷ s) (k, ks) one all =
    let first : f when p ≡ true = all when p (ground arith) in
    let rest : (when' p' : ℕ) → has when' p' s ≡ true → f when' p' ≡ true =
      λ when' p' h. all when' p' (ground (arith, h)) in
    (first, once (Bool-cases (mentions p s)) rest first, Each-of f g s ks one rest)
  where
    once :
        (mentions p s ≡ true) ⊎ (mentions p s ≡ false)
        → ((when' p' : ℕ) → has when' p' s ≡ true → f when' p' ≡ true)
        → f when p ≡ true
        → mentions p s ≡ false
    once (inr e) rest first = e
    once (inl e) rest first =
        let (w, h) = mentions-has p s e in
        let same : w ≡ when = one w p (rest w p h) ∙ sym (one when p first) in
        ground (arith, Above-not_has when p s k, subst (λ n. has n p s ≡ true) same h)

-- The timer of the entry may still be cancelled.
abbrev waiting_ok : TimerQueue → ℕ → ℕ → Bool
waiting_ok q when p = elim (q.heap p) [
  | none ↦ false
  | some t ↦ (t.expiration == when) && has p t.sequence q.active
]

-- The active timers are there, and are those that their addresses hold.
abbrev OneSequence : TimerQueue → Type 0
OneSequence q = (p sequence : ℕ) → has p sequence q.active ≡ true → sequence ≡ sequence_at q p

abbrev without : ℕ → TimerQueue → TimerQueue
without p q = record q { active = erase p (sequence_at q p) q.active }

without-Each :
    (q : TimerQueue) (p : ℕ) (todo : PairSet)
    → IsSorted q.active
    → mentions p todo ≡ false
    → Each (waiting_ok q) todo
    → Each (waiting_ok (without p q)) todo
without-Each q p [] k m w = tt
without-Each q p ((when, p') ∷ todo) k m (h, once, w) = (
  ground (arith, has-erase p' (sequence_at q p') p (sequence_at q p) q.active k),
  once,
  without-Each q p todo k (ground arith) w,
)

-- What the loop over the due entries returns: the active timers are the others.
record Erased (q : TimerQueue) (todo : PairSet) : Type 0 where
  active : PairSet
  returns : erase_active todo q ≡ some (record q { active = active })
  sorted : IsSorted active
  has_others :
      (p sequence : ℕ) → has p sequence active ≡ (not (mentions p todo) && has p sequence q.active)
  size : length active + length todo ≡ length q.active

waiting_cases :
    (q : TimerQueue) (when p : ℕ)
    → waiting_ok q when p ≡ true
    → (t : Timer) × (q.heap p ≡ some t) × (has p t.sequence q.active ≡ true)
waiting_cases q when p h = by_timer (Option-cases (q.heap p))
  where
    by_timer :
        (q.heap p ≡ none) ⊎ ((t : Timer) × (q.heap p ≡ some t))
        → (t : Timer) × (q.heap p ≡ some t) × (has p t.sequence q.active ≡ true)
    by_timer (inl e) = ground (arith, e, h)
    by_timer (inr (t, e)) = (t, e, ground (arith, e, h))

erase_active-step :
    (when p : ℕ) (todo : PairSet) (q : TimerQueue) (t : Timer)
    → q.heap p ≡ some t
    → has p t.sequence q.active ≡ true
    → erase_active ((when, p) ∷ todo) q ≡ erase_active todo (without p q)
unfolding erase_active
erase_active-step when p todo q t e there = ground (arith, e, there)

erase_active-Erased :
    (todo : PairSet) (q : TimerQueue)
    → IsSorted q.active
    → OneSequence q
    → Each (waiting_ok q) todo
    → Erased q todo
unfolding erase_active
erase_active-Erased [] q k one w = record {
  active = q.active;
  returns = refl;
  sorted = k;
  has_others = λ p sequence. refl;
  size = omega arith;
}
erase_active-Erased ((when, p) ∷ todo) q k one (h, once, w) =
    let (t, e, there) = waiting_cases q when p h in
    let at : sequence_at q p ≡ t.sequence = ground (arith, e) in
    let here : has p (sequence_at q p) q.active ≡ true = ground (arith, at, there) in
    let r =
      erase_active-Erased todo (without p q) (erase-IsSorted p (sequence_at q p) q.active k)
        (λ p' n g. one p' n (ground (arith, has-erase p' n p (sequence_at q p) q.active k)))
        (without-Each q p todo k once w) in
    record {
      active = r.active;
      returns = erase_active-step when p todo q t e there ∙ r.returns;
      sorted = r.sorted;
      has_others = λ p' n.
          ground
            (arith, r.has_others p' n, has-erase p' n p (sequence_at q p) q.active k, one p' n);
      size = omega (arith, r.size, length-erase p (sequence_at q p) q.active here);
    }

-- The entries that `getExpired` takes, and those that it leaves.
abbrev pub due : ℕ → TimerQueue → PairSet
due now q = before now max_address q.timers

abbrev pub later : ℕ → TimerQueue → PairSet
later now q = from now max_address q.timers

later-is_after :
    (now : ℕ) (s : PairSet)
    → ((when p : ℕ) → has when p s ≡ true → p < max_address)
    → is_after now (from now max_address s) ≡ true
unfolding from
later-is_after now [] small = refl
later-is_after now ((when, p) ∷ s) small =
    let first = small when p (ground arith) in
    ground (arith, later-is_after now s (λ w p' h. small w p' (ground (arith, h))), first)

module _ (now : ℕ) (q : TimerQueue) (s : Sound q []) where
  entry_fixes : (when p : ℕ) → entry_ok q when p ≡ true → when ≡ expiration_at q p
  entry_fixes when p h = ground arith

  due_waits : (when p : ℕ) → has when p (due now q) ≡ true → waiting_ok q when p ≡ true
  due_waits when p h =
      ground (arith, s.entries when p, has-before now max_address when p q.timers s.timers_sorted)

  due-Each : Each (waiting_ok q) (due now q)
  due-Each =
      Each-of (waiting_ok q) (expiration_at q) (due now q)
        (before-IsSorted now max_address q.timers s.timers_sorted) (λ when p h. ground arith)
        due_waits

  -- What is erased from the active timers does not depend on the entries that are left.
  active_left : Erased (record q { timers = later now q }) (due now q)
  active_left =
      erase_active-Erased (due now q) (record q { timers = later now q }) s.active_sorted
        (λ p n h. ground (arith, s.actives p n h)) due-Each

  expired : TimerQueue
  expired = record q { timers = later now q; active = active_left.active }

  is_due : (when p : ℕ) → Bool
  is_due when p = less when p now max_address

  has-due_in : (when p : ℕ) → has when p (due now q) ≡ (is_due when p && has when p q.timers)
  unfolding is_due
  has-due_in when p = has-before now max_address when p q.timers s.timers_sorted

  has-later_in :
      (when p : ℕ) → has when p (later now q) ≡ (not (is_due when p) && has when p q.timers)
  unfolding is_due
  has-later_in when p = has-from now max_address when p q.timers s.timers_sorted

  -- An entry that is left is not at the address of one that is due.
  not_both : (when p : ℕ) → has when p (later now q) ≡ true → mentions p (due now q) ≡ false
  not_both when p h = by_case (Bool-cases (mentions p (due now q)))
    where
      by_case :
          (mentions p (due now q) ≡ true) ⊎ (mentions p (due now q) ≡ false)
          → mentions p (due now q) ≡ false
      by_case (inr e) = e
      by_case (inl e) =
          let (w, k) = mentions-has p (due now q) e in
          let same : w ≡ when =
            entry_fixes w p (s.entries w p (ground (arith, has-due_in w p, k)))
            ∙ sym
                (entry_fixes when p (s.entries when p (ground (arith, has-later_in when p, h)))) in
          ground (
            arith,
            has-due_in when p,
            has-later_in when p,
            h,
            subst (λ n. has n p (due now q) ≡ true) same k,
          )

  expired-Sound : Sound expired (due now q)
  unfolding expired
  expired-Sound = record {
    timers_sorted = from-IsSorted now max_address q.timers s.timers_sorted;
    active_sorted = active_left.sorted;
    same_size = omega (
      arith,
      s.same_size,
      active_left.size,
      length-before now max_address q.timers s.timers_sorted,
    );
    entries = λ when p h. ground (
      arith,
      s.entries when p,
      has-later_in when p,
      not_both when p h,
      active_left.has_others p (sequence_at q p),
    );
    actives = λ p n h. ground (
      arith,
      s.actives p n,
      active_left.has_others p n,
      has-later_in (expiration_at q p) p,
      has-due_in (expiration_at q p) p,
      has-mentions (expiration_at q p) p (due now q),
    );
    loose =
        Each-of (loose_ok expired) (expiration_at q) (due now q)
          (before-IsSorted now max_address q.timers s.timers_sorted) (λ when p h. ground arith)
          (λ when p h. ground (
            arith,
            s.entries when p,
            has-due_in when p,
            has-mentions when p (due now q) h,
            active_left.has_others p (sequence_at q p),
          ));
  }

  -- `getExpired` on a queue in order: no assertion fails, the entries returned are those of the
  -- timers that are due, and these are out of both sets then, each once.
  pub get_expired-Sound :
      (after : TimerQueue) × (get_expired now q ≡ some (due now q, after))
      × Sound after (due now q)
      × (after.heap ≡ q.heap)
  unfolding get_expired expired
  get_expired-Sound = (
    expired,
    ground (
      arith,
      s.same_size,
      later-is_after now q.timers (λ when p h. ground (arith, s.entries when p h)),
      active_left.returns,
      expired-Sound.same_size,
    ),
    expired-Sound,
    refl,
  )

-- The timers that are due at `now` are those that wait for a time not after it.
pub due-has :
    (now : ℕ) (q : TimerQueue) (when p : ℕ)
    → Sound q []
    → has when p (due now q) ≡ (leb when now && has when p q.timers)
due-has now q when p s =
    ground (arith, has-before now max_address when p q.timers s.timers_sorted, s.entries when p)
