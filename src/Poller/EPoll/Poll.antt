-- ===== src/Poller/EPoll/Poll.antt =====
-- `poll`: the channels that the kernel names become the active ones.
use rfcs.Common.{
  ℕ, ◌*◌, ◌≤◌, ◌≡◌, refl, ap, ◌∙◌, true, List, [], ◌∷◌, Option, some, if◌then◌else◌, ◌==◌, length,
  arith,
}
use rfcs.Channel.{Events}
use rfcs.Poller.EPoll.{EPollPoller, set_channel, has_channel, fill_active_channels, poll}
use rfcs.Poller.EPoll.Agree.{Agrees}

unfoldable pub pointers : List (ℕ × Events) → List ℕ
pointers [] = []
pointers ((p, events) ∷ rest) = p ∷ pointers rest

-- The kernel names channels that are registered.
abbrev pub Registered : EPollPoller → List (ℕ × Events) → Type 0
Registered e [] = Unit {0}
Registered e ((p, events) ∷ rest) = (has_channel p e ≡ true) × Registered e rest

-- The flags that the kernel reported last for a channel, if any.
unfoldable pub reported : List (ℕ × Events) → ℕ → Events → Events
reported [] p before = before
reported ((p', events) ∷ rest) p before = reported rest p (if p' == p then events else before)

abbrev reports : ℕ → Events → EPollPoller → EPollPoller
reports p events e = set_channel p (record (e.object p) { revents = events }) e

reports-Agrees :
    (p : ℕ) (events : Events) (e : EPollPoller) → Agrees e → Agrees (reports p events e)
reports-Agrees p events e a = record {
  watches = λ fd. a.watches fd ∙ ground arith;
  in_turn = a.in_turn;
  own_fd = λ fd p' h. ground (arith, a.own_fd fd p');
  indices = λ p'. ground (arith, a.indices p');
}

reports-Registered :
    (p : ℕ) (events : Events) (e : EPollPoller) (rest : List (ℕ × Events))
    → Registered e rest
    → Registered (reports p events e) rest
unfolding has_channel
reports-Registered p events e [] r = tt
reports-Registered p events e ((p', events') ∷ rest) (h, r) =
    (ground arith, reports-Registered p events e rest r)

record Filled (returned : List (ℕ × Events)) (e : EPollPoller) (r : Option (List ℕ × EPollPoller))
    : Type 0 where
  after : EPollPoller
  returns : r ≡ some (pointers returned, after)
  agrees : Agrees after
  revents : (p : ℕ) → (after.object p).revents ≡ reported returned p (e.object p).revents
  same_capacity : after.capacity ≡ e.capacity

fill_active_channels-Filled :
    (returned : List (ℕ × Events)) (e : EPollPoller)
    → Agrees e
    → Registered e returned
    → Filled returned e (fill_active_channels returned e)
unfolding fill_active_channels pointers has_channel reported
fill_active_channels-Filled [] e a r = record {
  after = e;
  returns = refl;
  agrees = a;
  revents = λ p. refl;
  same_capacity = refl;
}
fill_active_channels-Filled ((p, events) ∷ rest) e a (h, r) =
    let f =
      fill_active_channels-Filled rest (reports p events e) (reports-Agrees p events e a)
        (reports-Registered p events e rest r) in
    record {
      after = f.after;
      returns = rw (h, f.returns) refl;
      agrees = f.agrees;
      revents = λ p'. f.revents p' ∙ ap (λ x. reported rest p' x) (ground arith);
      same_capacity = f.same_capacity;
    }

-- When the kernel returns no more events than there is room for, each for a registered channel: no assertion fails, the
-- active channels are those that the kernel named, in order, each has the flags that were reported last for it and the
-- others have theirs from before; the calls still agree with the channels; and there is room for twice as many events
-- when the room was full, and as many otherwise.
pub poll-fills :
    (returned : List (ℕ × Events)) (e : EPollPoller)
    → Agrees e
    → Registered e returned
    → length returned ≤ e.capacity
    → (after : EPollPoller) × (poll returned e ≡ some (pointers returned, after))
      × Agrees after
      × ((p : ℕ) → (after.object p).revents ≡ reported returned p (e.object p).revents)
      × (after.capacity ≡ (if length returned == e.capacity then e.capacity * 2 else e.capacity))
unfolding poll
poll-fills returned e a r few =
    let f = fill_active_channels-Filled returned e a r in
    (
      record f.after {
        capacity = if length returned == e.capacity then e.capacity * 2 else e.capacity;
      },
      ground (arith, f.returns, f.same_capacity),
      record {
        watches = f.agrees.watches;
        in_turn = f.agrees.in_turn;
        own_fd = f.agrees.own_fd;
        indices = f.agrees.indices;
      },
      f.revents,
      refl,
    )
