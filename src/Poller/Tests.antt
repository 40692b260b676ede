-- ===== src/Poller/Tests.antt =====
-- The theorems of the pollers at concrete channels.
use rfcs.Common.{ℕ, ◌≡◌, refl, true, false, [], ◌∷◌, some, none, if◌then◌else◌, ◌==◌, arith}
use rfcs.Channel
use rfcs.Channel.{Channel, Events, none_event}
use rfcs.Poller.EPoll.{EPollPoller, init, poll, has_channel, remove_channel, added_index, adds}
use rfcs.Poller.EPoll.Agree.{Agrees, change, watched, InTurn}
use rfcs.Poller.EPoll.Watch.{change-Agrees, remove_channel-Agrees}
use rfcs.Poller.EPoll.Poll.{pointers, reported, poll-fills}

-- Every object has its address for its descriptor.
abbrev empty : EPollPoller
empty = init (λ p. Channel.init p)

empty-Agrees : Agrees empty
unfolding watched InTurn
empty-Agrees = record {
  watches = λ fd. refl;
  in_turn = tt;
  own_fd = λ fd p h. ground arith;
  indices = λ p. refl;
}

abbrev reads : Events
reads = record none_event { pollin = true }

change-Agrees_example : (e' : EPollPoller) × (change 7 reads empty ≡ some e') × Agrees e'
change-Agrees_example = change-Agrees 7 reads empty empty-Agrees refl

-- The channel at 7 is registered.
abbrev one : EPollPoller
one = record empty {
  object = λ p. if p == 7 then record (Channel.init 7) { index = added_index } else Channel.init p;
  channels = λ fd. if fd == 7 then some 7 else none;
  controls = record { operation = adds; fd = 7; events = none_event; pointer = 7 } ∷ [];
}

one-Agrees : Agrees one
unfolding watched InTurn
one-Agrees = record {
  watches = λ fd. ground arith;
  in_turn = (refl, tt);
  own_fd = λ fd p h. ground arith;
  indices = λ p. ground arith;
}

one-has_channel : has_channel 7 one ≡ true
unfolding has_channel
one-has_channel = refl

remove_channel-Agrees_example :
    (e' : EPollPoller) × (remove_channel 7 one ≡ some e')
    × Agrees e'
    × (watched e'.controls 7 ≡ none)
    × (has_channel 7 e' ≡ false)
remove_channel-Agrees_example = remove_channel-Agrees 7 one one-Agrees one-has_channel refl

poll-fills_example :
    (after : EPollPoller) × (poll ((7, reads) ∷ []) one ≡ some (pointers ((7, reads) ∷ []), after))
    × Agrees after
    × ((p : ℕ) → (after.object p).revents ≡ reported ((7, reads) ∷ []) p (one.object p).revents)
    × (after.capacity ≡ 16)
poll-fills_example = poll-fills ((7, reads) ∷ []) one one-Agrees (one-has_channel, tt) (omega arith)
