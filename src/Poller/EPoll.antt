-- ===== src/Poller/EPoll.antt =====
-- muduo/net/poller/EPollPoller.h, EPollPoller.cc, and the base class of muduo/net/Poller.h and
-- Poller.cc. A channel is an object at an address, as in `Channel`; `channels_` maps descriptors to
-- addresses. The calls of `epoll_ctl` are recorded, newest first, and its failure is left out;
-- what `epoll_wait` returns is an argument. `none` is a failed assertion.
pub mod Agree
pub mod Watch
pub mod Poll
use rfcs.Common.{
  ℕ, ◌*◌, Bool, true, false, not, ◌&&◌, ◌||◌, List, [], ◌∷◌, ◌++◌, Option, some, none,
  if◌then◌else◌, leb, ◌==◌, length, ◌>>=◌, ◌>>◌, assert,
}
use rfcs.Common.Int.{ℤ, pos, negsuc}
use rfcs.Channel.{Channel, Events, is_none_event}

-- `EPOLL_CTL_ADD`, `EPOLL_CTL_MOD` and `EPOLL_CTL_DEL`
pub data Operation : Type 0 where
  adds modifies deletes : Operation

pub record Control : Type 0 where
  pub operation : Operation
  pub fd : ℕ
  pub events : Events
  pub pointer : ℕ

pub record EPollPoller : Type 0 where
  pub object : ℕ → Channel
  pub channels : ℕ → Option ℕ
  pub controls : List Control
  pub capacity : ℕ

-- `kNew`, `kAdded` and `kDeleted`, and `kInitEventListSize`
abbrev pub new_index : ℤ
new_index = negsuc 0

abbrev pub added_index : ℤ
added_index = pos 1

abbrev pub deleted_index : ℤ
deleted_index = pos 2

abbrev pub init : (ℕ → Channel) → EPollPoller
init object = record { object = object; channels = λ fd. none; controls = []; capacity = 16 }

abbrev pub is_new : ℤ → Bool
is_new (negsuc n) = n == 0
is_new (pos n) = false

abbrev pub is_added : ℤ → Bool
is_added (negsuc n) = false
is_added (pos n) = n == 1

abbrev pub is_deleted : ℤ → Bool
is_deleted (negsuc n) = false
is_deleted (pos n) = n == 2

-- `channels_.find(fd)` is this channel, or there is none.
abbrev pub is_at : Option ℕ → ℕ → Bool
is_at none p = false
is_at (some p') p = p' == p

abbrev pub is_absent : Option ℕ → Bool
is_absent none = true
is_absent (some p) = false

abbrev pub set_channel : ℕ → Channel → EPollPoller → EPollPoller
set_channel p c e = record e { object = λ p'. if p == p' then c else e.object p' }

abbrev pub set_index : ℕ → ℤ → EPollPoller → EPollPoller
set_index p index e = set_channel p (record (e.object p) { index = index }) e

abbrev pub register : ℕ → Option ℕ → EPollPoller → EPollPoller
register fd o e = record e { channels = λ fd'. if fd == fd' then o else e.channels fd' }

-- `update`
abbrev pub control : Operation → ℕ → EPollPoller → EPollPoller
control operation p e = record e {
  controls =
      record {
        operation = operation;
        fd = (e.object p).fd;
        events = (e.object p).events;
        pointer = p;
      }
      ∷ e.controls;
}

unfoldable pub has_channel : ℕ → EPollPoller → Bool
has_channel p e = is_at (e.channels (e.object p).fd) p

unfoldable pub update_channel : ℕ → EPollPoller → Option EPollPoller
update_channel p e =
    let c = e.object p in
    if is_new c.index || is_deleted c.index
    then (if is_new c.index
        then (assert (is_absent (e.channels c.fd))
            >> some (control adds p (set_index p added_index (register c.fd (some p) e))))
        else (assert (is_at (e.channels c.fd) p)
            >> some (control adds p (set_index p added_index e))))
    else (do
      assert (is_at (e.channels c.fd) p)
      assert (is_added c.index)
      some (
          if is_none_event c
          then set_index p deleted_index (control deletes p e)
          else control modifies p e))

unfoldable pub remove_channel : ℕ → EPollPoller → Option EPollPoller
remove_channel p e =
    let c = e.object p in
    do
      assert (is_at (e.channels c.fd) p)
      assert (is_none_event c)
      assert (is_added c.index || is_deleted c.index)
      let e' = register c.fd none e
      some (set_index p new_index (if is_added c.index then control deletes p e' else e'))

-- An event that `epoll_wait` returns: the pointer that was given, and the flags.
unfoldable pub fill_active_channels :
    List (ℕ × Events) → EPollPoller → Option (List ℕ × EPollPoller)
fill_active_channels [] e = some ([], e)
fill_active_channels ((p, revents) ∷ rest) e =
    assert (is_at (e.channels (e.object p).fd) p)
    >> (fill_active_channels rest (set_channel p (record (e.object p) { revents = revents }) e)
        >>= λ (active, e'). some (p ∷ active, e'))

-- `poll`, when `epoll_wait` returns these events: the list for the events doubles when it is full.
unfoldable pub poll : List (ℕ × Events) → EPollPoller → Option (List ℕ × EPollPoller)
unfolding fill_active_channels
poll returned e = do
  assert (leb (length returned) e.capacity)
  (active, e') ← fill_active_channels returned e
  some (
    active,
    if length returned == e.capacity then record e' { capacity = e.capacity * 2 } else e',
  )
