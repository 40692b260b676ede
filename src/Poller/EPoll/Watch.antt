-- ===== src/Poller/EPoll/Watch.antt =====
-- What the calls of `epoll_ctl` come to, and how it agrees with the channels.
use rfcs.Common.{
  ℕ, ◌≡◌, refl, ap, ◌∙◌, true, false, ◌||◌, List, ◌∷◌, Option, some, none, if◌then◌else◌, ◌==◌,
  arith, ◌⊎◌, inl, inr, Bool-cases,
}
use rfcs.Common.Int.{ℤ}
use rfcs.Channel.{Channel, Events, is_none_event}
use rfcs.Poller.EPoll.{
  EPollPoller, control, set_index, added_index, deleted_index, new_index, register, adds, modifies,
  deletes, Control, is_added, is_deleted, is_at, is_absent, set_channel, update_channel,
  remove_channel, has_channel,
}
use rfcs.Poller.EPoll.Agree.{
  watched, is_some, InTurn, asked, Agrees, change, pointer_at, Became-Agrees,
}

module _ (p : ℕ) (events : Events) (e : EPollPoller) (a : Agrees e) where
  -- The poller with the new events, and the channel with an index.
  abbrev told : EPollPoller
  told = set_channel p (record (e.object p) { events = events }) e

  abbrev indexed : ℤ → Channel
  indexed i = record (e.object p) { events = events; index = i }

  Changed : Option EPollPoller → Type 0
  Changed r = (e' : EPollPoller) × (r ≡ some e') × Agrees e'

  change_fresh : is_absent (e.channels (e.object p).fd) ≡ true → Changed (change p events e)
  unfolding change update_channel Changed
  change_fresh absent =
      let e' : EPollPoller =
        control adds p (set_index p added_index (register (e.object p).fd (some p) told)) in
      (
        e',
        ground (arith, absent, a.indices p),
        Became-Agrees e e' p (indexed added_index) adds a (record {
          object = λ p'. ground arith;
          channels = λ fd. ground arith;
          controls = ground arith;
          same_fd = refl;
          index = refl;
          index_ok = refl;
          turn = ground (arith, absent);
          owner = ground (arith, absent);
        }),
      )

  change_deleted :
      is_at (e.channels (e.object p).fd) p ≡ true
      → is_deleted (e.object p).index ≡ true
      → Changed (change p events e)
  unfolding change update_channel Changed
  change_deleted at deleted =
      let e' : EPollPoller = control adds p (set_index p added_index told) in
      (
        e',
        ground (arith, at, deleted),
        Became-Agrees e e' p (indexed added_index) adds a (record {
          object = λ p'. ground arith;
          channels = λ fd. ground (arith, at);
          controls = ground arith;
          same_fd = refl;
          index = refl;
          index_ok = refl;
          turn = ground (arith, at, deleted);
          owner = ground (arith, at);
        }),
      )

  change_none :
      is_at (e.channels (e.object p).fd) p ≡ true
      → is_added (e.object p).index ≡ true
      → is_none_event (told.object p) ≡ true
      → Changed (change p events e)
  unfolding change update_channel Changed
  change_none at added nothing =
      let e' : EPollPoller = set_index p deleted_index (control deletes p told) in
      (
        e',
        ground (arith, at, added, nothing),
        Became-Agrees e e' p (indexed deleted_index) deletes a (record {
          object = λ p'. ground arith;
          channels = λ fd. ground (arith, at);
          controls = ground arith;
          same_fd = refl;
          index = refl;
          index_ok = refl;
          turn = ground (arith, at, added);
          owner = ground (arith, at);
        }),
      )

  change_some :
      is_at (e.channels (e.object p).fd) p ≡ true
      → is_added (e.object p).index ≡ true
      → is_none_event (told.object p) ≡ false
      → Changed (change p events e)
  unfolding change update_channel Changed
  change_some at added something =
      let e' : EPollPoller = control modifies p told in
      (
        e',
        ground (arith, at, added, something),
        Became-Agrees e e' p (record (e.object p) { events = events }) modifies a
            (record {
              object = λ p'. ground arith;
              channels = λ fd. ground (arith, at);
              controls = ground arith;
              same_fd = refl;
              index = added;
              index_ok = ground (arith, added);
              turn = ground (arith, at, added);
              owner = ground (arith, at);
            }),
      )

  change_at : is_at (e.channels (e.object p).fd) p ≡ true → Changed (change p events e)
  change_at at =
      by_index (Bool-cases (is_added (e.object p).index))
        (Bool-cases (is_none_event (told.object p)))
    where
      by_index :
          (is_added (e.object p).index ≡ true) ⊎ (is_added (e.object p).index ≡ false)
          → (is_none_event (told.object p) ≡ true) ⊎ (is_none_event (told.object p) ≡ false)
          → Changed (change p events e)
      by_index (inr k) n = change_deleted at (ground (arith, at, k, a.indices p))
      by_index (inl k) (inl n) = change_none at k n
      by_index (inl k) (inr n) = change_some at k n

  -- The owner of a channel, new or old, whose descriptor no other channel has, changes its events: no assertion fails, and
  -- what is asked of the kernel agrees with the channels after it, in calls that are in turn.
  pub change-Agrees :
      (is_at (e.channels (e.object p).fd) p || is_absent (e.channels (e.object p).fd)) ≡ true
      → (e' : EPollPoller) × (change p events e ≡ some e') × Agrees e'
  unfolding Changed
  change-Agrees own = by_owner (Bool-cases (is_absent (e.channels (e.object p).fd)))
    where
      by_owner :
          (is_absent (e.channels (e.object p).fd) ≡ true)
            ⊎ (is_absent (e.channels (e.object p).fd) ≡ false)
          → (e' : EPollPoller) × (change p events e ≡ some e') × Agrees e'
      by_owner (inl k) = change_fresh k
      by_owner (inr k) = change_at (ground (arith, own, k))

-- The poller after a channel has been removed.
abbrev removed : ℕ → EPollPoller → EPollPoller
removed p e =
    let c = e.object p in
    let e' = register c.fd none e in
    set_index p new_index (if is_added c.index then control deletes p e' else e')

abbrev pub ctl_removed : ℕ → EPollPoller → List Control
ctl_removed p e =
    if is_added (e.object p).index
    then record {
      operation = deletes;
      fd = (e.object p).fd;
      events = (e.object p).events;
      pointer = p;
    }
      ∷ e.controls
    else e.controls

record Removed (e e' : EPollPoller) (p : ℕ) : Type 0 where
  object :
      (p' : ℕ)
      → e'.object p' ≡ (if p == p' then record (e.object p) { index = new_index } else e.object p')
  channels : (fd : ℕ) → e'.channels fd ≡ (if (e.object p).fd == fd then none else e.channels fd)
  controls : e'.controls ≡ ctl_removed p e
  owner : is_at (e.channels (e.object p).fd) p ≡ true

module _ (e e' : EPollPoller) (p : ℕ) (a : Agrees e) (r : Removed e e' p) where
  asked_fd :
      asked e (e.object p).fd
      ≡ (if is_added (e.object p).index then some ((e.object p).events, p) else none)
  asked_fd = ground (arith, r.owner)

  watched-Removed :
      (fd : ℕ)
      → watched e'.controls fd ≡ (if (e.object p).fd == fd then none else watched e.controls fd)
  unfolding watched
  watched-Removed fd = rw r.controls (ground (arith, asked_fd, a.watches (e.object p).fd))

  InTurn-Removed : InTurn e'.controls
  unfolding InTurn
  InTurn-Removed = rw r.controls (by_index (Bool-cases (is_added (e.object p).index)))
    where
      by_index :
          (is_added (e.object p).index ≡ true) ⊎ (is_added (e.object p).index ≡ false)
          → InTurn (ctl_removed p e)
      by_index (inl k) =
          rw k (ap is_some (a.watches (e.object p).fd ∙ asked_fd) ∙ ground (arith, k), a.in_turn)
      by_index (inr k) = rw k a.in_turn

  Removed-Agrees : Agrees e'
  Removed-Agrees = record {
    watches = λ fd.
        watched-Removed fd
        ∙ ground (
          arith,
          a.watches fd,
          r.channels fd,
          r.object (pointer_at (e.channels fd)),
          a.own_fd fd (pointer_at (e.channels fd)),
        );
    in_turn = InTurn-Removed;
    own_fd = λ fd p' h. ground (arith, r.channels fd, r.object p', a.own_fd fd p', h);
    indices = λ p'. ground (
      arith,
      r.object p',
      r.channels (e.object p').fd,
      a.indices p',
      a.own_fd (e.object p).fd p',
      r.owner,
    );
  }

-- A channel that is registered and waits for nothing is removed: no assertion fails, and no call on its descriptor is left
-- standing.
pub remove_channel-Agrees :
    (p : ℕ) (e : EPollPoller)
    → Agrees e
    → has_channel p e ≡ true
    → is_none_event (e.object p) ≡ true
    → (e' : EPollPoller) × (remove_channel p e ≡ some e')
      × Agrees e'
      × (watched e'.controls (e.object p).fd ≡ none)
      × (has_channel p e' ≡ false)
unfolding remove_channel has_channel
remove_channel-Agrees p e a at nothing =
    let r : Removed e (removed p e) p = record {
      object = λ p'. ground arith;
      channels = λ fd. ground arith;
      controls = ground arith;
      owner = at;
    } in
    (
      removed p e,
      ground (arith, at, nothing, a.indices p),
      Removed-Agrees e (removed p e) p a r,
      watched-Removed e (removed p e) p a r (e.object p).fd ∙ ground arith,
      ground arith,
    )
