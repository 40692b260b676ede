-- ===== src/Poller/EPoll/Agree.antt =====
-- What the calls of `epoll_ctl` ask of the kernel, and that it agrees with the channels.
use rfcs.Common.{
  ℕ, ◌≡◌, refl, sym, ap, ◌∙◌, Bool, true, false, ◌||◌, List, [], ◌∷◌, Option, some, none,
  if◌then◌else◌, ◌==◌, arith,
}
use rfcs.Channel.{Channel, Events}
use rfcs.Poller.EPoll.{
  EPollPoller, Operation, adds, modifies, deletes, Control, is_new, is_added, is_deleted, is_at,
  is_absent, set_channel, update_channel,
}

-- What is asked of the kernel for a descriptor, by the last call on it.
unfoldable pub watched : List Control → ℕ → Option (Events × ℕ)
watched [] fd = none
watched (c ∷ cs) fd =
    let before = watched cs fd in
    if c.fd == fd
    then elim c.operation [
      | adds ↦ some (c.events, c.pointer)
      | modifies ↦ some (c.events, c.pointer)
      | deletes ↦ none
    ]
    else before

abbrev pub is_some : Option (Events × ℕ) → Bool
is_some none = false
is_some (some w) = true

-- A descriptor is added when it is not watched, and changed or deleted when it is.
unfoldable pub InTurn : List Control → Type 0
unfolding watched
InTurn [] = Unit {0}
InTurn (c ∷ cs) =
    (is_some (watched cs c.fd)
      ≡ elim c.operation [ adds ↦ false | modifies ↦ true | deletes ↦ true ])
    × InTurn cs

-- What the channels ask for.
abbrev pub asked : EPollPoller → ℕ → Option (Events × ℕ)
asked e fd = elim (e.channels fd) [
  | none ↦ none
  | some p ↦ if is_added (e.object p).index then some ((e.object p).events, p) else none
]

pub record Agrees (e : EPollPoller) : Type 0 where
  pub watches : (fd : ℕ) → watched e.controls fd ≡ asked e fd
  pub in_turn : InTurn e.controls
  pub own_fd : (fd p : ℕ) → is_at (e.channels fd) p ≡ true → (e.object p).fd ≡ fd
  pub indices :
      (p : ℕ)
      → (if is_at (e.channels (e.object p).fd) p
          then is_added (e.object p).index || is_deleted (e.object p).index
          else is_new (e.object p).index)
        ≡ true

-- The owner of a channel changes its events and calls `update`.
unfoldable pub change : ℕ → Events → EPollPoller → Option EPollPoller
unfolding update_channel
change p events e = update_channel p (set_channel p (record (e.object p) { events = events }) e)

abbrev pub pointer_at : Option ℕ → ℕ
pointer_at none = 0
pointer_at (some p) = p

-- `e'` is `e` after a call on the channel at `p`, which is `c` then, and registered.
pub record Became (e e' : EPollPoller) (p : ℕ) (c : Channel) (operation : Operation) : Type 0 where
  pub object : (p' : ℕ) → e'.object p' ≡ (if p == p' then c else e.object p')
  pub channels : (fd : ℕ) → e'.channels fd ≡ (if c.fd == fd then some p else e.channels fd)
  pub controls :
      e'.controls
      ≡ record { operation = operation; fd = c.fd; events = c.events; pointer = p } ∷ e.controls
  pub same_fd : c.fd ≡ (e.object p).fd
  pub index : is_added c.index ≡ elim operation [ adds ↦ true | modifies ↦ true | deletes ↦ false ]
  pub index_ok : is_added c.index || is_deleted c.index ≡ true
  pub turn :
      is_some (asked e c.fd) ≡ elim operation [ adds ↦ false | modifies ↦ true | deletes ↦ true ]
  pub owner : (is_at (e.channels c.fd) p || is_absent (e.channels c.fd)) ≡ true

module _ (e e' : EPollPoller) (p : ℕ) (c : Channel) (operation : Operation) (a : Agrees e)
    (b : Became e e' p c operation) where
  watched-Became :
      (fd : ℕ)
      → watched e'.controls fd ≡ (
          if c.fd == fd
          then elim operation [
            | adds ↦ some (c.events, p)
            | modifies ↦ some (c.events, p)
            | deletes ↦ none
          ]
          else watched e.controls fd)
  unfolding watched
  watched-Became fd = rw b.controls refl

  asked-Became :
      (fd : ℕ)
      → asked e' fd ≡ (
          if c.fd == fd
          then elim operation [
            | adds ↦ some (c.events, p)
            | modifies ↦ some (c.events, p)
            | deletes ↦ none
          ]
          else asked e fd)
  asked-Became fd = ground (
    arith,
    b.channels fd,
    b.object p,
    b.index,
    b.same_fd,
    b.object (pointer_at (e.channels fd)),
    a.own_fd fd (pointer_at (e.channels fd)),
  )

  InTurn-Became : InTurn e'.controls
  unfolding InTurn
  InTurn-Became = rw b.controls (ap is_some (a.watches c.fd) ∙ b.turn, a.in_turn)

  pub Became-Agrees : Agrees e'
  Became-Agrees = record {
    watches = λ fd. watched-Became fd ∙ ground (arith, a.watches fd) ∙ sym (asked-Became fd);
    in_turn = InTurn-Became;
    own_fd = λ fd p' h. ground (arith, b.channels fd, b.object p', b.same_fd, a.own_fd fd p', h);
    indices = λ p'. ground (
      arith,
      b.object p',
      b.channels (e.object p').fd,
      b.channels c.fd,
      b.same_fd,
      b.owner,
      b.index_ok,
      a.indices p',
      a.own_fd c.fd p',
    );
  }
