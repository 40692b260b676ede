-- ===== src/Connector/Sound.antt =====
-- No socket of a connector is lost or closed twice: the invariant, and the calls that open a socket.
use rfcs.Common.{
  ℕ, ◌+◌, ◌≤◌, ◌≡◌, refl, Bool, true, false, ◌==◌, List, [], ◌∷◌, ◌++◌, Option, some, none,
  if◌then◌else◌, arith, subst, ◌⊎◌, inl, inr,
}
use rfcs.Channel.{Channel, none_event}
use rfcs.Connector.{
  Connector, State, Functor, starts, stops, resets_channel, ConnectResult, in_progress, try_again,
  failed, close, max_retry_delay, init_retry_delay, is_connecting, is_none, retry, begin_connecting,
  try_connect, start_in_loop, remove_and_reset_channel, connection_made, queue,
}

abbrev pub count : ℕ → List ℕ → ℕ
count x [] = 0
count x (y ∷ ys) = (if y == x then 1 else 0) + count x ys

abbrev pub resets : List Functor → ℕ
resets [] = 0
resets (resets_channel ∷ fs) = 1 + resets fs
resets (starts ∷ fs) = resets fs
resets (stops ∷ fs) = resets fs

-- 1 if the channel watches this socket in the state connecting.
abbrev pub watched : ℕ → Option Channel → ℕ
watched x none = 0
watched x (some channel) = if channel.fd == x then 1 else 0

abbrev pub held : ℕ → Connector → ℕ
held x c = if is_connecting c.state then watched x c.channel else 0

-- The channel is there as long as it watches a socket or waits to be reset, and is reset once.
abbrev pub due : Connector → ℕ
due c = if is_connecting c.state then 0 else (if is_none c.channel then 0 else 1)

pub record Sound (c : Connector) : Type 0 where
  pub watches : is_connecting c.state ≡ true → is_none c.channel ≡ false
  pub one_reset : resets c.queued ≡ due c
  pub delay_least : init_retry_delay ≤ c.retry_delay
  pub delay_most : c.retry_delay ≤ max_retry_delay
  pub settled : (x : ℕ) → count x c.opened ≡ count x c.closed + count x c.handed + held x c

pub resets-append : (fs gs : List Functor) → resets (fs ++ gs) ≡ resets fs + resets gs
resets-append [] gs = omega arith
resets-append (starts ∷ fs) gs = resets-append fs gs
resets-append (stops ∷ fs) gs = resets-append fs gs
resets-append (resets_channel ∷ fs) gs = omega (arith, resets-append fs gs)

-- A connector whose socket is out of the channel and must be given up, handed on or closed.
pub record Loose (sockfd : ℕ) (c : Connector) : Type 0 where
  pub one_reset : resets c.queued ≡ (if is_none c.channel then 0 else 1)
  pub delay_least : init_retry_delay ≤ c.retry_delay
  pub delay_most : c.retry_delay ≤ max_retry_delay
  pub settled :
      (x : ℕ)
      → count x c.opened ≡ count x c.closed + count x c.handed + (if sockfd == x then 1 else 0)

pub retry-Sound : (sockfd : ℕ) (c : Connector) → Loose sockfd c → Sound (retry sockfd c)
unfolding retry
retry-Sound sockfd c l = record {
  watches = ground arith;
  one_reset = ground (arith, l.one_reset);
  delay_least = ground (arith, l.delay_least);
  delay_most = ground (arith, l.delay_most);
  settled = λ x. ground (arith, l.settled x);
}

pub connection_made-Sound :
    (e s : Bool) (sockfd : ℕ) (c : Connector)
    → Loose sockfd c
    → Sound (connection_made e s (sockfd, c))
unfolding connection_made
connection_made-Sound true s sockfd c l = retry-Sound sockfd c l
connection_made-Sound false true sockfd c l = retry-Sound sockfd c l
connection_made-Sound false false sockfd c l = record {
  watches = ground arith;
  one_reset = ground (arith, l.one_reset);
  delay_least = ground (arith, l.delay_least);
  delay_most = ground (arith, l.delay_most);
  settled = λ x. ground (arith, l.settled x);
}

pub remove-Loose :
    (c : Connector) (st : State)
    → Sound c
    → is_connecting c.state ≡ true
    → (sockfd : ℕ) × (d : Connector) × (remove_and_reset_channel (record c { state = st })
        ≡ some (sockfd, d))
      × Loose sockfd d
unfolding remove_and_reset_channel
remove-Loose c st s up = go c.channel refl
  where
    go :
        (o : Option Channel)
        → c.channel ≡ o
        → (sockfd : ℕ) × (d : Connector) × (remove_and_reset_channel (record c { state = st })
            ≡ some (sockfd, d))
          × Loose sockfd d
    go none e = absurd (ground (arith, s.watches up))
    go (some channel) e = (
      channel.fd,
      queue resets_channel (record c {
        state = st;
        channel = some (record channel { events = none_event; added_to_loop = false });
      }),
      rw e refl,
      record {
        one_reset = ground (arith, s.one_reset, resets-append c.queued (resets_channel ∷ []));
        delay_least = s.delay_least;
        delay_most = s.delay_most;
        settled = λ x. ground (arith, s.settled x);
      },
    )

begin_connecting-Sound :
    (sockfd : ℕ) (c c' : Connector)
    → Loose sockfd c
    → begin_connecting sockfd c ≡ some c'
    → Sound c'
unfolding begin_connecting
begin_connecting-Sound sockfd c c' l e = record {
  watches = ground arith;
  one_reset = ground (arith, l.one_reset);
  delay_least = ground (arith, l.delay_least);
  delay_most = ground (arith, l.delay_most);
  settled = λ x. ground (arith, l.settled x);
}

opened-Loose :
    (sockfd : ℕ) (c : Connector)
    → Sound c
    → is_connecting c.state ≡ false
    → Loose sockfd (record c { opened = sockfd ∷ c.opened })
opened-Loose sockfd c s idle = record {
  one_reset = ground (arith, s.one_reset);
  delay_least = s.delay_least;
  delay_most = s.delay_most;
  settled = λ x. ground (arith, s.settled x);
}

pub Sound-some : (c c' : Connector) → Sound c → some c ≡ some c' → Sound c'
Sound-some c c' s e = subst Sound (some_is e) s
  where
    some_is : {a b : Connector} → some a ≡ some b → a ≡ b
    some_is e = cc

closed-Sound :
    (sockfd : ℕ) (c : Connector)
    → Loose sockfd c
    → is_connecting c.state ≡ false
    → Sound (close sockfd c)
closed-Sound sockfd c l idle = record {
  watches = ground arith;
  one_reset = ground (arith, l.one_reset);
  delay_least = l.delay_least;
  delay_most = l.delay_most;
  settled = λ x. ground (arith, l.settled x);
}

try_connect-Sound :
    (sockfd : ℕ) (answer : ConnectResult) (c c' : Connector)
    → Sound c
    → is_connecting c.state ≡ false
    → try_connect sockfd answer c ≡ some c'
    → Sound c'
unfolding try_connect
try_connect-Sound sockfd in_progress c c' s idle e =
    begin_connecting-Sound sockfd _ c' (opened-Loose sockfd c s idle) e
try_connect-Sound sockfd try_again c c' s idle e =
    Sound-some _ c' (retry-Sound sockfd _ (opened-Loose sockfd c s idle)) e
try_connect-Sound sockfd failed c c' s idle e =
    Sound-some _ c' (closed-Sound sockfd _ (opened-Loose sockfd c s idle) idle) e

start_in_loop_cases :
    (sockfd : ℕ) (answer : ConnectResult) (c c' : Connector)
    → start_in_loop sockfd answer c ≡ some c'
    → (is_connecting c.state ≡ false) × ((try_connect sockfd answer c ≡ some c') ⊎ (c ≡ c'))
unfolding start_in_loop
start_in_loop_cases sockfd answer c c' e = ground arith

pub start_in_loop-Sound :
    (sockfd : ℕ) (answer : ConnectResult) (c c' : Connector)
    → Sound c
    → start_in_loop sockfd answer c ≡ some c'
    → Sound c'
start_in_loop-Sound sockfd answer c c' s e = by_case (start_in_loop_cases sockfd answer c c' e)
  where
    by_case :
        (is_connecting c.state ≡ false) × ((try_connect sockfd answer c ≡ some c') ⊎ (c ≡ c'))
        → Sound c'
    by_case (idle, inl tried) = try_connect-Sound sockfd answer c c' s idle tried
    by_case (idle, inr same) = subst Sound same s
