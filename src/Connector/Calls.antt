-- ===== src/Connector/Calls.antt =====
-- The calls of a connector, and the functors that it queues, keep the invariant of its sockets.
use rfcs.Common.{
  ℕ, ◌+◌, ◌≡◌, refl, sym, ap, ◌∙◌, Bool, true, false, List, [], ◌∷◌, some, arith, subst, ◌⊎◌, inl,
  inr,
}
use rfcs.Connector.{
  Connector, disconnected, Functor, starts, stops, resets_channel, ConnectResult, is_connecting,
  retry, start, stop, remove_and_reset_channel, reset_channel, stop_in_loop, connection_made,
  handle_write, handle_error, perform, queue,
}
use rfcs.Connector.Sound.{
  resets, due, Sound, resets-append, retry-Sound, connection_made-Sound, remove-Loose, Sound-some,
  start_in_loop-Sound,
}

-- An operation that leaves the sockets and the channel as they are.
module _ (c : Connector) (s : Sound c) where
  wants-Sound : (b : Bool) → Sound (record c { connect = b })
  wants-Sound b = record {
    watches = s.watches;
    one_reset = s.one_reset;
    delay_least = s.delay_least;
    delay_most = s.delay_most;
    settled = s.settled;
  }

  queue_starts-Sound : Sound (queue starts c)
  queue_starts-Sound = record {
    watches = s.watches;
    one_reset = ground (arith, s.one_reset, resets-append c.queued (starts ∷ []));
    delay_least = s.delay_least;
    delay_most = s.delay_most;
    settled = s.settled;
  }

  queue_stops-Sound : Sound (queue stops c)
  queue_stops-Sound = record {
    watches = s.watches;
    one_reset = ground (arith, s.one_reset, resets-append c.queued (stops ∷ []));
    delay_least = s.delay_least;
    delay_most = s.delay_most;
    settled = s.settled;
  }

pub start-Sound :
    (in_loop : Bool) (sockfd : ℕ) (answer : ConnectResult) (c c' : Connector)
    → Sound c
    → start in_loop sockfd answer c ≡ some c'
    → Sound c'
unfolding start
start-Sound true sockfd answer c c' s e =
    start_in_loop-Sound sockfd answer (record c { connect = true }) c' (wants-Sound c s true) e
start-Sound false sockfd answer c c' s e =
    Sound-some _ c' (queue_starts-Sound (record c { connect = true }) (wants-Sound c s true)) e

pub stop-Sound : (c : Connector) → Sound c → Sound (stop c)
unfolding stop
stop-Sound c s = queue_stops-Sound (record c { connect = false }) (wants-Sound c s false)

-- The socket comes out of the channel, when there is one, and is given up.
handle_error_cases :
    (c c' : Connector) (sockfd : ℕ) (d : Connector)
    → remove_and_reset_channel c ≡ some (sockfd, d)
    → handle_error c ≡ some c'
    → (retry sockfd d ≡ c') ⊎ (c ≡ c')
unfolding handle_error
handle_error_cases c c' sockfd d r e = ground arith

handle_error_idle :
    (c c' : Connector) → is_connecting c.state ≡ false → handle_error c ≡ some c' → c ≡ c'
unfolding handle_error
handle_error_idle c c' idle e = ground arith

stop_in_loop_cases :
    (c c' : Connector) (sockfd : ℕ) (d : Connector)
    → remove_and_reset_channel (record c { state = disconnected }) ≡ some (sockfd, d)
    → stop_in_loop c ≡ some c'
    → (retry sockfd d ≡ c') ⊎ (c ≡ c')
unfolding stop_in_loop
stop_in_loop_cases c c' sockfd d r e = ground arith

stop_in_loop_idle :
    (c c' : Connector) → is_connecting c.state ≡ false → stop_in_loop c ≡ some c' → c ≡ c'
unfolding stop_in_loop
stop_in_loop_idle c c' idle e = ground arith

handle_write_cases :
    (has_error is_self : Bool) (c c' : Connector) (sockfd : ℕ) (d : Connector)
    → remove_and_reset_channel c ≡ some (sockfd, d)
    → handle_write has_error is_self c ≡ some c'
    → (connection_made has_error is_self (sockfd, d) ≡ c') ⊎ (c ≡ c')
unfolding handle_write
handle_write_cases has_error is_self c c' sockfd d r e = ground arith

handle_write_idle :
    (has_error is_self : Bool) (c c' : Connector)
    → is_connecting c.state ≡ false
    → handle_write has_error is_self c ≡ some c'
    → c ≡ c'
unfolding handle_write
handle_write_idle has_error is_self c c' idle e = ground arith

-- What holds of the next connector, whether the operation did something or not.
next-Sound : {d : Connector} (c c' : Connector) → Sound c → Sound d → (d ≡ c') ⊎ (c ≡ c') → Sound c'
next-Sound c c' s t (inl e) = subst Sound e t
next-Sound c c' s t (inr e) = subst Sound e s

pub handle_error-Sound : (c c' : Connector) → Sound c → handle_error c ≡ some c' → Sound c'
handle_error-Sound c c' s e = by_state (is_connecting c.state) refl
  where
    by_state : (b : Bool) → is_connecting c.state ≡ b → Sound c'
    by_state false idle = subst Sound (handle_error_idle c c' idle e) s
    by_state true up =
        let (sockfd, d, r, l) = remove-Loose c c.state s up in
        next-Sound c c' s (retry-Sound sockfd d l) (handle_error_cases c c' sockfd d r e)

stop_in_loop-Sound : (c c' : Connector) → Sound c → stop_in_loop c ≡ some c' → Sound c'
stop_in_loop-Sound c c' s e = by_state (is_connecting c.state) refl
  where
    by_state : (b : Bool) → is_connecting c.state ≡ b → Sound c'
    by_state false idle = subst Sound (stop_in_loop_idle c c' idle e) s
    by_state true up =
        let (sockfd, d, r, l) = remove-Loose c disconnected s up in
        next-Sound c c' s (retry-Sound sockfd d l) (stop_in_loop_cases c c' sockfd d r e)

pub handle_write-Sound :
    (has_error is_self : Bool) (c c' : Connector)
    → Sound c
    → handle_write has_error is_self c ≡ some c'
    → Sound c'
handle_write-Sound has_error is_self c c' s e = by_state (is_connecting c.state) refl
  where
    by_state : (b : Bool) → is_connecting c.state ≡ b → Sound c'
    by_state false idle = subst Sound (handle_write_idle has_error is_self c c' idle e) s
    by_state true up =
        let (sockfd, d, r, l) = remove-Loose c c.state s up in
        next-Sound c c' s (connection_made-Sound has_error is_self sockfd d l)
          (handle_write_cases has_error is_self c c' sockfd d r e)

-- The functor that has waited longest has left the queue.
popped-Sound :
    (c : Connector) (f : Functor) (fs : List Functor)
    → Sound c
    → c.queued ≡ f ∷ fs
    → resets (f ∷ fs) ≡ resets fs
    → Sound (record c { queued = fs })
popped-Sound c f fs s e same = record {
  watches = s.watches;
  one_reset = sym same ∙ sym (ap resets e) ∙ s.one_reset;
  delay_least = s.delay_least;
  delay_most = s.delay_most;
  settled = s.settled;
}

reset_channel-Sound :
    (c : Connector) (fs : List Functor)
    → Sound c
    → c.queued ≡ resets_channel ∷ fs
    → Sound (reset_channel (record c { queued = fs }))
unfolding reset_channel
reset_channel-Sound c fs s e =
    let one : 1 + resets fs ≡ due c = sym (ap resets e) ∙ s.one_reset in
    record {
      watches = ground arith;
      one_reset = ground arith;
      delay_least = s.delay_least;
      delay_most = s.delay_most;
      settled = λ x. ground (arith, s.settled x);
    }

pub perform-Sound :
    (f : Functor) (fs : List Functor) (sockfd : ℕ) (answer : ConnectResult) (c c' : Connector)
    → Sound c
    → c.queued ≡ f ∷ fs
    → perform f sockfd answer (record c { queued = fs }) ≡ some c'
    → Sound c'
perform-Sound starts fs sockfd answer c c' s q e =
    start_in_loop-Sound sockfd answer _ c' (popped-Sound c starts fs s q refl) e
perform-Sound stops fs sockfd answer c c' s q e =
    stop_in_loop-Sound _ c' (popped-Sound c stops fs s q refl) e
perform-Sound resets_channel fs sockfd answer c c' s q e =
    Sound-some _ c' (reset_channel-Sound c fs s q) e
