-- ===== src/Connector/Sockets.antt =====
-- No socket of a connector is lost, and its channel is one that the loop still knows or forgets.
use rfcs.Common.{ℕ, ◌≡◌, refl, sym, ◌∙◌, Bool, true, false, List, [], ◌∷◌, some, arith}
use rfcs.Connector.{
  Connector, init, disconnected, Functor, ConnectResult, init_retry_delay, is_connecting,
  start_in_loop, start, stop, restart, handle_write, handle_error, run_queued, perform,
}
use rfcs.Connector.Sound.{Sound, Sound-some, start_in_loop-Sound}
use rfcs.Connector.Calls.{
  start-Sound, stop-Sound, handle_error-Sound, handle_write-Sound, perform-Sound,
}

run_queued_none :
    (sockfd : ℕ) (answer : ConnectResult) (c : Connector)
    → c.queued ≡ []
    → run_queued sockfd answer c ≡ some c
unfolding run_queued
run_queued_none sockfd answer c q = ground (arith, q)

run_queued_first :
    (f : Functor) (fs : List Functor) (sockfd : ℕ) (answer : ConnectResult) (c : Connector)
    → c.queued ≡ f ∷ fs
    → run_queued sockfd answer c ≡ perform f sockfd answer (record c { queued = fs })
unfolding run_queued
run_queued_first f fs sockfd answer c q = rw (q, run_queued) refl

run_queued-Sound :
    (sockfd : ℕ) (answer : ConnectResult) (c c' : Connector)
    → Sound c
    → run_queued sockfd answer c ≡ some c'
    → Sound c'
run_queued-Sound sockfd answer c c' s e = go c.queued refl
  where
    go : (fs : List Functor) → c.queued ≡ fs → Sound c'
    go [] q = Sound-some c c' s (sym (run_queued_none sockfd answer c q) ∙ e)
    go (f ∷ fs) q =
        perform-Sound f fs sockfd answer c c' s q
          (sym (run_queued_first f fs sockfd answer c q) ∙ e)

restart-Sound :
    (sockfd : ℕ) (answer : ConnectResult) (c c' : Connector)
    → Sound c
    → is_connecting c.state ≡ false
    → restart sockfd answer c ≡ some c'
    → Sound c'
unfolding restart
restart-Sound sockfd answer c c' s idle e =
    start_in_loop-Sound sockfd answer
      (record c { state = disconnected; retry_delay = init_retry_delay; connect = true }) c'
      (record {
        watches = ground arith;
        one_reset = ground (arith, s.one_reset);
        delay_least = omega arith;
        delay_most = omega arith;
        settled = λ x. ground (arith, s.settled x);
      })
      e

-- The steps of a connector: the calls of its user and of its loop, with what the system answers.
-- `restart` is called between two connections, not while one is being made.
pub data Step (c : Connector) : Connector → Type 0 where
  starts_from :
      (in_loop : Bool) (sockfd : ℕ) (answer : ConnectResult) {c' : Connector}
      → start in_loop sockfd answer c ≡ some c'
      → Step c c'
  stops_later : Step c (stop c)
  restarts :
      (sockfd : ℕ) (answer : ConnectResult) {c' : Connector}
      → is_connecting c.state ≡ false
      → restart sockfd answer c ≡ some c'
      → Step c c'
  writes :
      (has_error is_self : Bool) {c' : Connector}
      → handle_write has_error is_self c ≡ some c'
      → Step c c'
  fails : {c' : Connector} → handle_error c ≡ some c' → Step c c'
  timer_fires :
      (sockfd : ℕ) (answer : ConnectResult) {c' : Connector}
      → start_in_loop sockfd answer c ≡ some c'
      → Step c c'
  runs :
      (sockfd : ℕ) (answer : ConnectResult) {c' : Connector}
      → run_queued sockfd answer c ≡ some c'
      → Step c c'

pub data Reaches (c : Connector) : Connector → Type 0 where
  here : Reaches c c
  step_after : {d e : Connector} → Reaches c d → Step d e → Reaches c e

Step-Sound : (c c' : Connector) → Sound c → Step c c' → Sound c'
Step-Sound c c' s (starts_from in_loop sockfd answer e) = start-Sound in_loop sockfd answer c c' s e
Step-Sound c c' s stops_later = stop-Sound c s
Step-Sound c c' s (restarts sockfd answer idle e) = restart-Sound sockfd answer c c' s idle e
Step-Sound c c' s (writes has_error is_self e) = handle_write-Sound has_error is_self c c' s e
Step-Sound c c' s (fails e) = handle_error-Sound c c' s e
Step-Sound c c' s (timer_fires sockfd answer e) = start_in_loop-Sound sockfd answer c c' s e
Step-Sound c c' s (runs sockfd answer e) = run_queued-Sound sockfd answer c c' s e

init-Sound : Sound init
init-Sound = record {
  watches = λ e. ground arith;
  one_reset = refl;
  delay_least = omega arith;
  delay_most = omega arith;
  settled = λ x. refl;
}

-- In every connector that a new one can reach by these steps, as long as no assertion fails: each
-- socket has been opened as often as it has been closed, handed to the user, or is watched by the
-- channel now, taken together; a connector that is connecting has a channel, and a channel that is
-- left over waits to be reset by just one functor; and the delay of the next retry is between 500
-- and 30000 milliseconds.
pub Reaches-Sound : (c : Connector) → Reaches init c → Sound c
Reaches-Sound c here = init-Sound
Reaches-Sound c (step_after before step) = Step-Sound _ c (Reaches-Sound _ before) step
