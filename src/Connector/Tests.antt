-- ===== src/Connector/Tests.antt =====
-- The theorems of the connector at concrete runs.
use rfcs.Common.{◌≡◌, refl, true, [], ◌∷◌, some, arith}
use rfcs.Connector.{Connector, init, start, try_again, try_connect, start_in_loop, retry}
use rfcs.Connector.Sound.{Sound}
use rfcs.Connector.Sockets.{here, step_after, starts_from, Reaches-Sound}
use rfcs.Connector.Backoff.{retries, retries-doubled}

-- Refused once, then connected by the retry.
abbrev refused : Connector
refused = record init {
  connect = true;
  retry_delay = 1000;
  timers = 500 ∷ [];
  opened = 7 ∷ [];
  closed = 7 ∷ [];
}

refused-run : start true 7 try_again init ≡ some refused
unfolding start start_in_loop try_connect retry
refused-run = refl

Reaches-Sound_example : Sound refused
Reaches-Sound_example =
    Reaches-Sound refused (step_after here (starts_from true 7 try_again refused-run))

retries-doubled_example : (retries (7 ∷ 8 ∷ []) refused).retry_delay ≡ 4000
retries-doubled_example = retries-doubled (7 ∷ 8 ∷ []) refused refl (omega arith)
